-- ===== src/Quota.antt =====
-- internal/platform/quota: how much a project may hold. The limits are signed, since a negative one
-- is refused; what a project holds and claims are counts. The table is a list of rows, one for a
-- project; `Deps` are the database's health and the two interfaces, `none` where nil.
pub mod Service
pub mod Admission
pub mod Rows
pub mod Examples
