-- ===== src/Node/Requests.antt =====
-- device.go: the requests on devices, one after another, and what a free device is good for.
use marstack_cloud.Common.{
  inl, inr, ℕ, ◌+◌, ◌≡◌, refl, sym, ap, ◌∙◌, String, true, List, [], ◌∷◌, Option, none, some, map,
  str_eq, eq_iff, str_eq_refl, All, All-of_In, All-sort, Apart, In, here, there, In-keep_if,
  Bool-cases, World, pure, ◌>>=◌, when◌run◌otherwise◌, ask_at, run_sql, read_tables, write_tables,
  continue, arith,
}
use marstack_cloud.Fault.{ok, err}
use marstack_cloud.Node.Rows.{Device, Tables, Env, M, statement, query}
use marstack_cloud.Node.Devices.{
  by_address, on_node, query_devices, devices_on, is_claimable, claim_row, set_devices, is_free,
  first_free_device, free_device, held_by, claim_first, claim_with, claim_device, release_instance,
}
use marstack_cloud.Node.Holding.{key_clash, one_claimable, claimed}
use marstack_cloud.Node.Claiming.{Held, set_devices-Held, release-Held, claim_device-Held}

pub data Request : Type 0 where
  report_devices : String → List Device → Request
  claim_for : String → String → String → Request
  release_of : String → Request

-- What a request leaves, whether it succeeds or fails.
unfoldable pub handle : Env → Request → World Tables → World Tables
handle env (report_devices node_id held) w = (set_devices env node_id held w).1
handle env (claim_for node_id kind instance_id) w = (claim_device env node_id kind instance_id w).1
handle env (release_of instance_id) w = (release_instance env instance_id w).1

unfoldable pub handle_all : Env → List Request → World Tables → World Tables
handle_all env [] w = w
handle_all env (r ∷ rs) w = handle_all env rs (handle env r w)

handle-Held :
    (env : Env) (r : Request) (w : World Tables) → Held w.tables → Held (handle env r w).tables
unfolding handle
handle-Held env (report_devices node_id held) w s = ((set_devices-Held env node_id held).at w s).0
handle-Held env (claim_for node_id kind instance_id) w s =
    ((claim_device-Held env node_id kind instance_id).at w s).0
handle-Held env (release_of instance_id) w s = ((release-Held env instance_id).at w s).0

-- Where no two rows have one node and address, and no instance holds two devices of one node, this
-- stays so through any reports, claims and releases, in any order and whatever fails.
pub handle_all-Held :
    (env : Env) (rs : List Request) (w : World Tables)
    → Held w.tables
    → Held (handle_all env rs w).tables
unfolding handle_all
handle_all-Held env [] w s = s
handle_all-Held env (r ∷ rs) w s = handle_all-Held env rs (handle env r w) (handle-Held env r w s)

-- A device of the node, free before and of the kind that is asked for, is the instance's after.
pub record IsGiven (node_id kind instance_id address : String) (before after : List Device)
    : Type 0 where
  pub device : Device
  pub was_stored : In device before
  pub was_free : is_free kind device ≡ true
  pub same_node : device.node_id ≡ node_id
  pub same_address : device.address ≡ address
  pub is_stored : In (record device { instance_id = instance_id }) after

In-claimed :
    (node_id address instance_id : String) (d : Device) (ds : List Device)
    → In d ds
    → is_claimable node_id address d ≡ true
    → In (record d { instance_id = instance_id }) (map (claimed node_id address instance_id) ds)
In-claimed node_id address instance_id d [] m e = elim m [ ]
In-claimed node_id address instance_id d (_ ∷ ds) here e = rw e here
In-claimed node_id address instance_id d (x ∷ ds) (there m) e =
    there (In-claimed node_id address instance_id d ds m e)

-- A database that does not fail.
abbrev pub Quiet : Env → Type 0
Quiet env = (n : ℕ) → env.database n ≡ none

same_answer : (a b : String) → some a ≡ some b → ok a ≡ ok b
same_answer a b e = ap (λ o. elim o [ none ↦ ok a | some x ↦ ok x ]) e

same_text : (a b : String) → some a ≡ some b → a ≡ b
same_text a b e = ap (λ o. elim o [ none ↦ a | some x ↦ x ]) e

module _ (env : Env) (quiet : Quiet env) (node_id kind instance_id : String) where
  -- A free row of the node is claimed.
  claim_row-free :
      (d : Device) (w : World Tables)
      → Apart key_clash w.tables.devices
      → In d w.tables.devices
      → is_claimable node_id d.address d ≡ true
      → let (r, w') = claim_row env node_id d.address instance_id w in
        (r ≡ ok true) × In (record d { instance_id = instance_id }) w'.tables.devices
  unfolding claim_row statement run_sql ask_at read_tables write_tables pure ◌>>=◌
  claim_row-free d w k k0 t =
      let one = one_claimable node_id d.address instance_id d w.tables.devices k k0 t in
      rw (quiet w.moment, quiet (w.moment + 1), one)
        (refl, In-claimed node_id d.address instance_id d w.tables.devices k0 t)

  free-claimable :
      (d : Device)
      → is_free kind d ≡ true
      → str_eq d.node_id node_id ≡ true
      → is_claimable node_id d.address d ≡ true
  unfolding is_claimable
  free-claimable d f n = ground (arith, str_eq_refl d.address)

  claim_first-free :
      (held : List Device) (w : World Tables) (address : String)
      → Apart key_clash w.tables.devices
      → All (λ d. In d w.tables.devices × (str_eq d.node_id node_id ≡ true)) held
      → first_free_device kind held ≡ some address
      → let (r, w') = claim_first env node_id kind instance_id held w in
        (r ≡ ok address)
        × IsGiven node_id kind instance_id address w.tables.devices w'.tables.devices
  unfolding claim_first first_free_device when◌run◌otherwise◌ ◌>>=◌ pure
  claim_first-free [] w address k h e = ground arith
  claim_first-free (d ∷ held) w address k h e = elim (Bool-cases (is_free kind d)) [
    | inr f ↦ rw f (claim_first-free held w address k h.1 (rw f at e))
    | inl f ↦
        let free : is_claimable node_id d.address d ≡ true = free-claimable d f h.0.1 in
        let row = claim_row-free d w k h.0.0 free in
        let same = same_text d.address address (rw f at e) in
        rw (f, row.0)
          (
            same_answer d.address address (rw f at e),
            record {
              device = d;
              was_stored = h.0.0;
              was_free = f;
              same_node = (eq_iff _ _).0 h.0.1;
              same_address = same;
              is_stored = row.1;
            },
          )
  ]

  rows_of_node :
      (ds : List Device)
      → All (λ d. In d ds × (str_eq d.node_id node_id ≡ true)) (on_node node_id ds)
  unfolding on_node
  rows_of_node ds =
      All-sort by_address (λ d. In d ds × (str_eq d.node_id node_id ≡ true)) _
        (All-of_In _ (λ d m. In-keep_if _ d ds m))

abbrev later : World Tables → World Tables
later w = record w { moment = w.moment + 1 }

devices_on-ok :
    (env : Env) (node_id : String) (w : World Tables)
    → Quiet env
    → devices_on env node_id w ≡ (ok (on_node node_id w.tables.devices), later w)
unfolding devices_on query_devices query statement run_sql ask_at read_tables ◌>>=◌
devices_on-ok env node_id w quiet = rw (quiet w.moment) refl

after_ok :
    {A B : Type 0} (m : M A) (f : A → M B) (a : A) (w w' : World Tables)
    → m w ≡ (ok a, w')
    → (m >>= f) w ≡ f a w'
unfolding ◌>>=◌
after_ok m f a w w' e = ap (λ p. continue p.0 f p.1) e

free_device-ok :
    (env : Env) (node_id kind : String) (w : World Tables)
    → Quiet env
    → free_device env node_id kind w
      ≡ (ok (first_free_device kind (on_node node_id w.tables.devices)), later w)
unfolding free_device pure
free_device-ok env node_id kind w quiet =
    after_ok (devices_on env node_id) _ _ w (later w) (devices_on-ok env node_id w quiet)

ok_same : (a b : Option String) → ok a ≡ ok b → a ≡ b
ok_same a b e = ap (λ r. elim r [ ok x ↦ x | err e ↦ a ]) e

-- Where the database does not fail and the table has one row for each node and address, a device that
-- FreeDevice finds is the one that ClaimDevice then gives to an instance that holds none on the node: it
-- answers with its address, and a row of the node with that address, which was free, ready and of the
-- kind asked for, is stored as held by the instance.
pub claim_device-free_device :
    (env : Env) (node_id kind instance_id address : String) (w : World Tables)
    → Quiet env
    → Held w.tables
    → held_by instance_id (on_node node_id w.tables.devices) ≡ none
    → (free_device env node_id kind w).0 ≡ ok (some address)
    → let (r, w') = claim_device env node_id kind instance_id (free_device env node_id kind w).1 in
      (r ≡ ok address) × IsGiven node_id kind instance_id address w.tables.devices w'.tables.devices
unfolding claim_device claim_with
claim_device-free_device env node_id kind instance_id address w quiet s none_held found =
    let asked = free_device-ok env node_id kind w quiet in
    let first = ok_same _ _ (sym (ap (λ p. p.0) asked) ∙ found) in
    let claim =
      after_ok (devices_on env node_id)
        (λ held. claim_with env node_id kind instance_id held (held_by instance_id held)) _
        (later w) (later (later w)) (devices_on-ok env node_id (later w) quiet) in
    let given =
      claim_first-free env quiet node_id kind instance_id (on_node node_id w.tables.devices)
        (later (later w)) address s.keys
        (rows_of_node env quiet node_id kind instance_id w.tables.devices) first in
    rw (asked, claim, none_held) given
