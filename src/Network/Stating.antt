-- ===== src/Network/Stating.antt =====
-- The rules for the statements, and what the choices of a range and of an address give.
use marstack_cloud.Common.{
  inl, inr, ◌≡◌, sym, ap, ◌∙◌, subst, String, mem_str, Bool, false, List, Fact, Any, World, lift,
  Spec, Spec-bind, Spec-when, Spec-raise, Spec-mono, Spec-of_Gives, Gives, Gives-bind,
  Gives-bind_any, Gives-pure, Gives-lift, Gives-lift-Any, Gives-pure-Any, Gives-when,
  Gives-refuse_if, Any-Fact, Gives-fail_as, Gives-read, Maintains, Maintains-sql, Spec-read,
  Spec-lift, Post, Spec-write,
}
use marstack_cloud.Fault.{Error, Result, ok, err, internal_fault}
use marstack_cloud.Network.Addresses.{Addr, Prefix}
use marstack_cloud.Network.Ipam.{Netip, parse_prefix}
use marstack_cloud.Network.Searching.{IsPrefix, FirstFree}
use marstack_cloud.Network.Choosing.{
  SliceFor, host, hosts_end, next_slice-SliceFor, next_address-FirstFree,
}
use marstack_cloud.Network.Rows.{
  Network, Tables, Env, M, taken_slices, taken_slices6, taken_addresses, taken_addresses6, network,
  statement, query, selected, insert_unless,
}
use marstack_cloud.Network.Service.{translate, translated, get, get_in}
use marstack_cloud.Network.Leases.{
  chosen, exhausted, choose_slice, choose_second, choose_address, choose_address6,
}
use marstack_cloud.Network.Lawful.{NetipLaws, IsRange, IsSlice, IsHost, parse_prefix-text}

read_row :
    {A : Type 0} (P : Tables → Type 0) (R : A → Tables → Type 0) (select : Tables → Result A)
    (r : Result A) (w : World Tables)
    → P w.tables
    → r ≡ select w.tables
    → Fact (λ a. R a w.tables) (select w.tables)
    → Post (λ w. P w.tables) (λ a w. P w.tables × R a w.tables) (r, w)
read_row P R select (ok a) w p e f = (p, subst (Fact (λ a. R a w.tables)) (sym e) f)
read_row P R select (err x) w p e f = p

module _ (P : Tables → Type 0) (env : Env) where
  pub Maintains-statement : (label : String) → Maintains P (statement env label)
  unfolding statement
  Maintains-statement label = Maintains-sql P env.database label

  pub Gives-query :
      {A : Type 0} {F : A → Type 0} (label : String) (select : Tables → A)
      → ((t : Tables) → P t → F (select t))
      → Gives (λ w. P w.tables) (query env label select) F
  unfolding query
  Gives-query label select h =
      Gives-bind_any _ _ (Maintains-statement label) (λ _. Gives-read P select h)

  pub Gives-selected :
      {A : Type 0} {F : A → Type 0} (label : String) (select : Tables → Result A)
      → ((t : Tables) → P t → Fact F (select t))
      → Gives (λ w. P w.tables) (selected select env label) F
  unfolding selected
  Gives-selected {F} label select h =
      Gives-bind _ _ (Gives-query {F = Fact F} label select h) (λ r k. Gives-lift r k)

  pub Gives-translated :
      {A : Type 0} {F : A → Type 0} (m : M A)
      → Gives (λ w. P w.tables) m F
      → Gives (λ w. P w.tables) (translated m) F
  unfolding translated
  Gives-translated m h = Gives-fail_as translate m h

  pub Spec-query :
      {A : Type 0} (R : A → Tables → Type 0) (label : String) (select : Tables → A)
      → ((t : Tables) → P t → R (select t) t)
      → Spec
          (λ w. P w.tables)
          (λ w. P w.tables)
          (query env label select)
          (λ a w. P w.tables × R a w.tables)
  unfolding query
  Spec-query R label select h = Spec-bind _ _ (Spec-of_Gives _ (Maintains-statement label)) (λ _.
      Spec-mono _ (λ w p. p.0)
        (λ a w q. (q.0, subst (λ a. R a w.tables) (sym q.1) (h w.tables q.0)))
        (Spec-read (λ w. P w.tables) select))

  -- What is read stands in the tables that it is read from.
  pub Spec-selected :
      {A : Type 0} (R : A → Tables → Type 0) (label : String) (select : Tables → Result A)
      → ((t : Tables) → P t → Fact (λ a. R a t) (select t))
      → Spec
          (λ w. P w.tables)
          (λ w. P w.tables)
          (selected select env label)
          (λ a w. P w.tables × R a w.tables)
  unfolding selected query
  Spec-selected R label select h =
      Spec-bind _ _
        (Spec-bind _ _ (Spec-of_Gives _ (Maintains-statement label))
          (λ _. Spec-read (λ w. P w.tables × Unit) select))
        (λ r. Spec-lift r (λ w p. read_row P R select r w p.0.0 p.1 (h w.tables p.0.0)))

  -- A row is inserted where no index has one like it.
  pub Spec-insert :
      (Q : Tables → Type 0) (label : String) (taken : Error) (clash : Tables → Bool)
      (change : Tables → Tables)
      → ((t : Tables) → P t → clash t ≡ false → Q (change t))
      → Spec
          (λ w. P w.tables)
          (λ w. P w.tables)
          (insert_unless env label taken clash change)
          (λ _ w. Q w.tables)
  unfolding insert_unless
  Spec-insert Q label taken clash change h =
      Spec-bind _ _ (Spec-of_Gives _ (Maintains-statement label)) (λ _.
        Spec-bind _ _ (Spec-read (λ w. P w.tables × Unit) clash) (λ held.
          Spec-when held _ _ (λ _. Spec-raise taken (λ w p. p.0.0))
            (λ e. Spec-write _ change Q (λ w p. h w.tables p.0.0 (sym p.1 ∙ e)))))

chosen-Fact :
    {A : Type 0} (F : A → Type 0) (f : Error → Error) (r : Result A)
    → Fact F r
    → Fact F (chosen f r)
chosen-Fact F f (ok a) h = h
chosen-Fact F f (err e) h = tt

Gives-chosen :
    (P : Tables → Type 0) {A : Type 0} (F : A → Type 0) (f : Error → Error) (r : Result A)
    → Fact F r
    → Gives {S = World Tables} (λ w. P w.tables) (lift (chosen f r)) F
Gives-chosen P F f r h = Gives-lift (chosen f r) (chosen-Fact F f r h)

IsSlice-found :
    (N : Netip) (p : Prefix) (taken : List String) (r : Result Prefix)
    → SliceFor N p taken r
    → Fact (λ c. IsSlice N p (N.prefix_text c)) r
unfolding SliceFor
IsSlice-found N p taken (ok c) (inl (b, (e, bad))) = cc
IsSlice-found N p taken (ok c) (inr (larger, (k, above, below, same, free, rest))) =
    (k, above, below, larger, ap N.prefix_text same)
IsSlice-found N p taken (err e) h = tt

address_found :
    (N : Netip) (p : Prefix) (skip : Addr → Bool) (r : Result Addr)
    → FirstFree skip (host p) 1 (hosts_end p) r
    → Fact (λ a. IsHost N p (N.addr_text a)) r
address_found N p skip (ok a) (k, above, below, same, free, rest) =
    (k, above, below, ap N.addr_text same)
address_found N p skip (err e) h = tt

module _ (P : Tables → Type 0) (env : Env) (laws : NetipLaws env.netip) where
  read_back :
      (p : Prefix) (cidr : String)
      → IsPrefix p
      → cidr ≡ env.netip.prefix_text p
      → Fact (λ q. q ≡ p) (parse_prefix env.netip cidr)
  read_back p cidr wf e =
      subst (λ s. Fact (λ q. q ≡ p) (parse_prefix env.netip s)) (sym e)
        (parse_prefix-text env.netip laws p wf)

  pub choose_slice-IsSlice :
      (p : Prefix) (cidr : String) (read : M (List String))
      → IsRange env.netip p cidr
      → Gives (λ w. P w.tables) read Any
      → Gives (λ w. P w.tables) (choose_slice env cidr read) (IsSlice env.netip p)
  unfolding choose_slice
  choose_slice-IsSlice p cidr read (wf, e) h =
      Gives-bind _ _ (Gives-chosen P (λ q. q ≡ p) internal_fault _ (read_back p cidr wf e))
        (λ q same. Gives-bind_any _ _ (Gives-translated P env read h) (λ taken.
          Gives-bind _ _
            (Gives-chosen P (λ c. IsSlice env.netip p (env.netip.prefix_text c))
              (exhausted "network_exhausted") _
              (rw same
                (IsSlice-found env.netip p taken _ (next_slice-SliceFor env.netip p taken wf))))
            (λ c k. Gives-pure _ k)))

  pub choose_address-IsHost :
      (p : Prefix) (cidr : String) (read : M (List String))
      → IsRange env.netip p cidr
      → Gives (λ w. P w.tables) read Any
      → Gives (λ w. P w.tables) (choose_address env cidr read) (IsHost env.netip p)
  unfolding choose_address
  choose_address-IsHost p cidr read (wf, e) h =
      Gives-bind _ _ (Gives-chosen P (λ q. q ≡ p) internal_fault _ (read_back p cidr wf e))
        (λ q same. Gives-bind_any _ _ (Gives-translated P env read h) (λ taken.
          Gives-bind _ _
            (Gives-chosen P (λ a. IsHost env.netip p (env.netip.addr_text a))
              (exhausted "slice_exhausted") _
              (rw same (
                address_found env.netip p (λ a. mem_str (env.netip.addr_text a) taken) _
                  (next_address-FirstFree env.netip p taken wf))))
            (λ a k. Gives-pure _ k)))

module _ (P : Tables → Type 0) (env : Env) where
  pub Maintains-choose_slice :
      (cidr : String) (read : M (List String))
      → Maintains P read
      → Maintains P (choose_slice env cidr read)
  unfolding choose_slice
  Maintains-choose_slice cidr read h = Gives-bind_any _ _ (Gives-lift-Any _) (λ p.
      Gives-bind_any _ _ (Gives-translated P env read h)
        (λ taken. Gives-bind_any _ _ (Gives-lift-Any _) (λ c. Gives-pure-Any _)))

  pub Maintains-taken : (id : String) → Maintains P (taken_slices env id)
  unfolding taken_slices
  Maintains-taken id = Gives-query P env _ _ (λ t p. tt)

  pub Maintains-taken6 : (id : String) → Maintains P (taken_slices6 env id)
  unfolding taken_slices6
  Maintains-taken6 id = Gives-query P env _ _ (λ t p. tt)

  pub Maintains-second : (id : String) (n : Network) → Maintains P (choose_second env id n)
  unfolding choose_second
  Maintains-second id n =
      Gives-when _ _ _ (λ _. Maintains-choose_slice _ _ (Maintains-taken6 id))
        (λ _. Gives-pure-Any _)

  pub Maintains-address6 :
      (network_id cidr6 : String) → Maintains P (choose_address6 env network_id cidr6)
  unfolding choose_address6 choose_address taken_addresses6 taken_addresses
  Maintains-address6 network_id cidr6 =
      Gives-when _ _ _ (λ _. Gives-pure-Any _)
        (λ _. Gives-bind_any _ _ (Gives-lift-Any _) (λ p.
          Gives-bind_any _ _ (Gives-translated P env _ (Gives-query P env _ _ (λ t k. tt)))
            (λ taken. Gives-bind_any _ _ (Gives-lift-Any _) (λ a. Gives-pure-Any _))))

  pub Maintains-get : (id : String) → Maintains P (get env id)
  unfolding get network translated
  Maintains-get id = Gives-translated P env _ (Gives-selected P env _ _ (λ t p. Any-Fact _))

  pub Maintains-get_in : (id project_id : String) → Maintains P (get_in env id project_id)
  unfolding get_in
  Maintains-get_in id project_id =
      Gives-bind_any _ _ (Maintains-get id) (λ n. Gives-refuse_if _ _ _ (λ e. Gives-pure-Any n))
