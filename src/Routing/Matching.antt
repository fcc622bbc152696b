-- ===== src/Routing/Matching.antt =====
-- The route that takes a request is the most specific one.
use marstack_cloud.Common.{
  ◌≤◌, ◌≡◌, refl, sym, ◌∙◌, Bool, true, false, if◌then◌else◌, str_eq, byte_count, IsRanking,
  true≢false, arith,
}
use marstack_cloud.Routing.Routes.{CompiledRoute, goes_before, longer_first}

-- The route is at least as specific as the other: one with a host is before one without, and then the
-- longer path.
pub record IsAtLeast (r s : CompiledRoute) : Type 0 where
  pub hosted : str_eq r.host "" ≡ true → str_eq s.host "" ≡ true
  pub longer : str_eq r.host "" ≡ str_eq s.host "" → byte_count s.path ≤ byte_count r.path

abbrev pub Anything : CompiledRoute → Type 0
Anything r = Unit

longer_first-true :
    (a b : CompiledRoute) → longer_first a b ≡ true → byte_count b.path ≤ byte_count a.path
unfolding longer_first
longer_first-true a b e = ground arith

longer_first-false :
    (a b : CompiledRoute) → longer_first a b ≡ false → byte_count a.path ≤ byte_count b.path
unfolding longer_first
longer_first-false a b e = ground arith

-- The hosts' part of the comparison, by whether each host is empty.
abbrev by_hosts : Bool → Bool → Bool → Bool
by_hosts x y longer = if x then if y then longer else false else if y then true else longer

hosted_of_true : (x y l : Bool) → by_hosts x y l ≡ true → x ≡ true → y ≡ true
hosted_of_true x true l e h = refl
hosted_of_true true false l e h = e
hosted_of_true false false l e h = h

hosted_of_false : (x y l : Bool) → by_hosts x y l ≡ false → y ≡ true → x ≡ true
hosted_of_false true y l e h = refl
hosted_of_false false true l e h = sym e
hosted_of_false false false l e h = h

longer_of_same : (x y l : Bool) → x ≡ y → by_hosts x y l ≡ l
longer_of_same true true l e = refl
longer_of_same false false l e = refl
longer_of_same true false l e = absurd (true≢false e)
longer_of_same false true l e = absurd (true≢false (sym e))

shared_middle : (x y z : Bool) → (x ≡ true → y ≡ true) → (y ≡ true → z ≡ true) → x ≡ z → x ≡ y
shared_middle true y z h k e = sym (h refl)
shared_middle false false z h k e = refl
shared_middle false true z h k e = e ∙ k refl

of_goes_before : (a b : CompiledRoute) → goes_before a b ≡ true → IsAtLeast a b
unfolding goes_before
of_goes_before a b e = record {
  hosted = hosted_of_true _ _ _ e;
  longer = λ h. longer_first-true a b (sym (longer_of_same _ _ _ h) ∙ e);
}

of_not_goes_before : (a b : CompiledRoute) → goes_before a b ≡ false → IsAtLeast b a
unfolding goes_before
of_not_goes_before a b e = record {
  hosted = hosted_of_false _ _ (longer_first a b) e;
  longer = λ h. longer_first-false a b (sym (longer_of_same _ _ _ (sym h)) ∙ e);
}

through : (a b c : CompiledRoute) → IsAtLeast a b → IsAtLeast b c → IsAtLeast a c
through a b c h k = record {
  hosted = λ e. k.hosted (h.hosted e);
  longer = λ e.
      let same = shared_middle _ _ _ h.hosted k.hosted e in
      let low = k.longer (sym same ∙ e) in let high = h.longer same in omega arith;
}

pub ranking : IsRanking goes_before Anything IsAtLeast
ranking = record {
  le_refl = λ a p. record { hosted = λ h. h; longer = λ e. omega arith };
  le_trans = λ a b c p q r. through a b c;
  of_less = λ a b p q. of_goes_before a b;
  of_not_less = λ a b p q. of_not_goes_before a b;
}
