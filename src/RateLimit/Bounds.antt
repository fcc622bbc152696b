-- ===== src/RateLimit/Bounds.antt =====
-- How much a limiter remembers.
use marstack_cloud.Common.{
  inl, inr, ℕ, suc, ◌-◌, ◌≤◌, String, ◌≡◌, refl, Bool, true, false, not, List, [], ◌∷◌, Option,
  none, some, ltb, leb, keep_if, length, Bool-cases, arith,
}
use marstack_cloud.RateLimit.Limiter.{
  Floats, Bucket, Limiter, max_tracked, idle, sweep_buckets, bucket_of, put_bucket, draw,
  allow_with, allow, tracked,
}

module _ (F : Floats) where
  length-put :
      (key : String) (b : Bucket F) (bs : List (String × Bucket F))
      → length (put_bucket F key b bs) ≤ suc (length bs)
  unfolding put_bucket
  length-put key b [] = omega arith
  length-put key b (c ∷ cs) = ground (arith, length-put key b cs)

  length-put_known :
      (key : String) (b c : Bucket F) (bs : List (String × Bucket F))
      → bucket_of F key bs ≡ some c
      → length (put_bucket F key b bs) ≡ length bs
  unfolding put_bucket bucket_of
  length-put_known key b c [] h = absurd (cc)
  length-put_known key b c (d ∷ ds) h = ground (arith, length-put_known key b c ds)

  kept_length :
      (p : Bool) (x : String × Bucket F) (ks xs : List (String × Bucket F))
      → length ks ≤ length xs
      → length {A = String × Bucket F} (elim p [ true ↦ x ∷ ks | false ↦ ks ]) ≤ suc (length xs)
  kept_length true x ks xs h = omega arith
  kept_length false x ks xs h = omega arith

  length-keep_if :
      (p : String × Bucket F → Bool) (bs : List (String × Bucket F))
      → length (keep_if p bs) ≤ length bs
  length-keep_if p [] = omega arith
  length-keep_if p (b ∷ bs) = kept_length (p b) b (keep_if p bs) bs (length-keep_if p bs)

  tracked-sweep : (now : ℕ) (l : Limiter F) → tracked F (sweep_buckets F now l) ≤ tracked F l
  unfolding tracked sweep_buckets
  tracked-sweep now l =
      ground (arith, length-keep_if (λ entry. not (leb idle (now - entry.1.seen_at))) l.buckets)

  tracked-allow_with :
      (l : Limiter F) (key : String) (now : ℕ) (o : Option (Bucket F))
      → bucket_of F key l.buckets ≡ o
      → tracked F l ≤ max_tracked
      → tracked F (allow_with F l key now o).1 ≤ max_tracked
  unfolding tracked allow_with
  tracked-allow_with l key now (some b) e h =
      let q = length-put_known key (draw F l.per_second l.burst now b).1 b l.buckets e in rw q h
  tracked-allow_with l key now none e h = elim (Bool-cases (ltb (length l.buckets) max_tracked)) [
    | inl t ↦
        let full : Bucket F = record { tokens = l.burst; seen_at = now } in
        let q = length-put key (draw F l.per_second l.burst now full).1 l.buckets in
        rw t (ground (arith, q))
    | inr f ↦ rw f h
  ]

-- A limiter that remembers at most 4096 keys does so after every request, which may sweep it, find
-- its bucket, make one or fall back on the shared one.
pub tracked-allow :
    (F : Floats) (l : Limiter F) (key : String) (now : ℕ)
    → tracked F l ≤ max_tracked
    → tracked F (allow F l key now).1 ≤ max_tracked
unfolding allow
tracked-allow F l key now h =
    let le = tracked-sweep F now l in
    tracked-allow_with F (sweep_buckets F now l) key now _ refl (omega arith)
