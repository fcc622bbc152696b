-- ===== src/RateLimit/Bursts.antt =====
-- How many requests a limiter lets through at one moment.
use Prim.Native.Nat.{min}
use marstack_cloud.Common.{
  inl, inr, ℕ, zero, suc, ◌-◌, ◌^◌, ◌≤◌, String, ◌≡◌, refl, sym, ap, subst, ◌∙◌, Bool, true, false,
  List, [], ◌∷◌, some, if◌then◌else◌, ltb, str_eq, str_eq_refl, Bool-cases, arith,
}
use marstack_cloud.RateLimit.Limiter.{
  Floats, Bucket, Limiter, idle, fresh_limiter, sweep_buckets, bucket_of, put_bucket, cap, refill,
  spend, draw, allow_with, allow,
}

-- The whole numbers that a float64 holds exactly.
abbrev pub whole_limit : ℕ
whole_limit = 2 ^ 53

-- On these, float64 counts down by one and compares as the numbers do, and what no time brings adds
-- nothing.
pub record IsExact (F : Floats) : Type 0 where
  pub still :
      (n rate : ℕ)
      → n ≤ whole_limit
      → F.add (F.of_int n) (F.times (F.seconds 0) (F.of_int rate)) ≡ F.of_int n
  pub fewer :
      (n : ℕ) → suc n ≤ whole_limit → F.subtract (F.of_int (suc n)) (F.of_int 1) ≡ F.of_int n
  pub compared :
      (m n : ℕ) → m ≤ whole_limit → n ≤ whole_limit → F.is_below (F.of_int m) (F.of_int n) ≡ ltb m n

-- How many of so many requests for a key at one moment are let through.
abbrev pub let_through : (F : Floats) → String → ℕ → ℕ → Limiter F → ℕ
let_through F key now zero l = 0
let_through F key now (suc n) l =
    let (answer, l') = allow F l key now in
    let rest = let_through F key now n l' in if answer.0 then suc rest else rest

module _ (F : Floats) (exact : IsExact F) (rate burst now : ℕ) (fits : burst ≤ whole_limit) where
  abbrev Whole : ℕ → Bucket F
  Whole k = record { tokens = F.of_int k; seen_at = now }

  refill-Whole :
      (k : ℕ) → k ≤ burst → refill F (F.of_int rate) (F.of_int burst) now (Whole k) ≡ Whole k
  unfolding refill cap
  refill-Whole k le =
      let same : now - now ≡ 0 = omega arith in
      let over : ltb burst k ≡ false = ground arith in
      rw (same, exact.still k rate (omega arith), exact.compared burst k fits (omega arith), over)
        refl

  draw-none :
      let (answer, b) = draw F (F.of_int rate) (F.of_int burst) now (Whole 0) in
      (answer.0 ≡ false) × (b ≡ Whole 0)
  unfolding draw spend
  draw-none =
      rw (refill-Whole 0 (omega arith), exact.compared 0 1 (omega arith) (omega arith)) (refl, refl)

  draw-some :
      (k : ℕ)
      → suc k ≤ burst
      → let (answer, b) = draw F (F.of_int rate) (F.of_int burst) now (Whole (suc k)) in
        (answer.0 ≡ true) × (b ≡ Whole k)
  unfolding draw spend
  draw-some k le =
      let no : ltb (suc k) 1 ≡ false = ground arith in
      rw
        (
          refill-Whole (suc k) le,
          exact.compared (suc k) 1 (omega arith) (omega arith),
          no,
          exact.fewer k (omega arith),
        )
        (refl, refl)

  -- The key has `k` tokens, and was seen at this moment.
  record Has (key : String) (k : ℕ) (l : Limiter F) : Type 0 where
    pub rate_is : l.per_second ≡ F.of_int rate
    pub burst_is : l.burst ≡ F.of_int burst
    pub is_swept : ltb (now - l.swept_at) idle ≡ true
    pub bucket : bucket_of F key l.buckets ≡ some (Whole k)

  bucket_of-put :
      (key : String) (b : Bucket F) (bs : List (String × Bucket F))
      → bucket_of F key (put_bucket F key b bs) ≡ some b
  unfolding bucket_of put_bucket
  bucket_of-put key b [] = rw (str_eq_refl key) refl
  bucket_of-put key b ((k, c) ∷ rest) = elim (Bool-cases (str_eq k key)) [
    | inl e ↦ rw (e, bucket_of) (rw e refl)
    | inr e ↦ rw (e, bucket_of) (rw e (bucket_of-put key b rest))
  ]

  -- A draw with these rates takes a bucket from `k` tokens to `j`.
  abbrev Drawn : F.Float → F.Float → ℕ → ℕ → Bool → Type 0
  Drawn r c k j answer =
      ((draw F r c now (Whole k)).0.0 ≡ answer) × ((draw F r c now (Whole k)).1 ≡ Whole j)

  Drawn-of :
      (r c : F.Float) (k j : ℕ) (answer : Bool)
      → r ≡ F.of_int rate
      → c ≡ F.of_int burst
      → Drawn (F.of_int rate) (F.of_int burst) k j answer
      → Drawn r c k j answer
  Drawn-of r c k j answer e f d =
      subst (λ r. Drawn r c k j answer) (sym e)
        (subst (λ c. Drawn (F.of_int rate) c k j answer) (sym f) d)

  abbrev Answered : String → ℕ → Bool → (Bool × ℕ) × Limiter F → Type 0
  Answered key j answer out = (out.0.0 ≡ answer) × Has key j out.1

  sweep_same : (l : Limiter F) (key : String) (k : ℕ) → Has key k l → sweep_buckets F now l ≡ l
  unfolding sweep_buckets
  sweep_same l key k h = rw h.is_swept refl

  allow-Has :
      (l : Limiter F) (key : String) (k j : ℕ) (answer : Bool)
      → Has key k l
      → Drawn (F.of_int rate) (F.of_int burst) k j answer
      → Answered key j answer (allow F l key now)
  unfolding allow allow_with
  allow-Has l key k j answer h d =
      let swept = sweep_same l key k h in
      let e = Drawn-of l.per_second l.burst k j answer h.rate_is h.burst_is d in
      rw (swept, h.bucket)
        (
          e.0,
          record {
            rate_is = h.rate_is;
            burst_is = h.burst_is;
            is_swept = h.is_swept;
            bucket = bucket_of-put key _ l.buckets ∙ ap some e.1;
          },
        )

  -- The first request for a key makes its bucket.
  fresh-Has :
      (key : String) (j : ℕ) (answer : Bool)
      → Drawn (F.of_int rate) (F.of_int burst) burst j answer
      → Answered key j answer (allow F (fresh_limiter F rate burst now) key now)
  unfolding allow allow_with fresh_limiter sweep_buckets bucket_of
  fresh-Has key j answer d =
      let soon : ltb (now - now) idle ≡ true = ground arith in
      rw (soon) (
        d.0,
        record {
          rate_is = refl;
          burst_is = refl;
          is_swept = soon;
          bucket = bucket_of-put key _ [] ∙ ap some d.1;
        },
      )

  let_through-Has :
      (n k : ℕ) (l : Limiter F) (key : String)
      → k ≤ burst
      → Has key k l
      → let_through F key now n l ≡ min n k
  let_through-Has zero k l key le h = omega arith
  let_through-Has (suc n) zero l key le h =
      let a = allow-Has l key 0 0 false h draw-none in
      let ih = let_through-Has n zero (allow F l key now).1 key le a.1 in rw a.0 (omega arith)
  let_through-Has (suc n) (suc k) l key le h =
      let a = allow-Has l key (suc k) k true h (draw-some k le) in
      let ih = let_through-Has n k (allow F l key now).1 key (omega arith) a.1 in
      rw a.0 (omega arith)

  let_through-from :
      (n j : ℕ) (answer : Bool) (key : String)
      → j ≤ burst
      → Answered key j answer (allow F (fresh_limiter F rate burst now) key now)
      → let_through F key now (suc n) (fresh_limiter F rate burst now)
        ≡ (if answer then suc (min n j) else min n j)
  let_through-from n j answer key le a =
      rw (a.0, let_through-Has n j (allow F (fresh_limiter F rate burst now) key now).1 key le a.1)
        refl

-- Where float64 is exact on the whole numbers up to 2^53, of any number of requests for one key that come
-- at the moment at which a limiter is made, as many are let through as its burst, which is at most that,
-- and every further one is refused.
pub let_through-fresh_limiter :
    (F : Floats) (rate burst now n : ℕ) (key : String)
    → IsExact F
    → burst ≤ whole_limit
    → let_through F key now n (fresh_limiter F rate burst now) ≡ min n burst
let_through-fresh_limiter F rate burst now zero key exact fits = omega arith
let_through-fresh_limiter F rate zero now (suc n) key exact fits =
    let_through-from F exact rate zero now fits n zero false key (omega arith)
      (fresh-Has F exact rate zero now fits key zero false (draw-none F exact rate zero now fits))
    ∙ omega arith
let_through-fresh_limiter F rate (suc b) now (suc n) key exact fits =
    let_through-from F exact rate (suc b) now fits n b true key (omega arith) (
      fresh-Has F exact rate (suc b) now fits key b true
        (draw-some F exact rate (suc b) now fits b (omega arith)))
    ∙ omega arith
