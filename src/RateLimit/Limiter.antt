-- ===== src/RateLimit/Limiter.antt =====
-- internal/kernel/ratelimit/ratelimit.go. The arithmetic on float64 is a parameter. The clock does not
-- go back. The lock makes each operation one step.
use marstack_cloud.Common.{
  ℕ, zero, suc, ◌+◌, ◌-◌, ◌*◌, String, Bool, true, false, not, List, [], ◌∷◌, Option, none, some,
  if◌then◌else◌, leb, ltb, str_eq, keep_if, length,
}
use marstack_cloud.Common.Int.{ℤ, pos, negsuc}

-- float64, and what the code uses of it: `seconds` is `Duration.Seconds`, `nanoseconds` the conversion
-- to a Duration.
pub record Floats : Type 1 where
  pub Float : Type 0
  pub of_int : ℕ → Float
  pub seconds : ℕ → Float
  pub add : Float → Float → Float
  pub subtract : Float → Float → Float
  pub times : Float → Float → Float
  pub divide : Float → Float → Float
  pub is_below : Float → Float → Bool
  pub nanoseconds : Float → ℕ

abbrev pub one_second : ℕ
one_second = 1000000000

abbrev pub max_tracked : ℕ
max_tracked = 4096

abbrev pub idle : ℕ
idle = 300 * 1000000000

module _ (F : Floats) where
  pub record Bucket : Type 0 where
    pub tokens : F.Float
    pub seen_at : ℕ

  pub record Limiter : Type 0 where
    pub per_second : F.Float
    pub burst : F.Float
    pub buckets : List (String × Bucket)
    pub shared : Bucket
    pub swept_at : ℕ
    pub overflow : Bool

  unfoldable pub fresh_limiter : ℕ → ℕ → ℕ → Limiter
  fresh_limiter per_second burst now = record {
    per_second = F.of_int per_second;
    burst = F.of_int burst;
    buckets = [];
    shared = record { tokens = F.of_int burst; seen_at = now };
    swept_at = now;
    overflow = false;
  }

  -- `New`: none is the nil limiter.
  unfoldable pub new_limiter : ℤ → ℤ → ℕ → Option Limiter
  new_limiter (negsuc n) burst now = none
  new_limiter (pos zero) burst now = none
  new_limiter (pos (suc n)) (pos (suc b)) now = some (fresh_limiter (suc n) (suc b) now)
  new_limiter (pos (suc n)) burst now = some (fresh_limiter (suc n) (suc n) now)

  -- `sweep`: the buckets that were not seen for the idle time are dropped.
  unfoldable pub sweep_buckets : ℕ → Limiter → Limiter
  sweep_buckets now l =
      let kept = keep_if (λ entry. not (leb idle (now - entry.1.seen_at))) l.buckets in
      if ltb (now - l.swept_at) idle then l else record l {
        swept_at = now;
        buckets = kept;
        overflow = if ltb (length kept) max_tracked then false else l.overflow;
      }

  unfoldable pub bucket_of : String → List (String × Bucket) → Option Bucket
  bucket_of key [] = none
  bucket_of key ((k, b) ∷ rest) = if str_eq k key then some b else bucket_of key rest

  unfoldable pub put_bucket : String → Bucket → List (String × Bucket) → List (String × Bucket)
  put_bucket key b [] = (key, b) ∷ []
  put_bucket key b ((k, c) ∷ rest) =
      if str_eq k key then (k, b) ∷ rest else (k, c) ∷ put_bucket key b rest

  unfoldable pub cap : F.Float → F.Float → F.Float
  cap burst tokens = if F.is_below burst tokens then burst else tokens

  unfoldable pub refill : F.Float → F.Float → ℕ → Bucket → Bucket
  refill per_second burst now b = record {
    tokens = cap burst (F.add b.tokens (F.times (F.seconds (now - b.seen_at)) per_second));
    seen_at = now;
  }

  -- The time until there is a token, and a second.
  unfoldable pub wait_for : F.Float → F.Float → ℕ
  wait_for per_second tokens =
      F.nanoseconds
        (F.times (F.divide (F.subtract (F.of_int 1) tokens) per_second) (F.of_int one_second))
      + one_second

  -- The answer, the time to wait, and the bucket after it.
  unfoldable pub spend : F.Float → Bucket → (Bool × ℕ) × Bucket
  spend per_second b =
      if F.is_below b.tokens (F.of_int 1)
      then ((false, wait_for per_second b.tokens), b)
      else ((true, 0), record b { tokens = F.subtract b.tokens (F.of_int 1) })

  unfoldable pub draw : F.Float → F.Float → ℕ → Bucket → (Bool × ℕ) × Bucket
  draw per_second burst now b = spend per_second (refill per_second burst now b)

  -- The rest of `Allow`, given the bucket of the key: one that is known, a new one while there is room,
  -- and else the shared one.
  unfoldable pub allow_with : Limiter → String → ℕ → Option Bucket → (Bool × ℕ) × Limiter
  allow_with l key now (some b) =
      let (answer, b') = draw l.per_second l.burst now b in
      (answer, record l { buckets = put_bucket key b' l.buckets })
  allow_with l key now none =
      let full : Bucket = record { tokens = l.burst; seen_at = now } in
      let (answer, b') = draw l.per_second l.burst now full in
      let (answer_shared, shared') = draw l.per_second l.burst now l.shared in
      if ltb (length l.buckets) max_tracked
      then (answer, record l { buckets = put_bucket key b' l.buckets })
      else (answer_shared, record l { overflow = true; shared = shared' })

  unfoldable pub allow : Limiter → String → ℕ → (Bool × ℕ) × Limiter
  allow l key now =
      let swept = sweep_buckets now l in allow_with swept key now (bucket_of key swept.buckets)

  unfoldable pub overflowed : Limiter → Bool
  overflowed l = l.overflow

  unfoldable pub tracked : Limiter → ℕ
  tracked l = length l.buckets
