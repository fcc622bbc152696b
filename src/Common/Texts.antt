-- ===== src/Common/Texts.antt =====
-- Texts: Go compares strings by their bytes, which is the order of the characters' numbers.
use Prim.Native.Nat.{ℕ, zero, suc, ◌+◌, ◌/◌, ◌%◌, Ordering, compare as compare_ℕ}
use Prim.Native.Char.{Char, code}
use Prim.Native.String.{String, compare, then, ◌++◌ as str_append}
use Prim.Native.String.compare as laws
use mathlib.Core.Path.{◌≡◌}
use mathlib.Core.Bool.{Bool, true, false, ◌&&◌, ◌||◌}
use mathlib.Core.List.{List, [], ◌∷◌}
use native.Mathlib.Omega.{arith}
use text.Mathlib.Text
use text.Mathlib.TextPositions.{eq_refl, compare_refl}

abbrev pub str_eq : String → String → Bool
str_eq s t = Text.◌==◌ s t

-- `set[s]`, for a set of texts.
abbrev pub mem_str : String → List String → Bool
mem_str s [] = false
mem_str s (t ∷ ts) = str_eq s t || mem_str s ts

-- `s < t`
abbrev pub str_lt : String → String → Bool
str_lt s t = Text.is_lt (compare s t)

pub str_eq_refl : (s : String) → str_eq s s ≡ true
str_eq_refl s = eq_refl s

nil-cons : (d : Char) (t : String) → compare String.[] (String.◌∷◌ d t) ≡ Ordering.lt
nil-cons d t = λ i. laws.nil-cons d t i

cons-nil : (c : Char) (s : String) → compare (String.◌∷◌ c s) String.[] ≡ Ordering.gt
cons-nil c s = λ i. laws.cons-nil c s i

cons-cons :
    (c d : Char) (s t : String)
    → compare (String.◌∷◌ c s) (String.◌∷◌ d t) ≡ then (compare_ℕ (code c) (code d)) (compare s t)
cons-cons c d s t = λ i. laws.cons-cons c d s t i

pub str_lt_irrefl : (s : String) → str_lt s s ≡ false
str_lt_irrefl s = ground (arith, compare_refl s)

-- A text that is not below another is not below anything that the other is not below.
pub str_ge_trans : (s t u : String) → str_lt s t ≡ false → str_lt t u ≡ false → str_lt s u ≡ false
str_ge_trans s t String.[] h k = go s
  where
    go : (s : String) → str_lt s String.[] ≡ false
    go String.[] = ground (arith, compare_refl String.[])
    go (String.◌∷◌ c s) = ground (arith, cons-nil c s)
str_ge_trans s String.[] (String.◌∷◌ e u) h k = ground (arith, nil-cons e u)
str_ge_trans String.[] (String.◌∷◌ d t) (String.◌∷◌ e u) h k = ground (arith, nil-cons d t)
str_ge_trans (String.◌∷◌ c s) (String.◌∷◌ d t) (String.◌∷◌ e u) h k =
    ground (arith, cons-cons c d s t, cons-cons d e t u, cons-cons c e s u, str_ge_trans s t u)

pub str_lt_asymm : (s t : String) → str_lt s t ≡ true → str_lt t s ≡ false
str_lt_asymm String.[] String.[] h = h'
  where
    h' : str_lt String.[] String.[] ≡ false
    h' = str_lt_irrefl String.[]
str_lt_asymm String.[] (String.◌∷◌ d t) h = ground (arith, cons-nil d t)
str_lt_asymm (String.◌∷◌ c s) String.[] h = ground (arith, cons-nil c s)
str_lt_asymm (String.◌∷◌ c s) (String.◌∷◌ d t) h =
    ground (arith, cons-cons c d s t, cons-cons d c t s, str_lt_asymm s t)

infixr 65 ◌<>◌
abbrev pub ◌<>◌ : String → String → String
s <> t = str_append s t

digit : ℕ → String
digit zero = "0"
digit (suc zero) = "1"
digit (suc (suc zero)) = "2"
digit (suc (suc (suc zero))) = "3"
digit (suc (suc (suc (suc zero)))) = "4"
digit (suc (suc (suc (suc (suc zero))))) = "5"
digit (suc (suc (suc (suc (suc (suc zero)))))) = "6"
digit (suc (suc (suc (suc (suc (suc (suc zero))))))) = "7"
digit (suc (suc (suc (suc (suc (suc (suc (suc zero)))))))) = "8"
digit _ = "9"

itoa_from : ℕ → ℕ → String
itoa_from zero n = ""
itoa_from (suc fuel) n =
    let rest = itoa_from fuel (n / 10) in
    elim (compare_ℕ n 10) [ Ordering.lt ↦ digit n | _ ↦ rest <> digit (n % 10) ]

-- `strconv.Itoa` of a number that is not negative: one digit in each round, and a number has no
-- more digits than its value and one.
unfoldable pub itoa : ℕ → String
unfolding digit itoa_from
itoa n = itoa_from (suc n) n

is_code : ℕ → ℕ → Bool
is_code m n = elim (compare_ℕ m n) [ Ordering.eq ↦ true | _ ↦ false ]

up_to : ℕ → ℕ → Bool
up_to m n = elim (compare_ℕ m n) [ Ordering.gt ↦ false | _ ↦ true ]

-- `unicode.IsSpace`
unfoldable pub is_space : Char → Bool
unfolding is_code up_to
is_space c =
    let n = code c in
    (up_to 9 n && up_to n 13)
    || (is_code n 32
        || (is_code n 133
            || (is_code n 160
                || (is_code n 5760
                    || ((up_to 8192 n && up_to n 8202)
                        || (is_code n 8232
                            || (is_code n 8233
                                || (is_code n 8239 || (is_code n 8287 || is_code n 12288)))))))))

unfoldable pub trim_left : String → String
trim_left String.[] = String.[]
trim_left (String.◌∷◌ c s) = elim (is_space c) [ true ↦ trim_left s | false ↦ String.◌∷◌ c s ]

unfoldable pub trim_right : String → String
trim_right String.[] = String.[]
trim_right (String.◌∷◌ c s) =
    let rest = trim_right s in
    elim (is_space c && str_eq rest "") [ true ↦ String.[] | false ↦ String.◌∷◌ c rest ]

-- `strings.TrimSpace`
unfoldable pub trim_space : String → String
trim_space s = trim_right (trim_left s)

-- `len(s)`: the bytes of the characters.
unfoldable pub byte_count : String → ℕ
unfolding up_to
byte_count String.[] = 0
byte_count (String.◌∷◌ c s) =
    (elim (up_to (code c) 127) [
      | true ↦ 1
      | false ↦ elim (up_to (code c) 2047) [
        | true ↦ 2
        | false ↦ elim (up_to (code c) 65535) [ true ↦ 3 | false ↦ 4 ]
      ]
    ])
    + byte_count s

-- `strings.HasPrefix`
unfoldable pub has_prefix : String → String → Bool
unfolding is_code
has_prefix s String.[] = true
has_prefix String.[] (String.◌∷◌ d p) = false
has_prefix (String.◌∷◌ c s) (String.◌∷◌ d p) = is_code (code c) (code d) && has_prefix s p

-- `strings.TrimPrefix`
unfoldable pub trim_prefix : String → String → String
unfolding is_code
trim_prefix s p = elim (has_prefix s p) [ true ↦ skip s p | false ↦ s ]
  where
    skip : String → String → String
    skip s String.[] = s
    skip String.[] (String.◌∷◌ d p) = String.[]
    skip (String.◌∷◌ c s) (String.◌∷◌ d p) = skip s p
