-- ===== src/Validate.antt =====
-- internal/kernel/validate: the checks on names.
use Prim.Native.Char.{Char, code}
use marstack_cloud.Common.{
  ℕ, zero, suc, String, ◌<>◌, Bool, true, false, ◌&&◌, ◌||◌, List, [], ◌∷◌, if◌then◌else◌, leb,
  ◌==◌, str_eq,
}
use marstack_cloud.Fault.{Kind, Result, ok, err, new_fault}

between : ℕ → ℕ → ℕ → Bool
between low high n = leb low n && leb n high

-- `[a-z0-9]`
letter_or_digit : Char → Bool
unfolding between
letter_or_digit c = between 97 122 (code c) || between 48 57 (code c)

-- `[a-z0-9-]{0,n}[a-z0-9]$`
tail_matches : ℕ → String → Bool
unfolding letter_or_digit
tail_matches n String.[] = false
tail_matches n (String.◌∷◌ c String.[]) = letter_or_digit c
tail_matches zero (String.◌∷◌ c (String.◌∷◌ d s)) = false
tail_matches (suc n) (String.◌∷◌ c (String.◌∷◌ d s)) =
    (letter_or_digit c || (code c == 45)) && tail_matches n (String.◌∷◌ d s)

-- `namePattern.MatchString`
name_matches : String → Bool
unfolding letter_or_digit
name_matches String.[] = false
name_matches (String.◌∷◌ c String.[]) = letter_or_digit c
name_matches (String.◌∷◌ c (String.◌∷◌ d s)) = letter_or_digit c && tail_matches 61 (String.◌∷◌ d s)

-- `Name`
unfoldable pub name : String → String → Result (Unit {0})
unfolding name_matches tail_matches
name field value =
    if str_eq value ""
    then err (new_fault Kind.invalid ("invalid_" <> field) (field <> " must not be empty"))
    else if name_matches value
    then ok tt
    else err (
        new_fault Kind.invalid ("invalid_" <> field) (
          field
          <> " must be 1-63 characters of lowercase letters, digits, or hyphens, starting and ending with a letter or digit"))

-- `strings.Join(allowed, ", ")`
joined : List String → String
joined [] = ""
joined (s ∷ []) = s
joined (s ∷ t ∷ rest) = s <> ", " <> joined (t ∷ rest)

allows : List String → String → Bool
allows [] value = false
allows (a ∷ allowed) value = if str_eq value a then true else allows allowed value

-- `OneOf`
unfoldable pub one_of : String → String → List String → Result (Unit {0})
unfolding joined allows
one_of field value allowed =
    if allows allowed value
    then ok tt
    else err (
        new_fault Kind.invalid ("invalid_" <> field)
          (field <> " must be one of: " <> joined allowed))
