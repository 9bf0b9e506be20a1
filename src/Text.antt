-- ===== src/Text.antt =====
-- What the program uses of Go's package strings. A text is walked by characters; every needle and
-- separator that the program passes is a constant that is not empty.
pub mod Laws
use Prim.Native.Nat.{◌-◌}
use Prim.Native.Char.{Char, code}
use Prim.Native.String.{[], ◌∷◌, count}
use anck.Prelude.{
  ℕ, zero, suc, String, ◌<>◌, Bool, true, false, ◌&&◌, ◌||◌, List, ◌==◌, string_eq, if◌then◌else◌,
  nat_eq,
}

-- `strings.HasPrefix(s, p)`
abbrev pub has_prefix : String → String → Bool
has_prefix s [] = true
has_prefix [] (d ∷ p) = false
has_prefix (c ∷ s) (d ∷ p) = nat_eq (code c) (code d) && has_prefix s p

-- `strings.Contains(s, sub)`
unfoldable pub str_contains : String → String → Bool
str_contains [] sub = has_prefix [] sub
str_contains (c ∷ s) sub = has_prefix (c ∷ s) sub || str_contains s sub

-- whether the character with code `n` stands in the text
abbrev pub has_char : ℕ → String → Bool
has_char n [] = false
has_char n (c ∷ s) = nat_eq (code c) n || has_char n s

-- the rest of `strings.ReplaceAll`, with the number of characters of a match still to skip
unfoldable pub replace_from : String → String → ℕ → String → String
replace_from old new skip [] = []
replace_from old new (suc k) (c ∷ s) = replace_from old new k s
replace_from old new zero (c ∷ s) =
    let matched = new <> replace_from old new (count old - 1) s in
    let passed = c ∷ replace_from old new zero s in
    if has_prefix (c ∷ s) old then matched else passed

-- `strings.ReplaceAll(s, old, new)`
abbrev pub replace_all : String → String → String → String
replace_all s old new = replace_from old new zero s

abbrev prepend : Char → List String → List String
prepend c List.[] = List.◌∷◌ (c ∷ []) List.[]
prepend c (List.◌∷◌ l ls) = List.◌∷◌ (c ∷ l) ls

-- `strings.Split(s, sep)` at a separator of one character, given by its code
unfoldable pub split : String → ℕ → List String
split [] sep = List.◌∷◌ [] List.[]
split (c ∷ s) sep =
    let rest = split s sep in if nat_eq (code c) sep then List.◌∷◌ [] rest else prepend c rest

-- `strings.TrimSuffix(s, suffix)`
unfoldable pub trim_suffix : String → String → String
trim_suffix [] suffix = []
trim_suffix (c ∷ s) suffix =
    let rest = trim_suffix s suffix in if (c ∷ s) == suffix then [] else c ∷ rest
