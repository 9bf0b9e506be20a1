-- ===== src/Tests/Slices.antt =====
-- The functions on slices, with an `unique` that does not sort, and the slice helpers at concrete inputs.
use anck.Prelude.{
  String, true, List, [], ◌∷◌, string_eq, if◌then◌else◌, contains, IsNodup, ◌≡◌, ◌↔◌, refl, arith,
  Bool-cases, inl, inr, length,
}
use anck.Controllers.SliceLib.{SliceLib, IsSliceLib}
use anck.Common.Slice.{slice_equal}
use anck.Common.Slice.Laws.{slice_equal_iff}

unfoldable pub dedup : List String → List String
dedup [] = []
dedup (x ∷ xs) = let rest = dedup xs in if contains rest x then rest else x ∷ rest

contains-dedup : (xs : List String) (a : String) → contains (dedup xs) a ≡ contains xs a
unfolding dedup
contains-dedup [] a = refl
contains-dedup (x ∷ xs) a = ground (arith, contains-dedup xs a, contains-dedup xs x)

dedup-IsNodup : (xs : List String) → IsNodup (dedup xs)
unfolding dedup
dedup-IsNodup [] = tt
dedup-IsNodup (x ∷ xs) = elim (Bool-cases (contains (dedup xs) x)) [
  | inl t ↦ rw t (dedup-IsNodup xs)
  | inr f ↦ rw f (f, dedup-IsNodup xs)
]

abbrev pub slices : SliceLib
slices = record { unique = dedup; has = contains }

pub slices-IsSliceLib : IsSliceLib slices
slices-IsSliceLib = record {
  contains-unique = contains-dedup;
  unique-IsNodup = dedup-IsNodup;
  has_lem = λ xs a. refl;
}

abbrev ab : List String
ab = "a" ∷ "b" ∷ []

abbrev ba : List String
ba = "b" ∷ "a" ∷ []

abbrev bc : List String
bc = "b" ∷ "c" ∷ []

slice_equal_iff_example :
    (slice_equal ab ba ≡ true)
    ↔ ((length ab ≡ length ba) × ((a : String) → contains ab a ≡ contains ba a))
slice_equal_iff_example = slice_equal_iff ab ba
