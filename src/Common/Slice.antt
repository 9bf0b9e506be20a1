-- ===== src/Common/Slice.antt =====
-- pkg/common/slice.go, over any type on which `reflect.DeepEqual` is equality; and the helpers
-- `missingInSlice` and `sliceDiffMissingNew` of controllers/network/common.go. A nil slice is an empty
-- one: the callers only take lengths and range over the results.
pub mod Laws
use mathlib.Core.List.{foldl}
use anck.Prelude.{
  String, Bool, true, false, List, [], ◌∷◌, ◌++◌, Eq, ◌==◌, contains, length, is_empty, nat_eq,
  string_eq, if◌then◌else◌,
}
use anck.Prelude.Dict.{Dict, insert, has_key}

module _ {ℓ} {A : Type ℓ} ⦃e : Eq A⦄ where
  -- one round of the outer loop: the elements of `s1` that are not in `s2` are appended to `diff`
  diff_round : List A → List A → List A → List A
  diff_round diff [] s2 = diff
  diff_round diff (x ∷ s1) s2 = diff_round (if contains s2 x then diff else diff ++ x ∷ []) s1 s2

  -- the two rounds, with the slices swapped after the first
  unfoldable pub slice_diff : List A → List A → List A
  unfolding diff_round
  slice_diff s1 s2 = diff_round (diff_round [] s1 s2) s2 s1

  unfoldable pub slice_equal : List A → List A → Bool
  slice_equal s1 s2 = if nat_eq (length s1) (length s2) then is_empty (slice_diff s1 s2) else false

abbrev to_set : List String → Dict (Unit {0})
to_set a = foldl (λ ma ka. insert ka tt ma) [] a

missing_from : Dict (Unit {0}) → List String → List String → List String
missing_from ma diffs [] = diffs
missing_from ma diffs (kb ∷ b) =
    missing_from ma (if has_key kb ma then diffs else diffs ++ kb ∷ []) b

pub missing_in_slice : List String → List String → List String
unfolding missing_from
missing_in_slice a b = missing_from (to_set a) [] b

-- (new, missing)
pub slice_diff_missing_new : List String → List String → List String × List String
slice_diff_missing_new a b = (missing_in_slice a b, missing_in_slice b a)
