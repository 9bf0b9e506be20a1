-- ===== src/Common/Slice/Laws.antt =====
-- What the slice helpers compute, by membership.
use mathlib.Core.Bool.{xor}
use mathlib.Core.List.{foldl}
use anck.Prelude.{
  String, ◌≡◌, refl, ◌↔◌, true, false, not, ◌&&◌, ◌||◌, List, [], ◌∷◌, ◌++◌, Eq, contains,
  contains-append, length, is_empty, string_eq, arith, Bool-cases, inl, inr,
}
use anck.Prelude.Dict.{Dict, insert, lookup, has_key, lookup-insert}
use anck.Common.Slice.{diff_round, slice_diff, slice_equal, to_set, missing_from, missing_in_slice}

module _ {ℓ} {A : Type ℓ} ⦃e : Eq A⦄ where
  contains-diff_round :
      (diff s1 s2 : List A) (a : A)
      → contains (diff_round diff s1 s2) a
        ≡ (contains diff a || (contains s1 a && not (contains s2 a)))
  unfolding diff_round
  contains-diff_round diff [] s2 a = ground arith
  contains-diff_round diff (x ∷ s1) s2 a = elim (Bool-cases (contains s2 x)) [
    | inl h ↦ ground (arith, contains-diff_round diff s1 s2 a)
    | inr h ↦
        ground
          (arith, contains-diff_round (diff ++ x ∷ []) s1 s2 a, contains-append diff (x ∷ []) a)
  ]

  -- `SliceDiff` returns exactly the elements that one of the two slices holds and the other lacks.
  pub contains-slice_diff :
      (s1 s2 : List A) (a : A) → contains (slice_diff s1 s2) a ≡ xor (contains s1 a) (contains s2 a)
  unfolding slice_diff xor
  contains-slice_diff s1 s2 a =
      ground
        (arith, contains-diff_round (diff_round [] s1 s2) s2 s1 a, contains-diff_round [] s1 s2 a)

  no_element : (xs : List A) → ((a : A) → contains xs a ≡ false) → is_empty xs ≡ true
  no_element [] h = refl
  no_element (x ∷ xs) h = ground (arith, h x)

  same_of_no_diff : (s1 s2 : List A) (a : A) → slice_diff s1 s2 ≡ [] → contains s1 a ≡ contains s2 a
  unfolding xor
  same_of_no_diff s1 s2 a h = ground (arith, contains-slice_diff s1 s2 a)

  no_diff_of_same :
      (s1 s2 : List A) (a : A)
      → contains s1 a ≡ contains s2 a
      → contains (slice_diff s1 s2) a ≡ false
  unfolding xor
  no_diff_of_same s1 s2 a h = ground (arith, contains-slice_diff s1 s2 a)

  -- `SliceEqual` holds exactly of two slices of one length with the same elements: it looks neither at
  -- the order nor at how often an element occurs.
  pub slice_equal_iff :
      (s1 s2 : List A)
      → (slice_equal s1 s2 ≡ true)
        ↔ ((length s1 ≡ length s2) × ((a : A) → contains s1 a ≡ contains s2 a))
  unfolding slice_equal
  slice_equal_iff s1 s2 = (
    λ h. (ground arith, λ a. same_of_no_diff s1 s2 a (ground arith)),
    λ (n, m). ground (arith, no_element (slice_diff s1 s2) (λ a. no_diff_of_same s1 s2 a (m a))),
  )

has_key-to_set :
    (m : Dict (Unit {0})) (a : List String) (k : String)
    → has_key k (foldl (λ ma ka. insert ka tt ma) m a) ≡ (contains a k || has_key k m)
has_key-to_set m [] k = refl
has_key-to_set m (x ∷ a) k =
    ground (arith, has_key-to_set (insert x tt m) a k, lookup-insert k x tt m)

contains-missing_from :
    (ma : Dict (Unit {0})) (diffs b : List String) (k : String)
    → contains (missing_from ma diffs b) k
      ≡ (contains diffs k || (contains b k && not (has_key k ma)))
unfolding missing_from
contains-missing_from ma diffs [] k = ground arith
contains-missing_from ma diffs (x ∷ b) k = ground (
  arith,
  contains-missing_from ma diffs b k,
  contains-missing_from ma (diffs ++ x ∷ []) b k,
  contains-append diffs (x ∷ []) k,
)

-- `missingInSlice(a, b)` holds exactly the values of its second argument that the first one lacks.
pub contains-missing_in_slice :
    (a b : List String) (k : String)
    → contains (missing_in_slice a b) k ≡ (contains b k && not (contains a k))
unfolding missing_in_slice lookup
contains-missing_in_slice a b k =
    ground (arith, contains-missing_from (to_set a) [] b k, has_key-to_set [] a k)
