-- ===== src/Controllers/SliceLib.antt =====
-- The functions of github.com/ssoroka/slice and github.com/merkur0/go-slices that the controllers call,
-- as a parameter, and what they document.
use anck.Prelude.{String, Bool, List, ◌≡◌, contains, string_eq, IsNodup}

pub record SliceLib : Type 0 where
  -- `slice.Unique`, which also sorts
  pub unique : List String → List String
  -- `slice.Contains` and `slice.ContainsString`
  pub has : List String → String → Bool

pub record IsSliceLib (lib : SliceLib) : Type 0 where
  pub contains-unique : (xs : List String) (a : String) → contains (lib.unique xs) a ≡ contains xs a
  pub unique-IsNodup : (xs : List String) → IsNodup (lib.unique xs)
  pub has_lem : (xs : List String) (a : String) → lib.has xs a ≡ contains xs a
