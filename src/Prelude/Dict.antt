-- ===== src/Prelude/Dict.antt =====
-- Go's `map[string]V`: an association list. The order of its entries stands for the order, which Go
-- leaves open, in which `range` meets the keys; what is proved holds for every order.
use Prim.Native.String.{String}
use mathlib.Core.Path.{◌≡◌, refl}
use mathlib.Core.Bool.{Bool, true, false, not, ◌&&◌, ◌||◌}
use mathlib.Core.Option.{Option, none, some}
use mathlib.Core.List.{List, [], ◌∷◌}
use native.Mathlib.Omega.{arith}
use anck.Prelude.Equality.{◌==◌, string_eq, if◌then◌else◌}
use anck.Prelude.Lists.{contains, IsNodup}

abbrev pub Dict {ℓ} : Type ℓ → Type ℓ
Dict V = List (String × V)

module _ {ℓ} {V : Type ℓ} where
  -- `v, ok := m[k]`
  unfoldable pub lookup : String → Dict V → Option V
  lookup k [] = none
  lookup k ((j, v) ∷ d) = if j == k then some v else lookup k d

  -- `m[k]` with the zero value for a missing key
  abbrev pub or_zero : V → Option V → V
  or_zero z none = z
  or_zero z (some v) = v

  -- `m[k] = v`
  unfoldable pub insert : String → V → Dict V → Dict V
  insert k v [] = (k, v) ∷ []
  insert k v ((j, w) ∷ d) = if j == k then (k, v) ∷ d else (j, w) ∷ insert k v d

  -- `delete(m, k)`
  unfoldable pub erase : String → Dict V → Dict V
  erase k [] = []
  erase k ((j, w) ∷ d) = let rest = erase k d in if j == k then rest else (j, w) ∷ rest

  -- the keys in the order in which `range m` meets them
  abbrev pub keys : Dict V → List String
  keys [] = []
  keys ((j, w) ∷ d) = j ∷ keys d

  abbrev pub has_key : String → Dict V → Bool
  has_key k d = elim (lookup k d) [ none ↦ false | some _ ↦ true ]

  pub lookup-insert :
      (j k : String) (v : V) (d : Dict V)
      → lookup j (insert k v d) ≡ (if k == j then some v else lookup j d)
  unfolding lookup insert
  lookup-insert j k v [] = refl
  lookup-insert j k v (_ ∷ d) = ground (arith, lookup-insert j k v d)

  pub lookup-erase :
      (j k : String) (d : Dict V) → lookup j (erase k d) ≡ (if k == j then none else lookup j d)
  unfolding lookup erase
  lookup-erase j k [] = ground arith
  lookup-erase j k (_ ∷ d) = ground (arith, lookup-erase j k d)

  pub contains-keys : (k : String) (d : Dict V) → contains (keys d) k ≡ has_key k d
  unfolding lookup
  contains-keys k [] = refl
  contains-keys k (_ ∷ d) = ground (arith, contains-keys k d)

  contains-keys-erase :
      (k j : String) (d : Dict V)
      → contains (keys (erase k d)) j ≡ (contains (keys d) j && not (k == j))
  unfolding erase
  contains-keys-erase k j [] = refl
  contains-keys-erase k j (_ ∷ d) = ground (arith, contains-keys-erase k j d)

  contains-keys-insert :
      (k j : String) (v : V) (d : Dict V)
      → contains (keys (insert k v d)) j ≡ (contains (keys d) j || (k == j))
  unfolding insert
  contains-keys-insert k j v [] = ground arith
  contains-keys-insert k j v (_ ∷ d) = ground (arith, contains-keys-insert k j v d)

  -- Deleting and writing keep the keys apart.
  pub keys-erase-IsNodup : (k : String) (d : Dict V) → IsNodup (keys d) → IsNodup (keys (erase k d))
  unfolding erase
  keys-erase-IsNodup k [] h = tt
  keys-erase-IsNodup k ((j, w) ∷ d) (fresh, h) =
      ground (arith, keys-erase-IsNodup k d h, contains-keys-erase k j d)

  pub keys-insert-IsNodup :
      (k : String) (v : V) (d : Dict V) → IsNodup (keys d) → IsNodup (keys (insert k v d))
  unfolding insert
  keys-insert-IsNodup k v [] h = (refl, tt)
  keys-insert-IsNodup k v ((j, w) ∷ d) (fresh, h) =
      ground (arith, keys-insert-IsNodup k v d h, contains-keys-insert k j v d)

pub ruleset dict_laws = (lookup-insert, lookup-erase)
