-- ===== src/Prelude/Lists.antt =====
-- Slices: membership, removal of an index, and the lemmas on them that the components share.
use Prim.Native.Nat.{ℕ, suc, ◌+◌}
use mathlib.Core.Path.{◌≡◌, refl, ap, sym, ◌∙◌}
use mathlib.Core.Logic.{◌≢◌, inl, inr}
use mathlib.Core.Bool.{Bool, true, false, ◌||◌, ◌&&◌}
use mathlib.Core.List.{List, [], ◌∷◌, ◌++◌, map}
use native.Mathlib.Omega.{arith}
use anck.Prelude.Equality.{Eq, ◌==◌, ==_iff, Bool-cases, if◌then◌else◌}

module _ {ℓ} {A : Type ℓ} where
  -- Go's `len`.
  abbrev pub length : List A → ℕ
  length [] = 0
  length (x ∷ xs) = suc (length xs)

  pub length-append : (xs ys : List A) → length (xs ++ ys) ≡ length xs + length ys
  length-append [] ys = omega arith
  length-append (x ∷ xs) ys = omega (arith, length-append xs ys)

  abbrev pub is_empty : List A → Bool
  is_empty [] = true
  is_empty (_ ∷ _) = false

  abbrev pub any : (A → Bool) → List A → Bool
  any p [] = false
  any p (x ∷ xs) = p x || any p xs

  abbrev pub all : (A → Bool) → List A → Bool
  all p [] = true
  all p (x ∷ xs) = p x && all p xs

  -- The loop `for … {if p(x) {out = append(out, x) } }`.
  abbrev pub keep : (A → Bool) → List A → List A
  keep p [] = []
  keep p (x ∷ xs) = let rest = keep p xs in if p x then x ∷ rest else rest

module _ {ℓ} {A : Type ℓ} ⦃e : Eq A⦄ where
  -- The loop `for … {if x == a {found = true; break } }`.
  abbrev pub contains : List A → A → Bool
  contains [] a = false
  contains (x ∷ xs) a = (x == a) || contains xs a

  abbrev pub IsNodup : List A → Type 0
  IsNodup [] = Unit
  IsNodup (x ∷ xs) = (contains xs x ≡ false) × IsNodup xs

  pub contains-append :
      (xs ys : List A) (a : A) → contains (xs ++ ys) a ≡ (contains xs a || contains ys a)
  contains-append [] ys a = refl
  contains-append (x ∷ xs) ys a = ground (arith, contains-append xs ys a)

  pub contains-keep :
      (p : A → Bool) (xs : List A) (a : A) → contains (keep p xs) a ≡ (contains xs a && p a)
  contains-keep p [] a = refl
  contains-keep p (x ∷ xs) a = ground (arith, contains-keep p xs a)

  -- `append(xs[:i], xs[i+1:]...)` at the first index `i` that holds `a`; no change without one.
  unfoldable pub remove_first : A → List A → List A
  remove_first a [] = []
  remove_first a (x ∷ xs) = if x == a then xs else x ∷ remove_first a xs

  pub contains-remove_first :
      (a b : A) (xs : List A) → a ≢ b → contains (remove_first a xs) b ≡ contains xs b
  unfolding remove_first
  contains-remove_first a b [] h = refl
  contains-remove_first a b (x ∷ xs) h = ground (arith, contains-remove_first a b xs h)

  pub contains-remove_first_le :
      (a b : A) (xs : List A) → contains (remove_first a xs) b ≡ true → contains xs b ≡ true
  unfolding remove_first
  contains-remove_first_le a b [] h = h
  contains-remove_first_le a b (x ∷ xs) h = ground (arith, contains-remove_first_le a b xs)

  pub IsNodup-remove_first : (a : A) (xs : List A) → IsNodup xs → IsNodup (remove_first a xs)
  unfolding remove_first
  IsNodup-remove_first a [] h = tt
  IsNodup-remove_first a (x ∷ xs) h =
      ground (arith, IsNodup-remove_first a xs h.1, contains-remove_first_le a x xs)

  pub contains-remove_first_self :
      (a : A) (xs : List A) → IsNodup xs → contains (remove_first a xs) a ≡ false
  unfolding remove_first
  contains-remove_first_self a [] h = refl
  contains-remove_first_self a (x ∷ xs) h = ground (arith, contains-remove_first_self a xs h.1)

abbrev pub All {ℓ κ} : {A : Type ℓ} → (A → Type κ) → List A → Type κ
All P [] = Unit
All P (x ∷ xs) = P x × All P xs

pub All-map {ℓ κ μ} :
    {A : Type ℓ} {P : A → Type κ} {Q : A → Type μ}
    → ((a : A) → P a → Q a)
    → (xs : List A) → All P xs
    → All Q xs
All-map f [] h = tt
All-map f (x ∷ xs) (p, h) = (f x p, All-map f xs h)

module _ {ℓ κ} {A : Type ℓ} {B : Type κ} ⦃eA : Eq A⦄ ⦃eB : Eq B⦄ (f : A → B) where
  pub contains-map_of :
      (xs : List A) (a : A) → contains xs a ≡ true → contains (map f xs) (f a) ≡ true
  contains-map_of [] a h = cc
  contains-map_of (x ∷ xs) a h = ground (arith, contains-map_of xs a, ap f)

  pub contains-map :
      (xs : List A) (b : B)
      → contains (map f xs) b ≡ true
      → (a : A) × (contains xs a ≡ true) × (f a ≡ b)
  contains-map [] b h = cc
  contains-map (x ∷ xs) b h = elim (Bool-cases (f x == b)) [
    | inl e ↦ (x, ground arith, (==_iff (f x) b).0 e)
    | inr n ↦ let (a, c, e) = contains-map xs b (ground arith) in (a, ground arith, e)
  ]

  -- lists with the same elements have images with the same elements
  pub contains-map_same :
      (xs ys : List A)
      → ((a : A) → contains xs a ≡ contains ys a)
      → (b : B) → contains (map f xs) b ≡ contains (map f ys) b
  contains-map_same xs ys h b = elim (Bool-cases (contains (map f xs) b)) [
    | inl p ↦ p ∙ sym (through xs ys h b p)
    | inr n ↦ elim (Bool-cases (contains (map f ys) b)) [
      | inl q ↦ cc (through ys xs (λ a. sym (h a)) b q)
      | inr m ↦ n ∙ sym m
    ]
  ]
    where
      through :
          (us vs : List A)
          → ((a : A) → contains us a ≡ contains vs a)
          → (b : B) → contains (map f us) b ≡ true
          → contains (map f vs) b ≡ true
      through us vs k b p =
          let (a, c, e) = contains-map us b p in rw (← e) (contains-map_of vs a (sym (k a) ∙ c))

  -- under an injective function an image holds what the list holds
  pub contains-map_injective :
      ((a b : A) → f a ≡ f b → a ≡ b)
      → (xs : List A) (a : A) → contains (map f xs) (f a) ≡ contains xs a
  contains-map_injective inj [] a = refl
  contains-map_injective inj (x ∷ xs) a =
      ground (arith, contains-map_injective inj xs a, inj x a, ap f)
