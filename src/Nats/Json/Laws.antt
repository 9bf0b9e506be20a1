-- ===== src/Nats/Json/Laws.antt =====
-- A member is found where a struct has it, and what is written is read back.
use anck.Prelude.{
  String, Option, none, some, List, [], ◌∷◌, ◌==◌, string_eq, ◌≡◌, ◌≢◌, refl, ◌∙◌, arith, contains,
  false, IsNodup, Bool-cases, ap, inl, inr, ==_iff,
}
use anck.Prelude.Dict.{Dict, lookup, or_zero, keys}
use anck.Prelude.Exec.{Result, ok}
use mathlib.Core.Option.{map}
use anck.Nats.Json.{
  Value, null, boolean, number, text, array, object, fields, and_then, find, values, non_empty,
  read_or, read_values, read_array, read_pointer,
}

-- the member that is found in a struct
pub found :
    (name : String) (fs : Dict (Option Value))
    → IsNodup (keys fs)
    → find name (fields fs) ≡ or_zero none (lookup name fs)
unfolding find fields lookup
found name [] h = refl
found name ((other, none) ∷ fs) (fresh, h) = elim (Bool-cases (other == name)) [
  | inl t ↦ rw t (found name fs h ∙ missing name fs (ground (arith, ==_iff other name)))
  | inr f ↦ rw f (found name fs h)
]
  where
    missing :
        (name : String) (fs : Dict (Option Value))
        → contains (keys fs) name ≡ false
        → or_zero none (lookup name fs) ≡ none
    missing name [] h = refl
    missing name ((other, o) ∷ fs) h = ground (arith, missing name fs)
found name ((other, some v) ∷ fs) (fresh, h) = elim (Bool-cases (other == name)) [
  | inl t ↦ rw t refl
  | inr f ↦ rw f (found name fs h)
]

-- What is written is not `null`, and is read back.
pub record Reads {ℓ} {A : Type ℓ} (write : A → Value) (read : Value → Result A) (x : A)
    : Type ℓ where
  pub not_null : write x ≢ null
  pub back : read (write x) ≡ ok x

read_or-some {ℓ} :
    {A : Type ℓ} (zero : A) (read : Value → Result A) (v : Value)
    → v ≢ null
    → read_or zero read (some v) ≡ read v
read_or-some zero read null n = absurd (n refl)
read_or-some zero read (boolean b) n = refl
read_or-some zero read (number m) n = refl
read_or-some zero read (text s) n = refl
read_or-some zero read (array vs) n = refl
read_or-some zero read (object ms) n = refl

module _ {ℓ} {A : Type ℓ} (write : A → Value) (read : Value → Result A) where
  pub pointer_back :
      (o : Option A) → ((x : A) → Reads write read x) → read_pointer read (map write o) ≡ ok o
  pointer_back none h = refl
  pointer_back (some x) h =
      read_or-some none (λ v. and_then (read v) (λ a. ok (some a))) (write x) (h x).not_null
      ∙ ap (λ r. and_then r (λ a. ok (some a))) (h x).back

  pub values_back :
      (zero : A) (xs : List A)
      → ((x : A) → Reads write read x)
      → read_values zero read (values write xs) ≡ ok xs
  values_back zero [] h = refl
  values_back zero (x ∷ xs) h =
      rw (read_or-some zero read (write x) (h x).not_null)
        (rw ((h x).back) (rw (values_back zero xs h) refl))

  -- a slice with `omitempty`
  pub non_empty_back :
      (zero : A) (xs : List A)
      → ((x : A) → Reads write read x)
      → read_or [] (read_array zero read) (non_empty write xs) ≡ ok xs
  non_empty_back zero [] h = refl
  non_empty_back zero (x ∷ xs) h = values_back zero (x ∷ xs) h
