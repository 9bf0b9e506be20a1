-- ===== src/Nats/Json.antt =====
-- encoding/json as pkg/nats/config.go uses it: the values that its struct tags write and read. The text of
-- a value is a parameter. The names of the members are matched as they are written.
pub mod Laws
use anck.Prelude.{
  ℕ, String, Bool, Option, none, some, List, [], ◌∷◌, ◌==◌, string_eq, if◌then◌else◌,
}
use anck.Prelude.Dict.{Dict}
use anck.Prelude.Exec.{Result, ok, err, panic, errorf}

mutual
  pub data Value : Type 0 where
    null : Value
    boolean : Bool → Value
    number : ℕ → Value
    text : String → Value
    array : Values → Value
    object : Members → Value

  pub data Values : Type 0 where
    no_value : Values
    value : Value → Values → Values

  pub data Members : Type 0 where
    no_member : Members
    member : String → Value → Members → Members

-- A struct, by the names in its tags: a field that `omitempty` leaves out has no value.
unfoldable pub fields : Dict (Option Value) → Members
fields [] = no_member
fields ((name, none) ∷ fs) = fields fs
fields ((name, some v) ∷ fs) = member name v (fields fs)

abbrev pub struct : Dict (Option Value) → Value
struct fs = object (fields fs)

abbrev pub values {ℓ} : {A : Type ℓ} → (A → Value) → List A → Values
values write [] = no_value
values write (x ∷ xs) = value (write x) (values write xs)

-- a slice with the tag `omitempty`
abbrev pub non_empty {ℓ} : {A : Type ℓ} → (A → Value) → List A → Option Value
non_empty write [] = none
non_empty write (x ∷ xs) = some (array (values write (x ∷ xs)))

unfoldable pub find : String → Members → Option Value
find name no_member = none
find name (member other v rest) = if other == name then some v else find name rest

abbrev pub and_then {ℓ κ} : {A : Type ℓ} {B : Type κ} → Result A → (A → Result B) → Result B
and_then (ok a) f = f a
and_then (err e) f = err e
and_then panic f = panic

-- A value of another type, `UnmarshalTypeError`.
abbrev pub mismatch {ℓ} : {A : Type ℓ} → Result A
mismatch = err (errorf "json: cannot unmarshal")

-- A field of a type with the given zero value: a missing member, and `null`, leave it as it is.
abbrev pub read_or {ℓ} : {A : Type ℓ} → A → (Value → Result A) → Option Value → Result A
read_or zero read none = ok zero
read_or zero read (some null) = ok zero
read_or zero read (some (boolean b)) = read (boolean b)
read_or zero read (some (number n)) = read (number n)
read_or zero read (some (text s)) = read (text s)
read_or zero read (some (array vs)) = read (array vs)
read_or zero read (some (object ms)) = read (object ms)

-- a field that is a pointer, or a slice that may be nil
abbrev pub read_pointer {ℓ} : {A : Type ℓ} → (Value → Result A) → Option Value → Result (Option A)
read_pointer read = read_or none (λ v. and_then (read v) (λ a. ok (some a)))

abbrev pub read_text : Value → Result String
read_text (text s) = ok s
read_text _ = mismatch

abbrev pub read_number : Value → Result ℕ
read_number (number n) = ok n
read_number _ = mismatch

abbrev pub read_boolean : Value → Result Bool
read_boolean (boolean b) = ok b
read_boolean _ = mismatch

abbrev pub read_values {ℓ} : {A : Type ℓ} → A → (Value → Result A) → Values → Result (List A)
read_values zero read no_value = ok []
read_values zero read (value v vs) =
    and_then (read_or zero read (some v))
      (λ x. and_then (read_values zero read vs) (λ xs. ok (x ∷ xs)))

abbrev pub read_array {ℓ} : {A : Type ℓ} → A → (Value → Result A) → Value → Result (List A)
read_array zero read (array vs) = read_values zero read vs
read_array zero read _ = mismatch

abbrev pub members_of : Value → Result Members
members_of (object ms) = ok ms
members_of _ = mismatch
