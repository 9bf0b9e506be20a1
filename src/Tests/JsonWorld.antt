-- ===== src/Tests/JsonWorld.antt =====
-- A writer and a reader of JSON, for values without escaped characters.
use Prim.Native.Nat.{◌/◌}
use Prim.Native.Char.{code}
use Prim.Native.String.{[], ◌∷◌}
use anck.Prelude.{
  ℕ, zero, suc, ◌+◌, ◌*◌, ◌-◌, ◌%◌, String, ◌<>◌, true, false, ◌&&◌, Option, none, some, ltb, leb,
  nat_eq, if◌then◌else◌,
}
use anck.Prelude.Exec.{Result, ok, errorf, err}
use anck.Nats.Json.{
  Value, null, boolean, number, text, array, object, Values, no_value, value, Members, no_member,
  member,
}
use anck.Nats.Config.Json.{Json}
use anck.Jetstreams.Duration.{trim_space}

-- the text of one character at the position
abbrev char_at : ℕ → String → String
char_at n [] = ""
char_at zero (c ∷ s) = c ∷ []
char_at (suc n) (c ∷ s) = char_at n s

abbrev digit : ℕ → String
digit n = char_at n "0123456789"

-- the last so many digits, without leading zeros
abbrev digits : ℕ → ℕ → String
digits zero n = ""
digits (suc k) n =
    let front = digits k (n / 10) in if ltb n 10 then digit n else front <> digit (n % 10)

abbrev quoted : String → String
quoted s = "\"" <> s <> "\""

unfoldable mutual
  written : Value → String
  written null = "null"
  written (boolean true) = "true"
  written (boolean false) = "false"
  written (number n) = digits 8 n
  written (text s) = quoted s
  written (array vs) = "[" <> written_values "" vs <> "]"
  written (object ms) = "{" <> written_members "" ms <> "}"

  -- each but the first behind a comma
  written_values : String → Values → String
  written_values before no_value = ""
  written_values before (value v vs) = before <> written v <> written_values "," vs

  written_members : String → Members → String
  written_members before no_member = ""
  written_members before (member name v ms) =
      before <> quoted name <> ":" <> written v <> written_members "," ms

-- what a character starts
pub data Mark : Type 0 where
  quote open_array close_array open_object close_object comma null_word true_word false_word : Mark
  digit_mark : Mark

abbrev mark : ℕ → Mark
mark c =
    if nat_eq c b'"'
    then quote
    else if nat_eq c b'['
    then open_array
    else if nat_eq c b']'
    then close_array
    else if nat_eq c b'{'
    then open_object
    else if nat_eq c b'}'
    then close_object
    else if nat_eq c b','
    then comma
    else if nat_eq c b'n'
    then null_word
    else if nat_eq c b't'
    then true_word
    else if nat_eq c b'f'
    then false_word
    else digit_mark

abbrev skip : ℕ → String → String
skip zero s = s
skip (suc n) [] = []
skip (suc n) (c ∷ s) = skip n s

-- the text up to the quote, and what follows it
abbrev take_text : String → String × String
take_text [] = ([], [])
take_text (c ∷ s) =
    let (taken, rest) = take_text s in if nat_eq (code c) b'"' then ([], s) else (c ∷ taken, rest)

abbrev take_number : ℕ → String → ℕ × String
take_number n [] = (n, [])
take_number n (c ∷ s) =
    let further = take_number (n * 10 + (code c - b'0')) s in
    if leb b'0' (code c) && leb (code c) b'9' then further else (n, c ∷ s)

unfoldable mutual
  read : ℕ → String → Option (Value × String)
  read zero s = none
  read (suc k) [] = none
  read (suc k) (c ∷ s) = elim (mark (code c)) [
    | quote ↦ let (taken, rest) = take_text s in some (text taken, rest)
    | open_array ↦ elim (read_items k s) [ none ↦ none | some r ↦ some (array r.0, r.1) ]
    | open_object ↦ elim (read_fields k s) [ none ↦ none | some r ↦ some (object r.0, r.1) ]
    | null_word ↦ some (null, skip 3 s)
    | true_word ↦ some (boolean true, skip 3 s)
    | false_word ↦ some (boolean false, skip 4 s)
    | digit_mark ↦ let (n, rest) = take_number 0 (c ∷ s) in some (number n, rest)
    | _ ↦ none
  ]

  read_items : ℕ → String → Option (Values × String)
  read_items zero s = none
  read_items (suc k) [] = none
  read_items (suc k) (c ∷ s) = elim (mark (code c)) [
    | close_array ↦ some (no_value, s)
    | comma ↦ read_items k s
    | _ ↦ elim (read k (c ∷ s)) [
      | none ↦ none
      | some v ↦ elim (read_items k v.1) [ none ↦ none | some r ↦ some (value v.0 r.0, r.1) ]
    ]
  ]

  read_fields : ℕ → String → Option (Members × String)
  read_fields zero s = none
  read_fields (suc k) [] = none
  read_fields (suc k) (c ∷ s) = elim (mark (code c)) [
    | close_object ↦ some (no_member, s)
    | comma ↦ read_fields k s
    | quote ↦
        let (name, rest) = take_text s in
        elim (read k (skip 1 rest)) [
          | none ↦ none
          | some v ↦ elim (read_fields k v.1) [
            | none ↦ none
            | some r ↦ some (member name v.0 r.0, r.1)
          ]
        ]
    | _ ↦ none
  ]

-- the whole text is one value
whole_text : Option (Value × String) → Result Value
whole_text none = err (errorf "unexpected end of JSON input")
whole_text (some (v, [])) = ok v
whole_text (some (v, c ∷ s)) = err (errorf "invalid character after top-level value")

unfoldable pub plain_json : Json
unfolding written read whole_text
plain_json = record {
  encode = λ v. ok (written v);
  pretty = λ t. t <> "\n";
  decode = λ t. whole_text (read 40 (trim_space t));
}
