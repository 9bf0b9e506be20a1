-- ===== src/Jetstreams/Duration.antt =====
-- `parseDurationString` and `isUpper` of pkg/jetstreams/jetstreams.go. Floating point, the tables of
-- Unicode and `time.ParseDuration` are parameters; a `time.Duration` is a signed number of 64 bits.
pub mod Laws
use Prim.Native.Nat.{◌-◌}
use Prim.Native.Char.{Char, code}
use Prim.Native.String.{[], ◌∷◌}
use anck.Prelude.{
  ℕ, zero, suc, ◌+◌, ◌*◌, ◌%◌, ◌^◌, String, ◌<>◌, Bool, true, false, not, ◌&&◌, ◌||◌, Option, none,
  some, if◌then◌else◌, ltb, leb, nat_eq, ◌==◌, string_eq,
}
use anck.Prelude.Int.{ℤ, pos, negsuc}
use anck.Prelude.Exec.{Result, ok, err, panic, errorf}

-- What the program takes from strconv, time and unicode, over a type `F` of floating point numbers.
pub record Std (F : Type 0) : Type 0 where
  -- `strconv.ParseFloat(s, 32)`
  pub parse_float : String → Result F
  -- the product with a constant
  pub times : F → ℕ → F
  -- the conversion to an int64
  pub to_int64 : F → ℤ
  pub parse_duration : String → Result ℤ
  pub is_upper_rune : ℕ → Bool
  pub is_letter_rune : ℕ → Bool
  pub to_lower : String → String

abbrev pub hour : ℕ
hour = 3600000000000

-- the int64 with the given 64 bits
signed : ℕ → ℤ
signed v = if ltb v (2 ^ 63) then pos v else negsuc (2 ^ 64 - 1 - v)

-- `d * time.Hour`, which wraps around
unfoldable pub hours : ℤ → ℤ
unfolding signed
hours (pos n) = signed ((n * hour) % 2 ^ 64)
hours (negsuc n) = signed ((2 ^ 64 - ((n + 1) * hour) % 2 ^ 64) % 2 ^ 64)

-- the white space of `unicode.IsSpace`
abbrev is_space : ℕ → Bool
is_space c =
    (leb 9 c && leb c 13)
    || nat_eq c 32
    || nat_eq c 0x85
    || nat_eq c 0xa0
    || nat_eq c 0x1680
    || (leb 0x2000 c && leb c 0x200a)
    || nat_eq c 0x2028
    || nat_eq c 0x2029
    || nat_eq c 0x202f
    || nat_eq c 0x205f
    || nat_eq c 0x3000

trim_left : String → String
trim_left [] = []
trim_left (c ∷ s) = let rest = trim_left s in if is_space (code c) then rest else c ∷ s

abbrev drop_blank : Char → String → String
drop_blank c [] = if is_space (code c) then [] else c ∷ []
drop_blank c (d ∷ s) = c ∷ d ∷ s

trim_right : String → String
trim_right [] = []
trim_right (c ∷ s) = drop_blank c (trim_right s)

-- `strings.TrimSpace`
unfoldable pub trim_space : String → String
unfolding trim_left trim_right
trim_space s = trim_right (trim_left s)

-- the text `c ∷ s` without its last character, and that character
abbrev pub split_last : Char → String → String × Char
split_last c [] = ([], c)
split_last c (d ∷ s) = let (init, last) = split_last d s in (c ∷ init, last)

module _ {F : Type 0} (std : Std F) where
  unfoldable pub is_upper : String → Bool
  is_upper [] = true
  is_upper (r ∷ s) =
      not (not (std.is_upper_rune (code r)) && std.is_letter_rune (code r)) && is_upper s

  abbrev scaled : Result F → (F → F) → Result ℤ
  scaled (ok val) f = ok (hours (std.to_int64 (f val)))
  scaled (err e) f = err e
  scaled panic f = panic

  -- the switch on the last character
  in_unit : String → String → ℕ → Result ℤ
  in_unit dstr number unit =
      if nat_eq unit b'w' || nat_eq unit b'W'
      then scaled (std.parse_float number) (λ val. std.times (std.times val 7) 24)
      else if nat_eq unit b'd' || nat_eq unit b'D'
      then scaled (std.parse_float number) (λ val. std.times val 24)
      else if nat_eq unit b'M'
      then scaled (std.parse_float number) (λ val. std.times (std.times val 24) 30)
      else if nat_eq unit b'Y' || nat_eq unit b'y'
      then scaled (std.parse_float number) (λ val. std.times (std.times val 24) 365)
      else if nat_eq unit b's'
          || nat_eq unit b'S'
          || nat_eq unit b'm'
          || nat_eq unit b'h'
          || nat_eq unit b'H'
      then std.parse_duration (if is_upper dstr then std.to_lower dstr else dstr)
      else err (errorf "invalid time unit")

  parse_trimmed : String → Result ℤ
  parse_trimmed [] = ok (pos 0)
  parse_trimmed (c ∷ s) = let (number, unit) = split_last c s in in_unit (c ∷ s) number (code unit)

  unfoldable pub parse_duration_string : String → Result ℤ
  unfolding in_unit parse_trimmed
  parse_duration_string dstr = parse_trimmed (trim_space dstr)
