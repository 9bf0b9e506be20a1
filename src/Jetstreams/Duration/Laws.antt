-- ===== src/Jetstreams/Duration/Laws.antt =====
-- When a duration is refused, and what becomes of its hours in an int64.
use Prim.Native.Nat.{◌-◌}
use Prim.Native.Char.{Char, code}
use Prim.Native.String.{[], ◌∷◌}
use anck.Prelude.{
  ℕ, ◌*◌, ◌^◌, ◌<◌, String, ◌≡◌, ◌⊎◌, inl, inr, refl, ap, ◌∙◌, arith, ltb, if◌then◌else◌,
}
use anck.Prelude.Int.{ℤ, pos, negsuc}
use anck.Prelude.Exec.{ok}
use anck.Jetstreams.Duration.{
  Std, hour, hours, trim_space, split_last, parse_duration_string, in_unit, parse_trimmed,
}

-- How the number before a unit is scaled to hours.
pub data Scaled {F : Type 0} (std : Std F) (val : F) : ℕ → F → Type 0 where
  weeks : Scaled std val b'w' (std.times (std.times val 7) 24)
  upper_weeks : Scaled std val b'W' (std.times (std.times val 7) 24)
  days : Scaled std val b'd' (std.times val 24)
  upper_days : Scaled std val b'D' (std.times val 24)
  months : Scaled std val b'M' (std.times (std.times val 24) 30)
  upper_years : Scaled std val b'Y' (std.times (std.times val 24) 365)
  years : Scaled std val b'y' (std.times (std.times val 24) 365)

in_unit-Scaled :
    {F : Type 0} (std : Std F) (dstr number : String) (val : F) (unit : ℕ) (f : F)
    → std.parse_float number ≡ ok val
    → Scaled std val unit f
    → in_unit std dstr number unit ≡ ok (hours (std.to_int64 f))
unfolding in_unit
in_unit-Scaled std dstr number val _ _ h weeks = rw h refl
in_unit-Scaled std dstr number val _ _ h upper_weeks = rw h refl
in_unit-Scaled std dstr number val _ _ h days = rw h refl
in_unit-Scaled std dstr number val _ _ h upper_days = rw h refl
in_unit-Scaled std dstr number val _ _ h months = rw h refl
in_unit-Scaled std dstr number val _ _ h upper_years = rw h refl
in_unit-Scaled std dstr number val _ _ h years = rw h refl

-- hours of less than 2^64 nanoseconds
hours_lem :
    (n : ℕ)
    → n * hour < 2 ^ 64
    → hours (pos n)
      ≡ (if ltb (n * hour) (2 ^ 63) then pos (n * hour) else negsuc (2 ^ 64 - 1 - n * hour))
unfolding hours
hours_lem n k = ground arith

-- A duration in weeks, days, months or years whose number is read, and scaled to a whole number of hours
-- that are less than 2^64 nanoseconds, is accepted without an error: as its exact nanoseconds if they
-- are less than 2^63, and else as the negative duration that differs from them by 2^64.
pub parse_duration_string_wraps :
    {F : Type 0} (std : Std F) (dstr : String) (c : Char) (s : String) (val f : F) (n : ℕ)
    → trim_space dstr ≡ c ∷ s
    → std.parse_float (split_last c s).0 ≡ ok val
    → Scaled std val (code (split_last c s).1) f
    → std.to_int64 f ≡ pos n
    → n * hour < 2 ^ 64
    → parse_duration_string std dstr
      ≡ ok (if ltb (n * hour) (2 ^ 63) then pos (n * hour) else negsuc (2 ^ 64 - 1 - n * hour))
unfolding parse_duration_string parse_trimmed
parse_duration_string_wraps std dstr c s val f n text_is parsed unit scaled fits = rw text_is (
    in_unit-Scaled std (c ∷ s) (split_last c s).0 val _ f parsed unit
    ∙ ap (λ d. ok (hours d)) scaled
    ∙ ap (λ d. ok d) (hours_lem n fits))

-- The units that are known.
abbrev pub IsUnit : ℕ → Type 0
IsUnit u =
    (u ≡ b'w')
    ⊎ (u ≡ b'W')
    ⊎ (u ≡ b'd')
    ⊎ (u ≡ b'D')
    ⊎ (u ≡ b'M')
    ⊎ (u ≡ b'Y')
    ⊎ (u ≡ b'y')
    ⊎ (u ≡ b's')
    ⊎ (u ≡ b'S')
    ⊎ (u ≡ b'm')
    ⊎ (u ≡ b'h')
    ⊎ (u ≡ b'H')

-- The last character of the text, which has one, is a unit.
abbrev pub EndsInUnit : String → Type 0
EndsInUnit t = (c : Char) × (s : String) × (t ≡ c ∷ s) × IsUnit (code (split_last c s).1)

in_unit-ok :
    {F : Type 0} (std : Std F) (dstr number : String) (u : ℕ) (d : ℤ)
    → in_unit std dstr number u ≡ ok d
    → IsUnit u
unfolding in_unit
in_unit-ok std dstr number u d h = ground arith

parse_trimmed-ok :
    {F : Type 0} (std : Std F) (t : String) (d : ℤ)
    → parse_trimmed std t ≡ ok d
    → ((t ≡ "") × (d ≡ pos 0)) ⊎ EndsInUnit t
unfolding parse_trimmed
parse_trimmed-ok std [] d h = inl (refl, ground arith)
parse_trimmed-ok std (c ∷ s) d h = inr (c, s, refl, in_unit-ok std _ _ _ d h)

-- A duration is accepted only if it is blank, and then it is 0, or if its last character, after the
-- surrounding white space is cut, is one of the units wWdDMYysSmhH.
pub parse_duration_string-ok :
    {F : Type 0} (std : Std F) (dstr : String) (d : ℤ)
    → parse_duration_string std dstr ≡ ok d
    → ((trim_space dstr ≡ "") × (d ≡ pos 0)) ⊎ EndsInUnit (trim_space dstr)
unfolding parse_duration_string
parse_duration_string-ok std dstr d h = parse_trimmed-ok std (trim_space dstr) d h
