-- ===== src/Text/Laws.antt =====
-- Searching, replacing and splitting in a text that is put together from parts.
use Prim.Native.Char.{Char, code}
use Prim.Native.String.{[], ◌∷◌}
use anck.Prelude.{
  ℕ, zero, suc, String, ◌<>◌, false, List, ◌≡◌, refl, ap, sym, arith, ==_refl, ==_ne, string_eq,
  ◌+◌, ◌≢◌,
}
use anck.Text.{has_prefix, str_contains, has_char, replace_from, split, trim_suffix}

-- A character that the needle lacks ends every match.
has_prefix-append :
    (s p : String) (c : Char) (t : String)
    → has_char (code c) p ≡ false
    → has_prefix (s <> c ∷ t) p ≡ has_prefix s p
has_prefix-append [] [] c t h = refl
has_prefix-append [] (d ∷ p) c t h = ground arith
has_prefix-append (a ∷ s) [] c t h = refl
has_prefix-append (a ∷ s) (d ∷ p) c t h = ground (arith, has_prefix-append s p c t)

-- Nothing is replaced in a text that does not hold the needle, before a character that it lacks.
pub replace_from-append :
    (s old new : String) (c : Char) (t : String)
    → str_contains s old ≡ false
    → has_char (code c) old ≡ false
    → replace_from old new zero (s <> c ∷ t) ≡ s <> replace_from old new zero (c ∷ t)
unfolding str_contains replace_from
replace_from-append [] old new c t h k = refl
replace_from-append (a ∷ s) old new c t h k =
    ground (arith, replace_from-append s old new c t, has_prefix-append (a ∷ s) old c t k)

-- A part with no separator is the first field.
pub split-append :
    (s : String) (sep : Char) (t : String)
    → has_char (code sep) s ≡ false
    → split (s <> sep ∷ t) (code sep) ≡ List.◌∷◌ s (split t (code sep))
unfolding split
split-append [] sep t h = ground arith
split-append (a ∷ s) sep t h = ground (arith, split-append s sep t)

abbrev pub chars : String → ℕ
chars [] = zero
chars (c ∷ s) = suc (chars s)

chars-append : (s t : String) → chars (s <> t) ≡ chars s + chars t
chars-append [] t = omega arith
chars-append (c ∷ s) t = omega (arith, chars-append s t)

longer-ne : (c : Char) (s t : String) → c ∷ (s <> t) ≢ t
longer-ne c s t e = omega (arith, chars-append s t, ap chars e)

tail-eq : {c d : Char} {s t : String} → Path String (c ∷ s) (d ∷ t) → s ≡ t
tail-eq h = cc

head-eq : {c d : Char} {s t : String} → Path String (c ∷ s) (d ∷ t) → c ≡ d
head-eq h = cc

pub <>-cancel_right : (s t u : String) → (s <> u) ≡ (t <> u) → s ≡ t
<>-cancel_right [] [] u h = refl
<>-cancel_right [] (c ∷ t) u h = absurd (longer-ne c t u (sym h))
<>-cancel_right (c ∷ s) [] u h = absurd (longer-ne c s u h)
<>-cancel_right (c ∷ s) (d ∷ t) u h = cc (head-eq h, <>-cancel_right s t u (tail-eq h))

pub <>-cancel_left : (u s t : String) → (u <> s) ≡ (u <> t) → s ≡ t
<>-cancel_left [] s t h = h
<>-cancel_left (c ∷ u) s t h = <>-cancel_left u s t (tail-eq h)

trim_suffix_self : (c : Char) (s : String) → trim_suffix (c ∷ s) (c ∷ s) ≡ []
unfolding trim_suffix
trim_suffix_self c s = rw (==_refl (c ∷ s))

-- A suffix that is there is cut off, and only that.
pub trim_suffix-append : (s suffix : String) → trim_suffix (s <> suffix) suffix ≡ s
unfolding trim_suffix
trim_suffix-append [] [] = refl
trim_suffix-append [] (d ∷ suffix) = trim_suffix_self d suffix
trim_suffix-append (c ∷ s) suffix =
    rw (==_ne (c ∷ (s <> suffix)) suffix (longer-ne c s suffix))
      (ap (λ r. c ∷ r) (trim_suffix-append s suffix))

-- A text with more behind it is another text, and so are two texts with different endings.
pub append-ne : (s : String) (c : Char) (t : String) → s <> (c ∷ t) ≢ s
append-ne s c t e = omega (arith, chars-append s (c ∷ t), ap chars e)

pub append-ne-append : (s t u : String) → t ≢ u → s <> t ≢ s <> u
append-ne-append s t u n e = n (<>-cancel_left s t u e)

-- A text without the separator is not split.
pub split-single :
    (s : String) (sep : ℕ) → has_char sep s ≡ false → split s sep ≡ List.◌∷◌ s List.[]
unfolding split
split-single [] sep h = refl
split-single (c ∷ s) sep h = ground (arith, split-single s sep)
