-- ===== src/Jetstreams/StreamConfig/Subjects.antt =====
-- The subjects of a stream: which ones it gets, and that the domain keeps the leaf servers apart.
use Prim.Native.Char.{Char}
use Prim.Native.String.{[], ◌∷◌}
use anck.Prelude.{
  String, ◌<>◌, Bool, false, List, ◌≡◌, ◌≢◌, refl, ap, arith, ◌==◌, string_eq, contains,
  contains-append, any, ◌&&◌, ◌⊎◌,
}
use mathlib.Core.Path.{ap₂}
use anck.Common.{nats_denied_export_topics}
use anck.Text.{has_char}
use anck.Api.{SubjectSpec}
use anck.Jetstreams.StreamConfig.{gather, qualify}

-- some entry for the stream holds the subject
abbrev pub listed_for : String → String → SubjectSpec → Bool
listed_for name subject s = (s.stream == name) && contains s.subjects subject

-- A stream gets exactly the subjects that an entry for it lists.
pub contains-gather :
    (name subject : String) (ss : List SubjectSpec)
    → contains (gather name ss) subject ≡ any (listed_for name subject) ss
unfolding gather
contains-gather name subject List.[] = refl
contains-gather name subject (List.◌∷◌ s ss) =
    ground
      (arith, contains-gather name subject ss, contains-append s.subjects (gather name ss) subject)

head-eq : {c d : Char} {s t : String} → Path String (c ∷ s) (d ∷ t) → c ≡ d
head-eq h = cc

tail-eq : {c d : Char} {s t : String} → Path String (c ∷ s) (d ∷ t) → s ≡ t
tail-eq h = cc

abbrev dot : Char
dot = "."

-- The text before the first dot is determined by the whole.
same_domain :
    (d e s t : String)
    → has_char b'.' d ≡ false
    → has_char b'.' e ≡ false
    → (d <> dot ∷ s) ≡ (e <> dot ∷ t)
    → (d ≡ e) × (s ≡ t)
same_domain [] [] s t p q h = (refl, tail-eq h)
same_domain [] (c ∷ e) s t p q h = cc (ap (λ x. has_char b'.' (x ∷ e)) (head-eq h), q)
same_domain (c ∷ d) [] s t p q h = cc (ap (λ x. has_char b'.' (x ∷ d)) (head-eq h), p)
same_domain (c ∷ d) (c' ∷ e) s t p q h =
    let (same, rest) = same_domain d e s t (ground arith) (ground arith) (tail-eq h) in
    (ap₂ (λ x y. x ∷ y) (head-eq h) same, rest)

-- Two different domains whose names hold no dot share no subject, but for `local.>`: a subject that two
-- such domains give to a stream is `local.>` at one of them, or the domains are one.
pub qualify-separates :
    (d e s t : String)
    → has_char b'.' d ≡ false
    → has_char b'.' e ≡ false
    → d ≢ e
    → qualify d s ≡ qualify e t
    → (s ≡ nats_denied_export_topics) ⊎ (t ≡ nats_denied_export_topics)
unfolding qualify
qualify-separates d e s t p q n h = ground (arith, same_domain d e s t p q)
