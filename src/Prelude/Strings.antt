-- ===== src/Prelude/Strings.antt =====
-- Concatenation of texts, by clauses: it computes at a variable on the right, which the native
-- operation does not.
use Prim.Native.String.{String, [], ◌∷◌}
use mathlib.Core.Path.{◌≡◌, refl, ap}

infixr 65 ◌<>◌
abbrev pub ◌<>◌ : String → String → String
[] <> t = t
(c ∷ s) <> t = c ∷ (s <> t)

pub <>_assoc : (s t u : String) → (s <> t) <> u ≡ s <> (t <> u)
<>_assoc [] t u = refl
<>_assoc (c ∷ s) t u = ap (λ r. c ∷ r) (<>_assoc s t u)
