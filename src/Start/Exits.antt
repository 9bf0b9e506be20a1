-- ===== src/Start/Exits.antt =====
-- Steps of `main` that end the program on an error.
use anck.Prelude.{String, ◌⊎◌, inl, inr, ◌≡◌, refl, ap, ◌∙◌}
use anck.Prelude.Exec.{
  Exec, Error, ok, err, attempt, pure, raise, ◌>>=◌, bind_inv, attempt_inv, Keeps, >>=-Keeps,
  attempt-Keeps,
}
use anck.Start.{or_exit, or_exit_with}

or_exit_inv :
    {W A : Type 0} (message : String) (m : Exec W A) (w : W) (a : A)
    → (or_exit message m w).0 ≡ ok a
    → ((m w).0 ≡ ok a) × ((or_exit message m w).1 ≡ (m w).1)
unfolding or_exit or_exit_with pure raise
or_exit_inv {W} {A} message m w a h =
    let (r, e1, h1, s1) = bind_inv (attempt m) (or_exit_with message) w h in
    let (cases, state) = attempt_inv m w r e1 in
    let (e2, same) = go r cases h1 in (e2, ap (λ x. x.1) s1 ∙ same ∙ state)
  where
    go :
        (r : Error ⊎ A)
        → ((e : Error) × (r ≡ inl e) × ((m w).0 ≡ err e))
          ⊎ ((a2 : A) × (r ≡ inr a2) × ((m w).0 ≡ ok a2))
        → (or_exit_with message r (attempt m w).1).0 ≡ ok a
        → ((m w).0 ≡ ok a) × ((or_exit_with message r (attempt m w).1).1 ≡ (attempt m w).1)
    go (inl e) c h = cc
    go (inr a3) (inl (e, p, q)) h = cc
    go (inr a3) (inr (a2, p, q)) h = (q ∙ cc, refl)

-- A call that exits on an error, and what follows it.
pub or_exit_bind :
    {W A B : Type 0} (message : String) (m : Exec W A) (f : A → Exec W B) (w : W) {b : B}
    → ((or_exit message m >>= f) w).0 ≡ ok b
    → (a : A) × ((m w).0 ≡ ok a)
      × ((f a (m w).1).0 ≡ ok b)
      × ((or_exit message m >>= f) w ≡ f a (m w).1)
or_exit_bind {W} {A} {B} message m f w {b} h =
    let (a, e, k, s) = bind_inv (or_exit message m) f w h in
    let (e2, same) = or_exit_inv message m w a e in (a, e2, rw same at k, s ∙ ap (f a) same)

pub or_exit-Keeps :
    {W V A : Type 0} (view : W → V) (message : String) (m : Exec W A)
    → Keeps view m
    → Keeps view (or_exit message m)
unfolding or_exit or_exit_with pure raise
or_exit-Keeps {W} {V} {A} view message m h =
    >>=-Keeps view (attempt m) (or_exit_with message) (attempt-Keeps view m h) go
  where
    go : (r : Error ⊎ A) → Keeps view (or_exit_with {W = W} message r)
    go (inl e) w = refl
    go (inr a) w = refl
