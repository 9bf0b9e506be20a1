-- ===== src/Prelude/Exec.antt =====
-- Go functions that return `(T, error)` and act on the world outside: a state `W` is passed along, and
-- stays changed by what came before an error. A panic is no error that the code can look at.
use Prim.Native.Nat.{ℕ}
use Prim.Native.String.{String}
use mathlib.Core.Path.{◌≡◌, refl, ap, ◌∙◌}
use mathlib.Core.Logic.{◌⊎◌, inl, inr}
use mathlib.Core.Bool.{Bool, true, false, cond}
use native.Mathlib.Omega.{arith}

-- What the code asks of an error: the tests `IsNotFound`, `IsAlreadyExists`, `IsNatsError(err, n)`.
pub data Kind : Type 0 where
  not_found already_exists conflict other : Kind
  nats_error : ℕ → Kind

pub record Error : Type 0 where
  pub kind : Kind
  pub text : String

-- `fmt.Errorf(text)`, `errors.New(text)`
abbrev pub errorf : String → Error
errorf text = record { kind = other; text = text }

abbrev pub is_not_found : Error → Bool
is_not_found e = elim e.kind [ not_found ↦ true | _ ↦ false ]

abbrev pub is_already_exists : Error → Bool
is_already_exists e = elim e.kind [ already_exists ↦ true | _ ↦ false ]

pub data Result {ℓ} (A : Type ℓ) : Type ℓ where
  ok : A → Result A
  err : Error → Result A
  panic : Result A

abbrev pub attempted {ℓ} : {A : Type ℓ} → Result A → Result (Error ⊎ A)
attempted (ok a) = ok (inr a)
attempted (err e) = ok (inl e)
attempted panic = panic

abbrev pub Exec {ℓ κ} : Type ℓ → Type κ → Type (ℓ ⊔ κ)
Exec W A = W → Result A × W

module _ {ℓ κ} {W : Type ℓ} {A : Type κ} where
  unfoldable pub pure : A → Exec W A
  pure a w = (ok a, w)

  unfoldable pub raise : Error → Exec W A
  raise e w = (err e, w)

  unfoldable pub lift : Result A → Exec W A
  lift r w = (r, w)

  -- `a, err := m()` where the code goes on after an error
  unfoldable pub attempt : Exec W A → Exec W (Error ⊎ A)
  attempt m w = let (r, w') = m w in (attempted r, w')

module _ {ℓ κ} {W : Type ℓ} {A : Type κ} where
  -- a deferred call: it is made after the rest, whatever that returns
  unfoldable pub defer : (W → W) → Exec W A → Exec W A
  defer cleanup m w = let (r, w') = m w in (r, cleanup w')

module _ {ℓ κ μ} {W : Type ℓ} {A : Type κ} {B : Type μ} where
  abbrev pub continue : Result A → (A → Exec W B) → Exec W B
  continue (ok a) f w = f a w
  continue (err e) f w = (err e, w)
  continue panic f w = (panic, w)

  infixl 10 ◌>>=◌ ◌>>◌
  unfoldable pub ◌>>=◌ : Exec W A → (A → Exec W B) → Exec W B
  unfolding pure raise lift attempt
  ◌>>=◌ m f w = let (r, w') = m w in continue r f w'

  abbrev pub ◌>>◌ : Exec W A → Exec W B → Exec W B
  m >> n = m >>= λ _. n

  -- A bind whose first part succeeds is its second part.
  pub >>=_ok :
      (m : Exec W A) (f : A → Exec W B) (w : W) {a : A} → (m w).0 ≡ ok a → (m >>= f) w ≡ f a (m w).1
  unfolding ◌>>=◌
  >>=_ok m f w h = ap (λ r. continue r f (m w).1) h

  -- Inversion of a bind that succeeded.
  pub >>=-eq-ok :
      (m : Exec W A) (f : A → Exec W B) (w : W) {b : B}
      → ((m >>= f) w).0 ≡ ok b
      → (a : A) × ((m w).0 ≡ ok a) × ((f a (m w).1).0 ≡ ok b)
  unfolding ◌>>=◌
  >>=-eq-ok m f w h = go (m w).0 refl h
    where
      go :
          {b : B} (r : Result A)
          → (m w).0 ≡ r
          → (continue r f (m w).1).0 ≡ ok b
          → (a : A) × ((m w).0 ≡ ok a) × ((f a (m w).1).0 ≡ ok b)
      go (ok a) e h = (a, e, h)
      go (err x) e h = cc
      go panic e h = cc

  -- The same with the state that the second part starts from.
  pub bind_inv :
      (m : Exec W A) (f : A → Exec W B) (w : W) {b : B}
      → ((m >>= f) w).0 ≡ ok b
      → (a : A) × ((m w).0 ≡ ok a) × ((f a (m w).1).0 ≡ ok b) × ((m >>= f) w ≡ f a (m w).1)
  bind_inv m f w h = let (a, e, k) = >>=-eq-ok m f w h in (a, e, k, >>=_ok m f w e)

module _ {ℓ κ} {W : Type ℓ} {A : Type κ} where
  -- What an attempt returns, and that it is the state of the call.
  pub attempt_inv :
      (m : Exec W A) (w : W) (o : Error ⊎ A)
      → (attempt m w).0 ≡ ok o
      → (((e : Error) × (o ≡ inl e) × ((m w).0 ≡ err e))
          ⊎ ((a : A) × (o ≡ inr a) × ((m w).0 ≡ ok a)))
        × ((attempt m w).1 ≡ (m w).1)
  unfolding attempt
  attempt_inv m w o h = (go (m w).0 h, refl)
    where
      go :
          (r : Result A)
          → attempted r ≡ ok o
          → ((e : Error) × (o ≡ inl e) × (r ≡ err e)) ⊎ ((a : A) × (o ≡ inr a) × (r ≡ ok a))
      go (ok a) e = inr (a, cc, refl)
      go (err x) e = inl (x, cc, refl)
      go panic e = cc

settled : (Error → Bool) → Result (Unit {0}) → Result (Unit {0})
settled test (ok a) = ok a
settled test (err e) = cond (test e) (ok tt) (err e)
settled test panic = panic

settled_inv :
    (test : Error → Bool) (r : Result (Unit {0}))
    → settled test r ≡ ok tt
    → (r ≡ ok tt) ⊎ ((e : Error) × (r ≡ err e) × (test e ≡ true))
unfolding settled
settled_inv test (ok a) h = inl refl
settled_inv test (err e) h = inr (e, refl, ground arith)
settled_inv test panic h = cc

module _ {ℓ} {W : Type ℓ} where
  -- `if err := m(); err != nil { if test(err) { return nil }; return err }`
  unfoldable pub ignoring : (Error → Bool) → Exec W (Unit {0}) → Exec W (Unit {0})
  unfolding settled
  ignoring test m w = let (r, w') = m w in (settled test r, w')

  -- Without an error the call succeeded, or it failed with an error that is ignored; the state is the call's.
  pub ignoring_inv :
      (test : Error → Bool) (m : Exec W (Unit {0})) (w : W)
      → (ignoring test m w).0 ≡ ok tt
      → (((m w).0 ≡ ok tt) ⊎ ((e : Error) × ((m w).0 ≡ err e) × (test e ≡ true)))
        × ((ignoring test m w).1 ≡ (m w).1)
  unfolding ignoring
  ignoring_inv test m w h = (settled_inv test (m w).0 h, refl)

  -- An error that is returned is the call's.
  pub ignoring_err :
      (test : Error → Bool) (m : Exec W (Unit {0})) (w : W) (e : Error)
      → (ignoring test m w).0 ≡ err e
      → ((m w).0 ≡ err e) × ((ignoring test m w).1 ≡ (m w).1)
  unfolding ignoring settled
  ignoring_err test m w e h = (go (m w).0 h, refl)
    where
      go : (r : Result (Unit {0})) → settled test r ≡ err e → r ≡ err e
      go (ok a) h = cc
      go (err x) h = ground arith
      go panic h = cc

  -- An error of two calls is that of the first one, or that of the second one in the state after the
  -- first.
  pub >>_err :
      (m n : Exec W (Unit {0})) (w : W) (e : Error)
      → ((m >> n) w).0 ≡ err e
      → (((m w).0 ≡ err e) × ((m >> n) w ≡ (err e, (m w).1)))
        ⊎ (((m w).0 ≡ ok tt) × ((n (m w).1).0 ≡ err e) × ((m >> n) w ≡ n (m w).1))
  unfolding ◌>>=◌
  >>_err m n w e h = go (m w).0 refl h
    where
      go :
          (r : Result (Unit {0}))
          → (m w).0 ≡ r
          → (continue r (λ _. n) (m w).1).0 ≡ err e
          → (((m w).0 ≡ err e) × (continue (m w).0 (λ _. n) (m w).1 ≡ (err e, (m w).1)))
            ⊎ (((m w).0 ≡ ok tt)
                × ((n (m w).1).0 ≡ err e)
                × (continue (m w).0 (λ _. n) (m w).1 ≡ n (m w).1))
      go (ok a) p h = inr (p, h, rw p refl)
      go (err x) p h = inl (p ∙ h, rw (p, h) refl)
      go panic p h = cc

-- Calls that keep what `view` shows of the state.
module _ {ℓ κ} {W : Type ℓ} {V : Type κ} (view : W → V) where
  abbrev pub Keeps {μ} : {A : Type μ} → Exec W A → Type (ℓ ⊔ κ)
  Keeps m = (w : W) → view (m w).1 ≡ view w

  pub >>=-Keeps {μ ν} :
      {A : Type μ} {B : Type ν} (m : Exec W A) (f : A → Exec W B)
      → Keeps m
      → ((a : A) → Keeps (f a))
      → Keeps (m >>= f)
  unfolding ◌>>=◌
  >>=-Keeps m f h k w = go (m w).0
    where
      go : (r : Result _) → view (continue r f (m w).1).1 ≡ view w
      go (ok a) = k a (m w).1 ∙ h w
      go (err e) = h w
      go panic = h w

  pub attempt-Keeps {μ} : {A : Type μ} (m : Exec W A) → Keeps m → Keeps (attempt m)
  unfolding attempt
  attempt-Keeps m h w = h w

-- A variable of the program beside the world: the state of calls that assign to it.
module _ {ℓ κ} {S : Type ℓ} {W : Type κ} where
  -- a call that does not assign
  unfoldable pub inner {μ} : {A : Type μ} → Exec W A → Exec (S × W) A
  inner m (s, w) = let (r, w') = m w in (r, (s, w'))

  unfoldable pub value : Exec (S × W) S
  value (s, w) = (ok s, (s, w))

  unfoldable pub assign : S → Exec (S × W) (Unit {0})
  assign s' (s, w) = (ok tt, (s', w))

  -- Inversion of a call that does not assign, and of the assignment and the reading of the variable.
  pub inner_inv {μ ν} :
      {A : Type μ} {B : Type ν} (m : Exec W A) (f : A → Exec (S × W) B) (s : S) (w : W) {b : B}
      → ((inner m >>= f) (s, w)).0 ≡ ok b
      → (a : A) × (w' : W) × ((m w).0 ≡ ok a)
        × ((f a (s, w')).0 ≡ ok b)
        × ((inner m >>= f) (s, w) ≡ f a (s, w'))
  unfolding inner
  inner_inv m f s w h =
      let (a, e, k, same) = bind_inv (inner m) f (s, w) h in (a, (m w).1, e, k, same)

  pub value_bind {μ} : {B : Type μ} (f : S → Exec (S × W) B) (s : S × W) → (value >>= f) s ≡ f s.0 s
  unfolding value ◌>>=◌
  value_bind f s = refl

  pub assign_bind {μ} :
      {B : Type μ} (t : S) (f : Unit {0} → Exec (S × W) B) (s : S) (w : W)
      → (assign t >>= f) (s, w) ≡ f tt (t, w)
  unfolding assign ◌>>=◌
  assign_bind t f s w = refl
