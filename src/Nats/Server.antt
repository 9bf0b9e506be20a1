-- ===== src/Nats/Server.antt =====
-- pkg/nats/server.go and pkg/grpc/client.go: connecting to the service anck-credentials, and the
-- information on the NATS server that it has. The service and grpc are a parameter.
pub mod Quiet
use anck.Prelude.{
  ℕ, zero, suc, ◌+◌, String, Option, none, some, List, inl, inr, ◌≡◌, refl, ap, ◌∙◌, arith,
}
use anck.Prelude.Exec.{Exec, Error, ok, err, panic, pure, raise, lift, attempt, defer, ◌>>=◌}

-- `ServerInformationResponse`, as far as it is used
pub record ServerInformation : Type 0 where
  pub nats_address : String
  pub leaf_address : String
  pub sys_creds : String
  pub sys_public_key : String
  pub sys_jwt : String
  pub operator_jwt : String

-- `DesiredStateResponse`: the network, the credentials of its participants in the order of the response,
-- and the participants that have left
pub record DesiredState : Type 0 where
  pub network_name : String
  pub account_name : String
  pub account_public_key : String
  pub creds : List String
  pub deleted_participants : List String

pub record Service (W : Type 0) : Type 1 where
  pub Conn : Type 0
  -- `grpc.Dial(URI, grpc.WithInsecure())`, `cc.Close()`, `time.Sleep(backoff)`
  pub connect : Exec W Conn
  pub close : Conn → W → W
  pub sleep : W → W
  pub server_information : Conn → Exec W ServerInformation
  pub desired_state : Conn → String → List String → Exec W DesiredState
  pub delete_network : Conn → String → Exec W (Unit {0})

module _ {W : Type 0} (service : Service W) where
  -- the attempts that are left, and the last error: none before the first one
  unfoldable pub dial_from : ℕ → Option Error → Exec W (Option service.Conn)
  dial_from zero none = pure none
  dial_from zero (some e) = raise e
  dial_from (suc n) last = do
    r ← attempt service.connect
    elim r [ inr conn ↦ pure (some conn) | inl e ↦ (λ w. dial_from n (some e) (service.sleep w)) ]

  -- `Dial`: without an attempt the connection is nil, and there is no error
  unfoldable pub dial : ℕ → Exec W (Option service.Conn)
  dial attempts = dial_from attempts none

  -- the callers' part behind `Dial`: a method of a nil connection panics
  unfoldable pub with_service : {A : Type 0} → (service.Conn → Exec W A) → Exec W A
  with_service body = do
    cc ← dial 10
    elim cc [ none ↦ lift panic | some conn ↦ defer (service.close conn) (body conn) ]

  -- `GetNatsServerInfos`: the `once` is local, so that every call asks the service. A response without an
  -- error is never nil, so that the last test of the code does not fail.
  unfoldable pub get_nats_server_infos : Exec W ServerInformation
  get_nats_server_infos = with_service (λ conn. service.server_information conn)

  -- `n` attempts that fail, with a pause after each, lead from the first state to the second one
  pub data Failing : ℕ → W → W → Type 0 where
    no_attempt : {w : W} → Failing zero w w
    one_more :
        {n : ℕ} {w w' : W} (e : Error)
        → (service.connect w).0 ≡ err e
        → Failing n (service.sleep (service.connect w).1) w'
        → Failing (suc n) w w'

  dial-step :
      (n : ℕ) (last : Option Error) (w : W) (e : Error)
      → (service.connect w).0 ≡ err e
      → dial_from (suc n) last w ≡ dial_from n (some e) (service.sleep (service.connect w).1)
  unfolding dial_from attempt ◌>>=◌
  dial-step n last w e h = rw h refl

  dial-found :
      (n : ℕ) (last : Option Error) (w : W) (conn : service.Conn)
      → (service.connect w).0 ≡ ok conn
      → dial_from (suc n) last w ≡ (ok (some conn), (service.connect w).1)
  unfolding dial_from attempt ◌>>=◌ pure
  dial-found n last w conn h = rw h refl

  dial_from_lem :
      (n m : ℕ) (last : Option Error) (w w' : W) (conn : service.Conn)
      → Failing m w w'
      → (service.connect w').0 ≡ ok conn
      → dial_from (m + suc n) last w ≡ (ok (some conn), (service.connect w').1)
  dial_from_lem n zero last w w' conn no_attempt h =
      ap (λ k. dial_from k last w) (omega arith) ∙ dial-found n last w conn h
  dial_from_lem n (suc m) last w w' conn (one_more e p f) h =
      ap (λ k. dial_from k last w) (omega arith)
      ∙ dial-step (m + suc n) last w e p
      ∙ dial_from_lem n m (some e) _ w' conn f h

  all_fail :
      (n : ℕ) (e : Error) (w w' : W)
      → Failing n w w'
      → (e' : Error) × (dial_from n (some e) w ≡ (err e', w'))
  unfolding dial_from raise
  all_fail zero e w w' no_attempt = (e, refl)
  all_fail (suc n) e w w' (one_more e1 p f) =
      let (e', h) = all_fail n e1 _ w' f in (e', dial-step n (some e) w e1 p ∙ h)

  -- `Dial` connects with the first attempt that succeeds, whatever the number `m` of the attempts before it
  -- that fail, if it is one of its `m + suc n` attempts.
  pub dial-ok :
      (n m : ℕ) (w w' : W) (conn : service.Conn)
      → Failing m w w'
      → (service.connect w').0 ≡ ok conn
      → dial (m + suc n) w ≡ (ok (some conn), (service.connect w').1)
  unfolding dial
  dial-ok n m w w' conn f h = dial_from_lem n m none w w' conn f h

  -- If all of its attempts fail, and there is one, `Dial` returns an error, after as many attempts.
  pub dial-err :
      (n : ℕ) (w w' : W) → Failing (suc n) w w' → (e : Error) × (dial (suc n) w ≡ (err e, w'))
  unfolding dial
  dial-err n w w' (one_more e p f) =
      let (e', h) = all_fail n e _ w' f in (e', dial-step n none w e p ∙ h)
