-- ===== src/Start/Waiting.antt =====
-- How `waitForAnckCredentials` ends.
use anck.Prelude.{ℕ, zero, suc, ◌<◌, true, false, List, ◌≡◌, refl, arith, Bool-cases, inl, inr}
use anck.Prelude.Exec.{Error, Result, ok, err, panic, pure, raise, ◌>>=◌}
use anck.Common.{anck_namespace}
use anck.Resources.Kube.{Kube, Pod}
use anck.Resources.Others.{list_pods}
use anck.Start.{runs_credentials, timeout_error, wait_for_anck_credentials}

module _ {W : Type 0} (kube : Kube W) (sleep : W → W) where
  -- so many polls, with a pause after each, that find no running pod lead from the first state to the
  -- second one
  pub data Waiting : ℕ → W → W → Type 0 where
    no_poll : {w : W} → Waiting zero w w
    one_more :
        {n : ℕ} {w w' : W} (pods : List Pod)
        → (list_pods kube anck_namespace w).0 ≡ ok pods
        → runs_credentials pods ≡ false
        → Waiting n (sleep (list_pods kube anck_namespace w).1) w'
        → Waiting (suc n) w w'

  pub data Ends (n : ℕ) (w : W) : Type 0 where
    running :
        (m : ℕ) (w' : W) (pods : List Pod)
        → m < n
        → Waiting m w w'
        → (list_pods kube anck_namespace w').0 ≡ ok pods
        → runs_credentials pods ≡ true
        → wait_for_anck_credentials kube sleep n w ≡ (ok tt, (list_pods kube anck_namespace w').1)
        → Ends n w
    failed :
        (m : ℕ) (w' : W) (e : Error)
        → m < n
        → Waiting m w w'
        → (list_pods kube anck_namespace w').0 ≡ err e
        → wait_for_anck_credentials kube sleep n w ≡ (err e, (list_pods kube anck_namespace w').1)
        → Ends n w
    panicked :
        (m : ℕ) (w' : W)
        → m < n
        → Waiting m w w'
        → (list_pods kube anck_namespace w').0 ≡ panic
        → wait_for_anck_credentials kube sleep n w ≡ (panic, (list_pods kube anck_namespace w').1)
        → Ends n w
    timed_out :
        (w' : W)
        → Waiting n w w'
        → wait_for_anck_credentials kube sleep n w ≡ (err timeout_error, w')
        → Ends n w

  later :
      (n : ℕ) (w : W) (pods : List Pod)
      → (list_pods kube anck_namespace w).0 ≡ ok pods
      → runs_credentials pods ≡ false
      → Ends n (sleep (list_pods kube anck_namespace w).1)
      → Ends (suc n) w
  unfolding wait_for_anck_credentials ◌>>=◌
  later n w pods h f (running m w' found less before there runs e) =
      running (suc m) w' found (omega arith) (one_more pods h f before) there runs (rw (h, f) e)
  later n w pods h f (failed m w' x less before there e) =
      failed (suc m) w' x (omega arith) (one_more pods h f before) there (rw (h, f) e)
  later n w pods h f (panicked m w' less before there e) =
      panicked (suc m) w' (omega arith) (one_more pods h f before) there (rw (h, f) e)
  later n w pods h f (timed_out w' before e) = timed_out w' (one_more pods h f before) (rw (h, f) e)

  -- The wait ends in one of these ways: at the first poll that finds a running pod of the service, if one
  -- of the polls that fit before the timeout does, without an error; at the first poll whose request
  -- fails, with its error; and else after all of the polls, with the error of the timeout.
  pub wait_for_anck_credentials_lem : (n : ℕ) (w : W) → Ends n w
  unfolding wait_for_anck_credentials pure raise ◌>>=◌
  wait_for_anck_credentials_lem zero w = timed_out w no_poll refl
  wait_for_anck_credentials_lem (suc n) w =
      polled (list_pods kube anck_namespace w).0 refl
        (wait_for_anck_credentials_lem n (sleep (list_pods kube anck_namespace w).1))
    where
      polled :
          (r : Result (List Pod))
          → (list_pods kube anck_namespace w).0 ≡ r
          → Ends n (sleep (list_pods kube anck_namespace w).1)
          → Ends (suc n) w
      polled (ok pods) h rest = elim (Bool-cases (runs_credentials pods)) [
        | inl runs ↦ running 0 w pods (omega arith) no_poll h runs (rw (h, runs) refl)
        | inr f ↦ later n w pods h f rest
      ]
      polled (err e) h rest = failed 0 w e (omega arith) no_poll h (rw h refl)
      polled panic h rest = panicked 0 w (omega arith) no_poll h (rw h refl)
