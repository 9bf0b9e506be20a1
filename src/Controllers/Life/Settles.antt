-- ===== src/Controllers/Life/Settles.antt =====
-- Without pods that come or go, the reconciliations of a network settle.
use anck.Prelude.{ℕ, suc, ◌+◌, ◌≤◌, ◌≡◌, ◌≢◌, sym, inl, inr, arith, ap}
use anck.Api.{ParticipatingSpec}
use anck.Jetstreams.Duration.{Std}
use anck.Jetstreams.Jsm.{Jsm}
use anck.Controllers.SliceLib.{SliceLib}
use anck.Controllers.NodeStreams.{Retry}
use anck.Controllers.NodeStreams.Progress.{measure, Progress, reconcile_nodes-Progress}
use anck.Controllers.Life.{Reconciles, round}

module _ {W : Type 0} {F : Type 0} (jsm : Jsm W) (std : Std F) (lib : SliceLib)
    (retry : Retry W) where
  -- reconciliations, one after the other, of which so many change the status of the pods
  pub data Changes (p : ParticipatingSpec) : ℕ → ParticipatingSpec → Type 0 where
    no_round : Changes p 0 p
    idle :
        {n : ℕ} {q r : ParticipatingSpec}
        → Changes p n q
        → Reconciles jsm std lib retry q r
        → q ≡ r
        → Changes p n r
    changing :
        {n : ℕ} {q r : ParticipatingSpec}
        → Changes p n q
        → Reconciles jsm std lib retry q r
        → q ≢ r
        → Changes p (suc n) r

  Reconciles-Progress : {p q : ParticipatingSpec} → Reconciles jsm std lib retry p q → Progress p q
  Reconciles-Progress {p} {q} (round js nodes network work result w e run e2) =
      rw (e, e2) (reconcile_nodes-Progress jsm std js lib retry nodes network work result w run)

  -- However many reconciliations follow one another, over any nodes and in any worlds, no more of them
  -- change the status of the pods than it had entries for nodes, for pods in creation and for
  -- terminating pods, and each that does takes at least one away.
  pub Changes-le-measure :
      {p q : ParticipatingSpec} {n : ℕ} → Changes p n q → n + measure q ≤ measure p
  Changes-le-measure no_round = omega arith
  Changes-le-measure (idle before now e) = omega (arith, Changes-le-measure before, ap measure e)
  Changes-le-measure (changing before now n) = elim (Reconciles-Progress now) [
    | inl e ↦ absurd (n (sym e))
    | inr less ↦ omega (arith, Changes-le-measure before)
  ]
