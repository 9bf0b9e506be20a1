-- ===== src/Controllers/Networks/Laws.antt =====
-- The finalizer of a network goes away last.
use anck.Prelude.{
  String, true, not, ◌&&◌, ◌⊎◌, inl, inr, ◌==◌, string_eq, contains, contains-keep, keep, ◌≡◌, refl,
  ap, ◌∙◌,
}
use anck.Prelude.Exec.{
  Exec, Error, Result, ok, err, panic, attempt, pure, raise, bind_inv, attempt_inv,
}
use anck.Api.{Network}
use anck.Dapr.{Config}
use anck.Nats.Server.{Service}
use anck.Jetstreams.Duration.{Std}
use anck.Jetstreams.Jsm.{Jsm}
use anck.Resources.Kube.{Kube}
use anck.Controllers.SliceLib.{SliceLib}
use anck.Controllers.NodeStreams.{Retry}
use anck.Controllers.Streams.{Requeue, delete_main_jetstreams, reconcile_jetstreams}
use anck.Controllers.Networks.{
  network_finalizer, with_finalizers, reconcile_delete_network, all_done, reconcile_delete, paired,
  on_network, reconcile_deleting,
}

module _ {W : Type 0} (kube : Kube W) (service : Service W) (marshal : Config → Result String)
    {F : Type 0} (jsm : Jsm W) (std : Std F) (lib : SliceLib) (retry : Retry W) where
  -- the states that the three parts of the deletion start from
  abbrev pub after_main : Network × W → Network × W
  after_main s = (delete_main_jetstreams kube service jsm std s).1

  abbrev pub after_nodes : Network × W → Network × W
  after_nodes s = (reconcile_jetstreams kube service jsm std lib retry (after_main s)).1

  -- the parts return results, without an error
  pub record Deleted (s : Network × W) : Type 0 where
    pub main : (a : Requeue) × ((delete_main_jetstreams kube service jsm std s).0 ≡ ok a)
    pub nodes :
        (a : Requeue) × ((reconcile_jetstreams kube service jsm std lib retry (after_main s)).0
          ≡ ok a)
    pub network : (a : Requeue) × ((reconcile_delete_network kube service (after_nodes s)).0 ≡ ok a)

  all_done_inv :
      (main nodes network : Error ⊎ Requeue) (s : Network × W) (a : Requeue)
      → (all_done kube service marshal jsm std lib retry main nodes network s).0 ≡ ok a
      → ((m : Requeue) × (main ≡ inr m))
        × ((m : Requeue) × (nodes ≡ inr m))
        × ((m : Requeue) × (network ≡ inr m))
  unfolding all_done pure raise
  all_done_inv (inr x) (inr y) (inr z) s a h = ((x, refl), (y, refl), (z, refl))
  all_done_inv (inr x) (inr y) (inl e) s a h = cc
  all_done_inv (inr x) (inl e) n s a h = cc
  all_done_inv (inl e) m n s a h = cc

  was_ok :
      {A : Type 0} (m : Exec (Network × W) A) (s : Network × W) (o : Error ⊎ A)
      → (attempt m s).0 ≡ ok o
      → (a : A) × (o ≡ inr a)
      → (a : A) × ((m s).0 ≡ ok a)
  was_ok m s o h (a, e) =
      let (outcome, same) = attempt_inv m s o h in
      elim outcome [
        | inl (x, is_error, failed) ↦ absurd (cc (e, is_error))
        | inr (b, is_value, value) ↦ (b, value)
      ]

  attempt_state :
      {A : Type 0} (m : Exec (Network × W) A) (s : Network × W) → (attempt m s).1 ≡ (m s).1
  unfolding attempt
  attempt_state m s = refl

  reconcile_delete_inv :
      (s : Network × W) (a : Requeue)
      → (reconcile_delete kube service marshal jsm std lib retry s).0 ≡ ok a
      → Deleted s
  unfolding reconcile_delete
  reconcile_delete_inv s a h =
      let (m, e1, h1, s1) =
        bind_inv (attempt (delete_main_jetstreams kube service jsm std)) _ s h in
      let (n, e2, h2, s2) =
        bind_inv (attempt (reconcile_jetstreams kube service jsm std lib retry)) _ _ h1 in
      let (k, e3, h3, s3) = bind_inv (attempt (reconcile_delete_network kube service)) _ _ h2 in
      let (main, nodes, network) = all_done_inv m n k _ a h3 in
      record {
        main = was_ok _ s m e1 main;
        nodes =
            was_ok (reconcile_jetstreams kube service jsm std lib retry) (after_main s) n
              (unfold attempt in e2) nodes;
        network =
            was_ok (reconcile_delete_network kube service) (after_nodes s) k (unfold attempt in e3)
              network;
      }

  paired_inv :
      {A : Type 0} (r : Result A) (n left : Network) (a : A)
      → paired r n ≡ ok (a, left)
      → (r ≡ ok a) × (left ≡ n)
  paired_inv (ok b) n left a h = (cc h, cc h)
  paired_inv (err e) n left a h = cc
  paired_inv panic n left a h = cc

  -- the state behind the deletion, and the network that is written then
  abbrev pub deleted_state : Network → W → Network × W
  deleted_state network w = (reconcile_delete kube service marshal jsm std lib retry (network, w)).1

  abbrev pub unmarked : Network → Network
  unmarked left =
      with_finalizers (keep (λ f. not (f == network_finalizer)) left.meta.finalizers) left

  abbrev pub last_update : Network → W → Result Network × W
  last_update network w =
      let left = (deleted_state network w).0 in
      kube.update_network left.meta.namespace (unmarked left) (deleted_state network w).1

  -- Where the reconciliation of a network that is being deleted, and that has the finalizer, returns no
  -- error, the streams of the main domain were deleted, the nodes were reconciled and the network was
  -- deleted without an error, in this order, and the last thing that was done is that the network was
  -- written without the finalizer and with all other finalizers that the deletion has left it.
  pub reconcile_deleting-ok :
      (network : Network) (w : W) (a : Requeue)
      → contains network.meta.finalizers network_finalizer ≡ true
      → (reconcile_deleting kube service marshal jsm std lib retry network w).0 ≡ ok a
      → Deleted (network, w)
        × ((written : Network) × ((last_update network w).0 ≡ ok written))
        × ((reconcile_deleting kube service marshal jsm std lib retry network w).1
            ≡ (last_update network w).1)
        × ((f : String)
            → contains (unmarked (deleted_state network w).0).meta.finalizers f ≡ (
                contains (deleted_state network w).0.meta.finalizers f
                && not (f == network_finalizer)))
  unfolding reconcile_deleting
  reconcile_deleting-ok network w a marked h =
      let ((b, left), e1, h1, s1) =
        bind_inv
          (on_network kube service marshal jsm std lib retry network
            (reconcile_delete kube service marshal jsm std lib retry))
          _ w (rw marked at h) in
      let (done, same) = paired_inv _ _ left b (unfold on_network in e1) in
      let (written, e2, h2, s2) =
        bind_inv (kube.update_network left.meta.namespace (unmarked left)) _ _ h1 in
      (
        reconcile_delete_inv (network, w) b done,
        (written, unfold on_network in cc (e2, same)),
        rw marked (ap (λ r. r.1) (s1 ∙ s2) ∙ unfold pure on_network in (rw same refl)),
        λ f. contains-keep (λ g. not (g == network_finalizer)) _ f,
      )
