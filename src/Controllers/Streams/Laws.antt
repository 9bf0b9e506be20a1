-- ===== src/Controllers/Streams/Laws.antt =====
-- What `reconcileJetstreams` as a whole does to the pods and the finalizers of a network.
use anck.Prelude.{String, not, ◌&&◌, ◌||◌, contains, string_eq, ◌≡◌, refl, sym, ap, ◌∙◌, subst}
use anck.Prelude.Dict.{keys}
use anck.Prelude.Exec.{Exec, ok, attempt, defer, pure, inner_inv, value_bind, assign_bind}
use anck.Api.{Network}
use anck.Nats.Server.{Service}
use anck.Jetstreams.Duration.{Std}
use anck.Jetstreams.Jsm.{Jsm}
use anck.Jetstreams.Controller.{JetstreamController, cleanup, new_jetstream_controller}
use anck.Resources.Kube.{Kube}
use anck.Controllers.SliceLib.{SliceLib, IsSliceLib}
use anck.Controllers.Secrets.{app_component_name, read_credentials_from_secret}
use anck.Controllers.Participating.Invariant.{IsWellFormed}
use anck.Controllers.Finalizers.{
  add_network_finalizer, remove_network_finalizers, update_info_and_return,
}
use anck.Controllers.Finalizers.Laws.{add-remove_network_finalizers}
use anck.Controllers.NodeStreams.{Retry, Work, reconcile_nodes}
use anck.Controllers.NodeStreams.Laws.{Safe, reconcile_nodes-Safe}
use anck.Controllers.Streams.{
  Requeue, anck_participant, wrapped, with_controller, with_work, start_of, reconcile_with,
  reconcile_jetstreams,
}

module _ {W : Type 0} {F : Type 0} (kube : Kube W) (service : Service W) (jsm : Jsm W)
    (std : Std F) where
  -- with a result, the body ran with a controller, on the network of the caller
  with_controller_inv :
      {A : Type 0} (text : String) (network : Network)
      (body : JetstreamController → Exec (Network × W) A) (n : Network) (w : W) (a : A)
      → (with_controller kube service jsm std text network body (n, w)).0 ≡ ok a
      → (js : JetstreamController) × (w' : W) × ((body js (n, w')).0 ≡ ok a)
        × ((with_controller kube service jsm std text network body (n, w)).1.0
            ≡ (body js (n, w')).1.0)
  unfolding with_controller defer
  with_controller_inv text network body n w a h =
      let (creds, w1, e1, h1, s1) =
        inner_inv
          (read_credentials_from_secret kube (app_component_name network.spec.app anck_participant)
            network.meta.name network.spec.namespace)
          _ n w h in
      let (r, w2, e2, h2, s2) =
        inner_inv (attempt (new_jetstream_controller jsm service creds)) _ n w1 h1 in
      let (js, w3, e3, h3, s3) = inner_inv (wrapped kube service jsm std text r) _ n w2 h2 in
      (js, w3, closed_ok js w3 h3, ap (λ x. x.1.0) (s1 ∙ s2 ∙ s3) ∙ closed js w3)
    where
      closed_ok :
          (js : JetstreamController) (w' : W)
          → (defer (λ (m, v). (m, cleanup jsm js v)) (body js) (n, w')).0 ≡ ok a
          → (body js (n, w')).0 ≡ ok a
      closed_ok js w' e = e

      closed :
          (js : JetstreamController) (w' : W)
          → (defer (λ (m, v). (m, cleanup jsm js v)) (body js) (n, w')).1.0 ≡ (body js (n, w')).1.0
      closed js w' = refl

  module _ (lib : SliceLib) (laws : IsSliceLib lib) (retry : Retry W) where
    reconcile_with_inv :
        (network : Network) (js : JetstreamController) (w : W) (a : Requeue)
        → (reconcile_with kube service jsm std lib retry network js (network, w)).0 ≡ ok a
        → (work : Work) × ((reconcile_nodes jsm std js lib retry
              (keys network.info.participating.nodes)
              network
              (start_of kube service jsm std lib retry network)
              w).0
            ≡ ok work)
          × ((reconcile_with kube service jsm std lib retry network js (network, w)).1.0
              ≡ with_work kube service jsm std lib retry work network)
    unfolding reconcile_with
    reconcile_with_inv network js w a h =
        let (work, w1, e1, h1, s1) =
          inner_inv
            (reconcile_nodes jsm std js lib retry (keys network.info.participating.nodes) network
              (start_of kube service jsm std lib retry network))
            _ network w h in
        let changed : Network = with_work kube service jsm std lib retry work network in
        let s2 = assign_bind changed _ network w1 in
        let (u, w2, e3, h3, s3) =
          inner_inv (update_info_and_return kube changed network) _ changed w1
            (ap (λ x. x.0) (sym s2) ∙ h1) in
        (work, e1, ap (λ x. x.1.0) (s1 ∙ s2 ∙ s3) ∙ unfold pure in refl)

    -- `reconcileJetstreams` without an error, on a network with no pod listed twice at a node (and a
    -- map of the pods in creation with each node once): the network has the lists of pods that the loop
    -- left, in which no pod is listed twice; every pod that was in creation or there still is, unless it
    -- was terminating, no pod appears or starts to terminate, and one that was terminating still is, or is
    -- gone; and its finalizers are those that were there and that the loop did not remove, and those that
    -- the loop added.
    pub reconcile_jetstreams-Safe :
        (network : Network) (w : W) (a : Requeue)
        → IsWellFormed network.info.participating
        → (reconcile_jetstreams kube service jsm std lib retry (network, w)).0 ≡ ok a
        → (js : JetstreamController) × (w' : W) × (work : Work) × ((reconcile_nodes jsm std js lib
              retry
              (keys network.info.participating.nodes)
              network
              (start_of kube service jsm std lib retry network)
              w').0
            ≡ ok work)
          × ((reconcile_jetstreams kube service jsm std lib retry (network, w)).1.0
              ≡ with_work kube service jsm std lib retry work network)
          × Safe network.info.participating
              (reconcile_jetstreams kube service jsm std lib retry
                (network, w)).1.0.info.participating
          × ((f : String)
              → contains
                  (reconcile_jetstreams kube service jsm std lib retry
                    (network, w)).1.0.meta.finalizers
                  f
                ≡ ((contains network.meta.finalizers f && not (contains work.removed f))
                    || contains work.added f))
    unfolding reconcile_jetstreams with_work add_network_finalizer remove_network_finalizers
    reconcile_jetstreams-Safe network w a wf h =
        let s1 =
          value_bind
            (λ n.
              with_controller kube service jsm std "Error creating jetstream manager" n
                (reconcile_with kube service jsm std lib retry n))
            (network, w) in
        let (js, w', e2, s2) =
          with_controller_inv "Error creating jetstream manager" network
            (reconcile_with kube service jsm std lib retry network) network w a
            (ap (λ x. x.0) (sym s1) ∙ h) in
        let (work, e3, s3) = reconcile_with_inv network js w' a e2 in
        let total = ap (λ x. x.1.0) s1 ∙ s2 ∙ s3 in
        let safe =
          reconcile_nodes-Safe jsm std js lib laws retry (keys network.info.participating.nodes)
            network _ work w' wf e3 in
        (
          js,
          w',
          work,
          e3,
          total,
          subst (λ n. Safe network.info.participating n.info.participating) (sym total)
              (written work network safe),
          λ f. ap (λ n. contains n.meta.finalizers f) total ∙ finalizers work network f,
        )
      where
        written :
            (work : Work) (network : Network)
            → Safe network.info.participating work.participating
            → Safe network.info.participating
                (with_work kube service jsm std lib retry work network).info.participating
        written work network safe = safe

        finalizers :
            (work : Work) (network : Network) (f : String)
            → contains (with_work kube service jsm std lib retry work network).meta.finalizers f ≡ (
                (contains network.meta.finalizers f && not (contains work.removed f))
                || contains work.added f)
        finalizers work network f =
            add-remove_network_finalizers lib laws work.removed work.added
              (record network { info = record network.info { participating = work.participating } })
              f
