-- ===== src/Controllers/Networks.antt =====
-- controllers/network/network_controller.go: `Reconcile` of a network, with the secrets of its components
-- and its finalizer. Log lines are left out, and of a returned error the result that comes with it.
pub mod Laws
use anck.Prelude.{
  ℕ, String, ◌<>◌, Bool, true, false, not, ◌&&◌, Option, none, some, List, [], ◌∷◌, ◌++◌, ◌⊎◌, inl,
  inr, ◌==◌, string_eq, if◌then◌else◌, contains, keep, nat_eq, leb, length,
}
use anck.Prelude.Dict.{Dict, insert, keys}
use anck.Prelude.Exec.{
  Exec, Error, Result, ok, err, panic, errorf, is_not_found, is_already_exists, pure, raise, lift,
  attempt, inner, value, assign, defer, ◌>>=◌, ◌>>◌,
}
use anck.Api.{Network, NetworkInfoSpec, ParticipatingSpec, NetworkSpec, ObjectMeta}
use anck.Dapr.{Config}
use anck.Nats.Server.{Service, DesiredState, ServerInformation, dial, get_nats_server_infos}
use anck.Jetstreams.Duration.{Std}
use anck.Jetstreams.Jsm.{Jsm}
use anck.Resources.Kube.{Kube}
use anck.Resources.Secret.{create_secret}
use anck.Resources.Others.{create_namespace, set_network_account_name}
use anck.Controllers.SliceLib.{SliceLib}
use anck.Controllers.Secrets.{
  app_component_name, create_or_update_component_secrets, remove_network_from_component_secret,
}
use anck.Controllers.DaprSecrets.{
  create_or_update_component_dapr_secrets, remove_network_from_dapr_secret,
}
use anck.Controllers.Finalizers.{update_info_and_return}
use anck.Controllers.NodeStreams.{Retry}
use anck.Controllers.Participants.{with_components}
use anck.Controllers.Streams.{
  Requeue, anck_participant, create_main_jetstreams, delete_main_jetstreams, reconcile_jetstreams,
}

abbrev pub network_finalizer : String
network_finalizer = "network.edgefarm.io/finalizer"

-- the namespace of the secrets: the one of the specification, or else the resource's
unfoldable pub secret_namespace : Network → String
secret_namespace network =
    if network.spec.namespace == "" then network.meta.namespace else network.spec.namespace

abbrev pub with_finalizers : List String → Network → Network
with_finalizers finalizers network = record network {
  meta = record network.meta { finalizers = finalizers };
}

-- an error, or its absence, as text
abbrev shown : {A : Type 0} → Error ⊎ A → String
shown (inl e) = e.text
shown (inr _) = "<nil>"

abbrev paired : {A : Type 0} → Result A → Network → Result (A × Network)
paired (ok a) n = ok (a, n)
paired (err e) n = err e
paired panic n = panic

module _ {W : Type 0} (kube : Kube W) (service : Service W) where
  -- `if err != nil { return fmt.Errorf(errorText) }`
  or_error : {A : Type 0} → String → Exec W A → Exec W A
  or_error text m = do r ← attempt m; elim r [ inl _ ↦ raise (errorf text) | inr a ↦ pure a ]

  -- `if err != nil { return fmt.Errorf("%s", err.Error()) }`
  renewed : {A : Type 0} → Exec W A → Exec W A
  renewed m = do r ← attempt m; elim r [ inl e ↦ raise (errorf e.text) | inr a ↦ pure a ]

  create_server_info : String → ServerInformation → Exec W (Unit {0})
  create_server_info namespace infos = do
    r ← attempt (
        create_secret kube "nats-server-info" namespace
          (("NATS_ADDRESS", infos.nats_address) ∷ ("LEAF_ADDRESS", infos.leaf_address) ∷ []))
    elim r [
      | inl e ↦ (if is_already_exists e then pure tt else raise (errorf "Error creating secret"))
      | inr _ ↦ pure tt
    ]

  remove_secrets_of : String → String → List String → Exec W (Unit {0})
  remove_secrets_of network namespace [] = pure tt
  remove_secrets_of network namespace (component ∷ components) = do
    passed "Error updating component secret"
        (remove_network_from_component_secret kube component network namespace)
    passed "Error updating dapr secret"
        (remove_network_from_dapr_secret kube component network namespace)
    remove_secrets_of network namespace components
    where
      -- a secret that is not found is passed over
      passed : String → Exec W (Unit {0}) → Exec W (Unit {0})
      passed text m = do
        r ← attempt m
        elim r [
          | inl e ↦
              (if is_not_found e
                then pure tt
                else raise (errorf ("err: " <> text <> ":" <> e.text)))
          | inr _ ↦ pure tt
        ]

  -- `Dial`, and the deferred `cc.Close()`; a method of a nil connection panics
  with_conn :
      {A : Type 0} → (Error → Error) → (service.Conn → Exec (Network × W) A) → Exec (Network × W) A
  with_conn text body = do
    r ← attempt (inner (dial service 10))
    elim r [
      | inl e ↦ raise (text e)
      | inr none ↦ lift panic
      | inr (some conn) ↦ defer (λ (n, w). (n, service.close conn w)) (body conn)
    ]

  delete_at : Network → service.Conn → Exec W Requeue
  unfolding remove_secrets_of
  delete_at network conn = do
    r ← attempt (service.delete_network conn network.meta.name)
    elim r [
      | inl e ↦
          raise (errorf ("err: Cannot delete network '" <> network.meta.name <> "':" <> e.text))
      | inr _ ↦ (do
        remove_secrets_of network.meta.name (secret_namespace network) (
            keys network.info.participating.components
            ++ app_component_name network.spec.app anck_participant ∷ [])
        pure (record { requeue = false; after = 0 }))
    ]

  -- `reconcileDeleteNetwork`
  unfoldable pub reconcile_delete_network : Exec (Network × W) Requeue
  unfolding with_conn delete_at
  reconcile_delete_network = do
    network ← value
    with_conn (λ e. errorf ("err: Error connecting to anckcredentials:" <> e.text))
        (λ conn. inner (delete_at network conn))

  module _ (marshal : Config → Result String) where
    -- the loop over the components
    component_secrets : String → DesiredState → List (String × String) → Exec W (Unit {0})
    unfolding or_error
    component_secrets namespace resp [] = pure tt
    component_secrets namespace resp ((component, participant_type) ∷ rest) = do
      secret ←
          or_error "Error creating or updating component secret"
            (create_or_update_component_secrets kube service component namespace resp)
      or_error "Error creating or updating component dapr secret"
          (create_or_update_component_dapr_secrets marshal kube service secret participant_type)
      component_secrets namespace resp rest

    -- `reconcileCreateNetwork` behind the response: `network` is the one that is written, which after
    -- `SetNetworkAccountName` is no longer the caller's
    create_at : Network → Dict String → DesiredState → Exec W Requeue
    unfolding component_secrets or_error renewed create_server_info
    create_at caller components resp = do
      network ←
          (if caller.info.used_account == ""
            then or_error "Error setting network account name"
                (set_network_account_name kube caller resp.account_name)
            else pure caller)
      let namespace = secret_namespace network
      or_error "Error creating namespace" (create_namespace kube namespace)
      infos ← renewed (get_nats_server_infos service)
      create_server_info namespace infos
      component_secrets namespace resp components
      update_info_and_return kube network caller
      pure (record { requeue = false; after = 5 })

    -- `reconcileCreateNetwork`: the map of the components is the network's own, so that the participant
    -- that is added for this program stays in the caller's network
    unfoldable pub reconcile_create_network : Exec (Network × W) Requeue
    unfolding with_conn create_at or_error
    reconcile_create_network =
        with_conn (λ _. errorf "Error connecting to anckcredentials")
          (λ conn. do
            network ← value
            let components =
                insert (app_component_name network.spec.app anck_participant)
                  "unknownParticipantType" network.info.participating.components
            let changed = with_components components network
            assign changed
            resp ← inner (
                or_error "Error setting desired state"
                  (service.desired_state conn network.meta.name (keys components)))
            inner (create_at changed components resp))

    module _ {F : Type 0} (jsm : Jsm W) (std : Std F) (lib : SliceLib) (retry : Retry W) where
      -- `reconcileCreate`: an error on the streams of the main domain is in no result
      unfoldable pub reconcile_create : Exec (Network × W) Requeue
      reconcile_create = do
        reconcile_create_network
        _ ← attempt (create_main_jetstreams kube service jsm std)
        reconcile_jetstreams kube service jsm std lib retry
        pure (record { requeue = false; after = 5 })

      all_done : Error ⊎ Requeue → Error ⊎ Requeue → Error ⊎ Requeue → Exec (Network × W) Requeue
      all_done (inr _) (inr _) (inr _) = pure (record { requeue = false; after = 0 })
      all_done main node network = raise (
          errorf (
            "mainErr: "
            <> shown main
            <> ", nodeErr: "
            <> shown node
            <> ", networkError: "
            <> shown network))

      -- `reconcileDelete`: each part runs whether or not those before it have failed
      unfoldable pub reconcile_delete : Exec (Network × W) Requeue
      unfolding all_done
      reconcile_delete = do
        main ← attempt (delete_main_jetstreams kube service jsm std)
        node ← attempt (reconcile_jetstreams kube service jsm std lib retry)
        network ← attempt reconcile_delete_network
        all_done main node network

      -- the call with a network of its own: what it returns, and the network
      on_network : {A : Type 0} → Network → Exec (Network × W) A → Exec W (A × Network)
      on_network network m w = let (r, (n, w')) = m (network, w) in (paired r n, w')

      -- the part for a network that is being deleted
      unfoldable pub reconcile_deleting : Network → Exec W Requeue
      unfolding on_network
      reconcile_deleting network =
          if contains network.meta.finalizers network_finalizer
          then (do
            (_, left) ← on_network network reconcile_delete
            kube.update_network left.meta.namespace (
                with_finalizers (keep (λ f. not (f == network_finalizer)) left.meta.finalizers)
                  left)
            pure (record { requeue = false; after = 0 }))
          else pure (record { requeue = false; after = 0 })

      -- the part for any other network
      unfoldable pub reconcile_living : Network → Exec W Requeue
      unfolding on_network
      reconcile_living network = do
        let marked = with_finalizers (network.meta.finalizers ++ network_finalizer ∷ []) network
        current ←
            (if contains network.meta.finalizers network_finalizer
              then pure network
              else kube.update_network network.meta.namespace marked)
        (result, _) ← on_network current reconcile_create
        pure result

      -- `Reconcile`
      unfoldable pub reconcile : String → String → Exec W Requeue
      reconcile namespace name = do
        r ← attempt (kube.get_network namespace name)
        elim r [
          | inl e ↦
              (if is_not_found e then pure (record { requeue = false; after = 0 }) else raise e)
          | inr network ↦
              (if network.meta.deleting
                then reconcile_deleting network
                else reconcile_living network)
        ]

-- `UpdateFunc`, by the generations of the old and the new network
unfoldable pub on_update : ℕ → ℕ → Network → Bool
on_update old_generation new_generation network =
    not (nat_eq old_generation new_generation) && leb 1 (length network.meta.finalizers)
