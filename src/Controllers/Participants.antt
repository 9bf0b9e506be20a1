-- ===== src/Controllers/Participants.antt =====
-- controllers/network/participants_controller.go: the components that participate in a network. Log
-- lines are left out.
pub mod Laws
use anck.Prelude.{
  ℕ, String, ◌<>◌, Bool, true, false, not, Option, none, some, List, ◌⊎◌, inl, inr, ◌==◌, string_eq,
  if◌then◌else◌, nat_eq,
}
use anck.Prelude.Dict.{Dict, insert, erase, has_key}
use anck.Prelude.Exec.{
  Exec, Error, Result, ok, err, panic, is_not_found, pure, raise, attempt, ◌>>=◌, ◌>>◌,
}
use anck.Api.{Network, NetworkInfoSpec, ParticipatingSpec, Participants}
use anck.Resources.Kube.{Kube}
use anck.Resources.Others.{setup_network_clientset}
use anck.Controllers.Secrets.{app_component_name, remove_network_from_component_secret}
use anck.Controllers.DaprSecrets.{remove_network_from_dapr_secret}
use anck.Controllers.Streams.{Requeue}

abbrev pub participant_name : Participants → String
participant_name p = app_component_name p.spec.app p.spec.component

abbrev pub with_components : Dict String → Network → Network
with_components components network = record network {
  info = record network.info {
    participating = record network.info.participating { components = components };
  };
}

-- `addParticipant`
unfoldable pub add_participant : Network → Participants → Network
add_participant network participant =
    let components = network.info.participating.components in
    if has_key (participant_name participant) components
    then network
    else with_components (insert (participant_name participant) participant.spec.type components)
        network

-- `removeParticipant`
unfoldable pub remove_participant : Network → Participants → Network
remove_participant network participant =
    let components = network.info.participating.components in
    if has_key (participant_name participant) components
    then with_components (erase (participant_name participant) components) network
    else network

module _ {W : Type 0} (kube : Kube W) where
  -- `networkExists`
  unfoldable pub network_exists : String → String → Exec W Bool
  network_exists network namespace = do
    r ← attempt (do setup_network_clientset kube; kube.get_network namespace network)
    pure (elim r [ inl _ ↦ false | inr _ ↦ true ])

  add_to_network : Participants → Exec W (Unit {0})
  add_to_network participant = do
    network ← kube.get_network participant.meta.namespace participant.spec.network
    let changed = add_participant network participant
    kube.update_network changed.meta.namespace changed
    pure tt

  -- `Reconcile` behind the participant that was found
  reconcile_found : Participants → Exec W Requeue
  unfolding add_to_network
  reconcile_found participant = do
    setup_network_clientset kube
    there ← network_exists participant.spec.network participant.meta.namespace
    if there
        then (do
          kube.retry_on_conflict (add_to_network participant)
          pure (record { requeue = true; after = 5 }))
        else pure (record { requeue = true; after = 0 })

  -- `Reconcile`
  unfoldable pub reconcile : String → String → Exec W Requeue
  unfolding reconcile_found
  reconcile namespace name = do
    r ← attempt (kube.get_participants namespace name)
    elim r [
      | inl e ↦ (if is_not_found e then pure (record { requeue = false; after = 0 }) else raise e)
      | inr participant ↦ reconcile_found participant
    ]

  remove_from_network : Participants → Exec W (Unit {0})
  remove_from_network participant = do
    network ← kube.get_network participant.meta.namespace participant.spec.network
    let changed = remove_participant network participant
    kube.update_network changed.meta.namespace changed
    remove_network_from_component_secret kube (participant_name participant)
        participant.spec.network participant.meta.namespace
    remove_network_from_dapr_secret kube (participant_name participant) participant.spec.network
        participant.meta.namespace

  -- `DeleteFunc`: the event is never passed on, and an error is dropped
  unfoldable pub on_delete : Participants → Exec W Bool
  unfolding remove_from_network
  on_delete participant = do
    r ←
        attempt (do
          setup_network_clientset kube
          kube.retry_on_conflict (remove_from_network participant))
    pure false

-- `UpdateFunc`, by the generations of the old and the new object
abbrev pub on_update : ℕ → ℕ → Bool
on_update old_generation new_generation = not (nat_eq old_generation new_generation)
