-- ===== src/Controllers/DaprSecrets.antt =====
-- controllers/network/dapr.go: the secret that has the Dapr configurations of a component. Log lines are
-- left out.
pub mod Laws
use anck.Prelude.{
  ℕ, String, ◌<>◌, Bool, true, false, not, Option, none, some, List, [], ◌∷◌, ◌==◌, string_eq,
  if◌then◌else◌, length, nat_eq, any, leb,
}
use anck.Prelude.Dict.{Dict, insert, erase, has_key}
use anck.Prelude.Exec.{Exec, Result, ok, err, panic, pure, lift, ◌>>=◌, ◌>>◌}
use anck.Text.{str_contains, trim_suffix}
use anck.Nats.Creds.{parse_creds_string}
use anck.Nats.Server.{Service, get_nats_server_infos}
use anck.Dapr.{to_yaml, Config, with_creds, with_nats_url, new_dapr}
use anck.Resources.Kube.{Kube, Secret}
use anck.Resources.Secret.{delete_secret, read_secret, exists_secret, update_secret, create_secret}
use anck.Controllers.Secrets.{ignored_secret_entries, filtered_secret}

-- `<name>.yaml`, `<name>.dapr`
abbrev pub component_file : String → String
component_file network = trim_suffix network ".creds" <> ".yaml"

abbrev pub dapr_secret_name : String → String
dapr_secret_name component = component <> ".dapr"

-- the loop over `ignoredSecretEntries`
abbrev pub is_skipped : String → Bool
is_skipped key = any (str_contains key) ignored_secret_entries

abbrev or_panic {ℓ} : {A : Type ℓ} → Option A → Result A
or_panic none = panic
or_panic (some a) = ok a

-- `yaml.Marshal` is a parameter
module _ (marshal : Config → Result String) where
  -- the configuration of one network, as text
  unfoldable pub component_config : String → String × String → String → Result String
  component_config name (jwt, nkey) url =
      elim (new_dapr name (with_creds jwt nkey ∷ with_nats_url url ∷ [])) [
        | none ↦ panic
        | some config ↦ to_yaml marshal config
      ]

  module _ {W : Type 0} (kube : Kube W) (service : Service W) where
    -- the address by the type of the participant; none for an unknown type
    unfoldable pub url_for : String → Exec W (Option String)
    url_for participant_type =
        if participant_type == "edge"
        then pure (some "nats://leaf-nats.nats:4222")
        else if participant_type == "cloud"
        then (do nats_server ← get_nats_server_infos service; pure (some nats_server.nats_address))
        else pure none

    add_item :
        String → String → Dict String → Option String → String × String → Exec W (Dict String)
    add_item network creds items none parsed = pure items
    add_item network creds items (some url) parsed = do
      text ← lift (component_config (trim_suffix network ".creds") parsed url)
      pure (insert (component_file network) text items)

    -- the loop over the entries of the secret
    unfoldable pub dapr_items : String → Dict String → Dict String → Exec W (Dict String)
    unfolding add_item
    dapr_items participant_type [] items = pure items
    dapr_items participant_type ((network, creds) ∷ entries) items =
        if is_skipped network then dapr_items participant_type entries items else (do
          parsed ← lift (parse_creds_string creds)
          url ← url_for participant_type
          next ← add_item network creds items url parsed
          dapr_items participant_type entries next)

    -- `createOrUpdateComponentDaprSecrets`
    unfoldable pub create_or_update_component_dapr_secrets : Secret → String → Exec W (Unit {0})
    create_or_update_component_dapr_secrets secret participant_type = do
      items ← dapr_items participant_type secret.entries []
      if not (leb 1 (length items)) then pure tt else (do
        there ← exists_secret kube (dapr_secret_name secret.name) secret.namespace
        if there
            then (do
              update_secret kube (dapr_secret_name secret.name) secret.namespace items
              pure tt)
            else (do
              create_secret kube (dapr_secret_name secret.name) secret.namespace items
              pure tt))

module _ {W : Type 0} (kube : Kube W) where
  -- `removeNetworkFromDaprSecret`
  unfoldable pub remove_network_from_dapr_secret : String → String → String → Exec W (Unit {0})
  remove_network_from_dapr_secret component network namespace = do
    secret ← read_secret kube (dapr_secret_name component) namespace
    let filtered = filtered_secret network secret ignored_secret_entries []
    if not (has_key (component_file network) secret)
        then pure tt
        else (if nat_eq (length filtered) 1
            then delete_secret kube (dapr_secret_name component) namespace
            else do
              update_secret kube (dapr_secret_name component) namespace
                  (erase (component_file network) secret)
              pure tt)
