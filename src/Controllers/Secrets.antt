-- ===== src/Controllers/Secrets.antt =====
-- controllers/network/secret.go: the secret of a component, which has the credentials of the networks
-- that it participates in. Log lines are left out.
pub mod Entries
pub mod Laws
pub mod Removal
use anck.Prelude.{
  ℕ, String, ◌<>◌, Bool, true, false, ◌&&◌, Option, none, some, List, [], ◌∷◌, ◌⊎◌, inl, inr, ◌==◌,
  string_eq, if◌then◌else◌, length, nat_eq, not,
}
use anck.Prelude.Dict.{Dict, lookup, insert, erase, or_zero, has_key}
use anck.Prelude.Exec.{
  Exec, Error, Result, ok, err, panic, errorf, is_not_found, pure, raise, lift, attempt, ◌>>=◌,
  ◌>>◌,
}
use anck.Text.{str_contains, split}
use anck.Nats.Server.{Service, ServerInformation, DesiredState, get_nats_server_infos}
use anck.Resources.Kube.{Kube, Secret}
use anck.Resources.Secret.{clientset, delete_secret, read_secret, update_secret, create_secret}

abbrev pub ignored_secret_entries : List String
ignored_secret_entries = ".pub" ∷ "nats-sidecar" ∷ "edgefarm-sys" ∷ []

abbrev pub sidecar_creds : String
sidecar_creds = "nats-sidecar.creds"

-- `credsfileFromNetwork`, `pubkeyFileFromNetwork`
abbrev pub credsfile_from_network : String → String
credsfile_from_network network = network <> ".creds"

abbrev pub pubkey_file_from_network : String → String
pubkey_file_from_network network = network <> ".pub"

abbrev pub app_component_name : String → String → String
app_component_name app component = app <> "." <> component

pub three_parts : String → List String → Result (String × String × String)
three_parts participant (network ∷ app ∷ component ∷ []) = ok (network, app, component)
three_parts participant _ = err (errorf ("invalid network participant name: " <> participant))

-- `splitNetworkParticipant`: the network, the app and the component
unfoldable pub split_network_participant : String → Result (String × String × String)
unfolding three_parts
split_network_participant participant = three_parts participant (split participant b'.')

-- the loop over the credentials
unfoldable pub all_creds : String → List String → Dict String → Dict String
all_creds network [] secret = secret
all_creds network (c ∷ cs) secret = all_creds network cs (insert (network <> ".creds") c secret)

-- the loop over the participants that have left
unfoldable pub remove_deleted : String → String → List String → Dict String → Result (Dict String)
remove_deleted component network [] secret = ok secret
remove_deleted component network (deleted ∷ rest) secret =
    elim (split_network_participant deleted) [
      | ok (_, app, participant) ↦ remove_deleted component network rest (
          if component == app_component_name app participant
          then erase (network <> ".pub") (erase network secret)
          else secret)
      | err e ↦ err e
      | panic ↦ panic
    ]

-- the data that the component's secret is to have, from those it has
unfoldable pub entries_of : String → DesiredState → String → Dict String → Result (Dict String)
entries_of component network_creds sys_creds secret =
    let network = network_creds.network_name in
    let with_creds = all_creds network network_creds.creds secret in
    let with_sidecar = insert sidecar_creds sys_creds with_creds in
    let with_pub = insert (network <> ".pub") network_creds.account_public_key with_sidecar in
    remove_deleted component network network_creds.deleted_participants with_pub

-- the entries that the functions count before they delete a secret
unfoldable pub filtered_secret : String → Dict String → List String → Dict String → Dict String
filtered_secret network secret [] filtered = filtered
filtered_secret network secret (ignored ∷ rest) filtered = filtered_secret network secret rest (
    if str_contains network ignored
    then filtered
    else insert network (or_zero "" (lookup network secret)) filtered)

module _ {W : Type 0} (kube : Kube W) where
  -- `ReadSecret` and the test of its error: the data, and whether the secret is there. (Only the API reports
  -- that something is not found, and with that error `ReadSecret` returns an empty map.)
  unfoldable pub read_or_empty : String → String → Exec W (Dict String × Bool)
  read_or_empty component namespace = do
    r ← attempt (read_secret kube component namespace)
    elim r [
      | inl e ↦ (if is_not_found e then pure ([], false) else raise e)
      | inr secret ↦ pure (secret, true)
    ]

  -- the update; where that returns a nil secret, be it with an error or without, a new one is created
  unfoldable pub store_secret : String → String → Dict String → Bool → Exec W Secret
  store_secret component namespace secret false = create_secret kube component namespace secret
  store_secret component namespace secret true = do
    r ← attempt (update_secret kube component namespace secret)
    elim r [
      | inl _ ↦ create_secret kube component namespace secret
      | inr none ↦ create_secret kube component namespace secret
      | inr (some written) ↦ pure written
    ]

  -- `createOrUpdateComponentSecrets`
  unfoldable pub create_or_update_component_secrets :
      Service W → String → String → DesiredState → Exec W Secret
  create_or_update_component_secrets service component namespace network_creds = do
    (secret, there) ← read_or_empty component namespace
    nats_server ← get_nats_server_infos service
    entries ← lift (entries_of component network_creds nats_server.sys_creds secret)
    store_secret component namespace entries there

  -- `readCredentialsFromSecret`: no credentials where there is no secret
  unfoldable pub read_credentials_from_secret : String → String → String → Exec W String
  read_credentials_from_secret component network namespace = do
    clientset kube
    r ← attempt (kube.get_secret namespace component)
    elim r [
      | inl e ↦ (if is_not_found e then pure "" else raise e)
      | inr secret ↦ elim (lookup (network <> ".creds") secret.entries) [
        | some creds ↦ pure creds
        | none ↦ raise (errorf ("network " <> network <> " not found in secret " <> component))
      ]
    ]

  -- `removeNetworkFromComponentSecret`
  unfoldable pub remove_network_from_component_secret : String → String → String → Exec W (Unit {0})
  remove_network_from_component_secret component network namespace = do
    secret ← read_secret kube component namespace
    let filtered = filtered_secret network secret ignored_secret_entries []
    if not (has_key (credsfile_from_network network) secret)
        then pure tt
        else (if nat_eq (length filtered) 1 then delete_secret kube component namespace else do
          update_secret kube component namespace (
              erase (pubkey_file_from_network network)
                (erase (credsfile_from_network network) secret))
          pure tt)
