-- ===== src/Tests/Secrets.antt =====
-- The secrets of components, in a cluster with one component that participates in two networks.
use anck.Prelude.{String, none, some, [], ◌∷◌, string_eq, ◌≡◌, ◌≢◌, refl, str_dec}
use anck.Prelude.Dict.{Dict, lookup, insert, erase, or_zero}
use anck.Prelude.Exec.{ok, pure, lift, attempt, defer, ignoring, ◌>>=◌}
use anck.Text.{str_contains, trim_suffix}
use anck.Nats.Server.{
  ServerInformation, DesiredState, get_nats_server_infos, with_service, dial, dial_from,
}
use anck.Nats.Server.Quiet.{Quiet}
use anck.Resources.Kube.{Secret}
use anck.Resources.Secret.{clientset, delete_secret, read_secret, update_secret, write_entries}
use anck.Resources.SecretLaws.{View, put_at, Updated, update_secret-ok}
use anck.Controllers.Secrets.{
  sidecar_creds, entries_of, all_creds, remove_deleted, filtered_secret, read_or_empty,
  store_secret, create_or_update_component_secrets, read_credentials_from_secret,
  remove_network_from_component_secret,
}
use anck.Controllers.Secrets.Entries.{entry_of, last_or}
use anck.Controllers.Secrets.Laws.{create_or_update_component_secrets-ok, read-create_or_update}
use anck.Controllers.Secrets.Removal.{without_network, remove_network_from_component_secret-ok}
use anck.Controllers.DaprSecrets.{remove_network_from_dapr_secret}
use anck.Controllers.DaprSecrets.Laws.{without_config, remove_network_from_dapr_secret-ok}
use anck.Tests.SecretWorld.{secret_kube, secret_service, secret_laws}

-- the secret of `app.comp` has the credentials of `net` and of `other`
abbrev two_networks : Dict String
two_networks =
    ("net.creds", "n") ∷ ("net.pub", "np") ∷ ("other.creds", "o") ∷ ("other.pub", "op") ∷ []

abbrev world : View
world =
    put_at (put_at (λ ns n. none) "ns" "app.comp" (some two_networks)) "ns" "app.comp.dapr"
      (some (("net.yaml", "y") ∷ []))

abbrev state : DesiredState
state = record {
  network_name = "net";
  account_name = "acc";
  account_public_key = "key";
  creds = "first" ∷ "last" ∷ [];
  deleted_participants = [];
}

removal_runs :
    (remove_network_from_component_secret secret_kube "app.comp" "net" "ns" world).0 ≡ ok tt
unfolding remove_network_from_component_secret read_secret clientset ◌>>=◌ pure filtered_secret
    str_dec lookup insert erase str_contains delete_secret ignoring
removal_runs = refl

dapr_removal_runs :
    (remove_network_from_dapr_secret secret_kube "app.comp" "net" "ns" world).0 ≡ ok tt
unfolding remove_network_from_dapr_secret read_secret clientset ◌>>=◌ pure filtered_secret str_dec
    lookup insert erase str_contains delete_secret ignoring trim_suffix
dapr_removal_runs = refl

quiet : Quiet secret_service (λ w. w)
quiet = record {
  connects = λ w. refl;
  closes = λ c w. refl;
  sleeps = λ w. refl;
  informs = λ c w. refl;
}

-- the secret as it is written
abbrev written : Secret
written = record {
  name = "app.comp";
  namespace = "ns";
  entries =
      ("net.creds", "last")
      ∷ ("net.pub", "key")
      ∷ ("other.creds", "o")
      ∷ ("other.pub", "op")
      ∷ ("nats-sidecar.creds", "sys")
      ∷ [];
}

update_runs :
    (create_or_update_component_secrets secret_kube secret_service "app.comp" "ns" state world).0
    ≡ ok written
unfolding create_or_update_component_secrets read_or_empty get_nats_server_infos with_service dial
    dial_from entries_of store_secret read_secret update_secret clientset write_entries all_creds
    remove_deleted ◌>>=◌ pure attempt defer lift str_dec lookup insert erase
update_runs = refl

create_or_update_component_secrets-ok_example :
    (infos : ServerInformation) × ((get_nats_server_infos secret_service
        (read_or_empty secret_kube "app.comp" "ns" world).1).0
      ≡ ok infos)
    × ((create_or_update_component_secrets secret_kube secret_service "app.comp" "ns" state world).1
        ≡ put_at world "ns" "app.comp" (some written.entries))
    × ((k : String)
        → lookup k written.entries
          ≡ entry_of "app.comp" state infos.sys_creds (or_zero [] (world "ns" "app.comp")) k)
create_or_update_component_secrets-ok_example =
    create_or_update_component_secrets-ok secret_kube (λ w. w) secret_laws secret_service quiet
      "app.comp" "ns" state world written update_runs

reading_runs :
    (read_credentials_from_secret secret_kube "app.comp" "net" "ns"
      (create_or_update_component_secrets secret_kube secret_service "app.comp" "ns" state
        world).1).0
    ≡ ok "last"
unfolding read_credentials_from_secret create_or_update_component_secrets read_or_empty
    get_nats_server_infos with_service dial dial_from entries_of store_secret read_secret
    update_secret clientset write_entries all_creds remove_deleted ◌>>=◌ pure attempt defer lift
    str_dec lookup insert erase
reading_runs = refl

other_name : sidecar_creds ≢ "net.creds"
other_name h = cc

read-create_or_update_example :
    last_or (lookup "net.creds" (or_zero [] (world "ns" "app.comp"))) ("first" ∷ "last" ∷ [])
    ≡ some "last"
read-create_or_update_example =
    read-create_or_update secret_kube (λ w. w) secret_laws secret_service quiet "app.comp" "ns"
      state world written "last" other_name update_runs reading_runs

remove_network_from_component_secret-ok_example :
    (d : Dict String) × (world "ns" "app.comp" ≡ some d)
    × ((remove_network_from_component_secret secret_kube "app.comp" "net" "ns" world).1
        ≡ put_at world "ns" "app.comp" (without_network secret_kube (λ w. w) secret_laws "net" d))
remove_network_from_component_secret-ok_example =
    remove_network_from_component_secret-ok secret_kube (λ w. w) secret_laws "app.comp" "net" "ns"
      world removal_runs

remove_network_from_dapr_secret-ok_example :
    (d : Dict String) × (world "ns" "app.comp.dapr" ≡ some d)
    × ((remove_network_from_dapr_secret secret_kube "app.comp" "net" "ns" world).1
        ≡ put_at world "ns" "app.comp.dapr"
            (without_config secret_kube (λ w. w) secret_laws "net" d))
remove_network_from_dapr_secret-ok_example =
    remove_network_from_dapr_secret-ok secret_kube (λ w. w) secret_laws "app.comp" "net" "ns" world
      dapr_removal_runs

-- the whole secret is gone, with the credentials of the other network
other_network_lost :
    (remove_network_from_component_secret secret_kube "app.comp" "net" "ns" world).1 "ns" "app.comp"
    ≡ none
unfolding remove_network_from_component_secret read_secret clientset ◌>>=◌ pure filtered_secret
    str_dec lookup insert erase str_contains delete_secret ignoring
other_network_lost = refl

update_secret_runs :
    (update_secret secret_kube "app.comp" "ns" [] world).0
    ≡ ok (some (record { name = "app.comp"; namespace = "ns"; entries = [] }))
unfolding update_secret clientset write_entries ◌>>=◌ pure attempt str_dec
update_secret_runs = refl

update_secret-ok_example :
    Updated secret_kube
      (λ w. w)
      secret_laws
      "app.comp"
      "ns"
      []
      world
      (update_secret secret_kube "app.comp" "ns" [] world).1
      (some (record { name = "app.comp"; namespace = "ns"; entries = [] }))
update_secret-ok_example =
    update_secret-ok secret_kube (λ w. w) secret_laws "app.comp" "ns" [] world _ update_secret_runs

delete_secret_runs : (delete_secret secret_kube "nothing" "ns" world).0 ≡ ok tt
unfolding delete_secret clientset ignoring ◌>>=◌ str_dec
delete_secret_runs = refl

entries_run : entries_of "app.comp" state "sys" two_networks ≡ ok written.entries
unfolding entries_of all_creds remove_deleted insert erase str_dec
entries_run = refl
