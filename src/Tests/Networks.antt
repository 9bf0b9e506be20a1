-- ===== src/Tests/Networks.antt =====
-- The deletion of a network, the participants, and the connection to the service.
use anck.Prelude.{
  ℕ, suc, String, true, false, not, ◌&&◌, none, some, [], ◌==◌, string_eq, if◌then◌else◌, contains,
  nat_eq, ◌≡◌, refl, str_dec,
}
use anck.Prelude.Dict.{lookup, insert, erase}
use anck.Prelude.Exec.{
  Result, ok, err, errorf, pure, raise, attempt, inner, value, assign, lift, defer, ◌>>=◌,
}
use anck.Dapr.{Config}
use anck.Nats.Server.{
  Service, dial, dial_from, with_service, get_nats_server_infos, Failing, no_attempt, one_more,
  dial-ok,
}
use anck.Api.{Network, Participants}
use anck.Jetstreams.Controller.{new_jetstream_controller, create_creds_file, delete, delete_all}
use anck.Resources.Secret.{clientset, read_secret}
use anck.Controllers.Secrets.{
  read_credentials_from_secret, split_network_participant, remove_network_from_component_secret,
}
use anck.Controllers.DaprSecrets.{remove_network_from_dapr_secret}
use anck.Controllers.Participants.{participant_name}
use anck.Controllers.Participants.Laws.{type_of, split_network_participant_lem}
use anck.Controllers.NodeStreams.{reconcile_nodes}
use anck.Controllers.Finalizers.{
  add_network_finalizer, remove_network_finalizers, info_equal, update_info_and_return,
}
use anck.Controllers.Streams.{
  delete_main_jetstreams, reconcile_jetstreams, main_stream_names, with_work,
}
use anck.Controllers.Networks.{
  network_finalizer, reconcile_delete_network, reconcile_delete, reconcile_deleting,
  secret_namespace,
}
use anck.Controllers.Networks.Laws.{
  Deleted, deleted_state, unmarked, last_update, reconcile_deleting-ok,
}
use anck.Tests.Slices.{slices, dedup}
use anck.Tests.NetworkWorld.{
  network_kube, network_service, whole, empty_jsm, a_network, nodes, retry_once,
}

-- `yaml.Marshal` writes the kind
abbrev marshal : Config → Result String
marshal c = ok c.kind

-- a network that no pod is in
abbrev bare : Network
bare = record a_network {
  info = record a_network.info {
    participating = record nodes {
      nodes = [];
      pods = [];
      pods_creating = [];
      pods_terminating = [];
    };
  };
}

deletion_runs :
    (reconcile_deleting network_kube network_service marshal empty_jsm whole slices retry_once bare
      bare).0
    ≡ ok (record { requeue = false; after = 0 })
unfolding reconcile_deleting reconcile_delete delete_main_jetstreams reconcile_jetstreams
    reconcile_delete_network main_stream_names with_work new_jetstream_controller create_creds_file
    get_nats_server_infos with_service dial dial_from read_credentials_from_secret clientset delete
    delete_all reconcile_nodes add_network_finalizer remove_network_finalizers dedup info_equal
    update_info_and_return remove_network_from_component_secret remove_network_from_dapr_secret
    read_secret secret_namespace attempt inner value assign lift defer ◌>>=◌ pure raise lookup
    insert erase str_dec
deletion_runs = refl

has_finalizer : contains bare.meta.finalizers network_finalizer ≡ true
unfolding str_dec
has_finalizer = refl

reconcile_deleting-ok_example :
    Deleted network_kube network_service marshal empty_jsm whole slices retry_once (bare, bare)
    × ((written : Network) × ((last_update network_kube network_service marshal empty_jsm whole
            slices retry_once bare bare).0
          ≡ ok written))
    × ((reconcile_deleting network_kube network_service marshal empty_jsm whole slices retry_once
          bare bare).1
        ≡ (last_update network_kube network_service marshal empty_jsm whole slices retry_once bare
            bare).1)
    × ((f : String)
        → contains
            (unmarked network_kube network_service marshal empty_jsm whole slices retry_once
              (deleted_state network_kube network_service marshal empty_jsm whole slices retry_once
                bare bare).0).meta.finalizers
            f
          ≡ (contains
                (deleted_state network_kube network_service marshal empty_jsm whole slices
                  retry_once bare bare).0.meta.finalizers
                f
              && not (f == network_finalizer)))
reconcile_deleting-ok_example =
    reconcile_deleting-ok network_kube network_service marshal empty_jsm whole slices retry_once
      bare bare (record { requeue = false; after = 0 }) has_finalizer deletion_runs

abbrev participant : Participants
participant = record {
  meta = record { name = "p"; namespace = "ns"; deleting = false; finalizers = [] };
  spec = record { component = "comp"; network = "net"; app = "app"; type = "edge" };
}

no_component : type_of a_network (participant_name participant) ≡ none
unfolding lookup
no_component = refl

split_network_participant_lem_example :
    split_network_participant "net.app.comp" ≡ ok ("net", "app", "comp")
split_network_participant_lem_example =
    split_network_participant_lem "net" "app" "comp" refl refl refl

-- a service that is there at the third attempt: the state counts the pauses
abbrev late_service : Service ℕ
late_service = record {
  Conn = Unit;
  connect = λ w. (if nat_eq w 2 then ok tt else err (errorf "refused"), w);
  close = λ c w. w;
  sleep = λ w. suc w;
  server_information = λ c w. (err (errorf "none"), w);
  desired_state = λ c n ps w. (err (errorf "none"), w);
  delete_network = λ c n w. (ok tt, w);
}

two_fail : Failing late_service 2 0 2
two_fail = one_more (errorf "refused") refl (one_more (errorf "refused") refl no_attempt)

dial-ok_example : dial late_service 10 0 ≡ (ok (some tt), 2)
dial-ok_example = dial-ok late_service 7 2 0 2 tt two_fail refl
