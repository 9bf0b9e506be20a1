-- ===== src/Tests/NetworkWorld.antt =====
-- A cluster that is one network and the streams of the main domain: every request succeeds, but for
-- secrets that are not there.
use anck.Prelude.{ℕ, ◌*◌, true, false, none, [], ◌∷◌, refl}
use anck.Prelude.Int.{pos}
use anck.Prelude.Exec.{Error, not_found, ok, err, errorf}
use anck.Api.{Network, ParticipatingSpec, StreamSpec}
use anck.Nats.Server.{Service}
use anck.Jetstreams.Duration.{Std}
use anck.Jetstreams.StreamConfig.{StreamConfig, limits_policy, file_storage, discard_old}
use anck.Jetstreams.Jsm.{Jsm}
use anck.Jetstreams.Controller.{JetstreamController}
use anck.Resources.Kube.{Kube, Pod}
use anck.Controllers.NodeStreams.{Retry, IsRetry}

abbrev absent : Error
absent = record { kind = not_found; text = "not found" }

abbrev pub a_pod : Pod
a_pod = record {
  meta = record { name = "pod"; namespace = "ns"; deleting = false; finalizers = "f" ∷ [] };
  labels = ("participant.edgefarm.io/net", "net") ∷ [];
  node_name = "node";
  phase = "Running";
}

abbrev pub network_kube : Kube Network
network_kube = record {
  in_cluster_config = λ w. (ok tt, w);
  new_for_config = λ w. (ok tt, w);
  network_new_for_config = λ w. (ok tt, w);
  retry_on_conflict = λ m. m;
  get_secret = λ ns n w. (err absent, w);
  list_secrets = λ ns w. (ok [], w);
  update_secret = λ s w. (err absent, w);
  create_secret = λ s w. (ok s, w);
  delete_secret = λ ns n w. (err absent, w);
  create_namespace = λ n w. (ok tt, w);
  get_network = λ ns n w. (ok w, w);
  update_network = λ ns n w. (ok n, n);
  get_participants = λ ns n w. (err absent, w);
  get_pod = λ ns n w. (ok a_pod, w);
  list_pods = λ ns w. (ok [], w);
  update_pod = λ ns p w. (ok p, w);
  get_node_labels = λ n w. (ok (("node-role.kubernetes.io/edge", "") ∷ []), w);
}

abbrev pub network_service : Service Network
network_service = record {
  Conn = Unit;
  connect = λ w. (ok tt, w);
  close = λ c w. w;
  sleep = λ w. w;
  server_information = λ c w. (
    ok (record {
      nats_address = "nats";
      leaf_address = "leaf";
      sys_creds = "sys";
      sys_public_key = "key";
      sys_jwt = "jwt";
      operator_jwt = "operator";
    }),
    w,
  );
  desired_state = λ c n ps w. (err absent, w);
  delete_network = λ c n w. (ok tt, w);
}

-- floating point numbers are whole here
abbrev pub whole : Std ℕ
whole = record {
  parse_float = λ s. ok 1;
  times = λ f n. f * n;
  to_int64 = λ f. pos f;
  parse_duration = λ s. ok (pos 1);
  is_upper_rune = λ c. false;
  is_letter_rune = λ c. false;
  to_lower = λ s. s;
}

abbrev pub empty_config : StreamConfig
empty_config = record {
  name = "";
  subjects = [];
  retention = limits_policy;
  max_msgs_per = pos 0;
  max_msgs = pos 0;
  max_bytes = pos 0;
  max_age = pos 0;
  max_msg_size = pos 0;
  storage = file_storage;
  discard = discard_old;
  replicas = 1;
  no_ack = false;
  max_consumers = pos 0;
  sources = [];
  mirror = none;
}

-- a server without streams, on which every call succeeds
abbrev pub empty_jsm : {W : Type 0} → Jsm W
empty_jsm = record {
  Conn = Unit;
  Manager = Unit;
  Stream = StreamConfig;
  connect = λ a f w. (ok tt, w);
  close = λ c w. w;
  new_manager = λ c d w. (ok tt, w);
  stream_names = λ m w. (ok [], w);
  streams = λ m w. (ok [], w);
  load_stream = λ m n w. (ok empty_config, w);
  configuration = λ s. s;
  copied = λ c. ok c;
  update_configuration = λ s c w. (ok tt, w);
  load_or_new = λ m n c w. (ok tt, w);
  delete = λ s w. (ok tt, w);
  create_temp = λ w. (ok "file", w);
  write_string = λ f c w. (ok tt, w);
  remove = λ f w. w;
}

-- the same, but no connection is made
abbrev pub no_jsm : {W : Type 0} → Jsm W
no_jsm = record empty_jsm { connect = λ a f w. (err (errorf "no connection"), w) }

-- the node `b` is pending with the pod `p` in creation, the node `a` has the pod `q`, which is terminating
abbrev pub nodes : ParticipatingSpec
nodes = record {
  nodes = ("b", "pending") ∷ ("a", "terminating") ∷ [];
  pods = ("a", "q" ∷ []) ∷ [];
  pods_creating = ("b", "p" ∷ []) ∷ [];
  pods_terminating = ("a", "q" ∷ []) ∷ [];
  components = [];
}

abbrev pub node_stream : StreamSpec
node_stream = record {
  name = "s";
  location = "node";
  link = none;
  config = record {
    storage = "file";
    retention = "limits";
    max_msgs_per_subject = pos 0;
    max_msgs = pos 0;
    max_bytes = pos 0;
    max_age = "";
    max_msg_size = pos 0;
    discard = "old";
  };
}

abbrev pub a_network : Network
a_network = record {
  meta = record {
    name = "net";
    namespace = "ns";
    deleting = true;
    finalizers = "network.edgefarm.io/finalizer" ∷ "a" ∷ [];
  };
  spec = record {
    app = "app";
    namespace = "ns";
    streams = node_stream ∷ [];
    subjects = record { name = "x"; subjects = "x" ∷ []; stream = "s" } ∷ [];
  };
  info = record {
    participating = nodes;
    main_domain = record { standard = []; mirror = []; aggregate = [] };
    used_account = "";
  };
}

abbrev pub retry_once : {W : Type 0} → Retry W
retry_once = record { retry_do = λ f. f }

pub retry_once-IsRetry : {W : Type 0} → IsRetry (retry_once {W = W})
retry_once-IsRetry = record { stops = λ f s h. refl; assigns = λ P f h s p. p }

abbrev pub js : JetstreamController
js = record { creds_file = "file"; nats_server_address = "nats" }
