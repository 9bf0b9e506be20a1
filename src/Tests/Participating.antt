-- ===== src/Tests/Participating.antt =====
-- The nodes and pods of a network at concrete inputs.
use anck.Prelude.{
  String, true, false, ◌||◌, some, List, [], ◌∷◌, string_eq, contains, length, IsNodup, ◌≡◌, ◌≢◌,
  ◌↔◌, refl, str_dec, arith, subst,
}
use anck.Prelude.Dict.{lookup, insert, erase, keys}
use anck.Prelude.Exec.{
  ok, err, errorf, pure, raise, attempt, inner, value, assign, lift, defer, ◌>>=◌,
}
use anck.Common.Slice.{slice_equal, slice_diff}
use anck.Jetstreams.Messages.{new_domain_messages, ok_message, add_message}
use anck.Jetstreams.Controller.{exists, create}
use anck.Jetstreams.StreamConfig.{create_jetstream_config, gather, qualify}
use anck.Jetstreams.Duration.{parse_duration_string, trim_space}
use anck.Controllers.Participating.{
  new, still_participating_delete, invalid, at, state_at, state_pending, state_active,
  network_node_state, remove_pods, leave, activate, move_all,
}
use anck.Controllers.Participating.Invariant.{IsWellFormed}
use anck.Controllers.Participating.Moves.{move_all_lem}
use anck.Controllers.Participating.Pending.{network_node_state_iff, pending_node_is_stuck}
use anck.Controllers.NodeStreams.{
  has_failed, Work, create_stream, create_streams, try_streams, after_tries, reconcile_node_in,
  reconcile_node, reconcile_nodes,
}
use anck.Controllers.NodeStreams.Failures.{
  attempt_streams, reconcile_node-fails, reconcile_node-activates,
}
use anck.Controllers.Pods.{reconcile}
use anck.Controllers.Pods.Laws.{IsGood, Networks, reconcile-Good}
use anck.Tests.Slices.{slices, slices-IsSliceLib, dedup}
use anck.Tests.NetworkWorld.{
  network_kube, whole, empty_jsm, no_jsm, nodes, a_network, retry_once, retry_once-IsRetry, js,
}

pub nodes-IsWellFormed : IsWellFormed nodes
unfolding lookup str_dec
nodes-IsWellFormed = record {
  pods = λ j. ground arith;
  creating = λ j. ground arith;
  terminating = λ j. ground arith;
  nodes_once = (refl, tt);
}

abbrev start : Work
start = record {
  participating = nodes;
  removed = [];
  added = [];
  tries = record { failed = []; messages = new_domain_messages };
}

-- what the loop leaves: `b` is active, and `a` has left
abbrev finish : Work
finish = record {
  participating = record {
    nodes = ("b", "active") ∷ [];
    pods = ("b", "p" ∷ []) ∷ [];
    pods_creating = [];
    pods_terminating = [];
    components = [];
  };
  removed = "a" ∷ [];
  added = "b" ∷ [];
  tries = record {
    failed = [];
    messages = record {
      ok_map = some (("b", "Successfully created jetstream: {domain: b, stream: s}" ∷ []) ∷ []);
      err_map = some [];
    };
  };
}

loop_runs :
    (reconcile_nodes empty_jsm whole js slices retry_once
      (keys nodes.nodes)
      a_network
      start
      a_network).0
    ≡ ok finish
unfolding reconcile_nodes reconcile_node reconcile_node_in network_node_state try_streams
    create_streams create_stream after_tries activate leave dedup remove_pods exists create
    create_jetstream_config gather qualify parse_duration_string trim_space ok_message add_message
    attempt inner value assign lift defer ◌>>=◌ pure raise lookup insert erase slice_equal
    slice_diff str_dec
loop_runs = refl

b_is_new : network_node_state nodes "b" ≡ new
unfolding network_node_state lookup slice_equal slice_diff str_dec
b_is_new = refl

fails_first :
    (attempt_streams no_jsm whole js "b" slices retry_once retry_once-IsRetry a_network
      (start.tries, a_network)).0
    ≡ err (errorf "")
unfolding create_streams create_stream exists attempt inner value assign ◌>>=◌ raise lookup insert
    str_dec
fails_first = refl

failed_runs :
    (reconcile_node no_jsm whole js slices retry_once "b" a_network start a_network).0
    ≡ ok (record start { tries = record start.tries { failed = ("b", true) ∷ [] } })
unfolding reconcile_node reconcile_node_in network_node_state try_streams create_streams
    create_stream after_tries exists attempt inner value assign ◌>>=◌ pure raise lookup insert
    slice_equal slice_diff str_dec
failed_runs = refl

reconcile_node-fails_example :
    (nodes ≡ nodes) × (start.added ≡ start.added) × (start.removed ≡ start.removed)
reconcile_node-fails_example =
    reconcile_node-fails no_jsm whole js "b" slices retry_once retry_once-IsRetry a_network start _
      a_network (errorf "") b_is_new fails_first failed_runs

b_is_pending : state_at nodes.nodes "b" ≡ state_pending
unfolding lookup str_dec
b_is_pending = refl

succeeds_first :
    (attempt_streams empty_jsm whole js "b" slices retry_once retry_once-IsRetry a_network
      (start.tries, a_network)).0
    ≡ ok tt
unfolding create_streams create_stream exists create create_jetstream_config gather qualify
    parse_duration_string trim_space ok_message add_message attempt inner value assign lift defer
    ◌>>=◌ pure raise lookup insert str_dec
succeeds_first = refl

not_marked :
    has_failed "b"
      (attempt_streams empty_jsm whole js "b" slices retry_once retry_once-IsRetry a_network
        (start.tries, a_network)).1.0
    ≡ false
unfolding create_streams create_stream exists create create_jetstream_config gather qualify
    parse_duration_string trim_space ok_message add_message attempt inner value assign lift defer
    ◌>>=◌ pure raise lookup insert str_dec
not_marked = refl

reconcile_node-activates_example :
    (result : Work) × (reconcile_node empty_jsm whole js slices retry_once "b" a_network start
        a_network
      ≡ (
        ok result,
        (attempt_streams empty_jsm whole js "b" slices retry_once retry_once-IsRetry a_network
            (start.tries, a_network)).1.1,
      ))
    × (state_at result.participating.nodes "b" ≡ state_active)
    × (at result.participating.pods_creating "b" ≡ [])
    × ((a : String)
        → contains (at result.participating.pods "b") a ≡ contains (at nodes.pods_creating "b") a)
    × ((j : String)
        → j ≢ "b"
        → (at result.participating.pods j ≡ at nodes.pods j)
          × (at result.participating.pods_creating j ≡ at nodes.pods_creating j)
          × (lookup j result.participating.nodes ≡ lookup j nodes.nodes))
    × (result.participating.pods_terminating ≡ nodes.pods_terminating)
    × (result.added ≡ "b" ∷ [])
    × (result.removed ≡ [])
reconcile_node-activates_example =
    reconcile_node-activates empty_jsm whole js "b" slices retry_once retry_once-IsRetry
      slices-IsSliceLib a_network start a_network b_is_new b_is_pending succeeds_first not_marked

one_pod : IsNodup (at nodes.pods "a")
unfolding lookup str_dec
one_pod = (refl, tt)

move_all_lem_example :
    ((a : String)
      → contains (at (move_all slices nodes).pods "b") a
        ≡ (contains (at nodes.pods "b") a || contains (at nodes.pods_creating "b") a))
    × (at (move_all slices nodes).pods_creating "b" ≡ [])
    × ((move_all slices nodes).nodes ≡ nodes.nodes)
    × ((move_all slices nodes).pods_terminating ≡ nodes.pods_terminating)
move_all_lem_example = move_all_lem slices slices-IsSliceLib nodes "b" (refl, tt)

network_node_state_iff_example :
    ((network_node_state nodes "a" ≡ still_participating_delete) ↔ (
      (at nodes.pods_creating "a" ≡ [])
      × (at nodes.pods "a" ≢ [])
      × (length (at nodes.pods_terminating "a") ≡ length (at nodes.pods "a"))
      × ((a : String)
          → contains (at nodes.pods_terminating "a") a ≡ contains (at nodes.pods "a") a)))
    × ((network_node_state nodes "a" ≡ new)
        ↔ ((at nodes.pods_creating "a" ≢ []) × (at nodes.pods "a" ≡ [])))
network_node_state_iff_example = network_node_state_iff nodes "a"

none_terminating : at nodes.pods_terminating "b" ≡ []
unfolding lookup str_dec
none_terminating = refl

pending_node_is_stuck_example :
    (state_at (move_all slices nodes).nodes "b" ≡ state_pending)
    × (network_node_state (move_all slices nodes) "b" ≡ invalid)
pending_node_is_stuck_example =
    pending_node_is_stuck slices slices-IsSliceLib nodes "b" (refl, tt) b_is_new b_is_pending
      none_terminating

stored : Networks network_kube IsGood
stored = record {
  config = λ w g. g;
  client = λ w g. g;
  network_client = λ w g. g;
  get = λ ns n w g. g;
  got = λ ns n w x g e. subst IsGood {x = w} {y = x} (cc e) g;
  update = λ ns x w g h. h;
  read_pod = λ ns n w g. g;
  read_pod_again = λ ns n w g. g;
  write_pod = λ ns p w g. g;
  node = λ n w g. g;
}

reconcile-Good_example : IsGood (reconcile slices network_kube "ns" "pod" a_network).1
reconcile-Good_example =
    reconcile-Good slices slices-IsSliceLib network_kube IsGood stored "ns" "pod" a_network
      nodes-IsWellFormed

abbrev only_a : List String
only_a = "a" ∷ []

abbrev only_b : List String
only_b = "b" ∷ []
