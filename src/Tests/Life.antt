-- ===== src/Tests/Life.antt =====
-- Histories of a network with one node and one pod.
use anck.Prelude.{
  ◌+◌, ◌≤◌, true, false, some, List, [], ◌∷◌, ◌≡◌, ◌≢◌, refl, str_dec, arith, contains, ap,
  string_eq, remove_first,
}
use anck.Prelude.Dict.{keys, lookup, insert, erase}
use anck.Prelude.Exec.{ok, pure, raise, attempt, inner, value, assign, lift, defer, ◌>>=◌}
use anck.Api.{Network, ParticipatingSpec}
use anck.Common.Slice.{slice_equal, slice_diff}
use anck.Jetstreams.Messages.{new_domain_messages, ok_message, add_message}
use anck.Jetstreams.Controller.{exists, create}
use anck.Jetstreams.StreamConfig.{create_jetstream_config, gather, qualify}
use anck.Jetstreams.Duration.{parse_duration_string, trim_space}
use anck.Controllers.Participating.{
  deleted, at, state_at, state_active, network_node_state, remove_pods, leave, activate,
  pod_created, pod_terminating,
}
use anck.Controllers.Participating.Invariant.{IsWellFormed}
use anck.Controllers.Participating.Kept.{present}
use anck.Controllers.Participating.Roster.{status, joined}
use anck.Controllers.NodeStreams.{
  Work, create_stream, create_streams, try_streams, after_tries, reconcile_node_in, reconcile_node,
  reconcile_nodes,
}
use anck.Controllers.NodeStreams.Progress.{measure}
use anck.Controllers.Life.{
  Event, created, terminated, reconciled, no_participants, Steps, no_step, then_step, Reconciles,
  round, creates, terminates, reconciles, Run, start, next,
}
use anck.Controllers.Life.Refinement.{
  SpecRun, was_created, was_terminated, ended, stays, Run-SpecRun, Run-stays, Run-ends,
}
use anck.Controllers.Life.Stuck.{all_elsewhere}
use anck.Controllers.Life.Early.{early_pod_is_stuck, recreated_pod_is_lost}
use anck.Controllers.Life.Settles.{Changes, no_round, changing, Changes-le-measure}
use anck.Controllers.Life.Visited.{Run-visits}
use anck.Tests.Slices.{slices, slices-IsSliceLib, dedup}
use anck.Tests.NetworkWorld.{whole, empty_jsm, a_network, retry_once, js}

-- the pod `p` is in creation on the node `b`, and then it is there
abbrev pub waiting : ParticipatingSpec
waiting = record no_participants {
  nodes = ("b", "pending") ∷ [];
  pods_creating = ("b", "p" ∷ []) ∷ [];
}

abbrev pub active : ParticipatingSpec
active = record no_participants { nodes = ("b", "active") ∷ []; pods = ("b", "p" ∷ []) ∷ [] }

abbrev work_on : ParticipatingSpec → Work
work_on p = record {
  participating = p;
  removed = [];
  added = [];
  tries = record { failed = []; messages = new_domain_messages };
}

abbrev finished : Work
finished = record {
  participating = active;
  removed = [];
  added = "b" ∷ [];
  tries = record {
    failed = [];
    messages = record {
      ok_map = some (("b", "Successfully created jetstream: {domain: b, stream: s}" ∷ []) ∷ []);
      err_map = some [];
    };
  };
}

round_runs :
    (reconcile_nodes empty_jsm whole js slices retry_once
      ("b" ∷ [])
      a_network
      (work_on waiting)
      a_network).0
    ≡ ok finished
unfolding reconcile_nodes reconcile_node reconcile_node_in network_node_state try_streams
    create_streams create_stream after_tries activate leave dedup remove_pods exists create
    create_jetstream_config gather qualify parse_duration_string trim_space ok_message add_message
    attempt inner value assign lift defer ◌>>=◌ pure raise lookup insert erase slice_equal
    slice_diff str_dec
round_runs = refl

activates : Reconciles {W = Network} empty_jsm whole slices retry_once waiting active
activates = round js ("b" ∷ []) a_network (work_on waiting) finished a_network refl round_runs refl

pub appears : waiting ≡ pod_created slices "b" "p" no_participants
unfolding pod_created dedup lookup insert str_dec
appears = refl

history :
    Run {W = Network} empty_jsm whole slices retry_once (reconciled ∷ created "b" "p" ∷ []) active
history = next (next start (creates "b" "p" appears)) (reconciles activates)

Run-SpecRun_example :
    IsWellFormed active × SpecRun (reconciled ∷ created "b" "p" ∷ []) (status active)
Run-SpecRun_example = Run-SpecRun empty_jsm whole slices slices-IsSliceLib retry_once history

never_terminated : was_terminated "b" "p" (reconciled ∷ created "b" "p" ∷ []) ≡ false
unfolding str_dec
never_terminated = refl

Run-stays_example :
    status active "b" "p" ≡ stays (was_created "b" "p" (reconciled ∷ created "b" "p" ∷ []))
Run-stays_example =
    Run-stays empty_jsm whole slices slices-IsSliceLib retry_once "b" "p" history never_terminated

late_history :
    Run {W = Network} empty_jsm whole slices retry_once
      (terminated "b" "p" ∷ reconciled ∷ created "b" "p" ∷ [])
      (pod_terminating slices "b" "p" active)
late_history = next history (terminates "b" "p" refl)

terminated_last : ended "b" "p" (terminated "b" "p" ∷ reconciled ∷ created "b" "p" ∷ []) ≡ true
unfolding str_dec
terminated_last = refl

Run-ends_example : status (pod_terminating slices "b" "p" active) "b" "p" ≢ joined
Run-ends_example =
    Run-ends empty_jsm whole slices slices-IsSliceLib retry_once "b" "p" late_history
      terminated_last

b_has_p : present active "b" "p" ≡ true
unfolding lookup str_dec
b_has_p = refl

Run-visits_example : contains (keys active.nodes) "b" ≡ true
Run-visits_example =
    Run-visits empty_jsm whole slices slices-IsSliceLib retry_once "b" "p" history b_has_p

waiting-ne-active : waiting ≢ active
waiting-ne-active h = cc (ap (λ p. p.pods) h)

one_change : Changes {W = Network} empty_jsm whole slices retry_once waiting 1 active
one_change = changing no_round activates waiting-ne-active

Changes-le-measure_example : 1 + measure active ≤ measure waiting
Changes-le-measure_example = Changes-le-measure empty_jsm whole slices retry_once one_change

nothing_there : at waiting.pods "b" ≡ []
unfolding lookup
nothing_there = refl

p_in_creation : at waiting.pods_creating "b" ≡ "p" ∷ []
unfolding lookup str_dec
p_in_creation = refl

nothing_ends : at waiting.pods_terminating "b" ≡ []
unfolding lookup
nothing_ends = refl

abbrev stuck : ParticipatingSpec
stuck = activate slices "b" (pod_terminating slices "b" "p" waiting)

round_on_stuck :
    (reconcile_nodes empty_jsm whole js slices retry_once
      ("b" ∷ [])
      a_network
      (work_on stuck)
      a_network).0
    ≡ ok (work_on stuck)
unfolding reconcile_nodes reconcile_node reconcile_node_in network_node_state activate
    pod_terminating leave dedup pure ◌>>=◌ lookup insert erase slice_equal slice_diff str_dec
round_on_stuck = refl

-- a pod of another node is created, and then there is a round
abbrev busier : ParticipatingSpec
busier = pod_created slices "c" "r" stuck

abbrev later : List Event
later = created "c" "r" ∷ reconciled ∷ []

goes_on : Steps {W = Network} empty_jsm whole slices retry_once stuck later busier
goes_on =
    then_step
      (then_step no_step (
        reconciles (
          round js ("b" ∷ []) a_network (work_on stuck) (work_on stuck) a_network refl
            round_on_stuck refl)))
      (creates "c" "r" refl)

later_elsewhere : all_elsewhere "b" later ≡ true
unfolding str_dec
later_elsewhere = refl

waiting-IsWellFormed : IsWellFormed waiting
unfolding lookup str_dec
waiting-IsWellFormed = record {
  pods = λ j. tt;
  creating = λ j. ground arith;
  terminating = λ j. tt;
  nodes_once = (refl, tt);
}

early_pod_is_stuck_example :
    (contains (at busier.pods "b") "p" ≡ true)
    × (contains (at busier.pods_terminating "b") "p" ≡ true)
    × (state_at busier.nodes "b" ≡ state_active)
early_pod_is_stuck_example =
    early_pod_is_stuck empty_jsm whole slices slices-IsSliceLib retry_once "b" "p" waiting
      waiting-IsWellFormed nothing_there p_in_creation nothing_ends goes_on later_elsewhere

-- the pod `q` of the node `b` terminates, and `p` stays
abbrev ending : ParticipatingSpec
ending = record no_participants {
  nodes = ("b", "active") ∷ [];
  pods = ("b", "p" ∷ "q" ∷ []) ∷ [];
  pods_terminating = ("b", "q" ∷ []) ∷ [];
}

abbrev lost : ParticipatingSpec
lost = record ending { pods = ("b", "p" ∷ []) ∷ []; pods_terminating = [] }

ending-IsWellFormed : IsWellFormed ending
unfolding lookup str_dec
ending-IsWellFormed = record {
  pods = λ j. ground arith;
  creating = λ j. ground arith;
  terminating = λ j. ground arith;
  nodes_once = tt;
}

ending_is_deleted : network_node_state ending "b" ≡ deleted
unfolding network_node_state lookup slice_equal slice_diff str_dec
ending_is_deleted = refl

q_is_there : contains (at ending.pods "b") "q" ≡ true
unfolding lookup str_dec
q_is_there = refl

q_ends : contains (at ending.pods_terminating "b") "q" ≡ true
unfolding lookup str_dec
q_ends = refl

still_ending : ending ≡ pod_created slices "b" "q" ending
unfolding pod_created lookup str_dec
still_ending = refl

loses :
    (reconcile_node empty_jsm whole js slices retry_once "b" a_network (work_on ending) a_network).0
    ≡ ok (record (work_on lost) { removed = "b" ∷ [] })
unfolding reconcile_node reconcile_node_in network_node_state remove_pods remove_first pure lookup
    insert erase slice_equal slice_diff str_dec
loses = refl

recreated_pod_is_lost_example : present lost "b" "q" ≡ false
recreated_pod_is_lost_example =
    recreated_pod_is_lost empty_jsm whole js slices slices-IsSliceLib retry_once "b" "q" ending
      a_network (work_on ending) (record (work_on lost) { removed = "b" ∷ [] }) a_network
      ending-IsWellFormed ending_is_deleted q_is_there q_ends still_ending loses
