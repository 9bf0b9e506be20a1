-- ===== src/Controllers/NodeStreams.antt =====
-- The streams of a node, and the loop over the nodes of a network: the parts of `reconcileJetstreams` in
-- controllers/network/network_controller.go. Log lines are left out, and so are the pauses between
-- attempts.
pub mod Laws
pub mod Marks
pub mod Failures
pub mod Progress
pub mod Rounds
use anck.Prelude.{
  ℕ, String, ◌<>◌, Bool, true, false, ◌&&◌, Option, none, some, List, [], ◌∷◌, ◌++◌, ◌⊎◌, inl, inr,
  ◌==◌, string_eq, if◌then◌else◌, ◌≡◌,
}
use anck.Prelude.Dict.{Dict, lookup, insert, or_zero}
use anck.Prelude.Exec.{
  Exec, Error, Result, ok, err, panic, errorf, pure, raise, lift, attempt, inner, value, assign,
  ◌>>=◌, ◌>>◌,
}
use anck.Api.{StreamSpec, Network, ParticipatingSpec}
use anck.Jetstreams.Duration.{Std}
use anck.Jetstreams.Messages.{DomainMessages, ok_message, error_message}
use anck.Jetstreams.Jsm.{Jsm}
use anck.Jetstreams.Controller.{JetstreamController, exists, create}
use anck.Controllers.SliceLib.{SliceLib}
use anck.Controllers.Participating.{
  NodeNetworkState, new, still_participating_create, still_participating_delete, deleted, invalid,
  state_pending, at, state_at, network_node_state, remove_pods, leave, activate, move_all,
}

-- what the closure that is tried again assigns to: `errorsCreatingJetstreams` and `domainMessages`
pub record Tries : Type 0 where
  pub failed : Dict Bool
  pub messages : DomainMessages

-- `errorsCreatingJetstreams[node]`
abbrev pub has_failed : String → Tries → Bool
has_failed node t = or_zero false (lookup node t.failed)

-- `retry.Do(f, retry.Attempts(5), retry.Delay(time.Second*1))` of github.com/avast/retry-go, for an `f`
-- that assigns to variables
pub record Retry (W : Type 0) : Type 1 where
  pub retry_do : {S : Type 0} → Exec (S × W) (Unit {0}) → Exec (S × W) (Unit {0})

-- It calls `f` until that returns no error, or the attempts are used up, and then returns an error.
pub record IsRetry {W : Type 0} (retry : Retry W) : Type 1 where
  pub stops :
      {S : Type 0} (f : Exec (S × W) (Unit {0})) (s : S × W)
      → (f s).0 ≡ ok tt
      → retry.retry_do f s ≡ f s
  -- nothing but `f` assigns to the variables, and `f` is called at least once
  pub assigns :
      {S : Type 0} (P : S → Type 0) (f : Exec (S × W) (Unit {0}))
      → ((s : S × W) → P s.0 → P (f s).1.0)
      → (s : S × W) → P (f s).1.0
      → P (retry.retry_do f s).1.0

-- the variables of the loop over the nodes
pub record Work : Type 0 where
  pub participating : ParticipatingSpec
  pub removed : List String
  pub added : List String
  pub tries : Tries

module _ {W : Type 0} {F : Type 0} (jsm : Jsm W) (std : Std F) (js : JetstreamController) where
  set_failed : String → Exec (Tries × W) (Unit {0})
  set_failed node = do t ← value; assign (record t { failed = insert node true t.failed })

  or_panic : Option DomainMessages → Result DomainMessages
  or_panic none = panic
  or_panic (some m) = ok m

  -- a call of a method of `domainMessages`
  say : (DomainMessages → Option DomainMessages) → Exec (Tries × W) (Unit {0})
  unfolding or_panic
  say add = do t ← value; m ← lift (or_panic (add t.messages)); assign (record t { messages = m })

  -- what follows the creation of a stream
  after_create : String → StreamSpec → Error ⊎ Unit {0} → Exec (Tries × W) (Unit {0})
  unfolding set_failed say
  after_create node stream (inl e) = do
    say (λ m. error_message m node (
        "Error creating jetstream: {domain: " <> node <> ", stream: " <> stream.name <> ", error: "
        <> e.text <> "}"))
    set_failed node
    raise (errorf "")
  after_create node stream (inr _) = say (λ m.
      ok_message m node
        ("Successfully created jetstream: {domain: " <> node <> ", stream: " <> stream.name <> "}"))

  -- what follows the question whether the stream is there
  after_exists : String → Network → StreamSpec → Error ⊎ Bool → Exec (Tries × W) (Unit {0})
  unfolding set_failed after_create
  after_exists node network stream (inl _) = do set_failed node; raise (errorf "")
  after_exists node network stream (inr true) = pure tt
  after_exists node network stream (inr false) = do
    r ← attempt (inner (create jsm std js node network.meta.name stream network.spec.subjects))
    after_create node stream r

  -- the body of the loop over the streams, behind the test of the location
  unfoldable pub create_stream : String → Network → StreamSpec → Exec (Tries × W) (Unit {0})
  unfolding after_exists
  create_stream node network stream = do
    r ← attempt (inner (exists jsm js node stream.name))
    after_exists node network stream r

  -- the closure that is tried again: the loop over the streams
  unfoldable pub create_streams : String → Network → List StreamSpec → Exec (Tries × W) (Unit {0})
  create_streams node network [] = pure tt
  create_streams node network (stream ∷ streams) =
      let rest = create_streams node network streams in
      if stream.location == "node" then (do create_stream node network stream; rest) else rest

  -- the error that `retry.Do` returns is dropped
  abbrev drop_error : Result (Unit {0}) → Tries → Result Tries
  drop_error (ok _) t = ok t
  drop_error (err _) t = ok t
  drop_error panic t = panic

  unfoldable pub try_streams : Retry W → String → Network → Tries → Exec W Tries
  try_streams retry node network tries w =
      let (r, (t, w')) =
        retry.retry_do (create_streams node network network.spec.streams) (tries, w) in
      (drop_error r t, w')

  module _ (lib : SliceLib) (retry : Retry W) where
    -- case `new`, behind the attempts
    unfoldable pub after_tries : String → Work → Tries → Work
    after_tries node work tries =
        if has_failed node tries then record work { tries = tries } else record work {
          tries = tries;
          participating = activate lib node work.participating;
          added = work.added ++ node ∷ [];
        }

    -- the body of the loop over the nodes, by the state that the node is in
    unfoldable pub reconcile_node_in : NodeNetworkState → String → Network → Work → Exec W Work
    reconcile_node_in new node network work =
        if state_at work.participating.nodes node == state_pending
        then (do
          tries ← try_streams retry node network work.tries
          pure (after_tries node work tries))
        else pure work
    reconcile_node_in still_participating_create node network work =
        pure (record work { participating = move_all lib work.participating })
    reconcile_node_in still_participating_delete node network work =
        let (participating, left) = leave node work.participating in
        pure (record work {
          participating = participating;
          removed = if left then work.removed ++ node ∷ [] else work.removed;
        })
    reconcile_node_in deleted node network work = pure (record work {
      participating =
          remove_pods node (at work.participating.pods_terminating node) work.participating;
      removed = work.removed ++ node ∷ [];
    })
    reconcile_node_in invalid node network work = pure work

    unfoldable pub reconcile_node : String → Network → Work → Exec W Work
    reconcile_node node network work =
        reconcile_node_in (network_node_state work.participating node) node network work

    unfoldable pub reconcile_nodes : List String → Network → Work → Exec W Work
    reconcile_nodes [] network work = pure work
    reconcile_nodes (node ∷ nodes) network work = do
      next ← reconcile_node node network work
      reconcile_nodes nodes network next
