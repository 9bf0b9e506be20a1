-- ===== src/Start.antt =====
-- main.go: what the program does before its controllers run. The manager of controller-runtime, with the
-- controllers that are set up on it, is a parameter, and so are the flags.
pub mod Waiting
pub mod Exits
pub mod Laws
use anck.Prelude.{
  ℕ, zero, suc, String, Bool, true, false, ◌&&◌, ◌||◌, List, [], ◌∷◌, ◌⊎◌, inl, inr, ◌==◌,
  string_eq, if◌then◌else◌,
}
use anck.Prelude.Exec.{Exec, Error, errorf, attempt, pure, raise, ◌>>=◌, ◌>>◌}
use anck.Text.{str_contains}
use anck.Common.{anck_namespace}
use anck.Nats.Config.Json.{Json}
use anck.Nats.Server.{Service, ServerInformation, get_nats_server_infos}
use anck.Resources.Kube.{Kube, Pod}
use anck.Resources.Others.{list_pods}
use anck.Additional.Client.{Client}
use anck.Additional.NodeDns.{apply_node_dns}
use anck.Additional.AnckCredentials.{apply_anck_credentials}
use anck.Additional.LeafNats.{apply_leaf_nats}

-- the values of the flags
pub record Flags : Type 0 where
  pub metrics_addr : String
  pub probe_addr : String
  pub enable_leader_election : Bool

-- `ctrl.Options`, as far as the program sets them
pub record Options : Type 0 where
  pub metrics_bind_address : String
  pub port : ℕ
  pub health_probe_bind_address : String
  pub leader_election : Bool
  pub leader_election_id : String

-- controller-runtime and the `SetupWithManager` of each reconciler; `start` returns when the program is
-- told to stop
pub record Runtime (W : Type 0) : Type 1 where
  pub Manager : Type 0
  pub new_manager : Options → Exec W Manager
  pub get_client : Manager → Client W
  pub setup_networks : Manager → Exec W (Unit {0})
  pub setup_participants : Manager → Exec W (Unit {0})
  pub setup_pods : Manager → Exec W (Unit {0})
  pub add_healthz_check : Manager → String → Exec W (Unit {0})
  pub add_readyz_check : Manager → String → Exec W (Unit {0})
  pub start : Manager → Exec W (Unit {0})

-- some pod is the one of anck-credentials, and runs
unfoldable pub runs_credentials : List Pod → Bool
runs_credentials [] = false
runs_credentials (pod ∷ pods) =
    (str_contains pod.meta.name "anck-credentials" && (pod.phase == "Running"))
    || runs_credentials pods

abbrev pub timeout_error : Error
timeout_error = errorf "timeout waiting for anck-credentials"

abbrev pub manager_options : Flags → Options
manager_options flags = record {
  metrics_bind_address = flags.metrics_addr;
  port = 9443;
  health_probe_bind_address = flags.probe_addr;
  leader_election = flags.enable_leader_election;
  leader_election_id = "3fdd68dd.network.edgefarm.io";
}

module _ {W : Type 0} (kube : Kube W) (sleep : W → W) where
  -- `waitForAnckCredentials`: the goroutine's loop, and the `select` that waits for its response or for
  -- the timeout. `polls` is the number of rounds that the loop makes before the timeout.
  unfoldable pub wait_for_anck_credentials : ℕ → Exec W (Unit {0})
  wait_for_anck_credentials zero = raise timeout_error
  wait_for_anck_credentials (suc polls) = do
    pod_list ← list_pods kube anck_namespace
    let rest : Exec W (Unit {0}) = λ w. wait_for_anck_credentials polls (sleep w)
    if runs_credentials pod_list then pure tt else rest

-- the error is logged with the message, and the program exits with the code 1
or_exit_with : {W A : Type 0} → String → Error ⊎ A → Exec W A
or_exit_with message (inl e) = raise (record e { text = message })
or_exit_with message (inr a) = pure a

unfoldable pub or_exit : {W A : Type 0} → String → Exec W A → Exec W A
unfolding or_exit_with
or_exit message m = do r ← attempt m; or_exit_with message r

module _ {W : Type 0} (runtime : Runtime W) (kube : Kube W) (service : Service W) (json : Json)
    (sleep : W → W) where
  -- the part that sets up the controllers and the checks
  unfoldable pub set_up : runtime.Manager → Exec W (Unit {0})
  set_up mgr = do
    or_exit "unable to create controller" (runtime.setup_networks mgr)
    or_exit "unable to create controller" (runtime.setup_participants mgr)
    or_exit "unable to create controller" (runtime.setup_pods mgr)
    or_exit "unable to set up health check" (runtime.add_healthz_check mgr "healthz")
    or_exit "unable to set up ready check" (runtime.add_readyz_check mgr "readyz")

  -- `main` up to `mgr.Start`, with the number of polls that fit into a minute
  unfoldable pub prepare : Flags → ℕ → Exec W runtime.Manager
  prepare flags polls = do
    mgr ← or_exit "unable to start manager" (runtime.new_manager (manager_options flags))
    or_exit "unable to set up acnk-credentials" (apply_anck_credentials (runtime.get_client mgr))
    or_exit "anck-credentials timed out. Exiting..." (wait_for_anck_credentials kube sleep polls)
    infos ← or_exit "unable to get nats server infos" (get_nats_server_infos service)
    set_up mgr
    or_exit "unable to set up node dns" (apply_node_dns (runtime.get_client mgr))
    or_exit "unable to set up leaf-nats" (apply_leaf_nats (runtime.get_client mgr) service json)
    pure mgr

  -- `main`
  unfoldable pub main : Flags → ℕ → Exec W (Unit {0})
  main flags polls = do
    mgr ← prepare flags polls
    or_exit "problem running manager" (runtime.start mgr)
