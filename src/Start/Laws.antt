-- ===== src/Start/Laws.antt =====
-- What is in the cluster, and what has answered, when `main` starts its controllers.
use anck.Prelude.{
  ℕ, zero, suc, String, true, List, ◌++◌, inl, inr, ◌≡◌, refl, ap, ◌∙◌, Bool-cases, str_dec,
}
use anck.Prelude.Dict.{lookup}
use anck.Prelude.Exec.{Exec, ok, pure, raise, bind_inv, Keeps, >>=-Keeps}
use anck.Common.{anck_namespace}
use anck.Nats.Config.Json.{Json, to_json}
use anck.Nats.Server.{Service, ServerInformation, get_nats_server_infos}
use anck.Nats.Server.Quiet.{Quiet, get_nats_server_infos-Keeps}
use anck.Resources.Kube.{Kube, Pod}
use anck.Resources.Secret.{clientset}
use anck.Resources.Others.{list_pods}
use anck.Additional.Objects.{Object}
use anck.Additional.Client.{Client, IsClient}
use anck.Additional.Apply.Laws.{Cluster, found, written}
use anck.Additional.Ready.{ready}
use anck.Additional.NodeDns.{
  apply_node_dns, node_dns_namespace_object, node_dns_config_map, node_dns_daemon_set,
}
use anck.Additional.AnckCredentials.{
  apply_anck_credentials, credentials_namespace, credentials_cluster_role,
  credentials_cluster_role_binding, credentials_service, credentials_service_account,
  credentials_deployment,
}
use anck.Additional.LeafNats.{
  apply_leaf_nats, leaf_config, leaf_namespace, leaf_config_map, sys_account_creds_secret,
  leaf_daemon_set,
}
use anck.Additional.Laws.{
  node_dns_objects, leaf_objects, credentials_objects, apply_node_dns-ok, apply_leaf_nats-ok,
  apply_anck_credentials-ok,
}
use anck.Start.{
  Flags, Options, Runtime, runs_credentials, wait_for_anck_credentials, set_up, prepare,
  manager_options,
}
use anck.Start.Exits.{or_exit_bind, or_exit-Keeps}
use anck.Start.Waiting.{
  Waiting, no_poll, one_more, running, failed, panicked, timed_out, wait_for_anck_credentials_lem,
}

-- The objects of the start, and that they fit together once they are applied in this order.
abbrev pub started : String → String → Cluster → Cluster
started text creds a =
    written (leaf_objects text creds) (written node_dns_objects (found credentials_objects a))

abbrev pub start_objects : String → String → List Object
start_objects text creds = credentials_objects ++ node_dns_objects ++ leaf_objects text creds

started-ready :
    (text creds : String) (a : Cluster)
    → ready (started text creds a) (start_objects text creds) ≡ true
unfolding ready node_dns_namespace_object node_dns_config_map node_dns_daemon_set
    credentials_namespace credentials_cluster_role credentials_cluster_role_binding
    credentials_service credentials_service_account credentials_deployment leaf_namespace
    leaf_config_map sys_account_creds_secret leaf_daemon_set str_dec lookup
started-ready text creds a = refl

-- Requests that read, and the setting up of the controllers, apply nothing.
pub record Reads {W : Type 0} (kube : Kube W) (applied : W → Cluster) : Type 1 where
  pub configures : Keeps applied kube.in_cluster_config
  pub connects : Keeps applied kube.new_for_config
  pub retries :
      {A : Type 0} (m : Exec W A) → Keeps applied m → Keeps applied (kube.retry_on_conflict m)
  pub lists : (ns : String) → Keeps applied (kube.list_pods ns)

pub record IsRuntime {W : Type 0} (runtime : Runtime W) (applied : W → Cluster) : Type 0 where
  pub makes : (o : Options) → Keeps applied (runtime.new_manager o)
  pub client : (mgr : runtime.Manager) → IsClient (runtime.get_client mgr) applied
  pub networks : (mgr : runtime.Manager) → Keeps applied (runtime.setup_networks mgr)
  pub participants : (mgr : runtime.Manager) → Keeps applied (runtime.setup_participants mgr)
  pub pods : (mgr : runtime.Manager) → Keeps applied (runtime.setup_pods mgr)
  pub healthz :
      (mgr : runtime.Manager) (name : String) → Keeps applied (runtime.add_healthz_check mgr name)
  pub readyz :
      (mgr : runtime.Manager) (name : String) → Keeps applied (runtime.add_readyz_check mgr name)

module _ {W : Type 0} (runtime : Runtime W) (kube : Kube W) (service : Service W) (json : Json)
    (sleep : W → W) (applied : W → Cluster) (runs : IsRuntime runtime applied)
    (reads : Reads kube applied) (quiet : Quiet service applied)
    (sleeps : (w : W) → applied (sleep w) ≡ applied w) where
  list_pods-Keeps : (ns : String) → Keeps applied (list_pods kube ns)
  unfolding list_pods clientset
  list_pods-Keeps ns =
      >>=-Keeps applied _ _ (>>=-Keeps applied _ _ reads.configures (λ _. reads.connects))
        (λ _. reads.retries _ (reads.lists ns))

  wait-Keeps : (n : ℕ) → Keeps applied (wait_for_anck_credentials kube sleep n)
  unfolding wait_for_anck_credentials raise pure
  wait-Keeps zero = λ w. refl
  wait-Keeps (suc n) =
      >>=-Keeps applied (list_pods kube anck_namespace) _ (list_pods-Keeps anck_namespace) (λ pods.
        elim (Bool-cases (runs_credentials pods)) [
          | inl t ↦ rw t (λ w. refl)
          | inr f ↦ rw f (λ w. wait-Keeps n (sleep w) ∙ sleeps w)
        ])

  set_up-Keeps :
      (mgr : runtime.Manager) → Keeps applied (set_up runtime kube service json sleep mgr)
  unfolding set_up
  set_up-Keeps mgr = >>=-Keeps applied _ _ (or_exit-Keeps applied _ _ (runs.networks mgr)) (λ _.
      >>=-Keeps applied _ _ (or_exit-Keeps applied _ _ (runs.participants mgr)) (λ _.
        >>=-Keeps applied _ _ (or_exit-Keeps applied _ _ (runs.pods mgr)) (λ _.
          >>=-Keeps applied _ _ (or_exit-Keeps applied _ _ (runs.healthz mgr "healthz"))
            (λ _. or_exit-Keeps applied _ _ (runs.readyz mgr "readyz")))))

  waited : (n : ℕ) {w w' : W} → Waiting kube sleep n w w' → applied w' ≡ applied w
  waited zero no_poll = refl
  waited (suc n) {w} {w'} (one_more pods h f rest) =
      waited n rest ∙ sleeps (list_pods kube anck_namespace w).1 ∙ list_pods-Keeps anck_namespace w

  -- a poll that found a running pod, with what was applied before the wait
  found_running :
      (n : ℕ) (w : W)
      → (wait_for_anck_credentials kube sleep n w).0 ≡ ok tt
      → (w' : W) × (pods : List Pod) × (applied w' ≡ applied w)
        × ((list_pods kube anck_namespace w').0 ≡ ok pods)
        × (runs_credentials pods ≡ true)
  found_running n w h = elim (wait_for_anck_credentials_lem kube sleep n w) [
    | running m w' pods less before there runs e ↦ (w', pods, waited m before, there, runs)
    | failed m w' x less before there e ↦ cc (ap (λ y. y.0) e)
    | panicked m w' less before there e ↦ cc (ap (λ y. y.0) e)
    | timed_out w' before e ↦ cc (ap (λ y. y.0) e)
  ]

  -- When `main` starts its controllers, a poll has found a running pod of anck-credentials after the
  -- objects of anck-credentials were applied, the service has answered with the information on the
  -- server, and the cluster has the objects of anck-credentials (its own, or those that were there
  -- before), of node-dns and of leaf-nats, the latter two as the program makes them; nothing else in it
  -- is changed, and all of them fit together.
  pub prepare-ok :
      (flags : Flags) (polls : ℕ) (w : W) (mgr : runtime.Manager)
      → (prepare runtime kube service json sleep flags polls w).0 ≡ ok mgr
      → ((polled : W) × (pods : List Pod) × (applied polled ≡ found credentials_objects (applied w))
          × ((list_pods kube anck_namespace polled).0 ≡ ok pods)
          × (runs_credentials pods ≡ true))
        × ((infos : ServerInformation) × (text : String) × (asked : W) × ((get_nats_server_infos
                service asked).0
              ≡ ok infos)
            × (to_json json (leaf_config infos) ≡ ok text)
            × (applied (prepare runtime kube service json sleep flags polls w).1
                ≡ started text infos.sys_creds (applied w))
            × (ready
                  (applied (prepare runtime kube service json sleep flags polls w).1)
                  (start_objects text infos.sys_creds)
                ≡ true))
  unfolding prepare pure
  prepare-ok flags polls w mgr h =
      let (m, e0, h0, s0) = or_exit_bind _ (runtime.new_manager _) _ w h in
      let client : Client W = runtime.get_client m in
      let w0 : W = (runtime.new_manager (manager_options flags) w).1 in
      let (u1, e1, h1, s1) = or_exit_bind _ (apply_anck_credentials client) _ w0 h0 in
      let w1 : W = (apply_anck_credentials client w0).1 in
      let (u2, e2, h2, s2) = or_exit_bind _ (wait_for_anck_credentials kube sleep polls) _ w1 h1 in
      let w2 : W = (wait_for_anck_credentials kube sleep polls w1).1 in
      let (i3, e3, h3, s3) = or_exit_bind _ (get_nats_server_infos service) _ w2 h2 in
      let w3 : W = (get_nats_server_infos service w2).1 in
      let (u4, e4, h4, s4) = bind_inv (set_up runtime kube service json sleep m) _ w3 h3 in
      let w4 : W = (set_up runtime kube service json sleep m w3).1 in
      let (u5, e5, h5, s5) = or_exit_bind _ (apply_node_dns client) _ w4 h4 in
      let w5 : W = (apply_node_dns client w4).1 in
      let (u6, e6, h6, s6) = or_exit_bind _ (apply_leaf_nats client service json) _ w5 h5 in
      let (infos, text, asked, answer, made, leaf, fits) =
        apply_leaf_nats-ok client applied (runs.client m) service quiet json w5 e6 in
      let (dns, dns_fits) = apply_node_dns-ok client applied (runs.client m) w4 e5 in
      let (creds, creds_fit) = apply_anck_credentials-ok client applied (runs.client m) w0 e1 in
      let with_credentials : applied w1 ≡ found credentials_objects (applied w) =
        creds ∙ ap (found credentials_objects) (runs.makes (manager_options flags) w) in
      let (polled, pods, same, listed, runs_there) = found_running polls w1 e2 in
      let before : applied w4 ≡ found credentials_objects (applied w) =
        set_up-Keeps m w3
        ∙ get_nats_server_infos-Keeps service applied quiet w2
        ∙ wait-Keeps polls w1
        ∙ with_credentials in
      let all : applied (prepare runtime kube service json sleep flags polls w).1
          ≡ started text infos.sys_creds (applied w) =
        ap (λ x. applied x.1) (s0 ∙ s1 ∙ s2 ∙ s3 ∙ s4 ∙ s5 ∙ s6)
        ∙ leaf
        ∙ ap (written (leaf_objects text infos.sys_creds))
            (dns ∙ ap (written node_dns_objects) before) in
      (
        (polled, pods, same ∙ with_credentials, listed, runs_there),
        (
          infos,
          text,
          asked,
          answer,
          made,
          all,
          rw all (started-ready text infos.sys_creds (applied w)),
        ),
      )
