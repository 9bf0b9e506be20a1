-- ===== src/Tests/ClusterWorld.antt =====
-- A cluster that is only the objects that were applied: a creation fails where there is one, an update
-- where there is none. One pod runs in it, and the service answers.
use anck.Prelude.{
  Bool, if◌then◌else◌, Bool-cases, inl, inr, true, false, Option, none, some, [], ◌∷◌, ◌≡◌, ◌≢◌,
  refl,
}
use anck.Prelude.Exec.{Error, Result, ok, err, errorf, already_exists, not_found, is_already_exists}
use anck.Nats.Config.Json.{Json}
use anck.Nats.Server.{Service, ServerInformation}
use anck.Nats.Server.Quiet.{Quiet}
use anck.Resources.Kube.{Kube, Pod}
use anck.Additional.Objects.{
  Object, Body, namespace, service_account, config_map, secret, cluster_role, cluster_role_binding,
  service, daemon_set, deployment,
}
use anck.Additional.Client.{Client, IsClient, Ref, ref_of}
use anck.Additional.Apply.Laws.{Cluster, over}
use anck.Start.{Runtime}
use anck.Start.Laws.{IsRuntime, Reads}

abbrev exists_error : Error
exists_error = record { kind = already_exists; text = "exists" }

abbrev absent_error : Error
absent_error = record { kind = not_found; text = "not found" }

created : Object → Cluster → Option Object → Result (Unit {0}) × Cluster
created o a none = (ok tt, over o a)
created o a (some _) = (err exists_error, a)

updated : Object → Cluster → Option Object → Result (Unit {0}) × Cluster
updated o a none = (err absent_error, a)
updated o a (some _) = (ok tt, over o a)

unfoldable pub cluster_client : Client Cluster
unfolding created updated
cluster_client = record {
  create = λ o a. created o a (a (ref_of o));
  update = λ o a. updated o a (a (ref_of o));
}

pub cluster_client-IsClient : IsClient cluster_client (λ a. a)
unfolding cluster_client
cluster_client-IsClient = record {
  create-ok = λ o w h. made o w (w (ref_of o)) refl h;
  create-err = λ o w e h. not_made o w e (w (ref_of o)) refl h;
  update-ok = λ o w h. changed o w (w (ref_of o)) refl h;
  update-err = λ o w e h. unchanged o w e (w (ref_of o)) h;
}
  where
    made :
        (o : Object) (w : Cluster) (x : Option Object)
        → w (ref_of o) ≡ x
        → (created o w x).0 ≡ ok tt
        → (w (ref_of o) ≡ none) × ((r : Ref) → (created o w x).1 r ≡ over o w r)
    made o w none p h = (p, λ r. refl)
    made o w (some _) p h = cc

    not_made :
        (o : Object) (w : Cluster) (e : Error) (x : Option Object)
        → w (ref_of o) ≡ x
        → (created o w x).0 ≡ err e
        → ((r : Ref) → (created o w x).1 r ≡ w r)
          × (is_already_exists e ≡ true → w (ref_of o) ≢ none)
    not_made o w e none p h = cc
    not_made o w e (some _) p h = (λ r. refl, λ t n. cc)

    changed :
        (o : Object) (w : Cluster) (x : Option Object)
        → w (ref_of o) ≡ x
        → (updated o w x).0 ≡ ok tt
        → (w (ref_of o) ≢ none) × ((r : Ref) → (updated o w x).1 r ≡ over o w r)
    changed o w none p h = cc
    changed o w (some _) p h = (λ n. cc, λ r. refl)

    unchanged :
        (o : Object) (w : Cluster) (e : Error) (x : Option Object)
        → (updated o w x).0 ≡ err e
        → (r : Ref) → (updated o w x).1 r ≡ w r
    unchanged o w e none h r = refl
    unchanged o w e (some _) h r = cc

abbrev pub server_infos : ServerInformation
server_infos = record {
  nats_address = "nats";
  leaf_address = "leaf";
  sys_creds = "sys";
  sys_public_key = "key";
  sys_jwt = "jwt";
  operator_jwt = "operator";
}

abbrev pub cluster_service : Service Cluster
cluster_service = record {
  Conn = Unit;
  connect = λ w. (ok tt, w);
  close = λ c w. w;
  sleep = λ w. w;
  server_information = λ c w. (ok server_infos, w);
  desired_state = λ c n ps w. (err absent_error, w);
  delete_network = λ c n w. (ok tt, w);
}

pub cluster_service-Quiet : Quiet cluster_service (λ (a : Cluster). a)
cluster_service-Quiet = record {
  connects = λ w. refl;
  closes = λ c w. refl;
  sleeps = λ w. refl;
  informs = λ c w. refl;
}

abbrev pub credentials_pod : Pod
credentials_pod = record {
  meta = record {
    name = "anck-credentials-1";
    namespace = "anck";
    deleting = false;
    finalizers = [];
  };
  labels = [];
  node_name = "node";
  phase = "Running";
}

abbrev pub cluster_kube : Kube Cluster
cluster_kube = record {
  in_cluster_config = λ w. (ok tt, w);
  new_for_config = λ w. (ok tt, w);
  network_new_for_config = λ w. (ok tt, w);
  retry_on_conflict = λ m. m;
  get_secret = λ ns n w. (err absent_error, w);
  list_secrets = λ ns w. (ok [], w);
  update_secret = λ s w. (err absent_error, w);
  create_secret = λ s w. (ok s, w);
  delete_secret = λ ns n w. (err absent_error, w);
  create_namespace = λ n w. (ok tt, w);
  get_network = λ ns n w. (err absent_error, w);
  update_network = λ ns n w. (ok n, w);
  get_participants = λ ns n w. (err absent_error, w);
  get_pod = λ ns n w. (ok credentials_pod, w);
  list_pods = λ ns w. (ok (credentials_pod ∷ []), w);
  update_pod = λ ns p w. (ok p, w);
  get_node_labels = λ n w. (ok [], w);
}

pub cluster_kube-Reads : Reads cluster_kube (λ a. a)
cluster_kube-Reads = record {
  configures = λ w. refl;
  connects = λ w. refl;
  retries = λ m h. h;
  lists = λ ns w. refl;
}

abbrev pub cluster_runtime : Runtime Cluster
cluster_runtime = record {
  Manager = Unit;
  new_manager = λ o w. (ok tt, w);
  get_client = λ m. cluster_client;
  setup_networks = λ m w. (ok tt, w);
  setup_participants = λ m w. (ok tt, w);
  setup_pods = λ m w. (ok tt, w);
  add_healthz_check = λ m n w. (ok tt, w);
  add_readyz_check = λ m n w. (ok tt, w);
  start = λ m w. (ok tt, w);
}

pub cluster_runtime-IsRuntime : IsRuntime cluster_runtime (λ a. a)
cluster_runtime-IsRuntime = record {
  makes = λ o w. refl;
  client = λ m. cluster_client-IsClient;
  networks = λ m w. refl;
  participants = λ m w. refl;
  pods = λ m w. refl;
  healthz = λ m n w. refl;
  readyz = λ m n w. refl;
}

abbrev pub some_json : Json
some_json = record {
  encode = λ c. ok "{}";
  pretty = λ t. t;
  decode = λ t. err (errorf "unexpected");
}

-- the same cluster, which takes no deployments
abbrev pub refused_error : Error
refused_error = errorf "refused"

is_deployment : Body → Bool
is_deployment namespace = false
is_deployment service_account = false
is_deployment (config_map _) = false
is_deployment (secret _) = false
is_deployment (cluster_role _) = false
is_deployment (cluster_role_binding _) = false
is_deployment (service _) = false
is_deployment (daemon_set _) = false
is_deployment (deployment _) = true

unfoldable pub picky_client : Client Cluster
unfolding is_deployment cluster_client
picky_client = record {
  create =
      λ o a. if is_deployment o.body then (err refused_error, a) else cluster_client.create o a;
  update = cluster_client.update;
}

pub picky_client-IsClient : IsClient picky_client (λ a. a)
unfolding picky_client
picky_client-IsClient = record {
  create-ok = λ o w h. elim (Bool-cases (is_deployment o.body)) [
    | inl t ↦ cc (rw t at h)
    | inr f ↦ rw f (cluster_client-IsClient.create-ok o w (rw f at h))
  ];
  create-err = λ o w e h. elim (Bool-cases (is_deployment o.body)) [
    | inl t ↦ rw t (λ r. refl, λ x. cc (rw t at h))
    | inr f ↦ rw f (cluster_client-IsClient.create-err o w e (rw f at h))
  ];
  update-ok = cluster_client-IsClient.update-ok;
  update-err = cluster_client-IsClient.update-err;
}
