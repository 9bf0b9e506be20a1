-- ===== src/Tests/SecretWorld.antt =====
-- A cluster that is its secrets: what is not there is not found, and what is there is not created again.
use anck.Prelude.{String, Option, none, some, [], string_eq, ◌≡◌, refl, ap}
use anck.Prelude.Dict.{Dict}
use anck.Prelude.Exec.{Error, not_found, already_exists, Result, ok, err, panic}
use anck.Nats.Server.{Service}
use anck.Resources.Kube.{Kube, Secret}
use anck.Resources.SecretLaws.{View, put_at, Secrets}

abbrev missing : Error
missing = record { kind = not_found; text = "not found" }

abbrev there_already : Error
there_already = record { kind = already_exists; text = "already exists" }

abbrev fetched : String → String → Option (Dict String) → Result Secret
fetched ns n none = err missing
fetched ns n (some d) = ok (record { name = n; namespace = ns; entries = d })

abbrev replaced : Secret → Option (Dict String) → View → Result Secret × View
replaced s none w = (err missing, w)
replaced s (some _) w = (ok s, put_at w s.namespace s.name (some s.entries))

abbrev dropped : String → String → Option (Dict String) → View → Result (Unit {0}) × View
dropped ns n none w = (err missing, w)
dropped ns n (some _) w = (ok tt, put_at w ns n none)

abbrev made : Secret → Option (Dict String) → View → Result Secret × View
made s none w = (ok s, put_at w s.namespace s.name (some s.entries))
made s (some _) w = (err there_already, w)

abbrev pub secret_kube : Kube View
secret_kube = record {
  in_cluster_config = λ w. (ok tt, w);
  new_for_config = λ w. (ok tt, w);
  network_new_for_config = λ w. (ok tt, w);
  retry_on_conflict = λ m. m;
  get_secret = λ ns n w. (fetched ns n (w ns n), w);
  list_secrets = λ ns w. (ok [], w);
  update_secret = λ s w. replaced s (w s.namespace s.name) w;
  create_secret = λ s w. made s (w s.namespace s.name) w;
  delete_secret = λ ns n w. dropped ns n (w ns n) w;
  create_namespace = λ n w. (ok tt, w);
  get_network = λ ns n w. (err missing, w);
  update_network = λ ns n w. (err missing, w);
  get_participants = λ ns n w. (err missing, w);
  get_pod = λ ns n w. (err missing, w);
  list_pods = λ ns w. (ok [], w);
  update_pod = λ ns p w. (err missing, w);
  get_node_labels = λ n w. (ok [], w);
}

abbrev pub secret_service : Service View
secret_service = record {
  Conn = Unit;
  connect = λ w. (ok tt, w);
  close = λ c w. w;
  sleep = λ w. w;
  server_information = λ c w. (
    ok (record {
      nats_address = "nats";
      leaf_address = "leaf";
      sys_creds = "sys";
      sys_public_key = "key";
      sys_jwt = "jwt";
      operator_jwt = "operator";
    }),
    w,
  );
  desired_state = λ c n ps w. (err missing, w);
  delete_network = λ c n w. (ok tt, w);
}

get_ok_at :
    (ns n : String) (o : Option (Dict String)) (s : Secret)
    → fetched ns n o ≡ ok s
    → (o ≡ some s.entries) × (s.namespace ≡ ns) × (s.name ≡ n)
get_ok_at ns n none s h = cc
get_ok_at ns n (some d) s h = (
  ap some (ap (λ r. elim r as (λ _. Dict String) [ ok x ↦ x.entries | err _ ↦ d | panic ↦ d ]) h),
  cc,
  cc,
)

get_missing_at :
    (ns n : String) (o : Option (Dict String)) (e : Error) → fetched ns n o ≡ err e → o ≡ none
get_missing_at ns n none e h = refl
get_missing_at ns n (some d) e h = cc

update_ok_at :
    (s t : Secret) (o : Option (Dict String)) (w : View)
    → (replaced s o w).0 ≡ ok t
    → ((replaced s o w).1 ≡ put_at w s.namespace s.name (some s.entries)) × (t ≡ s)
update_ok_at s t none w h = cc
update_ok_at s t (some d) w h = (refl, cc)

update_err_at :
    (s : Secret) (o : Option (Dict String)) (w : View) (e : Error)
    → (replaced s o w).0 ≡ err e
    → (replaced s o w).1 ≡ w
update_err_at s none w e h = refl
update_err_at s (some d) w e h = cc

delete_ok_at :
    (ns n : String) (o : Option (Dict String)) (w : View)
    → (dropped ns n o w).0 ≡ ok tt
    → (dropped ns n o w).1 ≡ put_at w ns n none
delete_ok_at ns n none w h = cc
delete_ok_at ns n (some d) w h = refl

delete_missing_at :
    (ns n : String) (o : Option (Dict String)) (w : View) (e : Error)
    → (dropped ns n o w).0 ≡ err e
    → ((dropped ns n o w).1 ≡ w) × (o ≡ none)
delete_missing_at ns n none w e h = (refl, refl)
delete_missing_at ns n (some d) w e h = cc

create_ok_at :
    (s t : Secret) (o : Option (Dict String)) (w : View)
    → (made s o w).0 ≡ ok t
    → ((made s o w).1 ≡ put_at w s.namespace s.name (some s.entries)) × (o ≡ none) × (t ≡ s)
create_ok_at s t none w h = (refl, refl, cc)
create_ok_at s t (some d) w h = cc

pub secret_laws : Secrets secret_kube (λ w. w)
secret_laws = record {
  config_keeps = λ w. refl;
  client_keeps = λ w. refl;
  get_keeps = λ ns n w. refl;
  get_ok = λ ns n w s h. get_ok_at ns n (w ns n) s h;
  get_not_found = λ ns n w e h k. get_missing_at ns n (w ns n) e h;
  update_ok = λ s t w h. update_ok_at s t (w s.namespace s.name) w h;
  update_err = λ s w e h. update_err_at s (w s.namespace s.name) w e h;
  delete_ok = λ ns n w h. delete_ok_at ns n (w ns n) w h;
  delete_not_found = λ ns n w e h k. delete_missing_at ns n (w ns n) w e h;
  create_ok = λ s t w h. create_ok_at s t (w s.namespace s.name) w h;
}
