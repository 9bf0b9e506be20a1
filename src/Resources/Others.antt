-- ===== src/Resources/Others.antt =====
-- pkg/resources: namespace.go, network.go, nodes.go and pod.go.
use anck.Prelude.{String, none, some, List, [], ◌∷◌, ◌==◌, string_eq, if◌then◌else◌}
use anck.Prelude.Dict.{Dict, lookup, insert, erase, has_key}
use anck.Prelude.Exec.{Exec, is_already_exists, pure, ignoring, ◌>>=◌, ◌>>◌}
use anck.Api.{Network}
use anck.Resources.Kube.{Kube, Pod}
use anck.Resources.Secret.{clientset}

-- The loop `for _, v := range labels {delete(labels, v) }` over the entries that are still there: it
-- deletes the keys that are spelled like a value.
unfoldable pub remove_values : List (String × String) → Dict String → Dict String
remove_values [] labels = labels
remove_values ((k, v) ∷ entries) labels =
    remove_values entries (if has_key k labels then erase v labels else labels)

unfoldable pub set_label : String → String → Dict String → Dict String
set_label key value labels = elim (lookup key labels) [
  | none ↦ labels
  | some val ↦ (if val == value then labels else insert key value labels)
]

module _ {W : Type 0} (kube : Kube W) where
  -- `CreateNamespace`: one that is there is no error
  unfoldable pub create_namespace : String → Exec W (Unit {0})
  create_namespace namespace = do
    clientset kube
    ignoring is_already_exists (kube.create_namespace namespace)

  -- `SetupNetworkClientset`
  unfoldable pub setup_network_clientset : Exec W (Unit {0})
  setup_network_clientset = do kube.in_cluster_config; kube.network_new_for_config

  unfoldable pub get_network : String → String → Exec W Network
  get_network name namespace = do setup_network_clientset; kube.get_network namespace name

  unfoldable pub update_network : Network → String → Exec W Network
  update_network network namespace = do
    setup_network_clientset
    kube.update_network namespace network

  -- `SetNetworkAccountName`: the network is read again, so what was changed in memory is not written
  unfoldable pub set_network_account_name : Network → String → Exec W Network
  set_network_account_name network account_name = do
    setup_network_clientset
    current ← kube.get_network network.meta.namespace network.meta.name
    kube.update_network current.meta.namespace
        (record current { info = record current.info { used_account = account_name } })

  unfoldable pub get_node_labels : String → Exec W (Dict String)
  get_node_labels name = do clientset kube; kube.get_node_labels name

  unfoldable pub list_pods : String → Exec W (List Pod)
  list_pods namespace = do clientset kube; kube.retry_on_conflict (kube.list_pods namespace)

  unfoldable pub get_pod : String → String → Exec W Pod
  get_pod name namespace = do clientset kube; kube.retry_on_conflict (kube.get_pod namespace name)

  unfoldable pub pod_status : String → String → Exec W String
  unfolding get_pod
  pod_status name namespace = do pod ← get_pod name namespace; pure pod.phase

  unfoldable pub update_pod : Pod → Exec W Pod
  update_pod pod = do clientset kube; kube.update_pod pod.meta.namespace pod

  -- `RemovePodLabels`; the argument with the labels is not read
  unfoldable pub remove_pod_labels : String → String → List String → Exec W (Unit {0})
  remove_pod_labels name namespace labels = do
    clientset kube
    kube.retry_on_conflict (do
      pod ← kube.get_pod namespace name
      kube.update_pod namespace (record pod { labels = remove_values pod.labels pod.labels })
      pure tt)

  -- `UpdatePodLabel`
  unfoldable pub update_pod_label : String → String → String → String → Exec W (Unit {0})
  update_pod_label name namespace key value = do
    clientset kube
    kube.retry_on_conflict (do
      pod ← kube.get_pod namespace name
      kube.update_pod namespace (record pod { labels = set_label key value pod.labels })
      pure tt)
