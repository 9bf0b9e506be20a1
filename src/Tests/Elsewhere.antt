-- ===== src/Tests/Elsewhere.antt =====
-- A pod on a node that is no edge node, and the node `main`.
use anck.Prelude.{String, ◌≡◌, ◌≢◌}
use anck.Controllers.Participating.{state_at, network_node_state, pod_created, pod_terminating}
use anck.Controllers.Participating.Elsewhere.{pod_elsewhere}
use anck.Tests.Slices.{slices}
use anck.Tests.NetworkWorld.{nodes}

abbrev main : String
main = "main"

main-ne : main ≢ "worker"
main-ne h = cc

pod_elsewhere_example :
    (network_node_state (pod_created slices "worker" "p" nodes) main
      ≡ network_node_state nodes main)
    × (state_at (pod_created slices "worker" "p" nodes).nodes main ≡ state_at nodes.nodes main)
    × (network_node_state (pod_terminating slices "worker" "p" nodes) main
        ≡ network_node_state nodes main)
    × (state_at (pod_terminating slices "worker" "p" nodes).nodes main ≡ state_at nodes.nodes main)
pod_elsewhere_example = pod_elsewhere slices "worker" "p" main nodes main-ne
