-- ===== src/Lib.antt =====
-- Verification of anck, the operator that gives the components of an application access to NATS networks:
-- it keeps the credentials of each network in secrets, creates the network's streams in the domains of the
-- nodes that participate, and follows the pods of the nodes.
--
-- Parts and files. The program reconciles resources: a `Network`, its `Participants`, and pods.
-- - Api (apis/network/v1alpha1): the resources as records, field by field.
-- - Common (pkg/common, controllers/network/common.go): constants and the slice helpers.
-- - Nats: Creds (pkg/nats/creds.go, and ParseCredsString of pkg/jetstreams/jetstreams.go), Config
--   (pkg/nats/config.go; Config.Json has the structs as JSON by their tags), Json (the JSON values, and how
--   encoding/json reads a field), Server (pkg/nats/server.go with Dial of pkg/grpc/client.go).
-- - Dapr (pkg/dapr/dapr.go): the Dapr component of a network and its options.
-- - Jetstreams (pkg/jetstreams): Messages (domainMessages.go); of jetstreams.go, Duration
--   (parseDurationString), StreamConfig (createJetstreamConfig), Sources (the sources of aggregates and
--   mirrors), Controller (the methods of JetstreamController); Jsm is the interface to nats.go and jsm.go.
-- - Resources (pkg/resources): Secret (secret.go, clientset.go), Others (namespace.go, network.go, nodes.go,
--   pod.go); Kube is the interface to client-go, SecretLaws and SecretErrors what the API promises of secrets.
-- - Controllers (controllers/network): Participating (the pods of nodes: networkNodeState and the cases of
--   reconcileJetstreams), NodeStreams (the loop over the nodes and the attempts to make streams), Streams
--   (reconcileJetstreams, main_jetstreams.go), Secrets (secret.go), DaprSecrets (dapr.go), Finalizers,
--   Participants (participants_controller.go), Pods (pod_controller.go), Networks (network_controller.go);
--   SliceLib is the interface to the two packages of slice functions. Life has the histories of a network:
--   the pod handlers, the reconciliations and the changes of the components in any order, as a step relation,
--   with their specification, and the reconcilers that interleave over a store with versions.
-- - Additional (pkg/additional): Objects (the fields of the manifests), Client (the interface to the client
--   of controller-runtime), Apply (apply.go), NodeDns, AnckCredentials, LeafNats, NatsResolver (the file of
--   each name), Ready (when the objects of a cluster fit together), Laws and Errors (what is left in it).
-- - Start (main.go): main up to the start of the manager, and waitForAnckCredentials.
-- - Text: what the code uses of Go's package strings. Prelude: equality, lists, maps, integers, and calls
--   that act on a world and return an error (Exec).
-- - Tests: concrete instances of all interfaces, which satisfy their laws, and runs on them.
--
-- Correspondence. A Go function is the definition with its name in snake case. A function that calls
-- something outside is a function of a world `W` to a result and a world: a value, an error, or a panic; what
-- was done before an error stays done, and a deferred call is made in every case. A network that a caller
-- passes by a pointer is a variable beside the world (Streams, Networks). A Go map is an association list
-- whose order stands for the order, left open by Go, of `range`; the theorems hold for every order. A nil
-- slice or pointer that the code tells apart is an `Option`. Numbers of 64 bits wrap around in Duration, the
-- only place where the program multiplies them.
--
-- Bounds. The loop of `Dial` is a recursion on the number of attempts, which its callers fix at 10 (a timeout
-- of 10 seconds over a pause of one); the poll of waitForAnckCredentials is a recursion on the number of
-- polls that are made before the timeout, which the theorems leave open; all other loops recur on the list
-- that they range over, and no fuel is used. `retry.Do` is a parameter with the laws that it calls its
-- argument at least once, that nothing else assigns to the variables of the argument, and that it stops at a
-- success.
--
-- Parameters. client-go and controller-runtime (Kube), the service anck-credentials (Service), nats.go,
-- jsm.go and the file system (Jsm), strconv, time and unicode (Std), the slice functions (SliceLib),
-- `retry.Do` (Retry), `yaml.Marshal`, the text of JSON (Json), the manager (Runtime). Where a theorem relies on
-- what they do, it takes a record of laws as a hypothesis.
--
-- Not modelled: log lines and prints; the pauses between attempts; the result that comes with a returned
-- error, which controller-runtime does not look at; the parts of error texts that print lists; the texts of
-- JSON and YAML; the generated clients and deep copies, and the registration of types with the scheme.
pub mod Prelude
pub mod Common
pub mod Text
pub mod Nats
pub mod Dapr
pub mod Api
pub mod Jetstreams
pub mod Resources
pub mod Controllers
pub mod Additional
pub mod Start
pub mod Tests
