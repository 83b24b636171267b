-- ===== src/Lib.antt =====
-- Verification library of the game server orchestrator, a Kubernetes controller that keeps fleets of
-- game servers: it decides how many servers a fleet has, hands servers out to players, and drains the
-- servers that are to go.
--
-- The parts and their files:
-- V1alpha1: the resources of api/v1alpha1 (policies, fleets, allocations), and the fields of a pod.
-- Pool: pkg/pool/pool.go and pkg/pool/scheduler.go. Pool/State has one function for each method that
--   changes the manager (register is Register, allocate_with_filter is AllocateWithFilter, and so on),
--   Pool/Calls their histories, Pool/Query and Pool/Nodes the methods that read, Pool/Scheduler the
--   ranking, Pool/Abstract the specification of the calls, and Pool/Edits the histories on one fleet.
--   Each method holds the manager's mutex, so a history of calls is every interleaving there is.
-- Warmer: pkg/pool/warmer.go, the wait for a new server.
-- Drainer: pkg/drainer/drainer.go, the phases of a drain. Machine has the transitions, Safety the
--   runs of the protocol, Due a drain that is to be forced, and Sessions pkg/drainer/session_tracker.go.
-- Health: pkg/health, the node filter and its client. Metrics: pkg/metrics/scraper.go, and
--   Metrics/Collector pkg/metrics/collector.go. Web: what these clients use of HTTP and JSON, as an
--   interface. Notifier: pkg/notifier.
-- Scaler: pkg/controller/scaler.go, Evaluate; Scaler/Ratio has the share of healthy nodes.
-- Breaker, Cooldown and Director: pkg/controller/fleet_controller.go. Director/Sync rebuilds the
--   state from the labels of the pods, Director/Scaling scales, Director/Draining advances the drains,
--   Director/Decision weighs a decision, and Director/Reconcile is the whole reconciliation of a fleet.
--   Director/Moves takes a reconciliation apart into moves; Whole, Protection and Counting follow the
--   pool, an allocated server and the breaker through them, Endings follows one drain through many
--   calls, and Labels, Creation, Freshness, Recovery and DryRun look at single moves.
-- Allocator: pkg/controller/alloc_controller.go. Cluster: the Kubernetes client that the controllers
--   share, as an interface, and the choice of a port.
-- Api and RateLimiter: pkg/api, the handlers, the routes and the rate limit, around the allocator;
--   RateLimiter/Rate follows the limiter through many requests.
-- Apiserver and Controller: the two processes of cmd, which put these parts together. The state of
--   Apiserver is the limiter, the pool and the world; requests, reconciliations of allocation resources
--   and ticks are its steps (Apiserver/Lifetime). That of Controller is the reconciler of fleets, whose
--   pool the reconciler of allocations shares, and the world; reconciliations are its steps
--   (Controller/Runs). A step is not interleaved with another one of the same process, although up to
--   five reconciliations of fleets may run at once; what other programs do meanwhile is in the world.
-- Prelude: numbers, texts, maps and sorting, as Go has them. Examples: the tests.
--
-- The state of a component is a record and is passed explicitly. A Go map is an association list, whose
-- order is one order of a range loop. Integers are a type of integers over the native numbers; int32
-- arithmetic wraps round where the code computes with int32. Times are nanoseconds from Go's zero time.
-- float64 is an interface (Prelude/Float), since the theory has no floats; where a statement depends on
-- how a product is rounded, that is a hypothesis of it. Errors are values. A path or an address is a
-- text of code points.
--
-- Parameters of the model: the Kubernetes client and the HTTP client with a state of the outside world
-- that every call may change, the encoding of JSON, the context of a wait, the texts of numbers and
-- times, the environment and the clock. One time stands for the instants within one call. Queries for
-- nodes and sessions are taken not to change the world. Loops are structural recursions: the loop of a
-- scale-up is one on the number of pods and the loop of a wait one on the tries that are left, so no
-- fuel is used.
--
-- Not modelled: the text of JSON, logs, what net/http does before a handler (clean paths, timeouts, TLS),
-- the parsing of flags, the manager and the signals of the two main functions, and the deep copies that
-- controller-gen writes, which do I/O or keep no state of the program. The controllers' calls of the
-- recording functions of Metrics/Collector are calls of the client or of the services, which keep the
-- registry in the world; the program reads no metric back.
pub mod Prelude
pub mod V1alpha1
pub mod Pool
pub mod Drainer
pub mod Health
pub mod Scaler
pub mod Breaker
pub mod Cooldown
pub mod Cluster
pub mod Allocator
pub mod RateLimiter
pub mod Web
pub mod Warmer
pub mod Metrics
pub mod Api
pub mod Apiserver
pub mod Controller
pub mod Notifier
pub mod Director
pub mod Examples
