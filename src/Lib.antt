-- ===== src/Lib.antt =====
-- Verification library of talisman, which upgrades and deletes a Portworx installation in a
-- Kubernetes cluster.
--
-- The program's parts. `cmd/talisman` reads the operation from the command line and makes a cluster
-- provider (`pkg/cluster/px/px.go`, `NewPXClusterProvider`), whose `Upgrade` and `Delete` call the
-- API server through the clients of sched-ops. `pkg/k8sutils/k8sutils.go` finds the applications
-- that share Portworx volumes, scales them down before an upgrade and restores them after it.
--
-- The model. A Go call is an `Action` (Go.Results): it takes the state of the cluster and returns a
-- value, an error or a panic, and a new state. Loops are recursion on the list that they range
-- over; `defer` is `with_defer`. The state itself is unknown: the clients (Kube.Clients) are records
-- of actions that the definitions take as an argument, and the theorems name what they rely on of
-- them. `task.DoRetryWithTimeout` is a parameter too (Go.Retry): a call of it is one of the finite
-- runs that `Attempts` lists, which end with success, with an error that forbids a retry, with a
-- panic, or at the deadline, so no fuel is chosen; the witnesses use a retrier of a few rounds. It
-- runs the task in a goroutine of its own without a recover, so a panic of a task is marked as
-- `in_goroutine`: it ends the process, and `with_defer` runs no cleanup after it. `wait.Poll` runs
-- its condition in the goroutine of the caller (`Runs same_goroutine`). A failed update of a
-- deployment may have been carried out; one of a stateful set is taken as not carried out
-- (K8sutils.Scaling.Store), since the code would remember a wrong count.
--
-- The files.
--   Common, Go, Kube: shared helpers, Go's results, retries, numbers and texts, and the objects and
--     clients of Kubernetes; Kube.Presence says what it is to delete an object.
--   K8sutils: `pkg/k8sutils/k8sutils.go`. Apps is `GetPXSharedSCs` and `GetPXSharedApps`; Scaling is
--     `ScaleSharedAppsToZero` and `RestoreScaledAppsReplicas` (Change the body of the tasks, Tasks
--     the loops, Store what they rely on of the API server, Cluster the theorems); Pods is
--     `IsAnyPXAppPodUnmanaged` and what it calls, and `GetSecret`.
--   Px: `pkg/cluster/px/px.go`. Names has the constants, Ops the state of the provider, its options
--     and its creation, Daemonsets `getPXDaemonsets`, Version `parsePXVersion`, Drain the decisions
--     to drain and to scale down, Timeouts `getDaemonSetReadyTimeout`, Permissions
--     `updatePxSecretsPermissions`, Env `getEnv` and `setEnv`, Api the service ports,
--     `checkAPIDaemonset` and `checkAPIService`, ClusterRole and Rollout `upgradePX` (Plan what is
--     made of a daemon set, Trigger and Wait the tasks, Sending, Started and Observed what holds after
--     them), Config
--     `parseConfigFromDaemonset` and `extractEnv` (Args the flags and `splitCSV`, Settings the
--     command lines), Kvdb
--     `getKVDBClient` and `wipePXKvdb`, Detach `waitTillPXSharedVolumesDetached`, Upgrade `Upgrade`
--     and `preFlightChecks` (Quiet, Calls and Rolling are about the calls that leave the applications alone,
--     Reading, Checks and Preflight which only read, Guarded what is checked first),
--     Wiper `runPXNodeWiper` and `runDaemonSet`, Delete `deleteAllPXComponents` (Laws the objects of
--     an installation, Rules, Parts, Listed and Loops the proofs, Complete the theorem), and Remove
--     `Delete`.
--   Crd: `pkg/crd/crd.go`. Cmd: `cmd/talisman/talisman.go`, `main` and its three operations.
--   Informers: `pkg/client/informers/externalversions`, the factory of `factory.go` (Runs and Sharing
--     what holds for every sequence of its calls) and Resources, `generic.go` with the informers of
--     `portworx`. Kube/Machinery is what they use of client-go.
--   Clientset: `pkg/client/clientset/versioned/typed`, the typed clients, whose requests are the calls
--     of client-go's builder (Requests); Server is what they rely on of the API server, History
--     their calls one after the other. Construction is `clientset.go` with `portworx_client.go`, Shared
--     the configurations that its clients are made with.
--   Listers: `pkg/client/listers`, which read the indexer of an informer (Indexed).
--   Apis: `pkg/apis/portworx`, the types of the two versions (V1beta1, V1beta2, over the types of
--     Kubernetes in External) and Copy, their deep copies, over a memory of cells (Go.Memory, Cells);
--     Models says what data in memory stands for, Strategies, Clusters and Lists what the copies do.
--   Api: the part of the custom resource that the code reads. Openstorage: the clients of Portworx.
--   Tests: runs on small clusters, and the theorems at concrete data.
--
-- Numbers. An `int32` count of replicas is a ℤ of that range; a `time.Duration` is its value modulo
-- 2 ^ 64. Texts are sequences of characters; the program's texts are ASCII where it matters.
--
-- Not modelled: the fakes of the clients, which are test doubles, the registration of the API types,
-- logging, the parsing of flags, shell scripts, the vendored libraries, and `k8sutils.New`. The reader
-- of CSV text, `intstr.Parse`, the library of kvdb, the clients of openstorage, and of client-go the
-- requests, indexers, informers and constructors are parameters.
pub mod Common
pub mod Go
pub mod Kube
pub mod Api
pub mod Apis
pub mod Openstorage
pub mod K8sutils
pub mod Px
pub mod Crd
pub mod Informers
pub mod Clientset
pub mod Listers
pub mod Cmd
mod Tests
