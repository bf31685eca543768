-- ===== src/Lib.antt =====
-- The elastic GPU agent runs on each node of a Kubernetes cluster and lets containers share GPUs.
-- Its device plugins announce units of a GPU's cores and memory to the kubelet. When the kubelet
-- allocates units to a container, `Allocate` names device links after a hash of the units' ids;
-- before the container starts, `PreStartContainer` asks the kubelet which container holds the
-- units, reads from the pod's annotation which GPUs the scheduler chose, makes the links to those
-- GPUs, and records the devices in a database. A collector removes the links and the records of
-- pods that are gone.
--
-- The parts, and the code they model:
--   Types: pkg/types. Types.Device is device.go (`NewDevice`, `Equals`, `hash`), Types.Pod is
--     pod.go (`PodContainer`, `PodInfo`, its key and value), Types.Json is what the records need
--     of encoding/json.
--   Storage: pkg/storage/storage.go over Storage.Bolt, what it needs of the bolt database.
--     Records, Iteration and Loading hold the laws of the operations, Refinement an abstract
--     store.
--   Operator: pkg/operator. Gpushare is gpushare.go (`Create`, `Delete`, `Check`) over
--     FileSystem, Nvml is the listing of the GPUs in base.go, Nvidia the operator of nvidia.go.
--   Kube: pkg/kube. Locator is locator.go (`Locate` with its search and its reconnection,
--     `List`), Sitter is sitter.go (`NewSitter` with its filter and its delete handler, what the
--     pods are, and `HasSynced`), PodResources is what the kubelet answers, Client is its client
--     (pkg/podresources/client.go), Provider is the server of pkg/podresources/server.go.
--   Common: the constants of pkg/common, and of its util.go Stacks (`DumpStacks`), Watcher
--     (`NewFSWatcher`) and Clients.
--   Plugins: pkg/plugins. Devices are the announced devices, Allocate and PreStart the two
--     handlers of gpushare.go, Gc is `GPUSharePlugin.GC` of base.go, World the state that the
--     handlers share. Server is the loop of `DevicePluginServer.Run`, Registration its `Serve`,
--     `Wait` and `Register` and the base plugin, Plugin the same of plugin.go, Factory is
--     `PluginFactory`.
--   Manager: pkg/manager/manager.go and the options of cmd/main.go. Connect is how the clients
--     are made, Run is `GPUManagerImpl.Run`, Main is `main` with `ExitSignal` and `DumpSignal` of
--     util.go.
--   Hook: cmd/elastic-gpu-hook/main.go, from the spec's environment to the toolkit's arguments.
--     Minors is `getNVidiaDevMinorAndIndexMapping`, Process is `main` with the processes that it
--     runs.
--   System: the agent as a whole. A call of a handler or of the collector is a sequence of single
--     actions on what they share (Handlers); Runs are sequences of calls, Journey is a
--     container's way from `Allocate` to its start, Hooked what the hook finds behind it, Toolkit
--     what it runs. Recorded says what the agent does not forget, Forgotten what it does, and
--     Collided is about two devices of one hash. Deletions is the way of a deletion from the
--     informer over the manager's channel to the collector. Threads are handlers of both plugins
--     and the collector call by call: Alone is a handler that nothing interrupts, Interleaved and
--     Lost are two and the collector that take turns.
--   Go: what the code uses of Go's standard library, written out: sort.Strings, strings, strconv,
--     path.Join, encoding/hex and crypto/sha256, with test vectors.
--   Prelude: shared types, operators and lemmas. Tests: the listed theorems at a concrete input,
--     with a file system, a database and a codec in memory that have the laws of the parameters.
--
-- Texts are lists of bytes, numbers are natural numbers and Go's `int` is an integer without a
-- bound, but for the parsing of numbers and the buffer of `DumpStacks`, which have that of 64
-- bits. A call that can fail returns a Result beside the state it leaves, so what was written
-- before an error stays written. The panic of a handler that writes into the nil map of a record
-- is such an error, nil_map_write: the agent's process would end there, and what System says of
-- later calls covers more than can happen. Parameters stand for code outside the repository:
-- Files (package os), BoltDb, Json, Nvml, Kubelet, PodSitter, Cluster (the informer's lister and
-- the client), ClientGo, Notify (fsnotify), Network (sockets and gRPC), Output, Host (what the
-- hook asks of the system), the signals that arrive and what Go does by default with each, the
-- parser of URLs and the reading of links; their laws are what the packages document, and each
-- call may fail for a reason of its own. A call sees one state of the kubelet and of the cluster.
-- The handlers hold a lock while they make links and write records; what System says of their
-- single actions holds for calls of different plugins and of the collector too, whose actions
-- come one by one. The keys of a record's map are visited in their order, where Go's order is not
-- fixed. The server loop is a step relation, in which the network's answers and the choices of
-- `select` are open. Loops are by recursion on their lists; the digits of a number are computed
-- on fuel of one more than the number, which is enough since each step divides by ten.
-- `DumpStacks` and the manager's polling are on fuel, with theorems that say how much is enough.
-- In Deletions a round of the collector and a call of a handler are each one step; the hook's
-- toolkit is fed the whole input; and a dump of the stacks ends before the next signal is
-- received.
--
-- Not modelled: what is logged, the workings of the Kubernetes informers and of the toolkit,
-- signals that arrive before the manager's Run has returned, generated code
-- (pkg/podresources/v1alpha1), the record of pkg/config, which nothing uses, and the vendored
-- libraries.
pub mod Common
pub mod Go
pub mod Hook
pub mod Kube
pub mod Manager
pub mod Operator
pub mod Plugins
pub mod Prelude
pub mod Storage
pub mod System
pub mod Tests
pub mod Types
