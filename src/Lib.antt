-- ===== src/Lib.antt =====
-- kubecc distributes the compilation of C and C++ over a cluster. A consumerd on a developer's host
-- parses a compiler call (pkg/cc) and sends what may be compiled elsewhere to the scheduler
-- (pkg/scheduler), whose router gives it to an agent with an equivalent toolchain (pkg/toolchains,
-- pkg/types); the cache server (pkg/storage) answers what was compiled before; and the components
-- post their state and health to the monitor (pkg/monitor, pkg/metrics).
--
-- Which file models what:
--   Types/Key, Types/Toolchain: pkg/types/functions.go, and the messages of types.proto.
--   Scheduler/Router: pkg/scheduler/router.go. A route is an object that goroutines go on pointing
--     to, so routes stand in a list and a pointer is an index. An attached goroutine is an element
--     of `attached`; its end is `detach_at`. The deferred functions of `UpdateSenderToolchains` are
--     functions of the loop's variable that they capture. Router/History has the histories of these operations.
--   Scheduler/Messages: the state of the broker and the messages.
--   Scheduler/Broker: pkg/scheduler/broker.go. Route has `routeNewRequest`, the hook `PreReceive`
--     and `Router.Route`; Respond has `handleResponseQueue`, `cacheTransaction` and `cleanupAgent`;
--     Stream has the two goroutines of `handleAgentStream`, whose token channels are counted; Steps
--     composes the handlers, one at a time and in any order, into histories. Tracked, Routed,
--     Handled and Account follow a request, Tokens and Agents the tokens, Recovery an agent that is
--     gone.
--   Scheduler/Server: pkg/scheduler/server.go, with the statistics of broker.go. The change of a count
--     and of the condition that follows from it are steps of their own.
--   Cc/Filename, Cc/Args: pkg/cc/filename.go and pkg/cc/args.go. Tables has the sets of arguments and
--     the conditions of the parser's switch, Parse the parser, Edit the other operations.
--   Cc/Finder: pkg/cc/finder.go, with the file system a parameter. Cc/Tasks: `Run` of pkg/cc/compile.go and
--     preprocess.go, with the runs of the compiler and the temporary files as parameters.
--   Cc/Controller: `Process` of pkg/cc/controller/send.go and recv.go, over these operations.
--   Agent: pkg/agent/server.go. Consumer: pkg/consumer/path_search.go. Run: the size of the pools of
--     pkg/run/workerpool.go, where workers that have taken a stop are counted apart. Run/Contexts: the
--     pairs of contexts of pkg/run/task.go and pkg/util/context.go, as records of what a context tells.
--     Run/Tasks: pkg/run/task.go, store.go and executor.go, and pkg/util/errors.go. Run/Workers: the
--     tasks that pass through a pool, where the channel of a future task is part of its worker's state.
--   Config: pkg/config. CacheServer: pkg/cachesrv/server.go, over the operations of a storage provider.
--   Clients: pkg/clients. Streams is `StreamManager` of stream.go, whose `Run` is a state machine over what
--     its calls and timers answer, and whose conditions are those of Metrics/Health. Provider and Contexts
--     are `Post` and `PostContext` of monitor.go, Listener is its `OnProviderAdded` with
--     availability.go, Requests is scheduler.go and KeyedBuffer is keyedbuffer.go.
--   Meta: pkg/meta/context.go, for values of any type.
--   Storage/Heap, Storage/Notifier, Storage/Local: pkg/storage/local.go, from the expiration heap over
--     the notifier, whose goroutine stands at one of two selects and whose channels of one place are
--     flags, to the provider. Notifier/Lost splits `Add` into its push and what follows it.
--   Storage/Chain: pkg/storage/chain.go. Storage/S3: pkg/storage/s3.go.
--   Storage/Volatile: pkg/storage/volatile.go, over the operations of the cache library.
--   Consumerd/Queue: pkg/consumerd/queue.go and the counters of telemetry.go. A full channel's waiting
--     senders stand at the end of its list. A task that a pool selected is held for a worker, which runs
--     it or loses it with a stop.
--   Consumerd/Telemetry: the history of pkg/consumerd/telemetry.go.
--   Consumerd/Server: pkg/consumerd/server.go. Each result of `Wait` is an element of a list.
--   Toolchains/Store, Toolchains/Update: pkg/toolchains/store.go. Toolchains/Query: pkg/toolchains/query.go.
--     Monitor/Store: pkg/monitor/store.go.
--   Monitor/Server: pkg/monitor/server.go. The handlers are steps, in any order; a step that waits for
--     a mutex which nobody unlocks changes nothing.
--   Stream: pkg/stream/ringlinebuffer.go. Types/ShortId: pkg/types/loghelpers.go.
--   Metrics/Health: pkg/metrics/status.go.
--   Common: lists over native numbers, Go strings as lists of bytes, maps with string keys.
--   Tests: examples.
--
-- Bounds and fuel: `sift_down` runs on a fuel of one more than the length of the heap, and the index
-- of the loop grows with every turn; the loop of `stripUnsupportedArgs` runs on a fuel of the number
-- of arguments, and every turn removes an argument or passes one. Counters and dates are unbounded
-- numbers. A Go map is an association list, so an operation that ranges over a map does so in the
-- order of the list. An index of -1 is `none`, and a Go panic is an outcome of its own. A write of at
-- most 2048 bytes to the ring buffer is split as it is; the scanner may move a longer one in its buffer.
--
-- Parameters: the hashes of requests and toolchains (an MD5 server), the resolution of symbolic links,
-- the queries to a compiler and its runs, the temporary files, what the slices of the
-- scanner's buffer hold after a long write, the providers behind a chain, the cache library, `path.Dir`, the texts
-- of conditions, the file system, the minio client, the wire format, the parser of UUIDs, the providers
-- of metadata and the metadata of a call, the arithmetic of floating-point multipliers,
-- the merge of settings, the types of stored messages.
--
-- Not modelled: mutexes and the interleavings within a handler (each handler runs as one step), the
-- blocking of sends on the response queue, the cache's answer to a push, statistics, logging, gRPC,
-- the connections between components, Kubernetes resources and the user
-- interface.
pub mod Agent
pub mod CacheServer
pub mod Cc
pub mod Clients
pub mod Common
pub mod Config
pub mod Consumer
pub mod Consumerd
pub mod Meta
pub mod Metrics
pub mod Monitor
pub mod Run
pub mod Scheduler
pub mod Storage
pub mod Stream
pub mod Tests
pub mod Toolchains
pub mod Types
