-- ===== src/Lib.antt =====
-- rxh, an HTTP reverse proxy, load balancer and static files server (Rust, src/).
--
-- A configuration file describes servers. Each listens on its addresses with a limit on connections and
-- has patterns: the uri of a request chooses one, which forwards the request to a backend that a
-- scheduler picks, or serves a file from a directory. A server spawns one task for each connection, and
-- on shutdown it notifies the tasks and waits for them before it drops the configuration that they share.
--
-- Which file models what:
--   Ring: sync/ring.rs (src/sync/ring.rs in the repository). Ring::new, next_index, next_as_ref and its
--     copies; the atomic counter wraps at 2^64. Ring/Threads interleaves calls of several threads, and
--     Ring/Rotation is the queue that a ring stands for.
--   Sched: src/sched/mod.rs and src/sched/wrr.rs. WeightedRoundRobin::new is push_weight, push_backends
--     and new; make and Scheduler::next_server are dispatched on the one implementation that there
--     is. Sched/Threads: the tasks of a server share its scheduler. Sched/Rotation is the abstract queue
--     of addresses that it implements; Sched/Turns counts its calls.
--   Config: src/config/mod.rs, data, defaults and Clone. Config/Deser and Config/Deser/Visit:
--     src/config/deser.rs; visit_map goes through the list of entries that the deserializer's map
--     hands out, each with the outcome of reading its value. Config/Written: the derived Serialize, and
--     the keys by which a table is read.
--   Notify: src/sync/notify.rs. The handles of a Notifier and its Subscriptions share the state of two
--     channels, which each operation takes and gives back. Notify/Protocol uses them in any order.
--   Task/Server: src/task/server.rs. Server::run, Listener::listen and the spawned tasks are one
--     transition system: what happens between two awaits or two shared effects is one function on System,
--     and Step says when it may happen. When connections arrive and end, and when the shutdown is
--     asked for, is left open, so that every schedule is covered. Task/Server/Lifecycle is the life of a
--     server as its subscribers may see it.
--   Task/Master: src/task/master.rs, with the sockets that Server::init opens. init makes the servers;
--     Task/Master/Errors has the errors and panics that run collects from its select! on, with the server
--     that select! may have joined; Task/Master/Failures says where an error of init comes from.
--     Task/Master/Run is shutdown_on and run with the servers that it spawns, one transition system over
--     those of Task/Server; when the shutdown future is ready or a server gives an error is left open.
--   Http: src/http/request.rs, src/http/response.rs, src/http/body.rs.
--   Service: src/service/mod.rs (Dispatch: Rxh::call), src/service/proxy.rs (Proxy: forward; Tunnel:
--     tunnel) and src/service/files.rs (Files: transfer). call gives back the configuration with the
--     scheduler that has gone on. Service/Session, Service/Turns, Service/Balance and Service/Answered
--     are about requests one after the other, from the configuration file on. Service/Flight is the
--     future of call from one await to the next, and the futures of many connections to one server.
--   Main: src/lib.rs (Error, display) and src/main.rs: the file is read, toml makes tables of it, visit_map
--     reads each, and the master is initialized and starts the program of Task/Master/Run.
--   Prelude: lists and texts over native numbers, Boolean tests. A text is the list of its UTF-8 bytes.
--
-- What the program uses of other packages is an interface whose laws are documented behaviour: Tokio
-- (semaphore and its check, broadcast and mpsc channels; Tokio/Counters has instances), Http.Web (uris,
-- header maps and header values; Http/Plain has an instance), Service.Upstream (connections to backends),
-- Service.FileSystem, Service.Tunnel.Tunnels, Task.Master.Sockets (Task/Master/Ports has an instance) and
-- Main.Files. Socket addresses are a type parameter with a printing function where one is needed.
--
-- Bounds. The counter of a ring is taken modulo 2^64 (usize on a 64-bit target). Theorems on whole cycles
-- say how many calls may have gone before; Ring/Wrap shows what happens at the wrap. Loops are structural
-- recursion, but Task/Server/Finish, which recurses on fuel and gives it as the work that is left plus one.
--
-- Numbers of a configuration (weight, connections) are usize in the source and natural numbers here: what
-- does not fit is refused by toml, as the outcome of reading the value, and nothing is computed from
-- them that could overflow but the cycle of a scheduler, whose length is that of a list in memory.
-- Semaphore::new panics above Semaphore::MAX_PERMITS, 2^61 - 1 on a 64-bit target. bind_server has this
-- check, Tokio.check_limit, as Server::init has it before the server runs; behind it, Task/Server takes a
-- limit of any size, and its theorems hold for those that pass.
--
-- Not modelled: log lines (output only) and the parsing of TOML (the entries of a table are given).
-- A panic of the service is a step that ends the connection of its task. The future of a file is not
-- cut at its awaits: it is ready at once, with the file system as it is then.
pub mod Prelude
pub mod Ring
pub mod Sched
pub mod Config
pub mod Tokio
pub mod Notify
pub mod Task
pub mod Http
pub mod Service
pub mod Main
