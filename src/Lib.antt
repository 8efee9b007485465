-- ===== src/Lib.antt =====
-- A model of the server of kubevirt-webgui, the Rust program under src/ of the repository, with
-- theorems on what it does.
--
-- The server stands between browsers and a Kubernetes cluster with KubeVirt. A browser speaks with it
-- over WebSockets; it makes every call to the API server as the signed-in user, follows long work as
-- tasks, proxies consoles and streams disk images to CDI. A node agent in the same program keeps the
-- NAT of pods as an annotation asks.
--
-- Base: texts as lists of code points, `Result`, ordered sets as lists (`BTreeSet`), tables as
--   functions (`HashMap`), and the lemmas on them that the other files share.
-- Cluster, Cluster/Paths: src/cluster/paths.rs. `valid_segment` and `segment` check one part of a path,
--   `ResourceRef` names an object, `path` builds its path and `with_query` adds parameters. The
--   encoding of parameters is an argument, with what it does as a hypothesis.
-- Cluster/Discovery: src/cluster/discovery.rs. `serves` tells whether the cluster has what an extension
--   requires; `get` and `refresh_unless_recent` are the cache, and what a scan gives is an argument.
-- Auth: src/auth.rs. `login`, `resume` and `renew` in Auth/Login, `whoami` in Auth/Whoami; Auth/Accepted says
--   who is signed in, Auth/Resumed what a ticket gives back. The encryption of tickets, the decoding of a
--   token and the API server's answers are arguments.
-- Cluster/Clients: src/cluster/mod.rs. `client_for` is the cache of clients; the hash and the building of a
--   client are arguments.
-- Base/Json, Cluster/Watch: src/cluster/watch.rs, with `slim` of src/cluster/mod.rs. `Machine` is the loop of
--   `run`, `list` and `watch`, `step` what it does with a page, the end of a pause, a stream or a line of
--   it, and `request` the next request. Watch/Contract says what the API server documents, Watch/Views
--   and Watch/Gathered what the loop makes of it, Watch/Mirror that subscribers have what the cluster has, Watch/Ends how the loop pauses and ends.
-- Rpc: src/rpc.rs. `install` registers the methods and topics of an extension; Rpc/Calls has the guards
--   of `call` and `subscribe`, up to the handler that runs.
-- Metrics: src/metrics.rs. `record_sample` is `record` and `history` is `history`; the measured
--   values, floating-point numbers, are a type argument, and times are not before 1970.
-- Tasks: src/tasks.rs. `Store` is the heap of entries behind the `Arc`s with the list of the manager
--   and the events that were broadcast; Tasks/Handle has the methods of a handle, Tasks/Manager those
--   of the manager, and Tasks/Runs the interleavings of calls, each call taking its locks once.
-- Gateway/Upload: src/gateway/upload.rs. `Connection` is one socket with the session that it shares
--   with the task of the upload. Gateway/Upload/Tickets is how it is opened; `on_connect`, `prepared`
--   (the task that prepares), `on_message` and `on_close` are the handler, and Gateway/Upload/Runs what
--   else may happen in between. The answers of CDI's proxy and the printing of numbers are arguments.
-- Gateway/Origin: src/gateway/mod.rs, `origin_allowed`, by which every socket is refused or opened.
-- Gateway/Socket: src/gateway/mod.rs with `Conn` and `Sink` of src/rpc.rs. `on_message` and `on_close` are
--   the handler of a socket, the tasks that it spawns run in polls, and Gateway/Socket/Runs says in which
--   orders: the messages of one socket come one after the other, polls of tasks in between. Reading a frame
--   and what a handler answers are arguments.
-- Gateway/Console: src/gateway/console.rs. `issue` and `redeem` are the tickets, `on_connect` the
--   opening of a console. The random text of a ticket and the upstream connection are arguments.
-- Netagent/Plan: src/netagent/plan.rs. `commands` plans the commands for one pod; `Host` in
--   Netagent/Plan/Kernel says what each command of `iptables` and `ip` changes, and is a parameter of
--   every theorem.
-- Netagent/Annotation: src/netagent/plan.rs. `parse` checks the annotation, `cidr` rewrites its ranges;
--   Annotation/Formats says which texts the checks accept.
--   Reading the list, and reading and printing addresses and numbers, are arguments.
-- Netagent/Counts: src/netagent/plan.rs. `owned_rules`, `bridge_for` and `packet_counts`.
-- Netagent/Agent: src/netagent/mod.rs. `resolve` fills in an entry, Agent/Status has `apply` with the
--   summary of outcomes, Agent/Passes `report`, `reconcile` and `tick`. What src/netagent/host.rs
--   answers, the clock and the API server are arguments.
-- Migration: src/extensions/migration.rs. `label` and `parse_transfer`; floating-point numbers are a
--   type argument, and reading numbers and times is an argument.
-- Spa: src/spa.rs. `safe_plugin_path` and `plugin_file`; the reading of a file and the guess of its
--   type are arguments. Spa/Inside says how a path is followed in a file system without links.
-- Storage: src/extensions/storage.rs. `claim_size`.
-- Proxmox/Allow, Proxmox/Names: src/proxmox/mod.rs. `resolve` gives the address that an import connects
--   to: Allow/Masks says what the masks of a network keep, Allow/Laws which addresses are covered. The
--   reading of an address and the lookup of a name are arguments. Names has `valid_volid`.
-- Proxmox/Config: src/proxmox/config.rs. `parse` reads the configuration of a Proxmox VM: Config/Props its
--   property strings, Config/Keys the order of its keys, Config/Devices the loop over them, Config/Vm the
--   rest; Config/Entries tells the entries that are disks from their texts. Base64, the product of a size and its unit (floating point) and the printing of numbers are
--   arguments.
--
-- Consoles and uploads are opened by tickets whose names have passed the checks of Cluster/Paths;
-- uploads report to tasks.
--
-- Every function is total by structural recursion. The loop of `label` is on fuel, one round more than
-- there are characters, each round leaving fewer. Times are arguments and natural
-- numbers. Sums of byte counts are written without wrap-around: a count never exceeds the declared
-- size by more than one message. A message for people is kept as its format and its arguments where
-- nothing reads it. `to_lowercase` is that of ASCII texts, which is what hardware addresses are.
--
-- Not modelled: serialization, HTTP, TLS and the WebSocket protocol, which are libraries; the tokio
-- runtime, whose scheduling is the order of steps; the transport of an upload to CDI's proxy, whose
-- answers are arguments; the frames of an open console; the other RPC methods, extensions and the web
-- frontend.
pub mod Base
pub mod Auth
pub mod Cluster
pub mod Tasks
pub mod Metrics
pub mod Migration
pub mod Rpc
pub mod Gateway
pub mod Netagent
pub mod Spa
pub mod Storage
pub mod Proxmox
