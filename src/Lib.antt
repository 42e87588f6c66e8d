-- ===== src/Lib.antt =====
-- raemote_server: a model of the server, and what makes it correct.
--
-- The server lets paired devices reach web apps of the machine that it runs on. A device pairs by
-- presenting a token over the pairing protocol (src/bind.rs), which asks the authorization state
-- (src/auth.rs); from then on it may open connections of the HTTP protocol (src/http.rs), whose
-- requests are routed by the catalog of apps (src/catalog.rs). The catalog merges configured apps
-- (src/config.rs) with those that the discovery engine finds and probes (src/discovery/). The daemon
-- (src/daemon.rs) holds these parts together and answers requests of the operator over a control
-- socket (src/ipc/); the command line (src/bin/raemote.rs) sends them and edits the configuration.
--
-- Which file models what:
--   - Auth/State, Auth/Operations, Auth/Store, Auth/Names, Auth/Secret: src/auth.rs. `AuthState` has the
--     source's fields, with the contents of the two files in place of their paths. A method is a
--     function from a state to a state and a result, named as in the source; the instants that it reads,
--     the random bytes that it draws and the outcome of its disk writes are arguments. A method holds the
--     lock while it changes the state, so that calls of several tasks are a sequence (Auth/Trace). It
--     writes its file once the lock is released: `authenticate_locked` and `revoke_locked` are what
--     happens under the lock, and in Auth/Saving the save of the set of devices is a step of its own,
--     which other calls can come before. `authenticate`, `revoke` and `set_device_name` have the save at
--     their end, so that what they leave in a file is what calls that do not overlap leave
--     there; only the theorems of Auth/Overlap and Auth/Expulsion say which devices a restart finds.
--     Auth/Policy is an abstract description of the same promises, without lists, files and machine
--     words, as a step relation. Attempt, Access, Invariant, Persistence, Overlap, Expulsion, OneTime,
--     Lockout, Redeem, NameLaws, Refinement and Simulation hold proofs.
--   - Bind: src/bind.rs. `accept` is one connection, given the free permits, what the stream
--     delivers and what becomes of the reply, whose writing can fail or come too late.
--   - Http/Routes, Http/Replies, Http/Headers, Http/Limiters, Http/Serve, Http/Upgrade: src/http.rs; an
--     answer of the server itself is the record of the fields of its JSON; `reload` in Http/Limiters is the part of src/daemon.rs that stores a new configuration. `accept_loop` takes the
--     events of a connection in turn, the calls by which other tasks change the authorization state
--     among them. `proxy_upgrade` takes the reads of the origin's connection. Routing,
--     Forwarding, Tunnel, Answers and Handover hold proofs.
--   - Config/Schema, Config/Validate, Config/Env: src/config.rs. The TOML reader is a parameter.
--   - Catalog: src/catalog.rs. The set of names in use is threaded through the loop.
--   - Discovery/Ip, Discovery/Model, Discovery/Listener, Discovery/Engine, Discovery/Run:
--     src/discovery/model.rs, src/discovery/listener.rs and src/discovery/mod.rs. The listeners of the
--     operating system and the answers of the probes are arguments of a scan, and so are the
--     configured apps that it reads again at its end, and what ends each wait of the loop in
--     Discovery/Run; Filtering, Denylist, Credible, Caching and Exposure hold proofs. Discovery/Authority has the round trip of printed origins.
--   - Discovery/Probe: src/discovery/probe.rs, the bytes, the page, the response and the exchange each in
--     a file. The reads of every exchange are an argument. Redirects, Searching and Naming hold
--     proofs. Discovery/Sockets: the tables of sockets of
--     src/discovery/proc_sockets.rs.
--   - Ipc/Protocol, Ipc/Session: src/ipc/mod.rs and src/ipc/unix.rs. A stream is the list of its reads, an
--     empty one being the end; a reader of a line drops what follows the line in the same read, as the
--     buffered reader of the source does. Handshake, Delivery and Dialogue hold proofs.
--   - Daemon/State, Daemon/Handle: src/daemon.rs. `handle` answers one request in a `World`, which has the
--     clock, the random bytes, the disk, the environment, the config file and what the polls of a wait
--     see. Errors, Requests, Invariant and Waiting hold proofs.
--   - Cli/Settings, Cli/Apps: the commands of src/bin/raemote.rs that change the configuration, `config get`
--     and `config set` from the file and the environment that they load, the others from the loaded
--     configuration, to the one that is saved. Stored and Hiding hold proofs.
--   - Logs: src/logs.rs, with the entries of the directory and the bytes of the file as arguments.
--   - Prelude, Text, HashSet, HashMap, Sort: what the source uses of the standard library. A text is a
--     list of code points, with its UTF-8 bytes where the source takes them. A hash map is an association
--     list; no theorem depends on the order in which the source iterates over one, except where an
--     output is shown to be independent of it.
--   - Tests: runs at concrete inputs.
--
-- Numbers are natural numbers; where the source adds in a machine type, the bound is written out
-- (`failed_attempts` is a u32, generations and Unix times are u64). Instants and durations are
-- nanoseconds. Fuel: the search for a free app name in Catalog has one unit more than there are names
-- in use, and decimal printing one more than the number; both are proved or seen to suffice. The loop of
-- a connection of the control socket has one unit more than there are reads left, and each round uses
-- one; a wait for a scan has as many polls as the 25 ms steps of its 3 s, and one more. Both are part of
-- the proof that a connection ends.
--
-- Node ids and their printed form (iroh) and the TOML format are records of operations and documented
-- laws, `NodeIds` and `Toml`; the parser and joiner of URLs, the conversions of header names and values,
-- JSON and lossy UTF-8 decoding are parameters.
-- Not modelled: the transport of bodies and of the bytes behind an upgrade, writing JSON,
-- connecting and listening, tasks and signals, service managers, key and lock files, the
-- proxy setting, the printing of the command line and its diagnosis.
pub mod Prelude
pub mod HashSet
pub mod HashMap
pub mod Text
pub mod Sort
pub mod Auth
pub mod Config
pub mod Daemon
pub mod Discovery
pub mod Catalog
pub mod Bind
pub mod Http
pub mod Ipc
pub mod Cli
pub mod Logs
pub mod Tests
