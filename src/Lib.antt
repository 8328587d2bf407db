-- ===== src/Lib.antt =====
-- Gostly AI proxy: a model of the proxy's core in antt, with the theorems about it.
--
-- The proxy records the traffic of a service in LEARN mode and replays it in MOCK mode. A request is
-- given a tenant and a normal form of its URI, and is answered from the mock library, else from a
-- response sequence, else from the resources that earlier requests created, whose states follow a
-- statechart.
--
-- Base holds what the modules share: tests, lists, text as a list of code points, splitting and
-- joining, lines, and Rust's HashMap as an association list in the order of its iteration.
-- Types holds the records of src/main.rs, Http what is read of a request's headers, Json the values
-- of serde_json.
-- Uri models the URI helpers of src/matcher.rs. Uri.Shape says what `paths_match` decides,
-- Uri.Normalize is about `normalize_uri`.
-- Tenant models `resolve_tenant`, `clamp_tenant` and `strip_tenant_param` of src/main.rs.
-- Library models `MockLibrary` of src/io.rs and the publication of an entry in src/main.rs;
-- Library.Owned is its invariant, Library.Lookup is about its answers. Library.Reload models the
-- files of src/io.rs: loading, compaction and reloads. `serde_json` is the parameter `Serde` there,
-- with `SerdeLaws` as what the log relies on.
-- Library.Reload.Coherent compares the two kinds of reload; Library.Overlap has writers of the
-- library whose loads and stores interleave.
-- Sequence models `find_sequence_response` of src/matcher.rs and the handlers of src/main.rs.
-- Statechart models src/statechart.rs with the fixtures of src/statecharts.
-- ResourceStore models src/resource_store.rs: its map, captures, transitions and deletions, and the
-- extraction of an id. The clock is an argument. ResourceStore.Disk models the log of resources, with
-- its replay and compaction; `serde_json` is the parameter `ResourceSerde` there.
-- Chaos models the globs, the endpoint rules and the path scrubbing of src/chaos.rs; Chaos.Config its
-- configuration, Chaos.Draw its random draws and the step of src/markov_chaos.rs.
-- Workload models src/workload_class.rs, with Unicode's lower case as a parameter.
-- Swap models `find_smart_swap` and its helpers in src/matcher.rs, with JSON's reading and printing as
-- the parameter `JsonSerde`; Swap.Evidence is about what it replaces and what it answers.
-- Paths models the path helpers and `resolve_upstream` of src/main.rs.
-- Proxy models the MOCK branch of `proxy_handler` in src/main.rs, which asks Library, Sequence,
-- ResourceStore and Swap in turn; Proxy.Replay and Proxy.Created are about its answers.
-- Telemetry models src/telemetry.rs and the milestones of src/main.rs, WideEvents src/wide_events.rs.
-- State is `AppState` of src/main.rs with the parameters of the handler: `Platform` for the crates,
-- `Clock` and `Draws` for the time and the random values of one request, `Task` for what is spawned.
-- Upstream is the request to an upstream, Response the responses, Learn the LEARN and PASSTHROUGH
-- branches, and Handler all of `proxy_handler`: routing, chaos, and the dispatch on the mode.
-- Learn.Redacted, Learn.Replay, Learn.Created and Learn.Unique are about what LEARN mode records;
-- Handler.Invariant, Handler.Sound, Handler.Redaction, Handler.Branches and Handler.Effect about whole
-- requests. Json.Exact says which values `serde_json` reads back as they were, for ResourceStore.Disk.
-- Storage models the sequence file, the mode file and the appended logs of src/io.rs. Admin models the
-- handlers under `/ghost`. System puts the handlers, the tasks and the reloads together as events on
-- the state, the pending tasks and the files; System.Reachable is about the states they lead to.
-- Examples applies each theorem at concrete inputs.
--
-- Shared state under a lock is passed from one operation to the next, and an `Arc` is its value. A
-- handler is one step, but for the writers of Library.Overlap; what it spawns runs later, in any
-- order. Every loop is over a list or a tree, but for the digits of a number, which run on the
-- number's successor as fuel, more than it has digits, and the suffixes of a file's name, which run
-- on its length. A sequence's counter is a u32 and wraps; a panic is `none`. Paths here are from the
-- root of the repository.
--
-- Not modelled: the timers, signals and file events that start a reload, and the metrics and log
-- lines. The command line, start-up and the router are glue around what is modelled.
pub mod Base
pub mod Types
pub mod Uri
pub mod Http
pub mod Tenant
pub mod Library
pub mod Sequence
pub mod Statechart
pub mod Json
pub mod ResourceStore
pub mod Chaos
pub mod Paths
pub mod Workload
pub mod Swap
pub mod Proxy
pub mod Telemetry
pub mod WideEvents
pub mod State
pub mod Storage
pub mod Upstream
pub mod Learn
pub mod Handler
pub mod Admin
pub mod System
pub mod Response
pub mod Examples
