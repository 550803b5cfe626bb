-- ===== src/Lib.antt =====
-- Argus, an agent harness for small models: an engine that runs a turn of model calls and tool calls,
-- and the stores around it. This library models the parts that decide what an agent may do.
--
-- Base holds shared names: Python's dict and set in insertion order (Base/Dict, Base/Lists), `str`
-- methods (Base/Text), results of calls that may raise (Base/Result), and JSON values (Base/Json).
--
-- Approvals models engine/approvals. Approvals/Types and Approvals/Policy are types.py and policy.py,
-- Approvals/Requests the log of store.py, and Approvals/Broker the class ApprovalBroker: `gate` is cut
-- at its one wait, so `gate` runs up to it and `wake` after it, and a run is any sequence of gates,
-- wakes, clicks (`resolve`) and changes of the policies. Ids drawn by uuid4 and times are arguments;
-- an id is assumed fresh where a run draws it. `gate` also awaits the surface that shows a request,
-- between the entry of the request in the log and the registration of its wait: both are one step here,
-- so a click between the two is left out. Emitting events and writing files are left out, and so is a
-- cancelled wait. The broker uses its policy through the interface PolicyApi, which
-- Profiles/Policy fills.
--
-- Loop models engine/loop.py: Loop/Words is `_value_tokens` and `_jaccard` (with fractions for floats),
-- Loop/Echo the helpers on texts and messages, and Loop/Turn, Loop/Calls and Loop/Run the body of
-- `run_loop`, cut at its early returns: a part of a pass goes on with the turn or returns. The mode, the
-- registry, the model client, the gate, the steering channel and the tools are operations on a world
-- that they may change; the loop is recursion on the steps that are left, at most `max_steps`. The
-- trace holds every emitted event, newest first, with the data that the loop decides on. What
-- `parse_response` raises goes through the loop, and so does the error that a call gives whose name is
-- no text: such a turn raises. `json.dumps`,
-- `str` of a value that is no text, and the digest of arguments are parameters.
--
-- Scheduler models engine/scheduler.py, with microseconds of the local clock, whose offset is fixed, as
-- times; a run of a job may change the jobs and the world that it is given. Scheduler/Parse is `parse_schedule`, whose
-- regular expressions are functions on words and characters; lower case and the decimal values of
-- characters are parameters.
--
-- Sessions models `SessionStore` of engine/state.py: the cache of a process over the tables `sessions`
-- and `messages`, with the log of all messages beside the working set that compaction replaces. A
-- store without a database has none in the model. `json.dumps` and `json.loads` are parameters, and
-- IsFaithful (Sessions/Restart) says that the second undoes the first.
--
-- Tools models the registry of engine/tools/base.py and engine/tools/disclosure.py: the ranking
-- (Tools/Ranking, with the tokens of engine/textmatch.py) and the disclosed view with `find_tool`
-- (Tools/Disclosed). The view holds the registry that it shares, so that both have the same tools.
-- Floats, `str.lower` and `repr` are parameters, and a schema is the fields of it that are read.
--
-- Routines models engine/routines: `validate_routine` and the store (Routines), the substitution of
-- variables (Routines/Template), and `RoutineExecutor.run` (Routines/Executor), whose tools, model,
-- notifier, clock and callbacks are operations on a world. The directory of the store is a dictionary
-- from names to the texts of files, and a listing of it is an argument; whether a file can be removed is
-- an argument of `delete`. Routines/Named is about the texts that the pattern of names matches.
--
-- Egress models engine/sandbox/egress_policy.py, with `safe_fetch` of engine/tools/net_guard.py
-- (Egress/Fetch) and the handler of engine/sandbox/proxy.py (Egress/Proxy). A lookup of a name, a
-- request, a connection and a read are operations on a world, so that the same name may resolve to
-- other addresses later. The headers are read with the limit on their bytes as fuel.
--
-- Modes models engine/modes and the result types of engine/protocol.py: Modes/Extract and Modes/Manual
-- are manual.py, Modes/Native is native.py, whose regular expressions are functions on characters
-- (Modes/Markup), and Modes/Finish is native_finish.py. A raw call is the JSON object that a provider
-- sent; `json.loads`, which raises JSONDecodeError or another error, `str` and `repr` of a value, `isalnum`
-- of a character and equality of values are parameters.
--
-- Skills models the registry of engine/skills/base.py and the selectors of engine/skills/selection, with
-- the tokens of engine/textmatch.py (Tools/Ranking); lower case and `repr` are parameters.
--
-- Events models the bus of engine/events.py, whose sinks are operations on a world.
--
-- Reliability models engine/reliability/collector.py; the rows that its store is given are a list.
--
-- Friction models `FrictionLog.record` of engine/friction.py.
--
-- Steering models engine/steering.py: the queue (Steering), the search for markers (Steering/Marker), and
-- the splice of the nonce into a request and its removal from a reply (Steering/Secret). The sentinels
-- that `secrets` draws are arguments.
--
-- Rules models the store of engine/rules/store.py and Trust that of
-- engine/experimental/trust_store.py; what their files hold at the start, the hash of a code and the
-- lower case of a text are arguments.
--
-- Profiles models engine/profiles/store.py: the permission of a tool under a profile, the store with
-- its sessions (Profiles/Store), the announcement of widened tools (Profiles/Widening), and
-- ProfilePolicy with the resolver of engine/engine.py (Profiles/Policy). A call that raises leaves the
-- store as it was. Loading the file is left out.
--
-- Not modelled: the front ends (backend), the facade and the configuration (engine/engine.py, config.py),
-- containers and the checks of created tools (engine/sandbox/podman.py, engine/experimental), the
-- updater, the benchmarks and the stores that are SQL queries are I/O around these parts. The built-in
-- tools with logic of their own are left for later.
pub mod Base
pub mod Approvals
pub mod Profiles
pub mod Loop
pub mod Steering
pub mod Rules
pub mod Trust
pub mod Scheduler
pub mod Reliability
pub mod Friction
pub mod Sessions
pub mod Tools
pub mod Routines
pub mod Egress
pub mod Events
pub mod Modes
pub mod Skills
