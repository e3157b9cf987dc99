-- ===== src/Lib.antt =====
-- A verification library for llama-skein, the host daemon that loads, swaps and serves local
-- language models. Paths are from the root of the repository.
--
-- Parts of the program and the files that model them:
--
-- * The run loop of a router (internal/router/base.go): Router. One goroutine owns the active
--   swaps, the in-flight counts and the queue; `Router` is that state, `step` is one turn of its
--   `select` and `run` a history. Each handler has its Go name in snake case. Where the Go code
--   mutates maps and a slice, a handler here returns the next state. Requests are known by an
--   identifier that stands for their channels; `answers` collects what was sent to them. Whether
--   a caller is still there is an argument (`Alive`), so every outcome of the race in `grant` is
--   covered. The states of the processes are a snapshot that an event `observes` replaces, and
--   the planner is a parameter. Proofs: Router/Cases has the branches as induction principles,
--   Router/Stable lifts a property of the small steps to the handlers; Router/Conservation,
--   Departures and Delivery count the requests; Router/Compatible and Swaps, InFlight, Wakeups
--   and Admission hold the other properties. `handle_shutdown` is the last turn of the loop;
--   Router/Outcome has what the goroutine of a swap (`doSwap`) starts and reports, which reaches
--   the loop as an event `swap_done`.
-- * A backend process (internal/process/process_command.go, failureclass.go): Process. `Backend`
--   holds the variables of the goroutine `run`, and `turn` is one turn of its loop; a request
--   that comes during a start is part of the event of that start, because the inner select
--   receives it. Whether a kill is confirmed and how a start turns out are in the events. Sound
--   and Single have the invariant, Counts, Pending and Answers count the requests, Crashes and
--   Window have the exits on record, Breaker the crash-loop breaker and Classes the failure classes. Launching, signalling and probing the
--   operating system's process are not modelled.
-- * The planners (internal/router/group.go, matrix.go, matrix_solver.go): Group and Matrix. A Go
--   map is an association list, and its iteration order is the order of that list. A total of
--   costs is the 64 bits of an int.
-- * Installations (internal/operation): Operation has the record and its phases (operation.go,
--   transitions.go), Operation/Store the directory of records (store.go), Operation/Restart the
--   pass at startup (recover.go). A file holds a record that decodes or does not; whether a write
--   succeeds is an argument, and a removal in `Prune` succeeds. Sums of sizes are 64-bit
--   patterns.
-- * The install executor (internal/operation/executor.go, source.go, diskspace.go, cleanup.go):
--   Operation/Executor has the state of one `Run` (`World`: the files, the store and the record
--   that the run owns), what the host answers (`Host`) and the round trips to the store; before
--   each of them the other writers save what `Host.others` says, so a cancellation can come at
--   any point. Transfer has the downloads, Content the checks and the renames, Run the whole
--   sequence; Operation/Source composes addresses and destinations. Trace, Steps and Ends follow
--   the stored record through a run, Verified, Installed and Success the files, Resume one
--   download, Primary the choice of the weights, Space the preflight and Cleanup the removal of
--   partial files. A response body is the sequence of its reads. The other writers touch the
--   store and no files.
-- * The ladder of safer placements (internal/placement/ladder.go, and escalateIfMemoryFailure of
--   internal/server/placementretry.go): Placement. The planner is an argument; `escalations` is a
--   history of calls for one model. Ladder has the choice of a rung, History the retry state.
--   Reasons and deadlines, which only reach the log and the router, are left out.
-- * Names of split weights (internal/operation/shard.go): Shard, on lists of bytes.
-- * The response cache (internal/cache/cache.go): Cache, with its sizes in Cache/Sizes and what
--   `Add` keeps in Cache/Bounded. A byte string is a list of numbers.
-- * The ring buffer (internal/ring/buffer.go): Ring.
-- * The memory guard (internal/server/memguard.go): MemGuard has `Observe` and the loop that
--   calls it; reading the memory of the host is outside, a sample is an input. The cooldown is the
--   64 bits of a time.Duration.
-- * The expressions of the swap matrix (internal/config/matrix_dsl.go): Dsl has the syntax tree,
--   its expansion and `dedupAndSort`, Dsl/Lexer the tokenizer, Dsl/Parser the recursive descent
--   and Dsl/Pipeline `ParseAndExpandDSL` and `extractRefs`. The tables of the package unicode are
--   a parameter. Dsl/Parser/Grammar is the grammar as derivations, which the parser follows;
--   Dsl/Parser/Complete has that it misses none, Dsl/Parser/Rest and Dsl/Lexer/Ends are about
--   the end of the tokens. The parser and the
--   tokenizer run on fuel: 8 for each token and 8 more, 1 for
--   each character and 1 more; Dsl/Parser/Fuel and Dsl/Lexer/Fuel show that it is enough.
-- * The checks on the swap matrix (internal/config/matrix.go): SwapSets has `ValidateMatrix` and
--   `topologicalSort`, whose recursion runs on fuel, one more than there are sets. Marks and
--   Order have what holds of the marks and of a visit, Sorted the result of the sort, Checks the
--   first checks, Dependencies the graph of references, Refused the errors, Expansion the expanded
--   sets, which are the input of Matrix, and References what the expansion looks up; that rests on
--   Dsl/References, Dsl/Parser/References and Dsl/Pipeline/References, which follow a reference
--   from the text to the expansion.
-- * The log monitor (internal/logmon/logging.go): LogMonitor. Unrolled reads the circular buffer
--   from its oldest byte on, Written has one write and History a history of uses. The size of the
--   buffer is a field.
-- * The runner of config reloads (internal/server/reloadrunner.go): Reload, as a step relation on
--   the shared variables and the goroutines; Passes has the passes.
--
-- Base and its children have the shared names: lists measured by native numbers, Go maps as
-- association lists, byte texts, sorting. Each component has a module Samples with tests and with the
-- theorems at concrete inputs.
--
-- All other loops are structural recursion over the list the Go code ranges over, without fuel.
--
-- Not modelled: the HTTP handlers of internal/server, which pass requests on to the parts above; the
-- estimates of internal/fit and the planner of internal/placement, which compute with floating-point
-- sizes; the monitors of internal/perf and internal/thermal, the runtime, tuning and watcher
-- packages, which read the operating system and its tools; the decoding of YAML and JSON, which
-- libraries do; locks, channels and the text of log messages; and proxy, the former server, which
-- only the command cmd/legacy still builds.
pub mod Base
pub mod Operation
pub mod Shard
pub mod SwapSets
pub mod Router
pub mod Matrix
pub mod Group
pub mod Cache
pub mod Reload
pub mod Ring
pub mod LogMonitor
pub mod MemGuard
pub mod Dsl
pub mod Process
pub mod Placement
