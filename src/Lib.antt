-- ===== src/Lib.antt =====
-- Verification of gapi, the single-node agent supervision kernel: its own decision logic, written as
-- functions and proved correct. Paths below are from the repository's root.
--
-- Prelude           shared names: Boolean tests, lists over the native numbers, names (Go strings that
--                   are compared and sorted), maps of slices, texts, decimal numbers, signed integers.
-- Toposort          internal/toposort/toposort.go: `edgeSet` and `merge` (Edges), `kahn`, `stuckNodes`
--                   and `Sort` (Kahn). The proofs are in Within (what stands in an edge set), Loop (the
--                   invariant of Kahn's loop), Residue (what is emitted), Phases (soft edges), Order and
--                   Cycles (the promises of `Sort`).
-- AgentGraph        core/agentmgr/graph.go: `TopologicalSort`, which calls `Sort`; proofs in Order.
--                   Manager is manager.go: `StartAll` and `StopAll`.
-- StateMachine      core/state/base_machine.go: `BaseStateMachine`.
-- Lifecycle         core/lifecycle: the table of machine.go (States), the waits of startwait.go and the
--                   status feed (Wait), and `ApplyWithContext` of controller.go (Controller, with
--                   proofs in Starts, Outcomes, Stops and Nested). The controller uses the state machine,
--                   the waits and its resolver's answers.
-- EventBus          core/eventbus: one subscription's queue of delivery.go (Delivery), the bus of
--                   eventbus.go (Bus), and subscribe.go with waitfor.go (Subscribe), where `deliver` is
--                   a turn of a delivery goroutine. Fifo, Dispatch, Removal, Identity, Joining, Turns,
--                   Steps, OneShot and Closed hold the proofs. A run is a series of the operations `Op` in any
--                   order, since each holds the lock.
-- Capability        core/crypto/capability.go: `SignCapabilityToken`, `VerifyCapabilityToken`, and the
--                   rights (Rights).
-- Budget            core/budget/budget.go, core/schema/readiness.go, core/agentmgr/budgets.go.
-- Limits            core/cgroups/parse.go: `ParseResourceSpec` and its parsers.
-- Schema            core/schema/validator.go; it uses Limits and Budget as the source does.
-- Store             internal/db: the key-value database kvdb.go (Kv), the graph graphdb.go (Graph, with
--                   ShortestPath and the stored paths in Graph/Path), both of them side by side in
--                   hybriddb.go (Hybrid), and core/store/interface.go (Interface). Bbolt holds what
--                   they rely on of bbolt, and Memory a store that does it; Graph/Path/Pick is a queue that
--                   does what the search relies on.
-- Registry          internal/agentreg: agentreg.go and graph.go, a client of the store's interface and
--                   of Toposort: Register, and the queries and the sync (Queries).
-- Version           core/version/version.go: what is derived from the build info (Resolve), and the
--                   block that is printed (Summary).
-- Timer             core/agentmgr: schedule.go and boottime_linux.go (Schedule), timer_agent.go (Agent).
-- Runner            core/agentmgr: control_channel.go (Control), go_agent.go (Agent, Calls), adopted.go and
--                   checkpoint.go (Adopted). Each definition is what is done in one go under the mutex,
--                   and Steps puts them in a series: calls may overlap, and the watchers and the
--                   readers of the channel come in between, when they like. Heard, Once, Ends, Reported,
--                   Minded, Released and Sound hold the proofs.
-- Addresses         core/config/control_addr.go: `LiveControlAddrs` and `ReadControlAddr`, with what the
--                   directories hold at the time; proofs in Live and Complete.
-- Boot              core/supervisor/boot.go (Phase0), mounts.go and mounts_linux.go of core/mounts (Mounts),
--                   core/shutdown/shutdown.go (Shutdown).
--
-- Bounds and fuel: a run of Kahn's loop has the number of nodes as fuel, since it emits one in each
-- turn; the second phase of `Sort` has the number of soft edges and one more, since each round drops a
-- soft edge. ShortestPath has rounds as fuel, and as many as there are edges and two more are enough,
-- since each round but the first takes an item that an edge has put in the queue. Waits are lists of
-- the events that wake them. Ids of subscriptions and the counter of dropped events wrap around at
-- 2 ^ 64; an `int64` is a number with a sign, tested for its range where the source parses it, and
-- wrapped around where the source adds costs or subtracts times.
--
-- A Go string is taken to be valid UTF-8, as a text of characters; a Go map is a list in the order of
-- one walk over it.
--
-- Parameters: the clock, the runner and the resolver of a controller, the transport of the bus, the
-- protobuf codec, Ed25519, hashing and hex, bbolt, the heap, the cron parser, `time.ParseDuration`,
-- `float64`, the toolchain's build info, and the system calls behind an interface.
--
-- Not modelled: texts of errors and of log lines, metrics, marshalling, failures to publish, what a
-- client's handler does, and every part of the program whose work is system calls, files or network
-- traffic.
mod Prelude
pub mod Toposort
pub mod AgentGraph
pub mod StateMachine
pub mod Lifecycle
pub mod Capability
pub mod EventBus
pub mod Budget
pub mod Boot
pub mod Limits
pub mod Schema
pub mod Store
pub mod Registry
pub mod Version
pub mod Timer
pub mod Runner
pub mod Addresses
