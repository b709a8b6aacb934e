-- ===== src/Lib.antt =====
-- A verification library for kunobi-daemon, a crate with which a local daemon is found, talked to,
-- drained and replaced by a newer version of itself without losing work.
--
-- The parts and how they meet. A daemon owns a service (src/identity.rs names it). A client
-- connects and both sides compare offers and agree on a protocol (src/wire.rs), after the daemon
-- has admitted the connection to a budget (src/admission.rs) and to its generation
-- (src/generation.rs). Each operation on the connection holds a guard of the request gate
-- (src/lifecycle.rs), which a shutdown closes and waits for. An upgrade is driven by one process
-- (src/replacement.rs, or with one lock and a probe in src/upgrade.rs), watched by the others
-- (src/selection.rs), and tried again within a budget (src/retry.rs). A daemon announces its state
-- to watching clients (src/control.rs). A child on Windows is started with a command line
-- (src/local/command_line.rs), and tells its launcher over a channel when it is ready
-- (src/readiness/channel.rs). A relay in front of a daemon keeps the client's connection while the
-- daemon behind it is replaced (src/transport.rs). What a daemon lets a peer do, when its accept
-- loop (src/serve.rs) has a connection, is a policy on the peer's credentials (src/peer.rs), and
-- where it is found is a record that is published in one step (src/publication.rs). Where it
-- listens is a path that fits (src/socket_path.rs), and what it does is counted for its owner
-- (src/observation.rs).
--
-- Which file models what. Each component is one file with its definitions, and child modules for
-- what is proved of it; `Examples` has runs and the theorems at concrete inputs.
--   Retry          src/retry.rs: Policy, State and its methods allowed, reserve, exhaust, next.
--   Replacement    src/replacement.rs: Machine (advance, failure); Driver is the loop of `run`, one
--                  turn at a time, which also keeps a log of what the adapter was asked.
--   CommandLine    src/local/command_line.rs: command_line, needs_quotes, append_argument. Reader
--                  is an independent description of how Windows splits a line into arguments.
--   Identity       src/identity.rs: ServiceIdentity::new.
--   Wire           src/wire.rs: Terms, Agreement, negotiate, Refused, required_capability and
--                  Session::check; Framing has Framed and the methods send and receive of Framed
--                  and Session, and Handshake has Session::connect, accept and refuse. The
--                  messages are the structs of src/wire/generated.rs.
--   Control        src/control.rs and src/control/watch.rs: ControlService and what it announces;
--                  Watching has the rounds of serve_watch, with whatever other tasks do before each
--                  of a round's reads, and the checks of WatchClient.
--   Admission      src/admission.rs: Admission and Permit.
--   Lifecycle      src/lifecycle.rs: Lifecycle and RequestGuard; Drain has the steps of the task
--                  in `drain` and all its interleavings with other calls.
--   Generation     src/generation.rs: Generation and SessionLease; Leases has histories of calls.
--   Selection      src/selection.rs: Watch; Waiting is the loop of await_selection.
--   Backoff        src/backoff.rs: poll and next_pause.
--   Readiness      src/readiness/channel.rs: parse, progress_line, Decoder, Tracker and Shared::post;
--                  Reading has read_messages and Channel::wait.
--   Transport      src/transport.rs: Outstanding has the tracked set, its guards and its waiting
--                  callers; Writer is WriterSlot, and Pump has pump_upstream and pump_downstream.
--   Peer           src/peer.rs: Credentials, SameUser, ExpectedProcess, First and authenticate.
--   Publication    src/publication.rs: publish_record_with on Unix; Slot is RecordSlot.
--   Serve          src/serve.rs: Serve::run, its accept loop as turns, and finish.
--   Upgrade        src/upgrade.rs: ensure_current in any number of processes, one await at a time,
--                  each with its own test, while the daemon comes and goes, with
--                  ProcessLock::acquire_async of src/ownership.rs.
--   Observation    src/observation.rs: Observations, its queue and counters, and ObservedIo.
--   SocketPath     src/socket_path.rs: SocketName, SocketDir and check_socket_path.
--   Common         shared names, Boolean tests, lists, results, 64-bit words and their bits.
--
-- How code becomes definitions. A method on a value becomes a function on its record and returns
-- the record; a method that holds a mutex, or one atomic update, is one step. An io::Result is a
-- Result whose error names the message. Instants and durations are numbers of nanoseconds, and
-- saturation and wrapping are written out. A text is the list of its bytes or UTF-16 units. A
-- tokio watch channel is the number of messages sent on it, and a receiver the number that it has
-- seen. A condition variable is the number of callers asleep on it and of those that it woke, and
-- a guard is the call that its drop makes. A directory is a list of names with what they name; which
-- call of a publication fails, whether its temporary file can be removed, and whether a record can
-- be opened and read are inputs. The peers of a handshake are run from bytes that may end early:
-- what a call has written when they end is what it has written when it waits there. A
-- relay's writer is any that does what is documented of `Write` (`WriteHalf`, `Faithful`). Clocks,
-- sleeps, the adapter of a replacement, the evidence of a selection and the message codec are
-- parameters: records of functions over a state of everything outside.
--
-- Loops on fuel. `run` of src/replacement.rs, `await_selection` of src/selection.rs and `poll` of
-- src/backoff.rs are loops whose length depends on a clock, and are defined on fuel. Their modules
-- Termination and Polling give a fuel that is enough: 9 * (longest budget + 2) turns, for at most
-- nine phases of at most so many nanoseconds; the commit budget in nanoseconds and one, for a wait
-- that ends by it; and the nanoseconds to the deadline and one, for a poll. They need a clock that
-- does not run backwards and a sleep that takes time, which `Clock` states.
--
-- What is not modelled. Calls of the operating system (src/local, src/launch.rs,
-- src/publication/windows.rs, src/serve/windows.rs, src/candidate.rs and most of
-- src/ownership.rs), the generated message code (src/wire/generated.rs, of which only the fields
-- are modelled), the async twins of the loops and of the framing (run_async,
-- await_selection_async, src/wire/asynchronous.rs), health replies, the wrapper `Signaled` of
-- src/readiness/channel.rs, the async adapter of src/observation.rs, and src/client.rs. Formatting
-- and error-trait implementations have no definitions.
pub mod Admission
pub mod Backoff
pub mod CommandLine
pub mod Common
pub mod Control
pub mod Generation
pub mod Identity
pub mod Lifecycle
pub mod Observation
pub mod Peer
pub mod Publication
pub mod Readiness
pub mod Replacement
pub mod Retry
pub mod Selection
pub mod Serve
pub mod SocketPath
pub mod Transport
pub mod Upgrade
pub mod Wire
