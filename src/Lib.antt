-- ===== src/Lib.antt =====
-- Verification of dutctl, a remote control for devices under test (DUTs). An agent
-- (cmds/dutagent) owns the devices of its configuration (pkg/dut), hands them to one user at a
-- time (internal/dutagent/locker), and runs their commands: each command is a list of modules
-- (pkg/module) whose output goes back to the client over a stream. Lib.antt is the root; the
-- files below stand beside it.
--
-- Base: numbers are native naturals; maps are association lists with the laws of lookup
-- (Base/Dict); signed 64-bit values are integers (Base/Int).
--
-- Locker: internal/dutagent/locker/locker.go. The two maps of holds are the record Locker, and
-- each method is a function of the same name in lower case on it (Lock is lock, AutoLock is
-- auto_lock). A time is a number of nanoseconds since Go's zero time, and each reading of the
-- clock is an argument, so nothing is assumed of the clock unless a theorem says so. The mutex
-- makes each method atomic. Locker/Laws says what the single steps do, Locker/Invariant that
-- the invariant is kept, Locker/History lifts it to histories of calls, Locker/Holds,
-- Locker/Releases, Locker/Status, Locker/Busies and Locker/Shared say what the methods promise.
-- Locker/Slots is the abstract view: each device has a slot that is free, reserved, in use, or
-- both by one owner. Locker/Shown reads the slots off the two maps, Locker/Simulation and
-- Locker/Acquisition compare each method with the operation on slots, and Locker/Refinement
-- lifts this to histories.
--
-- Dut: pkg/dut and internal/keyword. Dut has the data and the lookups of dut.go, Dut/Template
-- the references of templating.go (Dut/Template/Laws what the substitution does), Dut/Args the
-- resolution of arguments, Dut/Config the UnmarshalYAML methods of config.go over the nodes
-- that they see, Dut/Config/Accepted and Dut/Config/Load what a loaded configuration
-- guarantees, Dut/Bound that validated references are bound.
--
-- Serial: pkg/module/serial. Serial/Script has the escapes and the scripts of step.go,
-- Serial/Escape the filter of engine.go, Serial/Engine its loops, Serial/Module the Init and
-- Run of serial.go, with the client writer (Serial/Module/Lines) and the order of the steps
-- (Serial/Module/Steps). Indices into byte slices are lists of the bytes that are left. A loop
-- runs over the list of its turns, what the port, the context and the sink do in each, so that
-- the list is its fuel; when it is used up the loop is still waiting, which is an ending of its
-- own.
--
-- Fsm: internal/fsm/fsm.go, over the list of what the context says before each state.
-- Agent/Errors, Agent/Run: cmds/dutagent/states.go and Run of rpc.go. The record RunEnv is all
-- that a run gets from outside: the message, the clock, the outcomes of modules, the order in
-- which channels become ready, and what other requests do to the locker between two states. Six
-- polls are enough fuel for the six states. After the ready channels that are listed no other
-- gets ready, so that the wait never returns if they are not enough; the theorem that a request
-- ends says when they are. Agent/Lifecycle: the sweeps of lifecycle.go over all modules, which
-- Dut/Modules says are complete. Agent/Handlers: the other requests of rpc.go, with the int64
-- product of Lock written out modulo 2 ^ 64.
--
-- Session: the transfers of files and the standard input in internal/dutagent/session. The
-- module and the two workers take steps in any order; an unbuffered channel is a step of both
-- sides. A schedule is a list of such steps, and a step that is not possible gives none.
--
-- Versions: internal/compat/compat.go with the enforcer of internal/rpc/version.go, over the
-- semver library as a record of operations. Server: the registry of cmds/exp/dutserver/rpc.go,
-- a map from device names to the addresses of agents. Server/Relay/Opening is the head of its
-- Run handler, and Server/Relay what follows: the handler and its two forwarding goroutines
-- take steps in any order. Server/Relay/Forwarding, Server/Relay/Header and
-- Server/Relay/Verdict are on what is forwarded, on the version shown to the client, and on
-- what is returned.
--
-- Chanio: the reader of internal/chanio/chanio.go over what its select gets, as the bytes of a
-- stream (Chanio/Streams), and what writers and a reader give each other (Chanio/Delivery).
-- FileModule: the paths of a transfer of pkg/module/file, over the path functions of Go's
-- standard library on Unix (FileModule/Path): where they lead (FileModule/Within) and which are
-- taken (FileModule/Placed). FileModule/Transfer: the check of its configuration and its
-- transfers, over a map from files to contents, where Transfer/Ready is on the check and
-- Transfer/Safe on what they do to the map; the flag set and strconv.ParseUint are parameters.
-- Gpio: the button and the switch of pkg/module/gpio on one pin; the library for the pins is a
-- record of operations (Gpio/Levels).
--
-- Client: cmds/dutctl. Client has the choice of a request from the command line
-- (Client/Routing, and Client/Requests with the check of a duration), exit codes and lock
-- durations, which Client/Durations follows to the agent's locker; time.ParseDuration and the
-- seconds of a duration are a record of operations. Client/Stream is the receive routine of a
-- run, one goroutine, over the list of what it receives; Client/Stream/Display and
-- Client/Stream/Transfer are on its output and its files.
--
-- Not modelled: the session broker and the printing and console output of a session, so that
-- the outcome of the broker is part of a run's environment; the client's send routine and
-- flags; the advisor of internal/rpc/version.go; the flash, power, network, shell and dummy
-- modules; the start of the processes; rendering of text, logging, generated code; the YAML,
-- validator, regexp, flag, sorting, pin and connect libraries, which are arguments or outcomes
-- given from outside. Panics are modelled only where the code recovers them, in runModule and
-- catchPanic.
pub mod Base
pub mod Locker
pub mod Dut
pub mod Serial
pub mod Fsm
pub mod Gpio
pub mod Session
pub mod Agent
pub mod Chanio
pub mod Versions
pub mod Server
pub mod Client
pub mod FileModule
mod Tests
