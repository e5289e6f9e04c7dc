-- ===== src/Lib.antt =====
-- A verification library of scalable-server: a framework that loads one of three TCP servers as a shared
-- library and drives it as a state machine. Each server receives messages, each a length in network byte
-- order and that many bytes, and answers with the number of bytes received.
--
-- The parts, and the modules that model them:
--   * core/src/main.c, core/src/util.c, api_functions.h: Core. Core.Api has the core object, the states and
--     the three functions of a library; Core.Run has the set-up of the core object, the loading of the library
--     (`get_api`) and the loop of `run_core` (`core_loop`); Core.Lifecycle has the states that
--     each function can return (`ReturnsStates`) and the life of a server that api_functions.h documents (`life`).
--   * poll-server/: Poll. One process that polls its listening socket and five client slots. Poll.State has
--     the state object, the pollfds that `run_poll_server` keeps, and the changes of both; Poll.Receive has
--     `poll_recv_and_log`; Poll.Loop has the event loop; Poll.Setup has set-up, teardown and the functions of
--     the library. Proofs: Index, Invariant, Safety, Messages, Memory, Lifecycle, Progress, Ending.
--   * one-to-one/: OneToOne. One process that serves one client at a time. Message has the exchange of a
--     message, Serve the loop over the clients, Setup the rest. Proofs: Exchange, Lifecycle.
--   * process-server/: Process. A parent that polls the clients and passes each ready one to one of eight
--     children. State has the structs and the changes of the parent's pollfds, Parent and Child the two halves
--     of process_server.c, Setup and Teardown have setup_teardown.c and the functions of the library. Proofs:
--     Invariant, Safety, Disable, Closing, Lifecycle, Ending, ChildEnding. Process.Interleaving has the parent and the
--     children together, as a step relation: System the moves between two calls on the semaphores, the domain
--     socket, the pipe and the log, for any number of children and slots; Counts what holds in every run, kept by
--     the moves (ChildMoves, ParentMoves, Slots, Invariant); Enabled and Schedule say who can go next. Proofs on
--     runs: Safety, Progress, Work. FirstFree, Pollfds and Calls, Receiving, ChildCalls relate the moves to
--     Process.State and Process.Child.
--   * client-controller/: Controller. It lets in clients and, on a command, tells them to start. State has the
--     structs, Util util.c, Connection the messages, Setup state.c, Handle the loop over the sockets and standard
--     input and `run` of main.c. Proofs: Writing, Sending, Accepting, Invariant, Ports, Progress,
--     Ending.
--   * client/: Client. A client of a load test, with a thread for each processor that sends data to the server
--     and logs how long it takes. State has the structs and globals, Util util.c (less what has the same text
--     in client-controller/src/util.c: that is Controller.Util), Log log.c, Thread thread.c, Worker what each
--     thread does (handle.c), Setup state.c, Run the loop over the commands of the controller (run.c) and `run`
--     of main.c. Proofs: Receiving, Message, Protocol (controller and client), Exchanging, Pool.
--   * Tests has concrete platforms (Tests.World, Tests.Wire) and the theorems at concrete inputs.
--
-- Code is a function of a small monad (Os.Monad): it takes a machine, which has the state of its program,
-- `errno` and the trace of all calls made, and ends with a value, with -1, in undefined behaviour, or not
-- within the rounds that its loop was given. Everything outside the repository (sockets, poll, semaphores,
-- memory, time, the memory manager, dlopen) is a call (Os.Calls), answered by a `Platform`: a parameter whose
-- answer to each call may depend on everything that happened before. What the loops rely on of the answers is
-- stated as `Lawful` and `StdinOpen` (Os.Polling), `Bounded` (OneToOne.Exchange), `WritesSome` (Controller.Writing), `Delivers`
-- (Client.Receiving), `Allocates` (Client.Message), `Interop` (Client.Protocol), `Modest` (Poll.Progress and
-- Process.ChildEnding), `Uninterrupted` (Process.Interleaving.ChildCalls) and `Signalled` (Os.Endings).
--
-- Arithmetic on size_t and uint32_t keeps its wrap-around (`% 2 ^ 64`, `% 2 ^ 32`). A loop that ends takes as
-- many rounds as it can need: the loop over a message has one round more than the bytes that its buffer
-- holds, and so have `write_fully` and `read_fully`, since each round but the last takes a byte; at the end of
-- a stream `read_fully` takes none, and no number of rounds is enough. A loop that runs until a signal comes takes its
-- rounds as an argument. A signal is noticed at the test of the loop (`pending_signal`) or as an interrupted call; every call returns, so a call
-- that waits for ever, as poll() may after a signal that came just before it, is not expressed.
--
-- Not modelled: the reading of the command line, messages on the standard streams, tracing, the drivers
-- test_main.c, and the interleaving of the threads of client/, which are modelled each on its own. The
-- interleaved runs of process-server/ are those in which no call fails and no signal comes; what a process does
-- then is modelled for it alone. A child that reads a message is taken to get it, or the end of the stream.
pub mod Prelude
pub mod Os
pub mod Poll
pub mod Core
pub mod OneToOne
pub mod Process
pub mod Tests
pub mod Controller
pub mod Client
