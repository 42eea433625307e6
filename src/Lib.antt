-- ===== src/Lib.antt =====
-- A model of the TCP load balancer of this repository.
--
-- The program proxies TCP streams: workers accept clients, ask the scheduler for a backend, and
-- pump bytes between the two sockets; the runtime counts what happens; health checks and reported
-- failures take backends out of the rotation and bring them back.
--
-- Text: what the program uses of the standard library for texts: `std::string` as a list of bytes,
--   `isspace` and `tolower` of the C locale, `find`, `rfind`, `std::to_string` and `std::stoul`.
-- Config: include/lb/config.hpp, the endpoints, policies and the configuration. Parser, Loader and
--   Printer model src/config.cpp and `endpoint_label`; the other children are about them. A loop
--   over the lines of a file is a recursion on the list of its lines.
-- Json: a reference for JSON texts, which models no code of the program: a reader of a part of JSON,
--   with printable ASCII in the strings and the numbers of the grammar.
-- Report: `stats_json` and `prometheus_metrics` of src/runtime.cpp. Values and Statistics are about
--   the first.
-- Scheduler: src/scheduler.cpp and include/lb/scheduler.hpp. A `Scheduler` holds the parallel
--   vectors of the class as lists, and each method is a function of the same name (`select`,
--   `mark_open`, ...). The loops of `select` are `rotate_from`, `least_from` and `choices_from`,
--   by recursion on the rounds left, which is the bound of the source's `for`. The children prove:
--   Shape, Rotation, Least, Choices, Cycle and Selection about `select`; Calls, Tally, Accounting
--   and Draining about histories of calls.
-- Runtime: src/runtime.cpp and include/lb/runtime.hpp. A `RuntimeState` owns its scheduler.
--   Ledger relates the counters of the process to those of the backends.
-- Http: a reference for HTTP responses, which models no code of the program.
-- Network: the helpers of src/server.cpp that make sockets, over a record of system calls, the
--   addresses of a name in the order of the list. A worker takes what `connect_backend` returns,
--   and a health round what `tcp_probe` finds, as an argument; where they throw is not modelled
--   there. Descriptors states what the calls open and close, Closing is about the helpers.
-- Admin: `handle_client` of src/admin.cpp and the functions it calls, over a record of system calls.
--   The client's socket is blocking: a call of `recv` or `send` returns, or the thread stays in it,
--   which is the exception `blocked` of a method. Requests takes a request apart. `send_all` takes
--   fuel as the loops of Worker do. Streams states what the sockets do, Sending is about `send_all`;
--   Settling, Reports, Staying and Ending are about the ends of the methods, Commands, Orders and
--   Refusals about the requests that name a backend, Sparing, Quiet, Obeying and Caution about what
--   the requests leave alone, and Framing about `response`.
-- Logger: src/logger.cpp, the line that `log` writes. Lines is about it.
-- Program: src/main.cpp up to the start of the server. CommandLine is about its arguments.
-- Health: `maybe_eject` and `start_health_checks` of src/server.cpp. A round of the thread is
--   `health_round`, what `tcp_probe` finds is an argument.
-- System: the system calls of a worker, as a parameter.
-- Worker: `Impl::Worker` of src/server.cpp, a worker with its peers. Transfer, Connect and Loop
--   hold the handlers: `flush` and `read_available`, the making of connections, and what `run`
--   does with the events, with the timeouts and at the end. The loops that wait for the system
--   take fuel; one that runs out throws `out_of_fuel`, which the program does not have. The other
--   children are about the pairs of the peers, the active counts, the order of the bytes, the
--   overdue pairs and the fuel; Sockets and Patience say what they rely on from the system. Each turn of `flush` but the
--   last writes a byte or meets a signal, which bounds its fuel.
-- Examples: tests, and the theorems at concrete inputs.
--
-- A method is a function from the object to an outcome, which holds the object after the call
-- also when the method throws. Counters wrap around at 2^64 or 2^32 as `std::uint64_t` and
-- `std::uint32_t` do, and `std::size_t` and `unsigned long` have 64 bits. Methods run one at a time.
-- The random draws of the power-of-two-choices policy are an argument of `select`, and how a stream
-- writes a `double` or a time is an argument of the texts that hold one.
--
-- Not modelled: how the steps of several threads interleave. And the set-up of the descriptors of a
-- worker, `tune_socket`, the limit of open files, the threads and the accept loop of the admin
-- server, the signal handlers and the printed usage, which only call the system.
pub mod Base
pub mod Text
pub mod Json
pub mod Http
pub mod Config
pub mod Scheduler
pub mod Runtime
pub mod Report
pub mod Network
pub mod Admin
pub mod Logger
pub mod Program
pub mod Health
pub mod System
pub mod Worker
mod Examples
