-- ===== src/Lib.antt =====
-- Three programs of the repository.
--
-- The network checker of 04-30_nwchecker_refactor: a client sends packages at a given bandwidth,
-- a server answers each with an acknowledgement, and the client accounts for round-trip time,
-- jitter and loss. Everything runs in one event loop over epoll, in one thread.
--
-- The checker of 04-24_UNIX异步IO机制, which the first one replaces: clients send "ping" messages of
-- any size and servers answer "pong", over TCP (one process around select, or a master that
-- accepts connections and hands their descriptors to four workers through socket pairs), over UDP
-- (one blocking loop, or one that a SIGIO handler feeds) and over stream sockets of the UNIX
-- domain, around epoll.
--
-- The multicast programs of 04-26_基于UDP组播的编程: a server in a multicast group that answers each
-- datagram with the time, and a client that asks once.
--
-- Parts and files of 04-30_nwchecker_refactor/:
--   list.h: ListHead has the operations on the link fields; ListHead/Ring, ListHead/Front and
--     ListHead/Walk relate the links to sequences.
--   nwc_qos_protocol.c: Qos has the accounting (`qos_stat` for nwc_qos_stat, `process_package`
--     for nwc_qos_process_package, and so on); proofs are in Qos/Ack, Qos/Stat, Qos/Clock,
--     Qos/Roundtrip, Qos/Reach and Qos/Reporting.
--   nwc_looper.c, nwc_epoll_looper.c and the nwc_looper_ functions of nwc.c: Loop has the state,
--     Loop/Workers, Loop/Epoll, Loop/Run and Loop/Api the functions; proofs are in Loop/Links,
--     Loop/Dispatch, Loop/Registration, Loop/Events and Loop/Ending.
--   nwc_sock.c: Sock; proofs are in Sock/Leaks and Sock/Connecting.
--   nwc_configuration.c: Config; a proof is in Config/Parsing.
--   nwc_io_handler.h and the handlers' types: Io. nwc_tcp_handler.c, nwc_udp_handler.c and the
--     nwc_io_ functions of nwc.c: Transport/Syscalls, Transport/Tcp, Transport/Udp, Transport/Api
--     and Transport/Input; proofs are in Transport/Receiving and Transport/Closing.
--   nwc_connection.c: Conn, Conn/Receive, Conn/Send and Conn/Accept, with the bytes of a package
--     in Wire; proofs are in Conn/Stream, Conn/Replies, Conn/Answering, Conn/Datagrams,
--     Conn/Exchange, Conn/Spin, Conn/Sending, Conn/Peers, Conn/Closing and Conn/Budget.
--   nwc_server.c, nwc_client.c, nwc_main.c: App, App/Server and App/Client, which put the parts
--     together the way the function pointers do; proofs are in App/Connecting and App/Dispatching.
--
-- Parts and files of 04-24_UNIX异步IO机制/:
--   nwc_connection.h, nwc_connection.c: Checker has the connections and the system,
--     Checker/NwcLinks the operations on the link fields.
--   nwchecker_server_multiprocess.c: Checker/Messages (worker_send_msg, worker_recv_msg),
--     Checker/Answering (the pass over the connections), Checker/Listening (the listening
--     socket), Checker/Worker (`worker` and its loop, which the master runs too) and
--     Checker/Master (spawning and the exit path, with `run_nwc_server_process` for
--     nwc_server_process); proofs are in Checker/Serving, Checker/Watching, Checker/Stopping,
--     Checker/Handover, Checker/Rotation, Checker/OtherTurns, Checker/Balance and
--     Checker/Workforce.
--   nwchecker_server.c: Checker/Server (`run_nwc_server` for nwc_server); proofs are in
--     Checker/Echo and Checker/Greeting.
--   nwchecker_client.c: Checker/Client (`run_nwc_client` for nwc_client), with what it reads of
--     the arguments in Checker/Buffers; proofs are in Checker/ClientRounds and Checker/Counting.
--   nwc_udp_server.c, nwc_udp_client.c, sigio_udp_server.c: Checker/Udp, Checker/UdpClient and
--     Checker/Sigio; proofs are in Checker/Udp/Answers, Checker/UdpClient/Redirected and
--     Checker/Bursts.
--   unix_stream_server.c, unix_stream_client.c: Checker/UnixStream and Checker/UnixClient; proofs
--     are in Checker/UnixStream/Requests, Checker/UnixStream/Starved and
--     Checker/UnixClient/Ending.
--   nwchecker.c, nwchecker.h: Checker/Args.
--
-- Parts and files of 04-26_基于UDP组播的编程/: mcast.c, mcast_server.c and mcast_client.c are Multicast;
-- a proof is in Multicast/Leaks.
--
-- Prelude, Outcome, Types and World are shared; Examples applies the theorems to concrete states.
--
-- State of 04-30. The loop's state holds its workers, entries and registrations, and as `user`
-- the objects of World: handlers and connections by address, and the answers of the system (recv,
-- send, accept, the clock, and so on) as sequences that calls consume. A command returns `done`
-- with a value and the new state, `fault` where the C code follows a pointer to nothing (a freed
-- object, a NULL function pointer, memory never allocated), or `hang` where it waits for an
-- answer that does not come or is still in a loop when the fuel is spent. The bytes that `send`
-- accepted and the datagrams of `sendto`, with their addresses, are kept in order. What `malloc`
-- leaves in memory is a parameter where the code reads it before it writes it; `malloc` itself is
-- taken to succeed, but for the epoll entries.
--
-- State of 04-24. Each program has a record of its variables, inside a `System` that holds the
-- answers of the system calls as sequences and the calls that were made, in order: the bytes that
-- a send accepted, the messages with descriptors, the sets that select was asked for, the closes.
-- A connection's descriptor, or any other that may be -1, is an Option. select writes the time
-- that is left into its timeout, as Linux does. FD_ISSET of -1, which C leaves open, is a
-- parameter `stray`. The two sides of a fork have their own states: a worker is run from what the
-- fork copies.
--
-- Numbers. `uint32_t` arithmetic is written out modulo 2^32; `int` results are integers with the
-- error numbers of Linux. `double` is a type with the operations that the code uses, of which no
-- law is assumed, with NaN and infinity for the one division that may be by zero, as IEEE 754 has
-- it. A handle is an address or INVALID_HANDLE. Packages are bytes in little-endian order.
--
-- Fuel. The loops that C writes as `while` or as a walk over links take fuel: `list_for_each`,
-- `list_for_each_safe`, `dispatch_loop`, `receive_loop`, `send_loop`. A turn takes one off, and
-- each turn is for a node, a worker, a package or at least one byte to send, so one more than
-- these is meant to be enough. In the checker of 04-24 a turn of `worker_loop`, `server_loop`,
-- `client_loop`, `udp_client_loop`, `unix_loop` and `unix_client_loop` is one round of its loop,
-- and a turn of `get_nwc_connection` or `destroy_all_nwc_links` one connection; `udp_rounds`,
-- `sigio_rounds` and `mcast_rounds` are the first rounds of loops that never end. The runs of
-- `epoll_run` and of the retry loops are bounded by the sequence of answers.
--
-- Assumed of code outside the repository: `getaddrinfo`, `epoll_ctl`, `epoll_wait`, `getopt_long`
-- and `atoi` are parameters that may answer anything; `recv` fills at most the buffer it is
-- given.
--
-- Not modelled: printing, nwc_looper_destroy and free_nwc_conn of 04-30 as functions of their
-- own; the signals that set the loop's `exit`; in 04-24 waitpid, the installing of signal
-- handlers (their bodies are modelled), a SIGIO that arrives before the signal is blocked,
-- descriptors from FD_SETSIZE on, and the datagram programs for UNIX domain sockets. The other
-- chapters hold earlier versions of these programs (04-23 has the same text but for some options),
-- small demonstrations, and programs for Windows and in Java.
pub mod Prelude
pub mod ListHead
pub mod Types
pub mod Qos
pub mod Outcome
pub mod Loop
pub mod Sock
pub mod Checker
pub mod Multicast
pub mod Config
pub mod Io
pub mod World
pub mod Transport
pub mod Wire
pub mod Conn
pub mod App
pub mod Examples
