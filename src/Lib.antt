-- ===== src/Lib.antt =====
-- The SOCKS5 server of TwoSocks, in TwoSocks/microsocks.
--
-- The program is one C file of a server, sockssrv.c, with its headers and a few helpers in
-- server.c. A thread per client runs `clientthread`: it negotiates a method, checks a login, parses
-- a request, and then either connects to a target and relays both directions (`copyloop`) or opens
-- a UDP socket and relays datagrams (`copy_loop_udp`). `socks_main` reads the options, sets the
-- listening socket up, accepts clients and collects the threads that are done. The threads share
-- the transfer totals, the counter of connection identifiers, and the list of addresses that have
-- authenticated once.
--
-- The files and the code they model:
-- - Codes: the constants and enumerations of TwoSocks/microsocks/sockssrv.h.
-- - Text, Platform, Os, Sblist: C strings as lists of bytes; what the program asks of the C
--   library, the kernel and the list library. `Os` is a record of calls over an abstract state of
--   the world, with the documented bounds of `read` and `write`, and `snprintf` of a port number; `Inet` is `inet_ntop` with
--   `inet_pton`; `Sblist` is the list library by its documented behaviour.
-- - Buffer: reads of a packet. A read past the received bytes is a `fault`.
-- - Addrport, Datagram, Request, Reply: the wire formats of sockssrv.c, `parse_addrport`,
--   `extract_udp_data` and the header that `copy_loop_udp` writes, `parse_socks_request_header`,
--   `send_response`, `send_error`, `send_auth_response`. A function that writes a reply returns the
--   bytes, which `write_reply` of Connect then writes.
-- - Auth, Whitelist: `check_auth_method`, `check_credentials`, `is_authed`, `is_in_authed_list`,
--   `add_auth_ip`.
-- - SockAddr: `union sockaddr_union` of TwoSocks/microsocks/server.h and its macros.
-- - Resolve: `resolve_tcp` and `resolve_udp` of TwoSocks/microsocks/server.c and
--   `resolveSocks5Addrport`.
-- - Errors: `socket_error_code_from_errno`.
-- - System: what a thread changes: the world, the totals (64 bits, with their wrap), the next
--   identifier, and a trace of what was received, sent, opened, closed and reported.
-- - Relay: `relay_data` and `copyloop`.
-- - Connect: the sockets of a session, `connect_socks_target`, `udp_svc_setup` and
--   `populate_udp_response_addr`.
-- - Destinations: `struct fd_socks5addr`, its comparisons, `remove_udp_pollfd` and
--   `close_udp_destination`. The array of `struct pollfd` is the list of its slots in use, and what
--   is left in `revents` of the slots behind them.
-- - Forward, Association: `copy_loop_udp`, first the way of a datagram from the client, then the
--   ways back and the loop. Association/Spec is an abstract machine over the two tables, and the
--   files beside it show that the code takes its steps and what they keep.
-- - Session: `clientthread`, a function per case of its `switch`. Whether the lock of the list of
--   known clients can be had is asked of the world, for reading and for writing; within one greeting
--   the answer stays the same. Dialogue and Outcome say what is
--   said before a request, in the words of the two protocols; Crowd has the threads of many clients,
--   which act on one list of known addresses, a pass of the loop at a time.
-- - Server: `server_setup` and `server_waitclient` of TwoSocks/microsocks/server.c.
-- - Pool: `collect` and the loop of `socks_main` that accepts clients. The state is that of a thread
--   with the list `threads` and a log of what was done with each `struct thread`. A thread that was
--   started runs `clientthread` of Session; its flag `done` is read from the world.
-- - Startup: `socks_main` from the options to the loop.
-- - Shared: the threads between the locking and the unlocking of `connection_event_lock` (Handlers)
--   and of `auth_ips_lock` (Clients), an access to the protected state at a time. A lock is a record
--   of what a thread holds of it and when it is granted. The proofs are by one invariant for both:
--   Exclusive, Linear, Steps, Programs, Progress; Coherence has what follows for the list.
-- - Tests: concrete systems and packets, and runs of the code on them.
--
-- Loops. `check_auth_method` and the search of the list are structural recursion. `write_all` takes
-- as fuel the number of bytes to write, and each `write` takes one at least, so the fuel never runs
-- out. `copyloop` has no bound in the program: it takes the number of rounds it may run, and a run
-- that is not over is a result of its own, `running`. `copy_loop_udp` takes a number of passes in
-- the same way, with the result `going`. Its pass over the slots takes as many steps as there are
-- slots, since each passes or removes one.
-- The loop of `clientthread` has three rounds. `collect` takes as many steps as there are threads,
-- and the loop that accepts clients a number of passes.
--
-- Not modelled: `getopt`, of which only the answers enter; signals; log output; an interleaving of
-- single calls within the sessions, since Session takes each call under a lock as made at once,
-- which is what Shared is about, and Crowd takes a pass of a loop as one step, with the relay of a
-- request; the atomic additions to the transfer totals by several threads; the attributes of a new
-- thread; `resolve_sa` and `bindtoip`, which nothing calls; the list library sblist.c, a copy of a
-- part of libulz; and the application in Swift.
pub mod Prelude
pub mod Codes
pub mod Text
pub mod Platform
pub mod Buffer
pub mod Errors
pub mod Addrport
pub mod Shared
pub mod SockAddr
pub mod Reply
pub mod Datagram
pub mod Auth
pub mod Sblist
pub mod Whitelist
pub mod Os
pub mod System
pub mod Resolve
pub mod Request
pub mod Relay
pub mod Connect
pub mod Destinations
pub mod Forward
pub mod Association
pub mod Server
pub mod Pool
pub mod Startup
pub mod Session
pub mod Tests
