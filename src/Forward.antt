-- ===== src/Forward.antt =====
-- TwoSocks/microsocks/sockssrv.c, `copy_loop_udp`: a datagram of the client on its way to its
-- destination.
pub mod Named
pub mod Sound
use two_socks.Prelude.{
  ℕ, zero, suc, ◌+◌, ◌-◌, ◌*◌, ◌^◌, Bool, true, false, ◌||◌, List, [], ◌∷◌, ◌++◌, Option, none,
  some, length, take, drop, get_elem?, leb, if◌then◌else◌,
}
use two_socks.Codes.{
  ErrorCode, success, general_failure, ConnectionState, is_open, closed, udp_socket, udp,
  max_dns_len,
}
use two_socks.Codes
use two_socks.Errors.{socket_error_code_from_errno}
use two_socks.Platform.{Inet, Errno, enotconn}
use two_socks.SockAddr.{SockAddr, family}
use two_socks.Buffer.{Result, ok, err, fault}
use two_socks.Addrport.{Addrport}
use two_socks.Datagram.{extract_udp_data, udp_header}
use two_socks.Resolve.{resolve_socks5_addrport}
use two_socks.Sblist.{Sblist}
use two_socks.Os.{
  Os, Poll, timeout, poll_failed, ready, Received, got, receive_failed, Sent, taken, send_failed,
  Answer, value, failed, Revents,
}
use two_socks.System.{
  Sys, moved, note, received, sent, opened, connected_to, closed_fd, sys_close,
  record_downloaded_bytes, record_uploaded_bytes, next_connection_identifier,
  emit_addrport_connection_event,
}
use two_socks.Relay.{poll_revents_have_error, poll_revents_have_hangup, revents_at, is_retry}
use two_socks.Destinations.{
  Dest, Pollfd, compare_fd_socks5addr_by_fd, compare_fd_socks5addr_by_addrport, Assoc, polled,
  assign, add_udp_pollfd, close_udp_destination,
}

-- UDP_COPY_BUFFER_SIZE: a header, and the longest payload of a datagram.
abbrev pub udp_copy_buffer_size : ℕ
udp_copy_buffer_size = (2 + 1 + 1 + 1 + max_dns_len + 2) + (2 ^ 16 - 1)

-- UDP_MAX_POLL_FDS
abbrev pub udp_max_poll_fds : ℕ
udp_max_poll_fds = 1024

-- Where the code goes next: on in the same pass, to the next `poll`, or to the end of the
-- association with its final state; `broken` is an `abort` or an access out of bounds.
pub data Turn : Type 0 where
  on : Turn
  again : Turn
  ends : ConnectionState → ErrorCode → Turn
  broken : Turn

module _ {W L : Type 0} (os : Os W) (net : Inet) (lib : Sblist Dest L) where
  -- The association ends with an error.
  abbrev fails : ErrorCode → Assoc L → Sys W → Turn × Assoc L × Sys W
  fails code a s = (ends ConnectionState.failed code, a, s)

  -- A destination that cannot be reached is reported, and the next `poll` is made.
  unfoldable pub refuse : Addrport → ErrorCode → Assoc L → Sys W → Turn × Assoc L × Sys W
  refuse addr code a s =
      let (id, s1) = next_connection_identifier s in
      (again, a, emit_addrport_connection_event id udp ConnectionState.failed addr code s1)

  -- The new turn after a destination was closed.
  abbrev pub then_turn : Turn → Option (Assoc L × Sys W) → Assoc L → Sys W → Turn × Assoc L × Sys W
  then_turn t none a s = (broken, a, s)
  then_turn t (some (a', s')) a s = (t, a', s')

  -- `send(send_fd, …)` of the payload to the destination at an index of the list.
  unfoldable pub send_to : ℕ → ℕ → List ℕ → Assoc L → Sys W → Turn × Assoc L × Sys W
  send_to fd i payload a s =
      let (r, w) = os.write s.world fd payload in
      elim r [
        | taken m ↦ (on, a, record_uploaded_bytes m (note (sent fd (take m payload)) (moved w s)))
        | send_failed e ↦
            then_turn again
              (close_udp_destination os lib i ConnectionState.failed
                (socket_error_code_from_errno e) a (moved w s))
              a (moved w s)
      ]

  -- A connected socket that cannot be kept is closed and reported under its identifier.
  abbrev turn_away : ℕ → ℕ → Addrport → Assoc L → Sys W → Turn × Assoc L × Sys W
  turn_away fd id addr a s = (
    again,
    a,
    emit_addrport_connection_event id udp ConnectionState.failed addr general_failure
        (sys_close os fd s),
  )

  -- The connected socket becomes a destination, if there is room for it.
  unfoldable pub track : ℕ → Addrport → List ℕ → Assoc L → Sys W → Turn × Assoc L × Sys W
  track fd addr payload a s =
      let (id, s1) = next_connection_identifier s in
      if leb udp_max_poll_fds (2 + length a.live)
      then turn_away fd id addr a s1
      else elim (lib.add a.dests (record { fd = fd; connection_id = id; addrport = addr })) [
        | none ↦ turn_away fd id addr a s1
        | some l ↦
            send_to fd (lib.get_size l - 1) payload (record (add_udp_pollfd fd a) { dests = l })
              (emit_addrport_connection_event id udp is_open addr success s1)
      ]

  unfoldable pub connect_destination :
      ℕ → SockAddr → Addrport → List ℕ → Assoc L → Sys W → Turn × Assoc L × Sys W
  connect_destination fd target addr payload a s =
      let (r, w) = os.connect s.world fd target in
      elim r [
        | failed e ↦ refuse addr (socket_error_code_from_errno e) a (sys_close os fd (moved w s))
        | value _ ↦ track fd addr payload a (note (connected_to fd target) (moved w s))
      ]

  unfoldable pub open_destination :
      SockAddr → Addrport → List ℕ → Assoc L → Sys W → Turn × Assoc L × Sys W
  open_destination target addr payload a s =
      let (r, w) = os.socket s.world (family target) udp_socket in
      elim r [
        | failed e ↦ refuse addr (socket_error_code_from_errno e) a (moved w s)
        | value fd ↦ connect_destination fd target addr payload a (note (opened fd) (moved w s))
      ]

  unfoldable pub new_destination : Addrport → List ℕ → Assoc L → Sys W → Turn × Assoc L × Sys W
  new_destination addr payload a s =
      let (r, s1) = resolve_socks5_addrport os addr udp_socket s in
      elim r [
        | err code ↦ refuse addr code a s1
        | fault ↦ (broken, a, s1)
        | ok target ↦ open_destination target addr payload a s1
      ]

  unfoldable pub to_destination : Addrport → List ℕ → Assoc L → Sys W → Turn × Assoc L × Sys W
  to_destination addr payload a s =
      elim (lib.find a.dests (compare_fd_socks5addr_by_addrport addr)) [
        | none ↦ new_destination addr payload a s
        | some i ↦ elim (lib.get a.dests i) [
          | none ↦ (broken, a, s)
          | some d ↦ send_to d.fd i payload a s
        ]
      ]

  unfoldable pub handle_datagram : List ℕ → Assoc L → Sys W → Turn × Assoc L × Sys W
  handle_datagram buf a s = elim (extract_udp_data net buf) [
    | err code ↦ fails code a s
    | fault ↦ (broken, a, s)
    | ok (addr, offset) ↦ to_destination addr (drop offset buf) a s
  ]

  -- The first datagram decides whom the socket is connected to.
  unfoldable pub bind_client :
      ℕ → Option SockAddr → List ℕ → Assoc L → Sys W → Turn × Assoc L × Sys W
  bind_client udp_fd none buf a s = handle_datagram buf a s
  bind_client udp_fd (some peer) buf a s =
      let (r, w) = os.connect s.world udp_fd peer in
      elim r [
        | failed e ↦ fails (socket_error_code_from_errno e) a (moved w s)
        | value _ ↦
            handle_datagram buf (record a { bound = true })
              (note (connected_to udp_fd peer) (moved w s))
      ]

  -- `recv`, or `recvfrom` with the sender where the socket is not connected yet.
  abbrev from_read : Received × W → Answer (List ℕ × Option SockAddr) × W
  from_read (got bytes, w) = (value (bytes, none), w)
  from_read (receive_failed e, w) = (failed e, w)

  abbrev from_peer : Answer (List ℕ × SockAddr) × W → Answer (List ℕ × Option SockAddr) × W
  from_peer (value (bytes, peer), w) = (value (bytes, some peer), w)
  from_peer (failed e, w) = (failed e, w)

  unfoldable pub receive_client : Bool → ℕ → W → Answer (List ℕ × Option SockAddr) × W
  receive_client true udp_fd w = from_read (os.read w udp_fd udp_copy_buffer_size)
  receive_client false udp_fd w = from_peer (os.recvfrom w udp_fd udp_copy_buffer_size)

  -- `fds[1]` is readable.
  unfoldable pub from_client : ℕ → Assoc L → Sys W → Turn × Assoc L × Sys W
  from_client udp_fd a s =
      let (r, w) = receive_client a.bound udp_fd s.world in
      elim r [
        | failed e ↦
            if is_retry e
            then (again, a, moved w s)
            else fails (socket_error_code_from_errno e) a (moved w s)
        | value (buf, peer) ↦ bind_client udp_fd peer buf a (note (received udp_fd buf) (moved w s))
      ]
