-- ===== src/Association.antt =====
-- TwoSocks/microsocks/sockssrv.c, `copy_loop_udp`: what destinations send on its way to the client,
-- and the loop around both directions.
pub mod Lookup
pub mod Spec
pub mod Tables
pub mod Identifiers
pub mod Distinct
pub mod Slots
pub mod Sound
pub mod Invariant
pub mod Known
pub mod Faithful
use two_socks.Relay.{poll_timeout}
use two_socks.Prelude.{
  ℕ, zero, suc, ◌+◌, ◌-◌, Bool, true, false, ◌||◌, not, List, [], ◌∷◌, ◌++◌, Option, none, some,
  length, take, drop, get_elem?, ◌==◌, if◌then◌else◌,
}
use two_socks.Codes.{ErrorCode, success, general_failure, ConnectionState, closed, udp}
use two_socks.Codes
use two_socks.Errors.{socket_error_code_from_errno}
use two_socks.Platform.{Inet, Errno, enotconn}
use two_socks.Datagram.{udp_header}
use two_socks.Sblist.{Sblist}
use two_socks.Os.{
  Os, Poll, timeout, poll_failed, ready, Received, got, receive_failed, Sent, taken, send_failed,
  Answer, value, failed, Revents,
}
use two_socks.System.{
  Sys, moved, note, received, sent, sys_close, record_downloaded_bytes,
  emit_addrport_connection_event,
}
use two_socks.Relay.{poll_revents_have_error, poll_revents_have_hangup, revents_at, is_retry}
use two_socks.Destinations.{
  Dest, Pollfd, compare_fd_socks5addr_by_fd, Assoc, polled, assign, close_udp_destination,
}
use two_socks.Forward.{Turn, on, again, ends, broken, udp_copy_buffer_size, then_turn, from_client}

-- How the association stands: it has ended, it is still running, or the process is aborted.
pub data Udp : Type 0 where
  ended : Udp
  going : Udp
  crashed : Udp

abbrev pub is_unconnected : Errno → Bool
is_unconnected enotconn = true
is_unconnected _ = false

-- What one slot of the array leads to: the next slot, the same index again after its slot was
-- removed, or a turn.
pub data Slot : Type 0 where
  next_slot : Slot
  same_slot : Slot
  turn : Turn → Slot

module _ {W L : Type 0} (os : Os W) (net : Inet) (lib : Sblist Dest L) where
  -- A destination that fails is closed; the slots behind it move up.
  unfoldable pub drop_destination : ℕ → ErrorCode → Assoc L → Sys W → Slot × Assoc L × Sys W
  drop_destination i code a s =
      elim (close_udp_destination os lib i ConnectionState.failed code a s) [
        | none ↦ (turn broken, a, s)
        | some (a', s') ↦ (same_slot, a', s')
      ]

  -- A datagram of a destination behind its header goes to the client.
  unfoldable pub to_client : ℕ → ℕ → ℕ → List ℕ → List ℕ → Assoc L → Sys W → Slot × Assoc L × Sys W
  to_client udp_fd fd i header payload a s =
      let (r, w) = os.write s.world udp_fd (header ++ payload) in
      elim r [
        | send_failed e ↦
            (turn (ends ConnectionState.failed (socket_error_code_from_errno e)), a, moved w s)
        | taken m ↦ (
          next_slot,
          a,
          record_downloaded_bytes (length payload)
              (note (sent udp_fd (take m (header ++ payload))) (moved w s)),
        )
      ]

  unfoldable pub receive_destination : ℕ → ℕ → ℕ → List ℕ → Assoc L → Sys W → Slot × Assoc L × Sys W
  receive_destination udp_fd fd i header a s =
      let (r, w) = os.read s.world fd (udp_copy_buffer_size - length header) in
      elim r [
        | receive_failed e ↦ drop_destination i (socket_error_code_from_errno e) a (moved w s)
        | got payload ↦
            to_client udp_fd fd i header payload a (note (received fd payload) (moved w s))
      ]

  -- The slot is readable; the header of the destination cannot be written where its text is no
  -- address.
  unfoldable pub read_destination : ℕ → ℕ → ℕ → Assoc L → Sys W → Slot × Assoc L × Sys W
  read_destination udp_fd fd i a s = elim (lib.get a.dests i) [
    | none ↦ (turn broken, a, s)
    | some d ↦ elim (udp_header net d.addrport) [
      | none ↦ drop_destination i general_failure a s
      | some header ↦ receive_destination udp_fd fd i header a s
    ]
  ]

  unfoldable pub visit_found : ℕ → Pollfd → ℕ → Assoc L → Sys W → Slot × Assoc L × Sys W
  visit_found udp_fd p i a s =
      if poll_revents_have_error p.revents || poll_revents_have_hangup p.revents
      then drop_destination i general_failure a s
      else if not p.revents.pollin
      then (next_slot, a, s)
      else read_destination udp_fd p.fd i a s

  unfoldable pub visit : ℕ → Pollfd → Assoc L → Sys W → Slot × Assoc L × Sys W
  visit udp_fd p a s = elim (lib.find a.dests (compare_fd_socks5addr_by_fd p.fd)) [
    | none ↦ (turn (ends ConnectionState.failed general_failure), a, s)
    | some i ↦ visit_found udp_fd p i a s
  ]

  -- `for(int i = 2; i < poll_fds; i++)`, from the slot `i + 2` on; each step passes a slot or
  -- removes one, so as many steps as there are slots are enough.
  unfoldable pub scan : ℕ → ℕ → ℕ → Assoc L → Sys W → Turn × Assoc L × Sys W
  scan zero udp_fd i a s = elim (get_elem? a.live i) [ none ↦ (on, a, s) | some p ↦ (broken, a, s) ]
  scan (suc k) udp_fd i a s = elim (get_elem? a.live i) [
    | none ↦ (on, a, s)
    | some p ↦
        let (next, a', s') = visit udp_fd p a s in
        elim next [
          | next_slot ↦ scan k udp_fd (i + 1) a' s'
          | same_slot ↦ scan k udp_fd i a' s'
          | turn t ↦ (t, a', s')
        ]
  ]

  -- The part of a pass behind the client's sockets.
  abbrev then_scan : ℕ → Turn × Assoc L × Sys W → Turn × Assoc L × Sys W
  then_scan udp_fd (on, a, s) = scan (length a.live) udp_fd 0 a s
  then_scan udp_fd (again, a, s) = (again, a, s)
  then_scan udp_fd (ends state code, a, s) = (ends state code, a, s)
  then_scan udp_fd (broken, a, s) = (broken, a, s)

  -- `fds[0]` is readable: the client has closed the association, or sends what it must not.
  unfoldable pub from_tcp : ℕ → Assoc L → Sys W → Turn × Assoc L × Sys W
  from_tcp tcp_fd a s =
      let (r, w) = os.read s.world tcp_fd (udp_copy_buffer_size - 1) in
      elim r [
        | receive_failed e ↦
            if is_retry e
            then (again, a, moved w s)
            else (ends ConnectionState.failed (socket_error_code_from_errno e), a, moved w s)
        | got bytes ↦ if length bytes == 0 then (ends closed success, a, moved w s) else (
          ends ConnectionState.failed general_failure,
          a,
          note (received tcp_fd bytes) (moved w s),
        )
      ]

  -- What the events of the client's two sockets lead to.
  unfoldable pub udp_ready : ℕ → ℕ → Revents → Revents → Assoc L → Sys W → Turn × Assoc L × Sys W
  udp_ready tcp_fd udp_fd r0 r1 a s =
      if poll_revents_have_error r0 || poll_revents_have_error r1
      then (ends ConnectionState.failed general_failure, a, s)
      else if poll_revents_have_hangup r0 || poll_revents_have_hangup r1
      then (ends closed success, a, s)
      else if r0.pollin
      then from_tcp tcp_fd a s
      else if r1.pollin
      then then_scan udp_fd (from_client os net lib udp_fd a s)
      else then_scan udp_fd (on, a, s)

  -- One pass of the loop.
  unfoldable pub udp_round : ℕ → ℕ → Assoc L → Sys W → Turn × Assoc L × Sys W
  udp_round tcp_fd udp_fd a s =
      let (r, w) = os.poll s.world (tcp_fd ∷ udp_fd ∷ polled a.live) poll_timeout in
      elim r [
        | timeout ↦ (ends closed success, a, moved w s)
        | poll_failed e ↦
            if is_retry e
            then (again, a, moved w s)
            else (ends ConnectionState.failed general_failure, a, moved w s)
        | ready rs ↦
            udp_ready tcp_fd udp_fd (revents_at rs 0) (revents_at rs 1)
              (record a { live = assign a.live (drop 2 rs) }) (moved w s)
      ]

  -- UDP_LOOP_END: every destination is reported, from the index `i` on, and then every socket is
  -- closed.
  unfoldable pub report_all : ConnectionState → ErrorCode → L → ℕ → ℕ → Sys W → Sys W
  report_all state code l zero i s = s
  report_all state code l (suc n) i s = elim (lib.get l i) [
    | none ↦ s
    | some d ↦
        report_all state code l n (i + 1)
          (emit_addrport_connection_event d.connection_id udp state d.addrport code s)
  ]

  unfoldable pub close_all : List ℕ → Sys W → Sys W
  close_all [] s = s
  close_all (fd ∷ fds) s = close_all fds (sys_close os fd s)

  unfoldable pub udp_loop_end : ConnectionState → ErrorCode → Assoc L → Sys W → Sys W
  udp_loop_end state code a s =
      close_all (polled a.live) (report_all state code a.dests (lib.get_size a.dests) 0 s)

  -- `while(1)`, for a number of passes.
  unfoldable pub udp_rounds : ℕ → ℕ → ℕ → Assoc L → Sys W → Udp × Sys W
  udp_rounds zero tcp_fd udp_fd a s = (going, s)
  udp_rounds (suc k) tcp_fd udp_fd a s =
      let (t, a', s') = udp_round tcp_fd udp_fd a s in
      elim t [
        | on ↦ udp_rounds k tcp_fd udp_fd a' s'
        | again ↦ udp_rounds k tcp_fd udp_fd a' s'
        | ends state code ↦ (ended, udp_loop_end state code a' s')
        | broken ↦ (crashed, s')
      ]

  -- The allocations. Where one fails there is no destination to report, and none to close.
  unfoldable pub start_association : ℕ → ℕ → ℕ → Bool → Sys W → Udp × Sys W
  start_association k tcp_fd udp_fd bound s =
      let (memory, w) = os.malloc s.world udp_copy_buffer_size in
      elim lib.create [
        | none ↦ (ended, moved w s)
        | some l ↦
            if memory
            then udp_rounds k tcp_fd udp_fd
                (record { bound = bound; dests = l; live = []; stale = [] }) (moved w s)
            else (ended, moved w s)
      ]

  -- For at most `k` passes of the loop.
  unfoldable pub copy_loop_udp : ℕ → ℕ → ℕ → Sys W → Udp × Sys W
  copy_loop_udp k tcp_fd udp_fd s =
      let (r, w) = os.getpeername s.world udp_fd in
      elim r [
        | value _ ↦ start_association k tcp_fd udp_fd true (moved w s)
        | failed e ↦
            if is_unconnected e
            then start_association k tcp_fd udp_fd false (moved w s)
            else (crashed, moved w s)
      ]
