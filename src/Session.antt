-- ===== src/Session.antt =====
-- TwoSocks/microsocks/sockssrv.c: `clientthread`, the session of one client.
pub mod Closing
pub mod Descriptors
pub mod Access
pub mod Ending
pub mod Events
pub mod Dialogue
pub mod Outcome
pub mod Admission
pub mod Crowd
pub mod Handshake
pub mod Steps
pub mod Pass
use two_socks.Prelude.{
  ℕ, zero, suc, Bool, true, false, not, List, [], ◌∷◌, Option, none, some, length, ◌==◌,
  if◌then◌else◌,
}
use two_socks.Codes.{
  ErrorCode, success, general_failure, error_value, SocksState, connected, need_auth, authed,
  AuthMethod, no_auth, gssapi, username, invalid, method_value, Cmd, connect, udp_associate,
  ConnectionState, is_open, closed, Protocol, tcp,
}
use two_socks.Codes
use two_socks.Platform.{Inet}
use two_socks.SockAddr.{SockAddr}
use two_socks.Addrport.{Addrport}
use two_socks.Buffer.{Result, ok, err, fault}
use two_socks.Sblist.{Sblist}
use two_socks.Os.{Os, Received, got, receive_failed, Answer, value, failed}
use two_socks.System.{
  Sys, moved, note, received, sys_close, next_connection_identifier, emit_addrport_connection_event,
}
use two_socks.Auth.{Credentials, check_auth_method, check_credentials}
use two_socks.Whitelist.{is_in_authed_list, remember}
use two_socks.Reply.{send_auth_response, send_response, send_error}
use two_socks.Request.{parse_socks_request_header}
use two_socks.Relay.{Loop, running, returned, stuck, copyloop}
use two_socks.Destinations.{Dest}
use two_socks.Association.{Udp, ended, going, copy_loop_udp}
use two_socks.Connect.{
  Target, target, refused, write_reply, connect_socks_target, udp_svc_setup,
  populate_udp_response_addr,
}

-- How the handling of a packet ends: the loop reads on in a state, or breaks; the relay is still
-- running; or the process aborts.
pub data Next : Type 0 where
  read_on : SocksState → Next
  break_loop : Next
  relaying : Next
  aborted : Next

-- How the thread ends.
pub data Exit : Type 0 where
  done : Exit
  still_relaying : Exit
  still_reading : SocksState → Exit
  crashed : Exit

-- The configuration of the process, the client, and how often a relay may wait for its sockets.
pub record Config : Type 0 where
  pub creds : Option Credentials
  pub client_fd : ℕ
  pub client_addr : SockAddr
  pub rounds : ℕ

-- The list library at the two types of items that a session keeps.
pub record Lists (L D : Type 0) : Type 0 where
  pub clients : Sblist SockAddr L
  pub destinations : Sblist Dest D

abbrev pub final_error : ConnectionState → ErrorCode
final_error ConnectionState.failed = general_failure
final_error is_open = success
final_error closed = success

module _ {W L D : Type 0} (os : Os W) (net : Inet) (lib : Lists L D) (c : Config) where
  open c use {creds, client_fd, client_addr, rounds}

  -- An event of the connection `id`.
  abbrev report : ℕ → Addrport → ConnectionState → ErrorCode → Sys W → Sys W
  report id a state code = emit_addrport_connection_event id tcp state a code

  -- The relay of an open connection, its last event, and the end of its socket.
  unfoldable pub relay_target : ℕ → Addrport → ℕ → Sys W → Next × Sys W
  relay_target id a fd s =
      let (r, s') = copyloop os rounds client_fd fd s in
      elim r [
        | running _ ↦ (relaying, s')
        | stuck ↦ (relaying, s')
        | returned st ↦ (break_loop, sys_close os fd (report id a st (final_error st) s'))
      ]

  -- The socket of the target is given up.
  abbrev give_up : ℕ → Addrport → ℕ → Sys W → Next × Sys W
  give_up id a fd s =
      (break_loop, sys_close os fd (report id a ConnectionState.failed general_failure s))

  -- The reply that names the local address of the socket to the target.
  unfoldable pub answer_target : ℕ → Addrport → ℕ → SockAddr → Sys W → Next × Sys W
  answer_target id a fd local s = elim (send_response success local) [
    | none ↦ (aborted, s)
    | some bytes ↦
        let (written, s') = write_reply os client_fd bytes s in
        if written
        then relay_target id a fd (report id a is_open success s')
        else give_up id a fd s'
  ]

  unfoldable pub serve_target : ℕ → Addrport → ℕ → Sys W → Next × Sys W
  serve_target id a fd s =
      let (r, w) = os.getsockname s.world fd in
      elim r [
        | failed e ↦ give_up id a fd (moved w s)
        | value local ↦ answer_target id a fd local (moved w s)
      ]

  unfoldable pub handle_connect : Addrport → SockAddr → Sys W → Next × Sys W
  handle_connect a address s =
      let (id, s1) = next_connection_identifier s in
      let (t, s2) = connect_socks_target os address s1 in
      elim t [
        | refused code ↦ (
          break_loop,
          (write_reply os client_fd (send_error code)
              (report id a ConnectionState.failed code s2)).1,
        )
        | target fd ↦ serve_target id a fd s2
      ]

  -- The relay of an association, and the end of its socket.
  unfoldable pub relay_association : ℕ → Sys W → Next × Sys W
  relay_association fd s =
      let (u, s') = copy_loop_udp os net lib.destinations rounds client_fd fd s in
      elim u [
        | ended ↦ (break_loop, sys_close os fd s')
        | going ↦ (relaying, s')
        | Udp.crashed ↦ (aborted, s')
      ]

  -- The answer to an association, and its relay.
  unfoldable pub answer_association : ℕ → Option SockAddr → Sys W → Next × Sys W
  answer_association fd none s = (break_loop, sys_close os fd s)
  answer_association fd (some local) s = elim (send_response success local) [
    | none ↦ (aborted, s)
    | some bytes ↦
        let (written, s') = write_reply os client_fd bytes s in
        if written then relay_association fd s' else (break_loop, sys_close os fd s')
  ]

  -- A descriptor that is zero is taken for a failure.
  unfoldable pub handle_udp_associate : SockAddr → Sys W → Next × Sys W
  handle_udp_associate address s =
      let (t, s1) = udp_svc_setup os address s in
      elim t [
        | refused code ↦ (break_loop, (write_reply os client_fd (send_error code) s1).1)
        | target fd ↦
            if fd == 0
            then (break_loop, (write_reply os client_fd (send_error success) s1).1)
            else let (local, s2) = populate_udp_response_addr os fd client_fd s1 in
              answer_association fd local s2
      ]

  -- The state of the process that a session changes: the thread's and the list of addresses that
  -- have authenticated once, which is there only if the option -1 was given.
  unfoldable pub is_listed : Option L → Bool
  is_listed none = false
  is_listed (some l) = is_in_authed_list lib.clients l client_addr

  -- Where the lock cannot be had for reading, nobody counts as listed.
  unfoldable pub is_whitelisted : W → Option L → Bool
  is_whitelisted w ips = if os.rdlock w then is_listed ips else false

  -- Where the lock cannot be had for writing, nobody is entered.
  unfoldable pub remember_client : W → Option L → Option L
  remember_client w none = none
  remember_client w (some l) = some (if os.wrlock w then remember lib.clients l client_addr else l)

  abbrev state_after : AuthMethod → Next
  state_after no_auth = read_on authed
  state_after gssapi = read_on connected
  state_after username = read_on need_auth
  state_after invalid = break_loop

  -- `case SS_1_CONNECTED`
  unfoldable pub greet : List ℕ → Option L → Sys W → Next × Option L × Sys W
  greet buf ips s = elim (check_auth_method creds (is_whitelisted s.world ips) buf) [
    | ok am ↦ (
      state_after am,
      ips,
      (write_reply os client_fd (send_auth_response 5 (method_value am)) s).1,
    )
    | err _ ↦ (aborted, ips, s)
    | fault ↦ (aborted, ips, s)
  ]

  abbrev after_login : ErrorCode → Option L → Sys W → Next × Option L × Sys W
  after_login success ips s = (read_on authed, remember_client s.world ips, s)
  after_login _ ips s = (break_loop, ips, s)

  -- `case SS_2_NEED_AUTH`; the state is reached only where a password is set.
  unfoldable pub log_in : List ℕ → Option L → Sys W → Next × Option L × Sys W
  log_in buf ips s = elim creds [
    | none ↦ (aborted, ips, s)
    | some cr ↦ elim (check_credentials cr buf) [
      | ok code ↦
          after_login code ips
            (write_reply os client_fd (send_auth_response 1 (error_value code)) s).1
      | err _ ↦ (aborted, ips, s)
      | fault ↦ (aborted, ips, s)
    ]
  ]

  abbrev serve : Result (Cmd × Addrport × SockAddr) × Sys W → Next × Sys W
  serve (err _, s) = (break_loop, s)
  serve (fault, s) = (aborted, s)
  serve (ok (connect, a, address), s) = handle_connect a address s
  serve (ok (udp_associate, a, address), s) = handle_udp_associate address s

  -- `case SS_3_AUTHED`
  unfoldable pub serve_request : List ℕ → Sys W → Next × Sys W
  serve_request buf s = serve (parse_socks_request_header os net buf s)

  -- The `switch` over the state.
  unfoldable pub handle_packet : SocksState → List ℕ → Option L → Sys W → Next × Option L × Sys W
  handle_packet connected buf ips s = greet buf ips s
  handle_packet need_auth buf ips s = log_in buf ips s
  handle_packet authed buf ips s = let (n, s') = serve_request buf s in (n, ips, s')

  -- The end of the thread: the socket of the client is closed.
  abbrev leave : Option L → Sys W → Exit × Option L × Sys W
  leave ips s = (done, ips, sys_close os client_fd s)

  -- `while((n = recv(…)) > 0)`, for at most as many packets as the first argument says.
  unfoldable pub session : ℕ → SocksState → Option L → Sys W → Exit × Option L × Sys W
  session zero state ips s = (still_reading state, ips, s)
  session (suc k) state ips s =
      let (r, w) = os.read s.world client_fd 1024 in
      elim r [
        | receive_failed e ↦ leave ips (moved w s)
        | got buf ↦
            if length buf == 0
            then leave ips (moved w s)
            else let (n, ips', s') =
                handle_packet state buf ips (note (received client_fd buf) (moved w s)) in
              elim n [
                | read_on state' ↦ session k state' ips' s'
                | break_loop ↦ leave ips' s'
                | relaying ↦ (still_relaying, ips', s')
                | aborted ↦ (crashed, ips', s')
              ]
      ]

  -- The whole thread. No session reads more than three packets before it relays or ends.
  unfoldable pub clientthread : Option L → Sys W → Exit × Option L × Sys W
  clientthread ips s = session 3 connected ips s
