-- ===== src/System.antt =====
-- The state that a thread of TwoSocks/microsocks/sockssrv.c acts on: the world behind the system
-- calls, the process's counters, and a trace of what the thread did, newest first.
pub mod Trace
use two_socks.Prelude.{ℕ, suc, ◌+◌, ◌%◌, ◌^◌, Bool, List, ◌∷◌, take, ◌==◌, if◌then◌else◌}
use two_socks.Codes.{ConnectionState, ErrorCode, Protocol, SocketType}
use two_socks.Platform.{Family, Errno}
use two_socks.SockAddr.{SockAddr}
use two_socks.Addrport.{Addrport}
use two_socks.Os.{
  Os, Poll, Received, got, receive_failed, Sent, taken, send_failed, Answer, value, failed,
}

-- The arguments of a call of the connection event handler.
pub record Event : Type 0 where
  pub identifier : ℕ
  pub protocol : Protocol
  pub state : ConnectionState
  pub host : List ℕ
  pub port : ℕ
  pub error_code : ErrorCode

pub data Effect : Type 0 where
  received : ℕ → List ℕ → Effect
  sent : ℕ → List ℕ → Effect
  opened : ℕ → Effect
  connected_to : ℕ → SockAddr → Effect
  closed_fd : ℕ → Effect
  emitted : Event → Effect
  server_ready : Effect

-- `handler` and `ready_handler` say whether a connection event handler and a server ready handler
-- are set.
pub record Sys (W : Type 0) : Type 0 where
  pub world : W
  pub trace : List Effect
  pub downloaded : ℕ
  pub uploaded : ℕ
  pub next_identifier : ℕ
  pub handler : Bool
  pub ready_handler : Bool

module _ {W : Type 0} where
  abbrev pub note : Effect → Sys W → Sys W
  note e s = record s { trace = e ∷ s.trace }

  unfoldable pub record_downloaded_bytes : ℕ → Sys W → Sys W
  record_downloaded_bytes count s =
      if count == 0 then s else record s { downloaded = (s.downloaded + count) % 2 ^ 64 }

  unfoldable pub record_uploaded_bytes : ℕ → Sys W → Sys W
  record_uploaded_bytes count s =
      if count == 0 then s else record s { uploaded = (s.uploaded + count) % 2 ^ 64 }

  -- `next_connection_identifier_value++` under the lock
  unfoldable pub next_connection_identifier : Sys W → ℕ × Sys W
  next_connection_identifier s =
      (s.next_identifier, record s { next_identifier = s.next_identifier + 1 })

  unfoldable pub emit_connection_event : Event → Sys W → Sys W
  emit_connection_event e s = if s.handler then note (emitted e) s else s

  unfoldable pub emit_addrport_connection_event :
      ℕ → Protocol → ConnectionState → Addrport → ErrorCode → Sys W → Sys W
  unfolding emit_connection_event
  emit_addrport_connection_event identifier protocol state a error_code =
      emit_connection_event (record {
        identifier = identifier;
        protocol = protocol;
        state = state;
        host = a.addr;
        port = a.port;
        error_code = error_code;
      })

  unfoldable pub emit_server_ready_event : Sys W → Sys W
  emit_server_ready_event s = if s.ready_handler then note server_ready s else s

  unfoldable pub twosocks_set_connection_event_handler : Bool → Sys W → Sys W
  twosocks_set_connection_event_handler set s = record s { handler = set }

  unfoldable pub twosocks_set_server_ready_handler : Bool → Sys W → Sys W
  twosocks_set_server_ready_handler set s = record s { ready_handler = set }

  unfoldable pub twosocks_total_downloaded_bytes : Sys W → ℕ
  twosocks_total_downloaded_bytes s = s.downloaded

  unfoldable pub twosocks_total_uploaded_bytes : Sys W → ℕ
  twosocks_total_uploaded_bytes s = s.uploaded

  -- The state after a system call that left the world as `w`.
  abbrev pub moved : W → Sys W → Sys W
  moved w s = record s { world = w }

  -- `close(fd)`
  abbrev pub sys_close : Os W → ℕ → Sys W → Sys W
  sys_close os fd s = note (closed_fd fd) (moved (os.close s.world fd) s)
