-- ===== src/Association/Spec.antt =====
-- TwoSocks/microsocks/sockssrv.c, `copy_loop_udp` as an abstract machine: what a pass may do to the
-- destinations, to the polled descriptors, and to the outside.
use two_socks.Prelude.{
  ℕ, ◌+◌, ◌<◌, ◌≡◌, Bool, false, List, [], ◌∷◌, ◌++◌, some, length, All, get_elem?, erase_idx, ◌==◌,
  if◌then◌else◌,
}
use two_socks.Codes.{ErrorCode, success, ConnectionState, is_open, udp}
use two_socks.SockAddr.{SockAddr}
use two_socks.Addrport.{Addrport}
use two_socks.System.{
  Event, Effect, received, sent, opened, connected_to, closed_fd, emitted, server_ready, Sys,
}
use two_socks.Sblist.{Sblist}
use two_socks.Platform.{Inet}
use two_socks.Buffer.{ok}
use two_socks.Text.{IsByte}
use two_socks.Datagram.{extract_udp_data, udp_header}
use two_socks.Prelude.{take, drop, none, ◌⊎◌, Option, true}
use two_socks.Destinations.{Dest, Assoc, polled, compare_fd_socks5addr_by_addrport}

pub record View : Type 0 where
  pub dests : List Dest
  pub fds : List ℕ
  pub trace : List Effect
  pub next : ℕ
  pub handler : Bool

abbrev pub view : {W L : Type 0} → Sblist Dest L → Assoc L → Sys W → View
view lib a s = record {
  dests = lib.items a.dests;
  fds = polled a.live;
  trace = s.trace;
  next = s.next_identifier;
  handler = s.handler;
}

abbrev pub start : {W : Type 0} → Sys W → View
start s = record {
  dests = [];
  fds = [];
  trace = s.trace;
  next = s.next_identifier;
  handler = s.handler;
}

abbrev pub udp_event : ℕ → Addrport → ConnectionState → ErrorCode → Event
udp_event id a state code = record {
  identifier = id;
  protocol = udp;
  state = state;
  host = a.addr;
  port = a.port;
  error_code = code;
}

-- The trace with an event, if a handler is set.
abbrev pub shown : Bool → Event → List Effect → List Effect
shown handler e t = if handler then emitted e ∷ t else t

-- Effects that open, close and report nothing.
abbrev pub IsTransfer : Effect → Type 0
IsTransfer (received fd bytes) = Unit
IsTransfer (sent fd bytes) = Unit
IsTransfer (connected_to fd a) = Unit
IsTransfer (opened fd) = ⊥
IsTransfer (closed_fd fd) = ⊥
IsTransfer (emitted e) = ⊥
IsTransfer server_ready = ⊥

abbrev pub without : ℕ → List ℕ → List ℕ
without fd [] = []
without fd (x ∷ xs) = if x == fd then xs else x ∷ without fd xs

-- The address is that of no destination.
abbrev pub IsNew : Addrport → List Dest → Type 0
IsNew addr ds = All (λ d. compare_fd_socks5addr_by_addrport addr d ≡ false) ds

-- What the client's socket received last.
abbrev pub last_received : ℕ → List Effect → Option (List ℕ)
last_received fd [] = none
last_received fd (received fd' bytes ∷ t) = if fd' == fd then some bytes else last_received fd t
last_received fd (_ ∷ t) = last_received fd t

-- The address was in a datagram of the client.
pub data IsNamed (net : Inet) (client : ℕ) (addr : Addrport) : List Effect → Type 0 where
  in_newest :
      {t : List Effect} (buf : List ℕ) (offset : ℕ)
      → All IsByte buf
      → extract_udp_data net buf ≡ ok (addr, offset)
      → IsNamed net client addr (received client buf ∷ t)
  in_earlier :
      {e : Effect} {t : List Effect} → IsNamed net client addr t → IsNamed net client addr (e ∷ t)

-- The bytes are payload, from its start, of the datagram that the client sent last, and they go to
-- the destination with the address in it.
pub record IsForwarded (net : Inet) (client : ℕ) (x : View) (fd : ℕ) (bytes : List ℕ) : Type 0 where
  pub buf : List ℕ
  pub addr : Addrport
  pub offset : ℕ
  pub taken : ℕ
  pub i : ℕ
  pub d : Dest
  pub seen : last_received client x.trace ≡ some buf
  pub header : extract_udp_data net buf ≡ ok (addr, offset)
  pub at_i : get_elem? x.dests i ≡ some d
  pub same_address : compare_fd_socks5addr_by_addrport addr d ≡ true
  pub to : fd ≡ d.fd
  pub payload : bytes ≡ take taken (drop offset buf)

-- The bytes are, from the start, the header of a destination and what was received from it just
-- before, and they go to the client.
pub record IsDelivered (net : Inet) (client : ℕ) (x : View) (fd : ℕ) (bytes : List ℕ) : Type 0 where
  pub payload : List ℕ
  pub prefix : List ℕ
  pub taken : ℕ
  pub i : ℕ
  pub d : Dest
  pub before : List Effect
  pub at_i : get_elem? x.dests i ≡ some d
  pub header : udp_header net d.addrport ≡ some prefix
  pub newest : x.trace ≡ received d.fd payload ∷ before
  pub to : fd ≡ client
  pub packet : bytes ≡ take taken (prefix ++ payload)

-- Whatever is sent has its reason.
abbrev pub IsDue : Inet → ℕ → View → Effect → Type 0
IsDue net client x (sent fd bytes) =
    IsForwarded net client x fd bytes ⊎ IsDelivered net client x fd bytes
IsDue net client x _ = Unit

pub data Step (net : Inet) (client : ℕ) (x y : View) : Type 0 where
  -- Data move, or the client's socket is connected.
  transfer :
      (e : Effect)
      → IsTransfer e
      → IsDue net client x e
      → y ≡ record x { trace = e ∷ x.trace }
      → Step net client x y
  -- A socket is opened that cannot be connected.
  probe :
      (fd : ℕ) → y ≡ record x { trace = closed_fd fd ∷ opened fd ∷ x.trace } → Step net client x y
  -- An address cannot be reached.
  refuse_address :
      (addr : Addrport) (code : ErrorCode)
      → y ≡ record x {
        trace = shown x.handler (udp_event x.next addr ConnectionState.failed code) x.trace;
        next = x.next + 1;
      }
      → Step net client x y
  -- A connected socket cannot be kept.
  turn_away_address :
      (fd : ℕ) (target : SockAddr) (addr : Addrport) (code : ErrorCode)
      → y ≡ record x {
        trace =
            shown x.handler
              (udp_event x.next addr ConnectionState.failed code)
              (closed_fd fd ∷ connected_to fd target ∷ opened fd ∷ x.trace);
        next = x.next + 1;
      }
      → Step net client x y
  -- An address becomes a destination.
  add_address :
      (fd : ℕ) (target : SockAddr) (addr : Addrport)
      → IsNew addr x.dests
      → length x.fds < 1022
      → IsNamed net client addr x.trace
      → y ≡ record x {
        dests = x.dests ++ record { fd = fd; connection_id = x.next; addrport = addr } ∷ [];
        fds = x.fds ++ fd ∷ [];
        trace =
            shown x.handler
              (udp_event x.next addr is_open success)
              (connected_to fd target ∷ opened fd ∷ x.trace);
        next = x.next + 1;
      }
      → Step net client x y
  -- A destination is closed.
  drop_address :
      (i : ℕ) (d : Dest) (code : ErrorCode)
      → get_elem? x.dests i ≡ some d
      → y ≡ record x {
        dests = erase_idx x.dests i;
        fds = without d.fd x.fds;
        trace =
            shown x.handler
              (udp_event d.connection_id d.addrport ConnectionState.failed code)
              (closed_fd d.fd ∷ x.trace);
      }
      → Step net client x y

-- Some of these one after another.
pub data Run (net : Inet) (client : ℕ) (x : View) : View → Type 0 where
  here : {y : View} → y ≡ x → Run net client x y
  next : {m y : View} → Run net client x m → Step net client m y → Run net client x y

pub moved-Run :
    {x y z : View} {net : Inet} {client : ℕ} → Run net client x y → z ≡ y → Run net client x z
moved-Run r e = rw e r

-- A state in which a connection can end.
abbrev pub IsEnding : ConnectionState → Type 0
IsEnding is_open = ⊥
IsEnding ConnectionState.closed = Unit
IsEnding ConnectionState.failed = Unit

-- The end of an association: every destination is reported, then every socket is closed.
abbrev pub reported : Bool → ConnectionState → ErrorCode → List Dest → List Effect → List Effect
reported handler state code [] t = t
reported handler state code (d ∷ ds) t =
    reported handler state code ds
      (shown handler (udp_event d.connection_id d.addrport state code) t)

abbrev pub shut : List ℕ → List Effect → List Effect
shut [] t = t
shut (fd ∷ fds) t = shut fds (closed_fd fd ∷ t)

pub record IsEnd {W : Type 0} (x : View) (state : ConnectionState) (code : ErrorCode) (s : Sys W)
    : Type 0 where
  pub trace_end : s.trace ≡ shut x.fds (reported x.handler state code x.dests x.trace)
  pub next_end : s.next_identifier ≡ x.next
  pub handler_end : s.handler ≡ x.handler
