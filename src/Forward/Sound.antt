-- ===== src/Forward/Sound.antt =====
-- The way of a datagram from the client follows the abstract machine, and never breaks.
use two_socks.Prelude.{
  ℕ, ◌+◌, ◌-◌, ◌≡◌, refl, ap, ◌∙◌, sym, true, false, List, [], ◌∷◌, ◌++◌, Option, none, some, arith,
  inl, inr, get_elem?, length, drop, take, Bool-cases, Option-cases, ◌==◌, leb,
  get_elem?-append-cons, length-append,
}
use two_socks.Codes.{ErrorCode, success, general_failure, ConnectionState, is_open, udp, udp_socket}
use two_socks.Platform.{Inet}
use two_socks.Errors.{socket_error_code_from_errno}
use two_socks.SockAddr.{SockAddr, family}
use two_socks.Buffer.{Result, ok, err, fault}
use two_socks.Addrport.{Addrport}
use two_socks.Datagram.{extract_udp_data}
use two_socks.Datagram.Grammar.{extract_udp_data-ne-fault}
use two_socks.Resolve.{resolve, resolve_socks5_addrport, port_text}
use two_socks.Sblist.{Sblist}
use two_socks.Os.{Os, Answer-cases, Sent-cases}
use two_socks.System.{
  Sys, received, sent, opened, connected_to, moved, note, sys_close, record_uploaded_bytes,
  next_connection_identifier, emit_addrport_connection_event,
}
use two_socks.Relay.{is_retry}
use two_socks.Destinations.{
  Dest, Assoc, add_udp_pollfd, first_stale, compare_fd_socks5addr_by_addrport,
}
use two_socks.Destinations.Search.{find_idx?-some, find_idx?-none}
use two_socks.Destinations.Removal.{
  polled-append, length-polled, emit-shown, close_udp_destination-Closed,
}
use two_socks.Text.{IsByte}
use two_socks.Prelude.{==_self, All}
use two_socks.Association.Spec.{
  last_received, udp_event, View, view, Run, next, transfer, probe, refuse_address,
  turn_away_address, add_address, IsNew, IsEnding, moved-Run,
}
use two_socks.Forward.Named.{
  IsFrom, last_received-shown, compare_socks5_addrport_self, last_received-IsNamed,
  receive_client-IsByte,
}
use two_socks.Forward.{
  Turn, on, again, ends, broken, udp_max_poll_fds, refuse, send_to, track, connect_destination,
  open_destination, new_destination, to_destination, handle_datagram, bind_client, receive_client,
  from_client,
}

-- The machine has run up to the state that is left, and nothing was accessed out of bounds.
abbrev pub IsSound :
    {W L : Type 0} → Inet → ℕ → Sblist Dest L → View → Turn × Assoc L × Sys W → Type 0
IsSound net client lib x0 (on, a, s) = Run net client x0 (view lib a s)
IsSound net client lib x0 (again, a, s) = Run net client x0 (view lib a s)
IsSound net client lib x0 (ends state code, a, s) =
    IsEnding state × Run net client x0 (view lib a s)
IsSound net client lib x0 (broken, a, s) = ⊥

-- Counting changes nothing that the machine sees.
pub view-record_uploaded_bytes :
    {W L : Type 0} (lib : Sblist Dest L) (n : ℕ) (a : Assoc L) (s : Sys W)
    → view lib a (record_uploaded_bytes n s) ≡ view lib a s
unfolding record_uploaded_bytes
view-record_uploaded_bytes lib n a s = elim (Bool-cases (n == 0)) [
  | inl e ↦ rw (e, record_uploaded_bytes) refl
  | inr e ↦ rw (e, record_uploaded_bytes) refl
]

module _ {W L : Type 0} (os : Os W) (net : Inet) (lib : Sblist Dest L) (client : ℕ)
    (x0 : View) where
  refuse-IsSound :
      (addr : Addrport) (code : ErrorCode) (a : Assoc L) (s : Sys W)
      → Run net client x0 (view lib a s)
      → IsSound net client lib x0 (refuse os net lib addr code a s)
  unfolding refuse next_connection_identifier
  refuse-IsSound addr code a s r = next r (
      refuse_address addr code (
        rw
          (emit-shown s.next_identifier ConnectionState.failed addr code
            (next_connection_identifier s).1)
          refl))

  send_to-IsSound :
      (i : ℕ) (d : Dest) (addr : Addrport) (payload : List ℕ) (a : Assoc L) (s : Sys W)
      → get_elem? (lib.items a.dests) i ≡ some d
      → compare_fd_socks5addr_by_addrport addr d ≡ true
      → IsFrom net client s.trace addr payload
      → Run net client x0 (view lib a s)
      → IsSound net client lib x0 (send_to os net lib d.fd i payload a s)
  unfolding send_to
  send_to-IsSound i d addr payload a s at_i same from r =
      elim (Sent-cases (os.write s.world d.fd payload).0) [
        | inl (m, e) ↦
            rw (e, send_to)
              (moved-Run
                (next r (
                  transfer (sent d.fd (take m payload)) tt
                    (inl (record {
                      buf = from.buf;
                      addr = addr;
                      offset = from.offset;
                      taken = m;
                      i = i;
                      d = d;
                      seen = from.seen;
                      header = from.header;
                      at_i = at_i;
                      same_address = same;
                      to = refl;
                      payload = ap (λ p. take m p) from.rest;
                    }))
                    refl))
                (view-record_uploaded_bytes lib m a _))
        | inr (x, e) ↦
            let c =
              close_udp_destination-Closed os lib i d (socket_error_code_from_errno x) a
                (moved (os.write s.world d.fd payload).1 s) at_i in
            rw (e, send_to, c.result) (next r (c.step net client))
      ]

  -- The state after a socket was opened and connected.
  abbrev after_connect : ℕ → SockAddr → W → W → Sys W → Sys W
  after_connect fd target w w' s =
      note (connected_to fd target) (moved w' (note (opened fd) (moved w s)))

  module _ (fd : ℕ) (target : SockAddr) (addr : Addrport) (payload : List ℕ) (a : Assoc L)
      (w w' : W) (s : Sys W) (from : IsFrom net client s.trace addr payload)
      (r : Run net client x0 (view lib a s)) where
    abbrev item : Dest
    item = record { fd = fd; connection_id = s.next_identifier; addrport = addr }

    turn_away-IsSound : Run net client x0 (
        view lib a (
          emit_addrport_connection_event s.next_identifier udp ConnectionState.failed addr
            general_failure
            (sys_close os fd (next_connection_identifier (after_connect fd target w w' s)).1)))
    unfolding next_connection_identifier
    turn_away-IsSound = next r (
        turn_away_address fd target addr general_failure (
          rw
            (emit-shown s.next_identifier ConnectionState.failed addr general_failure
              (sys_close os fd (next_connection_identifier (after_connect fd target w w' s)).1))
            refl))

    added-Run :
        (l : L)
        → IsNew addr (lib.items a.dests)
        → leb udp_max_poll_fds (2 + length a.live) ≡ false
        → lib.items l ≡ lib.items a.dests ++ item ∷ []
        → Run net client x0 (
            view lib
              (record (add_udp_pollfd fd a) { dests = l })
              (emit_addrport_connection_event s.next_identifier udp is_open addr success
                (next_connection_identifier (after_connect fd target w w' s)).1))
    unfolding next_connection_identifier add_udp_pollfd
    added-Run l new room added = next r (
        add_address fd target addr new (rw (length-polled a.live) (ground arith))
          (last_received-IsNamed s.trace from.seen from.bytes from.header)
          (rw
            (
              emit-shown s.next_identifier is_open addr success
                  (next_connection_identifier (after_connect fd target w w' s)).1,
              added,
              polled-append a.live (record { fd = fd; revents = first_stale a.stale } ∷ []),
            )
            refl))

    opened-IsFrom :
        IsFrom net client
          (emit_addrport_connection_event s.next_identifier udp is_open addr success
            (next_connection_identifier (after_connect fd target w w' s)).1).trace
          addr
          payload
    unfolding next_connection_identifier
    opened-IsFrom =
        rw
          (emit-shown s.next_identifier is_open addr success
            (next_connection_identifier (after_connect fd target w w' s)).1)
          (record {
            buf = from.buf;
            offset = from.offset;
            seen =
                last_received-shown client s.handler
                  (udp_event s.next_identifier addr is_open success)
                  (connected_to fd target ∷ opened fd ∷ s.trace)
                ∙ from.seen;
            bytes = from.bytes;
            header = from.header;
            rest = from.rest;
          })

    track-IsSound :
        IsNew addr (lib.items a.dests)
        → IsSound net client lib x0
            (track os net lib fd addr payload a (after_connect fd target w w' s))
    unfolding track next_connection_identifier
    track-IsSound new = elim (Bool-cases (leb udp_max_poll_fds (2 + length a.live))) [
      | inl full ↦ rw (full, track) turn_away-IsSound
      | inr room ↦ elim (Option-cases (lib.add a.dests item)) [
        | inl e ↦ rw (room, e, track) turn_away-IsSound
        | inr (l, e) ↦
            let added = lib.items-add a.dests l item e in
            rw (room, e, track)
              (send_to-IsSound (lib.get_size l - 1) item addr payload
                (record (add_udp_pollfd fd a) { dests = l })
                (emit_addrport_connection_event s.next_identifier udp is_open addr success
                  (next_connection_identifier (after_connect fd target w w' s)).1)
                (rw added (
                  get_elem?-append-cons (lib.items a.dests) item [] _ (
                    omega (
                      arith,
                      lib.get_size_lem l,
                      ap (length {A = Dest}) added,
                      length-append (lib.items a.dests) (item ∷ []),
                    ))))
                (compare_socks5_addrport_self addr) opened-IsFrom (added-Run l new room added))
      ]
    ]

  connect_destination-IsSound :
      (fd : ℕ) (target : SockAddr) (addr : Addrport) (payload : List ℕ) (a : Assoc L) (w : W)
      (s : Sys W)
      → IsFrom net client s.trace addr payload
      → Run net client x0 (view lib a s)
      → IsNew addr (lib.items a.dests)
      → IsSound net client lib x0
          (connect_destination os net lib fd target addr payload a (note (opened fd) (moved w s)))
  unfolding connect_destination
  connect_destination-IsSound fd target addr payload a w s from r new =
      elim (Answer-cases (os.connect w fd target).0) [
        | inr (x, e) ↦
            rw (e, connect_destination)
              (refuse-IsSound addr (socket_error_code_from_errno x) a
                (sys_close os fd (moved (os.connect w fd target).1 (note (opened fd) (moved w s))))
                (next r (probe fd refl)))
        | inl (v, e) ↦
            rw (e, connect_destination)
              (track-IsSound fd target addr payload a w (os.connect w fd target).1 s from r new)
      ]

  open_destination-IsSound :
      (target : SockAddr) (addr : Addrport) (payload : List ℕ) (a : Assoc L) (s : Sys W)
      → IsFrom net client s.trace addr payload
      → Run net client x0 (view lib a s)
      → IsNew addr (lib.items a.dests)
      → IsSound net client lib x0 (open_destination os net lib target addr payload a s)
  unfolding open_destination
  open_destination-IsSound target addr payload a s from r new =
      elim (Answer-cases (os.socket s.world (family target) udp_socket).0) [
        | inr (x, e) ↦
            rw (e, open_destination)
              (refuse-IsSound addr (socket_error_code_from_errno x) a
                (moved (os.socket s.world (family target) udp_socket).1 s) r)
        | inl (fd, e) ↦
            rw (e, open_destination)
              (connect_destination-IsSound fd target addr payload a
                (os.socket s.world (family target) udp_socket).1 s from r new)
      ]

  new_destination-IsSound :
      (addr : Addrport) (payload : List ℕ) (a : Assoc L) (s : Sys W)
      → IsFrom net client s.trace addr payload
      → Run net client x0 (view lib a s)
      → IsNew addr (lib.items a.dests)
      → IsSound net client lib x0 (new_destination os net lib addr payload a s)
  unfolding new_destination resolve_socks5_addrport resolve
  new_destination-IsSound addr payload a s from r new =
      elim (Option-cases
        (os.getaddrinfo s.world (some addr.addr) (port_text os addr.port) udp_socket).0) [
          | inl e ↦
              rw (e, new_destination, resolve_socks5_addrport)
                (refuse-IsSound addr general_failure a
                  (moved
                    (os.getaddrinfo s.world (some addr.addr) (port_text os addr.port) udp_socket).1
                    s)
                  r)
          | inr ((target, others), e) ↦
              rw (e, new_destination, resolve_socks5_addrport)
                (open_destination-IsSound target addr payload a
                  (moved
                    (os.getaddrinfo s.world (some addr.addr) (port_text os addr.port) udp_socket).1
                    s)
                  from r new)
        ]

  to_destination-IsSound :
      (addr : Addrport) (payload : List ℕ) (a : Assoc L) (s : Sys W)
      → IsFrom net client s.trace addr payload
      → Run net client x0 (view lib a s)
      → IsSound net client lib x0 (to_destination os net lib addr payload a s)
  unfolding to_destination
  to_destination-IsSound addr payload a s from r =
      elim (Option-cases (lib.find a.dests (compare_fd_socks5addr_by_addrport addr))) [
        | inl e ↦
            rw (e, to_destination)
              (new_destination-IsSound addr payload a s from r
                (find_idx?-none _ (lib.items a.dests) (sym (lib.find_lem a.dests _) ∙ e)))
        | inr (i, e) ↦
            let (d, at_i, same) =
              find_idx?-some _ (lib.items a.dests) i (sym (lib.find_lem a.dests _) ∙ e) in
            rw (e, to_destination, lib.get_lem a.dests i ∙ at_i)
              (send_to-IsSound i d addr payload a s at_i same from r)
      ]

  handle_datagram-IsSound :
      (buf : List ℕ) (a : Assoc L) (s : Sys W)
      → last_received client s.trace ≡ some buf
      → All IsByte buf
      → Run net client x0 (view lib a s)
      → IsSound net client lib x0 (handle_datagram os net lib buf a s)
  unfolding handle_datagram
  handle_datagram-IsSound buf a s seen bytes r = go _ refl
    where
      go :
          (e : Result (Addrport × ℕ))
          → extract_udp_data net buf ≡ e
          → IsSound net client lib x0 (handle_datagram os net lib buf a s)
      go fault e = absurd (extract_udp_data-ne-fault net buf e)
      go (err code) e = rw (e, handle_datagram) (tt, r)
      go (ok (addr, offset)) e =
          rw (e, handle_datagram)
            (to_destination-IsSound addr (drop offset buf) a s
              (record {
                buf = buf;
                offset = offset;
                seen = seen;
                bytes = bytes;
                header = e;
                rest = refl;
              })
              r)

  bind_client-IsSound :
      (peer : Option SockAddr) (buf : List ℕ) (a : Assoc L) (s : Sys W)
      → last_received client s.trace ≡ some buf
      → All IsByte buf
      → Run net client x0 (view lib a s)
      → IsSound net client lib x0 (bind_client os net lib client peer buf a s)
  unfolding bind_client
  bind_client-IsSound none buf a s seen bytes r = handle_datagram-IsSound buf a s seen bytes r
  bind_client-IsSound (some peer) buf a s seen bytes r =
      elim (Answer-cases (os.connect s.world client peer).0) [
        | inr (x, e) ↦ rw (e, bind_client) (tt, r)
        | inl (v, e) ↦
            rw (e, bind_client)
              (handle_datagram-IsSound buf (record a { bound = true })
                (note (connected_to client peer) (moved (os.connect s.world client peer).1 s)) seen
                bytes (next r (transfer (connected_to client peer) tt tt refl)))
      ]

  pub from_client-IsSound :
      (a : Assoc L) (s : Sys W)
      → Run net client x0 (view lib a s)
      → IsSound net client lib x0 (from_client os net lib client a s)
  unfolding from_client
  from_client-IsSound a s r =
      elim (Answer-cases (receive_client os net lib a.bound client s.world).0) [
        | inl ((buf, peer), e) ↦
            rw (e, from_client)
              (bind_client-IsSound peer buf a
                (note (received client buf)
                  (moved (receive_client os net lib a.bound client s.world).1 s))
                (rw (==_self client) refl)
                (receive_client-IsByte os net lib client a.bound s.world buf peer e)
                (next r (transfer (received client buf) tt tt refl)))
        | inr (x, e) ↦ elim (Bool-cases (is_retry x)) [
          | inl t ↦ rw (e, from_client, t) r
          | inr t ↦ rw (e, from_client, t) (tt, r)
        ]
      ]
