-- ===== src/Session/Events.antt =====
-- TwoSocks/microsocks/sockssrv.c, `clientthread`: what is reported of a connection.
use two_socks.Prelude.{
  ℕ, ◌≡◌, ◌≢◌, refl, ◌⊎◌, inl, inr, true, List, [], ◌∷◌, ◌++◌, append_assoc, Option-cases,
  Bool-cases,
}
use two_socks.Codes.{ErrorCode, success, general_failure, tcp, tcp_socket, ConnectionState, is_open}
use two_socks.Platform.{Inet}
use two_socks.SockAddr.{SockAddr, family}
use two_socks.Addrport.{Addrport}
use two_socks.Reply.{send_response, send_error}
use two_socks.Os.{Os, Answer-cases, Sent-cases}
use two_socks.System.{
  Sys, Event, moved, closed_fd, emitted, sys_close, next_connection_identifier,
  emit_connection_event, emit_addrport_connection_event,
}
use two_socks.System.Trace.{events}
use two_socks.Relay.{Loop, running, stuck, returned, copyloop}
use two_socks.Relay.Frame.{IsFrame, copyloop-keeps}
use two_socks.Connect.{Target, target, refused, write_reply, connect_or_close, connect_socks_target}
use two_socks.Session.{
  Lists, Next, read_on, break_loop, relaying, aborted, Config, final_error, relay_target,
  answer_target, serve_target, handle_connect,
}

-- The events so far, with a handler set.
abbrev pub Shows : {W : Type 0} → List Event → Sys W → Type 0
Shows es s = (events s.trace ≡ es) × (s.handler ≡ true)

abbrev pub event : ℕ → Addrport → ConnectionState → ErrorCode → Event
event id a st code = record {
  identifier = id;
  protocol = tcp;
  state = st;
  host = a.addr;
  port = a.port;
  error_code = code;
}

-- The relay between the client and the socket `fd` of the target, begun after the event that the
-- connection is open, ended in the state `st`.
abbrev pub Ended : {W : Type 0} → Os W → Config → List Event → ConnectionState → ℕ → Sys W → Type 0
Ended os c es st fd s = Shows es s × ((copyloop os c.rounds c.client_fd fd s).0 ≡ returned st)

-- A connection that ended is reported once, as failed, or twice: as open, and then as its relay
-- ended, whose socket is closed. One whose relay has not ended is reported as open.
abbrev pub IsReported :
    {W : Type 0} → Os W → Config → List Event → ℕ → Addrport → Next × Sys W → Type 0
IsReported os c es id a (read_on state, s) = ⊥
IsReported {W} os c es id a (break_loop, s) =
    ((code : ErrorCode) × Shows (es ++ event id a ConnectionState.failed code ∷ []) s)
    ⊎ ((st : ConnectionState) × (fd : ℕ) × (s1 : Sys W) × Ended os c
          (es ++ event id a is_open success ∷ []) st fd s1
        × (s.trace
            ≡ closed_fd fd
              ∷ emitted (event id a st (final_error st))
              ∷ (copyloop os c.rounds c.client_fd fd s1).1.trace)
        × Shows (es ++ event id a is_open success ∷ event id a st (final_error st) ∷ []) s)
IsReported {W} os c es id a (relaying, s) =
    ((fd : ℕ) × (s1 : Sys W) × Shows (es ++ event id a is_open success ∷ []) s1
      × ((st : ConnectionState) → (copyloop os c.rounds c.client_fd fd s1).0 ≢ returned st))
    × Shows (es ++ event id a is_open success ∷ []) s
IsReported os c es id a (aborted, s) = Shows es s

module _ {W L D : Type 0} (os : Os W) (net : Inet) (lib : Lists L D) (c : Config) where
  report-Shows :
      (id : ℕ) (a : Addrport) (st : ConnectionState) (code : ErrorCode) (es : List Event)
      (s : Sys W)
      → Shows es s
      → Shows (es ++ event id a st code ∷ []) (emit_addrport_connection_event id tcp st a code s)
  unfolding emit_addrport_connection_event emit_connection_event
  report-Shows id a st code es s (shown, set) = rw (set, shown) (refl, refl)

  write_reply-Shows :
      (fd : ℕ) (bytes : List ℕ) (es : List Event) (s : Sys W)
      → Shows es s
      → Shows es (write_reply os fd bytes s).1
  unfolding write_reply
  write_reply-Shows fd bytes es s h = elim (Sent-cases (os.write s.world fd bytes).0) [
    | inl (m, e) ↦ rw (e, write_reply) h
    | inr (m, e) ↦ rw (e, write_reply) h
  ]

  copyloop-Shows :
      (k fd1 fd2 : ℕ) (es : List Event) (s : Sys W)
      → Shows es s
      → Shows es (copyloop os k fd1 fd2 s).1
  copyloop-Shows k fd1 fd2 es s h = copyloop-keeps (λ s'. Shows es s') frame os fd1 fd2 k s h
    where
      frame : IsFrame {W = W} (λ s'. Shows es s')
      frame = record {
        world = λ w s' h'. h';
        receive = λ fd bytes s' h'. h';
        send = λ fd bytes s' h'. h';
        down = λ n s' h'. h';
        up = λ n s' h'. h';
      }

  connect_socks_target-Shows :
      (address : SockAddr) (es : List Event) (s : Sys W)
      → Shows es s
      → Shows es (connect_socks_target os address s).1
  unfolding connect_socks_target connect_or_close
  connect_socks_target-Shows address es s h =
      elim (Answer-cases (os.socket s.world (family address) tcp_socket).0) [
        | inr (x, e) ↦ rw (e, connect_socks_target) h
        | inl (fd, e) ↦
            elim (Answer-cases
              (os.connect (os.socket s.world (family address) tcp_socket).1 fd address).0) [
                | inl (v, e') ↦ rw (e, connect_socks_target, connect_or_close, e') h
                | inr (x, e') ↦ rw (e, connect_socks_target, connect_or_close, e') h
              ]
      ]

  module _ (es : List Event) (id : ℕ) (a : Addrport) where
    closing-trace :
        (fd : ℕ) (st : ConnectionState) (s : Sys W)
        → s.handler ≡ true
        → (sys_close os fd (emit_addrport_connection_event id tcp st a (final_error st) s)).trace
          ≡ closed_fd fd ∷ emitted (event id a st (final_error st)) ∷ s.trace
    unfolding emit_addrport_connection_event emit_connection_event
    closing-trace fd st s set = rw set refl

    relay_target-IsReported :
        (fd : ℕ) (s : Sys W) (r : Loop)
        → (copyloop os c.rounds c.client_fd fd s).0 ≡ r
        → Shows (es ++ event id a is_open success ∷ []) s
        → IsReported os c es id a (relay_target os net lib c id a fd s)
    unfolding relay_target
    relay_target-IsReported fd s (running p) e h =
        rw (e, relay_target)
          ((fd, s, h, λ st. rw e (λ q. cc q)), copyloop-Shows c.rounds c.client_fd fd _ s h)
    relay_target-IsReported fd s stuck e h =
        rw (e, relay_target)
          ((fd, s, h, λ st. rw e (λ q. cc q)), copyloop-Shows c.rounds c.client_fd fd _ s h)
    relay_target-IsReported fd s (returned st) e h =
        let kept = copyloop-Shows c.rounds c.client_fd fd _ s h in
        rw (e, relay_target)
          (inr (
            st,
            fd,
            s,
            (h, e),
            closing-trace fd st (copyloop os c.rounds c.client_fd fd s).1 kept.1,
            rw
                (← append_assoc es (event id a is_open success ∷ [])
                  (event id a st (final_error st) ∷ []))
                (report-Shows id a st (final_error st) _ (copyloop os c.rounds c.client_fd fd s).1
                  kept),
          ))

    answer_target-IsReported :
        (fd : ℕ) (local : SockAddr) (s : Sys W)
        → Shows es s
        → IsReported os c es id a (answer_target os net lib c id a fd local s)
    unfolding answer_target
    answer_target-IsReported fd local s h = elim (Option-cases (send_response success local)) [
      | inl e ↦ rw (e, answer_target) h
      | inr (bytes, e) ↦ elim (Bool-cases (write_reply os c.client_fd bytes s).0) [
        | inr w ↦
            rw (e, answer_target, w)
              (inl (
                general_failure,
                report-Shows id a ConnectionState.failed general_failure es
                    (write_reply os c.client_fd bytes s).1
                    (write_reply-Shows c.client_fd bytes es s h),
              ))
        | inl w ↦
            rw (e, answer_target, w)
              (relay_target-IsReported fd _ _ refl (
                report-Shows id a is_open success es (write_reply os c.client_fd bytes s).1
                  (write_reply-Shows c.client_fd bytes es s h)))
      ]
    ]

    serve_target-IsReported :
        (fd : ℕ) (s : Sys W)
        → Shows es s
        → IsReported os c es id a (serve_target os net lib c id a fd s)
    unfolding serve_target
    serve_target-IsReported fd s h = elim (Answer-cases (os.getsockname s.world fd).0) [
      | inl (local, e) ↦
          rw (e, serve_target)
            (answer_target-IsReported fd local (moved (os.getsockname s.world fd).1 s) h)
      | inr (x, e) ↦
          rw (e, serve_target)
            (inl (
              general_failure,
              report-Shows id a ConnectionState.failed general_failure es
                  (moved (os.getsockname s.world fd).1 s) h,
            ))
    ]

  connected-IsReported :
      (es : List Event) (a : Addrport) (address : SockAddr) (s : Sys W) (t : Target)
      → (connect_socks_target os address (next_connection_identifier s).1).0 ≡ t
      → Shows es (connect_socks_target os address (next_connection_identifier s).1).1
      → IsReported os c es
          (next_connection_identifier s).0
          a
          (handle_connect os net lib c a address s)
  unfolding handle_connect
  connected-IsReported es a address s (target fd) e h =
      rw (e, handle_connect)
        (serve_target-IsReported es (next_connection_identifier s).0 a fd
          (connect_socks_target os address (next_connection_identifier s).1).1 h)
  connected-IsReported es a address s (refused code) e h =
      rw (e, handle_connect)
        (inl (
          code,
          write_reply-Shows c.client_fd (send_error code) _ _ (
              report-Shows (next_connection_identifier s).0 a ConnectionState.failed code es
                (connect_socks_target os address (next_connection_identifier s).1).1 h),
        ))

  -- Where an event handler is set, a CONNECT that ends is reported either once, as failed, or
  -- twice, as open and then with the state that the relay begun after the first report returned and
  -- with that state's code, whereupon the target's socket is closed; one whose relay has not ended
  -- is reported once, as open; all under the identifier that it took and with the host and port that
  -- the client asked for; and it never goes back to reading.
  pub handle_connect-IsReported :
      (a : Addrport) (address : SockAddr) (s : Sys W)
      → s.handler ≡ true
      → IsReported os c
          (events s.trace)
          s.next_identifier
          a
          (handle_connect os net lib c a address s)
  unfolding next_connection_identifier
  handle_connect-IsReported a address s set =
      connected-IsReported (events s.trace) a address s _ refl (
        connect_socks_target-Shows address (events s.trace) (next_connection_identifier s).1
          (refl, set))
