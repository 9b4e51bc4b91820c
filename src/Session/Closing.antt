-- ===== src/Session/Closing.antt =====
-- TwoSocks/microsocks/sockssrv.c, `clientthread`: the sockets that the handling of a request opens
-- and closes.
use two_socks.Prelude.{
  ℕ, zero, suc, ◌≡◌, refl, ◌⊎◌, false, Option, none, some, arith, inl, inr, Bool-cases,
  Option-cases, ◌==◌,
}
use two_socks.Codes.{ErrorCode, success, general_failure, tcp, udp_socket, ConnectionState, is_open}
use two_socks.Platform.{Inet, Family}
use two_socks.SockAddr.{SockAddr}
use two_socks.Addrport.{Addrport}
use two_socks.Reply.{send_response, send_error}
use two_socks.Os.{Os, Answer-cases, value}
use two_socks.System.{
  Sys, moved, next_connection_identifier, sys_close, emit_addrport_connection_event,
}
use two_socks.Relay.{Loop, running, stuck, returned, copyloop}
use two_socks.Connect.{
  Target, target, refused, write_reply, connect_socks_target, udp_svc_setup,
  populate_udp_response_addr,
}
use two_socks.Association.{Udp, ended, going, crashed, copy_loop_udp}
use two_socks.Association.Tables.{start-IsTracked, Run-IsTracked, IsEnd-opens-closes}
use two_socks.Association.Sound.{IsAssociation, copy_loop_udp-IsAssociation}
use two_socks.Session.{
  relay_association, Lists, Next, read_on, break_loop, relaying, aborted, Config, final_error,
  relay_target, answer_target, serve_target, handle_connect, answer_association,
  handle_udp_associate,
}
use two_socks.Session.Descriptors.{
  Balanced, Holds, IsTarget, write_reply-Balanced, report-Balanced, copyloop-Balanced,
  populate-Balanced, connect_socks_target-IsTarget, udp_svc_setup-IsTarget, trans-Even,
  trans-Holding, close-Even,
}

-- Every descriptor that the handling of a packet opened is closed, where the loop goes on or
-- breaks.
abbrev pub IsClean : {W : Type 0} → Sys W → Next × Sys W → Type 0
IsClean s (read_on state, s') = Balanced s s'
IsClean s (break_loop, s') = Balanced s s'
IsClean s (relaying, s') = Unit
IsClean s (aborted, s') = Unit

-- A new UDP socket was the descriptor 0, and it is still open.
abbrev pub Leaks : {W : Type 0} → Os W → Sys W → Sys W → Type 0
Leaks {W} os s s' =
    ((w : W) × (f : Family) × ((os.socket w f udp_socket).0 ≡ value 0)) × Holds 0 s s'

-- The same, where a socket with the descriptor 0 may be left open.
abbrev pub IsTidy : {W : Type 0} → Os W → Sys W → Next × Sys W → Type 0
IsTidy os s (read_on state, s') = Balanced s s'
IsTidy os s (break_loop, s') = Balanced s s' ⊎ Leaks os s s'
IsTidy os s (relaying, s') = Unit
IsTidy os s (aborted, s') = Unit

pub IsClean-IsTidy :
    {W : Type 0} (os : Os W) (s : Sys W) (n : Next) (s' : Sys W)
    → IsClean s (n, s')
    → IsTidy os s (n, s')
IsClean-IsTidy os s (read_on state) s' h = h
IsClean-IsTidy os s break_loop s' h = inl h
IsClean-IsTidy os s relaying s' h = tt
IsClean-IsTidy os s aborted s' h = tt

module _ {W L D : Type 0} (os : Os W) (net : Inet) (lib : Lists L D) (c : Config) where
  closed-IsClean :
      (id : ℕ) (a : Addrport) (st : ConnectionState) (code : ErrorCode) (fd : ℕ) (s0 s : Sys W)
      → Holds fd s0 s
      → IsClean s0 (break_loop, sys_close os fd (emit_addrport_connection_event id tcp st a code s))
  closed-IsClean id a st code fd s0 s h =
      close-Even (trans-Holding h (report-Balanced os id tcp a st code s))

  relayed-IsClean :
      (id : ℕ) (a : Addrport) (fd : ℕ) (s0 s : Sys W) (r : Loop)
      → (copyloop os c.rounds c.client_fd fd s).0 ≡ r
      → Holds fd s0 s
      → IsClean s0 (relay_target os net lib c id a fd s)
  unfolding relay_target
  relayed-IsClean id a fd s0 s (running st) e h = rw (e, relay_target) tt
  relayed-IsClean id a fd s0 s stuck e h = rw (e, relay_target) tt
  relayed-IsClean id a fd s0 s (returned st) e h =
      rw (e, relay_target)
        (closed-IsClean id a st (final_error st) fd s0 (copyloop os c.rounds c.client_fd fd s).1
          (trans-Holding h (copyloop-Balanced os c.rounds c.client_fd fd s)))

  answer_target-IsClean :
      (id : ℕ) (a : Addrport) (fd : ℕ) (local : SockAddr) (s0 s : Sys W)
      → Holds fd s0 s
      → IsClean s0 (answer_target os net lib c id a fd local s)
  unfolding answer_target
  answer_target-IsClean id a fd local s0 s h = elim (Option-cases (send_response success local)) [
    | inl e ↦ rw (e, answer_target) tt
    | inr (bytes, e) ↦ elim (Bool-cases (write_reply os c.client_fd bytes s).0) [
      | inr w ↦
          rw (e, answer_target, w)
            (closed-IsClean id a ConnectionState.failed general_failure fd s0
              (write_reply os c.client_fd bytes s).1
              (trans-Holding h (write_reply-Balanced os c.client_fd bytes s)))
      | inl w ↦
          rw (e, answer_target, w)
            (relayed-IsClean id a fd s0
              (emit_addrport_connection_event id tcp is_open a success
                (write_reply os c.client_fd bytes s).1)
              _ refl
              (trans-Holding (trans-Holding h (write_reply-Balanced os c.client_fd bytes s)) (
                report-Balanced os id tcp a is_open success
                  (write_reply os c.client_fd bytes s).1)))
    ]
  ]

  serve_target-IsClean :
      (id : ℕ) (a : Addrport) (fd : ℕ) (s0 s : Sys W)
      → Holds fd s0 s
      → IsClean s0 (serve_target os net lib c id a fd s)
  unfolding serve_target
  serve_target-IsClean id a fd s0 s h = elim (Answer-cases (os.getsockname s.world fd).0) [
    | inl (local, e) ↦
        rw (e, serve_target)
          (answer_target-IsClean id a fd local s0 (moved (os.getsockname s.world fd).1 s) h)
    | inr (x, e) ↦
        rw (e, serve_target)
          (closed-IsClean id a ConnectionState.failed general_failure fd s0
            (moved (os.getsockname s.world fd).1 s) h)
  ]

  connected-IsClean :
      (a : Addrport) (address : SockAddr) (s : Sys W) (t : Target)
      → (connect_socks_target os address (next_connection_identifier s).1).0 ≡ t
      → IsTarget os s (t, (connect_socks_target os address (next_connection_identifier s).1).1)
      → IsClean s (handle_connect os net lib c a address s)
  unfolding handle_connect
  connected-IsClean a address s (target fd) e h =
      rw (e, handle_connect)
        (serve_target-IsClean (next_connection_identifier s).0 a fd s
          (connect_socks_target os address (next_connection_identifier s).1).1 h)
  connected-IsClean a address s (refused code) e h =
      rw (e, handle_connect)
        (trans-Even
          (trans-Even h (
            report-Balanced os (next_connection_identifier s).0 tcp a ConnectionState.failed code
              (connect_socks_target os address (next_connection_identifier s).1).1))
          (write_reply-Balanced os c.client_fd (send_error code) (
            emit_addrport_connection_event (next_connection_identifier s).0 tcp
              ConnectionState.failed a code
              (connect_socks_target os address (next_connection_identifier s).1).1)))

  pub handle_connect-IsClean :
      (a : Addrport) (address : SockAddr) (s : Sys W)
      → IsClean s (handle_connect os net lib c a address s)
  unfolding next_connection_identifier
  handle_connect-IsClean a address s =
      connected-IsClean a address s _ refl
        (connect_socks_target-IsTarget os address (next_connection_identifier s).1)

  -- The relay of an association opens and closes sockets of its own; none of them is left open.
  relay_association-IsClean :
      (fd : ℕ) (s0 s : Sys W) (u : Udp)
      → (copy_loop_udp os net lib.destinations c.rounds c.client_fd fd s).0 ≡ u
      → Holds fd s0 s
      → IsAssociation os net lib.destinations fd s
          (u, (copy_loop_udp os net lib.destinations c.rounds c.client_fd fd s).1)
      → IsClean s0 (relay_association os net lib c fd s)
  unfolding relay_association
  relay_association-IsClean fd s0 s ended e h (x, state, code, ending, r, end) =
      rw (e, relay_association)
        (close-Even (
          trans-Holding h (record {
            even = λ y. omega (
              arith,
              IsEnd-opens-closes s.trace x state code _
                  (Run-IsTracked s.trace r (start-IsTracked s)) end y,
            );
          })))
  relay_association-IsClean fd s0 s going e h r = rw (e, relay_association) tt
  relay_association-IsClean fd s0 s crashed e h r = rw (e, relay_association) tt

  answered-IsClean :
      (fd : ℕ) (local : Option SockAddr) (s0 s : Sys W)
      → Holds fd s0 s
      → IsClean s0 (answer_association os net lib c fd local s)
  unfolding answer_association
  answered-IsClean fd none s0 s h = close-Even h
  answered-IsClean fd (some local) s0 s h = elim (Option-cases (send_response success local)) [
    | inl e ↦ rw (e, answer_association) tt
    | inr (bytes, e) ↦ elim (Bool-cases (write_reply os c.client_fd bytes s).0) [
      | inr w ↦
          rw (e, answer_association, w)
            (close-Even (trans-Holding h (write_reply-Balanced os c.client_fd bytes s)))
      | inl w ↦
          rw (e, answer_association, w)
            (relay_association-IsClean fd s0 (write_reply os c.client_fd bytes s).1 _ refl
              (trans-Holding h (write_reply-Balanced os c.client_fd bytes s))
              (copy_loop_udp-IsAssociation os net lib.destinations c.rounds c.client_fd fd
                (write_reply os c.client_fd bytes s).1))
    ]
  ]

  -- A new UDP socket with the descriptor 0 is taken for a failure.
  associated-IsTidy :
      (address : SockAddr) (s : Sys W) (t : Target)
      → (udp_svc_setup os address s).0 ≡ t
      → (t ≡ target 0 → (w : W) × (f : Family) × ((os.socket w f udp_socket).0 ≡ value 0))
      → IsTarget os s (t, (udp_svc_setup os address s).1)
      → IsTidy os s (handle_udp_associate os net lib c address s)
  unfolding handle_udp_associate
  associated-IsTidy address s (refused code) e null h =
      rw (e, handle_udp_associate)
        (inl (
          trans-Even h
            (write_reply-Balanced os c.client_fd (send_error code) (udp_svc_setup os address s).1)))
  associated-IsTidy address s (target zero) e null h =
      rw (e, handle_udp_associate)
        (inr (
          null refl,
          trans-Holding h (
              write_reply-Balanced os c.client_fd (send_error success)
                (udp_svc_setup os address s).1),
        ))
  associated-IsTidy address s (target (suc fd)) e null h =
      let positive : (suc fd == 0) ≡ false = ground arith in
      rw (e, handle_udp_associate, positive)
        (IsClean-IsTidy os s _ _ (
          answered-IsClean (suc fd)
            (populate_udp_response_addr os (suc fd) c.client_fd (udp_svc_setup os address s).1).0 s
            (populate_udp_response_addr os (suc fd) c.client_fd (udp_svc_setup os address s).1).1
            (trans-Holding h
              (populate-Balanced os (suc fd) c.client_fd (udp_svc_setup os address s).1))))

  pub handle_udp_associate-IsTidy :
      ((t : Target) (address : SockAddr) (s : Sys W)
        → (udp_svc_setup os address s).0 ≡ t
        → t ≡ target 0
        → (w : W) × (f : Family) × ((os.socket w f udp_socket).0 ≡ value 0))
      → (address : SockAddr) (s : Sys W) → IsTidy os s (handle_udp_associate os net lib c address s)
  handle_udp_associate-IsTidy null address s =
      associated-IsTidy address s _ refl (null _ address s refl)
        (udp_svc_setup-IsTarget os address s)
