-- ===== src/Session/Descriptors.antt =====
-- No path through a session leaks a descriptor or closes one twice.
use two_socks.Prelude.{
  ℕ, ◌+◌, ◌≡◌, List, [], ◌∷◌, none, arith, inl, inr, Bool-cases, Option-cases, ◌==◌, if◌then◌else◌,
}
use two_socks.Codes.{ErrorCode, tcp_socket, udp_socket, Protocol, ConnectionState}
use two_socks.SockAddr.{SockAddr, family, sockaddr_is_unspecified}
use two_socks.Addrport.{Addrport}
use two_socks.Os.{Os, Answer-cases, Sent-cases}
use two_socks.System.{
  Effect, closed_fd, Sys, moved, note, opened, emit_connection_event,
  emit_addrport_connection_event,
}
use two_socks.System.Trace.{opens, closes}
use two_socks.Relay.{copyloop}
use two_socks.Relay.Frame.{IsFrame, copyloop-keeps}
use two_socks.Connect.{
  Target, target, refused, write_reply, connect_or_close, connect_socks_target, bind_or_close,
  bind_any, udp_svc_setup, populate_udp_response_addr,
}

-- Between two traces, `fd` was opened as often as it was closed, but for `extra` times more, or
-- was closed `missing` times more.
abbrev pub Change : ℕ → ℕ → ℕ → List Effect → List Effect → Type 0
Change fd extra missing t t' =
    opens fd t' + closes fd t + missing ≡ closes fd t' + opens fd t + extra

-- Whatever was opened since was closed, but for `held`, which is open.
pub record Even (t t' : List Effect) : Type 0 where
  pub even : (fd : ℕ) → Change fd 0 0 t t'

pub record Holding (held : ℕ) (t t' : List Effect) : Type 0 where
  pub holding : (fd : ℕ) → Change fd (if held == fd then 1 else 0) 0 t t'

abbrev pub Balanced : {W : Type 0} → Sys W → Sys W → Type 0
Balanced s s' = Even s.trace s'.trace

abbrev pub Holds : {W : Type 0} → ℕ → Sys W → Sys W → Type 0
Holds held s s' = Holding held s.trace s'.trace

pub trans-Even : {t0 t1 t2 : List Effect} → Even t0 t1 → Even t1 t2 → Even t0 t2
trans-Even h k = record { even = λ x. omega (arith, h.even x, k.even x) }

pub trans-Holding :
    {fd : ℕ} {t0 t1 t2 : List Effect} → Holding fd t0 t1 → Even t1 t2 → Holding fd t0 t2
trans-Holding {fd} h k = record { holding = λ x. ground (arith, h.holding x, k.even x) }

pub close-Even : {fd : ℕ} {t t' : List Effect} → Holding fd t t' → Even t (closed_fd fd ∷ t')
close-Even {fd} h = record { even = λ x. ground (arith, h.holding x) }

module _ {W : Type 0} (os : Os W) where
  pub write_reply-Balanced :
      (fd : ℕ) (bytes : List ℕ) (s : Sys W) → Balanced s (write_reply os fd bytes s).1
  unfolding write_reply
  write_reply-Balanced fd bytes s = elim (Sent-cases (os.write s.world fd bytes).0) [
    | inl (m, e) ↦ rw (e, write_reply) (record { even = λ x. omega arith })
    | inr (m, e) ↦ rw (e, write_reply) (record { even = λ x. omega arith })
  ]

  pub report-Balanced :
      (id : ℕ) (pr : Protocol) (a : Addrport) (st : ConnectionState) (code : ErrorCode) (s : Sys W)
      → Balanced s (emit_addrport_connection_event id pr st a code s)
  unfolding emit_addrport_connection_event emit_connection_event
  report-Balanced id pr a st code s = elim (Bool-cases s.handler) [
    | inl e ↦ rw e (record { even = λ x. omega arith })
    | inr e ↦ rw e (record { even = λ x. omega arith })
  ]

  pub copyloop-Balanced : (k fd1 fd2 : ℕ) (s : Sys W) → Balanced s (copyloop os k fd1 fd2 s).1
  copyloop-Balanced k fd1 fd2 s =
      copyloop-keeps (λ s'. Even s.trace s'.trace) frame os fd1 fd2 k s
        (record { even = λ x. omega arith })
    where
      frame : IsFrame {W = W} (λ s'. Even s.trace s'.trace)
      frame = record {
        world = λ w s' h. h;
        receive = λ fd bytes s' h. record { even = λ x. omega (arith, h.even x) };
        send = λ fd bytes s' h. record { even = λ x. omega (arith, h.even x) };
        down = λ n s' h. h;
        up = λ n s' h. h;
      }

  -- A socket that was opened and connected is held; one that failed is closed.
  abbrev pub IsTarget : Sys W → Target × Sys W → Type 0
  IsTarget s (target fd, s') = Holds fd s s'
  IsTarget s (refused code, s') = Balanced s s'

  connect_or_close-IsTarget :
      (fd : ℕ) (a : SockAddr) (s0 s : Sys W)
      → Holds fd s0 s
      → IsTarget s0 (connect_or_close os fd a s)
  unfolding connect_or_close
  connect_or_close-IsTarget fd a s0 s h = elim (Answer-cases (os.connect s.world fd a).0) [
    | inl (v, e) ↦ rw (e, connect_or_close) (trans-Holding h (record { even = λ x. omega arith }))
    | inr (x, e) ↦ rw (e, connect_or_close) (close-Even h)
  ]

  opened-Holds : (fd : ℕ) (w : W) (s : Sys W) → Holds fd s (note (opened fd) (moved w s))
  opened-Holds fd w s = record { holding = λ x. omega arith }

  pub connect_socks_target-IsTarget :
      (a : SockAddr) (s : Sys W) → IsTarget s (connect_socks_target os a s)
  unfolding connect_socks_target
  connect_socks_target-IsTarget a s =
      elim (Answer-cases (os.socket s.world (family a) tcp_socket).0) [
        | inl (fd, e) ↦
            rw (e, connect_socks_target)
              (connect_or_close-IsTarget fd a s _
                (opened-Holds fd (os.socket s.world (family a) tcp_socket).1 s))
        | inr (x, e) ↦ rw (e, connect_socks_target) (record { even = λ x. omega arith })
      ]

  bind_any-IsTarget : (fd : ℕ) (s0 s : Sys W) → Holds fd s0 s → IsTarget s0 (bind_any os fd s)
  unfolding bind_any bind_or_close
  bind_any-IsTarget fd s0 s h =
      elim (Option-cases (os.getaddrinfo s.world none (b'0' ∷ []) udp_socket).0) [
        | inl e ↦ rw (e, bind_any) (close-Even h)
        | inr ((local, rest), e) ↦ rw (e, bind_any) (bound local _ h)
      ]
    where
      bound :
          (local : SockAddr) (s1 : Sys W)
          → Holds fd s0 s1
          → IsTarget s0 (bind_or_close os fd local s1)
      bound local s1 h1 = elim (Answer-cases (os.bind s1.world fd local).0) [
        | inl (v, e) ↦ rw (e, bind_or_close) h1
        | inr (x, e) ↦ rw (e, bind_or_close) (close-Even h1)
      ]

  pub udp_svc_setup-IsTarget : (a : SockAddr) (s : Sys W) → IsTarget s (udp_svc_setup os a s)
  unfolding udp_svc_setup
  udp_svc_setup-IsTarget a s = elim (Answer-cases (os.socket s.world (family a) udp_socket).0) [
    | inr (x, e) ↦ rw (e, udp_svc_setup) (record { even = λ x. omega arith })
    | inl (fd, e) ↦ elim (Bool-cases (sockaddr_is_unspecified a)) [
      | inl any ↦
          rw (e, udp_svc_setup, any)
            (bind_any-IsTarget fd s _
              (opened-Holds fd (os.socket s.world (family a) udp_socket).1 s))
      | inr one ↦
          rw (e, udp_svc_setup, one)
            (connect_or_close-IsTarget fd a s _
              (opened-Holds fd (os.socket s.world (family a) udp_socket).1 s))
    ]
  ]

  pub populate-Balanced :
      (fd tcp_fd : ℕ) (s : Sys W) → Balanced s (populate_udp_response_addr os fd tcp_fd s).1
  unfolding populate_udp_response_addr
  populate-Balanced fd tcp_fd s = elim (Answer-cases (os.getsockname s.world fd).0) [
    | inr (y, e) ↦ rw (e, populate_udp_response_addr) (record { even = λ x. omega arith })
    | inl (a, e) ↦ elim (Bool-cases (sockaddr_is_unspecified a)) [
      | inr one ↦ rw (e, populate_udp_response_addr, one) (record { even = λ x. omega arith })
      | inl any ↦ elim (Answer-cases (os.getsockname (os.getsockname s.world fd).1 tcp_fd).0) [
        | inl (b, e') ↦
            rw (e, populate_udp_response_addr, any, e') (record { even = λ x. omega arith })
        | inr (y, e') ↦
            rw (e, populate_udp_response_addr, any, e') (record { even = λ x. omega arith })
      ]
    ]
  ]
