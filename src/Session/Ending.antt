-- ===== src/Session/Ending.antt =====
-- TwoSocks/microsocks/sockssrv.c, `clientthread`: the sockets that are open at the end of a thread.
use two_socks.Prelude.{
  ℕ, zero, suc, ◌≡◌, ◌≢◌, refl, ◌⊎◌, List, [], ◌∷◌, Option, none, some, arith, inl, inr, Bool-cases,
  Option-cases, ◌∙◌, ◌==◌, if◌then◌else◌,
}
use two_socks.Codes.{
  ErrorCode, SocksState, connected, need_auth, authed, udp_socket, Cmd, connect, udp_associate,
  method_value, error_value, AuthMethod,
}
use two_socks.Platform.{Inet, Family}
use two_socks.SockAddr.{SockAddr, family, sockaddr_is_unspecified}
use two_socks.Addrport.{Addrport}
use two_socks.Buffer.{Result, ok, err, fault}
use two_socks.Auth.{Credentials, check_auth_method, check_credentials}
use two_socks.Reply.{send_auth_response}
use two_socks.Os.{Os, Answer-cases, value}
use two_socks.System.{Sys, moved, note, received, sys_close}
use two_socks.Request.{parse_request, parse_socks_request_header, socket_type}
use two_socks.Resolve.{resolve, resolve_socks5_addrport}
use two_socks.Connect.{target, connect_or_close, bind_any, bind_or_close, udp_svc_setup}
use two_socks.Session.{
  Lists, Next, read_on, break_loop, relaying, aborted, Exit, done, still_relaying, still_reading,
  crashed, Config, is_whitelisted, greet, log_in, serve, serve_request, handle_packet, session,
  clientthread, state_after, after_login,
}
use two_socks.Session.Descriptors.{Change, Balanced, write_reply-Balanced, trans-Even}
use two_socks.Session.Pass.{heard, after_packet, session-cases}
use two_socks.Session.Closing.{
  IsClean, IsTidy, Leaks, IsClean-IsTidy, handle_connect-IsClean, handle_udp_associate-IsTidy,
}

-- The thread closed what it opened and the socket of its client, except that a new UDP socket with
-- the descriptor 0 is left open.
abbrev pub IsLeft : {W L : Type 0} → Os W → ℕ → Sys W → Exit × Option L × Sys W → Type 0
IsLeft {W} os client s (done, ips, s') =
    ((fd : ℕ) → Change fd 0 (if client == fd then 1 else 0) s.trace s'.trace)
    ⊎ (((w : W) × (f : Family) × ((os.socket w f udp_socket).0 ≡ value 0))
        × ((fd : ℕ)
            → Change fd (if 0 == fd then 1 else 0) (if client == fd then 1 else 0) s.trace
                s'.trace))
IsLeft os client s (still_relaying, ips, s') = Unit
IsLeft os client s (still_reading state, ips, s') = Unit
IsLeft os client s (crashed, ips, s') = Unit

-- The same from an earlier point, where nothing was left open in between.
IsTidy-after :
    {W : Type 0} (os : Os W) (s0 s : Sys W) (n : Next) (s' : Sys W)
    → Balanced s0 s
    → IsTidy os s (n, s')
    → IsTidy os s0 (n, s')
IsTidy-after os s0 s (read_on state) s' h k = trans-Even h k
IsTidy-after os s0 s break_loop s' h (inl k) = inl (trans-Even h k)
IsTidy-after os s0 s break_loop s' h (inr (null, k)) =
    inr (null, record { holding = λ x. omega (arith, h.even x, k.holding x) })
IsTidy-after os s0 s relaying s' h k = tt
IsTidy-after os s0 s aborted s' h k = tt

module _ {W L D : Type 0} (os : Os W) (net : Inet) (lib : Lists L D) (c : Config) where
  -- What the thread has after a packet.
  abbrev handled : SocksState → List ℕ → Option L → Sys W → Next × Option L × Sys W
  handled state buf ips s =
      handle_packet os net lib c state buf ips
        (note (received c.client_fd buf) (moved (os.read s.world c.client_fd 1024).1 s))

  closed-ne-zero :
      (fd : ℕ) (a : SockAddr) (s : Sys W) → (connect_or_close os (suc fd) a s).0 ≢ target 0
  unfolding connect_or_close
  closed-ne-zero fd a s = elim (Answer-cases (os.connect s.world (suc fd) a).0) [
    | inl (v, e) ↦ rw (e, connect_or_close) (λ q. cc q)
    | inr (x, e) ↦ rw (e, connect_or_close) (λ q. cc q)
  ]

  bound-ne-zero : (fd : ℕ) (s : Sys W) → (bind_any os (suc fd) s).0 ≢ target 0
  unfolding bind_any bind_or_close
  bound-ne-zero fd s = elim (Option-cases (os.getaddrinfo s.world none (b'0' ∷ []) udp_socket).0) [
    | inl e ↦ rw (e, bind_any) (λ q. cc q)
    | inr ((local, rest), e) ↦
        elim (Answer-cases
          (os.bind (os.getaddrinfo s.world none (b'0' ∷ []) udp_socket).1 (suc fd) local).0) [
            | inl (v, e') ↦ rw (e, bind_any, e', bind_or_close) (λ q. cc q)
            | inr (x, e') ↦ rw (e, bind_any, e', bind_or_close) (λ q. cc q)
          ]
  ]

  -- A socket set up for an association is the descriptor 0 only if `socket` returned that.
  setup-zero :
      (address : SockAddr) (s : Sys W)
      → (udp_svc_setup os address s).0 ≡ target 0
      → (w : W) × (f : Family) × ((os.socket w f udp_socket).0 ≡ value 0)
  unfolding udp_svc_setup
  setup-zero a s = elim (Answer-cases (os.socket s.world (family a) udp_socket).0) [
    | inr (x, e) ↦ rw (e, udp_svc_setup) (λ q. absurd (cc q))
    | inl (zero, e) ↦ λ q. (s.world, family a, e)
    | inl (suc fd, e) ↦ elim (Bool-cases (sockaddr_is_unspecified a)) [
      | inl any ↦ rw (e, udp_svc_setup, any) (λ q. absurd (bound-ne-zero fd _ q))
      | inr one ↦ rw (e, udp_svc_setup, one) (λ q. absurd (closed-ne-zero fd a _ q))
    ]
  ]

  greet-Balanced :
      (buf : List ℕ) (ips : Option L) (s0 s : Sys W)
      → Balanced s0 s
      → IsClean s0 ((greet os net lib c buf ips s).0, (greet os net lib c buf ips s).2)
  unfolding greet
  greet-Balanced buf ips s0 s h = greeted _ refl
    where
      through :
          (am : AuthMethod) (s' : Sys W)
          → Balanced s0 s'
          → IsClean s0 (state_after os net lib c am, s')
      through AuthMethod.no_auth s' k = k
      through AuthMethod.gssapi s' k = k
      through AuthMethod.username s' k = k
      through AuthMethod.invalid s' k = k

      greeted :
          (r : Result AuthMethod)
          → check_auth_method c.creds (is_whitelisted os net lib c s.world ips) buf ≡ r
          → IsClean s0 ((greet os net lib c buf ips s).0, (greet os net lib c buf ips s).2)
      greeted fault e = rw (e, greet) tt
      greeted (err x) e = rw (e, greet) tt
      greeted (ok am) e =
          rw (e, greet)
            (through am _ (
              trans-Even h
                (write_reply-Balanced os c.client_fd (send_auth_response 5 (method_value am)) s)))

  log_in-Balanced :
      (buf : List ℕ) (ips : Option L) (s0 s : Sys W)
      → Balanced s0 s
      → IsClean s0 ((log_in os net lib c buf ips s).0, (log_in os net lib c buf ips s).2)
  unfolding log_in
  log_in-Balanced buf ips s0 s h = elim (Option-cases c.creds) [
    | inl e ↦ rw (e, log_in) tt
    | inr (cr, e) ↦ logged cr e _ refl
  ]
    where
      through :
          (code : ErrorCode) (s' : Sys W)
          → Balanced s0 s'
          → IsClean s0
              ((after_login os net lib c code ips s').0, (after_login os net lib c code ips s').2)
      through ErrorCode.success s' k = k
      through ErrorCode.general_failure s' k = k
      through ErrorCode.not_allowed s' k = k
      through ErrorCode.net_unreachable s' k = k
      through ErrorCode.host_unreachable s' k = k
      through ErrorCode.conn_refused s' k = k
      through ErrorCode.ttl_expired s' k = k
      through ErrorCode.command_not_supported s' k = k
      through ErrorCode.addresstype_not_supported s' k = k
      through ErrorCode.bind_ip_not_provided s' k = k

      logged :
          (cr : Credentials)
          → c.creds ≡ some cr
          → (r : Result ErrorCode) → check_credentials cr buf ≡ r
          → IsClean s0 ((log_in os net lib c buf ips s).0, (log_in os net lib c buf ips s).2)
      logged cr e fault f = rw (e, log_in, f) tt
      logged cr e (err x) f = rw (e, log_in, f) tt
      logged cr e (ok code) f =
          rw (e, log_in, f)
            (through code _ (
              trans-Even h
                (write_reply-Balanced os c.client_fd (send_auth_response 1 (error_value code)) s)))

  serve-IsTidy :
      (r : Result (Cmd × Addrport × SockAddr)) (s : Sys W) → IsTidy os s (serve os net lib c (r, s))
  serve-IsTidy (err e) s = inl (record { even = λ x. omega arith })
  serve-IsTidy fault s = tt
  serve-IsTidy (ok (connect, a, address)) s =
      IsClean-IsTidy os s _ _ (handle_connect-IsClean os net lib c a address s)
  serve-IsTidy (ok (udp_associate, a, address)) s =
      handle_udp_associate-IsTidy os net lib c (λ t address' s' e z. setup-zero address' s' (e ∙ z))
        address s

  serve_request-IsTidy :
      (buf : List ℕ) (s0 s : Sys W) (r : Result (Cmd × Addrport))
      → parse_request net buf ≡ r
      → Balanced s0 s
      → IsTidy os s0 (serve_request os net lib c buf s)
  unfolding serve_request parse_socks_request_header resolve_socks5_addrport resolve
  serve_request-IsTidy buf s0 s (err x) e h =
      rw (e, serve_request, parse_socks_request_header) (inl h)
  serve_request-IsTidy buf s0 s fault e h = rw (e, serve_request, parse_socks_request_header) tt
  serve_request-IsTidy buf s0 s (ok (cmd, a)) e h =
      rw (e, serve_request, parse_socks_request_header)
        (IsTidy-after os s0 (resolve_socks5_addrport os a (socket_type cmd) s).1 _ _ h
          (serve-IsTidy _ (resolve_socks5_addrport os a (socket_type cmd) s).1))

  handle_packet-IsTidy :
      (state : SocksState) (buf : List ℕ) (ips : Option L) (s0 s : Sys W)
      → Balanced s0 s
      → IsTidy os s0 (
        (handle_packet os net lib c state buf ips s).0,
        (handle_packet os net lib c state buf ips s).2,
      )
  unfolding handle_packet
  handle_packet-IsTidy connected buf ips s0 s h =
      IsClean-IsTidy os s0 _ _ (greet-Balanced buf ips s0 s h)
  handle_packet-IsTidy need_auth buf ips s0 s h =
      IsClean-IsTidy os s0 _ _ (log_in-Balanced buf ips s0 s h)
  handle_packet-IsTidy authed buf ips s0 s h = serve_request-IsTidy buf s0 s _ refl h

  left :
      (s0 s' : Sys W) (ips : Option L)
      → Balanced s0 s' ⊎ Leaks os s0 s'
      → IsLeft os c.client_fd s0 (done, ips, sys_close os c.client_fd s')
  left s0 s' ips (inl h) = inl (λ x. omega (arith, h.even x))
  left s0 s' ips (inr (null, h)) = inr (null, λ x. omega (arith, h.holding x))

  -- What the thread does after the packet.
  packet-IsLeft :
      (k : ℕ) (s0 : Sys W) (r : Next × Option L × Sys W)
      → ((state' : SocksState) (ips' : Option L) (s' : Sys W)
          → Balanced s0 s'
          → IsLeft os c.client_fd s0 (session os net lib c k state' ips' s'))
      → IsTidy os s0 (r.0, r.2)
      → IsLeft os c.client_fd s0 (after_packet os net lib c k r)
  packet-IsLeft k s0 (read_on state', ips, s) ih h = ih state' ips s h
  packet-IsLeft k s0 (break_loop, ips, s) ih h = left s0 s ips h
  packet-IsLeft k s0 (relaying, ips, s) ih h = tt
  packet-IsLeft k s0 (aborted, ips, s) ih h = tt

  session-IsLeft :
      (k : ℕ) (state : SocksState) (ips : Option L) (s0 s : Sys W)
      → Balanced s0 s
      → IsLeft os c.client_fd s0 (session os net lib c k state ips s)
  unfolding session
  session-IsLeft zero state ips s0 s h = tt
  session-IsLeft (suc k) state ips s0 s h = elim (session-cases os net lib c state ips s) [
    | inl f ↦ rw (f k) (left s0 (moved (os.read s.world c.client_fd 1024).1 s) ips (inl h))
    | inr (buf, e, more, f) ↦ rw (f k) (
        packet-IsLeft k s0 _ (λ state' ips' s'. session-IsLeft k state' ips' s0 s')
          (handle_packet-IsTidy state buf ips s0 (heard os net lib c buf s)
            (trans-Even h (record { even = λ x. omega arith }))))
  ]

-- A thread that ends has closed every socket that it opened, each as often as it was opened, and
-- the client's socket once more; or it has done so except for one socket, the descriptor 0, and
-- then the system's `socket` does return the descriptor 0 for a new UDP socket. This is so for every
-- system, every packet of the client and every failure of a call, through both relays.
pub clientthread-closes :
    {W L D : Type 0} (os : Os W) (net : Inet) (lib : Lists L D) (c : Config) (ips : Option L)
    (s : Sys W)
    → IsLeft os c.client_fd s (clientthread os net lib c ips s)
unfolding clientthread
clientthread-closes os net lib c ips s =
    session-IsLeft os net lib c 3 connected ips s s (record { even = λ x. omega arith })
