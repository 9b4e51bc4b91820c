-- ===== src/Session/Steps.antt =====
-- TwoSocks/microsocks/sockssrv.c, `clientthread`: where the handling of a packet leaves the loop.
use two_socks.Prelude.{
  true, false, ℕ, suc, ◌≤◌, ◌≡◌, ◌≢◌, refl, sym, ◌∙◌, ◌⊎◌, Bool, List, [], ◌∷◌, Option, none, some,
  arith, inl, inr, All, Bool-cases, Option-cases, ◌==◌,
}
use two_socks.Codes.{
  ErrorCode, SocksState, connected, need_auth, authed, Cmd, connect, udp_associate, AuthMethod,
  invalid,
}
use two_socks.Platform.{Inet}
use two_socks.SockAddr.{SockAddr}
use two_socks.Addrport.{Addrport}
use two_socks.Buffer.{Result, ok, err, fault, at}
use two_socks.Auth.{Credentials, check_auth_method, check_credentials}
use two_socks.Auth.Methods.{IsFirst, Refuses, offered, check_auth_method_lem}
use two_socks.Reply.{send_response}
use two_socks.Os.{Os, Answer-cases}
use two_socks.System.{Sys, moved, next_connection_identifier}
use two_socks.Relay.{Loop, running, stuck, returned, copyloop}
use two_socks.Connect.{Target, target, refused, write_reply, connect_socks_target, udp_svc_setup}
use two_socks.Association.{Udp, ended, going, crashed, copy_loop_udp}
use two_socks.Session.{
  Lists, Next, read_on, break_loop, relaying, aborted, Config, is_listed, is_whitelisted,
  remember_client, relay_target, answer_target, serve_target, handle_connect, relay_association,
  answer_association, handle_udp_associate, greet, log_in, serve, serve_request, handle_packet,
  after_login,
}

-- How many packets a session reads from a state at most.
abbrev pub packets_left : SocksState → ℕ
packets_left connected = 3
packets_left need_auth = 2
packets_left authed = 1

-- Some packet is left in every state.
pub packets_left-ne-zero : (state : SocksState) → packets_left state ≤ 0 → ⊥
packets_left-ne-zero connected h = omega (arith, h)
packets_left-ne-zero need_auth h = omega (arith, h)
packets_left-ne-zero authed h = omega (arith, h)

-- The loop goes on in a state from which `k` packets are the most, if it goes on.
abbrev pub Leaves : ℕ → Next → Type 0
Leaves k (read_on state) = packets_left state ≤ k
Leaves k break_loop = Unit
Leaves k relaying = Unit
Leaves k aborted = Unit

pub check_auth_method-ne-gssapi :
    (creds : Option Credentials) (whitelisted : Bool) (buf : List ℕ)
    → check_auth_method creds whitelisted buf ≢ ok AuthMethod.gssapi
unfolding check_auth_method at
check_auth_method-ne-gssapi creds whitelisted [] h = cc
check_auth_method-ne-gssapi creds whitelisted (v ∷ bs) h =
    let (m, e, found) = check_auth_method_lem creds whitelisted v bs in
    excluded m
      (let same : ◌≡◌ {A = Result AuthMethod} (ok m) (ok AuthMethod.gssapi) = sym e ∙ h in cc) found
  where
    excluded :
        (m : AuthMethod)
        → m ≡ AuthMethod.gssapi
        → ((v ≡ 5) × IsFirst creds whitelisted m (offered (v ∷ bs)))
          ⊎ ((m ≡ invalid) × ((v ≢ 5) ⊎ All (Refuses creds whitelisted) (offered (v ∷ bs))))
        → ⊥
    excluded m em (inl (_, first)) = rw em at first.permitted
    excluded m em (inr (e, _)) = cc

weaken : (j k : ℕ) (n : Next) → Leaves j n → j ≤ k → Leaves k n
weaken j k (read_on state) l le = omega (arith, l, le)
weaken j k break_loop l le = tt
weaken j k relaying l le = tt
weaken j k aborted l le = tt

module _ {W L D : Type 0} (os : Os W) (net : Inet) (lib : Lists L D) (c : Config) where
  pub is_listed-true :
      (w : W) (ips : Option L)
      → is_whitelisted os net lib c w ips ≡ true
      → is_listed os net lib c ips ≡ true
  unfolding is_whitelisted
  is_listed-true w ips h = elim (Bool-cases (os.rdlock w)) [
    | inl e ↦ rw e at h
    | inr e ↦ absurd (let h' = rw e at h in cc)
  ]

  pub is_whitelisted-false :
      (w : W) (ips : Option L)
      → is_listed os net lib c ips ≡ false
      → is_whitelisted os net lib c w ips ≡ false
  unfolding is_whitelisted
  is_whitelisted-false w ips h = elim (Bool-cases (os.rdlock w)) [
    | inl e ↦ rw e h
    | inr e ↦ rw e refl
  ]

  relayed-Leaves :
      (id : ℕ) (a : Addrport) (fd : ℕ) (s : Sys W)
      → Leaves 0 (relay_target os net lib c id a fd s).0
  unfolding relay_target
  relayed-Leaves id a fd s = go _ refl
    where
      go :
          (r : Loop)
          → (copyloop os c.rounds c.client_fd fd s).0 ≡ r
          → Leaves 0 (relay_target os net lib c id a fd s).0
      go (running st) e = rw (e, relay_target) tt
      go stuck e = rw (e, relay_target) tt
      go (returned st) e = rw (e, relay_target) tt

  served-Leaves :
      (id : ℕ) (a : Addrport) (fd : ℕ) (s : Sys W)
      → Leaves 0 (serve_target os net lib c id a fd s).0
  unfolding serve_target answer_target
  served-Leaves id a fd s = elim (Answer-cases (os.getsockname s.world fd).0) [
    | inr (x, e) ↦ rw (e, serve_target) tt
    | inl (local, e) ↦ elim (Option-cases (send_response ErrorCode.success local)) [
      | inl f ↦ rw (e, serve_target, answer_target, f) tt
      | inr (bytes, f) ↦
          elim (Bool-cases
            (write_reply os c.client_fd bytes (moved (os.getsockname s.world fd).1 s)).0) [
              | inr w ↦ rw (e, serve_target, answer_target, f, w) tt
              | inl w ↦ rw (e, serve_target, answer_target, f, w) (relayed-Leaves id a fd _)
            ]
    ]
  ]

  connect-Leaves :
      (a : Addrport) (address : SockAddr) (s : Sys W)
      → Leaves 0 (handle_connect os net lib c a address s).0
  unfolding handle_connect
  connect-Leaves a address s = go _ refl
    where
      go :
          (t : Target)
          → (connect_socks_target os address (next_connection_identifier s).1).0 ≡ t
          → Leaves 0 (handle_connect os net lib c a address s).0
      go (refused code) e = rw (e, handle_connect) tt
      go (target fd) e =
          rw (e, handle_connect) (served-Leaves (next_connection_identifier s).0 a fd _)

  relayed_association-Leaves :
      (fd : ℕ) (s : Sys W) → Leaves 0 (relay_association os net lib c fd s).0
  unfolding relay_association
  relayed_association-Leaves fd s = go _ refl
    where
      go :
          (u : Udp)
          → (copy_loop_udp os net lib.destinations c.rounds c.client_fd fd s).0 ≡ u
          → Leaves 0 (relay_association os net lib c fd s).0
      go ended e = rw (e, relay_association) tt
      go going e = rw (e, relay_association) tt
      go crashed e = rw (e, relay_association) tt

  answered-Leaves :
      (fd : ℕ) (local : Option SockAddr) (s : Sys W)
      → Leaves 0 (answer_association os net lib c fd local s).0
  unfolding answer_association
  answered-Leaves fd none s = tt
  answered-Leaves fd (some local) s = elim (Option-cases (send_response ErrorCode.success local)) [
    | inl e ↦ rw (e, answer_association) tt
    | inr (bytes, e) ↦ elim (Bool-cases (write_reply os c.client_fd bytes s).0) [
      | inr w ↦ rw (e, answer_association, w) tt
      | inl w ↦ rw (e, answer_association, w) (relayed_association-Leaves fd _)
    ]
  ]

  udp_associate-Leaves :
      (address : SockAddr) (s : Sys W) → Leaves 0 (handle_udp_associate os net lib c address s).0
  unfolding handle_udp_associate
  udp_associate-Leaves address s = go _ refl
    where
      go :
          (t : Target)
          → (udp_svc_setup os address s).0 ≡ t
          → Leaves 0 (handle_udp_associate os net lib c address s).0
      go (refused code) e = rw (e, handle_udp_associate) tt
      go (target fd) e = elim (Bool-cases (fd == 0)) [
        | inl z ↦ rw (e, handle_udp_associate, z) tt
        | inr z ↦ rw (e, handle_udp_associate, z) (answered-Leaves fd _ _)
      ]

  serve-Leaves :
      (r : Result (Cmd × Addrport × SockAddr)) (s : Sys W) → Leaves 0 (serve os net lib c (r, s)).0
  serve-Leaves (err e) s = tt
  serve-Leaves fault s = tt
  serve-Leaves (ok (connect, a, address)) s = connect-Leaves a address s
  serve-Leaves (ok (udp_associate, a, address)) s = udp_associate-Leaves address s

  greet-Leaves :
      (buf : List ℕ) (ips : Option L) (s : Sys W) → Leaves 2 (greet os net lib c buf ips s).0
  unfolding greet
  greet-Leaves buf ips s = go _ refl
    where
      go :
          (r : Result AuthMethod)
          → check_auth_method c.creds (is_whitelisted os net lib c s.world ips) buf ≡ r
          → Leaves 2 (greet os net lib c buf ips s).0
      go fault e = rw (e, greet) tt
      go (err x) e = rw (e, greet) tt
      go (ok AuthMethod.no_auth) e = rw (e, greet) (omega arith)
      go (ok AuthMethod.gssapi) e =
          absurd
            (check_auth_method-ne-gssapi c.creds (is_whitelisted os net lib c s.world ips) buf e)
      go (ok AuthMethod.username) e = rw (e, greet) (omega arith)
      go (ok AuthMethod.invalid) e = rw (e, greet) tt

  -- The two ways out of a login.
  pub after_login-cases :
      (code : ErrorCode) (ips : Option L) (s : Sys W)
      → ((code ≡ ErrorCode.success)
          × (after_login os net lib c code ips s
              ≡ (read_on authed, remember_client os net lib c s.world ips, s)))
        ⊎ ((code ≢ ErrorCode.success)
            × (after_login os net lib c code ips s ≡ (break_loop, ips, s)))
  after_login-cases ErrorCode.success ips s = inl (refl, refl)
  after_login-cases ErrorCode.general_failure ips s = inr (λ q. cc q, refl)
  after_login-cases ErrorCode.not_allowed ips s = inr (λ q. cc q, refl)
  after_login-cases ErrorCode.net_unreachable ips s = inr (λ q. cc q, refl)
  after_login-cases ErrorCode.host_unreachable ips s = inr (λ q. cc q, refl)
  after_login-cases ErrorCode.conn_refused ips s = inr (λ q. cc q, refl)
  after_login-cases ErrorCode.ttl_expired ips s = inr (λ q. cc q, refl)
  after_login-cases ErrorCode.command_not_supported ips s = inr (λ q. cc q, refl)
  after_login-cases ErrorCode.addresstype_not_supported ips s = inr (λ q. cc q, refl)
  after_login-cases ErrorCode.bind_ip_not_provided ips s = inr (λ q. cc q, refl)

  log_in-Leaves :
      (buf : List ℕ) (ips : Option L) (s : Sys W) → Leaves 1 (log_in os net lib c buf ips s).0
  unfolding log_in
  log_in-Leaves buf ips s = elim (Option-cases c.creds) [
    | inl e ↦ rw (e, log_in) tt
    | inr (cr, e) ↦ logged cr e _ refl
  ]
    where
      through : (code : ErrorCode) (s' : Sys W) → Leaves 1 (after_login os net lib c code ips s').0
      through code s' = elim (after_login-cases code ips s') [
        | inl (_, e) ↦ rw e (omega arith)
        | inr (_, e) ↦ rw e tt
      ]

      logged :
          (cr : Credentials)
          → c.creds ≡ some cr
          → (r : Result ErrorCode) → check_credentials cr buf ≡ r
          → Leaves 1 (log_in os net lib c buf ips s).0
      logged cr e fault f = rw (e, log_in, f) tt
      logged cr e (err x) f = rw (e, log_in, f) tt
      logged cr e (ok code) f = rw (e, log_in, f) (through code _)

  pub handle_packet-Leaves :
      (state : SocksState) (buf : List ℕ) (ips : Option L) (s : Sys W) (k : ℕ)
      → packets_left state ≤ suc k
      → Leaves k (handle_packet os net lib c state buf ips s).0
  unfolding handle_packet serve_request
  handle_packet-Leaves connected buf ips s k h =
      weaken _ _ _ (greet-Leaves buf ips s) (omega (arith, h))
  handle_packet-Leaves need_auth buf ips s k h =
      weaken _ _ _ (log_in-Leaves buf ips s) (omega (arith, h))
  handle_packet-Leaves authed buf ips s k h = weaken _ _ _ (serve-Leaves _ _) (omega (arith, h))
