-- ===== src/Session/Access.antt =====
-- TwoSocks/microsocks/sockssrv.c, `clientthread`: what a client without the password gets.
use two_socks.Prelude.{ℕ, zero, suc, ◌≡◌, ◌≢◌, refl, ap, ◌∙◌, false, List, Option, some, inl, inr}
use two_socks.Codes.{
  ErrorCode, SocksState, connected, need_auth, authed, AuthMethod, method_value, error_value,
}
use two_socks.Platform.{Inet}
use two_socks.Buffer.{Result, ok, err, fault}
use two_socks.Auth.{Credentials, check_auth_method, check_credentials}
use two_socks.Auth.Methods.{check_auth_method-ne-no_auth}
use two_socks.Reply.{send_auth_response}
use two_socks.Os.{Os, Sent-cases, got}
use two_socks.System.{Sys}
use two_socks.System.Trace.{opens}
use two_socks.Connect.{write_reply}
use two_socks.Session.Steps.{after_login-cases, is_whitelisted-false}
use two_socks.Session.Pass.{heard, after_packet, session-cases}
use two_socks.Session.{
  Lists, Next, read_on, break_loop, relaying, aborted, Config, is_listed, is_whitelisted, greet,
  log_in, handle_packet, session, clientthread, after_login,
}

-- The loop goes on in a state before the end of the authentication, if it goes on, with the list
-- of addresses as it was; and no socket was opened.
abbrev pub Outside : {W L : Type 0} → Option L → Sys W → Next × Option L × Sys W → Type 0
Outside ips s (read_on state, ips', s') =
    (state ≢ authed) × (ips' ≡ ips) × ((fd : ℕ) → opens fd s'.trace ≡ opens fd s.trace)
Outside ips s (break_loop, ips', s') = (fd : ℕ) → opens fd s'.trace ≡ opens fd s.trace
Outside ips s (relaying, ips', s') = ⊥
Outside ips s (aborted, ips', s') = (fd : ℕ) → opens fd s'.trace ≡ opens fd s.trace

module _ {W L D : Type 0} (os : Os W) (net : Inet) (lib : Lists L D) (c : Config) where
  write_reply-opens :
      (fd : ℕ) (bytes : List ℕ) (s : Sys W) (x : ℕ)
      → opens x (write_reply os fd bytes s).1.trace ≡ opens x s.trace
  unfolding write_reply
  write_reply-opens fd bytes s x = elim (Sent-cases (os.write s.world fd bytes).0) [
    | inl (m, e) ↦ rw (e, write_reply) refl
    | inr (m, e) ↦ rw (e, write_reply) refl
  ]

  module _ (cr : Credentials) (set : c.creds ≡ some cr) where
    greet-Outside :
        (buf : List ℕ) (ips : Option L) (s : Sys W)
        → is_listed os net lib c ips ≡ false
        → Outside ips s (greet os net lib c buf ips s)
    unfolding greet
    greet-Outside buf ips s unknown = go _ refl
      where
        replied :
            (am : AuthMethod) (x : ℕ)
            → opens x
                (write_reply os c.client_fd (send_auth_response 5 (method_value am)) s).1.trace
              ≡ opens x s.trace
        replied am = write_reply-opens c.client_fd (send_auth_response 5 (method_value am)) s

        go :
            (r : Result AuthMethod)
            → check_auth_method c.creds (is_whitelisted os net lib c s.world ips) buf ≡ r
            → Outside ips s (greet os net lib c buf ips s)
        go fault e = rw (e, greet) (λ x. refl)
        go (err x) e = rw (e, greet) (λ y. refl)
        go (ok AuthMethod.no_auth) e = absurd (
            check_auth_method-ne-no_auth cr buf
              (rw (is_whitelisted-false os net lib c s.world ips unknown, set) at e))
        go (ok AuthMethod.gssapi) e = rw (e, greet) (λ q. cc q, refl, replied AuthMethod.gssapi)
        go (ok AuthMethod.username) e = rw (e, greet) (λ q. cc q, refl, replied AuthMethod.username)
        go (ok AuthMethod.invalid) e = rw (e, greet) (replied AuthMethod.invalid)

    log_in-Outside :
        (buf : List ℕ) (ips : Option L) (s : Sys W)
        → check_credentials cr buf ≢ ok ErrorCode.success
        → Outside ips s (log_in os net lib c buf ips s)
    unfolding log_in
    log_in-Outside buf ips s wrong = go _ refl
      where
        through :
            (code : ErrorCode) (s' : Sys W)
            → code ≢ ErrorCode.success
            → ((fd : ℕ) → opens fd s'.trace ≡ opens fd s.trace)
            → Outside ips s (after_login os net lib c code ips s')
        through code s' ne k = elim (after_login-cases os net lib c code ips s') [
          | inl (e, _) ↦ absurd (ne e)
          | inr (_, e) ↦ rw e k
        ]

        go :
            (r : Result ErrorCode)
            → check_credentials cr buf ≡ r
            → Outside ips s (log_in os net lib c buf ips s)
        go fault e = rw (set, log_in, e) (λ x. refl)
        go (err x) e = rw (set, log_in, e) (λ y. refl)
        go (ok code) e =
            rw (set, log_in, e)
              (through code _ (λ q. wrong (e ∙ ap ok q))
                (write_reply-opens c.client_fd (send_auth_response 1 (error_value code)) s))

    -- No packet of the client carries the name and the password.
    module _
        (wrong : (w w' : W) (buf : List ℕ)
          → os.read w c.client_fd 1024 ≡ (got buf, w')
          → check_credentials cr buf ≢ ok ErrorCode.success) where
      handled-Outside :
          (state : SocksState) (buf : List ℕ) (ips : Option L) (w w' : W) (s : Sys W)
          → state ≢ authed
          → is_listed os net lib c ips ≡ false
          → os.read w c.client_fd 1024 ≡ (got buf, w')
          → Outside ips s (handle_packet os net lib c state buf ips s)
      unfolding handle_packet
      handled-Outside connected buf ips w w' s out unknown r = greet-Outside buf ips s unknown
      handled-Outside need_auth buf ips w w' s out unknown r =
          log_in-Outside buf ips s (wrong w w' buf r)
      handled-Outside authed buf ips w w' s out unknown r = absurd (out refl)

      -- What the thread does after the packet.
      packet-opens :
          (k : ℕ) (ips : Option L) (s : Sys W) (fd : ℕ) (r : Next × Option L × Sys W)
          → ((state' : SocksState) (ips' : Option L) (s' : Sys W)
              → state' ≢ authed
              → ips' ≡ ips
              → opens fd (session os net lib c k state' ips' s').2.trace ≡ opens fd s'.trace)
          → Outside ips s r
          → opens fd (after_packet os net lib c k r).2.trace ≡ opens fd s.trace
      packet-opens k ips s fd (read_on state', ips', s') ih (out, same, h) =
          ih state' ips' s' out same ∙ h fd
      packet-opens k ips s fd (break_loop, ips', s') ih h = h fd
      packet-opens k ips s fd (relaying, ips', s') ih h = absurd h
      packet-opens k ips s fd (aborted, ips', s') ih h = h fd

      session-opens :
          (k : ℕ) (state : SocksState) (ips : Option L) (s : Sys W) (fd : ℕ)
          → state ≢ authed
          → is_listed os net lib c ips ≡ false
          → opens fd (session os net lib c k state ips s).2.trace ≡ opens fd s.trace
      unfolding session
      session-opens zero state ips s fd out unknown = refl
      session-opens (suc k) state ips s fd out unknown =
          elim (session-cases os net lib c state ips s) [
            | inl f ↦ rw (f k) refl
            | inr (buf, e, more, f) ↦ rw (f k) (
                packet-opens k ips (heard os net lib c buf s) fd _
                  (λ state' ips' s' out' same.
                    session-opens k state' ips' s' fd out' (rw same unknown))
                  (handled-Outside state buf ips s.world (os.read s.world c.client_fd 1024).1
                    (heard os net lib c buf s) out unknown
                    (ap (λ r. (r, (os.read s.world c.client_fd 1024).1)) e)))
          ]

-- Where a password is set, the client is not on the list of known addresses and no read from its
-- socket returns a login with the name and the password, the thread opens no socket, whatever else
-- the client sends and in whatever order.
pub clientthread-opens :
    {W L D : Type 0} (os : Os W) (net : Inet) (lib : Lists L D) (c : Config) (cr : Credentials)
    → c.creds ≡ some cr
    → ((w w' : W) (buf : List ℕ)
        → os.read w c.client_fd 1024 ≡ (got buf, w')
        → check_credentials cr buf ≢ ok ErrorCode.success)
    → (ips : Option L) (s : Sys W) (fd : ℕ) → is_listed os net lib c ips ≡ false
    → opens fd (clientthread os net lib c ips s).2.trace ≡ opens fd s.trace
unfolding clientthread
clientthread-opens os net lib c cr set wrong ips s fd unknown =
    session-opens os net lib c cr set wrong 3 connected ips s fd (λ q. cc q) unknown
