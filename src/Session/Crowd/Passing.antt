-- ===== src/Session/Crowd/Passing.antt =====
-- TwoSocks/microsocks/sockssrv.c, `clientthread`: what one pass of the loop does to the list of known
-- addresses.
use two_socks.Prelude.{
  ℕ, ◌≡◌, ◌≢◌, refl, sym, ◌∙◌, ap, ◌⊎◌, inl, inr, true, false, List, [], ◌∷◌, Option, none, some,
  length, ◌==◌,
}
use two_socks.Codes.{
  ErrorCode, success, error_value, SocksState, connected, need_auth, authed, AuthMethod, no_auth,
  method_value,
}
use two_socks.Platform.{Inet}
use two_socks.Buffer.{ok}
use two_socks.Auth.{Credentials, check_auth_method, check_credentials}
use two_socks.Auth.Methods.{check_auth_method_lem}
use two_socks.Auth.Password.{check_credentials_lem}
use two_socks.Reply.{send_auth_response}
use two_socks.Os.{Os, got}
use two_socks.System.{Sys}
use two_socks.System.Trace.{opens}
use two_socks.Connect.{write_reply}
use two_socks.Session.{
  Lists, Next, read_on, break_loop, relaying, aborted, Config, Exit, done, still_relaying,
  still_reading, crashed, is_listed, is_whitelisted, remember_client, greet, log_in, handle_packet,
  session,
}
use two_socks.Session.Steps.{is_listed-true, after_login-cases}
use two_socks.Session.Pass.{heard, after_packet, session-cases}
use two_socks.Session.Dialogue.{chosen-Permits, log_in-judged, write_reply-Replied}
use two_socks.Session.Admission.{Replied-opens}

module _ {W L D : Type 0} (os : Os W) (net : Inet) (lib : Lists L D) where
  -- A packet before a request: the list stays as it is, or it was a login with the right password;
  -- the client passes by this, or because it is known.
  module _ (c : Config) (cr : Credentials) where
    abbrev Passes : Option L → List ℕ → Sys W → Next × Option L × Sys W → Type 0
    Passes ips buf s (read_on authed, ips', s') =
        ((ips' ≡ ips) × (is_listed os net lib c ips ≡ true))
        ⊎ (((w : W) × (ips' ≡ remember_client os net lib c w ips))
            × (check_credentials cr buf ≡ ok success))
    Passes ips buf s (read_on connected, ips', s') = ips' ≡ ips
    Passes ips buf s (read_on need_auth, ips', s') = ips' ≡ ips
    Passes ips buf s (break_loop, ips', s') = ips' ≡ ips
    Passes ips buf s (relaying, ips', s') = ⊥
    Passes ips buf s (aborted, ips', s') = ⊥

    abbrev Calm : Sys W → Sys W → Type 0
    Calm s s' = (fd : ℕ) → opens fd s'.trace ≡ opens fd s.trace

    module _ (set : c.creds ≡ some cr) where
      replied-Calm : (bytes : List ℕ) (s : Sys W) → Calm s (write_reply os c.client_fd bytes s).1
      replied-Calm bytes s fd =
          Replied-opens os net lib c none [] bytes s.trace _ fd
            (write_reply-Replied os net lib c bytes s)

      greet-Passes :
          (v : ℕ) (bs : List ℕ) (ips : Option L) (s : Sys W)
          → let r = greet os net lib c (v ∷ bs) ips s in Passes ips (v ∷ bs) s r × Calm s r.2
      unfolding greet
      greet-Passes v bs ips s =
          let (m, e, _) =
            check_auth_method_lem c.creds (is_whitelisted os net lib c s.world ips) v bs in
          from m e
        where
          replied :
              (m : AuthMethod)
              → Calm s (write_reply os c.client_fd (send_auth_response 5 (method_value m)) s).1
          replied m = replied-Calm (send_auth_response 5 (method_value m)) s

          from :
              (m : AuthMethod)
              → check_auth_method c.creds (is_whitelisted os net lib c s.world ips) (v ∷ bs) ≡ ok m
              → let r = greet os net lib c (v ∷ bs) ips s in Passes ips (v ∷ bs) s r × Calm s r.2
          from AuthMethod.no_auth e =
              elim (chosen-Permits c.creds (is_whitelisted os net lib c s.world ips) (v ∷ bs)
                no_auth e (λ q. cc q)) [
                  | inl unset ↦ absurd (let f : none ≡ some cr = sym unset ∙ set in cc)
                  | inr known ↦
                      rw (e, greet)
                        (inl (refl, is_listed-true os net lib c s.world ips known), replied no_auth)
                ]
          from AuthMethod.gssapi e = rw (e, greet) (refl, replied AuthMethod.gssapi)
          from AuthMethod.username e = rw (e, greet) (refl, replied AuthMethod.username)
          from AuthMethod.invalid e = rw (e, greet) (refl, replied AuthMethod.invalid)

      log_in-Passes :
          (buf : List ℕ) (ips : Option L) (s : Sys W)
          → let r = log_in os net lib c buf ips s in Passes ips buf s r × Calm s r.2
      log_in-Passes buf ips s = elim (check_credentials_lem cr buf) [
        | inl (l, e) ↦ judged _ e
        | inr (_, e) ↦ judged _ e
      ]
        where
          judged :
              (code : ErrorCode)
              → check_credentials cr buf ≡ ok code
              → let r = log_in os net lib c buf ips s in Passes ips buf s r × Calm s r.2
          judged code e =
              let calm = replied-Calm (send_auth_response 1 (error_value code)) s in
              elim (after_login-cases os net lib c code ips
                (write_reply os c.client_fd (send_auth_response 1 (error_value code)) s).1) [
                  | inl (is, f) ↦
                      rw (log_in-judged os net lib c ips [] cr code buf s set e, f)
                        (inr ((_, refl), e ∙ ap ok is), calm)
                  | inr (_, f) ↦
                      rw (log_in-judged os net lib c ips [] cr code buf s set e, f) (refl, calm)
                ]

      -- What a pass of the loop comes to, before a request.
      abbrev pub Moves : Option L → Sys W → Exit × Option L × Sys W → Type 0
      Moves ips s (still_reading authed, ips', s') =
          ((ips' ≡ ips) × (is_listed os net lib c ips ≡ true))
          ⊎ (((w : W) × (ips' ≡ remember_client os net lib c w ips))
              × ((buf : List ℕ) × ((os.read s.world c.client_fd 1024).0 ≡ got buf)
                  × (check_credentials cr buf ≡ ok success)))
      Moves ips s (still_reading connected, ips', s') = ips' ≡ ips
      Moves ips s (still_reading need_auth, ips', s') = ips' ≡ ips
      Moves ips s (done, ips', s') = ips' ≡ ips
      Moves ips s (still_relaying, ips', s') = ⊥
      Moves ips s (crashed, ips', s') = ⊥

      abbrev IsPass : Option L → Sys W → Exit × Option L × Sys W → Type 0
      IsPass ips s r = Moves ips s r × Calm s r.2

      packet-Moves :
          (buf : List ℕ) (ips : Option L) (s : Sys W) (r : Next × Option L × Sys W)
          → (os.read s.world c.client_fd 1024).0 ≡ got buf
          → Passes ips buf s r
          → Calm s r.2
          → IsPass ips s (after_packet os net lib c 0 r)
      unfolding session
      packet-Moves buf ips s (read_on authed, ips', s') e (inl known) calm = (inl known, calm)
      packet-Moves buf ips s (read_on authed, ips', s') e (inr (new, right)) calm =
          (inr (new, (buf, e, right)), calm)
      packet-Moves buf ips s (read_on connected, ips', s') e same calm = (same, calm)
      packet-Moves buf ips s (read_on need_auth, ips', s') e same calm = (same, calm)
      packet-Moves buf ips s (break_loop, ips', s') e same calm = (same, calm)
      packet-Moves buf ips s (relaying, ips', s') e h calm = absurd h
      packet-Moves buf ips s (aborted, ips', s') e h calm = absurd h

      handled-Passes :
          (state : SocksState) (buf : List ℕ) (ips : Option L) (s : Sys W)
          → state ≢ authed
          → (length buf == 0) ≡ false
          → let r = handle_packet os net lib c state buf ips (heard os net lib c buf s) in
            Passes ips buf s r × Calm s r.2
      unfolding handle_packet
      handled-Passes connected [] ips s out more = absurd (cc)
      handled-Passes connected (v ∷ bs) ips s out more = greet-Passes v bs ips _
      handled-Passes need_auth buf ips s out more = log_in-Passes buf ips _
      handled-Passes authed buf ips s out more = absurd (out refl)

      pub session-Moves :
          (state : SocksState) (ips : Option L) (s : Sys W)
          → state ≢ authed
          → IsPass ips s (session os net lib c 1 state ips s)
      session-Moves state ips s out = elim (session-cases os net lib c state ips s) [
        | inl f ↦ rw (f 0) (refl, λ fd. refl)
        | inr (buf, e, more, f) ↦
            let (h, calm) = handled-Passes state buf ips s out more in
            rw (f 0) (packet-Moves buf ips s _ e h calm)
      ]

    served_ips :
        (ips : Option L) (s : Sys W) (n : Next) → (after_packet os net lib c 0 (n, ips, s)).1 ≡ ips
    unfolding session
    served_ips ips s (read_on state) = refl
    served_ips ips s break_loop = refl
    served_ips ips s relaying = refl
    served_ips ips s aborted = refl

    -- A request leaves the list as it is.
    pub session-authed-ips :
        (ips : Option L) (s : Sys W) → (session os net lib c 1 authed ips s).1 ≡ ips
    unfolding handle_packet
    session-authed-ips ips s = elim (session-cases os net lib c authed ips s) [
      | inl f ↦ rw (f 0) refl
      | inr (buf, e, more, f) ↦ ap (λ r. r.1) (f 0) ∙ served_ips ips _ _
    ]
