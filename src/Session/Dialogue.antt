-- ===== src/Session/Dialogue.antt =====
-- TwoSocks/microsocks/sockssrv.c, `clientthread`: what is said between the client and the server
-- until a request is served, in the words of RFC 1928 and RFC 1929.
use two_socks.Prelude.{
  ℕ, ◌≡◌, ◌≢◌, refl, sym, ◌∙◌, ◌⊎◌, Bool, List, [], ◌∷◌, Option, none, some, inl, inr, take, All,
}
use mathlib.Core.Path.{subst}
use two_socks.Codes.{
  ErrorCode, success, error_value, SocksState, connected, need_auth, authed, AuthMethod, no_auth,
  username, invalid, method_value,
}
use two_socks.Platform.{Inet}
use two_socks.Buffer.{Result, ok, at}
use two_socks.Auth.{Credentials, check_auth_method, check_credentials}
use two_socks.Auth.Methods.{IsFirst, Permits, Refuses, offered, check_auth_method_lem}
use two_socks.Auth.Password.{check_credentials_lem}
use two_socks.Reply.{send_auth_response}
use two_socks.Os.{Os, Sent-cases}
use two_socks.System.{Sys, Effect, sent, received}
use two_socks.Connect.{write_reply}
use two_socks.Session.{
  Lists, Next, read_on, break_loop, relaying, aborted, Config, is_whitelisted, remember_client,
  greet, log_in, after_login,
}
use two_socks.Session.Steps.{check_auth_method-ne-gssapi, after_login-cases}

-- A method is chosen only if it may be: a name is asked for only where one is set, and nothing only
-- where none is set or the client is known.
pub chosen-Permits :
    (creds : Option Credentials) (known : Bool) (buf : List ℕ) (m : AuthMethod)
    → check_auth_method creds known buf ≡ ok m
    → m ≢ invalid
    → Permits creds known m
unfolding check_auth_method at
chosen-Permits creds known [] m h valid = absurd (cc)
chosen-Permits creds known (v ∷ bs) m h valid =
    let (m', e, found) = check_auth_method_lem creds known v bs in
    permitted m' (let same : ◌≡◌ {A = Result AuthMethod} (ok m') (ok m) = sym e ∙ h in cc) found
  where
    permitted :
        (m' : AuthMethod)
        → m' ≡ m
        → ((v ≡ 5) × IsFirst creds known m' (offered (v ∷ bs)))
          ⊎ ((m' ≡ invalid) × ((v ≢ 5) ⊎ All (Refuses creds known) (offered (v ∷ bs))))
        → Permits creds known m
    permitted m' same (inl (_, first)) = rw same at first.permitted
    permitted m' same (inr (e, _)) = absurd (valid (sym same ∙ e))

set_of_ne_none :
    (creds : Option Credentials) → creds ≢ none → (cr : Credentials) × (creds ≡ some cr)
set_of_ne_none none h = absurd (h refl)
set_of_ne_none (some cr) h = (cr, refl)

module _ {W L D : Type 0} (os : Os W) (net : Inet) (lib : Lists L D) (c : Config) where
  -- The bytes were sent, from their start, or could not be.
  abbrev pub Replied : List ℕ → List Effect → List Effect → Type 0
  Replied bytes t t' = (t' ≡ t) ⊎ ((m : ℕ) × (t' ≡ sent c.client_fd (take m bytes) ∷ t))

  -- The client has sent a greeting since the trace `t0`, and `m` was chosen of its methods.
  abbrev pub Greeted : Option L → List Effect → AuthMethod → List Effect → Type 0
  Greeted ips0 t0 m t =
      (w : W) × (buf : List ℕ) × (check_auth_method c.creds (is_whitelisted os net lib c w ips0) buf
        ≡ ok m)
      × Replied (send_auth_response 5 (method_value m)) (received c.client_fd buf ∷ t0) t

  -- It was asked for a name and a password, and what it sent was judged by `code`.
  abbrev pub LoggedIn : Option L → List Effect → ErrorCode → List Effect → Type 0
  LoggedIn ips0 t0 code t =
      (t1 : List Effect) × Greeted ips0 t0 username t1
      × (cr : Credentials) × (c.creds ≡ some cr)
      × (buf : List ℕ) × (check_credentials cr buf ≡ ok code)
      × Replied (send_auth_response 1 (error_value code)) (received c.client_fd buf ∷ t1) t

  -- How far the two have come since `t0`, with the list `ips0` of known clients, in each state.
  abbrev pub Talk : Option L → List Effect → SocksState → Option L → List Effect → Type 0
  Talk ips0 t0 connected ips t = (t ≡ t0) × (ips ≡ ips0)
  Talk ips0 t0 need_auth ips t = Greeted ips0 t0 username t × (ips ≡ ips0)
  Talk ips0 t0 authed ips t =
      (Greeted ips0 t0 no_auth t × (ips ≡ ips0))
      ⊎ (LoggedIn ips0 t0 success t × ((w : W) × (ips ≡ remember_client os net lib c w ips0)))

  -- The client was turned away.
  abbrev pub Refused : Option L → List Effect → List Effect → Type 0
  Refused ips0 t0 t =
      Greeted ips0 t0 invalid t ⊎ ((code : ErrorCode) × (code ≢ success) × LoggedIn ips0 t0 code t)

  -- What a packet of the negotiation leads to: it goes on, or the client is turned away.
  abbrev pub Follows : Option L → List Effect → Next × Option L × Sys W → Type 0
  Follows ips0 t0 (read_on state, ips, s) = Talk ips0 t0 state ips s.trace
  Follows ips0 t0 (break_loop, ips, s) = Refused ips0 t0 s.trace × (ips ≡ ips0)
  Follows ips0 t0 (relaying, ips, s) = ⊥
  Follows ips0 t0 (aborted, ips, s) = ⊥

  pub write_reply-Replied :
      (bytes : List ℕ) (s : Sys W)
      → Replied bytes s.trace (write_reply os c.client_fd bytes s).1.trace
  unfolding write_reply
  write_reply-Replied bytes s = elim (Sent-cases (os.write s.world c.client_fd bytes).0) [
    | inl (m, e) ↦ rw (e, write_reply) (inr (m, refl))
    | inr (x, e) ↦ rw (e, write_reply) (inl refl)
  ]

  module _ (ips0 : Option L) (t0 : List Effect) where
    pub greet-Follows :
        (v : ℕ) (bs : List ℕ) (s : Sys W)
        → s.trace ≡ received c.client_fd (v ∷ bs) ∷ t0
        → Follows ips0 t0 (greet os net lib c (v ∷ bs) ips0 s)
    unfolding greet
    greet-Follows v bs s at_t0 =
        let (m, e, _) =
          check_auth_method_lem c.creds (is_whitelisted os net lib c s.world ips0) v bs in
        go m e
      where
        greeted :
            (m : AuthMethod)
            → check_auth_method c.creds (is_whitelisted os net lib c s.world ips0) (v ∷ bs) ≡ ok m
            → Greeted ips0 t0 m
                (write_reply os c.client_fd (send_auth_response 5 (method_value m)) s).1.trace
        greeted m e = (
          s.world,
          v ∷ bs,
          e,
          rw (← at_t0) (write_reply-Replied (send_auth_response 5 (method_value m)) s),
        )

        go :
            (m : AuthMethod)
            → check_auth_method c.creds (is_whitelisted os net lib c s.world ips0) (v ∷ bs) ≡ ok m
            → Follows ips0 t0 (greet os net lib c (v ∷ bs) ips0 s)
        go AuthMethod.no_auth e = rw (e, greet) (inl (greeted no_auth e, refl))
        go AuthMethod.gssapi e = absurd (
            check_auth_method-ne-gssapi c.creds (is_whitelisted os net lib c s.world ips0) (v ∷ bs)
              e)
        go AuthMethod.username e = rw (e, greet) (greeted username e, refl)
        go AuthMethod.invalid e = rw (e, greet) (inl (greeted invalid e), refl)

    pub log_in-judged :
        (cr : Credentials) (code : ErrorCode) (buf : List ℕ) (s : Sys W)
        → c.creds ≡ some cr
        → check_credentials cr buf ≡ ok code
        → log_in os net lib c buf ips0 s
          ≡ after_login os net lib c code ips0
              (write_reply os c.client_fd (send_auth_response 1 (error_value code)) s).1
    unfolding log_in
    log_in-judged cr code buf s set e = simp (log_in, set, e)

    pub log_in-Follows :
        (buf : List ℕ) (t1 : List Effect) (s : Sys W)
        → Greeted ips0 t0 username t1
        → s.trace ≡ received c.client_fd buf ∷ t1
        → Follows ips0 t0 (log_in os net lib c buf ips0 s)
    log_in-Follows buf t1 s (w, g, eg, rg) at_t1 =
        let (cr, set) =
          set_of_ne_none c.creds (
            chosen-Permits c.creds (is_whitelisted os net lib c w ips0) g username eg
              (λ q. cc q)) in
        elim (check_credentials_lem cr buf) [
          | inl (l, e) ↦ judged cr set _ e
          | inr (_, e) ↦ judged cr set _ e
        ]
      where
        judged :
            (cr : Credentials)
            → c.creds ≡ some cr
            → (code : ErrorCode) → check_credentials cr buf ≡ ok code
            → Follows ips0 t0 (log_in os net lib c buf ips0 s)
        judged cr set code e =
            let s' = (write_reply os c.client_fd (send_auth_response 1 (error_value code)) s).1 in
            let logged : LoggedIn ips0 t0 code s'.trace = (
              t1,
              (w, g, eg, rg),
              cr,
              set,
              buf,
              e,
              rw (← at_t1) (write_reply-Replied (send_auth_response 1 (error_value code)) s),
            ) in
            elim (after_login-cases os net lib c code ips0 s') [
              | inl (is, f) ↦
                  rw (log_in-judged cr code buf s set e, f)
                    (inr (subst (λ k. LoggedIn ips0 t0 k s'.trace) is logged, (s'.world, refl)))
              | inr (ne, f) ↦
                  rw (log_in-judged cr code buf s set e, f) (inr (code, ne, logged), refl)
            ]
