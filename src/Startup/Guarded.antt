-- ===== src/Startup/Guarded.antt =====
-- The threads of a server that was started with a name and a password: whom they serve.
use two_socks.Prelude.{
  ℕ, ◌≡◌, refl, sym, ◌∙◌, ◌⊎◌, true, List, ◌∷◌, Option, none, some, some_inj, inl, inr,
}
use mathlib.Core.Path.{subst}
use two_socks.Codes.{success, username, error_value}
use two_socks.Text.{c_str}
use two_socks.Platform.{Inet}
use two_socks.Sblist.{Sblist}
use two_socks.Auth.{Credentials}
use two_socks.Auth.Password.{Login, check_credentials-success_iff}
use two_socks.Reply.{send_auth_response}
use two_socks.Os.{Os}
use two_socks.System.{Sys, Effect, received}
use two_socks.System.Trace.{opens}
use two_socks.Pool.{ThreadOs, Pool}
use two_socks.Whitelist.{is_known, is_in_authed_list_lem}
use two_socks.Session.{Lists, Config, Exit, is_listed, clientthread}
use two_socks.Session.Dialogue.{Greeted, Replied}
use two_socks.Session.Admission.{MayPass, Admitted, clientthread-Admitted}
use two_socks.Startup.{Opt, CLib, Options, initial_options, serves, socks_main, credentials}
use two_socks.Startup.Parsing.{as_said}
use two_socks.Startup.Serving.{IsConsistent, IsStanding, socks_main-IsStanding}

module _ {W L D : Type 0} (os : Os W) (net : Inet) (lib : Lists L D) (config : Config) where
  -- What a client has done that may be served: `o` are the options, `ips` the list of known clients, and
  -- `t0` the trace at the start of the thread.
  abbrev pub Entitled : Options L → Option L → List Effect → List Effect → Type 0
  Entitled o ips t0 t =
      ((o.auth_user ≡ none) × (o.auth_pass ≡ none))
      ⊎ (((l : L) × (ips ≡ some l)
            × (is_known lib.clients config.client_addr (lib.clients.items l) ≡ true))
          ⊎ ((user : List ℕ) × (pass : List ℕ) × (o.auth_user ≡ some user)
              × (o.auth_pass ≡ some pass)
              × (t1 : List Effect) × (buf : List ℕ) × ((login : Login buf) × (c_str login.name
                    ≡ user)
                  × (c_str login.word ≡ pass))
              × Greeted os net lib config ips t0 username t1
              × Replied os net lib config (send_auth_response 1 (error_value success))
                  (received config.client_fd buf ∷ t1) t))

  module _ (o : Options L) (ips : Option L) (t0 : List Effect) where
    listed :
        is_listed os net lib config ips ≡ true
        → (l : L) × (ips ≡ some l)
          × (is_known lib.clients config.client_addr (lib.clients.items l) ≡ true)
    unfolding is_listed
    listed h = go ips refl h
      where
        go :
            (i : Option L)
            → ips ≡ i
            → is_listed os net lib config i ≡ true
            → (l : L) × (ips ≡ some l)
              × (is_known lib.clients config.client_addr (lib.clients.items l) ≡ true)
        go none e k = absurd (cc)
        go (some l) e k = (l, e, sym (is_in_authed_list_lem lib.clients l config.client_addr) ∙ k)

    -- Without a name and a password there is nothing to check.
    credentials-none :
        (creds : Option Credentials)
        → credentials o ≡ creds
        → creds ≡ none
        → IsConsistent o
        → (o.auth_user ≡ none) × (o.auth_pass ≡ none)
    unfolding credentials
    credentials-none creds e unset (inl (eu, ep, _)) = (eu, ep)
    credentials-none creds e unset (inr (user, pass, eu, ep)) =
        let set : credentials o ≡ some (record { user = user; pass = pass }) =
          simp (credentials, eu, ep) in
        absurd (cc)

    credentials-some :
        (cr : Credentials)
        → credentials o ≡ some cr
        → IsConsistent o
        → (o.auth_user ≡ some cr.user) × (o.auth_pass ≡ some cr.pass)
    unfolding credentials
    credentials-some cr e (inl (eu, ep, _)) =
        let unset : credentials o ≡ none = simp (credentials, eu) in absurd (cc)
    credentials-some cr e (inr (user, pass, eu, ep)) =
        let set : credentials o ≡ some (record { user = user; pass = pass }) =
          simp (credentials, eu, ep) in
        let same : cr ≡ record { user = user; pass = pass } = some_inj (sym e ∙ set) in
        rw same (eu, ep)

    MayPass-Entitled :
        (t : List Effect)
        → IsConsistent o
        → config.creds ≡ credentials o
        → MayPass os net lib config ips t0 t
        → Entitled o ips t0 t
    MayPass-Entitled t ok has (inl unset) = inl (credentials-none _ refl (sym has ∙ unset) ok)
    MayPass-Entitled t ok has (inr (inl known)) = inr (inl (listed known))
    MayPass-Entitled t ok has (inr (inr (t1, g, cr, set, buf, e, r))) =
        let (eu, ep) = credentials-some cr (sym has ∙ set) ok in
        inr (
          inr (cr.user, cr.pass, eu, ep, t1, buf, (check_credentials-success_iff cr buf).0 e, g, r))

    Admitted-Entitled :
        (e : Exit) (s : Sys W)
        → IsConsistent o
        → config.creds ≡ credentials o
        → Admitted os net lib config ips t0 (MayPass os net lib config ips t0) e s
        → Admitted os net lib config ips t0 (Entitled o ips t0) e s
    Admitted-Entitled e s ok has (t, buf, s1, may, unopened, heard, end) =
        (t, buf, s1, MayPass-Entitled t ok has may, unopened, heard, end)

-- Where `socks_main` serves, in any thread with the name and the password that the process then
-- has, with any client and any list of known clients, nothing is opened, or a request was served
-- and before it nothing was opened, and one of three holds: neither a name nor a password is set;
-- the client's address is on the list; or a greeting of the client was answered with the method of
-- names and passwords, and then it sent a login whose name and password, each up to its first zero
-- byte, are those of the last options of their kinds, or those that were set before where there is
-- no such option.
pub socks_main-Entitled :
    {W T L D : Type 0} (os : Os W) (ths : ThreadOs W) (threads : Sblist ℕ T) (net : Inet)
    (lib : Lists L D) (c : CLib) (k : ℕ) (opts : List Opt) (before o : Options L) (s : Sys W)
    (fd : ℕ) (v : Pool W T)
    → socks_main os ths threads lib.clients c k opts before s ≡ serves o fd v
    → (config : Config) → config.creds ≡ credentials o
    → (ips : Option L) (s1 : Sys W)
    → let said = as_said lib.clients c opts (initial_options lib.clients c before) in
      let (e, ips', s') = clientthread os net lib config ips s1 in
      ((x : ℕ) → opens x s'.trace ≡ opens x s1.trace)
      ⊎ Admitted os net lib config ips s1.trace (Entitled os net lib config said ips s1.trace) e s'
socks_main-Entitled os ths threads net lib c k opts before o s fd v h config has ips s1 =
    let (same, ok, _) =
      subst (IsStanding os ths threads lib.clients c opts (initial_options lib.clients c before) s)
        h (socks_main-IsStanding os ths threads lib.clients c k opts before s) in
    let (e, ips', s') = clientthread os net lib config ips s1 in
    elim (clientthread-Admitted os net lib config ips s1) [
      | inl unopened ↦ inl unopened
      | inr admitted ↦ inr (
          subst
            (λ p.
              Admitted os net lib config ips s1.trace (Entitled os net lib config p ips s1.trace) e
                s')
            same (Admitted-Entitled os net lib config o ips s1.trace e s' ok has admitted))
    ]
