-- ===== src/Session/Admission.antt =====
-- TwoSocks/microsocks/sockssrv.c, `clientthread`: who gets a request served.
use two_socks.Prelude.{ℕ, ◌≡◌, ◌∙◌, ap, ◌⊎◌, true, List, ◌∷◌, Option, none, inl, inr}
use two_socks.Codes.{
  ErrorCode, success, SocksState, connected, need_auth, authed, AuthMethod, no_auth,
}
use two_socks.Platform.{Inet}
use two_socks.Os.{Os}
use two_socks.System.{Sys, Effect, received}
use two_socks.System.Trace.{opens}
use two_socks.Session.{Lists, Config, Exit, is_listed, is_whitelisted, serve_request, clientthread}
use two_socks.Session.Steps.{is_listed-true}
use two_socks.Session.Dialogue.{chosen-Permits, Replied, Greeted, LoggedIn, Talk, Refused}
use two_socks.Session.Outcome.{Served, Outcome, silent, turned_away, served, clientthread-Outcome}

module _ {W L D : Type 0} (os : Os W) (net : Inet) (lib : Lists L D) (c : Config) (ips0 : Option L)
    (t0 : List Effect) where
  -- The client may be served: no password is set, it is known, or it has sent the password.
  abbrev pub MayPass : List Effect → Type 0
  MayPass t =
      (c.creds ≡ none)
      ⊎ ((is_listed os net lib c ips0 ≡ true) ⊎ LoggedIn os net lib c ips0 t0 success t)

  -- Nothing was opened since `t0`.
  abbrev pub Unopened : List Effect → Type 0
  Unopened t = (fd : ℕ) → opens fd t ≡ opens fd t0

  -- A request was served after what `May` says was heard, and before it nothing was opened.
  abbrev pub Admitted : (List Effect → Type 0) → Exit → Sys W → Type 0
  Admitted May e s =
      (t : List Effect) × (buf : List ℕ) × (s1 : Sys W) × May t
      × Unopened t
      × (s1.trace ≡ received c.client_fd buf ∷ t)
      × Served os net lib c (serve_request os net lib c buf s1).0
          (serve_request os net lib c buf s1).1 e s

  pub Replied-opens :
      (bytes : List ℕ) (t t' : List Effect) (fd : ℕ)
      → Replied os net lib c bytes t t'
      → opens fd t' ≡ opens fd t
  Replied-opens bytes t t' fd (inl e) = ap (opens fd) e
  Replied-opens bytes t t' fd (inr (m, e)) = ap (opens fd) e

  Greeted-Unopened :
      (m : AuthMethod) (t : List Effect) → Greeted os net lib c ips0 t0 m t → Unopened t
  Greeted-Unopened m t (w, buf, e, r) fd = Replied-opens _ _ t fd r

  LoggedIn-Unopened :
      (code : ErrorCode) (t : List Effect) → LoggedIn os net lib c ips0 t0 code t → Unopened t
  LoggedIn-Unopened code t (t1, g, cr, set, buf, e, r) fd =
      Replied-opens _ _ t fd r ∙ Greeted-Unopened _ t1 g fd

  Talk-Unopened :
      (state : SocksState) (ips : Option L) (t : List Effect)
      → Talk os net lib c ips0 t0 state ips t
      → Unopened t
  Talk-Unopened connected ips t (e, _) fd = ap (opens fd) e
  Talk-Unopened need_auth ips t (g, _) fd = Greeted-Unopened _ t g fd
  Talk-Unopened authed ips t (inl (g, _)) fd = Greeted-Unopened _ t g fd
  Talk-Unopened authed ips t (inr (l, _)) fd = LoggedIn-Unopened _ t l fd

  Refused-Unopened : (t : List Effect) → Refused os net lib c ips0 t0 t → Unopened t
  Refused-Unopened t (inl g) fd = Greeted-Unopened _ t g fd
  Refused-Unopened t (inr (code, _, l)) fd = LoggedIn-Unopened code t l fd

  Talk-MayPass :
      (ips : Option L) (t : List Effect) → Talk os net lib c ips0 t0 authed ips t → MayPass t
  Talk-MayPass ips t (inl ((w, buf, e, _), _)) =
      elim (chosen-Permits c.creds (is_whitelisted os net lib c w ips0) buf no_auth e (λ q. cc q)) [
        | inl unset ↦ inl unset
        | inr listed ↦ inr (inl (is_listed-true os net lib c w ips0 listed))
      ]
  Talk-MayPass ips t (inr (l, _)) = inr (inr l)

  Outcome-Admitted :
      (e : Exit) (ips : Option L) (s : Sys W)
      → Outcome os net lib c ips0 t0 e ips s
      → Unopened s.trace ⊎ Admitted MayPass e s
  Outcome-Admitted e ips s (silent state t talk _ at_t) =
      inl (λ fd. ap (opens fd) at_t ∙ Talk-Unopened state ips t talk fd)
  Outcome-Admitted e ips s (turned_away t away _ _ at_t) =
      inl (λ fd. ap (opens fd) at_t ∙ Refused-Unopened t away fd)
  Outcome-Admitted e ips s (served t buf s1 talk heard end) =
      inr (t, buf, s1, Talk-MayPass ips t talk, Talk-Unopened authed ips t talk, heard, end)

-- A thread opens nothing; or it served a request, before which nothing was opened, and no password
-- is set, or the client was on the list of known addresses, or it had sent a login that the check
-- of the configured name and password accepts. This is so for every system and everything that the
-- client sends.
pub clientthread-Admitted :
    {W L D : Type 0} (os : Os W) (net : Inet) (lib : Lists L D) (c : Config) (ips : Option L)
    (s : Sys W)
    → let (e, ips', s') = clientthread os net lib c ips s in
      ((fd : ℕ) → opens fd s'.trace ≡ opens fd s.trace)
      ⊎ Admitted os net lib c ips s.trace (MayPass os net lib c ips s.trace) e s'
clientthread-Admitted os net lib c ips s =
    Outcome-Admitted os net lib c ips s.trace _ _ _ (clientthread-Outcome os net lib c ips s)
