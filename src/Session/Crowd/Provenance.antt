-- ===== src/Session/Crowd/Provenance.antt =====
-- TwoSocks/microsocks/sockssrv.c, `clientthread`: by which login a client may be served, where many
-- share the list of known addresses.
use two_socks.Prelude.{ℕ, ◌≡◌, ◌≢◌, refl, ◌⊎◌, inl, inr, List, [], ◌∷◌, Option, some}
use mathlib.Core.Path.{subst}
use two_socks.Codes.{SocksState, connected, need_auth, authed}
use two_socks.Platform.{Inet}
use two_socks.Auth.{Credentials}
use two_socks.Os.{Os}
use two_socks.System.{Sys}
use two_socks.System.Trace.{opens}
use two_socks.Shared.Exclusive.{set_at-cases}
use two_socks.Session.{Lists, Config, Exit, done, still_relaying, still_reading, crashed, session}
use two_socks.Session.Crowd.{Crowd, hear, comes_to, pass, passes}
use two_socks.Session.Crowd.Passing.{Moves, session-Moves, session-authed-ips}
use two_socks.Session.Crowd.Vouching.{
  Entitled, AllVouched, Deserved, IsSound, Entitled-hear, AllVouched-hear, Deserved-hear,
  whitelisted-Entitled, remember-AllVouched, start-AllVouched,
}

module _ {W L D : Type 0} (os : Os W) (net : Inet) (lib : Lists L D) (configs : ℕ → Config)
    (cr : Credentials) (start : Crowd W L) where
  pub came-IsSound :
      (i : ℕ) (r : Exit × Option L × Sys W) (w : Crowd W L)
      → IsSound os net lib configs cr start w
      → AllVouched os net lib configs cr start
          (hear i (os.read w.sys.world (configs i).client_fd 1024).0 w.heard)
          r.1
      → Deserved os net lib configs cr start
          (hear i (os.read w.sys.world (configs i).client_fd 1024).0 w.heard)
          i
          r.0
      → IsSound os net lib configs cr start (comes_to os net lib configs i r w)
  came-IsSound i r w sound vouched here = record {
    entries = vouched;
    admitted = λ j. elim (set_at-cases i r.0 w.exits j) [
      | inl (same, e) ↦ rw (e, same) here
      | inr (ne, e) ↦
          rw e
            (Deserved-hear os net lib configs cr start i _ w.heard j (w.exits j) (sound.admitted j))
    ];
  }

  module _ (set : (i : ℕ) → (configs i).creds ≡ some cr) (i : ℕ) (w : Crowd W L)
      (sound : IsSound os net lib configs cr start w) where
    abbrev heard' : List (ℕ × List ℕ)
    heard' = hear i (os.read w.sys.world (configs i).client_fd 1024).0 w.heard

    kept : (ips : Option L) → ips ≡ w.ips → AllVouched os net lib configs cr start heard' ips
    kept ips same =
        rw same (AllVouched-hear os net lib configs cr start i _ w.heard w.ips sound.entries)

    moved-IsSound :
        (e : Exit) (ips : Option L) (s : Sys W)
        → Moves os net lib (configs i) cr (set i) w.ips w.sys (e, ips, s)
        → IsSound os net lib configs cr start (comes_to os net lib configs i (e, ips, s) w)
    moved-IsSound (still_reading authed) ips s (inl (same, known)) =
        came-IsSound i _ w sound (kept ips same) (
          Entitled-hear os net lib configs cr start i _ w.heard i
            (whitelisted-Entitled os net lib configs cr start i w.heard w.ips sound.entries known))
    moved-IsSound (still_reading authed) ips s (inr ((lw, new), (buf, e, right))) =
        came-IsSound i _ w sound
          (rw (new, e)
            (remember-AllVouched os net lib configs cr start i buf w.heard lw w.ips right
              sound.entries))
          (rw e (inr (inl (inl refl, right))))
    moved-IsSound (still_reading connected) ips s same = came-IsSound i _ w sound (kept ips same) tt
    moved-IsSound (still_reading need_auth) ips s same = came-IsSound i _ w sound (kept ips same) tt
    moved-IsSound done ips s same = came-IsSound i _ w sound (kept ips same) tt
    moved-IsSound still_relaying ips s h = absurd h
    moved-IsSound crashed ips s h = absurd h

    served-IsSound :
        (r : Exit × Option L × Sys W)
        → r.1 ≡ w.ips
        → Entitled os net lib configs cr start i w.heard
        → IsSound os net lib configs cr start (comes_to os net lib configs i r w)
    served-IsSound r same may = came-IsSound i r w sound (kept r.1 same) (deserved r.0)
      where
        deserved : (e : Exit) → Deserved os net lib configs cr start heard' i e
        deserved (still_reading authed) =
            Entitled-hear os net lib configs cr start i _ w.heard i may
        deserved (still_reading connected) = tt
        deserved (still_reading need_auth) = tt
        deserved done = tt
        deserved still_relaying = tt
        deserved crashed = tt

    pass-IsSound : IsSound os net lib configs cr start (pass os net lib configs i w)
    unfolding pass
    pass-IsSound = from (w.exits i) refl
      where
        reading :
            (state : SocksState)
            → state ≢ authed
            → IsSound os net lib configs cr start (
                comes_to os net lib configs i
                  (session os net lib (configs i) 1 state w.ips w.sys)
                  w)
        reading state out =
            moved-IsSound _ _ _
              (session-Moves os net lib (configs i) cr (set i) state w.ips w.sys out).0

        from :
            (e : Exit)
            → w.exits i ≡ e
            → IsSound os net lib configs cr start (pass os net lib configs i w)
        from (still_reading connected) e = rw (e, pass) (reading connected (λ q. cc q))
        from (still_reading need_auth) e = rw (e, pass) (reading need_auth (λ q. cc q))
        from (still_reading authed) e =
            rw (e, pass)
              (served-IsSound _ (session-authed-ips os net lib (configs i) cr w.ips w.sys)
                (subst (Deserved os net lib configs cr start w.heard i) e (sound.admitted i)))
        from done e = rw (e, pass) sound
        from still_relaying e = rw (e, pass) sound
        from crashed e = rw (e, pass) sound

    pass-opens :
        ((fd : ℕ) → opens fd (pass os net lib configs i w).sys.trace ≡ opens fd w.sys.trace)
        ⊎ Entitled os net lib configs cr start i w.heard
    unfolding pass
    pass-opens = from (w.exits i) refl
      where
        reading :
            (state : SocksState)
            → state ≢ authed
            → (fd : ℕ)
            → opens fd (session os net lib (configs i) 1 state w.ips w.sys).2.trace
              ≡ opens fd w.sys.trace
        reading state out =
            (session-Moves os net lib (configs i) cr (set i) state w.ips w.sys out).1

        from :
            (e : Exit)
            → w.exits i ≡ e
            → ((fd : ℕ) → opens fd (pass os net lib configs i w).sys.trace ≡ opens fd w.sys.trace)
              ⊎ Entitled os net lib configs cr start i w.heard
        from (still_reading connected) e = inl (rw (e, pass) (reading connected (λ q. cc q)))
        from (still_reading need_auth) e = inl (rw (e, pass) (reading need_auth (λ q. cc q)))
        from (still_reading authed) e =
            inr (subst (Deserved os net lib configs cr start w.heard i) e (sound.admitted i))
        from done e = inl (rw (e, pass) (λ fd. refl))
        from still_relaying e = inl (rw (e, pass) (λ fd. refl))
        from crashed e = inl (rw (e, pass) (λ fd. refl))

  passes-IsSound :
      ((i : ℕ) → (configs i).creds ≡ some cr)
      → (schedule : List ℕ) (w : Crowd W L) → IsSound os net lib configs cr start w
      → IsSound os net lib configs cr start (passes os net lib configs schedule w)
  unfolding passes
  passes-IsSound set [] w sound = sound
  passes-IsSound set (i ∷ rest) w sound = passes-IsSound set rest _ (pass-IsSound set i w sound)

-- Let a name and a password be set, and let many clients, whose threads share the list of known
-- addresses, each be before its first packet. After any passes of their loops, in any order, the
-- next pass of the thread of a client opens nothing; or the client's address was on the list at the
-- start; or a packet that is a login with the name and the password was read from this client, or
-- from one of the same address.
pub passes-Entitled :
    {W L D : Type 0} (os : Os W) (net : Inet) (lib : Lists L D) (configs : ℕ → Config)
    (cr : Credentials) (start : Crowd W L)
    → ((i : ℕ) → (configs i).creds ≡ some cr)
    → ((i : ℕ) → start.exits i ≡ still_reading connected)
    → (schedule : List ℕ) (i : ℕ)
    → let w = passes os net lib configs schedule start in
      ((fd : ℕ) → opens fd (pass os net lib configs i w).sys.trace ≡ opens fd w.sys.trace)
      ⊎ Entitled os net lib configs cr start i w.heard
passes-Entitled os net lib configs cr start set fresh schedule i =
    pass-opens os net lib configs cr start set i (passes os net lib configs schedule start) (
      passes-IsSound os net lib configs cr start set schedule start (record {
        entries = start-AllVouched os net lib configs cr start start.heard;
        admitted = λ j. rw (fresh j) tt;
      }))
