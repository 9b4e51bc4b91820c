-- ===== src/Session/Outcome.antt =====
-- TwoSocks/microsocks/sockssrv.c, `clientthread`: every way in which a thread can end, and what it
-- and the client have said before.
use two_socks.Prelude.{
  ℕ, zero, suc, ◌≤◌, ◌≡◌, refl, ap, false, List, [], ◌∷◌, Option, arith, inl, inr, length, ◌==◌,
}
use two_socks.Codes.{SocksState, connected, need_auth, authed}
use two_socks.Platform.{Inet}
use two_socks.Os.{Os}
use two_socks.System.{Sys, Effect, received, closed_fd, sys_close}
use two_socks.Session.{
  Lists, Next, read_on, break_loop, relaying, aborted, Exit, done, still_relaying, crashed, Config,
  serve_request, handle_packet, session, clientthread,
}
use two_socks.Session.Steps.{packets_left, packets_left-ne-zero, Leaves, handle_packet-Leaves}
use two_socks.Session.Pass.{heard, after_packet, session-cases}
use two_socks.Session.Dialogue.{Talk, Refused, Follows, greet-Follows, log_in-Follows}

module _ {W L D : Type 0} (os : Os W) (net : Inet) (lib : Lists L D) (c : Config) where
  -- How the thread ends once a request was handled.
  abbrev pub Served : Next → Sys W → Exit → Sys W → Type 0
  Served (read_on state) s1 e s = ⊥
  Served break_loop s1 e s = (e ≡ done) × (s ≡ sys_close os c.client_fd s1)
  Served relaying s1 e s = (e ≡ still_relaying) × (s ≡ s1)
  Served aborted s1 e s = (e ≡ crashed) × (s ≡ s1)

  -- The list of known clients was `ips0` and the trace `t0` at the start.
  pub data Outcome (ips0 : Option L) (t0 : List Effect) (e : Exit) (ips : Option L) (s : Sys W)
      : Type 0 where
    -- The client says no more, or cannot be heard.
    silent :
        (state : SocksState) (t : List Effect)
        → Talk os net lib c ips0 t0 state ips t
        → e ≡ done
        → s.trace ≡ closed_fd c.client_fd ∷ t
        → Outcome ips0 t0 e ips s
    turned_away :
        (t : List Effect)
        → Refused os net lib c ips0 t0 t
        → e ≡ done
        → ips ≡ ips0
        → s.trace ≡ closed_fd c.client_fd ∷ t
        → Outcome ips0 t0 e ips s
    served :
        (t : List Effect) (buf : List ℕ) (s1 : Sys W)
        → Talk os net lib c ips0 t0 authed ips t
        → s1.trace ≡ received c.client_fd buf ∷ t
        → Served (serve_request os net lib c buf s1).0 (serve_request os net lib c buf s1).1 e s
        → Outcome ips0 t0 e ips s

  module _ (ips0 : Option L) (t0 : List Effect) where
    abbrev IsOutcome : Exit × Option L × Sys W → Type 0
    IsOutcome (e, ips, s) = Outcome ips0 t0 e ips s

    -- After a packet of the negotiation.
    negotiated :
        (k : ℕ) (r : Next × Option L × Sys W)
        → Follows os net lib c ips0 t0 r
        → Leaves k r.0
        → ((state' : SocksState) (ips' : Option L) (s' : Sys W)
            → packets_left state' ≤ k
            → Talk os net lib c ips0 t0 state' ips' s'.trace
            → IsOutcome (session os net lib c k state' ips' s'))
        → IsOutcome (after_packet os net lib c k r)
    negotiated k (read_on state', ips, s) talk l ih = ih state' ips s l talk
    negotiated k (break_loop, ips, s) (away, same) l ih = turned_away s.trace away refl same refl
    negotiated k (relaying, ips, s) h l ih = absurd h
    negotiated k (aborted, ips, s) h l ih = absurd h

    -- After a request.
    requested :
        (k : ℕ) (buf : List ℕ) (ips : Option L) (s : Sys W) (n : Next) (s' : Sys W)
        → serve_request os net lib c buf (heard os net lib c buf s) ≡ (n, s')
        → Leaves 0 n
        → Talk os net lib c ips0 t0 authed ips s.trace
        → IsOutcome (after_packet os net lib c k (n, ips, s'))
    requested k buf ips s (read_on connected) s' f l talk = absurd (omega (arith, l))
    requested k buf ips s (read_on need_auth) s' f l talk = absurd (omega (arith, l))
    requested k buf ips s (read_on authed) s' f l talk = absurd (omega (arith, l))
    requested k buf ips s break_loop s' f l talk =
        served s.trace buf (heard os net lib c buf s) talk refl (rw f (refl, refl))
    requested k buf ips s relaying s' f l talk =
        served s.trace buf (heard os net lib c buf s) talk refl (rw f (refl, refl))
    requested k buf ips s aborted s' f l talk =
        served s.trace buf (heard os net lib c buf s) talk refl (rw f (refl, refl))

    -- What follows a packet, in each state.
    packet-IsOutcome :
        (k : ℕ) (state : SocksState) (buf : List ℕ) (ips : Option L) (s : Sys W)
        → (length buf == 0) ≡ false
        → packets_left state ≤ suc k
        → Talk os net lib c ips0 t0 state ips s.trace
        → ((state' : SocksState) (ips' : Option L) (s' : Sys W)
            → packets_left state' ≤ k
            → Talk os net lib c ips0 t0 state' ips' s'.trace
            → IsOutcome (session os net lib c k state' ips' s'))
        → IsOutcome (
            after_packet os net lib c k
              (handle_packet os net lib c state buf ips (heard os net lib c buf s)))
    unfolding handle_packet
    packet-IsOutcome k connected [] ips s more h talk ih = absurd (cc)
    packet-IsOutcome k connected (v ∷ bs) ips s more h (at_t0, same) ih =
        negotiated k _
          (rw same (
            greet-Follows os net lib c ips0 t0 v bs _
              (ap (λ t. received c.client_fd (v ∷ bs) ∷ t) at_t0)))
          (handle_packet-Leaves os net lib c connected (v ∷ bs) ips _ k h) ih
    packet-IsOutcome k need_auth buf ips s more h (greeted, same) ih =
        negotiated k _ (rw same (log_in-Follows os net lib c ips0 t0 buf s.trace _ greeted refl))
          (handle_packet-Leaves os net lib c need_auth buf ips _ k h) ih
    packet-IsOutcome k authed buf ips s more h talk ih =
        requested k buf ips s _ _ refl
          (handle_packet-Leaves os net lib c authed buf ips _ 0 (omega arith)) talk

    session-IsOutcome :
        (k : ℕ) (state : SocksState) (ips : Option L) (s : Sys W)
        → packets_left state ≤ k
        → Talk os net lib c ips0 t0 state ips s.trace
        → IsOutcome (session os net lib c k state ips s)
    session-IsOutcome zero state ips s h talk = absurd (packets_left-ne-zero state h)
    session-IsOutcome (suc k) state ips s h talk = elim (session-cases os net lib c state ips s) [
      | inl f ↦ rw (f k) (silent state s.trace talk refl refl)
      | inr (buf, e, more, f) ↦ rw (f k) (
          packet-IsOutcome k state buf ips s more h talk
            (λ state' ips' s' l talk'. session-IsOutcome k state' ips' s' l talk'))
    ]

-- Every run of a thread is one of three dialogues. In the first the client falls silent before a
-- request. In the second it is turned away: no method that it offered may be accepted, or, after a
-- greeting that was answered with the method of names and passwords, its login was not judged a
-- success. In the third it came through the negotiation, by a greeting that was answered with "no
-- authentication" or by a login that succeeded, and the thread serves one request and ends as that
-- ends. Each packet is answered, or could not be, with the reply of the two protocols that its
-- check calls for, nothing else is sent or received before a request, and the client's socket is
-- closed unless the request is still being relayed or aborted. The list of known clients is as
-- before, unless a login succeeded, by which the client is remembered, if the lock can be had for
-- writing. On the list counts as known here only where the lock could be had for reading.
pub clientthread-Outcome :
    {W L D : Type 0} (os : Os W) (net : Inet) (lib : Lists L D) (c : Config) (ips : Option L)
    (s : Sys W)
    → let (e, ips', s') = clientthread os net lib c ips s in
      Outcome os net lib c ips s.trace e ips' s'
unfolding clientthread
clientthread-Outcome os net lib c ips s =
    session-IsOutcome os net lib c ips s.trace 3 connected ips s (omega arith) (refl, refl)
