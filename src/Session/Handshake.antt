-- ===== src/Session/Handshake.antt =====
-- TwoSocks/microsocks/sockssrv.c, `clientthread`: how many packets the loop of a thread reads.
use two_socks.Prelude.{ℕ, zero, suc, ◌+◌, ◌≤◌, ◌≡◌, ◌≢◌, refl, Option, arith, inl, inr}
use two_socks.Codes.{SocksState, connected}
use two_socks.Platform.{Inet}
use two_socks.Os.{Os}
use two_socks.System.{Sys}
use two_socks.Session.{
  Lists, Next, read_on, break_loop, relaying, aborted, still_reading, Config, session, clientthread,
}
use two_socks.Session.Pass.{after_packet, session-cases}
use two_socks.Session.Steps.{packets_left, Leaves, packets_left-ne-zero, handle_packet-Leaves}

module _ {W L D : Type 0} (os : Os W) (net : Inet) (lib : Lists L D) (c : Config) where
  -- The two runs are the same and end.
  abbrev Same : ℕ → ℕ → SocksState → Option L → Sys W → Type 0
  Same j k state ips s =
      (session os net lib c j state ips s ≡ session os net lib c k state ips s)
      × ((state' : SocksState) → (session os net lib c k state ips s).0 ≢ still_reading state')

  packet-enough :
      (j k : ℕ) (r : Next × Option L × Sys W)
      → Leaves j r.0
      → Leaves k r.0
      → ((state' : SocksState) (ips' : Option L) (s' : Sys W)
          → packets_left state' ≤ j
          → packets_left state' ≤ k
          → Same j k state' ips' s')
      → (after_packet os net lib c j r ≡ after_packet os net lib c k r)
        × ((state' : SocksState) → (after_packet os net lib c k r).0 ≢ still_reading state')
  packet-enough j k (read_on state', ips, s) l l' ih = ih state' ips s l l'
  packet-enough j k (break_loop, ips, s) l l' ih = (refl, λ state' q. cc q)
  packet-enough j k (relaying, ips, s) l l' ih = (refl, λ state' q. cc q)
  packet-enough j k (aborted, ips, s) l l' ih = (refl, λ state' q. cc q)

  -- Any two bounds that are large enough give the same run, which ends.
  session-enough :
      (j k : ℕ) (state : SocksState) (ips : Option L) (s : Sys W)
      → packets_left state ≤ j
      → packets_left state ≤ k
      → Same j k state ips s
  session-enough zero k state ips s h h' = absurd (packets_left-ne-zero state h)
  session-enough (suc j) zero state ips s h h' = absurd (packets_left-ne-zero state h')
  session-enough (suc j) (suc k) state ips s h h' = elim (session-cases os net lib c state ips s) [
    | inl f ↦ rw (f j, f k) (refl, λ state' q. cc q)
    | inr (buf, e, more, f) ↦
        rw (f j, f k)
          (packet-enough j k _ (handle_packet-Leaves os net lib c state buf ips _ j h)
            (handle_packet-Leaves os net lib c state buf ips _ k h')
            (λ state' ips' s' l l'. session-enough j k state' ips' s' l l'))
  ]

-- The loop of a thread reads three packets at most: with any greater bound on their number the
-- thread does the same, and it never waits for another packet. It ends, relays, or aborts.
pub clientthread_enough :
    {W L D : Type 0} (os : Os W) (net : Inet) (lib : Lists L D) (c : Config) (k : ℕ)
    (ips : Option L) (s : Sys W)
    → (session os net lib c (3 + k) connected ips s ≡ clientthread os net lib c ips s)
      × ((state : SocksState) → (clientthread os net lib c ips s).0 ≢ still_reading state)
unfolding clientthread
clientthread_enough os net lib c k ips s =
    session-enough os net lib c (3 + k) 3 connected ips s (omega arith) (omega arith)
