-- ===== src/Session/Pass.antt =====
-- TwoSocks/microsocks/sockssrv.c, `clientthread`: one pass of its loop.
use two_socks.Prelude.{
  ℕ, suc, ◌≡◌, refl, ◌⊎◌, inl, inr, false, List, Option, length, Bool-cases, ◌==◌,
}
use two_socks.Codes.{SocksState}
use two_socks.Platform.{Inet}
use two_socks.Os.{Os, Received-cases, got}
use two_socks.System.{Sys, received, moved, note}
use two_socks.Session.{
  Lists, Next, read_on, break_loop, relaying, aborted, Config, Exit, still_relaying, crashed,
  handle_packet, leave, session,
}

module _ {W L D : Type 0} (os : Os W) (net : Inet) (lib : Lists L D) (c : Config) where
  -- The system when a packet has been read.
  abbrev pub heard : List ℕ → Sys W → Sys W
  heard buf s = note (received c.client_fd buf) (moved (os.read s.world c.client_fd 1024).1 s)

  -- What follows a packet, with `k` more.
  abbrev pub after_packet : ℕ → Next × Option L × Sys W → Exit × Option L × Sys W
  after_packet k (read_on state, ips, s) = session os net lib c k state ips s
  after_packet k (break_loop, ips, s) = leave os net lib c ips s
  after_packet k (relaying, ips, s) = (still_relaying, ips, s)
  after_packet k (aborted, ips, s) = (crashed, ips, s)

  -- A pass ends the loop, or handles a packet that is not empty, however many more are read.
  pub session-cases :
      (state : SocksState) (ips : Option L) (s : Sys W)
      → ((k : ℕ)
          → session os net lib c (suc k) state ips s
            ≡ leave os net lib c ips (moved (os.read s.world c.client_fd 1024).1 s))
        ⊎ ((buf : List ℕ) × ((os.read s.world c.client_fd 1024).0 ≡ got buf)
            × ((length buf == 0) ≡ false)
            × ((k : ℕ)
                → session os net lib c (suc k) state ips s
                  ≡ after_packet k (handle_packet os net lib c state buf ips (heard buf s))))
  unfolding session
  session-cases state ips s = elim (Received-cases (os.read s.world c.client_fd 1024).0) [
    | inr (x, e) ↦ inl (λ k. rw (e, session) refl)
    | inl (buf, e) ↦ elim (Bool-cases (length buf == 0)) [
      | inl end ↦ inl (λ k. rw (e, session, end) refl)
      | inr more ↦ inr (buf, e, more, λ k. handled buf e more k _ refl)
    ]
  ]
    where
      handled :
          (buf : List ℕ)
          → (os.read s.world c.client_fd 1024).0 ≡ got buf
          → (length buf == 0) ≡ false
          → (k : ℕ) (n : Next) → (handle_packet os net lib c state buf ips (heard buf s)).0 ≡ n
          → session os net lib c (suc k) state ips s
            ≡ after_packet k (handle_packet os net lib c state buf ips (heard buf s))
      handled buf e more k (read_on state') f = rw (e, session, more, f) refl
      handled buf e more k break_loop f = rw (e, session, more, f) refl
      handled buf e more k relaying f = rw (e, session, more, f) refl
      handled buf e more k aborted f = rw (e, session, more, f) refl
