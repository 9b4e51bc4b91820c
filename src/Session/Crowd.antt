-- ===== src/Session/Crowd.antt =====
-- TwoSocks/microsocks/sockssrv.c, `clientthread`: the sessions of many clients, which share the list
-- of known addresses, with their packets in any order.
pub mod Passing
pub mod Vouching
pub mod Provenance
use two_socks.Prelude.{ℕ, Bool, true, false, List, [], ◌∷◌, Option, ◌==◌, if◌then◌else◌}
use two_socks.Platform.{Inet}
use two_socks.Os.{Os, Received, got, receive_failed}
use two_socks.System.{Sys}
use two_socks.Shared.{set_at}
use two_socks.Session.{Lists, Config, Exit, done, still_relaying, still_reading, crashed, session}

-- The system and the list that all threads act on, where each stands, and the packets that were read
-- in the loops of the threads, newest first.
pub record Crowd (W L : Type 0) : Type 0 where
  pub sys : Sys W
  pub ips : Option L
  pub exits : ℕ → Exit
  pub heard : List (ℕ × List ℕ)

abbrev pub hear : ℕ → Received → List (ℕ × List ℕ) → List (ℕ × List ℕ)
hear i (got buf) log = (i, buf) ∷ log
hear i (receive_failed e) log = log

module _ {W L D : Type 0} (os : Os W) (net : Inet) (lib : Lists L D) (configs : ℕ → Config) where
  -- The thread `i` comes to the end of a pass of its loop.
  abbrev pub comes_to : ℕ → Exit × Option L × Sys W → Crowd W L → Crowd W L
  comes_to i (e, ips, s) w = record {
    sys = s;
    ips = ips;
    exits = set_at i e w.exits;
    heard = hear i (os.read w.sys.world (configs i).client_fd 1024).0 w.heard;
  }

  abbrev pub pass_from : ℕ → Exit → Crowd W L → Crowd W L
  pass_from i (still_reading state) w =
      comes_to i (session os net lib (configs i) 1 state w.ips w.sys) w
  pass_from i done w = w
  pass_from i still_relaying w = w
  pass_from i crashed w = w

  -- One pass of the loop of the thread `i`, if it has not ended.
  unfoldable pub pass : ℕ → Crowd W L → Crowd W L
  pass i w = pass_from i (w.exits i) w

  unfoldable pub passes : List ℕ → Crowd W L → Crowd W L
  passes [] w = w
  passes (i ∷ rest) w = passes rest (pass i w)
