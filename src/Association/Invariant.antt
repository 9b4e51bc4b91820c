-- ===== src/Association/Invariant.antt =====
-- What every pass over the loop of an association keeps of its tables, and what it means for the
-- search of a polled descriptor.
use two_socks.Prelude.{ℕ, refl, List}
use two_socks.Platform.{Inet}
use two_socks.Os.{Os}
use two_socks.Sblist.{Sblist}
use two_socks.System.{Sys, Effect}
use two_socks.Destinations.{Dest, Assoc}
use two_socks.Forward.{Turn, on, again, ends, broken}
use two_socks.Forward.Sound.{IsSound}
use two_socks.Association.{udp_round}
use two_socks.Association.Spec.{view, here}
use two_socks.Association.Tables.{IsTracked, Run-IsTracked}
use two_socks.Association.Distinct.{IsDistinct, Run-IsDistinct}
use two_socks.Association.Sound.{udp_round-IsSound}

-- The two tables agree with each other and with the sockets opened since the trace `t0`, and no
-- two destinations have the same address.
abbrev pub IsKept : {W L : Type 0} → Sblist Dest L → List Effect → Assoc L → Sys W → Type 0
IsKept lib t0 a s = IsTracked t0 (view lib a s) × IsDistinct (lib.items a.dests)

abbrev pub IsKeptAfter :
    {W L : Type 0} → Sblist Dest L → List Effect → Turn × Assoc L × Sys W → Type 0
IsKeptAfter lib t0 (on, a, s) = IsKept lib t0 a s
IsKeptAfter lib t0 (again, a, s) = IsKept lib t0 a s
IsKeptAfter lib t0 (ends state code, a, s) = IsKept lib t0 a s
IsKeptAfter lib t0 (broken, a, s) = ⊥

-- If the list of destinations and the array of polled descriptors hold the same descriptors,
-- equally often, these are the sockets that were opened since a point in the trace and are not
-- closed, there are at most 1022, and no two destinations have the same address, then all of this
-- holds again after one pass over the loop, however the pass goes on; and the pass neither aborts
-- nor reads out of bounds.
pub udp_round-IsKept :
    {W L : Type 0} (os : Os W) (net : Inet) (lib : Sblist Dest L) (t0 : List Effect)
    (tcp_fd udp_fd : ℕ) (a : Assoc L) (s : Sys W)
    → IsKept lib t0 a s
    → IsKeptAfter lib t0 (udp_round os net lib tcp_fd udp_fd a s)
udp_round-IsKept {W} {L} os net lib t0 tcp_fd udp_fd a s (v, d) =
    kept _ (udp_round-IsSound os net lib udp_fd (view lib a s) tcp_fd a s (here refl))
  where
    kept :
        (r : Turn × Assoc L × Sys W)
        → IsSound net udp_fd lib (view lib a s) r
        → IsKeptAfter lib t0 r
    kept (on, a', s') r = (Run-IsTracked t0 r v, Run-IsDistinct r d)
    kept (again, a', s') r = (Run-IsTracked t0 r v, Run-IsDistinct r d)
    kept (ends state code, a', s') (e, r) = (Run-IsTracked t0 r v, Run-IsDistinct r d)
    kept (broken, a', s') r = absurd r
