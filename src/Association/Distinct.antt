-- ===== src/Association/Distinct.antt =====
-- No two destinations of an association have the same address.
use two_socks.Prelude.{ℕ, zero, suc, ◌≡◌, false, List, [], ◌∷◌, ◌++◌, All, erase_idx}
use two_socks.Platform.{Inet}
use two_socks.Destinations.{Dest, compare_fd_socks5addr_by_addrport}
use two_socks.Association.Spec.{
  View, Step, transfer, probe, refuse_address, turn_away_address, add_address, drop_address, IsNew,
  Run, here, next,
}

-- The address of a destination differs from those that were there before it.
abbrev pub IsDistinct : List Dest → Type 0
IsDistinct [] = Unit
IsDistinct (d ∷ ds) =
    All (λ e. compare_fd_socks5addr_by_addrport e.addrport d ≡ false) ds × IsDistinct ds

pub All-snoc :
    (P : Dest → Type 0) (ds : List Dest) (e : Dest) → All P ds → P e → All P (ds ++ e ∷ [])
All-snoc P [] e h k = (k, tt)
All-snoc P (d ∷ ds) e h k = (h.0, All-snoc P ds e h.1 k)

pub All-erase_idx : (P : Dest → Type 0) (ds : List Dest) (i : ℕ) → All P ds → All P (erase_idx ds i)
All-erase_idx P [] i h = tt
All-erase_idx P (d ∷ ds) zero h = h.1
All-erase_idx P (d ∷ ds) (suc i) h = (h.0, All-erase_idx P ds i h.1)

snoc-IsDistinct :
    (ds : List Dest) (e : Dest) → IsDistinct ds → IsNew e.addrport ds → IsDistinct (ds ++ e ∷ [])
snoc-IsDistinct [] e h new = (tt, tt)
snoc-IsDistinct (d ∷ ds) e h new = (All-snoc _ ds e h.0 new.0, snoc-IsDistinct ds e h.1 new.1)

erase_idx-IsDistinct : (ds : List Dest) (i : ℕ) → IsDistinct ds → IsDistinct (erase_idx ds i)
erase_idx-IsDistinct [] i h = tt
erase_idx-IsDistinct (d ∷ ds) zero h = h.1
erase_idx-IsDistinct (d ∷ ds) (suc i) h = (All-erase_idx _ ds i h.0, erase_idx-IsDistinct ds i h.1)

Step-IsDistinct :
    {x y : View} {net : Inet} {client : ℕ}
    → Step net client x y
    → IsDistinct x.dests
    → IsDistinct y.dests
Step-IsDistinct {x} (transfer e k due eq) h = rw eq h
Step-IsDistinct {x} (probe f eq) h = rw eq h
Step-IsDistinct {x} (refuse_address addr code eq) h = rw eq h
Step-IsDistinct {x} (turn_away_address f target addr code eq) h = rw eq h
Step-IsDistinct {x} (add_address f target addr new space named eq) h =
    rw eq (snoc-IsDistinct x.dests _ h new)
Step-IsDistinct {x} (drop_address i d code at_i eq) h = rw eq (erase_idx-IsDistinct x.dests i h)

pub Run-IsDistinct :
    {net : Inet} {client : ℕ} {x y : View}
    → Run net client x y
    → IsDistinct x.dests
    → IsDistinct y.dests
Run-IsDistinct (here e) h = rw e h
Run-IsDistinct (next r st) h = Step-IsDistinct st (Run-IsDistinct r h)
