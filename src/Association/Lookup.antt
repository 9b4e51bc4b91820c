-- ===== src/Association/Lookup.antt =====
-- TwoSocks/microsocks/sockssrv.c, `copy_loop_udp`: the search for the destination of a slot in the
-- loop over the slots behind the client's two.
use two_socks.Prelude.{
  ap, count, ℕ, zero, suc, ◌+◌, ◌<◌, ◌≤◌, ◌≡◌, refl, sym, ◌∙◌, List, [], ◌∷◌, none, some, inl, inr,
  arith, get_elem?, find_idx?, length, Bool-cases, Option-cases, ◌==◌,
}
use two_socks.Platform.{Inet}
use two_socks.Os.{Os}
use two_socks.Sblist.{Sblist}
use two_socks.System.{Sys, Effect}
use two_socks.Destinations.{Dest, Pollfd, Assoc, polled, compare_fd_socks5addr_by_fd}
use two_socks.Forward.{Turn, on}
use two_socks.Association.{Slot, next_slot, same_slot, turn, visit_found, visit, scan}
use two_socks.Association.Spec.{view, here}
use two_socks.Association.Tables.{IsTracked, Run-IsTracked, dest_fds}
use two_socks.Association.Slots.{IsVisited, visit-IsVisited, slot-in-range}

count-polled :
    (ps : List Pollfd) (i : ℕ) (p : Pollfd) → get_elem? ps i ≡ some p → 0 < count p.fd (polled ps)
count-polled [] i p h = absurd (cc)
count-polled (q ∷ ps) zero p h = let same : q ≡ p = cc in rw same (ground arith)
count-polled (q ∷ ps) (suc i) p h = omega (arith, count-polled ps i p h)

found :
    (fd : ℕ) (ds : List Dest)
    → 0 < count fd (dest_fds ds)
    → (j : ℕ) × (d : Dest) × (find_idx? (compare_fd_socks5addr_by_fd fd) ds ≡ some j)
      × (get_elem? ds j ≡ some d)
      × (d.fd ≡ fd)
found fd [] h = absurd (omega (arith, h))
found fd (d ∷ ds) h = elim (Bool-cases (fd == d.fd)) [
  | inl e ↦ (0, d, rw e refl, refl, ground (arith, e))
  | inr e ↦
      let (j, d', f, at_j, same) = found fd ds (ground (arith, e, h)) in
      (suc j, d', rw (e, f) refl, at_j, same)
]

module _ {W L : Type 0} (os : Os W) (net : Inet) (lib : Sblist Dest L) (udp_fd : ℕ) where
  -- The slot holds `p`, and the destination at `j` has its descriptor.
  abbrev pub IsOwn : Assoc L → ℕ → Pollfd → ℕ → Type 0
  IsOwn a i p j =
      (get_elem? a.live i ≡ some p)
      × ((d : Dest) × (get_elem? (lib.items a.dests) j ≡ some d) × (d.fd ≡ p.fd))

  -- The loop from the slot `i` on, where each slot it comes to is handled as that of a destination
  -- with the slot's descriptor, until no slot is left or the handling of one ends the association.
  pub data Passes (r : Turn × Assoc L × Sys W) : ℕ → Assoc L → Sys W → Type 0 where
    past_last :
        {i : ℕ} {a : Assoc L} {s : Sys W}
        → get_elem? a.live i ≡ none
        → r ≡ (on, a, s)
        → Passes r i a s
    passed :
        {i : ℕ} {a a' : Assoc L} {s s' : Sys W} (p : Pollfd) (j : ℕ)
        → IsOwn a i p j
        → visit_found os net lib udp_fd p j a s ≡ (next_slot, a', s')
        → Passes r (i + 1) a' s'
        → Passes r i a s
    removed :
        {i : ℕ} {a a' : Assoc L} {s s' : Sys W} (p : Pollfd) (j : ℕ)
        → IsOwn a i p j
        → visit_found os net lib udp_fd p j a s ≡ (same_slot, a', s')
        → Passes r i a' s'
        → Passes r i a s
    stopped :
        {i : ℕ} {a a' : Assoc L} {s s' : Sys W} (p : Pollfd) (j : ℕ) (t : Turn)
        → IsOwn a i p j
        → visit_found os net lib udp_fd p j a s ≡ (turn t, a', s')
        → r ≡ (t, a', s')
        → Passes r i a s

  -- The search for the descriptor of a slot leads to a destination with it.
  visit-finds :
      (t0 : List Effect) (a : Assoc L) (s : Sys W) (i : ℕ) (p : Pollfd)
      → IsTracked t0 (view lib a s)
      → get_elem? a.live i ≡ some p
      → (j : ℕ) × IsOwn a i p j
        × (visit os net lib udp_fd p a s ≡ visit_found os net lib udp_fd p j a s)
  unfolding visit
  visit-finds t0 a s i p v h =
      let (j, d, f, g, same) =
        found p.fd (lib.items a.dests) (omega (arith, v.tracked p.fd, count-polled a.live i p h)) in
      (
        j,
        (h, (d, g, same)),
        rw (lib.find_lem a.dests (compare_fd_socks5addr_by_fd p.fd) ∙ f, visit) refl,
      )

  ended_as :
      (a : Assoc L) (s : Sys W) (n : Slot) (p : Pollfd) (j : ℕ)
      → (visit os net lib udp_fd p a s).0 ≡ n
      → visit os net lib udp_fd p a s ≡ visit_found os net lib udp_fd p j a s
      → visit_found os net lib udp_fd p j a s
        ≡ (n, (visit os net lib udp_fd p a s).1, (visit os net lib udp_fd p a s).2)
  ended_as a s n p j f same =
      sym same
      ∙ ap (λ m. (m, (visit os net lib udp_fd p a s).1, (visit os net lib udp_fd p a s).2)) f

  -- Where the list of destinations and the array of polled descriptors hold the same descriptors,
  -- equally often, namely those of the sockets opened since a point in the trace and not closed, the
  -- loop over the slots handles every slot that it comes to as that of a destination with the slot's
  -- descriptor, also behind the slots that it passed and removed; so it never comes to the case
  -- "UDP socket not found". As many steps as there are slots left are enough for it.
  pub scan-Passes :
      (t0 : List Effect) (k i : ℕ) (a : Assoc L) (s : Sys W)
      → length a.live ≤ k + i
      → IsTracked t0 (view lib a s)
      → Passes (scan os net lib k udp_fd i a s) i a s
  unfolding scan
  scan-Passes t0 zero i a s enough v = elim (Option-cases (get_elem? a.live i)) [
    | inl e ↦ past_last e (rw (e, scan) refl)
    | inr (p, e) ↦
        absurd (omega (arith, enough, slot-in-range os net lib udp_fd (view lib a s) a.live i p e))
  ]
  scan-Passes t0 (suc k) i a s enough v = elim (Option-cases (get_elem? a.live i)) [
    | inl e ↦ past_last e (rw (e, scan) refl)
    | inr (p, e) ↦
        let (j, own, same) = visit-finds t0 a s i p v e in
        step p j e own same _ refl
          (visit-IsVisited os net lib udp_fd (view lib a s) i p a s e (here refl))
          (λ i' a' s'. scan-Passes t0 k i' a' s')
  ]
    where
      step :
          (p : Pollfd) (j : ℕ)
          → get_elem? a.live i ≡ some p
          → IsOwn a i p j
          → visit os net lib udp_fd p a s ≡ visit_found os net lib udp_fd p j a s
          → (n : Slot) → (visit os net lib udp_fd p a s).0 ≡ n
          → IsVisited net udp_fd lib
              (view lib a s)
              a
              (n, (visit os net lib udp_fd p a s).1, (visit os net lib udp_fd p a s).2)
          → ((i' : ℕ) (a' : Assoc L) (s' : Sys W)
              → length a'.live ≤ k + i'
              → IsTracked t0 (view lib a' s')
              → Passes (scan os net lib k udp_fd i' a' s') i' a' s')
          → Passes (scan os net lib (suc k) udp_fd i a s) i a s
      step p j e own same next_slot f (run, kept) ih =
          passed p j own (ended_as _ _ _ p j f same) (
            rw (e, scan, f) (ih (i + 1) _ _ (omega (arith, enough, kept)) (Run-IsTracked t0 run v)))
      step p j e own same same_slot f (run, less) ih =
          removed p j own (ended_as _ _ _ p j f same)
            (rw (e, scan, f) (ih i _ _ (omega (arith, enough, less)) (Run-IsTracked t0 run v)))
      step p j e own same (turn t) f run ih =
          stopped p j t own (ended_as _ _ _ p j f same) (rw (e, scan, f) refl)
