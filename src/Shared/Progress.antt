-- ===== src/Shared/Progress.antt =====
-- TwoSocks/microsocks/sockssrv.c: whoever has locked `connection_event_lock` or `auth_ips_lock`
-- unlocks it.
use two_socks.Prelude.{
  ℕ, zero, suc, ◌+◌, ◌≤◌, ◌<◌, ◌≡◌, refl, ◌∙◌, ap, ◌⊎◌, inl, inr, Bool, false, List, [], ◌∷◌, arith,
}
use two_socks.Shared.{
  free, Lock, Guarded, idle, inside, leaving, performed, Threads, at_pc, work, unlock, advance,
  interleave,
}
use two_socks.Shared.Exclusive.{set_at_self}

Sum-cases : {A B : Type 0} (o : A ⊎ B) → ((a : A) × (o ≡ inl a)) ⊎ ((b : B) × (o ≡ inr b))
Sum-cases (inl a) = inl (a, refl)
Sum-cases (inr b) = inr (b, refl)

-- `k` steps of the thread `i`.
abbrev pub turns : ℕ → ℕ → List (Bool × ℕ)
turns zero i = []
turns (suc k) i = (false, i) ∷ turns k i

module _ {C X Q R K : Type 0} (lk : Lock K) (g : Guarded C X Q R) where
  -- A bound of the accesses that are left in a body, but for the last.
  abbrev pub Shrinks : (Q → C → ℕ) → Type 0
  Shrinks left =
      (q : Q) (c : C) (q' : Q) → (g.access q c).0 ≡ inl q' → left q' (g.access q c).1 < left q c

  module _ (i : ℕ) where
    -- After at most `n` steps of its own the thread `i` has made the call and holds nothing.
    abbrev pub Ends : ℕ → X → Threads C X Q R K → Type 0
    Ends n x w =
        (k : ℕ) × (k ≤ n)
        × (r : R) × ((interleave lk g (turns k i) w).pcs i ≡ idle)
        × (lk.held (interleave lk g (turns k i) w).lock i ≡ free)
        × ((interleave lk g (turns k i) w).log ≡ performed i x r ∷ w.log)

    pub leaving-Ends : (x : X) (r : R) (w : Threads C X Q R K) → w.pcs i ≡ leaving x r → Ends 1 x w
    unfolding interleave advance unlock
    leaving-Ends x r w e = (
      1,
      omega arith,
      r,
      rw (e, interleave, advance) (set_at_self i idle w.pcs),
      rw (e, interleave, advance) (lk.release_own w.lock i),
      rw (e, interleave, advance) refl,
    )

    -- A step within the body.
    further-Ends :
        (n : ℕ) (x : X) (w w' : Threads C X Q R K)
        → advance lk g false i w ≡ w'
        → w'.log ≡ w.log
        → Ends n x w'
        → Ends (suc n) x w
    unfolding interleave
    further-Ends n x w w' e same (k, le, r, ended, unheld, logged) = (
      suc k,
      omega (arith, le),
      r,
      rw (interleave, e) ended,
      rw (interleave, e) unheld,
      rw (interleave, e) (logged ∙ ap (λ t. performed i x r ∷ t) same),
    )

    pub longer-Ends : (m n : ℕ) (x : X) (w : Threads C X Q R K) → m ≤ n → Ends m x w → Ends n x w
    longer-Ends m n x w le (k, h, r, e, u, l) = (k, omega (arith, le, h), r, e, u, l)

    advance-access :
        (x : X) (q : Q) (o : Q ⊎ R) (w : Threads C X Q R K)
        → w.pcs i ≡ inside x q
        → (g.access q w.cell).0 ≡ o
        → advance lk g false i w
          ≡ at_pc lk g i
              (elim o [ inl q' ↦ inside x q' | inr r ↦ leaving x r ])
              (record w { cell = (g.access q w.cell).1 })
    unfolding advance work
    advance-access x q (inl q') w e f = rw (e, advance, work, f) refl
    advance-access x q (inr r) w e f = rw (e, advance, work, f) refl

    last-Ends :
        (n : ℕ) (x : X) (q : Q) (r : R) (w : Threads C X Q R K)
        → w.pcs i ≡ inside x q
        → (g.access q w.cell).0 ≡ inr r
        → Ends (n + 2) x w
    last-Ends n x q r w e f = longer-Ends 2 (n + 2) x w (omega arith) (
        further-Ends 1 x w _ (advance-access x q (inr r) w e f) refl
          (leaving-Ends x r _ (set_at_self i (leaving x r) w.pcs)))

    pub inside-Ends :
        (left : Q → C → ℕ)
        → Shrinks left
        → (n : ℕ) (x : X) (q : Q) (w : Threads C X Q R K) → left q w.cell ≤ n
        → w.pcs i ≡ inside x q
        → Ends (n + 2) x w
    inside-Ends left less zero x q w le e = elim (Sum-cases (g.access q w.cell).0) [
      | inr (r, f) ↦ last-Ends 0 x q r w e f
      | inl (q', f) ↦ absurd (omega (arith, le, less q w.cell q' f))
    ]
    inside-Ends left less (suc n) x q w le e = elim (Sum-cases (g.access q w.cell).0) [
      | inr (r, f) ↦ last-Ends (suc n) x q r w e f
      | inl (q', f) ↦ longer-Ends (suc (n + 2)) (suc n + 2) x w (omega arith) (
          further-Ends (n + 2) x w _ (advance-access x q (inl q') w e f) refl (
            inside-Ends left less n x q' _ (omega (arith, le, less q w.cell q' f))
              (set_at_self i (inside x q') w.pcs)))
    ]
