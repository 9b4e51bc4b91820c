-- ===== src/Shared/Programs.antt =====
-- TwoSocks/microsocks/sockssrv.c: no call under a lock is lost, repeated or made before an earlier
-- one of its thread.
use two_socks.Prelude.{
  ℕ, ◌≡◌, refl, sym, ◌∙◌, ap, ◌⊎◌, inl, inr, Bool, ◌&&◌, List, [], ◌∷◌, ◌++◌, append_assoc,
  Bool-cases, Option-cases, ◌==◌, ==_iff, append-nil, if◌then◌else◌,
}
use two_socks.Shared.{
  Lock, Guarded, Pc, idle, waiting, inside, leaving, Entry, performed, refused, Threads, set_at,
  call_next, try_lock, work, unlock, advance, interleave,
}
use two_socks.Shared.Exclusive.{set_at-cases}

module _ {X R : Type 0} where
  -- The calls that a thread has made, oldest first.
  abbrev pub calls_by : ℕ → List (Entry X R) → List X
  calls_by i [] = []
  calls_by i (performed j x r ∷ log) = if i == j then calls_by i log ++ x ∷ [] else calls_by i log
  calls_by i (refused j x ∷ log) = if i == j then calls_by i log ++ x ∷ [] else calls_by i log

abbrev pub current : {X Q R : Type 0} → Pc X Q R → List X
current idle = []
current (waiting x) = x ∷ []
current (inside x q) = x ∷ []
current (leaving x r) = x ∷ []

module _ {C X Q R K : Type 0} (lk : Lock K) (g : Guarded C X Q R) where
  -- All that a thread has called, calls and will call.
  abbrev pub programme : ℕ → Threads C X Q R K → List X
  programme j w = calls_by j w.log ++ current (w.pcs j) ++ w.todo j

  module _ (i : ℕ) (w : Threads C X Q R K) (j : ℕ) where
    -- The thread `i` goes on with its call.
    same_call :
        (p : Pc X Q R)
        → current p ≡ current (w.pcs i)
        → calls_by j w.log ++ current (set_at i p w.pcs j) ++ w.todo j ≡ programme j w
    same_call p same = elim (set_at-cases i p w.pcs j) [
      | inl (at_i, e) ↦ rw (e, same, at_i) refl
      | inr (ne, e) ↦ rw e refl
    ]

    -- It has made its call.
    made :
        (x : X)
        → current (w.pcs i) ≡ x ∷ []
        → (if j == i then calls_by j w.log ++ x ∷ [] else calls_by j w.log)
            ++ current (set_at i idle w.pcs j)
            ++ w.todo j
          ≡ programme j w
    made x at_i = elim (Bool-cases (j == i)) [
      | inl e ↦ let same : j ≡ i = (==_iff j i).0 e in rw (e, append-nil, same, at_i) refl
      | inr e ↦ rw e refl
    ]

    called-programme :
        (xs : List X)
        → w.todo i ≡ xs
        → w.pcs i ≡ idle
        → programme j (call_next lk g i xs w) ≡ programme j w
    unfolding call_next
    called-programme [] e at_i = refl
    called-programme (x ∷ xs) e at_i = elim (Bool-cases (j == i)) [
      | inl hit ↦
          let same : j ≡ i = (==_iff j i).0 hit in
          rw (hit, same, e, at_i, append-nil) (append_assoc (calls_by i w.log) (x ∷ []) xs)
      | inr miss ↦ rw miss refl
    ]

    tried-programme :
        (fails : Bool) (x : X)
        → w.pcs i ≡ waiting x
        → programme j (try_lock lk g fails i x w) ≡ programme j w
    unfolding try_lock
    tried-programme fails x at_i = elim (Bool-cases (fails && g.tolerates x)) [
      | inl no_lock ↦ rw (no_lock, try_lock) (made x (ap current at_i))
      | inr asks ↦ elim (Option-cases (lk.acquire (g.shares x) w.lock i)) [
        | inl e ↦ rw (asks, e, try_lock) refl
        | inr (k, e) ↦
            rw (asks, e, try_lock) (same_call (inside x (g.enter x)) (sym (ap current at_i)))
      ]
    ]

    worked-programme :
        (x : X) (q : Q) (o : Q ⊎ R)
        → (g.access q w.cell).0 ≡ o
        → w.pcs i ≡ inside x q
        → programme j (work lk g i x q w) ≡ programme j w
    unfolding work
    worked-programme x q (inl q') e at_i =
        rw (e, work) (same_call (inside x q') (sym (ap current at_i)))
    worked-programme x q (inr r) e at_i =
        rw (e, work) (same_call (leaving x r) (sym (ap current at_i)))

    advance-programme : (fails : Bool) → programme j (advance lk g fails i w) ≡ programme j w
    unfolding advance unlock
    advance-programme fails = from (w.pcs i) refl
      where
        from : (p : Pc X Q R) → w.pcs i ≡ p → programme j (advance lk g fails i w) ≡ programme j w
        from idle e = rw (e, advance) (called-programme (w.todo i) refl e)
        from (waiting x) e = rw (e, advance) (tried-programme fails x e)
        from (inside x q) e = rw (e, advance) (worked-programme x q _ refl e)
        from (leaving x r) e = rw (e, advance) (made x (ap current e))

  pub interleave-programme :
      (schedule : List (Bool × ℕ)) (w : Threads C X Q R K) (j : ℕ)
      → programme j (interleave lk g schedule w) ≡ programme j w
  unfolding interleave
  interleave-programme [] w j = refl
  interleave-programme ((fails, i) ∷ rest) w j =
      interleave-programme rest _ j ∙ advance-programme i w j fails
