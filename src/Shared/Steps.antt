-- ===== src/Shared/Steps.antt =====
-- TwoSocks/microsocks/sockssrv.c: every step of a thread keeps the calls under a lock as if they were
-- made one after the other.
use two_socks.Prelude.{
  ℕ, ◌≡◌, ◌≢◌, refl, sym, ◌∙◌, ap, ◌⊎◌, inl, inr, Bool, true, false, ◌&&◌, List, [], ◌∷◌, some,
  Bool-cases, Option-cases, ◌==◌, ==_iff,
}
use mathlib.Core.Path.{subst}
use two_socks.Shared.{
  free, shared, owned, hold_for, Lock, Guarded, Pc, idle, waiting, inside, leaving, Threads, set_at,
  call_next, try_lock, work, unlock, advance, interleave,
}
use two_socks.Shared.Exclusive.{
  set_at-cases, set_at_self, hold_of, IsExclusive, advance-IsExclusive,
}
use two_socks.Shared.Linear.{Implements, Replays, Underway, Unowned, IsLinear}

module _ {C X Q R K : Type 0} (lk : Lock K) (g : Guarded C X Q R) (atomic : X → C → R × C)
    (Amid : X → C → Q → C → Type 0) where
  hold_for-ne-free : (b : Bool) → hold_for b ≢ free
  hold_for-ne-free true h = cc
  hold_for-ne-free false h = cc

  free-Underway : (b c : C) (p : Pc X Q R) → hold_of lk g p ≡ free → Underway lk g atomic Amid b c p
  free-Underway b c idle h = tt
  free-Underway b c (waiting x) h = tt
  free-Underway b c (inside x q) h = absurd (hold_for-ne-free (g.shares x) h)
  free-Underway b c (leaving x r) h = absurd (hold_for-ne-free (g.shares x) h)

  module _ (impl : Implements g atomic Amid) (c0 : C) (w : Threads C X Q R K)
      (ok : IsLinear lk g atomic Amid c0 w) (i : ℕ) where
    -- The thread `i` comes to `p`.
    set_at-Underway :
        (b c : C) (p : Pc X Q R)
        → Underway lk g atomic Amid b c p
        → ((j : ℕ) → j ≢ i → Underway lk g atomic Amid b c (w.pcs j))
        → (j : ℕ) → Underway lk g atomic Amid b c (set_at i p w.pcs j)
    set_at-Underway b c p here there j = elim (set_at-cases i p w.pcs j) [
      | inl (_, e) ↦ rw e here
      | inr (ne, e) ↦ rw e (there j ne)
    ]

    calm : Unowned lk g atomic Amid w.pcs → w.cell ≡ ok.base
    calm un = elim ok.settled [ inl e ↦ e | inr (a, owns) ↦ absurd (un a owns) ]

    -- An owner stays one.
    owner_at :
        (p : Pc X Q R)
        → hold_of lk g p ≡ hold_of lk g (w.pcs i)
        → (a : ℕ) → hold_of lk g (w.pcs a) ≡ owned
        → hold_of lk g (set_at i p w.pcs a) ≡ owned
    owner_at p same a owns = elim (set_at-cases i p w.pcs a) [
      | inl (at_i, e) ↦ ap (hold_of lk g) e ∙ same ∙ rw at_i at owns
      | inr (ne, e) ↦ ap (hold_of lk g) e ∙ owns
    ]

    -- The thread goes on with what it holds: the state is as it was, or the thread owns it.
    goes-IsLinear :
        (p : Pc X Q R) (c : C) (w' : Threads C X Q R K)
        → IsExclusive lk g w'.lock w'.pcs
        → hold_of lk g p ≡ hold_of lk g (w.pcs i)
        → w'.cell ≡ c
        → w'.pcs ≡ set_at i p w.pcs
        → Replays atomic c0 w'.log ok.base
        → Underway lk g atomic Amid ok.base c p
        → (c ≡ w.cell) ⊎ (hold_of lk g p ≡ owned)
        → IsLinear lk g atomic Amid c0 w'
    goes-IsLinear p c w' ex same ec ep log here (inl quiet) = record {
      exclusive = ex;
      base = ok.base;
      replays = log;
      settled = elim ok.settled [
        | inl e ↦ inl (ec ∙ quiet ∙ e)
        | inr (a, owns) ↦ rw ep (inr (a, owner_at p same a owns))
      ];
      underway = rw (ec, ep) (set_at-Underway ok.base c p here (λ j ne. rw quiet (ok.underway j)));
    }
    goes-IsLinear p c w' ex same ec ep log here (inr owns) = record {
      exclusive = ex;
      base = ok.base;
      replays = log;
      settled = rw ep (inr (i, ap (hold_of lk g) (set_at_self i p w.pcs) ∙ owns));
      underway =
          rw (ec, ep)
            (set_at-Underway ok.base c p here (λ j ne.
              free-Underway ok.base c (w.pcs j) (ok.exclusive.alone i j ne (sym same ∙ owns))));
    }

    -- Nobody owns the state where the thread gets the lock.
    granted-Unowned :
        (b : Bool) (k : K) → lk.acquire b w.lock i ≡ some k → Unowned lk g atomic Amid w.pcs
    granted-Unowned true k e j h = lk.acquire_shared w.lock k i e j (ok.exclusive.holds j ∙ h)
    granted-Unowned false k e j h =
        let none_held = sym (ok.exclusive.holds j) ∙ lk.acquire_alone w.lock k i e j in cc

    enters-IsLinear :
        (x : X) (k : K) (w' : Threads C X Q R K)
        → IsExclusive lk g w'.lock w'.pcs
        → lk.acquire (g.shares x) w.lock i ≡ some k
        → w'.cell ≡ w.cell
        → w'.pcs ≡ set_at i (inside x (g.enter x)) w.pcs
        → w'.log ≡ w.log
        → IsLinear lk g atomic Amid c0 w'
    enters-IsLinear x k w' ex e ec ep el =
        let same = calm (granted-Unowned (g.shares x) k e) in
        record {
          exclusive = ex;
          base = ok.base;
          replays = rw el ok.replays;
          settled = inl (ec ∙ same);
          underway =
              rw (ec, ep)
                (set_at-Underway ok.base w.cell (inside x (g.enter x))
                  (rw same (impl.entered x ok.base)) (λ j ne. ok.underway j));
        }

    shared-Unowned : hold_of lk g (w.pcs i) ≡ shared → Unowned lk g atomic Amid w.pcs
    shared-Unowned mine a h = elim (Bool-cases (a == i)) [
      | inl e ↦ let same : a ≡ i = (==_iff a i).0 e in let h' = rw same at h in cc
      | inr e ↦ let f = ok.exclusive.alone a i (λ q. let hit = (==_iff a i).1 (sym q) in cc) h in cc
    ]

    -- Where the thread is about to unlock, the others have read the state as it is, or have done
    -- nothing.
    others-Underway :
        (x : X) (r : R) (b : Bool)
        → w.pcs i ≡ leaving x r
        → g.shares x ≡ b
        → (j : ℕ) → j ≢ i
        → Underway lk g atomic Amid w.cell w.cell (w.pcs j)
    others-Underway x r true at_i sh j ne =
        subst (λ b. Underway lk g atomic Amid b w.cell (w.pcs j))
          (sym (calm (shared-Unowned (rw (at_i, sh) refl)))) (ok.underway j)
    others-Underway x r false at_i sh j ne =
        free-Underway w.cell w.cell (w.pcs j) (ok.exclusive.alone i j ne (rw (at_i, sh) refl))

    leaves-IsLinear :
        (x : X) (r : R)
        → w.pcs i ≡ leaving x r
        → IsExclusive lk g (unlock lk g i x r w).lock (unlock lk g i x r w).pcs
        → IsLinear lk g atomic Amid c0 (unlock lk g i x r w)
    unfolding unlock
    leaves-IsLinear x r at_i ex = record {
      exclusive = ex;
      base = w.cell;
      replays = (
        ok.base,
        ok.replays,
        subst (Underway lk g atomic Amid ok.base w.cell) at_i (ok.underway i),
      );
      settled = inl refl;
      underway =
          set_at-Underway w.cell w.cell idle tt
            (λ j ne. others-Underway x r (g.shares x) at_i refl j ne);
    }

    tried-IsLinear :
        (fails : Bool) (x : X)
        → w.pcs i ≡ waiting x
        → IsExclusive lk g (try_lock lk g fails i x w).lock (try_lock lk g fails i x w).pcs
        → IsLinear lk g atomic Amid c0 (try_lock lk g fails i x w)
    unfolding try_lock
    tried-IsLinear fails x at_i ex = elim (Bool-cases (fails && g.tolerates x)) [
      | inl no_lock ↦
          rw (no_lock, try_lock)
            (goes-IsLinear idle w.cell _ (rw (no_lock, try_lock) at ex)
              (ap (hold_of lk g) (sym at_i)) refl refl ok.replays tt (inl refl))
      | inr asks ↦ elim (Option-cases (lk.acquire (g.shares x) w.lock i)) [
        | inl e ↦ rw (asks, e, try_lock) ok
        | inr (k, e) ↦
            rw (asks, e, try_lock)
              (enters-IsLinear x k _ (rw (asks, e, try_lock) at ex) e refl refl refl)
      ]
    ]

    quiet_or_owned :
        (x : X) (q : Q) (b : Bool)
        → g.shares x ≡ b
        → w.pcs i ≡ inside x q
        → ((g.access q w.cell).1 ≡ w.cell) ⊎ (hold_for (g.shares x) ≡ owned)
    quiet_or_owned x q true sh at_i = inl (
        impl.only_reads x ok.base q w.cell sh
          (subst (Underway lk g atomic Amid ok.base w.cell) at_i (ok.underway i)))
    quiet_or_owned x q false sh at_i = inr (rw sh refl)

    worked-IsLinear :
        (x : X) (q : Q) (o : Q ⊎ R)
        → (g.access q w.cell).0 ≡ o
        → w.pcs i ≡ inside x q
        → IsExclusive lk g (work lk g i x q w).lock (work lk g i x q w).pcs
        → IsLinear lk g atomic Amid c0 (work lk g i x q w)
    unfolding work
    worked-IsLinear x q (inl q') e at_i ex =
        let here = subst (Underway lk g atomic Amid ok.base w.cell) at_i (ok.underway i) in
        rw (e, work)
          (goes-IsLinear (inside x q') (g.access q w.cell).1 _ (rw (e, work) at ex)
            (ap (hold_of lk g) (sym at_i)) refl refl ok.replays
            (impl.goes_on x ok.base q w.cell q' here e) (quiet_or_owned x q (g.shares x) refl at_i))
    worked-IsLinear x q (inr r) e at_i ex =
        let here = subst (Underway lk g atomic Amid ok.base w.cell) at_i (ok.underway i) in
        rw (e, work)
          (goes-IsLinear (leaving x r) (g.access q w.cell).1 _ (rw (e, work) at ex)
            (ap (hold_of lk g) (sym at_i)) refl refl ok.replays
            (impl.returns x ok.base q w.cell r here e) (quiet_or_owned x q (g.shares x) refl at_i))

    called-IsLinear :
        (xs : List X)
        → w.pcs i ≡ idle
        → IsExclusive lk g (call_next lk g i xs w).lock (call_next lk g i xs w).pcs
        → IsLinear lk g atomic Amid c0 (call_next lk g i xs w)
    unfolding call_next
    called-IsLinear [] at_i ex = ok
    called-IsLinear (x ∷ xs) at_i ex =
        goes-IsLinear (waiting x) w.cell _ ex (ap (hold_of lk g) (sym at_i)) refl refl ok.replays tt
          (inl refl)

    advance-IsLinear : (fails : Bool) → IsLinear lk g atomic Amid c0 (advance lk g fails i w)
    unfolding advance
    advance-IsLinear fails = from (w.pcs i) refl (advance-IsExclusive lk g fails i w ok.exclusive)
      where
        from :
            (p : Pc X Q R)
            → w.pcs i ≡ p
            → IsExclusive lk g (advance lk g fails i w).lock (advance lk g fails i w).pcs
            → IsLinear lk g atomic Amid c0 (advance lk g fails i w)
        from idle e ex = rw (e, advance) (called-IsLinear (w.todo i) e (rw (e, advance) at ex))
        from (waiting x) e ex = rw (e, advance) (tried-IsLinear fails x e (rw (e, advance) at ex))
        from (inside x q) e ex =
            rw (e, advance) (worked-IsLinear x q _ refl e (rw (e, advance) at ex))
        from (leaving x r) e ex = rw (e, advance) (leaves-IsLinear x r e (rw (e, advance) at ex))

  -- The calls stay as if made one after the other, whatever steps the threads take.
  pub interleave-IsLinear :
      Implements g atomic Amid
      → (c0 : C) (schedule : List (Bool × ℕ)) (w : Threads C X Q R K)
      → IsLinear lk g atomic Amid c0 w
      → IsLinear lk g atomic Amid c0 (interleave lk g schedule w)
  unfolding interleave
  interleave-IsLinear impl c0 [] w ok = ok
  interleave-IsLinear impl c0 ((fails, i) ∷ rest) w ok =
      interleave-IsLinear impl c0 rest _ (advance-IsLinear impl c0 w ok i fails)
