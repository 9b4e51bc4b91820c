-- ===== src/Shared/Exclusive.antt =====
-- TwoSocks/microsocks/sockssrv.c: whoever owns `connection_event_lock` or `auth_ips_lock` is alone
-- with what it protects.
use two_socks.Prelude.{
  ℕ, ◌≡◌, ◌≢◌, refl, sym, ◌∙◌, ap, ◌⊎◌, inl, inr, Bool, true, false, ◌&&◌, List, [], ◌∷◌, some,
  Bool-cases, Option-cases, ◌==◌, ==_iff,
}
use two_socks.Shared.{
  Hold, free, owned, hold_for, Lock, Guarded, Pc, idle, waiting, inside, leaving, Threads, set_at,
  call_next, try_lock, work, unlock, advance, interleave,
}

pub set_at-cases :
    {A : Type 0} (i : ℕ) (a : A) (f : ℕ → A) (j : ℕ)
    → ((j ≡ i) × (set_at i a f j ≡ a)) ⊎ ((j ≢ i) × (set_at i a f j ≡ f j))
set_at-cases i a f j = elim (Bool-cases (j == i)) [
  | inl e ↦ inl ((==_iff j i).0 e, rw e refl)
  | inr e ↦ inr (λ same. let hit = (==_iff j i).1 same in cc, rw e refl)
]

pub set_at_self : {A : Type 0} (i : ℕ) (a : A) (f : ℕ → A) → set_at i a f i ≡ a
set_at_self i a f = elim (set_at-cases i a f i) [ inl (_, e) ↦ e | inr (ne, _) ↦ absurd (ne refl) ]

module _ {C X Q R K : Type 0} (lk : Lock K) (g : Guarded C X Q R) where
  abbrev pub hold_of : Pc X Q R → Hold
  hold_of idle = free
  hold_of (waiting x) = free
  hold_of (inside x q) = hold_for (g.shares x)
  hold_of (leaving x r) = hold_for (g.shares x)

  -- Each thread holds what it must where it stands, and an owner is the only holder.
  pub record IsExclusive (k : K) (pcs : ℕ → Pc X Q R) : Type 0 where
    pub holds : (i : ℕ) → lk.held k i ≡ hold_of (pcs i)
    pub alone : (i j : ℕ) → j ≢ i → hold_of (pcs i) ≡ owned → hold_of (pcs j) ≡ free

  -- The thread `i` comes to `p`, and the lock is `k'`.
  renew-IsExclusive :
      (i : ℕ) (p : Pc X Q R) (k k' : K) (pcs : ℕ → Pc X Q R)
      → IsExclusive k pcs
      → lk.held k' i ≡ hold_of p
      → ((j : ℕ) → j ≢ i → lk.held k' j ≡ lk.held k j)
      → (hold_of p ≡ owned → (j : ℕ) → j ≢ i → hold_of (pcs j) ≡ free)
      → ((j : ℕ) → j ≢ i → hold_of (pcs j) ≡ owned → hold_of p ≡ free)
      → IsExclusive k' (set_at i p pcs)
  renew-IsExclusive i p k k' pcs ok own other owning excluded = record {
    holds = λ j. elim (set_at-cases i p pcs j) [
      | inl (same, e) ↦ rw (e, same) own
      | inr (ne, e) ↦ rw e (other j ne ∙ ok.holds j)
    ];
    alone = λ a b ne. elim (set_at-cases i p pcs a) [
      | inl (same, e) ↦ elim (set_at-cases i p pcs b) [
        | inl (same', _) ↦ absurd (ne (same' ∙ sym same))
        | inr (ne', e') ↦ rw (e, e') (λ h. owning h b ne')
      ]
      | inr (ne', e) ↦ elim (set_at-cases i p pcs b) [
        | inl (_, e') ↦ rw (e, e') (λ h. excluded a ne' h)
        | inr (_, e') ↦ rw (e, e') (λ h. ok.alone a b ne h)
      ]
    ];
  }

  -- The thread `i` goes on without touching the lock.
  keep-IsExclusive :
      (i : ℕ) (p : Pc X Q R) (k : K) (pcs : ℕ → Pc X Q R)
      → IsExclusive k pcs
      → hold_of p ≡ hold_of (pcs i)
      → IsExclusive k (set_at i p pcs)
  keep-IsExclusive i p k pcs ok same =
      renew-IsExclusive i p k k pcs ok (ok.holds i ∙ sym same) (λ j ne. refl)
        (λ h j ne. ok.alone i j ne (sym same ∙ h))
        (λ j ne h. same ∙ ok.alone j i (λ e. ne (sym e)) h)

  abbrev IsSafe : Threads C X Q R K → Type 0
  IsSafe w = IsExclusive w.lock w.pcs

  granted-IsExclusive :
      (i : ℕ) (x : X) (k k' : K) (pcs : ℕ → Pc X Q R)
      → IsExclusive k pcs
      → (b : Bool) → g.shares x ≡ b
      → lk.acquire b k i ≡ some k'
      → IsExclusive k' (set_at i (inside x (g.enter x)) pcs)
  granted-IsExclusive i x k k' pcs ok true sh e =
      renew-IsExclusive i (inside x (g.enter x)) k k' pcs ok (rw sh (lk.acquire_own true k k' i e))
        (λ j ne. lk.acquire_other true k k' i j e ne) (rw sh (λ h. absurd (cc)))
        (λ j ne h. absurd (lk.acquire_shared k k' i e j (ok.holds j ∙ h)))
  granted-IsExclusive i x k k' pcs ok false sh e =
      renew-IsExclusive i (inside x (g.enter x)) k k' pcs ok (rw sh (lk.acquire_own false k k' i e))
        (λ j ne. lk.acquire_other false k k' i j e ne)
        (λ h j ne. sym (ok.holds j) ∙ lk.acquire_alone k k' i e j)
        (λ j ne h. let none_held = sym (ok.holds j) ∙ lk.acquire_alone k k' i e j in absurd (cc))

  pub advance-IsExclusive :
      (fails : Bool) (i : ℕ) (w : Threads C X Q R K) → IsSafe w → IsSafe (advance lk g fails i w)
  unfolding advance call_next try_lock work unlock
  advance-IsExclusive fails i w ok = from (w.pcs i) refl
    where
      called : w.pcs i ≡ idle → (xs : List X) → IsSafe (call_next lk g i xs w)
      called at_i [] = ok
      called at_i (x ∷ xs) = keep-IsExclusive i (waiting x) w.lock w.pcs ok (ap hold_of (sym at_i))

      tried : (x : X) → w.pcs i ≡ waiting x → IsSafe (try_lock lk g fails i x w)
      tried x at_i = elim (Bool-cases (fails && g.tolerates x)) [
        | inl no_lock ↦
            rw (no_lock, try_lock) (keep-IsExclusive i idle w.lock w.pcs ok (ap hold_of (sym at_i)))
        | inr asks ↦ elim (Option-cases (lk.acquire (g.shares x) w.lock i)) [
          | inl e ↦ rw (asks, e, try_lock) ok
          | inr (k, e) ↦
              rw (asks, e, try_lock) (granted-IsExclusive i x w.lock k w.pcs ok (g.shares x) refl e)
        ]
      ]

      worked :
          (x : X) (q : Q) (o : Q ⊎ R)
          → w.pcs i ≡ inside x q
          → (g.access q w.cell).0 ≡ o
          → IsSafe (work lk g i x q w)
      worked x q (inl q') at_i e =
          rw (e, work) (keep-IsExclusive i (inside x q') w.lock w.pcs ok (ap hold_of (sym at_i)))
      worked x q (inr r) at_i e =
          rw (e, work) (keep-IsExclusive i (leaving x r) w.lock w.pcs ok (ap hold_of (sym at_i)))

      unlocked : (x : X) (r : R) → IsSafe (unlock lk g i x r w)
      unlocked x r =
          renew-IsExclusive i idle w.lock (lk.release w.lock i) w.pcs ok (lk.release_own w.lock i)
            (λ j ne. lk.release_other w.lock i j ne) (λ h. absurd (cc)) (λ j ne h. refl)

      from : (p : Pc X Q R) → w.pcs i ≡ p → IsSafe (advance lk g fails i w)
      from idle e = rw (e, advance) (called e (w.todo i))
      from (waiting x) e = rw (e, advance) (tried x e)
      from (inside x q) e = rw (e, advance) (worked x q _ e refl)
      from (leaving x r) e = rw (e, advance) (unlocked x r)

  -- An owner stays the only holder, whatever steps the threads take.
  pub interleave-IsExclusive :
      (schedule : List (Bool × ℕ)) (w : Threads C X Q R K)
      → IsExclusive w.lock w.pcs
      → let w' = interleave lk g schedule w in IsExclusive w'.lock w'.pcs
  unfolding interleave
  interleave-IsExclusive [] w ok = ok
  interleave-IsExclusive ((fails, i) ∷ rest) w ok =
      interleave-IsExclusive rest _ (advance-IsExclusive fails i w ok)
