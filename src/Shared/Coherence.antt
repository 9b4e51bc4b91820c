-- ===== src/Shared/Coherence.antt =====
-- TwoSocks/microsocks/sockssrv.c: whatever the order of the threads, the addresses that have
-- authenticated are looked up and added as if by one thread after the other.
use two_socks.Prelude.{
  ℕ, ◌+◌, ◌-◌, ◌≤◌, ◌<◌, ◌≡◌, ◌≢◌, refl, sym, ◌∙◌, ap, ◌⊎◌, inl, inr, Bool, false, List, [], ◌∷◌,
  ◌++◌, append-nil, append_assoc, arith, ltb, Bool-cases, Option-cases,
}
use mathlib.Core.Path.{subst}
use two_socks.SockAddr.{SockAddr}
use two_socks.Sblist.{Sblist}
use two_socks.Whitelist.{
  matches_entry, is_in_authed_list, add_auth_ip, remember, is_known, is_in_authed_list_lem,
}
use two_socks.Shared.{
  free, owned, Lock, Pc, idle, waiting, inside, leaving, Entry, performed, refused, Threads,
  interleave,
}
use two_socks.Shared.Exclusive.{hold_of}
use two_socks.Shared.Steps.{interleave-IsLinear}
use two_socks.Shared.Linear.{Underway, Replays, IsStart, start-IsLinear}
use two_socks.Shared.Programs.{programme, interleave-programme}
use two_socks.Shared.Clients.{
  Call, look, enrol, Place, looking, adding, Reply, clients, at_once, Amid, clients-Implements,
  list_access, found, missed, address,
}
use two_socks.Shared.Progress.{Shrinks, Ends, inside-Ends, leaving-Ends, longer-Ends}

module _ {L : Type 0} (lib : Sblist SockAddr L) where
  -- No entry has the address of an earlier one; `seen` are the ones before.
  abbrev pub NoneTwice : List SockAddr → List SockAddr → Type 0
  NoneTwice seen [] = Unit
  NoneTwice seen (a ∷ rest) = (is_known lib a seen ≡ false) × NoneTwice (seen ++ a ∷ []) rest

  NoneTwice-append :
      (seen xs : List SockAddr) (a : SockAddr)
      → NoneTwice seen xs
      → is_known lib a (seen ++ xs) ≡ false
      → NoneTwice seen (xs ++ a ∷ [])
  NoneTwice-append seen [] a h new = (rw append-nil at new, tt)
  NoneTwice-append seen (x ∷ xs) a (fresh, h) new =
      (fresh, NoneTwice-append (seen ++ x ∷ []) xs a h (rw append_assoc new))

  add-NoneTwice :
      (l : L) (a : SockAddr)
      → NoneTwice [] (lib.items l)
      → is_known lib a (lib.items l) ≡ false
      → NoneTwice [] (lib.items (add_auth_ip lib l a))
  unfolding add_auth_ip
  add-NoneTwice l a h new = elim (Option-cases (lib.add l a)) [
    | inl full ↦ rw (full, add_auth_ip) h
    | inr (l', e) ↦
        rw (e, add_auth_ip, lib.items-add l l' a e) (NoneTwice-append [] (lib.items l) a h new)
  ]

  remember-NoneTwice :
      (l : L) (a : SockAddr)
      → NoneTwice [] (lib.items l)
      → NoneTwice [] (lib.items (remember lib l a))
  unfolding remember
  remember-NoneTwice l a h = elim (Bool-cases (is_in_authed_list lib l a)) [
    | inl known ↦ rw (known, remember) h
    | inr new ↦ rw (new, remember) (add-NoneTwice l a h (sym (is_in_authed_list_lem lib l a) ∙ new))
  ]

  at_once-NoneTwice :
      (x : Call) (l : L) (r : Reply) (l' : L)
      → NoneTwice [] (lib.items l)
      → at_once lib x l ≡ (r, l')
      → NoneTwice [] (lib.items l')
  at_once-NoneTwice (look a) l r l' h e =
      subst (λ z. NoneTwice [] (lib.items z)) (ap (λ p. p.1) e) h
  at_once-NoneTwice (enrol a) l r l' h e =
      subst (λ z. NoneTwice [] (lib.items z)) (ap (λ p. p.1) e) (remember-NoneTwice l a h)

  Replays-NoneTwice :
      (l0 : L) (log : List (Entry Call Reply)) (l : L)
      → Replays (at_once lib) l0 log l
      → NoneTwice [] (lib.items l0)
      → NoneTwice [] (lib.items l)
  Replays-NoneTwice l0 [] l e h = rw e h
  Replays-NoneTwice l0 (performed i x r ∷ log) l (l1, before, e) h =
      at_once-NoneTwice x l1 r l (Replays-NoneTwice l0 log l1 before h) e
  Replays-NoneTwice l0 (refused i x ∷ log) l e h = Replays-NoneTwice l0 log l e h

  module _ {K : Type 0} (lk : Lock K) where
    -- (Amid lib) a call, or behind its body, the list is as good as it was before.
    owned-NoneTwice :
        (base cell : L) (p : Pc Call Place Reply)
        → NoneTwice [] (lib.items base)
        → hold_of lk (clients lib) p ≡ owned
        → Underway lk (clients lib) (at_once lib) (Amid lib) base cell p
        → NoneTwice [] (lib.items cell)
    owned-NoneTwice base cell idle h owns u = absurd (cc)
    owned-NoneTwice base cell (waiting x) h owns u = absurd (cc)
    owned-NoneTwice base cell (inside x (looking y i)) h owns (_, same, _) = rw same h
    owned-NoneTwice base cell (inside x (adding a)) h owns (_, same, _) = rw same h
    owned-NoneTwice base cell (leaving x r) h owns u = at_once-NoneTwice x base r cell h u

    -- What holds after any steps of threads that stood at rest in `w`.
    pub record IsCoherent (w w' : Threads L Call Place Reply K) : Type 0 where
      pub alone :
          (i j : ℕ)
          → j ≢ i
          → hold_of lk (clients lib) (w'.pcs i) ≡ owned
          → hold_of lk (clients lib) (w'.pcs j) ≡ free
      pub kept : (i : ℕ) → programme lk (clients lib) i w' ≡ w.todo i
      pub last : L
      pub one_by_one : Replays (at_once lib) w.cell w'.log last
      pub current : (w'.cell ≡ last) ⊎ ((i : ℕ) × (hold_of lk (clients lib) (w'.pcs i) ≡ owned))
      pub none_twice : NoneTwice [] (lib.items w'.cell)

    -- If the threads start at rest with the lock free and no entry of the list has the address of
    -- an earlier one, then after any steps in any order, with any failures of the lock: a thread
    -- that owns the lock is the only holder; what a thread has called, calls and will call is its
    -- list of calls, in order; the calls that got the lock have the results of `is_in_authed_list`
    -- and `remember` called one after the other; the list is the one that these lead to, unless a
    -- thread owns the lock; and no entry of the list has the address of an earlier one.
    pub interleave-IsCoherent :
        (schedule : List (Bool × ℕ)) (w : Threads L Call Place Reply K)
        → IsStart lk w
        → NoneTwice [] (lib.items w.cell)
        → IsCoherent w (interleave lk (clients lib) schedule w)
    interleave-IsCoherent schedule w st once =
        let ok =
          interleave-IsLinear lk (clients lib) (at_once lib) (Amid lib) (clients-Implements lib)
            w.cell schedule w (start-IsLinear lk (clients lib) (at_once lib) (Amid lib) w st) in
        let log = (interleave lk (clients lib) schedule w).log in
        let good = Replays-NoneTwice w.cell log ok.base ok.replays once in
        record {
          alone = ok.exclusive.alone;
          kept = λ i.
              interleave-programme lk (clients lib) schedule w i
              ∙ rw (st.no_log, st.at_rest i) refl;
          last = ok.base;
          one_by_one = ok.replays;
          current = ok.settled;
          none_twice = elim ok.settled [
            | inl e ↦ rw e good
            | inr (i, owns) ↦ owned-NoneTwice ok.base _ _ good owns (ok.underway i)
          ];
        }

    -- The passes and the call that are left.
    abbrev left : Place → L → ℕ
    left (looking x i) l = (lib.get_size l - i) + 1
    left (adding a) l = 0

    list_access-Shrinks : Shrinks lk (clients lib) left
    unfolding list_access
    list_access-Shrinks (adding a) l q' e = absurd (cc)
    list_access-Shrinks (looking x i) l q' e = elim (Bool-cases (ltb i (lib.get_size l))) [
      | inl more ↦ elim (Bool-cases (matches_entry lib (address lib x) (lib.get l i))) [
        | inl hit ↦ absurd (found-ne x (rw (more, hit, list_access) at e))
        | inr miss ↦
            let g : ◌≡◌ {A = Place ⊎ Reply} (inl (looking x (i + 1))) (inl q') =
              rw (more, miss, list_access) at e in
            let same : looking x (i + 1) ≡ q' = cc in
            rw (more, miss, list_access, ← same) (ground (arith, more))
      ]
      | inr end ↦ rw (end, list_access) (last x (rw (end, list_access) at e))
    ]
      where
        found-ne : (y : Call) → found lib y ≡ inl q' → ⊥
        found-ne (look a) k = cc
        found-ne (enrol a) k = cc

        last : (y : Call) → missed lib y ≡ inl q' → left q' l < left (looking x i) l
        last (look a) k = absurd (cc)
        last (enrol a) k = let same : adding a ≡ q' = cc in rw (← same) (omega arith)

    left_bound : (q : Place) (l : L) → left q l ≤ lib.get_size l + 1
    left_bound (looking x i) l = omega arith
    left_bound (adding a) l = omega arith

    standing-Ends :
        (w : Threads L Call Place Reply K) (i : ℕ) (p : Pc Call Place Reply)
        → w.pcs i ≡ p
        → hold_of lk (clients lib) p ≢ free
        → (x : Call) × Ends lk (clients lib) i (lib.get_size w.cell + 3) x w
    standing-Ends w i idle e h = absurd (h refl)
    standing-Ends w i (waiting x) e h = absurd (h refl)
    standing-Ends w i (inside x q) e h = (
      x,
      longer-Ends lk (clients lib) i (lib.get_size w.cell + 1 + 2) _ x w (omega arith) (
          inside-Ends lk (clients lib) i left list_access-Shrinks (lib.get_size w.cell + 1) x q w
            (left_bound q w.cell) e),
    )
    standing-Ends w i (leaving x r) e h = (
      x,
      longer-Ends lk (clients lib) i 1 _ x w (omega arith)
          (leaving-Ends lk (clients lib) i x r w e),
    )

    -- In whatever state threads that started at rest have come to, a thread that holds the lock of
    -- the list makes its call and holds nothing after at most three steps of its own more than the
    -- list has entries.
    pub interleave-Ends :
        (schedule : List (Bool × ℕ)) (w : Threads L Call Place Reply K) (i : ℕ)
        → IsStart lk w
        → lk.held (interleave lk (clients lib) schedule w).lock i ≢ free
        → let w' = interleave lk (clients lib) schedule w in
          (x : Call) × Ends lk (clients lib) i (lib.get_size w'.cell + 3) x w'
    interleave-Ends schedule w i st holds =
        let ok =
          interleave-IsLinear lk (clients lib) (at_once lib) (Amid lib) (clients-Implements lib)
            w.cell schedule w (start-IsLinear lk (clients lib) (at_once lib) (Amid lib) w st) in
        standing-Ends _ i _ refl (λ e. holds (ok.exclusive.holds i ∙ e))
