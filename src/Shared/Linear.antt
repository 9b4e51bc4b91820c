-- ===== src/Shared/Linear.antt =====
-- TwoSocks/microsocks/sockssrv.c: calls under `connection_event_lock` and `auth_ips_lock` behave as
-- if they were made one after the other.
use two_socks.Prelude.{ℕ, ◌≡◌, ◌≢◌, refl, ◌⊎◌, inl, inr, true, List, [], ◌∷◌}
use two_socks.Shared.{
  free, owned, Lock, Guarded, Pc, idle, waiting, inside, leaving, Entry, performed, refused,
  Threads,
}
use two_socks.Shared.Exclusive.{hold_of, IsExclusive}

-- What a call does at once, and how far a body has come: `Amid x c0 q c` if the call `x` found the
-- protected state as `c0`, stands at `q` and has made it `c`.
pub record Implements {C X Q R : Type 0} (g : Guarded C X Q R) (atomic : X → C → R × C)
    (Amid : X → C → Q → C → Type 0) : Type 0 where
  pub entered : (x : X) (c : C) → Amid x c (g.enter x) c
  pub goes_on :
      (x : X) (c0 : C) (q : Q) (c : C) (q' : Q)
      → Amid x c0 q c
      → (g.access q c).0 ≡ inl q'
      → Amid x c0 q' (g.access q c).1
  pub returns :
      (x : X) (c0 : C) (q : Q) (c : C) (r : R)
      → Amid x c0 q c
      → (g.access q c).0 ≡ inr r
      → atomic x c0 ≡ (r, (g.access q c).1)
  pub only_reads :
      (x : X) (c0 : C) (q : Q) (c : C) → g.shares x ≡ true → Amid x c0 q c → (g.access q c).1 ≡ c

-- The log, made one call after the other, leads from `c0` to `c`.
abbrev pub Replays : {C X R : Type 0} → (X → C → R × C) → C → List (Entry X R) → C → Type 0
Replays atomic c0 [] c = c ≡ c0
Replays {C} atomic c0 (performed i x r ∷ log) c =
    (c1 : C) × Replays atomic c0 log c1 × (atomic x c1 ≡ (r, c))
Replays atomic c0 (refused i x ∷ log) c = Replays atomic c0 log c

module _ {C X Q R K : Type 0} (lk : Lock K) (g : Guarded C X Q R) (atomic : X → C → R × C)
    (Amid : X → C → Q → C → Type 0) where
  -- What a thread that stands somewhere has done, since the calls of the log made the state `base`.
  abbrev pub Underway : C → C → Pc X Q R → Type 0
  Underway base cell idle = Unit
  Underway base cell (waiting x) = Unit
  Underway base cell (inside x q) = Amid x base q cell
  Underway base cell (leaving x r) = atomic x base ≡ (r, cell)

  abbrev pub Unowned : (ℕ → Pc X Q R) → Type 0
  Unowned pcs = (i : ℕ) → hold_of lk g (pcs i) ≢ owned

  pub record IsLinear (c0 : C) (w : Threads C X Q R K) : Type 0 where
    pub exclusive : IsExclusive lk g w.lock w.pcs
    pub base : C
    pub replays : Replays atomic c0 w.log base
    -- Only an owner has changed the state.
    pub settled : (w.cell ≡ base) ⊎ ((i : ℕ) × (hold_of lk g (w.pcs i) ≡ owned))
    pub underway : (i : ℕ) → Underway base w.cell (w.pcs i)

-- All threads are before their first calls, and the lock is free.
pub record IsStart {C X Q R K : Type 0} (lk : Lock K) (w : Threads C X Q R K) : Type 0 where
  pub unlocked : (i : ℕ) → lk.held w.lock i ≡ free
  pub at_rest : (i : ℕ) → w.pcs i ≡ idle
  pub no_log : w.log ≡ []

pub start-IsLinear :
    {C X Q R K : Type 0} (lk : Lock K) (g : Guarded C X Q R) (atomic : X → C → R × C)
    (Amid : X → C → Q → C → Type 0) (w : Threads C X Q R K)
    → IsStart lk w
    → IsLinear lk g atomic Amid w.cell w
start-IsLinear lk g atomic Amid w st = record {
  exclusive = record {
    holds = λ i. rw (st.at_rest i) (st.unlocked i);
    alone = λ i j ne h. rw (st.at_rest j) refl;
  };
  base = w.cell;
  replays = rw st.no_log refl;
  settled = inl refl;
  underway = λ i. rw (st.at_rest i) tt;
}
