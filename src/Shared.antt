-- ===== src/Shared.antt =====
-- TwoSocks/microsocks/sockssrv.c: the threads between the calls of `pthread_mutex_lock`,
-- `pthread_rwlock_rdlock` and `pthread_rwlock_wrlock` and the unlocking, an access at a time.
pub mod Exclusive
pub mod Linear
pub mod Steps
pub mod Programs
pub mod Progress
pub mod Handlers
pub mod Clients
pub mod Coherence
use two_socks.Prelude.{
  ℕ, ◌≡◌, ◌≢◌, Bool, true, false, ◌&&◌, List, [], ◌∷◌, Option, none, some, ◌⊎◌, inl, inr, ◌==◌,
  if◌then◌else◌,
}

-- What a thread holds of a lock.
pub data Hold : Type 0 where
  free shared owned : Hold

abbrev pub hold_for : Bool → Hold
hold_for true = shared
hold_for false = owned

-- A lock by its documented behaviour. `held k i` is what the thread `i` holds of it; `acquire s k i`
-- is `none` while the thread waits, and shares the lock if `s` is true, as `rdlock` does.
pub record Lock (K : Type 0) : Type 0 where
  pub held : K → ℕ → Hold
  pub acquire : Bool → K → ℕ → Option K
  pub release : K → ℕ → K
  pub acquire_own : (b : Bool) (k k' : K) (i : ℕ) → acquire b k i ≡ some k' → held k' i ≡ hold_for b
  pub acquire_other :
      (b : Bool) (k k' : K) (i j : ℕ) → acquire b k i ≡ some k' → j ≢ i → held k' j ≡ held k j
  pub acquire_shared : (k k' : K) (i : ℕ) → acquire true k i ≡ some k' → (j : ℕ) → held k j ≢ owned
  pub acquire_alone : (k k' : K) (i : ℕ) → acquire false k i ≡ some k' → (j : ℕ) → held k j ≡ free
  pub release_own : (k : K) (i : ℕ) → held (release k i) i ≡ free
  pub release_other : (k : K) (i j : ℕ) → j ≢ i → held (release k i) j ≡ held k j

-- The functions that share what a lock protects: a call `X`, which may share the lock, and gives up
-- where it `tolerates` that the lock cannot be had; the place `Q` of a thread in its body; and one
-- access to the protected `C`, after which the body goes on or has its result.
pub record Guarded (C X Q R : Type 0) : Type 0 where
  pub shares : X → Bool
  pub tolerates : X → Bool
  pub enter : X → Q
  pub access : Q → C → (Q ⊎ R) × C

pub data Pc (X Q R : Type 0) : Type 0 where
  idle : Pc X Q R
  waiting : X → Pc X Q R
  inside : X → Q → Pc X Q R
  leaving : X → R → Pc X Q R

-- What a thread did: a call and its result, or a call that did not get the lock.
pub data Entry (X R : Type 0) : Type 0 where
  performed : ℕ → X → R → Entry X R
  refused : ℕ → X → Entry X R

-- All threads: the protected state, its lock, where each thread stands and what it will call, and
-- what was done, newest first.
pub record Threads (C X Q R K : Type 0) : Type 0 where
  pub cell : C
  pub lock : K
  pub pcs : ℕ → Pc X Q R
  pub todo : ℕ → List X
  pub log : List (Entry X R)

abbrev pub set_at {ℓ} : {A : Type ℓ} → ℕ → A → (ℕ → A) → ℕ → A
set_at i a f j = if j == i then a else f j

module _ {C X Q R K : Type 0} (lk : Lock K) (g : Guarded C X Q R) where
  -- The thread `i` is at `p`.
  abbrev pub at_pc : ℕ → Pc X Q R → Threads C X Q R K → Threads C X Q R K
  at_pc i p w = record w { pcs = set_at i p w.pcs }

  unfoldable pub call_next : ℕ → List X → Threads C X Q R K → Threads C X Q R K
  call_next i [] w = w
  call_next i (x ∷ xs) w = at_pc i (waiting x) (record w { todo = set_at i xs w.todo })

  unfoldable pub try_lock : Bool → ℕ → X → Threads C X Q R K → Threads C X Q R K
  try_lock fails i x w =
      if fails && g.tolerates x
      then at_pc i idle (record w { log = refused i x ∷ w.log })
      else elim (lk.acquire (g.shares x) w.lock i) [
        | none ↦ w
        | some k ↦ at_pc i (inside x (g.enter x)) (record w { lock = k })
      ]

  unfoldable pub work : ℕ → X → Q → Threads C X Q R K → Threads C X Q R K
  work i x q w =
      let (o, c) = g.access q w.cell in
      elim o [
        | inl q' ↦ at_pc i (inside x q') (record w { cell = c })
        | inr r ↦ at_pc i (leaving x r) (record w { cell = c })
      ]

  unfoldable pub unlock : ℕ → X → R → Threads C X Q R K → Threads C X Q R K
  unlock i x r w =
      at_pc i idle (record w { lock = lk.release w.lock i; log = performed i x r ∷ w.log })

  abbrev advance_from : Bool → ℕ → Pc X Q R → Threads C X Q R K → Threads C X Q R K
  advance_from fails i idle w = call_next i (w.todo i) w
  advance_from fails i (waiting x) w = try_lock fails i x w
  advance_from fails i (inside x q) w = work i x q w
  advance_from fails i (leaving x r) w = unlock i x r w

  -- One step of the thread `i`; `fails` says whether a call for the lock would fail.
  unfoldable pub advance : Bool → ℕ → Threads C X Q R K → Threads C X Q R K
  advance fails i w = advance_from fails i (w.pcs i) w

  -- The threads take their steps in any order.
  unfoldable pub interleave : List (Bool × ℕ) → Threads C X Q R K → Threads C X Q R K
  interleave [] w = w
  interleave ((fails, i) ∷ rest) w = interleave rest (advance fails i w)
