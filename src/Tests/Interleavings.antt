-- ===== src/Tests/Interleavings.antt =====
-- Runs of threads that share the identifiers, the handlers and the list of known clients.
use two_socks.Prelude.{
  ℕ, ◌+◌, ◌≡◌, ◌≢◌, refl, sym, ap, inl, inr, Bool, true, false, List, [], ◌∷◌, Option, none, some,
  some_inj, length, Bool-cases, ◌==◌, ==_iff, ==_self, if◌then◌else◌,
}
use two_socks.SockAddr.{SockAddr}
use two_socks.System.{Sys}
use two_socks.Shared.{
  Hold, free, shared, owned, hold_for, Lock, idle, Threads, call_next, try_lock, work, unlock,
  advance, interleave,
}
use two_socks.Shared.Handlers.{
  handlers, guarded_access, next_identifier, set_event_handler, given, IsOrderly,
  interleave-IsOrderly,
}
use two_socks.Shared.Handlers
use two_socks.Shared.Clients.{clients, list_access, look, enrol}
use two_socks.Shared.Clients
use two_socks.Shared.Coherence.{IsCoherent, interleave-IsCoherent, interleave-Ends}
use two_socks.Shared.Progress.{Ends}
use two_socks.Tests.Fixtures.{Script, list_sblist, start, loopback}

-- A lock of readers and writers that keeps their numbers.
data Rwlock : Type 0 where
  read_by : List ℕ → Rwlock
  written_by : ℕ → Rwlock

abbrev reads : ℕ → List ℕ → Hold
reads i [] = free
reads i (j ∷ js) = if i == j then shared else reads i js

abbrev without : ℕ → List ℕ → List ℕ
without i [] = []
without i (j ∷ js) = if j == i then without i js else j ∷ without i js

abbrev rw_held : Rwlock → ℕ → Hold
rw_held (read_by js) i = reads i js
rw_held (written_by j) i = if i == j then owned else free

abbrev rw_acquire : Bool → Rwlock → ℕ → Option Rwlock
rw_acquire true (read_by js) i = some (read_by (i ∷ js))
rw_acquire false (read_by []) i = some (written_by i)
rw_acquire false (read_by (j ∷ js)) i = none
rw_acquire b (written_by j) i = none

abbrev rw_release : Rwlock → ℕ → Rwlock
rw_release (read_by js) i = read_by (without i js)
rw_release (written_by j) i = if j == i then read_by [] else written_by j

==_ne : (i j : ℕ) → i ≢ j → (i == j) ≡ false
==_ne i j ne = elim (Bool-cases (i == j)) [ inl e ↦ absurd (ne ((==_iff i j).0 e)) | inr e ↦ e ]

own : (b : Bool) (k k' : Rwlock) (i : ℕ) → rw_acquire b k i ≡ some k' → rw_held k' i ≡ hold_for b
own true (read_by js) k' i e = rw (← some_inj e, ==_self i) refl
own false (read_by []) k' i e = rw (← some_inj e, ==_self i) refl
own false (read_by (j ∷ js)) k' i e = absurd (cc)
own true (written_by j) k' i e = absurd (cc)
own false (written_by j) k' i e = absurd (cc)

other :
    (b : Bool) (k k' : Rwlock) (i j : ℕ)
    → rw_acquire b k i ≡ some k'
    → j ≢ i
    → rw_held k' j ≡ rw_held k j
other true (read_by js) k' i j e ne = rw (← some_inj e, ==_ne j i ne) refl
other false (read_by []) k' i j e ne = rw (← some_inj e, ==_ne j i ne) refl
other false (read_by (n ∷ js)) k' i j e ne = absurd (cc)
other true (written_by n) k' i j e ne = absurd (cc)
other false (written_by n) k' i j e ne = absurd (cc)

reads-ne-owned : (j : ℕ) (js : List ℕ) → reads j js ≢ owned
reads-ne-owned j [] h = cc
reads-ne-owned j (n ∷ js) h = elim (Bool-cases (j == n)) [
  | inl e ↦ let h' = rw e at h in cc
  | inr e ↦ reads-ne-owned j js (rw e at h)
]

no_writer : (k k' : Rwlock) (i : ℕ) → rw_acquire true k i ≡ some k' → (j : ℕ) → rw_held k j ≢ owned
no_writer (read_by js) k' i e j = reads-ne-owned j js
no_writer (written_by n) k' i e j = absurd (cc)

nobody : (k k' : Rwlock) (i : ℕ) → rw_acquire false k i ≡ some k' → (j : ℕ) → rw_held k j ≡ free
nobody (read_by []) k' i e j = refl
nobody (read_by (n ∷ js)) k' i e j = absurd (cc)
nobody (written_by n) k' i e j = absurd (cc)

reads-without : (i j : ℕ) (js : List ℕ) → j ≢ i → reads j (without i js) ≡ reads j js
reads-without i j [] ne = refl
reads-without i j (n ∷ js) ne = elim (Bool-cases (n == i)) [
  | inl e ↦ let same = (==_iff n i).0 e in rw (e, same, ==_ne j i ne) (reads-without i j js ne)
  | inr e ↦ rw e (ap (λ t. if j == n then shared else t) (reads-without i j js ne))
]

reads-without_self : (i : ℕ) (js : List ℕ) → reads i (without i js) ≡ free
reads-without_self i [] = refl
reads-without_self i (n ∷ js) = elim (Bool-cases (n == i)) [
  | inl e ↦ rw e (reads-without_self i js)
  | inr e ↦
      rw (e, ==_ne i n (λ q. let hit = (==_iff n i).1 (sym q) in cc)) (reads-without_self i js)
]

given_back : (k : Rwlock) (i : ℕ) → rw_held (rw_release k i) i ≡ free
given_back (read_by js) i = reads-without_self i js
given_back (written_by n) i = elim (Bool-cases (n == i)) [
  | inl e ↦ rw e refl
  | inr e ↦ rw (e, ==_ne i n (λ q. let hit = (==_iff n i).1 (sym q) in cc)) refl
]

untouched : (k : Rwlock) (i j : ℕ) → j ≢ i → rw_held (rw_release k i) j ≡ rw_held k j
untouched (read_by js) i j ne = reads-without i j js ne
untouched (written_by n) i j ne = elim (Bool-cases (n == i)) [
  | inl e ↦ rw (e, (==_iff n i).0 e, ==_ne j i ne) refl
  | inr e ↦ rw e refl
]

abbrev rwlock : Lock Rwlock
rwlock = record {
  held = rw_held;
  acquire = rw_acquire;
  release = rw_release;
  acquire_own = own;
  acquire_other = other;
  acquire_shared = no_writer;
  acquire_alone = nobody;
  release_own = given_back;
  release_other = untouched;
}

-- Every thread takes two identifiers, and the first sets the handler in between.
abbrev connections : Threads (Sys Script) Handlers.Call Handlers.Place Handlers.Reply Rwlock
connections = record {
  cell = start [];
  lock = read_by [];
  pcs = λ i. idle;
  todo = λ i.
      if i == 0
      then next_identifier ∷ set_event_handler false ∷ next_identifier ∷ []
      else next_identifier ∷ next_identifier ∷ [];
  log = [];
}

-- The first thread reads an identifier, and the second asks in vain for the lock; then the second
-- takes an identifier.
abbrev turns_of_two : List (Bool × ℕ)
turns_of_two =
    (false, 0)
    ∷ (false, 0)
    ∷ (false, 0)
    ∷ (false, 1)
    ∷ (false, 1)
    ∷ (false, 0)
    ∷ (false, 0)
    ∷ (false, 1)
    ∷ (false, 1)
    ∷ (false, 1)
    ∷ (false, 1)
    ∷ (false, 0)
    ∷ []

given_two :
    given (interleave rwlock (handlers {W = Script}) turns_of_two connections).log ≡ 2 ∷ 1 ∷ []
unfolding interleave advance call_next try_lock work unlock guarded_access
given_two = refl

interleave-IsOrderly_example :
    IsOrderly rwlock connections (interleave rwlock handlers turns_of_two connections)
interleave-IsOrderly_example =
    interleave-IsOrderly rwlock turns_of_two connections
      (record { unlocked = λ i. refl; at_rest = λ i. refl; no_log = refl })

-- Two threads of one client log in, and a third looks for it.
abbrev logins : Threads (List SockAddr) Clients.Call Clients.Place Clients.Reply Rwlock
logins = record {
  cell = [];
  lock = read_by [];
  pcs = λ i. idle;
  todo = λ i. if i == 2 then look loopback ∷ [] else enrol loopback ∷ [];
  log = [];
}

-- The second thread is inside when the others want the lock.
abbrev second_first : List (Bool × ℕ)
second_first =
    (false, 1) ∷ (false, 1) ∷ (false, 0) ∷ (false, 0) ∷ (false, 2) ∷ (true, 2) ∷ (false, 1) ∷ []

interleave-IsCoherent_example :
    IsCoherent
      (list_sblist SockAddr)
      rwlock
      logins
      (interleave rwlock (clients (list_sblist SockAddr)) second_first logins)
interleave-IsCoherent_example =
    interleave-IsCoherent (list_sblist SockAddr) rwlock second_first logins
      (record { unlocked = λ i. refl; at_rest = λ i. refl; no_log = refl }) tt

second-ne-free :
    rw_held (interleave rwlock (clients (list_sblist SockAddr)) second_first logins).lock 1 ≢ free
unfolding interleave advance call_next try_lock work unlock list_access
second-ne-free h = cc

interleave-Ends_example :
    let w = interleave rwlock (clients (list_sblist SockAddr)) second_first logins in
    (x : Clients.Call) × Ends rwlock (clients (list_sblist SockAddr)) 1 (length w.cell + 3) x w
interleave-Ends_example =
    interleave-Ends (list_sblist SockAddr) rwlock second_first logins 1
      (record { unlocked = λ i. refl; at_rest = λ i. refl; no_log = refl }) second-ne-free
