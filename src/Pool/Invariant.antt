-- ===== src/Pool/Invariant.antt =====
-- What the loop that accepts clients keeps of memory, threads and sockets.
use two_socks.Prelude.{
  ℕ, zero, suc, ◌+◌, ◌-◌, ◌≡◌, refl, ap, ◌∙◌, List, [], ◌∷◌, ◌++◌, some, inl, inr, arith, length,
  count, count-append, append-nil, Bool-cases, Option-cases, length-append, ◌==◌, if◌then◌else◌,
}
use two_socks.Os.{Os, value, Answer-cases}
use two_socks.SockAddr.{SockAddr}
use two_socks.Sblist.{Sblist}
use two_socks.System.{Sys, Effect, moved, note, opened}
use two_socks.System.Trace.{opens, closes}
use two_socks.Server.{Client, server_waitclient}
use two_socks.Pool.{
  ThreadOs, Deed, allocated, freed, started, joined, Pool, collect, launch, enlist, await_client,
  accept_round, accept_rounds,
}
use two_socks.Pool.Collecting.{erase-behind, reaped, sweep, collect-IsSwept}

-- How often a `struct thread` was allocated and not freed, and was started and not joined: the
-- calls of each.
abbrev pub allocations : ℕ → List Deed → ℕ
allocations t [] = 0
allocations t (allocated t' ∷ ds) = allocations t ds + (if t' == t then 1 else 0)
allocations t (_ ∷ ds) = allocations t ds

abbrev pub releases : ℕ → List Deed → ℕ
releases t [] = 0
releases t (freed t' ∷ ds) = releases t ds + (if t' == t then 1 else 0)
releases t (_ ∷ ds) = releases t ds

abbrev pub starts : ℕ → List Deed → ℕ
starts t [] = 0
starts t (started t' c ∷ ds) = starts t ds + (if t' == t then 1 else 0)
starts t (_ ∷ ds) = starts t ds

abbrev pub joins : ℕ → List Deed → ℕ
joins t [] = 0
joins t (joined t' ∷ ds) = joins t ds + (if t' == t then 1 else 0)
joins t (_ ∷ ds) = joins t ds

-- How often a socket was given to a thread.
abbrev pub handed : ℕ → List Deed → ℕ
handed fd [] = 0
handed fd (started t c ∷ ds) = handed fd ds + (if c.fd == fd then 1 else 0)
handed fd (_ ∷ ds) = handed fd ds

-- Which counts `ds` and the list `ts` have, and the trace since `t0`, where `own` are the allocated
-- threads that are not on the list, and `open` are the clients' sockets that belong to nobody yet.
pub record IsCounted (t0 : List Effect) (own open_fds : List ℕ) (ts : List ℕ) (ds : List Deed)
    (t1 : List Effect) : Type 0 where
  pub memory : (t : ℕ) → allocations t ds ≡ releases t ds + count t ts + count t own
  pub running : (t : ℕ) → starts t ds ≡ joins t ds + count t ts
  pub sockets :
      (fd : ℕ)
      → opens fd t1 + closes fd t0 ≡ closes fd t1 + opens fd t0 + handed fd ds + count fd open_fds

reaped-IsCounted :
    (t0 : List Effect) (kept gone : List ℕ) (ts : List ℕ) (ds : List Deed) (t1 : List Effect)
    → ((t : ℕ) → count t ts ≡ count t kept + count t gone)
    → IsCounted t0 [] [] ts ds t1
    → IsCounted t0 [] [] kept (reaped gone ds) t1
reaped-IsCounted t0 kept [] ts ds t1 split v = record {
  memory = λ t. omega (arith, v.memory t, split t);
  running = λ t. omega (arith, v.running t, split t);
  sockets = v.sockets;
}
reaped-IsCounted t0 kept (g ∷ gone) ts ds t1 split v =
    reaped-IsCounted t0 kept gone (kept ++ gone) (freed g ∷ joined g ∷ ds) t1
      (λ t. count-append t kept gone)
      (record {
        memory = λ t. omega (arith, v.memory t, split t, count-append t kept gone);
        running = λ t. omega (arith, v.running t, split t, count-append t kept gone);
        sockets = v.sockets;
      })

module _ {W T : Type 0} (os : Os W) (ths : ThreadOs W) (lib : Sblist ℕ T) where
  count-sweep :
      (ts : List ℕ) (w : W) (t : ℕ)
      → count t ts ≡ count t (sweep os ths lib ts w).kept + count t (sweep os ths lib ts w).gone
  unfolding sweep
  count-sweep [] w t = refl
  count-sweep (x ∷ ts) w t = elim (Bool-cases (ths.is_done w x)) [
    | inl d ↦ rw (d, sweep) (omega (arith, count-sweep ts (ths.free (ths.pthread_join w x) x) t))
    | inr d ↦ rw (d, sweep) (omega (arith, count-sweep ts w t))
  ]

  module _ (t0 : List Effect) where
    -- Every `struct thread` that was allocated was freed or is on the list; every thread that was
    -- started was joined or is on the list; every socket that was opened was closed or given to a
    -- thread.
    abbrev pub IsPool : Pool W T → Type 0
    IsPool v = IsCounted t0 [] [] (lib.items v.threads) v.deeds v.sys.trace

    collect-IsPool : (v : Pool W T) → IsPool v → IsPool (collect os ths lib v)
    collect-IsPool v h =
        let s = collect-IsSwept os ths lib v in
        rw (s.left, s.log, s.state)
          (reaped-IsCounted t0 (sweep os ths lib (lib.items v.threads) v.sys.world).kept
            (sweep os ths lib (lib.items v.threads) v.sys.world).gone (lib.items v.threads) v.deeds
            v.sys.trace (count-sweep (lib.items v.threads) v.sys.world) h)

    launch-IsPool :
        (t : ℕ) (c : Client) (ts : List ℕ) (v : Pool W T)
        → lib.items v.threads ≡ ts ++ t ∷ []
        → IsCounted t0 (t ∷ []) (c.fd ∷ []) ts v.deeds v.sys.trace
        → IsPool (launch os ths lib t c v)
    unfolding launch
    launch-IsPool t c ts v e h = elim (Bool-cases (ths.pthread_create v.sys.world t c).0) [
      | inl b ↦
          rw (b, launch, e)
            (record {
              memory = λ x. omega (arith, h.memory x, count-append x ts (t ∷ []));
              running = λ x. omega (arith, h.running x, count-append x ts (t ∷ []));
              sockets = λ fd. omega (arith, h.sockets fd);
            })
      | inr b ↦
          let last : lib.get_size v.threads - 1 ≡ length ts = omega (
            arith,
            lib.get_size_lem v.threads ∙ ap (λ (l : List ℕ). length l) e,
            length-append ts (t ∷ []),
          ) in
          let back : lib.items (lib.delete v.threads (lib.get_size v.threads - 1)) ≡ ts =
            lib.items-delete v.threads (lib.get_size v.threads - 1)
            ∙ (rw (last, e) (erase-behind ts [] t ∙ append-nil ts)) in
          rw (b, launch, back)
            (record {
              memory = λ x. omega (arith, h.memory x);
              running = λ x. omega (arith, h.running x);
              sockets = λ fd. omega (arith, h.sockets fd);
            })
    ]

    enlist-IsPool :
        (t : ℕ) (c : Client) (v : Pool W T)
        → IsCounted t0 (t ∷ []) (c.fd ∷ []) (lib.items v.threads) v.deeds v.sys.trace
        → IsPool (enlist os ths lib t c v)
    unfolding enlist
    enlist-IsPool t c v h = elim (Option-cases (lib.add v.threads t)) [
      | inl e ↦
          rw (e, enlist)
            (record {
              memory = λ x. omega (arith, h.memory x);
              running = λ x. omega (arith, h.running x);
              sockets = λ fd. omega (arith, h.sockets fd);
            })
      | inr (l, e) ↦
          rw (e, enlist)
            (launch-IsPool t c (lib.items v.threads) (record v { threads = l })
              (lib.items-add v.threads l t e) h)
    ]

    admitted_client :
        (server_fd fd : ℕ) (a : SockAddr) (s : Sys W)
        → (os.accept s.world server_fd).0 ≡ value (fd, a)
        → server_waitclient os server_fd s ≡ (
          some (record { addr = a; fd = fd }),
          note (opened fd) (moved (os.accept s.world server_fd).1 s),
        )
    unfolding server_waitclient
    admitted_client server_fd fd a s e = rw (e, server_waitclient) refl

    await_client-IsPool :
        (server_fd t : ℕ) (v : Pool W T)
        → IsCounted t0 (t ∷ []) [] (lib.items v.threads) v.deeds v.sys.trace
        → IsPool (await_client os ths lib server_fd t v)
    unfolding await_client server_waitclient
    await_client-IsPool server_fd t v h = elim (Answer-cases (os.accept v.sys.world server_fd).0) [
      | inr (x, e) ↦
          rw (e, server_waitclient, await_client)
            (record {
              memory = λ y. omega (arith, h.memory y);
              running = λ y. omega (arith, h.running y);
              sockets = λ fd. omega (arith, h.sockets fd);
            })
      | inl ((fd, a), e) ↦
          rw (admitted_client server_fd fd a v.sys e, await_client)
            (enlist-IsPool t (record { addr = a; fd = fd }) _
              (record {
                memory = λ y. omega (arith, h.memory y);
                running = λ y. omega (arith, h.running y);
                sockets = λ x. omega (arith, h.sockets x);
              }))
    ]

    accept_round-IsPool :
        (server_fd : ℕ) (v : Pool W T) → IsPool v → IsPool (accept_round os ths lib server_fd v)
    unfolding accept_round
    accept_round-IsPool server_fd v h =
        let k = collect-IsPool v h in
        elim (Option-cases (ths.malloc_thread (collect os ths lib v).sys.world).0) [
          | inl e ↦ rw (e, accept_round) k
          | inr (t, e) ↦
              rw (e, accept_round)
                (await_client-IsPool server_fd t _ (record {
                  memory = λ x. omega (arith, k.memory x);
                  running = λ x. omega (arith, k.running x);
                  sockets = λ fd. omega (arith, k.sockets fd);
                }))
        ]

    -- If every `struct thread` that was allocated has been freed or is on the list, every thread
    -- that was started has been joined or is on the list, and every socket that was opened since a
    -- point in the trace has been closed or given to a thread, each as often as the other, then all
    -- of this holds again after any number of passes over the loop that accepts clients, whichever
    -- calls fail.
    pub accept_rounds-IsPool :
        (k server_fd : ℕ) (v : Pool W T)
        → IsPool v
        → IsPool (accept_rounds os ths lib k server_fd v)
    unfolding accept_rounds
    accept_rounds-IsPool zero server_fd v h = h
    accept_rounds-IsPool (suc k) server_fd v h =
        accept_rounds-IsPool k server_fd (accept_round os ths lib server_fd v)
          (accept_round-IsPool server_fd v h)
