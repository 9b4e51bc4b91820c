-- ===== src/Pool.antt =====
-- TwoSocks/microsocks/sockssrv.c: the threads of the server, `collect`, and the loop that accepts
-- clients.
pub mod Collecting
pub mod Invariant
use two_socks.Prelude.{
  ℕ, zero, suc, ◌+◌, ◌-◌, Bool, true, false, List, [], ◌∷◌, Option, none, some, if◌then◌else◌,
}
use two_socks.Os.{Os}
use two_socks.Sblist.{Sblist}
use two_socks.System.{Sys, moved, sys_close}
use two_socks.Server.{Client, server_waitclient}

-- What the loop asks of the C library and of the threads it started. A `struct thread` is its
-- address. `is_done` reads its flag `done`, which the thread itself sets at its end, so it is a
-- part of the world.
pub record ThreadOs (W : Type 0) : Type 0 where
  pub malloc_thread : W → Option ℕ × W
  pub free : W → ℕ → W
  pub pthread_create : W → ℕ → Client → Bool × W
  pub pthread_join : W → ℕ → W
  pub is_done : W → ℕ → Bool

-- What was done with a `struct thread`.
pub data Deed : Type 0 where
  allocated : ℕ → Deed
  freed : ℕ → Deed
  started : ℕ → Client → Deed
  joined : ℕ → Deed

-- The state of the loop: the list `threads`, and what was done so far, newest first.
pub record Pool (W T : Type 0) : Type 0 where
  pub sys : Sys W
  pub threads : T
  pub deeds : List Deed

-- FAILURE_TIMEOUT
abbrev failure_timeout : ℕ
failure_timeout = 64

module _ {W T : Type 0} (os : Os W) (ths : ThreadOs W) (lib : Sblist ℕ T) where
  abbrev pub free_thread : ℕ → Pool W T → Pool W T
  free_thread t v = record v {
    sys = moved (ths.free v.sys.world t) v.sys;
    deeds = freed t ∷ v.deeds;
  }

  -- A thread that is done is joined, taken off the list at `i`, and freed.
  abbrev pub reap : ℕ → ℕ → Pool W T → Pool W T
  reap i t v = free_thread t (record v {
    sys = moved (ths.pthread_join v.sys.world t) v.sys;
    threads = lib.delete v.threads i;
    deeds = joined t ∷ v.deeds;
  })

  -- `for(i=0;i<sblist_getsize(threads);)` from `i` on; each step passes an item or removes one.
  unfoldable pub collect_from : ℕ → ℕ → Pool W T → Pool W T
  collect_from zero i v = v
  collect_from (suc k) i v = elim (lib.get v.threads i) [
    | none ↦ v
    | some t ↦ elim (ths.is_done v.sys.world t) [
      | true ↦ collect_from k i (reap i t v)
      | false ↦ collect_from k (i + 1) v
    ]
  ]

  unfoldable pub collect : Pool W T → Pool W T
  collect v = collect_from (lib.get_size v.threads) 0 v

  -- `usleep(FAILURE_TIMEOUT)`
  abbrev pub pause : Pool W T → Pool W T
  pause v = record v { sys = moved (os.usleep v.sys.world failure_timeout) v.sys }

  -- The client cannot be served.
  abbrev pub close_client : Client → Pool W T → Pool W T
  close_client c v = record v { sys = sys_close os c.fd v.sys }

  unfoldable pub launch : ℕ → Client → Pool W T → Pool W T
  launch t c v =
      let (begun, w) = ths.pthread_create v.sys.world t c in
      if begun
      then record v { sys = moved w v.sys; deeds = started t c ∷ v.deeds }
      else let closed = close_client c (record v { sys = moved w v.sys }) in
        pause (
          free_thread t (record closed {
            threads = lib.delete closed.threads (lib.get_size closed.threads - 1);
          }))

  unfoldable pub enlist : ℕ → Client → Pool W T → Pool W T
  enlist t c v = elim (lib.add v.threads t) [
    | none ↦ pause (free_thread t (close_client c v))
    | some l ↦ launch t c (record v { threads = l })
  ]

  abbrev pub admit : ℕ → Option Client × Sys W → Pool W T → Pool W T
  admit t (none, s) v = pause (free_thread t (record v { sys = s }))
  admit t (some c, s) v = enlist t c (record v { sys = s })

  unfoldable pub await_client : ℕ → ℕ → Pool W T → Pool W T
  await_client server_fd t v = admit t (server_waitclient os server_fd v.sys) v

  -- One pass of `while(1)`.
  unfoldable pub accept_round : ℕ → Pool W T → Pool W T
  accept_round server_fd v =
      let v1 = collect v in
      let (r, w) = ths.malloc_thread v1.sys.world in
      elim r [
        | none ↦ pause (record v1 { sys = moved w v1.sys })
        | some t ↦
            await_client server_fd t
              (record v1 { sys = moved w v1.sys; deeds = allocated t ∷ v1.deeds })
      ]

  -- For a number of passes.
  unfoldable pub accept_rounds : ℕ → ℕ → Pool W T → Pool W T
  accept_rounds zero server_fd v = v
  accept_rounds (suc k) server_fd v = accept_rounds k server_fd (accept_round server_fd v)
