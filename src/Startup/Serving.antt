-- ===== src/Startup/Serving.antt =====
-- How `socks_main` may stand: what each of its returns means, and what holds while it serves.
use two_socks.Prelude.{
  ℕ, ◌%◌, ◌^◌, ◌≡◌, refl, true, false, not, ◌&&◌, ◌||◌, List, [], ◌∷◌, Option, none, some, inl, inr,
  ◌⊎◌, All, arith, Bool-cases, Option-cases,
}
use mathlib.Core.Path.{subst}
use two_socks.SockAddr.{SockAddr}
use two_socks.Sblist.{Sblist}
use two_socks.Os.{Os, value}
use two_socks.System.{Sys, emit_server_ready_event}
use two_socks.Session.Descriptors.{Balanced, Holds}
use two_socks.Server.{Setup, listening, unresolved, unbound, unlistened}
use two_socks.Server.Listening.{WasBound, IsSetUp, server_setup-IsSetUp}
use two_socks.Pool.{ThreadOs, Pool, accept_rounds}
use two_socks.Pool.Invariant.{IsCounted, accept_rounds-IsPool}
use two_socks.Startup.{
  Opt, CLib, Options, is_set, is_misused, parse_options, initial_options, Main, shows_usage,
  misused, not_set_up, no_list, serves, serve, start_server, socks_main,
}
use two_socks.Startup.Parsing.{IsOption, as_said, IsParsed, parse_options-IsParsed}

-- Either there is neither a name nor a password, and no list of clients that may go without, or
-- there are both.
abbrev pub IsConsistent : {L : Type 0} → Options L → Type 0
IsConsistent o =
    ((o.auth_user ≡ none) × (o.auth_pass ≡ none) × (o.auth_ips ≡ none))
    ⊎ ((user : List ℕ) × (pass : List ℕ) × (o.auth_user ≡ some user) × (o.auth_pass ≡ some pass))

is_misused-false : {L : Type 0} (o : Options L) → is_misused o ≡ false → IsConsistent o
unfolding is_misused
is_misused-false {L} o h = go o.auth_user o.auth_pass o.auth_ips refl refl refl h
  where
    go :
        (u p : Option (List ℕ)) (i : Option L)
        → o.auth_user ≡ u
        → o.auth_pass ≡ p
        → o.auth_ips ≡ i
        → ((is_set u && not (is_set p)) || (not (is_set u) && is_set p))
            || (is_set i && not (is_set p))
          ≡ false
        → IsConsistent o
    go none none none eu ep ei k = inl (eu, ep, ei)
    go none none (some i) eu ep ei k = absurd (cc)
    go none (some p) i eu ep ei k = absurd (cc)
    go (some u) none i eu ep ei k = absurd (cc)
    go (some u) (some p) i eu ep ei k = inr (u, p, eu, ep)

is_misused-true : {L : Type 0} (o : Options L) → is_misused o ≡ true → IsConsistent o → ⊥
unfolding is_misused
is_misused-true {L} o h (inl (eu, ep, ei)) = go o.auth_user o.auth_pass o.auth_ips eu ep ei h
  where
    go :
        (u p : Option (List ℕ)) (i : Option L)
        → u ≡ none
        → p ≡ none
        → i ≡ none
        → ((is_set u && not (is_set p)) || (not (is_set u) && is_set p))
            || (is_set i && not (is_set p))
          ≡ true
        → ⊥
    go none none none eu ep ei k = cc
    go none none (some i) eu ep ei k = cc
    go none (some p) i eu ep ei k = cc
    go (some u) p i eu ep ei k = cc
is_misused-true {L} o h (inr (u', p', eu, ep)) = go o.auth_user o.auth_pass o.auth_ips eu ep h
  where
    go :
        (u p : Option (List ℕ)) (i : Option L)
        → u ≡ some u'
        → p ≡ some p'
        → ((is_set u && not (is_set p)) || (not (is_set u) && is_set p))
            || (is_set i && not (is_set p))
          ≡ true
        → ⊥
    go none p i eu ep k = cc
    go (some u) none i eu ep k = cc
    go (some u) (some p) none eu ep k = cc
    go (some u) (some p) (some i) eu ep k = cc

module _ {W T L : Type 0} (os : Os W) (ths : ThreadOs W) (lib : Sblist ℕ T)
    (clients : Sblist SockAddr L) (c : CLib) where
  -- While the server runs, its socket is bound, listens and is open; every other socket that was
  -- opened is closed or was given to a thread; and memory and threads are accounted for.
  pub record IsServing (s : Sys W) (fd : ℕ) (v : Pool W T) : Type 0 where
    pub bound : WasBound os fd
    pub listens : (w : W) × ((os.listen w fd).0 ≡ value tt)
    pub counted : IsCounted s.trace [] (fd ∷ []) (lib.items v.threads) v.deeds v.sys.trace

  abbrev pub IsStanding : List Opt → Options L → Sys W → Main W T L → Type 0
  IsStanding opts o0 s shows_usage = All IsOption opts → ⊥
  IsStanding opts o0 s misused = All IsOption opts × (IsConsistent (as_said clients c opts o0) → ⊥)
  IsStanding opts o0 s (not_set_up u s') =
      All IsOption opts × IsConsistent (as_said clients c opts o0) × Balanced s s'
  IsStanding opts o0 s (no_list o fd s') =
      (o ≡ as_said clients c opts o0)
      × IsConsistent o
      × WasBound os fd
      × ((w : W) × ((os.listen w fd).0 ≡ value tt))
      × Holds fd s s'
  IsStanding opts o0 s (serves o fd v) =
      (o ≡ as_said clients c opts o0) × IsConsistent o × IsServing s fd v

  -- The announcement opens and closes nothing.
  announced : (fd : ℕ) (s s' : Sys W) → Holds fd s s' → Holds fd s (emit_server_ready_event s')
  unfolding emit_server_ready_event
  announced fd s s' h = elim (Bool-cases s'.ready_handler) [
    | inl e ↦ rw (e, emit_server_ready_event) (record { holding = λ x. h.holding x })
    | inr e ↦ rw (e, emit_server_ready_event) h
  ]

  serving :
      (k fd : ℕ) (s s1 : Sys W) (threads : T)
      → lib.items threads ≡ []
      → Holds fd s s1
      → IsCounted s.trace []
          (fd ∷ [])
          (lib.items
            (accept_rounds os ths lib k fd
              (record { sys = s1; threads = threads; deeds = [] })).threads)
          (accept_rounds os ths lib k fd (record { sys = s1; threads = threads; deeds = [] })).deeds
          (accept_rounds os ths lib k fd
            (record { sys = s1; threads = threads; deeds = [] })).sys.trace
  serving k fd s s1 threads e h =
      let p =
        accept_rounds-IsPool os ths lib s1.trace k fd
          (record { sys = s1; threads = threads; deeds = [] })
          (rw e (record { memory = λ t. refl; running = λ t. refl; sockets = λ x. omega arith })) in
      record {
        memory = p.memory;
        running = p.running;
        sockets = λ x. omega (arith, p.sockets x, h.holding x);
      }

  serve-IsStanding :
      (k : ℕ) (opts : List Opt) (o0 o : Options L) (s : Sys W) (r : Setup × Sys W)
      → All IsOption opts
      → o ≡ as_said clients c opts o0
      → IsConsistent o
      → IsSetUp os s r
      → IsStanding opts o0 s (serve os ths lib clients c k o r)
  unfolding serve
  serve-IsStanding k opts o0 o s (unresolved, s') all e h b = (all, subst IsConsistent e h, b)
  serve-IsStanding k opts o0 o s (unbound, s') all e h b = (all, subst IsConsistent e h, b)
  serve-IsStanding k opts o0 o s (unlistened, s') all e h b = (all, subst IsConsistent e h, b)
  serve-IsStanding k opts o0 o s (listening fd, s') all e h (bound, listens, held) =
      elim (Option-cases lib.create) [
        | inl n ↦ rw (n, serve) (e, h, bound, listens, announced fd s s' held)
        | inr (threads, n) ↦
            rw (n, serve)
              (
                e,
                h,
                record {
                  bound = bound;
                  listens = listens;
                  counted =
                      serving k fd s (emit_server_ready_event s') threads
                        (lib.items-create threads n) (announced fd s s' held);
                },
              )
      ]

  start_server-IsStanding :
      (k : ℕ) (opts : List Opt) (o0 o : Options L) (s : Sys W)
      → All IsOption opts
      → o ≡ as_said clients c opts o0
      → IsStanding opts o0 s (start_server os ths lib clients c k o s)
  unfolding start_server
  start_server-IsStanding k opts o0 o s all e = elim (Bool-cases (is_misused o)) [
    | inl m ↦ rw (m, start_server) (all, λ h. is_misused-true o m (rw e h))
    | inr m ↦
        rw (m, start_server)
          (serve-IsStanding k opts o0 o s _ all e (is_misused-false o m)
            (server_setup-IsSetUp os o.listenip (o.port % 2 ^ 16) s))
  ]

  -- `socks_main` shows its usage only if an option is mistaken. It gives up on the options only if,
  -- by the last one of each kind, there is a name without a password, a password without a name, or
  -- a list of known clients without a password. If the server's socket cannot be set up, nothing is
  -- left open. Otherwise the name and the password are both set, or neither and no list of known
  -- clients, and the server's socket is bound, listens and is open, whether there is no memory for
  -- the list of threads or clients are served; while they are served, which is for any number of
  -- passes, every `struct thread` that was allocated has been freed or is on the list, every thread
  -- that was started has been joined or is on the list, and every other socket that was opened has
  -- been closed or given to a thread.
  pub socks_main-IsStanding :
      (k : ℕ) (opts : List Opt) (before : Options L) (s : Sys W)
      → IsStanding opts
          (initial_options clients c before)
          s
          (socks_main os ths lib clients c k opts before s)
  unfolding socks_main
  socks_main-IsStanding k opts before s =
      go (parse_options clients c opts (initial_options clients c before)).0 refl
        (parse_options-IsParsed clients c opts (initial_options clients c before))
    where
      go :
          (r : Option (Options L))
          → (parse_options clients c opts (initial_options clients c before)).0 ≡ r
          → IsParsed clients c opts
              (initial_options clients c before)
              (r, (parse_options clients c opts (initial_options clients c before)).1)
          → IsStanding opts
              (initial_options clients c before)
              s
              (socks_main os ths lib clients c k opts before s)
      go none e h = rw (e, socks_main) h
      go (some o) e (all, same, wiped) =
          rw (e, socks_main)
            (start_server-IsStanding k opts (initial_options clients c before) o s all same)
