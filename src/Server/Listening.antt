-- ===== src/Server/Listening.antt =====
-- What `server_setup` leaves open.
use two_socks.Prelude.{
  ℕ, ◌≡◌, refl, List, [], ◌∷◌, Option, none, some, arith, inl, inr, Option-cases,
}
use two_socks.Codes.{tcp_socket}
use two_socks.SockAddr.{SockAddr, family}
use two_socks.Os.{Os, value, Answer-cases}
use two_socks.System.{Sys}
use two_socks.Resolve.{resolve}
use two_socks.Session.Descriptors.{Balanced, Holds, trans-Even, close-Even}
use two_socks.Server.{
  Setup, listening, unresolved, unbound, unlistened, bind_listener, open_listener, first_listener,
  listen_on, server_setup,
}

module _ {W : Type 0} (os : Os W) where
  -- `bind` took the descriptor.
  abbrev pub WasBound : ℕ → Type 0
  WasBound fd = (w : W) × (a : SockAddr) × ((os.bind w fd a).0 ≡ value tt)

  abbrev pub IsBound : Sys W → Option ℕ × Sys W → Type 0
  IsBound s (none, s') = Balanced s s'
  IsBound s (some fd, s') = WasBound fd × Holds fd s s'

  open_listener-IsBound : (a : SockAddr) (s : Sys W) → IsBound s (open_listener os a s)
  unfolding open_listener bind_listener
  open_listener-IsBound a s = elim (Answer-cases (os.socket s.world (family a) tcp_socket).0) [
    | inr (e, eq) ↦ rw (eq, open_listener) (record { even = λ x. omega arith })
    | inl (fd, eq) ↦
        let w : W = (os.socket s.world (family a) tcp_socket).1 in
        elim (Answer-cases (os.bind (os.setsockopt w fd) fd a).0) [
          | inl (u, b) ↦
              rw (eq, b, open_listener, bind_listener)
                ((os.setsockopt w fd, a, b), record { holding = λ x. omega arith })
          | inr (e, b) ↦
              rw (eq, b, open_listener, bind_listener) (record { even = λ x. omega arith })
        ]
  ]

  first_listener-IsBound :
      (addrs : List SockAddr) (s : Sys W) → IsBound s (first_listener os addrs s)
  unfolding first_listener
  first_listener-IsBound [] s = record { even = λ x. omega arith }
  first_listener-IsBound (a ∷ rest) s =
      step _ refl (open_listener-IsBound a s) (first_listener-IsBound rest (open_listener os a s).1)
    where
      further : (s' : Sys W) (r : Option ℕ × Sys W) → Balanced s s' → IsBound s' r → IsBound s r
      further s' (none, s'') b h = trans-Even b h
      further s' (some fd, s'') b (u, h) =
          (u, record { holding = λ x. ground (arith, h.holding x, b.even x) })

      step :
          (r : Option ℕ)
          → (open_listener os a s).0 ≡ r
          → IsBound s (r, (open_listener os a s).1)
          → IsBound (open_listener os a s).1 (first_listener os rest (open_listener os a s).1)
          → IsBound s (first_listener os (a ∷ rest) s)
      step none e b h =
          rw (e, first_listener)
            (further (open_listener os a s).1 (first_listener os rest (open_listener os a s).1) b h)
      step (some fd) e b h = rw (e, first_listener) b

  abbrev pub IsSetUp : Sys W → Setup × Sys W → Type 0
  IsSetUp s (listening fd, s') =
      WasBound fd × ((w : W) × ((os.listen w fd).0 ≡ value tt)) × Holds fd s s'
  IsSetUp s (unresolved, s') = Balanced s s'
  IsSetUp s (unbound, s') = Balanced s s'
  IsSetUp s (unlistened, s') = Balanced s s'

  listen_on-IsSetUp :
      (s : Sys W) (r : Option ℕ) (s' : Sys W) → IsBound s (r, s') → IsSetUp s (listen_on os r s')
  unfolding listen_on
  listen_on-IsSetUp s none s' b = b
  listen_on-IsSetUp s (some fd) s' (bound, h) = elim (Answer-cases (os.listen s'.world fd).0) [
    | inl (u, e) ↦ rw (e, listen_on) (bound, (s'.world, e), h)
    | inr (x, e) ↦ rw (e, listen_on) (close-Even h)
  ]

  -- Where `server_setup` succeeds, the descriptor that it returns was bound and listens, it is
  -- open, and every other one that it opened is closed; where it fails, every one that it opened is
  -- closed.
  pub server_setup-IsSetUp :
      (listenip : List ℕ) (port : ℕ) (s : Sys W) → IsSetUp s (server_setup os listenip port s)
  unfolding server_setup resolve
  server_setup-IsSetUp listenip port s =
      elim (Option-cases (resolve os tcp_socket listenip port s).0) [
        | inl e ↦ rw (e, server_setup) (record { even = λ x. omega arith })
        | inr ((a, rest), e) ↦
            rw (e, server_setup) (setup (resolve os tcp_socket listenip port s).1 (a ∷ rest))
      ]
    where
      setup :
          (s1 : Sys W) (addrs : List SockAddr)
          → IsSetUp s1 (listen_on os (first_listener os addrs s1).0 (first_listener os addrs s1).1)
      setup s1 addrs =
          listen_on-IsSetUp s1 (first_listener os addrs s1).0 (first_listener os addrs s1).1
            (first_listener-IsBound addrs s1)
