-- ===== src/Server.antt =====
-- TwoSocks/microsocks/server.c: the listening socket, and the clients that come in on it.
pub mod Listening
use two_socks.Prelude.{ℕ, List, [], ◌∷◌, Option, none, some}
use two_socks.Codes.{tcp_socket}
use two_socks.SockAddr.{SockAddr, family}
use two_socks.Os.{Os, Answer, value, failed}
use two_socks.System.{Sys, moved, note, opened, sys_close}
use two_socks.Resolve.{resolve}

-- `struct client`
pub record Client : Type 0 where
  pub addr : SockAddr
  pub fd : ℕ

-- `server_setup` sets `server->fd` and returns 0, or returns -1, -2 or -3.
pub data Setup : Type 0 where
  listening : ℕ → Setup
  unresolved unbound unlistened : Setup

module _ {W : Type 0} (os : Os W) where
  unfoldable pub bind_listener : ℕ → SockAddr → Sys W → Option ℕ × Sys W
  bind_listener fd a s =
      let (r, w) = os.bind (os.setsockopt s.world fd) fd a in
      elim r [ value _ ↦ (some fd, moved w s) | failed e ↦ (none, sys_close os fd (moved w s)) ]

  unfoldable pub open_listener : SockAddr → Sys W → Option ℕ × Sys W
  open_listener a s =
      let (r, w) = os.socket s.world (family a) tcp_socket in
      elim r [
        | failed e ↦ (none, moved w s)
        | value fd ↦ bind_listener fd a (note (opened fd) (moved w s))
      ]

  -- `for(p = ainfo; p; p = p->ai_next)`, up to the first address that can be bound.
  unfoldable pub first_listener : List SockAddr → Sys W → Option ℕ × Sys W
  first_listener [] s = (none, s)
  first_listener (a ∷ rest) s =
      let (r, s') = open_listener a s in
      elim r [ none ↦ first_listener rest s' | some fd ↦ (some fd, s') ]

  unfoldable pub listen_on : Option ℕ → Sys W → Setup × Sys W
  listen_on none s = (unbound, s)
  listen_on (some fd) s =
      let (r, w) = os.listen s.world fd in
      elim r [
        | value _ ↦ (listening fd, moved w s)
        | failed e ↦ (unlistened, sys_close os fd (moved w s))
      ]

  unfoldable pub server_setup : List ℕ → ℕ → Sys W → Setup × Sys W
  server_setup listenip port s =
      let (r, s1) = resolve os tcp_socket listenip port s in
      elim r [
        | none ↦ (unresolved, s1)
        | some (a, rest) ↦ let (fd, s2) = first_listener (a ∷ rest) s1 in listen_on fd s2
      ]

  unfoldable pub server_waitclient : ℕ → Sys W → Option Client × Sys W
  server_waitclient server_fd s =
      let (r, w) = os.accept s.world server_fd in
      elim r [
        | failed e ↦ (none, moved w s)
        | value (fd, a) ↦ (some (record { addr = a; fd = fd }), note (opened fd) (moved w s))
      ]
