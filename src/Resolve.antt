-- ===== src/Resolve.antt =====
-- TwoSocks/microsocks/server.c: `resolve_tcp` and `resolve_udp`, and `resolveSocks5Addrport` of
-- TwoSocks/microsocks/sockssrv.c.
use two_socks.Prelude.{ℕ, List, Option, none, some}
use two_socks.Codes.{SocketType, general_failure}
use two_socks.SockAddr.{SockAddr}
use two_socks.Buffer.{Result, ok, err}
use two_socks.Os.{Os}
use two_socks.System.{Sys, moved}
use two_socks.Addrport.{Addrport}

module _ {W : Type 0} (os : Os W) where
  -- The service: `snprintf(port_buf, sizeof port_buf, "%u", port)`, with eight bytes in `port_buf`.
  unfoldable pub port_text : ℕ → List ℕ
  port_text port = os.snprintf_u 8 port

  -- `resolve_tcp` and `resolve_udp` differ in the socket type of their hints.
  unfoldable pub resolve :
      SocketType → List ℕ → ℕ → Sys W → Option (SockAddr × List SockAddr) × Sys W
  resolve type host port s =
      let (r, w) = os.getaddrinfo s.world (some host) (port_text port) type in (r, moved w s)

  -- The first address of the answer.
  abbrev pub first_address : Option (SockAddr × List SockAddr) → Result SockAddr
  first_address none = err general_failure
  first_address (some (a, _)) = ok a

  unfoldable pub resolve_socks5_addrport : Addrport → SocketType → Sys W → Result SockAddr × Sys W
  resolve_socks5_addrport a type s =
      let (r, s') = resolve type a.addr a.port s in (first_address r, s')
