-- ===== src/Request.antt =====
-- TwoSocks/microsocks/sockssrv.c: `parse_socks_request_header`, the request of a client that has
-- been let in.
pub mod Grammar
use two_socks.Prelude.{ℕ, ◌+◌, not, ◌&&◌, List, length, drop, ltb, ◌==◌, if◌then◌else◌}
use two_socks.Codes.{
  Cmd, connect, udp_associate, cmd_value, SocketType, tcp_socket, udp_socket, general_failure,
  command_not_supported, version, rsv,
}
use two_socks.Platform.{Inet}
use two_socks.SockAddr.{SockAddr}
use two_socks.Buffer.{Result, ok, err, fault, ◌>>=◌, at}
use two_socks.Addrport.{Addrport, parse_addrport}
use two_socks.Os.{Os}
use two_socks.System.{Sys}
use two_socks.Resolve.{resolve_socks5_addrport}

-- The command of a byte that passed the test for the two that are supported.
abbrev pub cmd_of : ℕ → Cmd
cmd_of b = if b == cmd_value connect then connect else udp_associate

-- The part of the function that reads the packet.
unfoldable pub parse_request : Inet → List ℕ → Result (Cmd × Addrport)
parse_request net buf = if ltb (length buf) 3 then err general_failure else do
  b0 ← at buf 0
  if not (b0 == version) then err general_failure else do
    b1 ← at buf 1
    if not (b1 == cmd_value connect) && not (b1 == cmd_value udp_associate)
        then err command_not_supported
        else do
          b2 ← at buf 2
          if not (b2 == rsv)
              then err general_failure
              else do (a, _) ← parse_addrport net (drop 3 buf); ok (cmd_of b1, a)

abbrev pub socket_type : Cmd → SocketType
socket_type connect = tcp_socket
socket_type udp_associate = udp_socket

module _ {W : Type 0} (os : Os W) (net : Inet) where
  abbrev resolve_request :
      Result (Cmd × Addrport) → Sys W → Result (Cmd × Addrport × SockAddr) × Sys W
  resolve_request (err e) s = (err e, s)
  resolve_request fault s = (fault, s)
  resolve_request (ok (cmd, a)) s =
      let (r, s') = resolve_socks5_addrport os a (socket_type cmd) s in
      (r >>= λ address. ok (cmd, a, address), s')

  unfoldable pub parse_socks_request_header :
      List ℕ → Sys W → Result (Cmd × Addrport × SockAddr) × Sys W
  parse_socks_request_header buf s = resolve_request (parse_request net buf) s
