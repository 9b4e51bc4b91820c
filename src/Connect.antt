-- ===== src/Connect.antt =====
-- TwoSocks/microsocks/sockssrv.c: the sockets of a session, `connect_socks_target` and
-- `udp_svc_setup`, and the writes of replies.
use two_socks.Prelude.{
  ℕ, Bool, true, false, not, List, [], ◌∷◌, Option, none, some, take, if◌then◌else◌,
}
use two_socks.Codes.{ErrorCode, general_failure, tcp_socket, udp_socket}
use two_socks.Errors.{socket_error_code_from_errno}
use two_socks.SockAddr.{SockAddr, family, sockaddr_is_unspecified, fill_address}
use two_socks.Os.{Os, taken, send_failed, value, failed}
use two_socks.System.{Sys, moved, note, sent, opened, connected_to, sys_close}

-- A descriptor, or a negative error code.
pub data Target : Type 0 where
  target : ℕ → Target
  refused : ErrorCode → Target

module _ {W : Type 0} (os : Os W) where
  -- `write(fd, buf, len)`, and whether it did not return -1.
  unfoldable pub write_reply : ℕ → List ℕ → Sys W → Bool × Sys W
  write_reply fd bytes s =
      let (r, w) = os.write s.world fd bytes in
      elim r [
        | taken m ↦ (true, note (sent fd (take m bytes)) (moved w s))
        | send_failed e ↦ (false, moved w s)
      ]

  -- `connect` on a new socket; the socket is closed again where it fails.
  unfoldable pub connect_or_close : ℕ → SockAddr → Sys W → Target × Sys W
  connect_or_close fd remote s =
      let (r, w) = os.connect s.world fd remote in
      elim r [
        | value _ ↦ (target fd, note (connected_to fd remote) (moved w s))
        | failed e ↦ (refused (socket_error_code_from_errno e), sys_close os fd (moved w s))
      ]

  unfoldable pub connect_socks_target : SockAddr → Sys W → Target × Sys W
  connect_socks_target remote s =
      let (r, w) = os.socket s.world (family remote) tcp_socket in
      elim r [
        | failed e ↦ (refused (socket_error_code_from_errno e), moved w s)
        | value fd ↦ connect_or_close fd remote (note (opened fd) (moved w s))
      ]

  -- A socket that is bound to a local address, any of the family.
  unfoldable pub bind_or_close : ℕ → SockAddr → Sys W → Target × Sys W
  bind_or_close fd local s =
      let (r, w) = os.bind s.world fd local in
      elim r [
        | value _ ↦ (target fd, moved w s)
        | failed e ↦ (refused general_failure, sys_close os fd (moved w s))
      ]

  unfoldable pub bind_any : ℕ → Sys W → Target × Sys W
  bind_any fd s =
      let (r, w) = os.getaddrinfo s.world none (b'0' ∷ []) udp_socket in
      elim r [
        | none ↦ (refused general_failure, sys_close os fd (moved w s))
        | some (local, _) ↦ bind_or_close fd local (moved w s)
      ]

  unfoldable pub udp_svc_setup : SockAddr → Sys W → Target × Sys W
  udp_svc_setup client s =
      let (r, w) = os.socket s.world (family client) udp_socket in
      elim r [
        | failed e ↦ (refused (socket_error_code_from_errno e), moved w s)
        | value fd ↦
            if sockaddr_is_unspecified client
            then bind_any fd (note (opened fd) (moved w s))
            else connect_or_close fd client (note (opened fd) (moved w s))
      ]

  -- The local address of the UDP socket, or of the TCP socket where that is unspecified; `none`
  -- stands for -1.
  unfoldable pub populate_udp_response_addr : ℕ → ℕ → Sys W → Option SockAddr × Sys W
  populate_udp_response_addr udp_fd tcp_fd s =
      let (r, w) = os.getsockname s.world udp_fd in
      elim r [
        | failed e ↦ (none, moved w s)
        | value response ↦
            if not (sockaddr_is_unspecified response)
            then (some response, moved w s)
            else let (t, w') = os.getsockname w tcp_fd in
              elim t [
                | failed e ↦ (none, moved w' s)
                | value local ↦ (some (fill_address response local), moved w' s)
              ]
      ]
