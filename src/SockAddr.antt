-- ===== src/SockAddr.antt =====
-- TwoSocks/microsocks/server.h: `union sockaddr_union` and its macros, and the functions of
-- TwoSocks/microsocks/sockssrv.c that look at such an address.
use two_socks.Prelude.{ℕ, Bool, true, false, List, [], ◌∷◌, ◌==◌, ◌&&◌}
use two_socks.Text.{str_eq}
use two_socks.Platform.{Family, inet, inet6, other_family}

-- `bytes` are those of `sin_addr` or `sin6_addr`, in the order of the network, and `port` is
-- `sin_port` or `sin6_port` by `ntohs`.
pub data SockAddr : Type 0 where
  v4 : (bytes : List ℕ) (port : ℕ) → SockAddr
  v6 : (bytes : List ℕ) (port scope_id : ℕ) → SockAddr
  unspec : SockAddr

-- SOCKADDR_UNION_AF
abbrev pub family : SockAddr → Family
family (v4 bytes port) = inet
family (v6 bytes port scope) = inet6
family unspec = other_family

-- INADDR_ANY and the unspecified address of IPv6 are all zeros.
abbrev pub all_zero : List ℕ → Bool
all_zero [] = true
all_zero (b ∷ bs) = b == 0 && all_zero bs

unfoldable pub sockaddr_is_unspecified : SockAddr → Bool
sockaddr_is_unspecified (v4 bytes port) = all_zero bytes
sockaddr_is_unspecified (v6 bytes port scope) = all_zero bytes
sockaddr_is_unspecified unspec = true

-- The families agree, and the bytes of the addresses do; the ports are not looked at.
unfoldable pub is_authed : SockAddr → SockAddr → Bool
is_authed (v4 a port) (v4 b port') = str_eq a b
is_authed (v6 a port scope) (v6 b port' scope') = str_eq a b
is_authed _ _ = false

-- The end of `populate_udp_response_addr`: an address of the TCP socket replaces an unspecified one
-- of the same family, and the port stays that of the UDP socket.
unfoldable pub fill_address : SockAddr → SockAddr → SockAddr
fill_address (v4 bytes port) (v4 bytes' port') = v4 bytes' port
fill_address (v6 bytes port scope) (v6 bytes' port' scope') = v6 bytes' port scope'
fill_address response tcp = response
