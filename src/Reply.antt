-- ===== src/Reply.antt =====
-- TwoSocks/microsocks/sockssrv.c: the replies to a client, as the bytes that are written.
pub mod Reading
use two_socks.Prelude.{ℕ, ◌/◌, ◌%◌, ◌^◌, List, [], ◌∷◌, ◌++◌, Option, none, some}
use two_socks.Codes.{ErrorCode, error_value, version, rsv, ipv4, ipv6, type_value}
use two_socks.SockAddr.{SockAddr, v4, v6, unspec}

-- `buf[0] = version; buf[1] = meth`, each stored in an `unsigned char`
unfoldable pub send_auth_response : ℕ → ℕ → List ℕ
send_auth_response ver meth = (ver % 2 ^ 8) ∷ (meth % 2 ^ 8) ∷ []

abbrev port_bytes : ℕ → List ℕ
port_bytes port = (port / 2 ^ 8) ∷ (port % 2 ^ 8) ∷ []

-- `none` is the call of `abort`.
unfoldable pub send_response : ErrorCode → SockAddr → Option (List ℕ)
send_response ec (v4 bytes port) =
    some (version ∷ error_value ec ∷ rsv ∷ type_value ipv4 ∷ bytes ++ port_bytes port)
send_response ec (v6 bytes port scope) =
    some (version ∷ error_value ec ∷ rsv ∷ type_value ipv6 ∷ bytes ++ port_bytes port)
send_response ec unspec = none

unfoldable pub send_error : ErrorCode → List ℕ
send_error ec = 5 ∷ error_value ec ∷ 0 ∷ 1 ∷ 0 ∷ 0 ∷ 0 ∷ 0 ∷ 0 ∷ 0 ∷ []
