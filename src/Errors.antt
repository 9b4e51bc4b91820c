-- ===== src/Errors.antt =====
-- TwoSocks/microsocks/sockssrv.c: what an `errno` is answered to a client as.
use two_socks.Codes.{
  ErrorCode, general_failure, ttl_expired, addresstype_not_supported, conn_refused, net_unreachable,
  host_unreachable,
}
use two_socks.Platform.{
  Errno, etimedout, eprototype, eprotonosupport, eafnosupport, econnrefused, enetdown, enetunreach,
  ehostunreach,
}

unfoldable pub socket_error_code_from_errno : Errno → ErrorCode
socket_error_code_from_errno etimedout = ttl_expired
socket_error_code_from_errno eprototype = addresstype_not_supported
socket_error_code_from_errno eprotonosupport = addresstype_not_supported
socket_error_code_from_errno eafnosupport = addresstype_not_supported
socket_error_code_from_errno econnrefused = conn_refused
socket_error_code_from_errno enetdown = net_unreachable
socket_error_code_from_errno enetunreach = net_unreachable
socket_error_code_from_errno ehostunreach = host_unreachable
socket_error_code_from_errno _ = general_failure
