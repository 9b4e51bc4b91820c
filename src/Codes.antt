-- ===== src/Codes.antt =====
-- TwoSocks/microsocks/sockssrv.h: the enumerations of the protocol, with their numeric values.
use two_socks.Prelude.{ℕ, ◌-◌, ◌*◌, ◌^◌}

-- `enum errorcode`
pub data ErrorCode : Type 0 where
  success general_failure not_allowed net_unreachable host_unreachable : ErrorCode
  conn_refused ttl_expired command_not_supported addresstype_not_supported : ErrorCode
  bind_ip_not_provided : ErrorCode

abbrev pub error_value : ErrorCode → ℕ
error_value success = 0
error_value general_failure = 1
error_value not_allowed = 2
error_value net_unreachable = 3
error_value host_unreachable = 4
error_value conn_refused = 5
error_value ttl_expired = 6
error_value command_not_supported = 7
error_value addresstype_not_supported = 8
error_value bind_ip_not_provided = 9

-- `enum socksstate`
pub data SocksState : Type 0 where
  connected need_auth authed : SocksState

-- `enum authmethod`
pub data AuthMethod : Type 0 where
  no_auth gssapi username invalid : AuthMethod

abbrev pub method_value : AuthMethod → ℕ
method_value no_auth = 0
method_value gssapi = 1
method_value username = 2
method_value invalid = 0xff

-- `enum socks5_cmd`
pub data Cmd : Type 0 where
  connect udp_associate : Cmd

abbrev pub cmd_value : Cmd → ℕ
cmd_value connect = 1
cmd_value udp_associate = 3

abbrev pub version : ℕ
version = 5

abbrev pub rsv : ℕ
rsv = 0

-- `enum socks5_addr_type`, but for SOCKS5_ADDR_UNKNOWN, which no code assigns.
pub data AddrType : Type 0 where
  ipv4 dns ipv6 : AddrType

abbrev pub type_value : AddrType → ℕ
type_value ipv4 = 1
type_value dns = 3
type_value ipv6 = 4

-- `enum socks5_socket_type`
pub data SocketType : Type 0 where
  tcp_socket udp_socket : SocketType

-- `enum twosocks_connection_state`; `open` is a word of the language.
pub data ConnectionState : Type 0 where
  is_open closed failed : ConnectionState

-- `enum twosocks_connection_protocol`
pub data Protocol : Type 0 where
  tcp udp : Protocol

abbrev pub max_dns_len : ℕ
max_dns_len = 2 * 2 ^ 8 - 1
