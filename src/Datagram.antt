-- ===== src/Datagram.antt =====
-- TwoSocks/microsocks/sockssrv.c: the header of a UDP datagram between the client and the server,
-- read by `extract_udp_data` and written by `copy_loop_udp`.
pub mod Grammar
pub mod Wire
pub mod Bytes
pub mod RoundTrip
use two_socks.Prelude.{
  ℕ, ◌+◌, ◌-◌, ◌/◌, ◌%◌, ◌^◌, Bool, true, ◌||◌, not, List, [], ◌∷◌, ◌++◌, Option, none, some,
  length, drop, ltb, ◌==◌, if◌then◌else◌,
}
use two_socks.Codes.{AddrType, ipv4, dns, ipv6, type_value, general_failure, rsv}
use two_socks.Platform.{Inet, inet, inet6}
use two_socks.Buffer.{Result, ok, err, ◌>>=◌, at}
use two_socks.Addrport.{Addrport, parse_addrport}

-- The text of an address as the bytes of the header; `none` where `inet_pton` refuses it.
unfoldable pub address_bytes : Inet → AddrType → List ℕ → Option (List ℕ)
address_bytes net dns addr = some ((length addr % 2 ^ 8) ∷ addr)
address_bytes net ipv4 addr = net.pton inet addr
address_bytes net ipv6 addr = net.pton inet6 addr

-- The bytes that `copy_loop_udp` puts in front of what a destination sent.
unfoldable pub udp_header : Inet → Addrport → Option (List ℕ)
udp_header net a = elim (address_bytes net a.type a.addr) [
  | none ↦ none
  | some bytes ↦
      some (rsv ∷ rsv ∷ 0 ∷ type_value a.type ∷ bytes ++ (a.port / 2 ^ 8) ∷ (a.port % 2 ^ 8) ∷ [])
]

-- The address and the offset of the payload, or a negative error code.
unfoldable pub extract_udp_data : Inet → List ℕ → Result (Addrport × ℕ)
extract_udp_data net buf = if ltb (length buf) 3 then err general_failure else do
  b0 ← at buf 0
  b1 ← at buf 1
  if not (b0 == rsv) || not (b1 == rsv) then err general_failure else do
    b2 ← at buf 2
    if not (b2 == 0)
        then err general_failure
        else do (a, taken) ← parse_addrport net (drop 3 buf); ok (a, 3 + taken)
