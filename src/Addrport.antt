-- ===== src/Addrport.antt =====
-- TwoSocks/microsocks/sockssrv.c: `struct socks5_addrport`, its parser and its comparison.
pub mod Shape
pub mod Grammar
use two_socks.Prelude.{
  ℕ, ◌+◌, ◌-◌, ◌*◌, ◌%◌, ◌^◌, Bool, ◌&&◌, List, length, ltb, ◌==◌, if◌then◌else◌,
}
use two_socks.Codes.{
  AddrType, ipv4, dns, ipv6, type_value, general_failure, addresstype_not_supported, max_dns_len,
}
use two_socks.Text.{str_eq, strncpy}
use two_socks.Platform.{Inet, Family, inet, inet6, addr_size}
use two_socks.Buffer.{Result, ok, err, fault, ◌>>=◌, or_err, at, slice}

-- `addr` holds the text before the terminator.
pub record Addrport : Type 0 where
  pub type : AddrType
  pub addr : List ℕ
  pub port : ℕ

-- The two numbers that the enumeration's constants stand for are equal.
abbrev pub type_eq : AddrType → AddrType → Bool
type_eq a b = type_value a == type_value b

-- `compareSocks5Addrport(a, b) == 0`
unfoldable pub compare_socks5_addrport : Addrport → Addrport → Bool
compare_socks5_addrport a b =
    (type_eq a.type b.type) && (str_eq a.addr b.addr) && (a.port == b.port)

-- The assignments that end `parse_addrport`; the two bytes of the port do not overlap.
unfoldable pub fill_addrport : AddrType → List ℕ → ℕ → List ℕ → Result (Addrport × ℕ)
fill_addrport type name minlen buf = do
  hi ← at buf (minlen - 2)
  lo ← at buf (minlen - 1)
  ok (
    record { type = type; addr = strncpy max_dns_len name; port = (hi * 2 ^ 8 + lo) % 2 ^ 16 },
    minlen,
  )

module _ (net : Inet) where
  unfoldable pub parse_ip : AddrType → Family → ℕ → List ℕ → Result (Addrport × ℕ)
  parse_ip type af minlen buf = if ltb (length buf) minlen then err general_failure else do
    bytes ← slice buf 1 (addr_size af)
    name ← or_err general_failure (net.ntop af bytes)
    fill_addrport type name minlen buf

  unfoldable pub parse_dns : List ℕ → Result (Addrport × ℕ)
  parse_dns buf = do
    l ← at buf 1
    let minlen = 1 + (1 + l) + 2
    if ltb (length buf) minlen
        then err general_failure
        else do name ← slice buf 2 l; fill_addrport dns name minlen buf

  -- The value and the number of bytes it took, or a negative error code.
  unfoldable pub parse_addrport : List ℕ → Result (Addrport × ℕ)
  parse_addrport buf = if ltb (length buf) 2 then err general_failure else do
    type ← at buf 0
    if type == type_value ipv6
        then parse_ip ipv6 inet6 (1 + 16 + 2) buf
        else if type == type_value ipv4
        then parse_ip ipv4 inet (1 + 4 + 2) buf
        else if type == type_value dns
        then parse_dns buf
        else err addresstype_not_supported
