-- ===== src/Datagram/Bytes.antt =====
-- TwoSocks/microsocks/sockssrv.c, `copy_loop_udp`: the header of a datagram in its buffer.
use two_socks.Prelude.{
  ℕ, ◌+◌, ◌-◌, ◌/◌, ◌%◌, ◌^◌, ◌≤◌, ◌<◌, ◌≡◌, refl, List, [], ◌∷◌, some, arith, length,
  length-append, All, All-append, All-append-left, Bool-cases, ◌==◌, inl, inr,
}
use two_socks.Codes.{AddrType, ipv4, dns, ipv6, type_value}
use two_socks.Text.{IsByte, c_str, strncpy-eq_c_str, length-c_str-le}
use two_socks.Platform.{Inet, inet, inet6}
use two_socks.Buffer.{ok}
use two_socks.Addrport.{Addrport}
use two_socks.Addrport.Grammar.{Encodes, ipv4_form, ipv6_form, dns_form}
use two_socks.Datagram.{address_bytes, udp_header, extract_udp_data}
use two_socks.Datagram.Grammar.{extract_udp_data_iff}
use two_socks.Datagram.Wire.{IsWire, Encodes-IsWire, strncpy-ntop}
use two_socks.Forward.{udp_copy_buffer_size}

c_str-IsByte : (bs : List ℕ) → All IsByte bs → All IsByte (c_str bs)
unfolding c_str
c_str-IsByte [] h = tt
c_str-IsByte (b ∷ bs) (h, hs) = elim (Bool-cases (b == 0)) [
  | inl e ↦ rw e tt
  | inr e ↦ rw e (h, c_str-IsByte bs hs)
]

type_value-IsByte : (t : AddrType) → IsByte (type_value t)
type_value-IsByte ipv4 = omega arith
type_value-IsByte dns = omega arith
type_value-IsByte ipv6 = omega arith

module _ (net : Inet) where
  -- The address can be written, as at most 256 bytes.
  abbrev HasBytes : Addrport → Type 0
  HasBytes a =
      (bs : List ℕ) × (address_bytes net a.type a.addr ≡ some bs)
      × All IsByte bs
      × (length bs ≤ 256)

  Encodes-HasBytes :
      {buf : List ℕ} {a : Addrport} {k : ℕ} → All IsByte buf → Encodes net buf a k → HasBytes a
  unfolding address_bytes
  Encodes-HasBytes bytes (ipv4_form bs s rest hi lo len text eb ea ek) =
      rw (ea, strncpy-ntop net inet bs s len text)
        (
          bs,
          net.pton-ntop inet bs s len text,
          All-append-left IsByte bs _ (rw eb at bytes).1,
          omega (arith, len),
        )
  Encodes-HasBytes bytes (ipv6_form bs s rest hi lo len text eb ea ek) =
      rw (ea, strncpy-ntop net inet6 bs s len text)
        (
          bs,
          net.pton-ntop inet6 bs s len text,
          All-append-left IsByte bs _ (rw eb at bytes).1,
          omega (arith, len),
        )
  Encodes-HasBytes bytes (dns_form name rest hi lo eb ea ek) =
      let all = (rw eb at bytes).1 in
      let short : length name < 256 = all.0 in
      rw (ea, strncpy-eq_c_str 511 name (omega arith))
        (
          _,
          refl,
          (omega arith, c_str-IsByte name (All-append-left IsByte name _ all.1)),
          omega (arith, length-c_str-le name),
        )

  -- A header of bytes, behind which there is room for every payload.
  abbrev pub IsHeader : Addrport → Type 0
  IsHeader a =
      (h : List ℕ) × (udp_header net a ≡ some h)
      × All IsByte h
      × (length h + (2 ^ 16 - 1) ≤ udp_copy_buffer_size)

  framed-IsHeader : (a : Addrport) → IsWire net a → HasBytes a → IsHeader a
  unfolding udp_header
  framed-IsHeader a w (bs, e, all, short) =
      let small = w.small in
      rw (e, udp_header)
        (
          _,
          refl,
          (
            omega arith,
            (
              omega arith,
              (
                omega arith,
                (
                  type_value-IsByte a.type,
                  All-append IsByte bs _ all (omega (arith, small), (omega arith, tt)),
                ),
              ),
            ),
          ),
          omega (arith, length-append bs ((a.port / 2 ^ 8) ∷ (a.port % 2 ^ 8) ∷ [])),
        )

  -- Whatever address is read from a datagram of bytes is a printed IPv4 or IPv6 address or a name
  -- of less than 256 bytes without a zero, with a port of 16 bits, so that a header can be written
  -- for it. Each value that is stored in that header is a byte, and behind it the buffer of
  -- `copy_loop_udp` has room for the 65535 bytes that a payload may have.
  pub extract_udp_data-IsHeader :
      (buf : List ℕ) (a : Addrport) (k : ℕ)
      → All IsByte buf
      → extract_udp_data net buf ≡ ok (a, k)
      → IsWire net a × IsHeader a
  extract_udp_data-IsHeader buf a k bytes h =
      let (rest, j, eb, form, ek) = (extract_udp_data_iff net buf a k).0 h in
      let inner = (rw eb at bytes).1.1.1 in
      let wire = Encodes-IsWire net inner form in
      (wire, framed-IsHeader a wire (Encodes-HasBytes inner form))
