-- ===== src/Datagram/Wire.antt =====
-- An address that the parser stores, and the header that is written for it.
use two_socks.Prelude.{
  ℕ, ◌+◌, ◌*◌, ◌/◌, ◌%◌, ◌^◌, ◌<◌, ◌≡◌, refl, ap, List, [], ◌∷◌, ◌++◌, append_assoc, some, arith,
  length, length-append, All,
}
use two_socks.Codes.{AddrType, ipv4, dns, ipv6, type_value}
use two_socks.Text.{
  IsByte, IsNonzero, c_str-IsNonzero, length-c_str-le, strncpy, strncpy-eq_c_str, strncpy-eq_self,
}
use two_socks.Platform.{Inet, Family, inet, inet6, addr_size}
use two_socks.Buffer.{ok}
use two_socks.Addrport.{Addrport}
use two_socks.Addrport.Shape.{filled}
use two_socks.Addrport.Grammar.{Encodes, ipv4_form, ipv6_form, dns_form}
use two_socks.Datagram.{address_bytes, udp_header, extract_udp_data}
use two_socks.Datagram.Grammar.{extract_udp_data_iff}

pub port_round :
    (hi lo : ℕ)
    → hi < 256
    → lo < 256
    → ((hi * 2 ^ 8 + lo) % 2 ^ 16 / 2 ^ 8 ≡ hi) × ((hi * 2 ^ 8 + lo) % 2 ^ 16 % 2 ^ 8 ≡ lo)
port_round hi lo hh hl = omega arith

abbrev pub framed : AddrType → List ℕ → ℕ → List ℕ
framed type bytes port = 0 ∷ 0 ∷ 0 ∷ type_value type ∷ bytes ++ (port / 2 ^ 8) ∷ (port % 2 ^ 8) ∷ []

module _ (net : Inet) where
  -- A text that stands for an address of the type: what `inet_ntop` prints, or a name whose
  -- length fits a byte.
  abbrev pub IsAddressText : AddrType → List ℕ → Type 0
  IsAddressText ipv4 s = (bs : List ℕ) × (length bs ≡ 4) × (net.ntop inet bs ≡ some s)
  IsAddressText ipv6 s = (bs : List ℕ) × (length bs ≡ 16) × (net.ntop inet6 bs ≡ some s)
  IsAddressText dns s = (length s < 256) × All IsNonzero s

  pub record IsWire (a : Addrport) : Type 0 where
    pub text : IsAddressText a.type a.addr
    pub small : a.port < 2 ^ 16

  port_split : (p : ℕ) → p < 2 ^ 16 → (p / 2 ^ 8 * 2 ^ 8 + p % 2 ^ 8) % 2 ^ 16 ≡ p
  port_split p h = omega arith

  -- A printed address is stored whole.
  pub strncpy-ntop :
      (af : Family) (bs s : List ℕ)
      → length bs ≡ addr_size af
      → net.ntop af bs ≡ some s
      → strncpy 511 s ≡ s
  strncpy-ntop af bs s len text =
      strncpy-eq_self 511 s (omega (arith, net.ntop-short af bs s len text))
        (net.ntop-nonzero af bs s len text)

  pub Encodes-IsWire :
      {buf : List ℕ} {a : Addrport} {k : ℕ} → All IsByte buf → Encodes net buf a k → IsWire a
  Encodes-IsWire bytes (ipv4_form bs s rest hi lo len text eb ea ek) =
      rw ea (record {
        text = (bs, len, rw (strncpy-ntop inet bs s len text) text);
        small = omega arith;
      })
  Encodes-IsWire bytes (ipv6_form bs s rest hi lo len text eb ea ek) =
      rw ea (record {
        text = (bs, len, rw (strncpy-ntop inet6 bs s len text) text);
        small = omega arith;
      })
  Encodes-IsWire bytes (dns_form name rest hi lo eb ea ek) =
      let byte : length name < 256 = (rw eb at bytes).1.0 in
      rw ea (record {
        text =
            rw (strncpy-eq_c_str 511 name (omega arith))
              (omega (arith, length-c_str-le name), c_str-IsNonzero name);
        small = omega arith;
      })

  -- What is read from a packet of bytes can be sent back: an address that was printed from the
  -- packet, or a name of at most 255 characters; and a port of 16 bits.
  pub extract_udp_data-IsWire :
      (buf : List ℕ) {a : Addrport} {k : ℕ}
      → All IsByte buf
      → extract_udp_data net buf ≡ ok (a, k)
      → IsWire a
  extract_udp_data-IsWire buf {a} {k} bytes h =
      let (rest, j, eb, form, ek) = (extract_udp_data_iff net buf a k).0 h in
      Encodes-IsWire (rw eb at bytes).1.1.1 form

  -- A header that can be written, and is read back as the address, whatever follows it.
  abbrev pub HasHeader : Addrport → Type 0
  HasHeader a =
      (h : List ℕ) × (udp_header net a ≡ some h)
      × ((payload : List ℕ) → extract_udp_data net (h ++ payload) ≡ ok (a, length h))

  framed-extract :
      (type : AddrType) (bytes : List ℕ) (port : ℕ) (a : Addrport)
      → ((payload : List ℕ)
          → Encodes net
              (type_value type ∷ bytes ++ (port / 2 ^ 8) ∷ (port % 2 ^ 8) ∷ payload)
              a
              (length bytes + 3))
      → (payload : List ℕ)
      → extract_udp_data net (framed type bytes port ++ payload)
        ≡ ok (a, length (framed type bytes port))
  framed-extract type bytes port a form payload = (extract_udp_data_iff net _ a _).1 (
    _,
    _,
    ap (λ r. 0 ∷ 0 ∷ 0 ∷ type_value type ∷ r)
        (append_assoc bytes ((port / 2 ^ 8) ∷ (port % 2 ^ 8) ∷ []) payload),
    form payload,
    omega (arith, length-append bytes ((port / 2 ^ 8) ∷ (port % 2 ^ 8) ∷ [])),
  )

  pub filled_eq :
      (type : AddrType) (name addr : List ℕ) (port : ℕ)
      → strncpy 511 name ≡ addr
      → port < 2 ^ 16
      → record { type = type; addr = addr; port = port }
        ≡ filled type name (port / 2 ^ 8) (port % 2 ^ 8)
  filled_eq type name addr port e small = ground (arith, port_split port small)

  wire_header :
      (type : AddrType) (addr : List ℕ) (port : ℕ)
      → IsAddressText type addr
      → port < 2 ^ 16
      → HasHeader (record { type = type; addr = addr; port = port })
  unfolding udp_header address_bytes
  wire_header ipv4 addr port (bs, len, text) small = (
    framed ipv4 bs port,
    ground (arith, net.pton-ntop inet bs addr len text),
    framed-extract ipv4 bs port _ λ payload.
        ipv4_form bs addr payload _ _ len text refl
          (filled_eq ipv4 addr addr port (strncpy-ntop inet bs addr len text) small) (omega arith),
  )
  wire_header ipv6 addr port (bs, len, text) small = (
    framed ipv6 bs port,
    ground (arith, net.pton-ntop inet6 bs addr len text),
    framed-extract ipv6 bs port _ λ payload.
        ipv6_form bs addr payload _ _ len text refl
          (filled_eq ipv6 addr addr port (strncpy-ntop inet6 bs addr len text) small) (omega arith),
  )
  wire_header dns addr port (short, nonzero) small = (
    framed dns (length addr ∷ addr) port,
    ground arith,
    framed-extract dns (length addr ∷ addr) port _ λ payload.
        dns_form addr payload _ _ refl
          (filled_eq dns addr addr port (strncpy-eq_self 511 addr (omega arith) nonzero) small)
          (omega arith),
  )

  -- The header of an address can be written, and is read back as that address, with the offset at
  -- its end, whatever payload follows, if the address is a printed IPv4 or IPv6 address or a name
  -- of less than 256 bytes without a zero, and the port has 16 bits.
  pub extract-udp_header : (a : Addrport) → IsWire a → HasHeader a
  extract-udp_header a w = wire_header a.type a.addr a.port w.text w.small
