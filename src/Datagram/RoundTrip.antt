-- ===== src/Datagram/RoundTrip.antt =====
-- The header that is written for the address of a datagram is the header of that datagram.
use two_socks.Prelude.{
  ℕ, ◌+◌, ◌*◌, ◌%◌, ◌^◌, ◌<◌, ◌≡◌, refl, sym, ap, ◌∙◌, List, [], ◌∷◌, ◌++◌, append_assoc, some,
  arith, length, length-append, take, take-append, All, All-append-right,
}
use two_socks.Codes.{AddrType, ipv4, dns, ipv6, type_value}
use two_socks.Text.{IsByte, c_str_whole, strncpy, strncpy-eq_c_str}
use two_socks.Platform.{Inet, inet, inet6}
use two_socks.Buffer.{ok}
use two_socks.Addrport.{Addrport}
use two_socks.Addrport.Grammar.{Encodes, ipv4_form, ipv6_form, dns_form}
use two_socks.Datagram.{address_bytes, udp_header, extract_udp_data}
use two_socks.Datagram.Grammar.{extract_udp_data_iff}
use two_socks.Datagram.Wire.{framed, port_round, strncpy-ntop}

module _ (net : Inet) where
  -- A name was stored whole: it holds no zero byte.
  abbrev pub IsWhole : Addrport → ℕ → Type 0
  IsWhole a k = a.type ≡ dns → length a.addr + 7 ≡ k

  framed-take :
      (type : AddrType) (bytes rest : List ℕ) (hi lo n : ℕ)
      → hi < 256
      → lo < 256
      → n ≡ length bytes + 6
      → framed type bytes ((hi * 2 ^ 8 + lo) % 2 ^ 16)
        ≡ take n (0 ∷ 0 ∷ 0 ∷ type_value type ∷ bytes ++ hi ∷ lo ∷ rest)
  framed-take type bytes rest hi lo n hh hl e =
      rw ((port_round hi lo hh hl).0, (port_round hi lo hh hl).1)
        (sym (
          ap (take n) (sym (append_assoc pre (hi ∷ lo ∷ []) rest))
          ∙ take-append (pre ++ hi ∷ lo ∷ []) rest n
              (omega (arith, length-append bytes (hi ∷ lo ∷ [])))))
    where
      pre : List ℕ
      pre = 0 ∷ 0 ∷ 0 ∷ type_value type ∷ bytes

  port_bytes :
      (bytes rest : List ℕ) (hi lo : ℕ)
      → All IsByte (bytes ++ hi ∷ lo ∷ rest)
      → (hi < 256) × (lo < 256)
  port_bytes bytes rest hi lo h =
      let tail = All-append-right IsByte bytes (hi ∷ lo ∷ rest) h in (tail.0, tail.1.0)

  strncpy_whole :
      (name : List ℕ)
      → length name < 256
      → length (strncpy 511 name) + 7 ≡ 3 + (length name + 4)
      → strncpy 511 name ≡ name
  strncpy_whole name short kept =
      let cut = strncpy-eq_c_str 511 name (omega arith) in
      cut ∙ c_str_whole name (omega (arith, ap (length {A = ℕ}) cut))

  header-Encodes :
      {rest : List ℕ} {a : Addrport} {j : ℕ}
      → All IsByte rest
      → IsWhole a (3 + j)
      → Encodes net rest a j
      → udp_header net a ≡ some (take (3 + j) (0 ∷ 0 ∷ 0 ∷ rest))
  unfolding udp_header address_bytes
  header-Encodes bytes whole (ipv4_form bs s tail hi lo len text eb ea ek) =
      let (hh, hl) = port_bytes bs tail hi lo (rw eb at bytes).1 in
      rw (ea, eb, ek)
        (ground (
          arith,
          strncpy-ntop net inet bs s len text,
          net.pton-ntop inet bs s len text,
          framed-take ipv4 bs tail hi lo 10 hh hl (omega arith),
        ))
  header-Encodes bytes whole (ipv6_form bs s tail hi lo len text eb ea ek) =
      let (hh, hl) = port_bytes bs tail hi lo (rw eb at bytes).1 in
      rw (ea, eb, ek)
        (ground (
          arith,
          strncpy-ntop net inet6 bs s len text,
          net.pton-ntop inet6 bs s len text,
          framed-take ipv6 bs tail hi lo 22 hh hl (omega arith),
        ))
  header-Encodes bytes whole (dns_form name tail hi lo eb ea ek) =
      let all = rw eb at bytes in
      let (hh, hl) = port_bytes name tail hi lo all.1.1 in
      let kept : length (strncpy 511 name) + 7 ≡ 3 + (length name + 4) =
        (rw (ea, ek) at whole) refl in
      rw (ea, eb, ek)
        (ground (
          arith,
          strncpy_whole name all.1.0 kept,
          framed-take dns (length name ∷ name) tail hi lo (3 + (length name + 4)) hh hl
              (omega arith),
        ))

  -- The header that is sent back to the client for the address of its datagram is the header that
  -- the client sent, byte for byte, unless the datagram names a host with a zero byte.
  pub udp_header-extract :
      (buf : List ℕ) (a : Addrport) (k : ℕ)
      → All IsByte buf
      → extract_udp_data net buf ≡ ok (a, k)
      → IsWhole a k
      → udp_header net a ≡ some (take k buf)
  udp_header-extract buf a k bytes h whole =
      let (rest, j, eb, form, ek) = (extract_udp_data_iff net buf a k).0 h in
      rw (eb, ek) (header-Encodes (rw eb at bytes).1.1.1 (λ e. whole e ∙ ek) form)
