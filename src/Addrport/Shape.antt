-- ===== src/Addrport/Shape.antt =====
-- The three forms of an address on the wire, and what `parse_addrport` makes of each.
use two_socks.Prelude.{
  ℕ, ◌+◌, ◌-◌, ◌*◌, ◌%◌, ◌^◌, ◌≡◌, refl, sym, ap, ◌∙◌, append_assoc, List, [], ◌∷◌, ◌++◌, arith,
  length, length-append, inl, inr, Option-cases,
}
use two_socks.Codes.{AddrType, dns, general_failure, max_dns_len}
use two_socks.Text.{strncpy}
use two_socks.Platform.{Inet, Family, addr_size}
use two_socks.Buffer.{ok, ◌>>=◌, or_err, at, at-append-cons, slice, slice-append}
use two_socks.Addrport.{Addrport, fill_addrport, parse_ip, parse_dns}

abbrev pub port_of : ℕ → ℕ → ℕ
port_of hi lo = (hi * 2 ^ 8 + lo) % 2 ^ 16

-- What `fill_addrport` stores.
abbrev pub filled : AddrType → List ℕ → ℕ → ℕ → Addrport
filled type name hi lo = record {
  type = type;
  addr = strncpy max_dns_len name;
  port = port_of hi lo;
}

pub fill_addrport-filled :
    (type : AddrType) (name pre rest : List ℕ) (hi lo minlen : ℕ)
    → minlen ≡ length pre + 2
    → fill_addrport type name minlen (pre ++ hi ∷ lo ∷ rest) ≡ ok (filled type name hi lo, minlen)
unfolding fill_addrport
fill_addrport-filled type name pre rest hi lo minlen e =
    rw (at-append-cons pre hi (lo ∷ rest) (minlen - 2) (omega arith), second) refl
  where
    second : at (pre ++ hi ∷ lo ∷ rest) (minlen - 1) ≡ ok lo
    second =
        ap (λ r. at r (minlen - 1)) (sym (append_assoc pre (hi ∷ []) (lo ∷ rest)))
        ∙ at-append-cons (pre ++ hi ∷ []) lo rest (minlen - 1)
            (omega (arith, length-append pre (hi ∷ [])))

module _ (net : Inet) where
  -- An address of four or sixteen bytes.
  pub parse_ip-shape :
      (type : AddrType) (af : Family) (t : ℕ) (bs rest : List ℕ) (hi lo minlen : ℕ)
      → length bs ≡ addr_size af
      → minlen ≡ addr_size af + 3
      → parse_ip net type af minlen (t ∷ bs ++ hi ∷ lo ∷ rest)
        ≡ (or_err general_failure (net.ntop af bs) >>= λ name. ok (filled type name hi lo, minlen))
  unfolding parse_ip
  parse_ip-shape type af t bs rest hi lo minlen len e = elim (Option-cases (net.ntop af bs)) [
    | inl bad ↦ ground (arith, bad, read, length-append bs (hi ∷ lo ∷ rest))
    | inr (name, good) ↦ ground (
      arith,
      good,
      read,
      length-append bs (hi ∷ lo ∷ rest),
      fill_addrport-filled type name (t ∷ bs) rest hi lo minlen (omega arith),
    )
  ]
    where
      read : slice (t ∷ bs ++ hi ∷ lo ∷ rest) 1 (addr_size af) ≡ ok bs
      read = slice-append (t ∷ []) bs (hi ∷ lo ∷ rest) 1 (addr_size af) refl (sym len)

  -- A name, behind its length.
  pub parse_dns-shape :
      (t : ℕ) (name rest : List ℕ) (hi lo : ℕ)
      → parse_dns net (t ∷ length name ∷ name ++ hi ∷ lo ∷ rest)
        ≡ ok (filled dns name hi lo, length name + 4)
  unfolding parse_dns
  parse_dns-shape t name rest hi lo = ground (
    arith,
    length-append name (hi ∷ lo ∷ rest),
    at-append-cons (t ∷ []) (length name) (name ++ hi ∷ lo ∷ rest) 1 refl,
    slice-append (t ∷ length name ∷ []) name (hi ∷ lo ∷ rest) 2 (length name) refl refl,
    fill_addrport-filled dns name (t ∷ length name ∷ name) rest hi lo (1 + (1 + length name) + 2)
        (omega arith),
  )
