-- ===== src/Addrport/Grammar.antt =====
-- `parse_addrport` accepts the three forms of RFC 1928 and nothing else.
use two_socks.Prelude.{
  ℕ, ◌+◌, ◌≤◌, ◌≡◌, ◌≢◌, refl, sym, ap, ◌∙◌, ◌⊎◌, ◌↔◌, inl, inr, Option-cases, Bool-cases, List, [],
  ◌∷◌, ◌++◌, some, arith, length, length-append, split_two, ltb, ◌==◌, ==_iff,
}
use two_socks.Codes.{AddrType, ipv4, dns, ipv6, general_failure, addresstype_not_supported}
use two_socks.Platform.{Inet, Family, inet, inet6, addr_size}
use two_socks.Buffer.{Result, ok, err, fault, ◌>>=◌, or_err, at, at-append-cons}
use two_socks.Addrport.{Addrport, parse_ip, parse_dns, parse_addrport}
use two_socks.Addrport.Shape.{filled, parse_ip-shape, parse_dns-shape}

-- The bytes begin with the address `a`, which takes `k` of them.
pub data Encodes (net : Inet) (buf : List ℕ) (a : Addrport) (k : ℕ) : Type 0 where
  ipv4_form :
      (bs s rest : List ℕ) (hi lo : ℕ)
      → length bs ≡ 4
      → net.ntop inet bs ≡ some s
      → buf ≡ 1 ∷ bs ++ hi ∷ lo ∷ rest
      → a ≡ filled ipv4 s hi lo
      → k ≡ 7
      → Encodes net buf a k
  ipv6_form :
      (bs s rest : List ℕ) (hi lo : ℕ)
      → length bs ≡ 16
      → net.ntop inet6 bs ≡ some s
      → buf ≡ 4 ∷ bs ++ hi ∷ lo ∷ rest
      → a ≡ filled ipv6 s hi lo
      → k ≡ 19
      → Encodes net buf a k
  dns_form :
      (name rest : List ℕ) (hi lo : ℕ)
      → buf ≡ 3 ∷ length name ∷ name ++ hi ∷ lo ∷ rest
      → a ≡ filled dns name hi lo
      → k ≡ length name + 4
      → Encodes net buf a k

module _ (net : Inet) where
  -- A form on the wire is parsed as what it stands for.
  pub parse_addrport_complete :
      {buf : List ℕ} {a : Addrport} {k : ℕ}
      → Encodes net buf a k
      → parse_addrport net buf ≡ ok (a, k)
  unfolding parse_addrport
  parse_addrport_complete (ipv4_form bs s rest hi lo len text eb ea ek) =
      rw (eb, ea, ek)
        (ground (
          arith,
          text,
          at-append-cons [] 1 (bs ++ hi ∷ lo ∷ rest) 0 refl,
          length-append bs (hi ∷ lo ∷ rest),
          parse_ip-shape net ipv4 inet 1 bs rest hi lo 7 len refl,
        ))
  parse_addrport_complete (ipv6_form bs s rest hi lo len text eb ea ek) =
      rw (eb, ea, ek)
        (ground (
          arith,
          text,
          at-append-cons [] 4 (bs ++ hi ∷ lo ∷ rest) 0 refl,
          length-append bs (hi ∷ lo ∷ rest),
          parse_ip-shape net ipv6 inet6 4 bs rest hi lo 19 len refl,
        ))
  parse_addrport_complete (dns_form name rest hi lo eb ea ek) =
      rw (eb, ea, ek)
        (ground (
          arith,
          at-append-cons [] 3 (length name ∷ name ++ hi ∷ lo ∷ rest) 0 refl,
          parse_dns-shape net 3 name rest hi lo,
        ))

  -- A packet that holds an address of `af` and a port behind its type byte.
  record IpPacket (type : AddrType) (af : Family) (minlen t : ℕ) (xs : List ℕ) : Type 0 where
    bs : List ℕ
    s : List ℕ
    rest : List ℕ
    hi : ℕ
    lo : ℕ
    sized : length bs ≡ addr_size af
    text : net.ntop af bs ≡ some s
    bytes : t ∷ xs ≡ t ∷ bs ++ hi ∷ lo ∷ rest
    parsed : parse_ip net type af minlen (t ∷ xs) ≡ ok (filled type s hi lo, minlen)

  module _ (type : AddrType) (af : Family) (minlen t : ℕ) (e : minlen ≡ addr_size af + 3) where
    parse_ip-split :
        (bs rest : List ℕ) (hi lo : ℕ) {xs : List ℕ}
        → length bs ≡ addr_size af
        → xs ≡ bs ++ hi ∷ lo ∷ rest
        → (parse_ip net type af minlen (t ∷ xs) ≡ err general_failure)
          ⊎ IpPacket type af minlen t xs
    parse_ip-split bs rest hi lo {xs} len ex = elim (Option-cases (net.ntop af bs)) [
      | inl bad ↦ inl (shaped ∙ ground (arith, bad))
      | inr (s, good) ↦ inr (record {
        bs = bs;
        s = s;
        rest = rest;
        hi = hi;
        lo = lo;
        sized = len;
        text = good;
        bytes = ap (λ r. t ∷ r) ex;
        parsed = shaped ∙ ground (arith, good);
      })
    ]
      where
        shaped : parse_ip net type af minlen (t ∷ xs) ≡ (
            or_err general_failure (net.ntop af bs) >>= λ name. ok (filled type name hi lo, minlen))
        shaped = rw ex (parse_ip-shape net type af t bs rest hi lo minlen len e)

    parse_ip-cases :
        (xs : List ℕ)
        → (parse_ip net type af minlen (t ∷ xs) ≡ err general_failure)
          ⊎ IpPacket type af minlen t xs
    unfolding parse_ip
    parse_ip-cases xs = elim (Bool-cases (ltb (length (t ∷ xs)) minlen)) [
      | inl short ↦ inl (ground (arith, short))
      | inr long ↦
          let (bs, hi, lo, rest, len, ex) = split_two (addr_size af) xs (ground (arith, long)) in
          parse_ip-split bs rest hi lo len ex
    ]

  parse_dns-cases :
      (l : ℕ) (xs : List ℕ)
      → (parse_dns net (3 ∷ l ∷ xs) ≡ err general_failure)
        ⊎ ((a : Addrport) × (k : ℕ) × Encodes net (3 ∷ l ∷ xs) a k)
  unfolding parse_dns
  parse_dns-cases l xs = elim (Bool-cases (ltb (length (3 ∷ l ∷ xs)) (1 + (1 + l) + 2))) [
    | inl short ↦ inl (ground (arith, short, at-append-cons (3 ∷ []) l xs 1 refl))
    | inr long ↦
        let (name, hi, lo, rest, len, ex) = split_two l xs (ground (arith, long)) in
        inr (
          _,
          _,
          dns_form name rest hi lo
              (ap (λ r. 3 ∷ l ∷ r) ex ∙ ap (λ m. 3 ∷ m ∷ name ++ hi ∷ lo ∷ rest) (sym len)) refl
              refl,
        )
  ]

  -- The three outcomes of the parser; there is no fourth, an access past the received bytes.
  pub data Outcome (buf : List ℕ) : Type 0 where
    parses : (a : Addrport) (k : ℕ) → Encodes net buf a k → Outcome buf
    malformed : parse_addrport net buf ≡ err general_failure → Outcome buf
    unsupported :
        (t : ℕ) (xs : List ℕ)
        → buf ≡ t ∷ xs
        → t ≢ 1
        → t ≢ 3
        → t ≢ 4
        → parse_addrport net buf ≡ err addresstype_not_supported
        → Outcome buf

  parse_addrport-Outcome_long : (t l : ℕ) (xs : List ℕ) → Outcome (t ∷ l ∷ xs)
  unfolding parse_addrport at
  parse_addrport-Outcome_long t l xs = elim (Bool-cases (t == 4)) [
    | inl is4 ↦ elim (parse_ip-cases ipv6 inet6 19 4 refl (l ∷ xs)) [
      | inl bad ↦ malformed (rw ((==_iff t 4).0 is4) (ground (arith, bad)))
      | inr p ↦ parses (filled ipv6 p.s p.hi p.lo) 19 (
          rw ((==_iff t 4).0 is4)
            (ipv6_form p.bs p.s p.rest p.hi p.lo p.sized p.text p.bytes refl refl))
    ]
    | inr not4 ↦ elim (Bool-cases (t == 1)) [
      | inl is1 ↦ elim (parse_ip-cases ipv4 inet 7 1 refl (l ∷ xs)) [
        | inl bad ↦ malformed (rw ((==_iff t 1).0 is1) (ground (arith, bad)))
        | inr p ↦ parses (filled ipv4 p.s p.hi p.lo) 7 (
            rw ((==_iff t 1).0 is1)
              (ipv4_form p.bs p.s p.rest p.hi p.lo p.sized p.text p.bytes refl refl))
      ]
      | inr not1 ↦ elim (Bool-cases (t == 3)) [
        | inl is3 ↦ elim (parse_dns-cases l xs) [
          | inl bad ↦ malformed (rw ((==_iff t 3).0 is3) (ground (arith, bad)))
          | inr (a, k, form) ↦ parses a k (rw ((==_iff t 3).0 is3) form)
        ]
        | inr not3 ↦
            unsupported t (l ∷ xs) refl (ground arith) (ground arith) (ground arith) (ground arith)
      ]
    ]
  ]

  pub parse_addrport-Outcome : (buf : List ℕ) → Outcome buf
  unfolding parse_addrport
  parse_addrport-Outcome [] = malformed refl
  parse_addrport-Outcome (t ∷ []) = malformed refl
  parse_addrport-Outcome (t ∷ l ∷ xs) = parse_addrport-Outcome_long t l xs

  -- A packet is accepted exactly when it begins with an address of one of the three forms, and the
  -- value and the length that the parser returns are those of that form.
  pub parse_addrport_iff :
      (buf : List ℕ) (a : Addrport) (k : ℕ)
      → (parse_addrport net buf ≡ ok (a, k)) ↔ Encodes net buf a k
  parse_addrport_iff buf a k = (sound (parse_addrport-Outcome buf), parse_addrport_complete)
    where
      sound : Outcome buf → parse_addrport net buf ≡ ok (a, k) → Encodes net buf a k
      sound (parses b j form) h =
          let same : ◌≡◌ {A = Result (Addrport × ℕ)} (ok (b, j)) (ok (a, k)) =
            sym (parse_addrport_complete form) ∙ h in
          let ea : b ≡ a = cc in let ek : j ≡ k = cc in rw (← ea, ← ek) form
      sound (malformed bad) h = cc
      sound (unsupported t xs eb h1 h3 h4 bad) h = cc

  -- The parser never reads past the received bytes, whatever they are.
  pub parse_addrport-ne-fault : (buf : List ℕ) → parse_addrport net buf ≢ fault
  parse_addrport-ne-fault buf = no_fault (parse_addrport-Outcome buf)
    where
      no_fault : Outcome buf → parse_addrport net buf ≢ fault
      no_fault (parses b j form) h = let e = parse_addrport_complete form in cc
      no_fault (malformed bad) h = cc
      no_fault (unsupported t xs eb h1 h3 h4 bad) h = cc

  -- What the parser takes of the received bytes is at least the type, a byte and the port, and no
  -- more than there is.
  pub parse_addrport_in_bounds :
      (buf : List ℕ) (a : Addrport) (k : ℕ)
      → parse_addrport net buf ≡ ok (a, k)
      → (4 ≤ k) × (k ≤ length buf)
  parse_addrport_in_bounds buf a k h = within ((parse_addrport_iff buf a k).0 h)
    where
      within : {a : Addrport} {k : ℕ} → Encodes net buf a k → (4 ≤ k) × (k ≤ length buf)
      within (ipv4_form bs s rest hi lo len text eb ea ek) =
          rw (eb, ek) (omega (arith, length-append bs (hi ∷ lo ∷ rest)))
      within (ipv6_form bs s rest hi lo len text eb ea ek) =
          rw (eb, ek) (omega (arith, length-append bs (hi ∷ lo ∷ rest)))
      within (dns_form name rest hi lo eb ea ek) =
          rw (eb, ek) (omega (arith, length-append name (hi ∷ lo ∷ rest)))
