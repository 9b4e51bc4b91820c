-- ===== src/Datagram/Grammar.antt =====
-- `extract_udp_data` accepts a prefix of three zeros and an address, and nothing else.
use mathlib.Core.Path.{subst}
use two_socks.Prelude.{refl, ◌≢◌, ℕ, ◌+◌, ◌≡◌, ◌↔◌, List, [], ◌∷◌, arith}
use two_socks.Platform.{Inet}
use two_socks.Buffer.{Result, ok, err, fault, at, ◌>>=◌, >>=-eq-ok}
use two_socks.Addrport.{Addrport, parse_addrport}
use two_socks.Addrport.Grammar.{
  Encodes, parse_addrport_iff, parse_addrport_complete, parse_addrport-ne-fault,
}
use two_socks.Datagram.{extract_udp_data}

module _ (net : Inet) where
  -- The prefix of three zeros, then an address, is all that is accepted.
  abbrev pub IsDatagram : List ℕ → Addrport → ℕ → Type 0
  IsDatagram buf a k =
      (rest : List ℕ) × (j : ℕ) × (buf ≡ 0 ∷ 0 ∷ 0 ∷ rest) × Encodes net rest a j × (k ≡ 3 + j)

  abbrev behind_prefix : Addrport × ℕ → Result (Addrport × ℕ)
  behind_prefix (a, taken) = ok (a, 3 + taken)

  extract_udp_data-prefix :
      (x y z : ℕ) (rest : List ℕ) {a : Addrport} {k : ℕ}
      → extract_udp_data net (x ∷ y ∷ z ∷ rest) ≡ ok (a, k)
      → (x ≡ 0) × (y ≡ 0) × (z ≡ 0) × ((parse_addrport net rest >>= behind_prefix) ≡ ok (a, k))
  unfolding extract_udp_data at
  extract_udp_data-prefix x y z rest h = (ground arith, ground arith, ground arith, ground arith)

  -- A datagram is accepted exactly when it begins with two reserved bytes and a fragment number of
  -- zero and then an address of one of the three forms; the address returned is that one, and the
  -- offset is where it ends.
  pub extract_udp_data_iff :
      (buf : List ℕ) (a : Addrport) (k : ℕ)
      → (extract_udp_data net buf ≡ ok (a, k)) ↔ IsDatagram buf a k
  unfolding extract_udp_data at
  extract_udp_data_iff buf a k = (sound buf, complete)
    where
      sound : (buf : List ℕ) → extract_udp_data net buf ≡ ok (a, k) → IsDatagram buf a k
      sound [] h = cc
      sound (x ∷ []) h = cc
      sound (x ∷ y ∷ []) h = cc
      sound (x ∷ y ∷ z ∷ rest) h =
          let (ex, ey, ez, e) = extract_udp_data-prefix x y z rest h in
          let ((b, j), parsed, same) = >>=-eq-ok (parse_addrport net rest) behind_prefix e in
          let eb : b ≡ a = cc in
          let ek : k ≡ 3 + j = cc in
          (
            rest,
            j,
            rw (ex, ey, ez),
            subst (λ x. Encodes net rest x j) eb ((parse_addrport_iff net rest b j).0 parsed),
            ek,
          )

      complete : IsDatagram buf a k → extract_udp_data net buf ≡ ok (a, k)
      complete (rest, j, eb, form, ek) =
          rw (eb, ek) (ground (arith, parse_addrport_complete net form))

-- Whatever bytes a datagram has, and however few, `extract_udp_data` reads none behind them.
pub extract_udp_data-ne-fault : (net : Inet) (buf : List ℕ) → extract_udp_data net buf ≢ fault
unfolding extract_udp_data at
extract_udp_data-ne-fault net [] h = cc
extract_udp_data-ne-fault net (x ∷ []) h = cc
extract_udp_data-ne-fault net (x ∷ y ∷ []) h = cc
extract_udp_data-ne-fault net (x ∷ y ∷ z ∷ rest) h = go (parse_addrport net rest) refl
  where
    go : (r : Result (Addrport × ℕ)) → parse_addrport net rest ≡ r → ⊥
    go fault e = parse_addrport-ne-fault net rest e
    go (err c) e = ground (arith, e)
    go (ok (a, k)) e = ground (arith, e)
