-- ===== src/Request/Grammar.antt =====
-- `parse_socks_request_header` accepts a CONNECT or a UDP ASSOCIATE of version 5, and nothing else.
use mathlib.Core.Path.{subst}
use two_socks.Prelude.{ℕ, ◌≡◌, ap, ◌∙◌, ◌↔◌, List, [], ◌∷◌, arith}
use two_socks.Codes.{Cmd, connect, udp_associate, cmd_value}
use two_socks.Platform.{Inet}
use two_socks.Buffer.{Result, ok, at, ◌>>=◌, >>=-eq-ok}
use two_socks.Addrport.{Addrport, parse_addrport}
use two_socks.Addrport.Grammar.{Encodes, parse_addrport_iff, parse_addrport_complete}
use two_socks.Request.{cmd_of, parse_request}

module _ (net : Inet) where
  -- A request of version 5 with a supported command, and the address that it names.
  abbrev pub IsRequest : List ℕ → Cmd → Addrport → Type 0
  IsRequest buf cmd a =
      (rest : List ℕ) × (k : ℕ) × (buf ≡ 5 ∷ cmd_value cmd ∷ 0 ∷ rest) × Encodes net rest a k

  abbrev with_cmd : Cmd → Addrport × ℕ → Result (Cmd × Addrport)
  with_cmd cmd (a, _) = ok (cmd, a)

  parse_request-prefix :
      (x y z : ℕ) (rest : List ℕ) {cmd : Cmd} {a : Addrport}
      → parse_request net (x ∷ y ∷ z ∷ rest) ≡ ok (cmd, a)
      → (x ≡ 5)
        × (y ≡ cmd_value (cmd_of y))
        × (z ≡ 0)
        × ((parse_addrport net rest >>= with_cmd (cmd_of y)) ≡ ok (cmd, a))
  unfolding parse_request at
  parse_request-prefix x y z rest h = (ground arith, ground arith, ground arith, ground arith)

  -- A packet is parsed as a request exactly when it has version 5, one of the two commands, a
  -- reserved byte of zero and then an address of one of the three forms; the command and the
  -- address that are returned are those of the packet.
  pub parse_request_iff :
      (buf : List ℕ) (cmd : Cmd) (a : Addrport)
      → (parse_request net buf ≡ ok (cmd, a)) ↔ IsRequest buf cmd a
  unfolding parse_request at
  parse_request_iff buf cmd a = (sound buf, complete cmd)
    where
      sound : (buf : List ℕ) → parse_request net buf ≡ ok (cmd, a) → IsRequest buf cmd a
      sound [] h = cc
      sound (x ∷ []) h = cc
      sound (x ∷ y ∷ []) h = cc
      sound (x ∷ y ∷ z ∷ rest) h =
          let (ex, ey, ez, e) = parse_request-prefix x y z rest h in
          let ((b, j), parsed, same) =
            >>=-eq-ok (parse_addrport net rest) (with_cmd (cmd_of y)) e in
          let eb : b ≡ a = cc in
          let ec : cmd_of y ≡ cmd = cc in
          (
            rest,
            j,
            ap (λ v. v ∷ y ∷ z ∷ rest) ex
                ∙ ap (λ v. 5 ∷ v ∷ z ∷ rest) (ey ∙ ap cmd_value ec)
                ∙ ap (λ v. 5 ∷ cmd_value cmd ∷ v ∷ rest) ez,
            subst (λ x. Encodes net rest x j) eb ((parse_addrport_iff net rest b j).0 parsed),
          )

      complete : (cmd : Cmd) → IsRequest buf cmd a → parse_request net buf ≡ ok (cmd, a)
      complete connect (rest, k, eb, form) =
          rw eb (ground (arith, parse_addrport_complete net form))
      complete udp_associate (rest, k, eb, form) =
          rw eb (ground (arith, parse_addrport_complete net form))
