-- ===== src/Reply/Reading.antt =====
-- What the client reads of a reply that `send_response` wrote.
use two_socks.Prelude.{
  ℕ, ◌/◌, ◌%◌, ◌^◌, ◌<◌, ◌≡◌, refl, List, [], ◌∷◌, some, arith, length, take, drop, length-append,
}
use two_socks.Codes.{ErrorCode, error_value, version, rsv, ipv4, ipv6}
use two_socks.Platform.{Inet, inet, inet6}
use two_socks.SockAddr.{SockAddr, v4, v6, unspec}
use two_socks.Buffer.{ok}
use two_socks.Addrport.{Addrport, parse_addrport}
use two_socks.Addrport.Grammar.{ipv4_form, ipv6_form, parse_addrport_complete}
use two_socks.Datagram.Wire.{strncpy-ntop, filled_eq}
use two_socks.Reply.{send_response}

module _ (net : Inet) where
  -- The text `s` is the printed address of a socket, and its port has 16 bits.
  abbrev pub IsPrinted : SockAddr → List ℕ → Type 0
  IsPrinted (v4 bytes port) s =
      (length bytes ≡ 4) × (net.ntop inet bytes ≡ some s) × (port < 2 ^ 16)
  IsPrinted (v6 bytes port scope) s =
      (length bytes ≡ 16) × (net.ntop inet6 bytes ≡ some s) × (port < 2 ^ 16)
  IsPrinted unspec s = ⊥

  -- The address that a client would store for the socket.
  abbrev pub stored : SockAddr → List ℕ → Addrport
  stored (v4 bytes port) s = record { type = ipv4; addr = s; port = port }
  stored (v6 bytes port scope) s = record { type = ipv6; addr = s; port = port }
  stored unspec s = record { type = ipv4; addr = s; port = 0 }

  -- A reply whose first three bytes are the version, the code and zero, and whose rest is parsed
  -- as an address, to its end.
  abbrev pub IsReply : ErrorCode → Addrport → List ℕ → Type 0
  IsReply ec a r =
      (take 3 r ≡ version ∷ error_value ec ∷ rsv ∷ [])
      × (parse_addrport net (drop 3 r) ≡ ok (a, length (drop 3 r)))

  -- A reply that names the address of an IPv4 or IPv6 socket, whose bytes can be printed and whose
  -- port has 16 bits, can be written; it starts with the version, the code and a zero byte, and the
  -- parser of addresses reads the socket's address and port from the rest, to its end.
  pub send_response-IsReply :
      (ec : ErrorCode) (a : SockAddr) (s : List ℕ)
      → IsPrinted a s
      → (r : List ℕ) × (send_response ec a ≡ some r) × IsReply ec (stored a s) r
  unfolding send_response
  send_response-IsReply ec (v4 bytes port) s (len, text, small) = (
    _,
    refl,
    (
      refl,
      parse_addrport_complete net (
          ipv4_form bytes s [] (port / 2 ^ 8) (port % 2 ^ 8) len text refl
            (filled_eq net ipv4 s s port (strncpy-ntop net inet bytes s len text) small)
            (omega (arith, length-append bytes ((port / 2 ^ 8) ∷ (port % 2 ^ 8) ∷ [])))),
    ),
  )
  send_response-IsReply ec (v6 bytes port scope) s (len, text, small) = (
    _,
    refl,
    (
      refl,
      parse_addrport_complete net (
          ipv6_form bytes s [] (port / 2 ^ 8) (port % 2 ^ 8) len text refl
            (filled_eq net ipv6 s s port (strncpy-ntop net inet6 bytes s len text) small)
            (omega (arith, length-append bytes ((port / 2 ^ 8) ∷ (port % 2 ^ 8) ∷ [])))),
    ),
  )
  send_response-IsReply ec unspec s h = absurd h
