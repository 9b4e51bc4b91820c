-- ===== src/Tests/Packets.antt =====
-- Packets of the protocol, through the parsers and back.
use two_socks.Prelude.{
  ℕ, ◌≡◌, ◌≢◌, refl, true, List, [], ◌∷◌, Option, none, some, arith, length, take, All, ◌↔◌, ◌≤◌,
  ◌⊎◌, false,
}
use two_socks.Codes.{success, general_failure, connect, dns, AuthMethod, invalid}
use two_socks.Text.{IsByte, c_str}
use two_socks.SockAddr.{SockAddr, v4}
use two_socks.Buffer.{ok, fault}
use two_socks.Addrport.{Addrport, parse_addrport}
use two_socks.Addrport.Grammar.{
  parse_addrport_iff, parse_addrport-ne-fault, parse_addrport_in_bounds, Encodes,
}
use two_socks.Datagram.{udp_header, extract_udp_data}
use two_socks.Datagram.Grammar.{extract_udp_data_iff, extract_udp_data-ne-fault, IsDatagram}
use two_socks.Datagram.Wire.{IsWire, HasHeader, extract_udp_data-IsWire, extract-udp_header}
use two_socks.Datagram.Bytes.{IsHeader, extract_udp_data-IsHeader}
use two_socks.Datagram.RoundTrip.{udp_header-extract}
use two_socks.Request.Grammar.{parse_request_iff, IsRequest}
use two_socks.Request.{parse_request}
use two_socks.Auth.{Credentials, check_credentials, check_auth_method}
use two_socks.Auth.Methods.{IsFirst, Refuses, offered, check_auth_method_lem}
use two_socks.Auth.Password.{Login, verdict, check_credentials_lem, check_credentials-success_iff}
use two_socks.Whitelist.{
  is_in_authed_list, remember, is_in_authed_list_lem, remember_lem, is_known, Enters,
}
use two_socks.Reply.{send_response}
use two_socks.Reply.Reading.{IsReply, stored, send_response-IsReply}
use two_socks.Tests.Fixtures.{print_bytes, digits_inet, list_sblist, loopback}

-- The name "ab" and the port 80, with two more bytes behind.
abbrev named : List ℕ
named = 3 ∷ 2 ∷ b'a' ∷ b'b' ∷ 0 ∷ 80 ∷ 9 ∷ 9 ∷ []

abbrev site : Addrport
site = record { type = dns; addr = b'a' ∷ b'b' ∷ []; port = 80 }

abbrev datagram : List ℕ
datagram = 0 ∷ 0 ∷ 0 ∷ named

abbrev admin : Credentials
admin = record { user = b'u' ∷ []; pass = b'p' ∷ b'w' ∷ [] }

abbrev login : List ℕ
login = 1 ∷ 1 ∷ b'u' ∷ 2 ∷ b'p' ∷ b'w' ∷ []

named_parsed : parse_addrport digits_inet named ≡ ok (site, 6)
unfolding parse_addrport two_socks.Buffer.at two_socks.Addrport.parse_dns two_socks.Buffer.slice
    two_socks.Addrport.fill_addrport two_socks.Text.strncpy
named_parsed = refl

login_right : check_credentials admin login ≡ ok success
unfolding check_credentials two_socks.Buffer.at two_socks.Buffer.slice two_socks.Text.str_eq
    two_socks.Text.c_str
login_right = refl

datagram_read : extract_udp_data digits_inet datagram ≡ ok (site, 9)
unfolding extract_udp_data parse_addrport two_socks.Buffer.at two_socks.Addrport.parse_dns
    two_socks.Buffer.slice two_socks.Addrport.fill_addrport two_socks.Text.strncpy
datagram_read = refl

parse_addrport_iff_example :
    (parse_addrport digits_inet named ≡ ok (site, 6)) ↔ Encodes digits_inet named site 6
parse_addrport_iff_example = parse_addrport_iff digits_inet named site 6

parse_addrport-ne-fault_example : parse_addrport digits_inet (3 ∷ 200 ∷ 1 ∷ []) ≢ fault
parse_addrport-ne-fault_example = parse_addrport-ne-fault digits_inet (3 ∷ 200 ∷ 1 ∷ [])

parse_addrport_in_bounds_example : (4 ≤ 6) × (6 ≤ length named)
parse_addrport_in_bounds_example = parse_addrport_in_bounds digits_inet named site 6 named_parsed

extract_udp_data-ne-fault_example : extract_udp_data digits_inet (0 ∷ 0 ∷ 0 ∷ 3 ∷ 9 ∷ []) ≢ fault
extract_udp_data-ne-fault_example = extract_udp_data-ne-fault digits_inet (0 ∷ 0 ∷ 0 ∷ 3 ∷ 9 ∷ [])

extract_udp_data_iff_example :
    (extract_udp_data digits_inet datagram ≡ ok (site, 9)) ↔ IsDatagram digits_inet datagram site 9
extract_udp_data_iff_example = extract_udp_data_iff digits_inet datagram site 9

datagram_bytes : All IsByte datagram
datagram_bytes = (
  omega arith,
  (
    omega arith,
    (
      omega arith,
      (
        omega arith,
        (
          omega arith,
          (
            omega arith,
            (omega arith, (omega arith, (omega arith, (omega arith, (omega arith, tt))))),
          ),
        ),
      ),
    ),
  ),
)

extract_udp_data-IsHeader_example : IsWire digits_inet site × IsHeader digits_inet site
extract_udp_data-IsHeader_example =
    extract_udp_data-IsHeader digits_inet datagram site 9 datagram_bytes datagram_read

extract-udp_header_example : HasHeader digits_inet site
extract-udp_header_example =
    extract-udp_header digits_inet site
      (extract_udp_data-IsWire digits_inet datagram datagram_bytes datagram_read)

udp_header-extract_example : udp_header digits_inet site ≡ some (take 9 datagram)
udp_header-extract_example =
    udp_header-extract digits_inet datagram site 9 datagram_bytes datagram_read (λ e. refl)

parse_request_iff_example :
    (parse_request digits_inet (5 ∷ 1 ∷ 0 ∷ named) ≡ ok (connect, site))
    ↔ IsRequest digits_inet (5 ∷ 1 ∷ 0 ∷ named) connect site
parse_request_iff_example = parse_request_iff digits_inet (5 ∷ 1 ∷ 0 ∷ named) connect site

check_auth_method_lem_example :
    (m : AuthMethod) × (check_auth_method (some admin) false (5 ∷ 2 ∷ 0 ∷ 2 ∷ []) ≡ ok m)
    × ((◌≡◌ {A = ℕ} 5 5 × IsFirst (some admin) false m (offered (5 ∷ 2 ∷ 0 ∷ 2 ∷ [])))
        ⊎ ((m ≡ invalid)
            × (¬ (◌≡◌ {A = ℕ} 5 5)
                ⊎ All (Refuses (some admin) false) (offered (5 ∷ 2 ∷ 0 ∷ 2 ∷ [])))))
check_auth_method_lem_example = check_auth_method_lem (some admin) false 5 (2 ∷ 0 ∷ 2 ∷ [])

check_credentials_lem_example :
    ((l : Login login) × (check_credentials admin login ≡ ok (verdict admin l.name l.word)))
    ⊎ ((¬ Login login) × (check_credentials admin login ≡ ok general_failure))
check_credentials_lem_example = check_credentials_lem admin login

check_credentials-success_iff_example :
    (check_credentials admin login ≡ ok success)
    ↔ ((l : Login login) × (c_str l.name ≡ admin.user) × (c_str l.word ≡ admin.pass))
check_credentials-success_iff_example = check_credentials-success_iff admin login

is_in_authed_list_lem_example :
    is_in_authed_list (list_sblist SockAddr) (v4 (1 ∷ 2 ∷ 3 ∷ 4 ∷ []) 5 ∷ loopback ∷ []) loopback
    ≡ is_known (list_sblist SockAddr) loopback (v4 (1 ∷ 2 ∷ 3 ∷ 4 ∷ []) 5 ∷ loopback ∷ [])
is_in_authed_list_lem_example =
    is_in_authed_list_lem (list_sblist SockAddr) (v4 (1 ∷ 2 ∷ 3 ∷ 4 ∷ []) 5 ∷ loopback ∷ [])
      loopback

remember_lem_example :
    ((is_known (list_sblist SockAddr) loopback [] ≡ true)
      × (remember (list_sblist SockAddr) [] loopback ≡ []))
    ⊎ (((◌≡◌ {A = Option (List SockAddr)} (some (loopback ∷ [])) none)
          × (remember (list_sblist SockAddr) [] loopback ≡ []))
        ⊎ Enters (list_sblist SockAddr) [] loopback (remember (list_sblist SockAddr) [] loopback))
remember_lem_example = remember_lem (list_sblist SockAddr) [] loopback (λ e. cc)

send_response-IsReply_example :
    (r : List ℕ) × (send_response success loopback ≡ some r)
    × IsReply digits_inet success
        (stored digits_inet loopback (print_bytes (127 ∷ 0 ∷ 0 ∷ 1 ∷ [])))
        r
send_response-IsReply_example =
    send_response-IsReply digits_inet success loopback (print_bytes (127 ∷ 0 ∷ 0 ∷ 1 ∷ []))
      (refl, refl, omega arith)
