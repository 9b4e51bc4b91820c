-- ===== src/Tests/Threads.antt =====
-- Runs of the thread of a client.
use two_socks.Prelude.{◌∙◌, sym, ◌⊎◌, ℕ, ◌≡◌, ◌≢◌, refl, false, List, [], ◌∷◌, some, ap, take}
use two_socks.Codes.{ErrorCode, success, general_failure, SocksState, connected, dns}
use two_socks.SockAddr.{SockAddr}
use two_socks.Os.{got}
use two_socks.Buffer.{Result, ok}
use two_socks.System.Trace.{opens}
use two_socks.Auth.{Credentials, check_credentials}
use two_socks.Session.{Config, still_reading, session, clientthread, handle_connect, is_listed}
use two_socks.Session.Access.{clientthread-opens}
use two_socks.Session.Outcome.{Outcome, clientthread-Outcome}
use two_socks.Session.Admission.{MayPass, Admitted, clientthread-Admitted}
use two_socks.Session.Crowd.{Crowd, pass, passes}
use two_socks.Session.Crowd.Vouching.{Entitled}
use two_socks.Session.Crowd.Provenance.{passes-Entitled}
use two_socks.Session.Ending.{IsLeft, clientthread-closes}
use two_socks.Session.Handshake.{clientthread_enough}
use two_socks.Session.Events.{IsReported, handle_connect-IsReported}
use two_socks.Addrport.{Addrport}
use two_socks.Tests.Fixtures.{Script, digits_inet, lists, scripted, stubborn, start, loopback}

abbrev admin : Credentials
admin = record { user = b'u' ∷ []; pass = b'p' ∷ b'w' ∷ [] }

-- The server with a password.
abbrev server : Config
server = record { creds = some admin; client_fd = 4; client_addr = loopback; rounds = 9 }

-- A greeting, a login, a request for the port 80 of the address 1.2.3.4, and some data.
abbrev pub packets : Script
packets =
    (5 ∷ 1 ∷ 2 ∷ [])
    ∷ (1 ∷ 1 ∷ b'u' ∷ 2 ∷ b'p' ∷ b'w' ∷ [])
    ∷ (5 ∷ 1 ∷ 0 ∷ 1 ∷ 1 ∷ 2 ∷ 3 ∷ 4 ∷ 0 ∷ 80 ∷ [])
    ∷ (7 ∷ 7 ∷ [])
    ∷ []

refused : check_credentials admin (5 ∷ 1 ∷ 2 ∷ []) ≡ ok general_failure
unfolding check_credentials
refused = refl

wrong :
    (buf : List ℕ)
    → got (take 1024 (5 ∷ 1 ∷ 2 ∷ [])) ≡ got buf
    → check_credentials admin buf ≢ ok success
wrong buf e h =
    let same : 5 ∷ 1 ∷ 2 ∷ [] ≡ buf = cc in
    let passed : check_credentials admin (5 ∷ 1 ∷ 2 ∷ []) ≡ ok success =
      ap (check_credentials admin) same ∙ h in
    let failed : ◌≡◌ {A = Result ErrorCode} (ok general_failure) (ok success) =
      sym refused ∙ passed in
    cc

unknown : is_listed stubborn digits_inet lists server (some []) ≡ false
unfolding is_listed two_socks.Whitelist.is_in_authed_list two_socks.Whitelist.is_in_authed_from
unknown = refl

clientthread-opens_example :
    opens 7 (clientthread stubborn digits_inet lists server (some []) (start packets)).2.trace
    ≡ opens 7 (start packets).trace
clientthread-opens_example =
    clientthread-opens stubborn digits_inet lists server admin refl
      (λ w w' buf e. wrong buf (ap (λ r. r.0) e)) (some []) (start packets) 7 unknown

clientthread-closes_example :
    IsLeft {L = List SockAddr} scripted 4
      (start packets)
      (clientthread scripted digits_inet lists server (some []) (start packets))
clientthread-closes_example =
    clientthread-closes scripted digits_inet lists server (some []) (start packets)

clientthread-Outcome_example :
    let (e, ips, s) = clientthread scripted digits_inet lists server (some []) (start packets) in
    Outcome scripted digits_inet lists server (some []) [] e ips s
clientthread-Outcome_example =
    clientthread-Outcome scripted digits_inet lists server (some []) (start packets)

clientthread-Admitted_example :
    let (e, ips, s) = clientthread scripted digits_inet lists server (some []) (start packets) in
    ((fd : ℕ) → opens fd s.trace ≡ 0)
    ⊎ Admitted scripted digits_inet lists server
        (some [])
        []
        (MayPass scripted digits_inet lists server (some []) [])
        e
        s
clientthread-Admitted_example =
    clientthread-Admitted scripted digits_inet lists server (some []) (start packets)

clientthread_enough_example :
    (session scripted digits_inet lists server 5 connected (some []) (start packets)
      ≡ clientthread scripted digits_inet lists server (some []) (start packets))
    × ((state : SocksState)
        → (clientthread scripted digits_inet lists server (some []) (start packets)).0
          ≢ still_reading state)
clientthread_enough_example =
    clientthread_enough scripted digits_inet lists server 2 (some []) (start packets)

-- Every client has the address of the first, and a socket of its own.
abbrev servers : ℕ → Config
servers i = record server { client_fd = i }

abbrev arrival : Crowd Script (List SockAddr)
arrival = record {
  sys = start packets;
  ips = some [];
  exits = λ i. still_reading connected;
  heard = [];
}

passes-Entitled_example :
    let w = passes scripted digits_inet lists servers (5 ∷ 5 ∷ 6 ∷ []) arrival in
    ((fd : ℕ)
      → opens fd (pass scripted digits_inet lists servers 5 w).sys.trace ≡ opens fd w.sys.trace)
    ⊎ Entitled scripted digits_inet lists servers admin arrival 5 w.heard
passes-Entitled_example =
    passes-Entitled scripted digits_inet lists servers admin arrival (λ i. refl) (λ i. refl)
      (5 ∷ 5 ∷ 6 ∷ []) 5

-- The name "ab" and the port 80.
abbrev site : Addrport
site = record { type = dns; addr = b'a' ∷ b'b' ∷ []; port = 80 }

handle_connect-IsReported_example :
    IsReported scripted server [] 1 site
      (handle_connect scripted digits_inet lists server site loopback (start packets))
handle_connect-IsReported_example =
    handle_connect-IsReported scripted digits_inet lists server site loopback (start packets) refl
