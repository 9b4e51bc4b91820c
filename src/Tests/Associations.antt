-- ===== src/Tests/Associations.antt =====
-- Runs of the relay of a UDP association.
use two_socks.Prelude.{◌+◌, ◌≤◌, ◌≡◌, refl, true, [], ◌∷◌, List, arith}
use two_socks.System.{Sys, note, opened}
use two_socks.Association.{Udp, ended, copy_loop_udp, udp_round}
use two_socks.Association.Sound.{IsAssociation, copy_loop_udp-IsAssociation}
use two_socks.Association.Faithful.{IsFaithfulAfter, copy_loop_udp-IsFaithful}
use two_socks.Association.Identifiers.{endings, openings, taken_between, copy_loop_udp-endings}
use two_socks.Association.Invariant.{IsKeptAfter, udp_round-IsKept}
use two_socks.Association.Lookup.{Passes, scan-Passes}
use two_socks.Association.{scan}
use two_socks.Association.Tables.{IsTracked, start-IsTracked}
use two_socks.Association.Spec.{view}
use two_socks.Destinations.{Dest, Assoc, compare_fd_socks5addr_by_fd}
use two_socks.Addrport.{Addrport}
use two_socks.Codes.{ipv4}
use two_socks.Tests.Fixtures.{Script, digits_inet, scripted, talkative, start, lists, readable}

-- A datagram for the port 80 of the address 1.2.3.4, a second one, and one without a header.
abbrev datagrams : Script
datagrams =
    (0 ∷ 0 ∷ 0 ∷ 1 ∷ 1 ∷ 2 ∷ 3 ∷ 4 ∷ 0 ∷ 80 ∷ 7 ∷ 7 ∷ [])
    ∷ (0 ∷ 0 ∷ 0 ∷ 1 ∷ 1 ∷ 2 ∷ 3 ∷ 4 ∷ 0 ∷ 80 ∷ 9 ∷ [])
    ∷ []

abbrev relayed : Udp × Sys Script
relayed = copy_loop_udp talkative digits_inet lists.destinations 5 4 6 (start datagrams)

copy_loop_udp-IsAssociation_example :
    IsAssociation talkative digits_inet lists.destinations 6 (start datagrams) relayed
copy_loop_udp-IsAssociation_example =
    copy_loop_udp-IsAssociation talkative digits_inet lists.destinations 5 4 6 (start datagrams)

copy_loop_udp-IsFaithful_example : IsFaithfulAfter digits_inet 6 (start datagrams) relayed
copy_loop_udp-IsFaithful_example =
    copy_loop_udp-IsFaithful talkative digits_inet lists.destinations 5 4 6 (start datagrams)

abbrev site : Addrport
site = record { type = ipv4; addr = 1 ∷ 2 ∷ []; port = 80 }

-- The tables of a new association, and those with one destination.
abbrev empty : Assoc (List Dest)
empty = record { bound = true; dests = []; live = []; stale = [] }

abbrev one_destination : Assoc (List Dest)
one_destination = record {
  bound = true;
  dests = record { fd = 7; connection_id = 1; addrport = site } ∷ [];
  live = record { fd = 7; revents = readable } ∷ [];
  stale = [];
}

udp_round-IsKept_example :
    IsKeptAfter lists.destinations []
      (udp_round talkative digits_inet lists.destinations 4 6 empty (start datagrams))
udp_round-IsKept_example =
    udp_round-IsKept talkative digits_inet lists.destinations [] 4 6 empty (start datagrams)
      (start-IsTracked (start datagrams), tt)

abbrev one_socket : Sys Script
one_socket = note (opened 7) (start datagrams)

one_destination-IsTracked : IsTracked [] (view lists.destinations one_destination one_socket)
one_destination-IsTracked = record {
  tracked = λ fd. refl;
  balance = λ fd. omega arith;
  room = omega arith;
}

scan-Passes_example :
    Passes scripted digits_inet lists.destinations 6
      (scan scripted digits_inet lists.destinations 1 6 0 one_destination one_socket)
      0
      one_destination
      one_socket
scan-Passes_example =
    scan-Passes scripted digits_inet lists.destinations 6 [] 1 0 one_destination one_socket
      (omega arith) one_destination-IsTracked

-- It ends with the third.
relayed_ended : relayed ≡ (ended, relayed.1)
unfolding copy_loop_udp two_socks.Association.start_association two_socks.Association.udp_rounds
    two_socks.Association.udp_round two_socks.Association.udp_ready two_socks.Association.scan
    two_socks.Association.visit two_socks.Association.visit_found two_socks.Association.udp_loop_end
    two_socks.Association.close_all two_socks.Association.report_all two_socks.Forward.from_client
    two_socks.Forward.receive_client two_socks.Forward.bind_client two_socks.Forward.handle_datagram
    two_socks.Forward.to_destination two_socks.Forward.new_destination
    two_socks.Forward.open_destination two_socks.Forward.connect_destination two_socks.Forward.track
    two_socks.Forward.send_to two_socks.Destinations.add_udp_pollfd
    two_socks.Datagram.extract_udp_data two_socks.Addrport.parse_addrport
    two_socks.Addrport.parse_ip two_socks.Addrport.fill_addrport two_socks.Buffer.at
    two_socks.Buffer.slice two_socks.Text.c_str two_socks.Text.strncpy two_socks.Text.str_eq
    two_socks.Addrport.compare_socks5_addrport two_socks.Resolve.resolve
    two_socks.Resolve.resolve_socks5_addrport two_socks.Relay.poll_revents_have_error
    two_socks.Relay.poll_revents_have_hangup two_socks.System.next_connection_identifier
    two_socks.System.record_uploaded_bytes two_socks.System.emit_addrport_connection_event
relayed_ended = refl

copy_loop_udp-endings_example :
    (endings 1 relayed.1.trace ≡ endings 1 [] + taken_between 1 relayed.1.next_identifier 1)
    × (openings 1 relayed.1.trace ≤ openings 1 [] + taken_between 1 relayed.1.next_identifier 1)
copy_loop_udp-endings_example =
    copy_loop_udp-endings talkative digits_inet lists.destinations 5 4 6 (start datagrams) relayed.1
      1 refl relayed_ended
