-- ===== src/Destinations.antt =====
-- TwoSocks/microsocks/sockssrv.c: the destinations of a UDP association, kept in the list
-- `sock_list` and, from index 2 on, in the array `fds` that is given to `poll`.
pub mod Search
pub mod Removal
use two_socks.Prelude.{
  ℕ, zero, suc, ◌+◌, Bool, true, false, List, [], ◌∷◌, ◌++◌, Option, none, some, ◌==◌,
  if◌then◌else◌,
}
use two_socks.Codes.{ErrorCode, ConnectionState, udp}
use two_socks.Addrport.{Addrport, compare_socks5_addrport}
use two_socks.Sblist.{Sblist}
use two_socks.Os.{Os, Revents}
use two_socks.System.{Sys, sys_close, emit_addrport_connection_event}
use two_socks.Relay.{quiet}

-- `struct fd_socks5addr`
pub record Dest : Type 0 where
  pub fd : ℕ
  pub connection_id : ℕ
  pub addrport : Addrport

-- `struct pollfd`; `events` is POLLIN in every slot.
pub record Pollfd : Type 0 where
  pub fd : ℕ
  pub revents : Revents

-- The comparisons answer 0. Of the item that is searched for they read the descriptor, and the
-- address.
abbrev pub compare_fd_socks5addr_by_fd : ℕ → Dest → Bool
compare_fd_socks5addr_by_fd fd item2 = fd == item2.fd

abbrev pub compare_fd_socks5addr_by_addrport : Addrport → Dest → Bool
compare_fd_socks5addr_by_addrport a item2 = compare_socks5_addrport a item2.addrport

-- `udp_is_bound`, the list, the slots of the array from 2 up to `poll_fds`, and what is left in
-- `revents` of the slots behind that were once used.
pub record Assoc (L : Type 0) : Type 0 where
  pub bound : Bool
  pub dests : L
  pub live : List Pollfd
  pub stale : List Revents

abbrev pub polled : List Pollfd → List ℕ
polled [] = []
polled (p ∷ ps) = p.fd ∷ polled ps

-- `poll` writes the slots that it was given.
abbrev pub assign : List Pollfd → List Revents → List Pollfd
assign [] rs = []
assign (p ∷ ps) [] = record p { revents = quiet } ∷ assign ps []
assign (p ∷ ps) (r ∷ rs) = record p { revents = r } ∷ assign ps rs

abbrev pub last_revents : Revents → List Pollfd → Revents
last_revents r [] = r
last_revents r (p ∷ ps) = last_revents p.revents ps

-- The `memmove` over the first slot with the descriptor.
abbrev pub remove_first : ℕ → List Pollfd → List Pollfd
remove_first fd [] = []
remove_first fd (p ∷ ps) = if p.fd == fd then ps else p ∷ remove_first fd ps

abbrev pub is_polled : ℕ → List Pollfd → Bool
is_polled fd [] = false
is_polled fd (p ∷ ps) = if p.fd == fd then true else is_polled fd ps

abbrev pub first_stale : List Revents → Revents
first_stale [] = quiet
first_stale (r ∷ rs) = r

abbrev pub rest_stale : List Revents → List Revents
rest_stale [] = []
rest_stale (r ∷ rs) = rs

module _ {L : Type 0} where
  -- The last slot keeps its content, and is behind `poll_fds` afterwards.
  unfoldable pub remove_udp_pollfd : ℕ → Assoc L → Assoc L
  remove_udp_pollfd fd a =
      if is_polled fd a.live
      then record a { live = remove_first fd a.live; stale = last_revents quiet a.live ∷ a.stale }
      else a

  -- `fds[poll_fds].fd = fd; fds[poll_fds].events = POLLIN; poll_fds++`
  unfoldable pub add_udp_pollfd : ℕ → Assoc L → Assoc L
  add_udp_pollfd fd a = record a {
    live = a.live ++ record { fd = fd; revents = first_stale a.stale } ∷ [];
    stale = rest_stale a.stale;
  }

module _ {W L : Type 0} (os : Os W) (lib : Sblist Dest L) where
  -- `none` stands for an access behind the end of the list.
  unfoldable pub close_udp_destination :
      ℕ → ConnectionState → ErrorCode → Assoc L → Sys W → Option (Assoc L × Sys W)
  close_udp_destination i state code a s = elim (lib.get a.dests i) [
    | none ↦ none
    | some item ↦
        let a' = remove_udp_pollfd item.fd a in
        some (
          record a' { dests = lib.delete a.dests i },
          emit_addrport_connection_event item.connection_id udp state item.addrport code
              (sys_close os item.fd s),
        )
  ]
