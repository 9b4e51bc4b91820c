-- ===== src/Destinations/Removal.antt =====
-- What is left of the tables when a destination is closed.
use two_socks.Prelude.{
  ℕ, zero, suc, ◌≡◌, refl, ap, ◌∙◌, sym, Bool, true, false, List, [], ◌∷◌, ◌++◌, some, arith, inl,
  inr, get_elem?, length, Bool-cases, if◌then◌else◌,
}
use two_socks.Codes.{ErrorCode, ConnectionState, udp}
use two_socks.Platform.{Inet}
use two_socks.Sblist.{Sblist}
use two_socks.Os.{Os, Revents}
use two_socks.System.{
  Sys, Event, emitted, note, sys_close, emit_addrport_connection_event, emit_connection_event,
}
use two_socks.Destinations.{
  Dest, Pollfd, Assoc, polled, assign, remove_first, is_polled, remove_udp_pollfd,
  close_udp_destination,
}
use two_socks.Addrport.{Addrport}
use two_socks.Association.Spec.{shown, view, without, Step, drop_address, udp_event}

pub polled-assign : (ps : List Pollfd) (rs : List Revents) → polled (assign ps rs) ≡ polled ps
polled-assign [] rs = refl
polled-assign (p ∷ ps) [] = ap (λ r. p.fd ∷ r) (polled-assign ps [])
polled-assign (p ∷ ps) (r ∷ rs) = ap (λ r. p.fd ∷ r) (polled-assign ps rs)

pub polled-append : (ps qs : List Pollfd) → polled (ps ++ qs) ≡ polled ps ++ polled qs
polled-append [] qs = refl
polled-append (p ∷ ps) qs = ap (λ r. p.fd ∷ r) (polled-append ps qs)

pub length-polled : (ps : List Pollfd) → length (polled ps) ≡ length ps
length-polled [] = refl
length-polled (p ∷ ps) = ap suc (length-polled ps)

polled-remove_first :
    (fd : ℕ) (ps : List Pollfd) → polled (remove_first fd ps) ≡ without fd (polled ps)
polled-remove_first fd [] = refl
polled-remove_first fd (p ∷ ps) = ground (arith, polled-remove_first fd ps)

without-eq_self :
    (fd : ℕ) (ps : List Pollfd) → is_polled fd ps ≡ false → without fd (polled ps) ≡ polled ps
without-eq_self fd [] h = refl
without-eq_self fd (p ∷ ps) h = ground (arith, without-eq_self fd ps)

pub is_polled-get :
    (ps : List Pollfd) (i : ℕ) (p : Pollfd) → get_elem? ps i ≡ some p → is_polled p.fd ps ≡ true
is_polled-get [] i p h = cc
is_polled-get (q ∷ ps) zero p h = let same : q ≡ p = cc in rw same (ground arith)
is_polled-get (q ∷ ps) (suc i) p h = ground (arith, is_polled-get ps i p h)

length-remove_first :
    (fd : ℕ) (ps : List Pollfd)
    → is_polled fd ps ≡ true
    → suc (length (remove_first fd ps)) ≡ length ps
length-remove_first fd [] h = absurd (cc)
length-remove_first fd (p ∷ ps) h = ground (arith, length-remove_first fd ps)

module _ {L : Type 0} (fd : ℕ) (a : Assoc L) where
  pub polled-remove_udp_pollfd : polled (remove_udp_pollfd fd a).live ≡ without fd (polled a.live)
  unfolding remove_udp_pollfd
  polled-remove_udp_pollfd = elim (Bool-cases (is_polled fd a.live)) [
    | inl e ↦ rw (e, remove_udp_pollfd) (polled-remove_first fd a.live)
    | inr e ↦ rw (e, remove_udp_pollfd) (sym (without-eq_self fd a.live e))
  ]

  pub length-remove_udp_pollfd :
      is_polled fd a.live ≡ true → suc (length (remove_udp_pollfd fd a).live) ≡ length a.live
  unfolding remove_udp_pollfd
  length-remove_udp_pollfd e = rw (e, remove_udp_pollfd) (length-remove_first fd a.live e)

note_if :
    {W : Type 0} (b : Bool) (e : Event) (s : Sys W)
    → (if b then note (emitted e) s else s) ≡ record s { trace = shown b e s.trace }
note_if true e s = refl
note_if false e s = refl

-- What a report does to the state.
pub emit-shown :
    {W : Type 0} (id : ℕ) (state : ConnectionState) (addr : Addrport) (code : ErrorCode) (s : Sys W)
    → emit_addrport_connection_event id udp state addr code s
      ≡ record s { trace = shown s.handler (udp_event id addr state code) s.trace }
unfolding emit_addrport_connection_event emit_connection_event
emit-shown id state addr code s = note_if s.handler (udp_event id addr state code) s

-- A destination that is in the list can be closed, and closing it is a step of the machine. If its
-- descriptor is polled, there is one slot less.
pub record Closed {W L : Type 0} (os : Os W) (lib : Sblist Dest L) (i fd : ℕ) (code : ErrorCode)
    (a : Assoc L) (s : Sys W) : Type 0 where
  pub a' : Assoc L
  pub s' : Sys W
  pub result : close_udp_destination os lib i ConnectionState.failed code a s ≡ some (a', s')
  pub step : (net : Inet) (client : ℕ) → Step net client (view lib a s) (view lib a' s')
  pub shorter : is_polled fd a.live ≡ true → suc (length a'.live) ≡ length a.live

pub close_udp_destination-Closed :
    {W L : Type 0} (os : Os W) (lib : Sblist Dest L) (i : ℕ) (d : Dest) (code : ErrorCode)
    (a : Assoc L) (s : Sys W)
    → get_elem? (lib.items a.dests) i ≡ some d
    → Closed os lib i d.fd code a s
unfolding close_udp_destination
close_udp_destination-Closed os lib i d code a s at_i = record {
  a' = record (remove_udp_pollfd d.fd a) { dests = lib.delete a.dests i };
  s' =
      emit_addrport_connection_event d.connection_id udp ConnectionState.failed d.addrport code
        (sys_close os d.fd s);
  result = rw (lib.get_lem a.dests i ∙ at_i, close_udp_destination) refl;
  step = λ net client. drop_address i d code at_i (
      rw
        (
          emit-shown d.connection_id ConnectionState.failed d.addrport code (sys_close os d.fd s),
          lib.items-delete a.dests i,
          polled-remove_udp_pollfd d.fd a,
        )
        refl);
  shorter = λ h. length-remove_udp_pollfd d.fd a h;
}
