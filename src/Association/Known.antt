-- ===== src/Association/Known.antt =====
-- Every destination of an association has an address that the client named in a datagram, so a
-- header can be written for it.
use two_socks.Prelude.{
  ◌∙◌, some_inj, sym, zero, suc, All, get_elem?, length, ℕ, ◌≡◌, Bool, true, false, List, [], ◌∷◌,
  ◌++◌, some,
}
use two_socks.Platform.{Inet}
use two_socks.Buffer.{ok}
use two_socks.Addrport.{Addrport}
use two_socks.Datagram.{extract_udp_data, udp_header}
use two_socks.System.{Event, Effect, emitted}
use two_socks.Destinations.{Dest}
use mathlib.Core.Path.{subst}
use two_socks.Datagram.Wire.{HasHeader, extract-udp_header, extract_udp_data-IsWire}
use two_socks.Association.Distinct.{All-snoc, All-erase_idx}
use two_socks.Association.Spec.{
  IsNamed, in_newest, in_earlier, View, shown, Step, transfer, probe, refuse_address,
  turn_away_address, add_address, drop_address,
}

-- The client has named the address of every destination.
abbrev pub IsKnown : Inet → ℕ → List Effect → List Dest → Type 0
IsKnown net client t ds = All (λ d. IsNamed net client d.addrport t) ds

module _ (net : Inet) (client : ℕ) where
  later-IsKnown :
      (e : Effect) (t : List Effect) (ds : List Dest)
      → IsKnown net client t ds
      → IsKnown net client (e ∷ t) ds
  later-IsKnown e t [] h = tt
  later-IsKnown e t (d ∷ ds) h = (in_earlier h.0, later-IsKnown e t ds h.1)

  shown-IsKnown :
      (h : Bool) (e : Event) (t : List Effect) (ds : List Dest)
      → IsKnown net client t ds
      → IsKnown net client (shown h e t) ds
  shown-IsKnown true e t ds k = later-IsKnown (emitted e) t ds k
  shown-IsKnown false e t ds k = k

  pub Step-IsKnown :
      {x y : View}
      → Step net client x y
      → IsKnown net client x.trace x.dests
      → IsKnown net client y.trace y.dests
  Step-IsKnown {x} (transfer e k due eq) h = rw eq (later-IsKnown e x.trace x.dests h)
  Step-IsKnown {x} (probe fd eq) h =
      rw eq (later-IsKnown _ _ x.dests (later-IsKnown _ x.trace x.dests h))
  Step-IsKnown {x} (refuse_address addr code eq) h =
      rw eq (shown-IsKnown x.handler _ x.trace x.dests h)
  Step-IsKnown {x} (turn_away_address fd target addr code eq) h = rw eq (
      shown-IsKnown x.handler _ _ x.dests
        (later-IsKnown _ _ x.dests (later-IsKnown _ _ x.dests (later-IsKnown _ x.trace x.dests h))))
  Step-IsKnown {x} (add_address fd target addr new room named eq) h = rw eq (
      shown-IsKnown x.handler _ _ _
        (later-IsKnown _ _ _ (later-IsKnown _ x.trace _ (All-snoc _ x.dests _ h named))))
  Step-IsKnown {x} (drop_address i d code at_i eq) h =
      rw eq
        (shown-IsKnown x.handler _ _ _ (later-IsKnown _ x.trace _ (All-erase_idx _ x.dests i h)))

  pub get-IsNamed :
      (t : List Effect) (ds : List Dest) (i : ℕ) (d : Dest)
      → IsKnown net client t ds
      → get_elem? ds i ≡ some d
      → IsNamed net client d.addrport t
  get-IsNamed t [] i d h e = absurd (cc)
  get-IsNamed t (x ∷ ds) zero d h e =
      let same : x ≡ d = cc in subst (λ q. IsNamed net client q.addrport t) same h.0
  get-IsNamed t (x ∷ ds) (suc i) d h e = get-IsNamed t ds i d h.1 e

  -- An address that the client has named can be written into a header and is read back from it.
  pub IsNamed-HasHeader :
      {addr : Addrport} {t : List Effect} → IsNamed net client addr t → HasHeader net addr
  IsNamed-HasHeader {addr} (in_newest buf offset bytes e) =
      extract-udp_header net addr (extract_udp_data-IsWire net buf bytes e)
  IsNamed-HasHeader (in_earlier n) = IsNamed-HasHeader n

  -- The header that was written is the one that is read back.
  pub written :
      {addr : Addrport} (prefix payload : List ℕ)
      → HasHeader net addr
      → udp_header net addr ≡ some prefix
      → extract_udp_data net (prefix ++ payload) ≡ ok (addr, length prefix)
  written prefix payload (h, e, back) w =
      let same : h ≡ prefix = some_inj (sym e ∙ w) in rw (← same) (back payload)
