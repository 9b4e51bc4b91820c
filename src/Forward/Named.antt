-- ===== src/Forward/Named.antt =====
-- What a datagram of the client says stays known while it is on its way.
use two_socks.Prelude.{
  some_inj, ℕ, ◌≡◌, refl, ap, true, false, List, [], ◌∷◌, Option, some, inl, inr, drop, Bool-cases,
  ◌==◌,
}
use two_socks.Platform.{Inet}
use two_socks.SockAddr.{SockAddr}
use two_socks.Buffer.{ok}
use two_socks.Addrport.{Addrport}
use two_socks.Datagram.{extract_udp_data}
use two_socks.Sblist.{Sblist}
use two_socks.Os.{value, failed, Answer, Received, got, receive_failed, Os}
use two_socks.System.{received, sent, opened, connected_to}
use two_socks.Destinations.{Dest}
use two_socks.Text.{str_eq_refl, IsByte}
use two_socks.Codes.{type_value}
use two_socks.System.{Effect, Event, closed_fd, emitted, server_ready}
use two_socks.Addrport.{compare_socks5_addrport}
use two_socks.Prelude.{Bool, ==_self, All, ==_iff}
use two_socks.Association.Spec.{IsNamed, in_newest, in_earlier, last_received, shown}
use two_socks.Forward.{udp_copy_buffer_size, from_read, from_peer, receive_client}

-- The payload is that of the datagram that the client sent last, and the address is the one in it.
pub record IsFrom (net : Inet) (client : ℕ) (t : List Effect) (addr : Addrport) (payload : List ℕ)
    : Type 0 where
  pub buf : List ℕ
  pub offset : ℕ
  pub seen : last_received client t ≡ some buf
  pub bytes : All IsByte buf
  pub header : extract_udp_data net buf ≡ ok (addr, offset)
  pub rest : payload ≡ drop offset buf

pub last_received-IsNamed :
    {net : Inet} {client : ℕ} {addr : Addrport} {offset : ℕ} {buf : List ℕ} (t : List Effect)
    → last_received client t ≡ some buf
    → All IsByte buf
    → extract_udp_data net buf ≡ ok (addr, offset)
    → IsNamed net client addr t
last_received-IsNamed [] h b e = absurd (cc)
last_received-IsNamed {net} {client} {addr} {offset} {buf} (received fd bytes ∷ t) h b e =
    elim (Bool-cases (fd == client)) [
      | inl same ↦
          let is : bytes ≡ buf = some_inj (rw same at h) in
          rw ((==_iff fd client).0 same, is) (in_newest buf offset b e)
      | inr other ↦ in_earlier (last_received-IsNamed t (rw other at h) b e)
    ]
last_received-IsNamed (sent fd bytes ∷ t) h b e = in_earlier (last_received-IsNamed t h b e)
last_received-IsNamed (opened fd ∷ t) h b e = in_earlier (last_received-IsNamed t h b e)
last_received-IsNamed (connected_to fd a ∷ t) h b e = in_earlier (last_received-IsNamed t h b e)
last_received-IsNamed (closed_fd fd ∷ t) h b e = in_earlier (last_received-IsNamed t h b e)
last_received-IsNamed (emitted v ∷ t) h b e = in_earlier (last_received-IsNamed t h b e)
last_received-IsNamed (server_ready ∷ t) h b e = in_earlier (last_received-IsNamed t h b e)

-- A report is nothing that the client sent.
pub last_received-shown :
    (client : ℕ) (h : Bool) (e : Event) (t : List Effect)
    → last_received client (shown h e t) ≡ last_received client t
last_received-shown client true e t = refl
last_received-shown client false e t = refl

pub compare_socks5_addrport_self : (a : Addrport) → compare_socks5_addrport a a ≡ true
unfolding compare_socks5_addrport
compare_socks5_addrport_self a =
    rw (==_self (type_value a.type), str_eq_refl a.addr, ==_self a.port) refl

module _ {W L : Type 0} (os : Os W) (net : Inet) (lib : Sblist Dest L) (client : ℕ) where
  from_read-IsByte :
      (r : Received × W) (buf : List ℕ) (peer : Option SockAddr)
      → ((bs : List ℕ) → r.0 ≡ got bs → All IsByte bs)
      → (from_read os net lib r).0 ≡ value (buf, peer)
      → All IsByte buf
  from_read-IsByte (got bs, w) buf peer k h = let same : bs ≡ buf = cc in k buf (ap got same)
  from_read-IsByte (receive_failed x, w) buf peer k h = absurd (cc)

  from_peer-IsByte :
      (r : Answer (List ℕ × SockAddr) × W) (buf : List ℕ) (peer : Option SockAddr)
      → ((bs : List ℕ) (a : SockAddr) → r.0 ≡ value (bs, a) → All IsByte bs)
      → (from_peer os net lib r).0 ≡ value (buf, peer)
      → All IsByte buf
  from_peer-IsByte (value (bs, a), w) buf peer k h =
      let same : bs ≡ buf = cc in k buf a (rw same refl)
  from_peer-IsByte (failed x, w) buf peer k h = absurd (cc)

  pub receive_client-IsByte :
      (bound : Bool) (w : W) (buf : List ℕ) (peer : Option SockAddr)
      → (receive_client os net lib bound client w).0 ≡ value (buf, peer)
      → All IsByte buf
  unfolding receive_client
  receive_client-IsByte true w buf peer h =
      from_read-IsByte (os.read w client udp_copy_buffer_size) buf peer
        (λ bs e. os.read_bytes w client udp_copy_buffer_size bs e) h
  receive_client-IsByte false w buf peer h =
      from_peer-IsByte (os.recvfrom w client udp_copy_buffer_size) buf peer
        (λ bs a e. os.recvfrom_bytes w client udp_copy_buffer_size bs a e) h
