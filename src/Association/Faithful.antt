-- ===== src/Association/Faithful.antt =====
-- What an association sends, read off its trace alone.
use two_socks.Prelude.{
  length, ℕ, ◌≡◌, refl, Bool, true, false, List, [], ◌∷◌, ◌++◌, some, take, drop, inl, inr,
}
use two_socks.Codes.{ErrorCode, ConnectionState}
use two_socks.Platform.{Inet}
use two_socks.Buffer.{ok}
use two_socks.Addrport.{Addrport}
use two_socks.Datagram.{extract_udp_data}
use two_socks.Os.{Os}
use two_socks.Sblist.{Sblist}
use two_socks.System.{
  Sys, Event, Effect, received, sent, opened, connected_to, closed_fd, emitted, server_ready,
}
use two_socks.Destinations.{Dest}
use two_socks.Association.{Udp, ended, going, crashed, copy_loop_udp}
use two_socks.Association.Known.{IsKnown, Step-IsKnown, get-IsNamed, IsNamed-HasHeader, written}
use two_socks.Association.Spec.{
  IsNamed, View, last_received, shown, reported, shut, Step, transfer, probe, refuse_address,
  turn_away_address, add_address, drop_address, Run, here, next,
}
use two_socks.Association.Sound.{IsAssociation, copy_loop_udp-IsAssociation}

abbrev pub IsNoSend : Effect → Type 0
IsNoSend (sent fd bytes) = ⊥
IsNoSend _ = Unit

-- Since the trace `t0`, whatever was sent is payload of the client's last datagram, or goes to the
-- client and is a header with the payload that was received just before.
pub data IsFaithful (net : Inet) (client : ℕ) (t0 : List Effect) : List Effect → Type 0 where
  nothing : {t : List Effect} → t ≡ t0 → IsFaithful net client t0 t
  other :
      {e : Effect} {t : List Effect}
      → IsNoSend e
      → IsFaithful net client t0 t
      → IsFaithful net client t0 (e ∷ t)
  upward :
      {fd : ℕ} {bytes : List ℕ} {t : List Effect} (buf : List ℕ) (addr : Addrport) (offset m : ℕ)
      → last_received client t ≡ some buf
      → extract_udp_data net buf ≡ ok (addr, offset)
      → bytes ≡ take m (drop offset buf)
      → IsFaithful net client t0 t
      → IsFaithful net client t0 (sent fd bytes ∷ t)
  downward :
      {bytes : List ℕ} {t : List Effect} (from : ℕ) (addr : Addrport) (header payload : List ℕ)
      (before : List Effect) (m : ℕ)
      → t ≡ received from payload ∷ before
      → IsNamed net client addr t
      → extract_udp_data net (header ++ payload) ≡ ok (addr, length header)
      → bytes ≡ take m (header ++ payload)
      → IsFaithful net client t0 t
      → IsFaithful net client t0 (sent client bytes ∷ t)

module _ {net : Inet} {client : ℕ} {t0 : List Effect} where
  shown-IsFaithful :
      (h : Bool) (e : Event) (t : List Effect)
      → IsFaithful net client t0 t
      → IsFaithful net client t0 (shown h e t)
  shown-IsFaithful true e t f = other tt f
  shown-IsFaithful false e t f = f

  reported-IsFaithful :
      (h : Bool) (state : ConnectionState) (code : ErrorCode) (ds : List Dest) (t : List Effect)
      → IsFaithful net client t0 t
      → IsFaithful net client t0 (reported h state code ds t)
  reported-IsFaithful h state code [] t f = f
  reported-IsFaithful h state code (d ∷ ds) t f =
      reported-IsFaithful h state code ds _ (shown-IsFaithful h _ t f)

  shut-IsFaithful :
      (fds : List ℕ) (t : List Effect)
      → IsFaithful net client t0 t
      → IsFaithful net client t0 (shut fds t)
  shut-IsFaithful [] t f = f
  shut-IsFaithful (fd ∷ fds) t f = shut-IsFaithful fds (closed_fd fd ∷ t) (other tt f)

  Step-IsFaithful :
      {x y : View}
      → Step net client x y
      → IsKnown net client x.trace x.dests
      → IsFaithful net client t0 x.trace
      → IsFaithful net client t0 y.trace
  Step-IsFaithful {x} (transfer (sent fd bytes) k (inl w) eq) h f =
      rw eq (upward w.buf w.addr w.offset w.taken w.seen w.header w.payload f)
  Step-IsFaithful {x} (transfer (sent fd bytes) k (inr w) eq) h f =
      let named = get-IsNamed net client x.trace x.dests w.i w.d h w.at_i in
      rw (eq, w.to)
        (downward w.d.fd w.d.addrport w.prefix w.payload w.before w.taken w.newest named
          (written net client w.prefix w.payload (IsNamed-HasHeader net client named) w.header)
          w.packet f)
  Step-IsFaithful {x} (transfer (received fd bytes) k due eq) h f = rw eq (other tt f)
  Step-IsFaithful {x} (transfer (connected_to fd a) k due eq) h f = rw eq (other tt f)
  Step-IsFaithful {x} (transfer (opened fd) k due eq) h f = absurd k
  Step-IsFaithful {x} (transfer (closed_fd fd) k due eq) h f = absurd k
  Step-IsFaithful {x} (transfer (emitted e) k due eq) h f = absurd k
  Step-IsFaithful {x} (transfer server_ready k due eq) h f = absurd k
  Step-IsFaithful {x} (probe fd eq) h f = rw eq (other tt (other tt f))
  Step-IsFaithful {x} (refuse_address addr code eq) h f = rw eq (shown-IsFaithful x.handler _ _ f)
  Step-IsFaithful {x} (turn_away_address fd target addr code eq) h f =
      rw eq (shown-IsFaithful x.handler _ _ (other tt (other tt (other tt f))))
  Step-IsFaithful {x} (add_address fd target addr new room named eq) h f =
      rw eq (shown-IsFaithful x.handler _ _ (other tt (other tt f)))
  Step-IsFaithful {x} (drop_address i d code at_i eq) h f =
      rw eq (shown-IsFaithful x.handler _ _ (other tt f))

  Run-IsFaithful :
      {x y : View}
      → Run net client x y
      → IsKnown net client x.trace x.dests
      → IsFaithful net client t0 x.trace
      → IsKnown net client y.trace y.dests × IsFaithful net client t0 y.trace
  Run-IsFaithful (here e) h f = rw e (h, f)
  Run-IsFaithful (next r st) h f =
      let (h', f') = Run-IsFaithful r h f in
      (Step-IsKnown net client st h', Step-IsFaithful st h' f')

abbrev pub IsFaithfulAfter : {W : Type 0} → Inet → ℕ → Sys W → Udp × Sys W → Type 0
IsFaithfulAfter net client s (ended, s') = IsFaithful net client s.trace s'.trace
IsFaithfulAfter net client s (going, s') = IsFaithful net client s.trace s'.trace
IsFaithfulAfter net client s (crashed, s') = Unit

-- Unless `copy_loop_udp` aborts, all that its trace says was sent since it began, after any number
-- of passes, is either the payload of the datagram that came from the client's socket last, or was
-- sent to the client's socket and is a header with the payload that was received just before. Such
-- a header is read back by `extract_udp_data` as an address that the client has named in a
-- datagram, with the payload from the end of the header on. Of both, a partial write may cut the
-- end off.
pub copy_loop_udp-IsFaithful :
    {W L : Type 0} (os : Os W) (net : Inet) (lib : Sblist Dest L) (k tcp_fd udp_fd : ℕ) (s : Sys W)
    → IsFaithfulAfter net udp_fd s (copy_loop_udp os net lib k tcp_fd udp_fd s)
copy_loop_udp-IsFaithful {W} os net lib k tcp_fd udp_fd s =
    faithful _ (copy_loop_udp-IsAssociation os net lib k tcp_fd udp_fd s)
  where
    faithful :
        (r : Udp × Sys W) → IsAssociation os net lib udp_fd s r → IsFaithfulAfter net udp_fd s r
    faithful (ended, s') (x, state, code, ending, r, end) = rw end.trace_end (
        shut-IsFaithful x.fds _ (
          reported-IsFaithful x.handler state code x.dests x.trace
            (Run-IsFaithful r tt (nothing refl)).1))
    faithful (going, s') (x, r, same) = rw same (Run-IsFaithful r tt (nothing refl)).1
    faithful (crashed, s') h = tt
