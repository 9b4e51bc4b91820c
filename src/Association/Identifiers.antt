-- ===== src/Association/Identifiers.antt =====
-- Every connection of an association that was given an identifier is reported as ended, once.
use two_socks.Prelude.{
  count, count-append, ℕ, zero, suc, ◌+◌, ◌≤◌, ◌≡◌, refl, ap, Bool, true, false, ◌&&◌, List, [],
  ◌∷◌, ◌++◌, some, arith, get_elem?, erase_idx, if◌then◌else◌, ◌==◌, leb, ltb,
}
use two_socks.Codes.{ErrorCode, ConnectionState, is_open}
use two_socks.System.{
  Sys, Effect, received, sent, opened, connected_to, closed_fd, emitted, server_ready,
}
use two_socks.Platform.{Inet}
use two_socks.Os.{Os}
use two_socks.Sblist.{Sblist}
use mathlib.Core.Path.{subst}
use two_socks.Destinations.{Dest}
use two_socks.Association.{ended, copy_loop_udp}
use two_socks.Association.Sound.{IsAssociation, copy_loop_udp-IsAssociation}
use two_socks.Association.Spec.{
  View, start, IsTransfer, IsEnding, Step, transfer, probe, refuse_address, turn_away_address,
  add_address, drop_address, Run, here, next, udp_event, reported, shut,
}

abbrev pub is_ending : ConnectionState → Bool
is_ending is_open = false
is_ending ConnectionState.closed = true
is_ending ConnectionState.failed = true

-- How often a trace reports the end of the connection `id`, and that it is open.
abbrev pub endings : ℕ → List Effect → ℕ
endings id [] = 0
endings id (emitted e ∷ t) =
    endings id t + (if is_ending e.state && (e.identifier == id) then 1 else 0)
endings id (_ ∷ t) = endings id t

abbrev pub openings : ℕ → List Effect → ℕ
openings id [] = 0
openings id (emitted e ∷ t) =
    openings id t + (if is_ending e.state then 0 else if e.identifier == id then 1 else 0)
openings id (_ ∷ t) = openings id t

-- 1 for an identifier that was taken between two values of the counter, else 0.
abbrev pub taken_between : ℕ → ℕ → ℕ → ℕ
taken_between lo hi id = if leb lo id && ltb id hi then 1 else 0

abbrev pub dest_ids : List Dest → List ℕ
dest_ids [] = []
dest_ids (d ∷ ds) = d.connection_id ∷ dest_ids ds

dest_ids-append : (ds es : List Dest) → dest_ids (ds ++ es) ≡ dest_ids ds ++ dest_ids es
dest_ids-append [] es = refl
dest_ids-append (d ∷ ds) es = ap (λ r. d.connection_id ∷ r) (dest_ids-append ds es)

count-erase_idx-dest_ids :
    (id i : ℕ) (d : Dest) (ds : List Dest)
    → get_elem? ds i ≡ some d
    → count id (dest_ids (erase_idx ds i)) + (if d.connection_id == id then 1 else 0)
      ≡ count id (dest_ids ds)
count-erase_idx-dest_ids id i d [] h = absurd (cc)
count-erase_idx-dest_ids id zero d (e ∷ ds) h = let same : e ≡ d = cc in rw same refl
count-erase_idx-dest_ids id (suc i) d (e ∷ ds) h =
    omega (arith, count-erase_idx-dest_ids id i d ds h)

transfer-endings :
    (id : ℕ) (e : Effect) (t : List Effect) → IsTransfer e → endings id (e ∷ t) ≡ endings id t
transfer-endings id (received f b) t k = refl
transfer-endings id (sent f b) t k = refl
transfer-endings id (connected_to f b) t k = refl
transfer-endings id (opened f) t k = absurd k
transfer-endings id (closed_fd f) t k = absurd k
transfer-endings id (emitted e) t k = absurd k
transfer-endings id server_ready t k = absurd k

transfer-openings :
    (id : ℕ) (e : Effect) (t : List Effect) → IsTransfer e → openings id (e ∷ t) ≡ openings id t
transfer-openings id (received f b) t k = refl
transfer-openings id (sent f b) t k = refl
transfer-openings id (connected_to f b) t k = refl
transfer-openings id (opened f) t k = absurd k
transfer-openings id (closed_fd f) t k = absurd k
transfer-openings id (emitted e) t k = absurd k
transfer-openings id server_ready t k = absurd k

taken_between-suc :
    (lo hi id : ℕ)
    → lo ≤ hi
    → taken_between lo (hi + 1) id ≡ taken_between lo hi id + (if hi == id then 1 else 0)
taken_between-suc lo hi id h = ground arith

-- Since the trace `t0` and the value `lo` of the counter: each identifier that was taken is that of
-- a destination, or was reported as ended; and it was reported as open once at most.
pub record IsNumbered (lo : ℕ) (t0 : List Effect) (x : View) : Type 0 where
  pub set : x.handler ≡ true
  pub grown : lo ≤ x.next
  pub numbered :
      (id : ℕ)
      → endings id x.trace + count id (dest_ids x.dests)
        ≡ endings id t0 + taken_between lo x.next id
  pub once : (id : ℕ) → openings id x.trace ≤ openings id t0 + taken_between lo x.next id

module _ (lo : ℕ) (t0 : List Effect) where
  Step-IsNumbered :
      {x y : View} {net : Inet} {client : ℕ}
      → Step net client x y
      → IsNumbered lo t0 x
      → IsNumbered lo t0 y
  Step-IsNumbered {x} {y} (transfer e k due eq) v = rw eq (record {
    set = v.set;
    grown = v.grown;
    numbered = λ id. rw (transfer-endings id e x.trace k) (v.numbered id);
    once = λ id. rw (transfer-openings id e x.trace k) (v.once id);
  })
  Step-IsNumbered {x} {y} (probe f eq) v =
      rw eq (record { set = v.set; grown = v.grown; numbered = v.numbered; once = v.once })
  Step-IsNumbered {x} {y} (refuse_address addr code eq) v = rw eq (record {
    set = v.set;
    grown = omega (arith, v.grown);
    numbered =
        λ id. rw v.set (omega (arith, v.numbered id, taken_between-suc lo x.next id v.grown));
    once = λ id. rw v.set (omega (arith, v.once id, taken_between-suc lo x.next id v.grown));
  })
  Step-IsNumbered {x} {y} (turn_away_address f target addr code eq) v = rw eq (record {
    set = v.set;
    grown = omega (arith, v.grown);
    numbered =
        λ id. rw v.set (omega (arith, v.numbered id, taken_between-suc lo x.next id v.grown));
    once = λ id. rw v.set (omega (arith, v.once id, taken_between-suc lo x.next id v.grown));
  })
  Step-IsNumbered {x} {y} (add_address f target addr new space named eq) v = rw eq (record {
    set = v.set;
    grown = omega (arith, v.grown);
    numbered = λ id.
        rw
          (
            v.set,
            dest_ids-append x.dests
                (record { fd = f; connection_id = x.next; addrport = addr } ∷ []),
          )
          (omega (
            arith,
            v.numbered id,
            taken_between-suc lo x.next id v.grown,
            count-append id (dest_ids x.dests) (x.next ∷ []),
          ));
    once = λ id. rw v.set (omega (arith, v.once id, taken_between-suc lo x.next id v.grown));
  })
  Step-IsNumbered {x} {y} (drop_address i d code at_i eq) v = rw eq (record {
    set = v.set;
    grown = v.grown;
    numbered =
        λ id. rw v.set (omega (arith, v.numbered id, count-erase_idx-dest_ids id i d x.dests at_i));
    once = λ id. rw v.set (omega (arith, v.once id));
  })

  pub Run-IsNumbered :
      {net : Inet} {client : ℕ} {x y : View}
      → Run net client x y
      → IsNumbered lo t0 x
      → IsNumbered lo t0 y
  Run-IsNumbered (here e) v = rw e v
  Run-IsNumbered (next r st) v = Step-IsNumbered st (Run-IsNumbered r v)

endings-shut : (id : ℕ) (fds : List ℕ) (t : List Effect) → endings id (shut fds t) ≡ endings id t
endings-shut id [] t = refl
endings-shut id (f ∷ fds) t = endings-shut id fds (closed_fd f ∷ t)

openings-shut : (id : ℕ) (fds : List ℕ) (t : List Effect) → openings id (shut fds t) ≡ openings id t
openings-shut id [] t = refl
openings-shut id (f ∷ fds) t = openings-shut id fds (closed_fd f ∷ t)

ending_is : (state : ConnectionState) → IsEnding state → is_ending state ≡ true
ending_is is_open h = absurd h
ending_is ConnectionState.closed h = refl
ending_is ConnectionState.failed h = refl

module _ (id : ℕ) (state : ConnectionState) (code : ErrorCode) (ending : IsEnding state) where
  endings-reported :
      (ds : List Dest) (t : List Effect)
      → endings id (reported true state code ds t) ≡ endings id t + count id (dest_ids ds)
  endings-reported [] t = omega arith
  endings-reported (d ∷ ds) t =
      let ih =
        endings-reported ds (emitted (udp_event d.connection_id d.addrport state code) ∷ t) in
      ground (arith, ih, ending_is state ending)

  openings-reported :
      (ds : List Dest) (t : List Effect)
      → openings id (reported true state code ds t) ≡ openings id t
  openings-reported [] t = refl
  openings-reported (d ∷ ds) t =
      let ih =
        openings-reported ds (emitted (udp_event d.connection_id d.addrport state code) ∷ t) in
      ground (arith, ih, ending_is state ending)

-- Where an event handler is set and an association has ended, every identifier that was taken from
-- the counter in the meantime has been reported as ended exactly once, and as open once at most; no
-- other identifier has been reported.
pub copy_loop_udp-endings :
    {W L : Type 0} (os : Os W) (net : Inet) (lib : Sblist Dest L) (k tcp_fd udp_fd : ℕ)
    (s s' : Sys W) (id : ℕ)
    → s.handler ≡ true
    → copy_loop_udp os net lib k tcp_fd udp_fd s ≡ (ended, s')
    → (endings id s'.trace
        ≡ endings id s.trace + taken_between s.next_identifier s'.next_identifier id)
      × (openings id s'.trace
          ≤ openings id s.trace + taken_between s.next_identifier s'.next_identifier id)
copy_loop_udp-endings os net lib k tcp_fd udp_fd s s' id set e = reports (
    subst (IsAssociation os net lib udp_fd s) e
      (copy_loop_udp-IsAssociation os net lib k tcp_fd udp_fd s))
  where
    begun : IsNumbered s.next_identifier s.trace (start s)
    begun = record {
      set = set;
      grown = omega arith;
      numbered = λ j. ground arith;
      once = λ j. omega arith;
    }

    reports :
        IsAssociation os net lib udp_fd s (ended, s')
        → (endings id s'.trace
            ≡ endings id s.trace + taken_between s.next_identifier s'.next_identifier id)
          × (openings id s'.trace
              ≤ openings id s.trace + taken_between s.next_identifier s'.next_identifier id)
    reports (x, state, code, ending, r, end) =
        let v = Run-IsNumbered s.next_identifier s.trace r begun in
        rw
          (
            end.trace_end,
            end.next_end,
            v.set,
            endings-shut id x.fds (reported true state code x.dests x.trace),
            openings-shut id x.fds (reported true state code x.dests x.trace),
            endings-reported id state code ending x.dests x.trace,
            openings-reported id state code ending x.dests x.trace,
          )
          (omega (arith, v.numbered id), omega (arith, v.once id))
