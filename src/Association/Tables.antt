-- ===== src/Association/Tables.antt =====
-- The two tables of an association, and the sockets that are open, agree.
use two_socks.Prelude.{
  count, count-append, ℕ, zero, suc, ◌+◌, ◌<◌, ◌≤◌, ◌≡◌, refl, ap, ◌∙◌, Bool, true, false, List, [],
  ◌∷◌, ◌++◌, some, arith, inl, inr, get_elem?, erase_idx, length, Bool-cases, if◌then◌else◌, ◌==◌,
  length-append, ==_self,
}
use two_socks.Codes.{ErrorCode, ConnectionState}
use two_socks.System.{
  Sys, Event, Effect, received, sent, opened, connected_to, closed_fd, emitted, server_ready,
}
use two_socks.System.Trace.{opens, closes}
use two_socks.Platform.{Inet}
use two_socks.Destinations.{Dest}
use two_socks.Association.Spec.{
  View, start, IsTransfer, without, Step, transfer, probe, refuse_address, turn_away_address,
  add_address, drop_address, Run, here, next, shown, udp_event, reported, shut, IsEnd,
}

abbrev pub dest_fds : List Dest → List ℕ
dest_fds [] = []
dest_fds (d ∷ ds) = d.fd ∷ dest_fds ds

dest_fds-append : (ds es : List Dest) → dest_fds (ds ++ es) ≡ dest_fds ds ++ dest_fds es
dest_fds-append [] es = refl
dest_fds-append (d ∷ ds) es = ap (λ r. d.fd ∷ r) (dest_fds-append ds es)

count-without :
    (fd g : ℕ) (xs : List ℕ)
    → 0 < count g xs
    → count fd (without g xs) + (if g == fd then 1 else 0) ≡ count fd xs
count-without fd g [] h = absurd (omega arith)
count-without fd g (x ∷ xs) h = elim (Bool-cases (x == g)) [
  | inl e ↦ ground (arith, e)
  | inr e ↦ ground (arith, e, count-without fd g xs)
]

length-without-le : (g : ℕ) (xs : List ℕ) → length (without g xs) ≤ length xs
length-without-le g [] = omega arith
length-without-le g (x ∷ xs) = ground (arith, length-without-le g xs)

count-erase_idx :
    (fd i : ℕ) (d : Dest) (ds : List Dest)
    → get_elem? ds i ≡ some d
    → count fd (dest_fds (erase_idx ds i)) + (if d.fd == fd then 1 else 0) ≡ count fd (dest_fds ds)
count-erase_idx fd i d [] h = absurd (cc)
count-erase_idx fd zero d (e ∷ ds) h = let same : e ≡ d = cc in rw same refl
count-erase_idx fd (suc i) d (e ∷ ds) h = omega (arith, count-erase_idx fd i d ds h)

-- A report opens and closes nothing.
opens-shown :
    (fd : ℕ) (h : Bool) (e : Event) (t : List Effect) → opens fd (shown h e t) ≡ opens fd t
opens-shown fd true e t = refl
opens-shown fd false e t = refl

closes-shown :
    (fd : ℕ) (h : Bool) (e : Event) (t : List Effect) → closes fd (shown h e t) ≡ closes fd t
closes-shown fd true e t = refl
closes-shown fd false e t = refl

transfer-opens :
    (fd : ℕ) (e : Effect) (t : List Effect) → IsTransfer e → opens fd (e ∷ t) ≡ opens fd t
transfer-opens fd (received f b) t k = refl
transfer-opens fd (sent f b) t k = refl
transfer-opens fd (connected_to f b) t k = refl
transfer-opens fd (opened f) t k = absurd k
transfer-opens fd (closed_fd f) t k = absurd k
transfer-opens fd (emitted e) t k = absurd k
transfer-opens fd server_ready t k = absurd k

transfer-closes :
    (fd : ℕ) (e : Effect) (t : List Effect) → IsTransfer e → closes fd (e ∷ t) ≡ closes fd t
transfer-closes fd (received f b) t k = refl
transfer-closes fd (sent f b) t k = refl
transfer-closes fd (connected_to f b) t k = refl
transfer-closes fd (opened f) t k = absurd k
transfer-closes fd (closed_fd f) t k = absurd k
transfer-closes fd (emitted e) t k = absurd k
transfer-closes fd server_ready t k = absurd k

-- The list and the array hold the same descriptors, as often; these are the ones that were opened
-- since `t0` and are not closed; and the array has room for them.
pub record IsTracked (t0 : List Effect) (x : View) : Type 0 where
  pub tracked : (fd : ℕ) → count fd x.fds ≡ count fd (dest_fds x.dests)
  pub balance :
      (fd : ℕ) → opens fd x.trace + closes fd t0 ≡ closes fd x.trace + opens fd t0 + count fd x.fds
  pub room : length x.fds ≤ 1022

module _ (t0 : List Effect) where
  Step-IsTracked :
      {x y : View} {net : Inet} {client : ℕ} → Step net client x y → IsTracked t0 x → IsTracked t0 y
  Step-IsTracked {x} {y} (transfer e k due eq) v = rw eq (record {
    tracked = v.tracked;
    balance = λ fd.
        omega (arith, v.balance fd, transfer-opens fd e x.trace k, transfer-closes fd e x.trace k);
    room = v.room;
  })
  Step-IsTracked {x} {y} (probe f eq) v =
      rw eq
        (record { tracked = v.tracked; balance = λ fd. omega (arith, v.balance fd); room = v.room })
  Step-IsTracked {x} {y} (refuse_address addr code eq) v = rw eq (record {
    tracked = v.tracked;
    balance = λ fd.
        rw
          (
            opens-shown fd x.handler (udp_event x.next addr ConnectionState.failed code) x.trace,
            closes-shown fd x.handler (udp_event x.next addr ConnectionState.failed code) x.trace,
          )
          (v.balance fd);
    room = v.room;
  })
  Step-IsTracked {x} {y} (turn_away_address f target addr code eq) v = rw eq (record {
    tracked = v.tracked;
    balance = λ fd.
        rw
          (
            opens-shown fd x.handler (udp_event x.next addr ConnectionState.failed code)
                (closed_fd f ∷ connected_to f target ∷ opened f ∷ x.trace),
            closes-shown fd x.handler (udp_event x.next addr ConnectionState.failed code)
                (closed_fd f ∷ connected_to f target ∷ opened f ∷ x.trace),
          )
          (omega (arith, v.balance fd));
    room = v.room;
  })
  Step-IsTracked {x} {y} (add_address f target addr new space named eq) v = rw eq (record {
    tracked = λ fd.
        rw
          (dest_fds-append x.dests
            (record { fd = f; connection_id = x.next; addrport = addr } ∷ []))
          (omega (
            arith,
            v.tracked fd,
            count-append fd x.fds (f ∷ []),
            count-append fd (dest_fds x.dests) (f ∷ []),
          ));
    balance = λ fd.
        rw
          (
            opens-shown fd x.handler
                (udp_event x.next addr ConnectionState.is_open ErrorCode.success)
                (connected_to f target ∷ opened f ∷ x.trace),
            closes-shown fd x.handler
                (udp_event x.next addr ConnectionState.is_open ErrorCode.success)
                (connected_to f target ∷ opened f ∷ x.trace),
          )
          (omega (arith, v.balance fd, count-append fd x.fds (f ∷ [])));
    room = omega (arith, space, length-append x.fds (f ∷ []));
  })
  Step-IsTracked {x} {y} (drop_address i d code at_i eq) v = rw eq (record {
    tracked = λ fd. omega (arith, v.tracked fd, removed fd, count-erase_idx fd i d x.dests at_i);
    balance = λ fd.
        rw
          (
            opens-shown fd x.handler
                (udp_event d.connection_id d.addrport ConnectionState.failed code)
                (closed_fd d.fd ∷ x.trace),
            closes-shown fd x.handler
                (udp_event d.connection_id d.addrport ConnectionState.failed code)
                (closed_fd d.fd ∷ x.trace),
          )
          (omega (arith, v.balance fd, removed fd));
    room = omega (arith, v.room, length-without-le d.fd x.fds);
  })
    where
      removed :
          (fd : ℕ) → count fd (without d.fd x.fds) + (if d.fd == fd then 1 else 0) ≡ count fd x.fds
      removed fd = count-without fd d.fd x.fds (
          rw (v.tracked d.fd) (ground (arith, count-erase_idx d.fd i d x.dests at_i, ==_self d.fd)))

  pub Run-IsTracked :
      {net : Inet} {client : ℕ} {x y : View} → Run net client x y → IsTracked t0 x → IsTracked t0 y
  Run-IsTracked (here e) v = rw e v
  Run-IsTracked (next r st) v = Step-IsTracked st (Run-IsTracked r v)

-- The end of the association closes every polled descriptor and opens none.
opens-shut : (fd : ℕ) (fds : List ℕ) (t : List Effect) → opens fd (shut fds t) ≡ opens fd t
opens-shut fd [] t = refl
opens-shut fd (f ∷ fds) t = opens-shut fd fds (closed_fd f ∷ t)

closes-shut :
    (fd : ℕ) (fds : List ℕ) (t : List Effect) → closes fd (shut fds t) ≡ closes fd t + count fd fds
closes-shut fd [] t = omega arith
closes-shut fd (f ∷ fds) t = omega (arith, closes-shut fd fds (closed_fd f ∷ t))

module _ (fd : ℕ) (h : Bool) (state : ConnectionState) (code : ErrorCode) where
  opens-reported :
      (ds : List Dest) (t : List Effect) → opens fd (reported h state code ds t) ≡ opens fd t
  opens-reported [] t = refl
  opens-reported (d ∷ ds) t =
      opens-reported ds _ ∙ opens-shown fd h (udp_event d.connection_id d.addrport state code) t

  closes-reported :
      (ds : List Dest) (t : List Effect) → closes fd (reported h state code ds t) ≡ closes fd t
  closes-reported [] t = refl
  closes-reported (d ∷ ds) t =
      closes-reported ds _ ∙ closes-shown fd h (udp_event d.connection_id d.addrport state code) t

pub start-IsTracked : {W : Type 0} (s : Sys W) → IsTracked s.trace (start s)
start-IsTracked s = record { tracked = λ fd. refl; balance = λ fd. omega arith; room = omega arith }

-- An association that has ended closed every socket that it opened.
pub IsEnd-opens-closes :
    {W : Type 0} (t0 : List Effect) (x : View) (state : ConnectionState) (code : ErrorCode)
    (s : Sys W)
    → IsTracked t0 x
    → IsEnd x state code s
    → (fd : ℕ) → opens fd s.trace + closes fd t0 ≡ closes fd s.trace + opens fd t0
IsEnd-opens-closes t0 x state code s v e fd = rw e.trace_end (
    omega (
      arith,
      v.balance fd,
      opens-shut fd x.fds (reported x.handler state code x.dests x.trace),
      closes-shut fd x.fds (reported x.handler state code x.dests x.trace),
      opens-reported fd x.handler state code x.dests x.trace,
      closes-reported fd x.handler state code x.dests x.trace,
    ))
