-- ===== src/Association/Sound.antt =====
-- `copy_loop_udp` follows the abstract machine from an empty table to its end.
use two_socks.Relay.{poll_timeout}
use two_socks.Prelude.{
  ℕ, zero, suc, ◌+◌, ◌-◌, ◌≡◌, refl, ap, ◌∙◌, Bool, true, false, List, [], ◌∷◌, ◌||◌, arith, inl,
  inr, length, drop, Bool-cases, Option-cases, ◌==◌, drop_cons, drop_all,
}
use two_socks.Codes.{ErrorCode, general_failure, ConnectionState}
use two_socks.Platform.{Inet, Errno}
use two_socks.Sblist.{Sblist}
use two_socks.Os.{Os, Poll-cases, Received-cases, Answer-cases, failed, Revents}
use two_socks.System.{Sys, received, moved}
use two_socks.Relay.{poll_revents_have_error, poll_revents_have_hangup, is_retry, revents_at}
use two_socks.Destinations.{Dest, Assoc, assign, polled}
use two_socks.Destinations.Removal.{polled-assign, emit-shown}
use two_socks.Association.Spec.{
  IsEnding, View, view, start, Run, here, next, transfer, IsEnd, reported, shut,
}
use two_socks.Forward.{Turn, on, again, ends, broken, udp_copy_buffer_size}
use two_socks.Forward.Sound.{IsSound, from_client-IsSound}
use two_socks.Association.Slots.{scan-IsSound}
use two_socks.Association.{
  Udp, ended, going, crashed, is_unconnected, then_scan, from_tcp, udp_ready, udp_round, report_all,
  close_all, udp_loop_end, udp_rounds, start_association, copy_loop_udp,
}

-- How the association stands: it has ended as the machine ends, or the machine is where it is; it
-- has not crashed.
abbrev pub IsRelayed : {W : Type 0} → Inet → ℕ → View → Udp × Sys W → Type 0
IsRelayed net client x0 (ended, s) =
    (x : View) × (state : ConnectionState) × (code : ErrorCode) × IsEnding state
    × Run net client x0 x
    × IsEnd x state code s
IsRelayed net client x0 (going, s) = (x : View) × Run net client x0 x × (s.trace ≡ x.trace)
IsRelayed net client x0 (crashed, s) = ⊥

module _ {W L : Type 0} (os : Os W) (net : Inet) (lib : Sblist Dest L) where
  close_all-shut :
      (fds : List ℕ) (s : Sys W)
      → ((close_all os net lib fds s).trace ≡ shut fds s.trace)
        × ((close_all os net lib fds s).next_identifier ≡ s.next_identifier)
        × ((close_all os net lib fds s).handler ≡ s.handler)
  unfolding close_all
  close_all-shut [] s = (refl, refl, refl)
  close_all-shut (fd ∷ fds) s = close_all-shut fds _

  report_all-reported :
      (state : ConnectionState) (code : ErrorCode) (l : L) (n i : ℕ) (s : Sys W)
      → length (lib.items l) ≡ n + i
      → report_all os net lib state code l n i s
        ≡ record s { trace = reported s.handler state code (drop i (lib.items l)) s.trace }
  unfolding report_all
  report_all-reported state code l zero i s len =
      rw (drop_all (lib.items l) i (omega (arith, len))) refl
  report_all-reported state code l (suc n) i s len =
      let (d, at_i, rest) = drop_cons (lib.items l) i n len in
      let next_i : suc i ≡ i + 1 = omega arith in
      rw
        (
          lib.get_lem l i ∙ at_i,
          report_all,
          rest ∙ ap (λ j. d ∷ drop j (lib.items l)) next_i,
          emit-shown d.connection_id state d.addrport code s,
        )
        (report_all-reported state code l n (i + 1) _ (omega (arith, len)))

  udp_loop_end-IsEnd :
      (state : ConnectionState) (code : ErrorCode) (a : Assoc L) (s : Sys W)
      → IsEnd (view lib a s) state code (udp_loop_end os net lib state code a s)
  unfolding udp_loop_end
  udp_loop_end-IsEnd state code a s =
      let all =
        report_all-reported state code a.dests (lib.get_size a.dests) 0 s
          (omega (arith, lib.get_size_lem a.dests)) in
      let (t, n, h) =
        close_all-shut (polled a.live)
          (report_all os net lib state code a.dests (lib.get_size a.dests) 0 s) in
      record {
        trace_end = t ∙ ap (λ (q : Sys W). shut (polled a.live) q.trace) all;
        next_end = n ∙ ap (λ (q : Sys W). q.next_identifier) all;
        handler_end = h ∙ ap (λ (q : Sys W). q.handler) all;
      }

  module _ (client : ℕ) (x0 : View) where
    then_scan-IsSound :
        (r : Turn × Assoc L × Sys W)
        → IsSound net client lib x0 r
        → IsSound net client lib x0 (then_scan os net lib client r)
    then_scan-IsSound (on, a, s) r =
        scan-IsSound os net lib client x0 (length a.live) 0 a s (omega arith) r
    then_scan-IsSound (again, a, s) r = r
    then_scan-IsSound (ends state code, a, s) r = r
    then_scan-IsSound (broken, a, s) r = r

    from_tcp-IsSound :
        (tcp_fd : ℕ) (a : Assoc L) (s : Sys W)
        → Run net client x0 (view lib a s)
        → IsSound net client lib x0 (from_tcp os net lib tcp_fd a s)
    unfolding from_tcp
    from_tcp-IsSound tcp_fd a s r =
        elim (Received-cases (os.read s.world tcp_fd (udp_copy_buffer_size - 1)).0) [
          | inr (x, e) ↦ elim (Bool-cases (is_retry x)) [
            | inl t ↦ rw (e, from_tcp, t) r
            | inr t ↦ rw (e, from_tcp, t) (tt, r)
          ]
          | inl (bytes, e) ↦ elim (Bool-cases (length bytes == 0)) [
            | inl t ↦ rw (e, from_tcp, t) (tt, r)
            | inr t ↦ rw (e, from_tcp, t) (tt, next r (transfer (received tcp_fd bytes) tt tt refl))
          ]
        ]

    udp_ready-IsSound :
        (tcp_fd : ℕ) (r0 r1 : Revents) (a : Assoc L) (s : Sys W)
        → Run net client x0 (view lib a s)
        → IsSound net client lib x0 (udp_ready os net lib tcp_fd client r0 r1 a s)
    unfolding udp_ready
    udp_ready-IsSound tcp_fd r0 r1 a s r =
        elim (Bool-cases (poll_revents_have_error r0 || poll_revents_have_error r1)) [
          | inl e ↦ rw (e, udp_ready) (tt, r)
          | inr e ↦ elim (Bool-cases (poll_revents_have_hangup r0 || poll_revents_have_hangup r1)) [
            | inl h ↦ rw (e, h, udp_ready) (tt, r)
            | inr h ↦ elim (Bool-cases r0.pollin) [
              | inl t ↦ rw (e, h, t, udp_ready) (from_tcp-IsSound tcp_fd a s r)
              | inr t ↦ elim (Bool-cases r1.pollin) [
                | inl u ↦
                    rw (e, h, t, u, udp_ready)
                      (then_scan-IsSound _ (from_client-IsSound os net lib client x0 a s r))
                | inr u ↦ rw (e, h, t, u, udp_ready) (then_scan-IsSound (on, a, s) r)
              ]
            ]
          ]
        ]

    pub udp_round-IsSound :
        (tcp_fd : ℕ) (a : Assoc L) (s : Sys W)
        → Run net client x0 (view lib a s)
        → IsSound net client lib x0 (udp_round os net lib tcp_fd client a s)
    unfolding udp_round
    udp_round-IsSound tcp_fd a s r =
        elim (Poll-cases (os.poll s.world (tcp_fd ∷ client ∷ polled a.live) poll_timeout).0) [
          | inl e ↦ rw (e, udp_round) (tt, r)
          | inr (inl (x, e)) ↦ elim (Bool-cases (is_retry x)) [
            | inl t ↦ rw (e, udp_round, t) r
            | inr t ↦ rw (e, udp_round, t) (tt, r)
          ]
          | inr (inr (rs, e)) ↦
              rw (e, udp_round)
                (udp_ready-IsSound tcp_fd (revents_at rs 0) (revents_at rs 1)
                  (record a { live = assign a.live (drop 2 rs) })
                  (moved (os.poll s.world (tcp_fd ∷ client ∷ polled a.live) poll_timeout).1 s)
                  (rw (polled-assign a.live (drop 2 rs)) r))
        ]

    udp_rounds-IsRelayed :
        (k tcp_fd : ℕ) (a : Assoc L) (s : Sys W)
        → Run net client x0 (view lib a s)
        → IsRelayed net client x0 (udp_rounds os net lib k tcp_fd client a s)
    unfolding udp_rounds
    udp_rounds-IsRelayed zero tcp_fd a s r = (view lib a s, r, refl)
    udp_rounds-IsRelayed (suc k) tcp_fd a s r =
        step _ refl (udp_round-IsSound tcp_fd a s r) (udp_rounds-IsRelayed k tcp_fd)
      where
        step :
            (t : Turn)
            → (udp_round os net lib tcp_fd client a s).0 ≡ t
            → IsSound net client lib x0 (
              t,
              (udp_round os net lib tcp_fd client a s).1,
              (udp_round os net lib tcp_fd client a s).2,
            )
            → ((a' : Assoc L) (s' : Sys W)
                → Run net client x0 (view lib a' s')
                → IsRelayed net client x0 (udp_rounds os net lib k tcp_fd client a' s'))
            → IsRelayed net client x0 (udp_rounds os net lib (suc k) tcp_fd client a s)
        step on e r' ih = rw (e, udp_rounds) (ih _ _ r')
        step again e r' ih = rw (e, udp_rounds) (ih _ _ r')
        step (ends state code) e (ending, r') ih =
            rw (e, udp_rounds) (_, state, code, ending, r', udp_loop_end-IsEnd state code _ _)
        step broken e r' ih = absurd r'

  start_association-IsRelayed :
      (k tcp_fd udp_fd : ℕ) (bound : Bool) (s : Sys W)
      → IsRelayed net udp_fd (start s) (start_association os net lib k tcp_fd udp_fd bound s)
  unfolding start_association
  start_association-IsRelayed k tcp_fd udp_fd bound s = elim (Option-cases lib.create) [
    | inl e ↦ rw (e, start_association) (nothing_kept (os.malloc s.world udp_copy_buffer_size).1)
    | inr (l, e) ↦ elim (Bool-cases (os.malloc s.world udp_copy_buffer_size).0) [
      | inr m ↦
          rw (e, start_association, m) (nothing_kept (os.malloc s.world udp_copy_buffer_size).1)
      | inl m ↦
          rw (e, start_association, m)
            (udp_rounds-IsRelayed udp_fd (start s) k tcp_fd _ _
              (here (rw (lib.items-create l e) refl)))
    ]
  ]
    where
      nothing_kept : (w : W) → IsRelayed net udp_fd (start s) (ended, moved w s)
      nothing_kept w = (
        start s,
        ConnectionState.failed,
        general_failure,
        tt,
        here refl,
        record { trace_end = refl; next_end = refl; handler_end = refl },
      )

  -- How `copy_loop_udp` stands after any number of passes: as the machine, or aborted because the
  -- peer of the socket could not be asked for.
  abbrev pub IsAssociation : ℕ → Sys W → Udp × Sys W → Type 0
  IsAssociation udp_fd s (ended, s') = IsRelayed net udp_fd (start s) (ended, s')
  IsAssociation udp_fd s (going, s') = IsRelayed net udp_fd (start s) (going, s')
  IsAssociation udp_fd s (crashed, s') =
      (e : Errno) × ((os.getpeername s.world udp_fd).0 ≡ failed e) × (is_unconnected e ≡ false)

  -- After any number of passes `copy_loop_udp` stands where the machine of Association.Spec can be
  -- after some of its steps from empty tables: the trace and the identifiers taken are the
  -- machine's. So what it sends to a destination is payload of the datagram that the client sent
  -- last, which named the address of that destination, and what it sends to the client is the
  -- header of a destination and what was just received from it; a partial write may cut the end
  -- off. If it has ended, it has reported every destination that was left, in order, under the
  -- state closed or failed, and then closed every polled socket, in order. It aborts only where the
  -- client's socket cannot be asked for its peer, for another reason than that it has none.
  pub copy_loop_udp-IsAssociation :
      (k tcp_fd udp_fd : ℕ) (s : Sys W)
      → IsAssociation udp_fd s (copy_loop_udp os net lib k tcp_fd udp_fd s)
  unfolding copy_loop_udp
  copy_loop_udp-IsAssociation k tcp_fd udp_fd s =
      elim (Answer-cases (os.getpeername s.world udp_fd).0) [
        | inl (v, e) ↦
            rw (e, copy_loop_udp) (started _ (start_association-IsRelayed k tcp_fd udp_fd true _))
        | inr (x, e) ↦ elim (Bool-cases (is_unconnected x)) [
          | inl t ↦
              rw (e, copy_loop_udp, t)
                (started _ (start_association-IsRelayed k tcp_fd udp_fd false _))
          | inr t ↦ rw (e, copy_loop_udp, t) (x, e, t)
        ]
      ]
    where
      started : (r : Udp × Sys W) → IsRelayed net udp_fd (start s) r → IsAssociation udp_fd s r
      started (ended, s') h = h
      started (going, s') h = h
      started (crashed, s') h = absurd h
