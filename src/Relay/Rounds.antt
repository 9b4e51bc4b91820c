-- ===== src/Relay/Rounds.antt =====
-- `copyloop`: what holds of both directions and of the counters after any number of rounds.
use two_socks.Prelude.{
  ℕ, zero, suc, ◌+◌, ◌%◌, ◌^◌, ◌≡◌, ◌≢◌, refl, sym, ap, ◌∙◌, Bool, true, false, not, ◌||◌, ◌&&◌, [],
  ◌∷◌, append-nil, arith, inl, inr, Option, some, none, Bool-cases,
}
use two_socks.Codes.{ConnectionState, is_open, closed, failed}
use two_socks.Os.{Os, Poll, Poll-cases, Revents}
use two_socks.System.{Sys, moved, record_downloaded_bytes, record_uploaded_bytes}
use two_socks.System.Trace.{received_from, sent_to}
use two_socks.Relay.{
  poll_timeout, Pending, nothing_pending, flush_pending_transfer_totals, Round, again, finished,
  cut_off, Loop, running, returned, stuck, unless_open, end_of_round, relay_if_readable, copy_ready,
  copy_round, copy_rounds, copyloop, revents_at, is_retry, tcp_copy_buffer_size,
  poll_revents_have_error, poll_revents_have_hangup,
}
use two_socks.Relay.Way.{
  total, pending, source, Way, Way-moved, Relayed, Relayed-Broken, Broken, IsFaithful,
}
use two_socks.Relay.Exact.{relay_data-IsFaithful}

flush_lem :
    {W : Type 0} (b : Bool) (p : Pending) (s : Sys W)
    → let s' = flush_pending_transfer_totals p s in
      (total b s' % 2 ^ 64 ≡ (total b s + pending b p) % 2 ^ 64) × (s'.trace ≡ s.trace)
unfolding flush_pending_transfer_totals record_downloaded_bytes record_uploaded_bytes
flush_lem true p s = ground arith
flush_lem false p s = ground arith

pending_none : (b : Bool) → pending b nothing_pending ≡ 0
pending_none true = refl
pending_none false = refl

module _ {W : Type 0} (os : Os W) (fd1 fd2 : ℕ) (s0 : Sys W) where
  flush-Way :
      (b : Bool) (p : Pending) (s : Sys W)
      → Way fd1 fd2 b s0 s p
      → Way fd1 fd2 b s0 (flush_pending_transfer_totals p s) nothing_pending
  flush-Way b p s h =
      let (counts, same) = flush_lem b p s in
      record {
        bytes = h.bytes;
        arrived = ap (received_from (source fd1 fd2 b)) same ∙ h.arrived;
        left = ap (sent_to (source fd1 fd2 (not b))) same ∙ h.left;
        counted = rw (pending_none b) (omega (arith, counts, h.counted));
        small = rw (pending_none b) (omega arith);
      }

  flush-Relayed :
      (p : Pending) (s : Sys W)
      → Relayed fd1 fd2 s0 s p
      → Relayed fd1 fd2 s0 (flush_pending_transfer_totals p s) nothing_pending
  flush-Relayed p s h b = flush-Way b p s (h b)

  -- One direction broke off within a chunk of the relay's buffer, and the other is exact.
  abbrev pub Severed : Sys W → Pending → Type 0
  Severed s p = Broken os tcp_copy_buffer_size fd1 fd2 s0 s p

  flush-Broken :
      (p : Pending) (s : Sys W)
      → Severed s p
      → Severed (flush_pending_transfer_totals p s) nothing_pending
  flush-Broken p s (b, h, k) =
      let (counts, same) = flush_lem b p s in
      (
        b,
        record {
          bytes = h.bytes;
          part = h.part;
          lost = h.lost;
          chunk = h.chunk;
          arrived = ap (received_from (source fd1 fd2 b)) same ∙ h.arrived;
          left = ap (sent_to (source fd1 fd2 (not b))) same ∙ h.left;
          counted = rw (pending_none b) (omega (arith, counts, h.counted));
        },
        flush-Way (not b) p s k,
      )

  -- Nothing was cut off.
  flushed-Severed :
      (p : Pending) (s : Sys W)
      → Relayed fd1 fd2 s0 s p
      → Severed (flush_pending_transfer_totals p s) nothing_pending
  flushed-Severed p s h =
      Relayed-Broken os tcp_copy_buffer_size fd1 fd2 s0 _ nothing_pending (flush-Relayed p s h)

  -- What a round leaves: both directions exact with the bytes pending, both exact and counted, or
  -- broken off.
  abbrev IsRound : Round × Sys W → Type 0
  IsRound (again p, s) = Relayed fd1 fd2 s0 s p
  IsRound (finished is_open, s) = ⊥
  IsRound (finished closed, s) = Relayed fd1 fd2 s0 s nothing_pending
  IsRound (finished failed, s) = Severed s nothing_pending
  IsRound (cut_off, s) = ⊥

  -- The same of the loop: while it runs and when it has closed, every byte that arrived was sent
  -- on in order; when it has failed, all but the end of one chunk of one direction.
  abbrev pub IsLoop : Loop × Sys W → Type 0
  IsLoop (running p, s) = Relayed fd1 fd2 s0 s p
  IsLoop (returned is_open, s) = ⊥
  IsLoop (returned closed, s) = Relayed fd1 fd2 s0 s nothing_pending
  IsLoop (returned failed, s) = Severed s nothing_pending
  IsLoop (stuck, s) = ⊥

  unless_open-IsRound :
      (r : Option ConnectionState × Pending × Sys W) (next : Pending → Sys W → Round × Sys W)
      → IsFaithful os tcp_copy_buffer_size fd1 fd2 s0 r
      → ((p : Pending) (s : Sys W) → Relayed fd1 fd2 s0 s p → IsRound (next p s))
      → IsRound (unless_open r next)
  unless_open-IsRound (none, p, s) next h k = h
  unless_open-IsRound (some is_open, p, s) next h k = k p s h
  unless_open-IsRound (some closed, p, s) next h k = flush-Relayed p s h
  unless_open-IsRound (some failed, p, s) next h k = flush-Broken p s h

  end_of_round-IsRound :
      (r0 r1 : Revents) (p : Pending) (s : Sys W)
      → Relayed fd1 fd2 s0 s p
      → IsRound (end_of_round r0 r1 p s)
  unfolding end_of_round
  end_of_round-IsRound r0 r1 p s h =
      elim (Bool-cases (
        not (r0.pollin || r1.pollin)
        && (poll_revents_have_hangup r0 || poll_revents_have_hangup r1))) [
          | inl gone ↦ rw gone (flush-Relayed p s h)
          | inr here ↦ rw here h
        ]

module _ {W : Type 0} (os : Os W) (fd1 fd2 : ℕ) where
  -- One more round after a round's outcome.
  abbrev pub go_on : ℕ → Round × Sys W → Loop × Sys W
  go_on k (again p, s) = copy_rounds os k fd1 fd2 p s
  go_on k (finished st, s) = (returned st, s)
  go_on k (cut_off, s) = (stuck, s)

  pub copy_rounds-suc :
      (k : ℕ) (p : Pending) (s : Sys W)
      → copy_rounds os (suc k) fd1 fd2 p s ≡ go_on k (copy_round os fd1 fd2 p s)
  unfolding copy_rounds
  copy_rounds-suc k p s = ground arith

module _ {W : Type 0} (os : Os W) (fd1 fd2 : ℕ) (apart : fd1 ≢ fd2) (s0 : Sys W) where
  relay_if_readable-IsFaithful :
      (b : Bool) (r : Revents) (p : Pending) (s : Sys W)
      → Relayed fd1 fd2 s0 s p
      → IsFaithful os tcp_copy_buffer_size fd1 fd2 s0
          (relay_if_readable os r (source fd1 fd2 b) (source fd1 fd2 (not b)) b p s)
  unfolding relay_if_readable
  relay_if_readable-IsFaithful b r p s h = elim (Bool-cases r.pollin) [
    | inl e ↦ rw e (relay_data-IsFaithful os fd1 fd2 apart b tcp_copy_buffer_size s0 s p h)
    | inr e ↦ rw e h
  ]

  copy_ready-IsRound :
      (r0 r1 : Revents) (p : Pending) (s : Sys W)
      → Relayed fd1 fd2 s0 s p
      → IsRound os fd1 fd2 s0 (copy_ready os fd1 fd2 r0 r1 p s)
  unfolding copy_ready
  copy_ready-IsRound r0 r1 p s h =
      elim (Bool-cases (poll_revents_have_error r0 || poll_revents_have_error r1)) [
        | inl e ↦ rw e (flushed-Severed os fd1 fd2 s0 p s h)
        | inr e ↦ rw e (
            unless_open-IsRound os fd1 fd2 s0 _ _ (relay_if_readable-IsFaithful true r0 p s h)
              λ p' s' h'.
                unless_open-IsRound os fd1 fd2 s0 _ _
                  (relay_if_readable-IsFaithful false r1 p' s' h')
                  (end_of_round-IsRound os fd1 fd2 s0 r0 r1))
      ]

  copy_round-IsRound :
      (p : Pending) (s : Sys W)
      → Relayed fd1 fd2 s0 s p
      → IsRound os fd1 fd2 s0 (copy_round os fd1 fd2 p s)
  unfolding copy_round
  copy_round-IsRound p s h = elim (Poll-cases answer.0) [
    | inl e ↦ rw (e, copy_round) (flush-Relayed os fd1 fd2 s0 p _ h')
    | inr (inl (x, e)) ↦ elim (Bool-cases (is_retry x)) [
      | inl retry ↦ rw (e, copy_round, retry) h'
      | inr give_up ↦ rw (e, copy_round, give_up) (flushed-Severed os fd1 fd2 s0 p _ h')
    ]
    | inr (inr (rs, e)) ↦
        rw (e, copy_round) (copy_ready-IsRound (revents_at rs 0) (revents_at rs 1) p _ h')
  ]
    where
      answer : Poll × W
      answer = os.poll s.world (fd1 ∷ fd2 ∷ []) poll_timeout

      h' : Relayed fd1 fd2 s0 (moved answer.1 s) p
      h' b = Way-moved fd1 fd2 answer.1 (h b)

  go_on-IsLoop :
      (k : ℕ)
      → ((p : Pending) (s : Sys W)
          → Relayed fd1 fd2 s0 s p
          → IsLoop os fd1 fd2 s0 (copy_rounds os k fd1 fd2 p s))
      → (r : Round × Sys W) → IsRound os fd1 fd2 s0 r
      → IsLoop os fd1 fd2 s0 (go_on os fd1 fd2 k r)
  go_on-IsLoop k rest (again p, s) h = rest p s h
  go_on-IsLoop k rest (finished is_open, s) h = h
  go_on-IsLoop k rest (finished closed, s) h = h
  go_on-IsLoop k rest (finished failed, s) h = h
  go_on-IsLoop k rest (cut_off, s) h = h

  copy_rounds-IsLoop :
      (k : ℕ) (p : Pending) (s : Sys W)
      → Relayed fd1 fd2 s0 s p
      → IsLoop os fd1 fd2 s0 (copy_rounds os k fd1 fd2 p s)
  unfolding copy_rounds
  copy_rounds-IsLoop zero p s h = h
  copy_rounds-IsLoop (suc k) p s h =
      rw (copy_rounds-suc os fd1 fd2 k p s) (
        go_on-IsLoop k (copy_rounds-IsLoop k) (copy_round os fd1 fd2 p s)
          (copy_round-IsRound p s h))

module _ {W : Type 0} (os : Os W) (fd1 fd2 : ℕ) where
  nothing_yet : (s : Sys W) → Relayed fd1 fd2 s s nothing_pending
  nothing_yet s b = record {
    bytes = [];
    arrived = sym (append-nil (received_from (source fd1 fd2 b) s.trace));
    left = sym (append-nil (sent_to (source fd1 fd2 (not b)) s.trace));
    counted = rw (pending_none b) refl;
    small = rw (pending_none b) (omega arith);
  }

  -- Between two different descriptors, `copyloop` sends on each what arrives on the other, byte for
  -- byte and in order, in both directions at once, after any number of rounds. While it runs, less
  -- than 64 KiB of each direction are not yet counted; when it has closed, all are. When it has
  -- failed, one direction is exact and counted; the other is, up to one chunk, which is what a
  -- single read for at most its buffer returned, of which only a part from its start may have been
  -- sent. It never returns "open", and no round waits for writes without end.
  pub copyloop-IsLoop :
      (k : ℕ) (s : Sys W) → fd1 ≢ fd2 → IsLoop os fd1 fd2 s (copyloop os k fd1 fd2 s)
  unfolding copyloop
  copyloop-IsLoop k s apart =
      copy_rounds-IsLoop os fd1 fd2 apart s k nothing_pending s (nothing_yet s)
