-- ===== src/Relay/Frame.antt =====
-- What the steps of the relay keep, the relay keeps: it receives, sends and counts, and does
-- nothing else.
use two_socks.Prelude.{
  ℕ, zero, suc, ◌+◌, ◌%◌, ◌^◌, Bool, true, false, not, ◌||◌, ◌&&◌, List, [], ◌∷◌, inl, inr, length,
  take, drop, if◌then◌else◌, ◌==◌, leb, Option, some, none, Bool-cases,
}
use two_socks.Codes.{ConnectionState, is_open, closed, failed}
use two_socks.Os.{Os, Received-cases, Sent-cases, Poll-cases, Revents}
use two_socks.System.{
  Sys, moved, note, received, sent, record_downloaded_bytes, record_uploaded_bytes,
}
use two_socks.Relay.{
  poll_timeout, Pending, accounting_flush_bytes, nothing_pending, flush_pending_transfer_totals,
  account, write_all, Written-cases, relay_chunk, relay_data, Round, again, finished, cut_off,
  unless_open, end_of_round, relay_if_readable, copy_ready, copy_round, copy_rounds, copyloop,
  revents_at, is_retry, tcp_copy_buffer_size, poll_revents_have_error, poll_revents_have_hangup,
}
use two_socks.Relay.Rounds.{go_on, copy_rounds-suc}

-- A property of the state that no single step of the relay breaks.
pub record IsFrame {W : Type 0} (P : Sys W → Type 0) : Type 0 where
  pub world : (w : W) (s : Sys W) → P s → P (moved w s)
  pub receive : (fd : ℕ) (bytes : List ℕ) (s : Sys W) → P s → P (note (received fd bytes) s)
  pub send : (fd : ℕ) (bytes : List ℕ) (s : Sys W) → P s → P (note (sent fd bytes) s)
  pub down : (n : ℕ) (s : Sys W) → P s → P (record s { downloaded = n })
  pub up : (n : ℕ) (s : Sys W) → P s → P (record s { uploaded = n })

module _ {W : Type 0} (P : Sys W → Type 0) (frame : IsFrame P) where
  if-keeps : (b : Bool) (s s' : Sys W) → P s → P s' → P (if b then s else s')
  if-keeps true s s' h h' = h
  if-keeps false s s' h h' = h'

  record_downloaded-keeps : (n : ℕ) (s : Sys W) → P s → P (record_downloaded_bytes n s)
  unfolding record_downloaded_bytes
  record_downloaded-keeps n s h = if-keeps (n == 0) s _ h (frame.down _ s h)

  record_uploaded-keeps : (n : ℕ) (s : Sys W) → P s → P (record_uploaded_bytes n s)
  unfolding record_uploaded_bytes
  record_uploaded-keeps n s h = if-keeps (n == 0) s _ h (frame.up _ s h)

  flush-keeps : (p : Pending) (s : Sys W) → P s → P (flush_pending_transfer_totals p s)
  unfolding flush_pending_transfer_totals
  flush-keeps p s h =
      let h' = if-keeps (p.down == 0) s _ h (record_downloaded-keeps p.down s h) in
      if-keeps (p.up == 0) _ _ h' (record_uploaded-keeps p.up _ h')

  account-keeps : (b : Bool) (n : ℕ) (p : Pending) (s : Sys W) → P s → P (account b n p s).1
  unfolding account
  account-keeps true n p s h =
      elim (Bool-cases (leb accounting_flush_bytes ((p.up + n) % 2 ^ 64))) [
        | inl e ↦ rw e (record_uploaded-keeps _ s h)
        | inr e ↦ rw e h
      ]
  account-keeps false n p s h =
      elim (Bool-cases (leb accounting_flush_bytes ((p.down + n) % 2 ^ 64))) [
        | inl e ↦ rw e (record_downloaded-keeps _ s h)
        | inr e ↦ rw e h
      ]

  module _ (os : Os W) where
    write_all-keeps :
        (fuel fd : ℕ) (bytes : List ℕ) (s : Sys W) → P s → P (write_all os fuel fd bytes s).1
    unfolding write_all
    write_all-keeps fuel fd [] s h = h
    write_all-keeps zero fd (b ∷ bs) s h = h
    write_all-keeps (suc fuel) fd (b ∷ bs) s h =
        elim (Sent-cases (os.write s.world fd (b ∷ bs)).0) [
          | inl (m, e) ↦
              rw (e, write_all)
                (write_all-keeps fuel fd (drop m (b ∷ bs)) _
                  (frame.send fd (take m (b ∷ bs)) _ (frame.world _ s h)))
          | inr (x, e) ↦ rw (e, write_all) (frame.world _ s h)
        ]

    relay_chunk-keeps :
        (fd : ℕ) (b : Bool) (bytes : List ℕ) (p : Pending) (s : Sys W)
        → P s
        → P (relay_chunk os fd b bytes p s).2
    unfolding relay_chunk
    relay_chunk-keeps fd b bytes p s h =
        let h' = write_all-keeps (length bytes) fd bytes s h in
        elim (Written-cases (write_all os (length bytes) fd bytes s).0) [
          | inl e ↦ rw (e, relay_chunk) (account-keeps b (length bytes) p _ h')
          | inr (inl e) ↦ rw (e, relay_chunk) h'
          | inr (inr e) ↦ rw (e, relay_chunk) h'
        ]

    relay_data-keeps :
        (infd outfd n : ℕ) (b : Bool) (p : Pending) (s : Sys W)
        → P s
        → P (relay_data os infd outfd n b p s).2
    unfolding relay_data
    relay_data-keeps infd outfd n b p s h = elim (Received-cases (os.read s.world infd n).0) [
      | inr (x, e) ↦ rw (e, relay_data) (frame.world _ s h)
      | inl (bytes, e) ↦ elim (Bool-cases (length bytes == 0)) [
        | inl ended ↦ rw (e, relay_data, ended) (frame.world _ s h)
        | inr more ↦
            rw (e, relay_data, more)
              (relay_chunk-keeps outfd b bytes p _ (frame.receive infd bytes _ (frame.world _ s h)))
      ]
    ]

    relay_if_readable-keeps :
        (r : Revents) (infd outfd : ℕ) (b : Bool) (p : Pending) (s : Sys W)
        → P s
        → P (relay_if_readable os r infd outfd b p s).2
    unfolding relay_if_readable
    relay_if_readable-keeps r infd outfd b p s h = elim (Bool-cases r.pollin) [
      | inl e ↦ rw e (relay_data-keeps infd outfd tcp_copy_buffer_size b p s h)
      | inr e ↦ rw e h
    ]

  unless_open-keeps :
      (r : Option ConnectionState × Pending × Sys W) (next : Pending → Sys W → Round × Sys W)
      → P r.2
      → ((p : Pending) (s : Sys W) → P s → P (next p s).1)
      → P (unless_open r next).1
  unless_open-keeps (none, p, s) next h k = h
  unless_open-keeps (some is_open, p, s) next h k = k p s h
  unless_open-keeps (some closed, p, s) next h k = flush-keeps p s h
  unless_open-keeps (some failed, p, s) next h k = flush-keeps p s h

  end_of_round-keeps :
      (r0 r1 : Revents) (p : Pending) (s : Sys W) → P s → P (end_of_round r0 r1 p s).1
  unfolding end_of_round
  end_of_round-keeps r0 r1 p s h =
      elim (Bool-cases (
        not (r0.pollin || r1.pollin)
        && (poll_revents_have_hangup r0 || poll_revents_have_hangup r1))) [
          | inl e ↦ rw e (flush-keeps p s h)
          | inr e ↦ rw e h
        ]

  module _ (os : Os W) (fd1 fd2 : ℕ) where
    copy_ready-keeps :
        (r0 r1 : Revents) (p : Pending) (s : Sys W) → P s → P (copy_ready os fd1 fd2 r0 r1 p s).1
    unfolding copy_ready
    copy_ready-keeps r0 r1 p s h =
        elim (Bool-cases (poll_revents_have_error r0 || poll_revents_have_error r1)) [
          | inl e ↦ rw e (flush-keeps p s h)
          | inr e ↦ rw e (
              unless_open-keeps (relay_if_readable os r0 fd1 fd2 true p s)
                (λ p' s'.
                  unless_open (relay_if_readable os r1 fd2 fd1 false p' s') (end_of_round r0 r1))
                (relay_if_readable-keeps os r0 fd1 fd2 true p s h)
                λ p' s' h'.
                  unless_open-keeps (relay_if_readable os r1 fd2 fd1 false p' s')
                    (end_of_round r0 r1) (relay_if_readable-keeps os r1 fd2 fd1 false p' s' h')
                    (end_of_round-keeps r0 r1))
        ]

    copy_round-keeps : (p : Pending) (s : Sys W) → P s → P (copy_round os fd1 fd2 p s).1
    unfolding copy_round
    copy_round-keeps p s h = elim (Poll-cases (os.poll s.world (fd1 ∷ fd2 ∷ []) poll_timeout).0) [
      | inl e ↦ rw (e, copy_round) (flush-keeps p _ (frame.world _ s h))
      | inr (inl (x, e)) ↦ elim (Bool-cases (is_retry x)) [
        | inl retry ↦ rw (e, copy_round, retry) (frame.world _ s h)
        | inr give_up ↦ rw (e, copy_round, give_up) (flush-keeps p _ (frame.world _ s h))
      ]
      | inr (inr (rs, e)) ↦
          rw (e, copy_round)
            (copy_ready-keeps (revents_at rs 0) (revents_at rs 1) p _ (frame.world _ s h))
    ]

    go_on-keeps :
        (k : ℕ)
        → ((p : Pending) (s : Sys W) → P s → P (copy_rounds os k fd1 fd2 p s).1)
        → (r : Round × Sys W) → P r.1
        → P (go_on os fd1 fd2 k r).1
    go_on-keeps k rest (again p, s) h = rest p s h
    go_on-keeps k rest (finished st, s) h = h
    go_on-keeps k rest (cut_off, s) h = h

    copy_rounds-keeps : (k : ℕ) (p : Pending) (s : Sys W) → P s → P (copy_rounds os k fd1 fd2 p s).1
    unfolding copy_rounds
    copy_rounds-keeps zero p s h = h
    copy_rounds-keeps (suc k) p s h =
        rw (copy_rounds-suc os fd1 fd2 k p s)
          (go_on-keeps k (copy_rounds-keeps k) (copy_round os fd1 fd2 p s) (copy_round-keeps p s h))

    -- The relay keeps every such property.
    pub copyloop-keeps : (k : ℕ) (s : Sys W) → P s → P (copyloop os k fd1 fd2 s).1
    unfolding copyloop
    copyloop-keeps k s h = copy_rounds-keeps k nothing_pending s h
