-- ===== src/Relay.antt =====
-- TwoSocks/microsocks/sockssrv.c: `relay_data` and `copyloop`, the relay of a TCP connection.
pub mod Writes
pub mod Way
pub mod Exact
pub mod Rounds
pub mod Frame
use two_socks.Prelude.{
  ◌≡◌, refl, ◌⊎◌, inl, inr, ℕ, zero, suc, ◌+◌, ◌*◌, ◌%◌, ◌^◌, Bool, true, false, ◌||◌, ◌&&◌, not,
  List, [], ◌∷◌, Option, none, some, length, drop, take, leb, ◌==◌, if◌then◌else◌,
}
use two_socks.Codes.{ConnectionState, is_open, closed, failed}
use two_socks.Platform.{Errno, eintr, eagain}
use two_socks.Os.{
  Os, Poll, timeout, poll_failed, ready, Received, got, receive_failed, Sent, taken, send_failed,
  Revents,
}
use two_socks.System.{
  Sys, record_downloaded_bytes, record_uploaded_bytes, moved, note, sent, received,
}

abbrev pub tcp_copy_buffer_size : ℕ
tcp_copy_buffer_size = 32 * 1024

abbrev pub accounting_flush_bytes : ℕ
accounting_flush_bytes = 64 * 1024

-- `60*15*1000`, the timeout of every `poll`
abbrev pub poll_timeout : ℕ
poll_timeout = 60 * 15 * 1000

-- `pending_downloaded_bytes` and `pending_uploaded_bytes`
pub record Pending : Type 0 where
  pub down : ℕ
  pub up : ℕ

abbrev pub nothing_pending : Pending
nothing_pending = record { down = 0; up = 0 }

unfoldable pub poll_revents_have_error : Revents → Bool
poll_revents_have_error r = r.pollerr || r.pollnval

unfoldable pub poll_revents_have_hangup : Revents → Bool
poll_revents_have_hangup r = if r.pollrdhup then true else r.pollhup

-- `revents` of the descriptor at an index of the array that was given to `poll`.
abbrev pub quiet : Revents
quiet = record {
  pollin = false;
  pollerr = false;
  pollnval = false;
  pollhup = false;
  pollrdhup = false;
}

abbrev pub revents_at : List Revents → ℕ → Revents
revents_at [] i = quiet
revents_at (r ∷ rs) zero = r
revents_at (r ∷ rs) (suc i) = revents_at rs i

-- The errors after which `poll` is called again.
abbrev pub is_retry : Errno → Bool
is_retry eintr = true
is_retry eagain = true
is_retry _ = false

-- How the loop of writes ended; `unfinished` is that the rounds given did not suffice.
pub data Written : Type 0 where
  all_written write_error unfinished : Written

pub Written-cases : (w : Written) → (w ≡ all_written) ⊎ (w ≡ write_error) ⊎ (w ≡ unfinished)
Written-cases all_written = inl refl
Written-cases write_error = inr (inl refl)
Written-cases unfinished = inr (inr refl)

-- How one round of `copyloop` ended.
pub data Round : Type 0 where
  again : Pending → Round
  finished : ConnectionState → Round
  cut_off : Round

-- Where `copyloop` is after some rounds.
pub data Loop : Type 0 where
  running : Pending → Loop
  returned : ConnectionState → Loop
  stuck : Loop

module _ {W : Type 0} where
  unfoldable pub flush_pending_transfer_totals : Pending → Sys W → Sys W
  flush_pending_transfer_totals p s =
      let s' = if p.down == 0 then s else record_downloaded_bytes p.down s in
      if p.up == 0 then s' else record_uploaded_bytes p.up s'

  -- The accounting at the end of `relay_data`, for `n` bytes.
  unfoldable pub account : Bool → ℕ → Pending → Sys W → Pending × Sys W
  account true n p s =
      let up = (p.up + n) % 2 ^ 64 in
      if leb accounting_flush_bytes up
      then (record p { up = 0 }, record_uploaded_bytes up s)
      else (record p { up = up }, s)
  account false n p s =
      let down = (p.down + n) % 2 ^ 64 in
      if leb accounting_flush_bytes down
      then (record p { down = 0 }, record_downloaded_bytes down s)
      else (record p { down = down }, s)

  -- What follows a relay: a result other than "open" ends the loop.
  abbrev pub unless_open :
      Option ConnectionState × Pending × Sys W → (Pending → Sys W → Round × Sys W) → Round × Sys W
  unless_open (none, p, s) next = (cut_off, s)
  unless_open (some is_open, p, s) next = next p s
  unless_open (some closed, p, s) next = (finished closed, flush_pending_transfer_totals p s)
  unless_open (some failed, p, s) next = (finished failed, flush_pending_transfer_totals p s)

  -- The end of a round: a hangup counts only where nothing was readable.
  unfoldable pub end_of_round : Revents → Revents → Pending → Sys W → Round × Sys W
  unfolding poll_revents_have_hangup
  end_of_round r0 r1 p s =
      if not (r0.pollin || r1.pollin)
        && (poll_revents_have_hangup r0 || poll_revents_have_hangup r1)
      then (finished closed, flush_pending_transfer_totals p s)
      else (again p, s)

  module _ (os : Os W) where
    -- `while(sent < n)`, on the bytes that are left to write.
    unfoldable pub write_all : ℕ → ℕ → List ℕ → Sys W → Written × Sys W
    write_all fuel fd [] s = (all_written, s)
    write_all zero fd (b ∷ bs) s = (unfinished, s)
    write_all (suc fuel) fd (b ∷ bs) s =
        let (r, w) = os.write s.world fd (b ∷ bs) in
        elim r [
          | taken m ↦
              write_all fuel fd (drop m (b ∷ bs)) (note (sent fd (take m (b ∷ bs))) (moved w s))
          | send_failed e ↦ (write_error, moved w s)
        ]

    unfoldable pub relay_chunk :
        ℕ → Bool → List ℕ → Pending → Sys W → Option ConnectionState × Pending × Sys W
    unfolding account
    relay_chunk outfd counts_as_upload bytes p s =
        let (w, s') = write_all (length bytes) outfd bytes s in
        elim w [
          | unfinished ↦ (none, p, s')
          | write_error ↦ (some failed, p, s')
          | all_written ↦
              let (p', s'') = account counts_as_upload (length bytes) p s' in
              (some is_open, p', s'')
        ]

    unfoldable pub relay_data :
        ℕ → ℕ → ℕ → Bool → Pending → Sys W → Option ConnectionState × Pending × Sys W
    relay_data infd outfd buf_size counts_as_upload p s =
        let (r, w) = os.read s.world infd buf_size in
        elim r [
          | receive_failed e ↦ (some failed, p, moved w s)
          | got bytes ↦
              if length bytes == 0
              then (some closed, p, moved w s)
              else relay_chunk outfd counts_as_upload bytes p
                  (note (received infd bytes) (moved w s))
        ]

    -- One direction of a round: a relay if the descriptor is readable.
    unfoldable pub relay_if_readable :
        Revents → ℕ → ℕ → Bool → Pending → Sys W → Option ConnectionState × Pending × Sys W
    relay_if_readable r infd outfd counts_as_upload p s =
        if r.pollin
        then relay_data infd outfd tcp_copy_buffer_size counts_as_upload p s
        else (some is_open, p, s)

    unfoldable pub copy_ready : ℕ → ℕ → Revents → Revents → Pending → Sys W → Round × Sys W
    unfolding poll_revents_have_error
    copy_ready fd1 fd2 r0 r1 p s =
        if poll_revents_have_error r0 || poll_revents_have_error r1
        then (finished failed, flush_pending_transfer_totals p s)
        else unless_open (relay_if_readable r0 fd1 fd2 true p s)
            λ p' s'. unless_open (relay_if_readable r1 fd2 fd1 false p' s') (end_of_round r0 r1)

    -- The body of `copyloop`'s `while(1)`.
    unfoldable pub copy_round : ℕ → ℕ → Pending → Sys W → Round × Sys W
    copy_round fd1 fd2 p s =
        let (r, w) = os.poll s.world (fd1 ∷ fd2 ∷ []) poll_timeout in
        let s' = moved w s in
        elim r [
          | timeout ↦ (finished closed, flush_pending_transfer_totals p s')
          | poll_failed e ↦
              if is_retry e
              then (again p, s')
              else (finished failed, flush_pending_transfer_totals p s')
          | ready rs ↦ copy_ready fd1 fd2 (revents_at rs 0) (revents_at rs 1) p s'
        ]

    unfoldable pub copy_rounds : ℕ → ℕ → ℕ → Pending → Sys W → Loop × Sys W
    copy_rounds zero fd1 fd2 p s = (running p, s)
    copy_rounds (suc k) fd1 fd2 p s =
        let (r, s') = copy_round fd1 fd2 p s in
        elim r [
          | again p' ↦ copy_rounds k fd1 fd2 p' s'
          | finished st ↦ (returned st, s')
          | cut_off ↦ (stuck, s')
        ]

    -- `copyloop`, for at most `k` rounds.
    unfoldable pub copyloop : ℕ → ℕ → ℕ → Sys W → Loop × Sys W
    unfolding copy_rounds
    copyloop k fd1 fd2 s = copy_rounds k fd1 fd2 nothing_pending s
