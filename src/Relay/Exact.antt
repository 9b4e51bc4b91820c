-- ===== src/Relay/Exact.antt =====
-- `relay_data` keeps both directions exact, or breaks off within one chunk.
use two_socks.Prelude.{
  ℕ, ◌≡◌, ◌≢◌, refl, sym, ap, ◌∙◌, Bool, true, false, not, List, [], ◌++◌, append-nil, append_assoc,
  arith, inl, inr, length, length-append, ◌==◌, ==_self, Bool-cases,
}
use two_socks.Os.{Os, got, Received-cases}
use two_socks.System.{Sys, received, note, moved}
use two_socks.System.Trace.{received_from, sent_to}
use two_socks.Relay.{Pending, write_all, Written, Written-cases, relay_chunk, relay_data}
use two_socks.Relay.Writes.{Wrote, write_all-Wrote, write_all-ne-unfinished}
use two_socks.Relay.Way.{
  total, pending, Accounted, account-Accounted, source, Way, Cut, Relayed-Broken, Way-moved,
  Relayed, Broken, IsFaithful,
}

both {ℓ} : (P : Bool → Type ℓ) (b : Bool) → P b → P (not b) → (c : Bool) → P c
both P true x y true = x
both P true x y false = y
both P false x y true = y
both P false x y false = x

module _ {W : Type 0} (os : Os W) (fd1 fd2 : ℕ) (apart : fd1 ≢ fd2) where
  source_apart : (b : Bool) → source fd1 fd2 (not b) ≢ source fd1 fd2 b
  source_apart true e = apart (sym e)
  source_apart false e = apart e

  -- A chunk of direction `b` was read, and the writes of it are over.
  module _ (b : Bool) (bytes : List ℕ) (s0 s : Sys W) (p : Pending) {w : Written} {s' : Sys W}
      (before : Relayed fd1 fd2 s0 s p)
      (r : Wrote os
        (source fd1 fd2 (not b))
        bytes
        (note (received (source fd1 fd2 b) bytes) s)
        w
        s') where
    chunk_arrived :
        received_from (source fd1 fd2 b) s'.trace
        ≡ received_from (source fd1 fd2 b) s0.trace ++ ((before b).bytes ++ bytes)
    chunk_arrived =
        r.arrived (source fd1 fd2 b)
        ∙ rw (==_self (source fd1 fd2 b), (before b).arrived)
            (append_assoc (received_from (source fd1 fd2 b) s0.trace) (before b).bytes bytes)

    chunk_left :
        sent_to (source fd1 fd2 (not b)) s'.trace
        ≡ sent_to (source fd1 fd2 (not b)) s0.trace ++ ((before b).bytes ++ r.part)
    chunk_left =
        r.went
        ∙ rw ((before b).left)
            (append_assoc (sent_to (source fd1 fd2 (not b)) s0.trace) (before b).bytes r.part)

    total_kept : (c : Bool) → total c s' ≡ total c s
    total_kept true = r.uploaded
    total_kept false = r.downloaded

    chunk_Way :
        (p' : Pending) (s'' : Sys W)
        → r.lost ≡ []
        → Accounted b (length bytes) p s' p' s''
        → Way fd1 fd2 b s0 s'' p'
    chunk_Way p' s'' none_lost a = record {
      bytes = (before b).bytes ++ bytes;
      arrived = ap (received_from (source fd1 fd2 b)) a.same_trace ∙ chunk_arrived;
      left =
          ap (sent_to (source fd1 fd2 (not b))) a.same_trace
          ∙ chunk_left
          ∙ ap (λ x. sent_to (source fd1 fd2 (not b)) s0.trace ++ ((before b).bytes ++ x)) whole;
      counted = omega (
        arith,
        a.counted,
        total_kept b,
        (before b).counted,
        length-append (before b).bytes bytes,
      );
      small = a.small;
    }
      where
        whole : r.part ≡ bytes
        whole = sym (append-nil r.part) ∙ ap (λ x. r.part ++ x) (sym none_lost) ∙ sym r.parts

    other_arrived :
        received_from (source fd1 fd2 (not b)) s'.trace
        ≡ received_from (source fd1 fd2 (not b)) s.trace
    other_arrived =
        r.arrived (source fd1 fd2 (not b))
        ∙ ground
            (arith, source_apart b, append-nil (received_from (source fd1 fd2 (not b)) s.trace))

    other_left :
        sent_to (source fd1 fd2 (not (not b))) s'.trace
        ≡ sent_to (source fd1 fd2 (not (not b))) s.trace
    other_left = r.others (source fd1 fd2 (not (not b))) (λ e. source_apart (not b) (sym e))

    chunk_other :
        (p' : Pending) (s'' : Sys W)
        → s''.trace ≡ s'.trace
        → total (not b) s'' ≡ total (not b) s'
        → pending (not b) p' ≡ pending (not b) p
        → Way fd1 fd2 (not b) s0 s'' p'
    chunk_other p' s'' same_trace other_total other_pending = record {
      bytes = (before (not b)).bytes;
      arrived =
          ap (received_from (source fd1 fd2 (not b))) same_trace
          ∙ other_arrived
          ∙ (before (not b)).arrived;
      left =
          ap (sent_to (source fd1 fd2 (not (not b)))) same_trace
          ∙ other_left
          ∙ (before (not b)).left;
      counted =
          omega (arith, other_total, other_pending, total_kept (not b), (before (not b)).counted);
      small = omega (arith, other_pending, (before (not b)).small);
    }

    -- The bytes came by one read for `n` of them.
    chunk_Cut :
        (n : ℕ) (world : W)
        → (os.read world (source fd1 fd2 b) n).0 ≡ got bytes
        → Cut os n fd1 fd2 b s0 s' p
    chunk_Cut n world came = record {
      bytes = (before b).bytes;
      part = r.part;
      lost = r.lost;
      chunk = inr (world, came ∙ ap got r.parts);
      arrived =
          chunk_arrived
          ∙ ap (λ x. received_from (source fd1 fd2 b) s0.trace ++ ((before b).bytes ++ x)) r.parts;
      left = chunk_left;
      counted = omega (arith, total_kept b, (before b).counted);
    }

    chunk_Relayed :
        (p' : Pending) (s'' : Sys W)
        → r.lost ≡ []
        → Accounted b (length bytes) p s' p' s''
        → Relayed fd1 fd2 s0 s'' p'
    chunk_Relayed p' s'' none_lost a =
        both (λ c. Way fd1 fd2 c s0 s'' p') b (chunk_Way p' s'' none_lost a)
          (chunk_other p' s'' a.same_trace a.other_total a.other_pending)

    chunk_Broken :
        (n : ℕ) (world : W)
        → (os.read world (source fd1 fd2 b) n).0 ≡ got bytes
        → Broken os n fd1 fd2 s0 s' p
    chunk_Broken n world came = (b, chunk_Cut n world came, chunk_other p s' refl refl refl)

  relay_chunk-IsFaithful :
      (b : Bool) (bytes : List ℕ) (s0 s : Sys W) (p : Pending) (n : ℕ) (world : W)
      → (os.read world (source fd1 fd2 b) n).0 ≡ got bytes
      → Relayed fd1 fd2 s0 s p
      → IsFaithful os n fd1 fd2 s0 (
          relay_chunk os
            (source fd1 fd2 (not b))
            b
            bytes
            p
            (note (received (source fd1 fd2 b) bytes) s))
  unfolding relay_chunk
  relay_chunk-IsFaithful b bytes s0 s p n world came before =
      elim (Written-cases (write_all os (length bytes) out bytes s1).0) [
        | inl e ↦
            rw (e, relay_chunk)
              (chunk_Relayed b bytes s0 s p before r _ _ (r.whole e) (account-Accounted b _ p _))
        | inr (inl e) ↦ rw (e, relay_chunk) (chunk_Broken b bytes s0 s p before r n world came)
        | inr (inr e) ↦
            absurd (write_all-ne-unfinished os (length bytes) out bytes s1 (omega arith) e)
      ]
    where
      out : ℕ
      out = source fd1 fd2 (not b)

      s1 : Sys W
      s1 = note (received (source fd1 fd2 b) bytes) s

      r :
          Wrote os out bytes s1
            (write_all os (length bytes) out bytes s1).0
            (write_all os (length bytes) out bytes s1).1
      r = write_all-Wrote os (length bytes) out bytes s1

  -- Where both directions between two different descriptors are exact so far, one relay of a chunk
  -- from either side keeps them exact, or, if it fails, one direction is exact and the other is up
  -- to one chunk, which is what a single read for the number of bytes asked for returned, and of
  -- which only a part from its start may have been sent; it always returns.
  pub relay_data-IsFaithful :
      (b : Bool) (n : ℕ) (s0 s : Sys W) (p : Pending)
      → Relayed fd1 fd2 s0 s p
      → IsFaithful os n fd1 fd2 s0
          (relay_data os (source fd1 fd2 b) (source fd1 fd2 (not b)) n b p s)
  unfolding relay_data
  relay_data-IsFaithful b n s0 s p before =
      elim (Received-cases (os.read s.world (source fd1 fd2 b) n).0) [
        | inr (x, e) ↦
            rw (e, relay_data) (Relayed-Broken os n fd1 fd2 s0 _ p (λ c. still (before c)))
        | inl (bytes, e) ↦ elim (Bool-cases (length bytes == 0)) [
          | inl ended ↦ rw (e, relay_data, ended) (λ c. still (before c))
          | inr more ↦
              rw (e, relay_data, more)
                (relay_chunk-IsFaithful b bytes s0 (moved world s) p n s.world e
                  (λ c. still (before c)))
        ]
      ]
    where
      world : W
      world = (os.read s.world (source fd1 fd2 b) n).1

      still : {c : Bool} → Way fd1 fd2 c s0 s p → Way fd1 fd2 c s0 (moved world s) p
      still w = Way-moved fd1 fd2 world w
