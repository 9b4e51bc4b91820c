-- ===== src/Relay/Way.antt =====
-- One direction of the relay: what arrived on one descriptor left on the other, and was counted.
use two_socks.Prelude.{
  ℕ, ◌+◌, ◌%◌, ◌^◌, ◌<◌, ◌≡◌, refl, sym, ap, ◌∙◌, ◌⊎◌, inl, Bool, true, false, not, List, [], ◌++◌,
  append-nil, arith, length, Option, some, none,
}
use two_socks.Codes.{ConnectionState, is_open, closed, failed}
use two_socks.Os.{Os, got}
use two_socks.System.{Sys, moved, record_downloaded_bytes, record_uploaded_bytes}
use two_socks.System.Trace.{received_from, sent_to}
use two_socks.Relay.{Pending, accounting_flush_bytes, account}

-- The counter and the pending bytes of a direction; `true` is that of an upload.
module _ {W : Type 0} where
  abbrev pub total : Bool → Sys W → ℕ
  total true s = s.uploaded
  total false s = s.downloaded

abbrev pub pending : Bool → Pending → ℕ
pending true p = p.up
pending false p = p.down

pub record Accounted {W : Type 0} (b : Bool) (n : ℕ) (p : Pending) (s : Sys W) (p' : Pending)
    (s' : Sys W) : Type 0 where
  pub counted : (total b s' + pending b p') % 2 ^ 64 ≡ (total b s + pending b p + n) % 2 ^ 64
  pub small : pending b p' < accounting_flush_bytes
  pub other_total : total (not b) s' ≡ total (not b) s
  pub other_pending : pending (not b) p' ≡ pending (not b) p
  pub same_trace : s'.trace ≡ s.trace

pub account-Accounted :
    {W : Type 0} (b : Bool) (n : ℕ) (p : Pending) (s : Sys W)
    → let (p', s') = account b n p s in Accounted b n p s p' s'
unfolding account record_downloaded_bytes record_uploaded_bytes
account-Accounted true n p s = ground arith
account-Accounted false n p s = ground arith

module _ (fd1 fd2 : ℕ) where
  -- Uploads run from the client, `fd1`, to the target, `fd2`, and downloads back.
  abbrev pub source : Bool → ℕ
  source true = fd1
  source false = fd2

module _ {W : Type 0} (fd1 fd2 : ℕ) where
  -- Since `s0`, all that arrived was sent on, in order, and all of it is counted or pending.
  pub record Way (b : Bool) (s0 s : Sys W) (p : Pending) : Type 0 where
    pub bytes : List ℕ
    pub arrived :
        received_from (source fd1 fd2 b) s.trace
        ≡ received_from (source fd1 fd2 b) s0.trace ++ bytes
    pub left :
        sent_to (source fd1 fd2 (not b)) s.trace
        ≡ sent_to (source fd1 fd2 (not b)) s0.trace ++ bytes
    pub counted : (total b s + pending b p) % 2 ^ 64 ≡ (total b s0 + length bytes) % 2 ^ 64
    pub small : pending b p < accounting_flush_bytes

  -- A system call that moves no data changes nothing here.
  pub Way-moved :
      {b : Bool} {s0 s : Sys W} {p : Pending} (w : W) → Way b s0 s p → Way b s0 (moved w s) p
  Way-moved {b} {s0} {s} w way = record {
    bytes = way.bytes;
    arrived = way.arrived;
    left = way.left;
    counted = rw (total-moved b) way.counted;
    small = way.small;
  }
    where
      total-moved : (c : Bool) → total c (moved w s) ≡ total c s
      total-moved true = refl
      total-moved false = refl

  -- Both directions.
  abbrev pub Relayed : Sys W → Sys W → Pending → Type 0
  Relayed s0 s p = (b : Bool) → Way b s0 s p

module _ {W : Type 0} (os : Os W) (n fd1 fd2 : ℕ) where
  -- The same where the last chunk went out in part, and is not counted. The chunk is what one read
  -- for `n` bytes returned, or empty.
  pub record Cut (b : Bool) (s0 s : Sys W) (p : Pending) : Type 0 where
    pub bytes : List ℕ
    pub part : List ℕ
    pub lost : List ℕ
    pub chunk :
        (part ++ lost ≡ []) ⊎ ((w : W) × ((os.read w (source fd1 fd2 b) n).0 ≡ got (part ++ lost)))
    pub arrived :
        received_from (source fd1 fd2 b) s.trace
        ≡ received_from (source fd1 fd2 b) s0.trace ++ (bytes ++ (part ++ lost))
    pub left :
        sent_to (source fd1 fd2 (not b)) s.trace
        ≡ sent_to (source fd1 fd2 (not b)) s0.trace ++ (bytes ++ part)
    pub counted : (total b s + pending b p) % 2 ^ 64 ≡ (total b s0 + length bytes) % 2 ^ 64

  Way-Cut : {b : Bool} {s0 s : Sys W} {p : Pending} → Way fd1 fd2 b s0 s p → Cut b s0 s p
  Way-Cut {s0} w = record {
    bytes = w.bytes;
    part = [];
    lost = [];
    chunk = inl refl;
    arrived = w.arrived ∙ ap (λ x. received_from _ s0.trace ++ x) (sym (append-nil w.bytes));
    left = w.left ∙ ap (λ x. sent_to _ s0.trace ++ x) (sym (append-nil w.bytes));
    counted = w.counted;
  }

  -- One direction broke off within a chunk, and the other is exact.
  abbrev pub Broken : Sys W → Sys W → Pending → Type 0
  Broken s0 s p = (b : Bool) × Cut b s0 s p × Way fd1 fd2 (not b) s0 s p

  pub Relayed-Broken : (s0 s : Sys W) (p : Pending) → Relayed fd1 fd2 s0 s p → Broken s0 s p
  Relayed-Broken s0 s p h = (true, Way-Cut (h true), h false)

  -- What the result of `relay_data` says of the state it leaves.
  abbrev pub IsFaithful : Sys W → Option ConnectionState × Pending × Sys W → Type 0
  IsFaithful s0 (none, p, s) = ⊥
  IsFaithful s0 (some is_open, p, s) = Relayed fd1 fd2 s0 s p
  IsFaithful s0 (some closed, p, s) = Relayed fd1 fd2 s0 s p
  IsFaithful s0 (some failed, p, s) = Broken s0 s p
