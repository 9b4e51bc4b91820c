-- ===== src/Relay/Writes.antt =====
-- The loop of writes in `relay_data` sends the bytes it was given, in order.
use mathlib.Core.Logic.{inl, inr}
use two_socks.Prelude.{
  ℕ, zero, suc, ◌≤◌, ◌≡◌, ◌≢◌, refl, sym, ap, ◌∙◌, List, [], ◌∷◌, ◌++◌, append-nil, append_assoc,
  arith, length, take, drop, take-append-drop, length-drop,
}
use two_socks.Os.{Os, Sent-cases}
use two_socks.System.{Sys, sent}
use two_socks.System.Trace.{received_from, sent_to}
use two_socks.Relay.{Written, all_written, write_error, unfinished, write_all}

module _ {W : Type 0} (os : Os W) where
  -- What the writes of `bytes` to `fd` did: the first `part` of them went out, all of them if the
  -- loop ended by its test; nothing else was received or sent, and no counter moved.
  pub record Wrote (fd : ℕ) (bytes : List ℕ) (s : Sys W) (w : Written) (s' : Sys W) : Type 0 where
    pub part : List ℕ
    pub lost : List ℕ
    pub parts : bytes ≡ part ++ lost
    pub whole : w ≡ all_written → lost ≡ []
    pub went : sent_to fd s'.trace ≡ sent_to fd s.trace ++ part
    pub others : (fd' : ℕ) → fd ≢ fd' → sent_to fd' s'.trace ≡ sent_to fd' s.trace
    pub arrived : (fd' : ℕ) → received_from fd' s'.trace ≡ received_from fd' s.trace
    pub downloaded : s'.downloaded ≡ s.downloaded
    pub uploaded : s'.uploaded ≡ s.uploaded

  -- One write took `m` of the bytes; the rest is written from the state after it.
  after_write :
      (fd m : ℕ) (bytes : List ℕ) (s : Sys W) {w : Written} {s' : Sys W}
      → let s1 = record s {
        world = (os.write s.world fd bytes).1;
        trace = sent fd (take m bytes) ∷ s.trace;
      } in
        Wrote fd (drop m bytes) s1 w s' → Wrote fd bytes s w s'
  after_write fd m bytes s r = record {
    part = take m bytes ++ r.part;
    lost = r.lost;
    parts =
        sym (take-append-drop m bytes)
        ∙ ap (λ x. take m bytes ++ x) r.parts
        ∙ sym (append_assoc (take m bytes) r.part r.lost);
    whole = r.whole;
    went = r.went ∙ ground (arith, append_assoc (sent_to fd s.trace) (take m bytes) r.part);
    others = λ fd' h. r.others fd' h ∙ ground (arith, append-nil (sent_to fd' s.trace));
    arrived = r.arrived;
    downloaded = r.downloaded;
    uploaded = r.uploaded;
  }

  -- Nothing was sent.
  unsent :
      (fd : ℕ) (bytes : List ℕ) (s : Sys W) (world : W) (w : Written)
      → (w ≡ all_written → bytes ≡ [])
      → Wrote fd bytes s w (record s { world = world })
  unsent fd bytes s world w h = record {
    part = [];
    lost = bytes;
    parts = refl;
    whole = h;
    went = sym (append-nil (sent_to fd s.trace));
    others = λ fd' _. refl;
    arrived = λ fd'. refl;
    downloaded = refl;
    uploaded = refl;
  }

  pub write_all-Wrote :
      (fuel fd : ℕ) (bytes : List ℕ) (s : Sys W)
      → let (w, s') = write_all os fuel fd bytes s in Wrote fd bytes s w s'
  unfolding write_all
  write_all-Wrote fuel fd [] s = unsent fd [] s s.world all_written (λ _. refl)
  write_all-Wrote zero fd (b ∷ bs) s = unsent fd (b ∷ bs) s s.world unfinished (λ e. cc)
  write_all-Wrote (suc fuel) fd (b ∷ bs) s = elim (Sent-cases (os.write s.world fd (b ∷ bs)).0) [
    | inl (m, e) ↦
        rw (e, write_all)
          (after_write fd m (b ∷ bs) s (write_all-Wrote fuel fd (drop m (b ∷ bs)) _))
    | inr (x, e) ↦
        rw (e, write_all)
          (unsent fd (b ∷ bs) s (os.write s.world fd (b ∷ bs)).1 write_error (λ h. cc))
  ]

  -- As many rounds as there are bytes suffice.
  pub write_all-ne-unfinished :
      (fuel fd : ℕ) (bytes : List ℕ) (s : Sys W)
      → length bytes ≤ fuel
      → (write_all os fuel fd bytes s).0 ≢ unfinished
  unfolding write_all
  write_all-ne-unfinished fuel fd [] s h = λ e. cc
  write_all-ne-unfinished zero fd (b ∷ bs) s h = absurd (omega arith)
  write_all-ne-unfinished (suc fuel) fd (b ∷ bs) s h =
      elim (Sent-cases (os.write s.world fd (b ∷ bs)).0) [
        | inl (m, e) ↦
            rw (e, write_all)
              (write_all-ne-unfinished fuel fd (drop m (b ∷ bs)) _
                (omega (arith, length-drop m (b ∷ bs), os.write_progress s.world fd b bs m e)))
        | inr (x, e) ↦ rw (e, write_all) (λ h. cc)
      ]
