-- ===== src/Shared/Handlers.antt =====
-- TwoSocks/microsocks/sockssrv.c: what `connection_event_lock` protects: the connection identifiers
-- and the two handlers.
use two_socks.Prelude.{
  ℕ, zero, suc, ◌+◌, length, ◌≡◌, ◌≢◌, refl, sym, ◌∙◌, ap, ◌⊎◌, inl, inr, Bool, false, List, [],
  ◌∷◌, arith,
}
use mathlib.Core.Path.{subst}
use two_socks.System.{
  Sys, next_connection_identifier, twosocks_set_connection_event_handler,
  twosocks_set_server_ready_handler,
}
use two_socks.Shared.{free, owned, Lock, Guarded, Entry, performed, refused, Threads, interleave}
use two_socks.Shared.Exclusive.{hold_of}
use two_socks.Shared.Steps.{interleave-IsLinear}
use two_socks.Shared.Linear.{Implements, Replays, IsStart, start-IsLinear}
use two_socks.Shared.Programs.{programme, interleave-programme}

pub data Call : Type 0 where
  next_identifier : Call
  set_event_handler : Bool → Call
  set_ready_handler : Bool → Call
  event_handler : Call
  ready_handler : Call

-- `at_store n` has read the identifier `n` and not yet stored the next one.
pub data Place : Type 0 where
  at_body : Call → Place
  at_store : ℕ → Place

pub data Reply : Type 0 where
  identifier : ℕ → Reply
  handler : Bool → Reply
  nothing : Reply

-- Between `pthread_mutex_lock` and `pthread_mutex_unlock`, an access at a time.
unfoldable pub guarded_access : {W : Type 0} → Place → Sys W → (Place ⊎ Reply) × Sys W
guarded_access (at_body next_identifier) s = (inl (at_store s.next_identifier), s)
guarded_access (at_body (set_event_handler h)) s = (inr nothing, record s { handler = h })
guarded_access (at_body (set_ready_handler h)) s = (inr nothing, record s { ready_handler = h })
guarded_access (at_body event_handler) s = (inr (handler s.handler), s)
guarded_access (at_body ready_handler) s = (inr (handler s.ready_handler), s)
guarded_access (at_store n) s = (inr (identifier n), record s { next_identifier = n + 1 })

-- The results of `pthread_mutex_lock` are not looked at.
abbrev pub handlers : {W : Type 0} → Guarded (Sys W) Call Place Reply
handlers = record {
  shares = λ x. false;
  tolerates = λ x. false;
  enter = at_body;
  access = guarded_access;
}

-- The calls as the functions of a single thread.
abbrev pub at_once : {W : Type 0} → Call → Sys W → Reply × Sys W
at_once next_identifier s = let (n, s') = next_connection_identifier s in (identifier n, s')
at_once (set_event_handler h) s = (nothing, twosocks_set_connection_event_handler h s)
at_once (set_ready_handler h) s = (nothing, twosocks_set_server_ready_handler h s)
at_once event_handler s = (handler s.handler, s)
at_once ready_handler s = (handler s.ready_handler, s)

abbrev Amid : {W : Type 0} → Call → Sys W → Place → Sys W → Type 0
Amid x s0 (at_body y) s = (y ≡ x) × (s ≡ s0)
Amid next_identifier s0 (at_store n) s = (n ≡ s.next_identifier) × (s ≡ s0)
Amid _ s0 (at_store n) s = ⊥

module _ {W : Type 0} where
  body_goes_on :
      (x : Call) (s : Sys W) (q' : Place)
      → (guarded_access (at_body x) s).0 ≡ inl q'
      → Amid x s q' (guarded_access (at_body x) s).1
  unfolding guarded_access
  body_goes_on next_identifier s q' e =
      let same : at_store s.next_identifier ≡ q' = cc in rw (← same) (refl, refl)
  body_goes_on (set_event_handler h) s q' e = absurd (cc)
  body_goes_on (set_ready_handler h) s q' e = absurd (cc)
  body_goes_on event_handler s q' e = absurd (cc)
  body_goes_on ready_handler s q' e = absurd (cc)

  body_returns :
      (x : Call) (s : Sys W) (r : Reply)
      → (guarded_access (at_body x) s).0 ≡ inr r
      → at_once x s ≡ (r, (guarded_access (at_body x) s).1)
  unfolding guarded_access next_connection_identifier twosocks_set_connection_event_handler
      twosocks_set_server_ready_handler
  body_returns next_identifier s r e = absurd (cc)
  body_returns (set_event_handler h) s r e = let same : nothing ≡ r = cc in rw (← same) refl
  body_returns (set_ready_handler h) s r e = let same : nothing ≡ r = cc in rw (← same) refl
  body_returns event_handler s r e = let same : handler s.handler ≡ r = cc in rw (← same) refl
  body_returns ready_handler s r e = let same : handler s.ready_handler ≡ r = cc in rw (← same) refl

  store_returns :
      (x : Call) (s0 s : Sys W) (n : ℕ) (r : Reply)
      → Amid x s0 (at_store n) s
      → identifier n ≡ r
      → at_once x s0 ≡ (r, (guarded_access (at_store n) s).1)
  unfolding guarded_access next_connection_identifier
  store_returns next_identifier s0 s n r (here, same) e = rw (← e, same, here, same) refl
  store_returns (set_event_handler h) s0 s n r stray e = absurd stray
  store_returns (set_ready_handler h) s0 s n r stray e = absurd stray
  store_returns event_handler s0 s n r stray e = absurd stray
  store_returns ready_handler s0 s n r stray e = absurd stray

  handlers-Implements : Implements {X = Call} {R = Reply} (handlers {W = W}) at_once Amid
  unfolding guarded_access
  handlers-Implements = record {
    entered = λ x s. (refl, refl);
    goes_on = goes_on;
    returns = returns;
    only_reads = λ x s0 q s e h. absurd (cc);
  }
    where
      goes_on :
          (x : Call) (s0 : Sys W) (q : Place) (s : Sys W) (q' : Place)
          → Amid x s0 q s
          → (guarded_access q s).0 ≡ inl q'
          → Amid x s0 q' (guarded_access q s).1
      goes_on x s0 (at_body y) s q' (same, at_s0) e =
          subst (λ z. Amid z s0 q' (guarded_access (at_body y) s).1) same
            (subst (λ z. Amid y z q' (guarded_access (at_body y) s).1) at_s0
              (body_goes_on y s q' e))
      goes_on x s0 (at_store n) s q' h e = absurd (cc)

      returns :
          (x : Call) (s0 : Sys W) (q : Place) (s : Sys W) (r : Reply)
          → Amid x s0 q s
          → (guarded_access q s).0 ≡ inr r
          → at_once x s0 ≡ (r, (guarded_access q s).1)
      returns x s0 (at_body y) s r (same, at_s0) e =
          ap (λ z. at_once z s0) (sym same) ∙ ap (at_once y) (sym at_s0) ∙ body_returns y s r e
      returns x s0 (at_store n) s r h e = store_returns x s0 s n r h (cc)

-- The identifiers that were given out, the last one first.
abbrev pub given : List (Entry Call Reply) → List ℕ
given [] = []
given (performed i x (identifier n) ∷ log) = n ∷ given log
given (performed i x (handler h) ∷ log) = given log
given (performed i x nothing ∷ log) = given log
given (refused i x ∷ log) = given log

abbrev pub count_down : ℕ → ℕ → List ℕ
count_down first zero = []
count_down first (suc k) = (first + k) ∷ count_down first k

module _ {W : Type 0} where
  -- The identifiers are `first` and the numbers that follow it, up to the next one of `s`.
  abbrev pub InOrder : ℕ → List ℕ → Sys W → Type 0
  InOrder first ids s =
      (ids ≡ count_down first (length ids)) × (s.next_identifier ≡ first + length ids)

  one_more :
      (first : ℕ) (x : Call) (i : ℕ) (r : Reply) (log : List (Entry Call Reply)) (s1 s : Sys W)
      → InOrder first (given log) s1
      → at_once x s1 ≡ (r, s)
      → InOrder first (given (performed i x r ∷ log)) s
  unfolding next_connection_identifier twosocks_set_connection_event_handler
      twosocks_set_server_ready_handler
  one_more first next_identifier i r log s1 s (e, n) h =
      let er : identifier s1.next_identifier ≡ r = ap (λ p. p.0) h in
      let es : record s1 { next_identifier = s1.next_identifier + 1 } ≡ s = ap (λ p. p.1) h in
      rw (← er, ← es) (rw n (ap (λ t. (first + length (given log)) ∷ t) e), omega (arith, n))
  one_more first (set_event_handler b) i r log s1 s ok h =
      let er : nothing ≡ r = ap (λ p. p.0) h in
      let es : record s1 { handler = b } ≡ s = ap (λ p. p.1) h in rw (← er, ← es) ok
  one_more first (set_ready_handler b) i r log s1 s ok h =
      let er : nothing ≡ r = ap (λ p. p.0) h in
      let es : record s1 { ready_handler = b } ≡ s = ap (λ p. p.1) h in rw (← er, ← es) ok
  one_more first event_handler i r log s1 s ok h =
      let er : handler s1.handler ≡ r = ap (λ p. p.0) h in
      let es : s1 ≡ s = ap (λ p. p.1) h in rw (← er, ← es) ok
  one_more first ready_handler i r log s1 s ok h =
      let er : handler s1.ready_handler ≡ r = ap (λ p. p.0) h in
      let es : s1 ≡ s = ap (λ p. p.1) h in rw (← er, ← es) ok

  given-InOrder :
      (s0 : Sys W) (log : List (Entry Call Reply)) (s : Sys W)
      → Replays at_once s0 log s
      → InOrder s0.next_identifier (given log) s
  given-InOrder s0 [] s h = (refl, rw h (omega arith))
  given-InOrder s0 (performed i x r ∷ log) s (s1, before, h) =
      one_more s0.next_identifier x i r log s1 s (given-InOrder s0 log s1 before) h
  given-InOrder s0 (refused i x ∷ log) s h = given-InOrder s0 log s h

  -- What holds after any steps of threads that stood at rest in `w`.
  pub record IsOrderly {K : Type 0} (lk : Lock K) (w w' : Threads (Sys W) Call Place Reply K)
      : Type 0 where
    pub alone :
        (i j : ℕ)
        → j ≢ i
        → hold_of lk (handlers {W = W}) (w'.pcs i) ≡ owned
        → hold_of lk (handlers {W = W}) (w'.pcs j) ≡ free
    pub kept : (i : ℕ) → programme lk handlers i w' ≡ w.todo i
    pub last : Sys W
    pub one_by_one : Replays at_once w.cell w'.log last
    pub ordered : InOrder w.cell.next_identifier (given w'.log) last
    pub current : (w'.cell ≡ last) ⊎ ((i : ℕ) × (hold_of lk (handlers {W = W}) (w'.pcs i) ≡ owned))

  -- If the threads start at rest with the lock free, then after any steps in any order: a thread
  -- that owns the lock is the only holder; what a thread has called, calls and will call is its
  -- list of calls, in order; the calls that were made have the results that the functions of System
  -- give when they are called one after the other; the protected state is the one that they lead
  -- to, unless a thread owns the lock; and the identifiers that were given out are consecutive,
  -- from the first one on, none twice.
  pub interleave-IsOrderly :
      {K : Type 0} (lk : Lock K) (schedule : List (Bool × ℕ))
      (w : Threads (Sys W) Call Place Reply K)
      → IsStart lk w
      → IsOrderly lk w (interleave lk handlers schedule w)
  interleave-IsOrderly lk schedule w st =
      let ok =
        interleave-IsLinear lk handlers at_once Amid handlers-Implements w.cell schedule w
          (start-IsLinear lk handlers at_once Amid w st) in
      record {
        alone = ok.exclusive.alone;
        kept =
            λ i. interleave-programme lk handlers schedule w i ∙ rw (st.no_log, st.at_rest i) refl;
        last = ok.base;
        one_by_one = ok.replays;
        ordered = given-InOrder w.cell (interleave lk handlers schedule w).log ok.base ok.replays;
        current = ok.settled;
      }
