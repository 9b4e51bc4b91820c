-- ===== src/Shared/Clients.antt =====
-- TwoSocks/microsocks/sockssrv.c: what `auth_ips_lock` protects: the addresses that have
-- authenticated, which a thread looks through one by one, and to which it may add its client's.
use two_socks.Prelude.{
  ℕ, zero, suc, ◌+◌, ◌≡◌, refl, sym, ◌∙◌, ap, ◌⊎◌, inl, inr, Bool, true, false, arith, ltb,
  Bool-cases, if◌then◌else◌,
}
use mathlib.Core.Path.{subst}
use two_socks.SockAddr.{SockAddr}
use two_socks.Sblist.{Sblist}
use two_socks.Whitelist.{matches_entry, is_in_authed_from, is_in_authed_list, add_auth_ip, remember}
use two_socks.Shared.{Guarded}
use two_socks.Shared.Linear.{Implements}

-- `look` is what the choice of a method asks under the lock for reading, and `enrol` what a login
-- leads to under the lock for writing.
pub data Call : Type 0 where
  look : SockAddr → Call
  enrol : SockAddr → Call

-- The loop of `is_in_authed_list` is at an index, for one of the two; or the search for an address to
-- add has failed.
pub data Place : Type 0 where
  looking : Call → ℕ → Place
  adding : SockAddr → Place

pub data Reply : Type 0 where
  answer : Bool → Reply
  nothing : Reply

module _ {L : Type 0} (lib : Sblist SockAddr L) where
  -- The loop has come to an entry of the address, or to the end.
  abbrev pub found : Call → Place ⊎ Reply
  found (look a) = inr (answer true)
  found (enrol a) = inr nothing

  abbrev pub missed : Call → Place ⊎ Reply
  missed (look a) = inr (answer false)
  missed (enrol a) = inl (adding a)

  abbrev pub address : Call → SockAddr
  address (look a) = a
  address (enrol a) = a

  -- One pass of the loop, or the call of `add_auth_ip`.
  unfoldable pub list_access : Place → L → (Place ⊎ Reply) × L
  list_access (looking x i) l =
      if ltb i (lib.get_size l)
      then (if matches_entry lib (address x) (lib.get l i)
          then (found x, l)
          else (inl (looking x (i + 1)), l))
      else (missed x, l)
  list_access (adding a) l = (inr nothing, add_auth_ip lib l a)

  abbrev pub shares : Call → Bool
  shares (look a) = true
  shares (enrol a) = false

  -- Where the lock cannot be had, the client is taken as unknown, and is not added.
  abbrev pub clients : Guarded L Call Place Reply
  clients = record {
    shares = shares;
    tolerates = λ x. true;
    enter = λ x. looking x 0;
    access = list_access;
  }

  -- The calls as the functions of a single thread.
  abbrev pub at_once : Call → L → Reply × L
  at_once (look a) l = (answer (is_in_authed_list lib l a), l)
  at_once (enrol a) l = (nothing, remember lib l a)

  abbrev pub Amid : Call → L → Place → L → Type 0
  Amid x l0 (looking y i) l =
      (y ≡ x)
      × (l ≡ l0)
      × ((n : ℕ) × (n + i ≡ lib.get_size l)
          × (is_in_authed_list lib l (address y) ≡ is_in_authed_from lib l (address y) n i))
  Amid x l0 (adding a) l = (x ≡ enrol a) × (l ≡ l0) × (is_in_authed_list lib l a ≡ false)

  -- A pass of the loop.
  looks :
      (l : L) (a : SockAddr) (n i : ℕ)
      → n + i ≡ lib.get_size l
      → is_in_authed_list lib l a ≡ is_in_authed_from lib l a n i
      → ((ltb i (lib.get_size l) ≡ true)
          × (((matches_entry lib a (lib.get l i) ≡ true) × (is_in_authed_list lib l a ≡ true))
              ⊎ ((matches_entry lib a (lib.get l i) ≡ false)
                  × ((m : ℕ) × (m + (i + 1) ≡ lib.get_size l)
                      × (is_in_authed_list lib l a ≡ is_in_authed_from lib l a m (i + 1))))))
        ⊎ ((ltb i (lib.get_size l) ≡ false) × (is_in_authed_list lib l a ≡ false))
  unfolding is_in_authed_from
  looks l a zero i h e = inr (ground arith, e)
  looks l a (suc n) i h e = elim (Bool-cases (matches_entry lib a (lib.get l i))) [
    | inl hit ↦ inl (ground arith, inl (hit, e ∙ rw hit refl))
    | inr miss ↦ inl (ground arith, inr (miss, (n, omega arith, e ∙ rw miss refl)))
  ]

  -- A pass finds the address, goes on, or comes to the end.
  list_access-cases :
      (x : Call) (i : ℕ) (l : L)
      → Amid x l (looking x i) l
      → ((list_access (looking x i) l ≡ (found x, l))
          × (is_in_authed_list lib l (address x) ≡ true))
        ⊎ (((list_access (looking x i) l ≡ (inl (looking x (i + 1)), l))
              × Amid x l (looking x (i + 1)) l)
            ⊎ ((list_access (looking x i) l ≡ (missed x, l))
                × (is_in_authed_list lib l (address x) ≡ false)))
  unfolding list_access
  list_access-cases x i l (_, _, (n, h, e)) = elim (looks l (address x) n i h e) [
    | inl (more, inl (hit, known)) ↦ inl (rw (more, hit, list_access) refl, known)
    | inl (more, inr (miss, further)) ↦
        inr (inl (rw (more, miss, list_access) refl, (refl, refl, further)))
    | inr (end, unknown) ↦ inr (inr (rw (end, list_access) refl, unknown))
  ]

  pass_goes_on :
      (x : Call) (i : ℕ) (l : L) (q' : Place)
      → Amid x l (looking x i) l
      → (list_access (looking x i) l).0 ≡ inl q'
      → Amid x l q' (list_access (looking x i) l).1
  pass_goes_on x i l q' h e = elim (list_access-cases x i l h) [
    | inl (f, _) ↦ absurd (found-ne x (sym (ap (λ p. p.0) f) ∙ e))
    | inr (inl (f, on)) ↦
        let same : looking x (i + 1) ≡ q' =
          let g : ◌≡◌ {A = Place ⊎ Reply} (inl (looking x (i + 1))) (inl q') =
            sym (ap (λ p. p.0) f) ∙ e in
          cc in
        rw (f, ← same) on
    | inr (inr (f, unknown)) ↦ rw f (missed_on x (sym (ap (λ p. p.0) f) ∙ e) unknown)
  ]
    where
      found-ne : (y : Call) → found y ≡ inl q' → ⊥
      found-ne (look a) k = cc
      found-ne (enrol a) k = cc

      missed_on :
          (y : Call)
          → missed y ≡ inl q'
          → is_in_authed_list lib l (address y) ≡ false
          → Amid y l q' l
      missed_on (look a) k unknown = absurd (cc)
      missed_on (enrol a) k unknown =
          let same : adding a ≡ q' = cc in rw (← same) (refl, refl, unknown)

  pass_returns :
      (x : Call) (i : ℕ) (l : L) (r : Reply)
      → Amid x l (looking x i) l
      → (list_access (looking x i) l).0 ≡ inr r
      → at_once x l ≡ (r, (list_access (looking x i) l).1)
  unfolding remember
  pass_returns x i l r h e = elim (list_access-cases x i l h) [
    | inl (f, known) ↦ rw f (found_there x (sym (ap (λ p. p.0) f) ∙ e) known)
    | inr (inl (f, on)) ↦
        let g : ◌≡◌ {A = Place ⊎ Reply} (inl (looking x (i + 1))) (inr r) =
          sym (ap (λ p. p.0) f) ∙ e in
        absurd (cc)
    | inr (inr (f, unknown)) ↦ rw f (missed_there x (sym (ap (λ p. p.0) f) ∙ e) unknown)
  ]
    where
      found_there :
          (y : Call)
          → found y ≡ inr r
          → is_in_authed_list lib l (address y) ≡ true
          → at_once y l ≡ (r, l)
      found_there (look a) k known = let same : answer true ≡ r = cc in rw (known, same) refl
      found_there (enrol a) k known = let same : nothing ≡ r = cc in rw (known, same) refl

      missed_there :
          (y : Call)
          → missed y ≡ inr r
          → is_in_authed_list lib l (address y) ≡ false
          → at_once y l ≡ (r, l)
      missed_there (look a) k unknown = let same : answer false ≡ r = cc in rw (unknown, same) refl
      missed_there (enrol a) k unknown = absurd (cc)

  pub clients-Implements : Implements clients at_once Amid
  unfolding list_access remember is_in_authed_list
  clients-Implements = record {
    entered = λ x l. (refl, refl, (lib.get_size l, omega arith, refl));
    goes_on = goes_on;
    returns = returns;
    only_reads = only_reads;
  }
    where
      goes_on :
          (x : Call) (l0 : L) (q : Place) (l : L) (q' : Place)
          → Amid x l0 q l
          → (list_access q l).0 ≡ inl q'
          → Amid x l0 q' (list_access q l).1
      goes_on x l0 (looking y i) l q' (same, at_l0, here) e =
          subst (λ z. Amid z l0 q' (list_access (looking y i) l).1) same
            (subst (λ z. Amid y z q' (list_access (looking y i) l).1) at_l0
              (pass_goes_on y i l q' (refl, refl, here) e))
      goes_on x l0 (adding a) l q' h e = absurd (cc)

      returns :
          (x : Call) (l0 : L) (q : Place) (l : L) (r : Reply)
          → Amid x l0 q l
          → (list_access q l).0 ≡ inr r
          → at_once x l0 ≡ (r, (list_access q l).1)
      returns x l0 (looking y i) l r (same, at_l0, here) e =
          ap (λ z. at_once z l0) (sym same)
          ∙ ap (at_once y) (sym at_l0)
          ∙ pass_returns y i l r (refl, refl, here) e
      returns x l0 (adding a) l r (call, at_l0, unknown) e =
          let same : nothing ≡ r = cc in rw (call, ← at_l0, unknown, ← same) refl

      only_reads :
          (x : Call) (l0 : L) (q : Place) (l : L)
          → shares x ≡ true
          → Amid x l0 q l
          → (list_access q l).1 ≡ l
      only_reads x l0 (looking y i) l sh h = elim (Bool-cases (ltb i (lib.get_size l))) [
        | inl more ↦ elim (Bool-cases (matches_entry lib (address y) (lib.get l i))) [
          | inl hit ↦ rw (more, hit, list_access) refl
          | inr miss ↦ rw (more, miss, list_access) refl
        ]
        | inr end ↦ rw (end, list_access) refl
      ]
      only_reads (look b) l0 (adding a) l sh (call, _, _) = absurd (cc)
      only_reads (enrol b) l0 (adding a) l sh h = absurd (cc)
