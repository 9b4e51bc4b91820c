-- ===== src/Whitelist.antt =====
-- TwoSocks/microsocks/sockssrv.c: `auth_ips`, the addresses that have authenticated once, as a
-- client of the list library.
use native.Mathlib.Numerals.{add-one}
use two_socks.Prelude.{
  drop_cons, drop_all, ℕ, zero, suc, ◌+◌, ◌≡◌, ◌≢◌, ◌⊎◌, length-append, Option-cases, refl, sym, ap,
  ◌∙◌, Bool, true, false, ◌||◌, List, [], ◌∷◌, ◌++◌, Option, none, some, arith, length, drop,
  if◌then◌else◌, Bool-cases, inl, inr,
}
use two_socks.Text.{str_eq_refl}
use two_socks.Sblist.{Sblist}
use two_socks.SockAddr.{SockAddr, v4, v6, unspec, is_authed}

module _ {L : Type 0} (lib : Sblist SockAddr L) where
  -- The entry at an index that is below the size.
  abbrev pub matches_entry : SockAddr → Option SockAddr → Bool
  matches_entry caddr none = false
  matches_entry caddr (some entry) = is_authed caddr entry

  -- The loop over the entries from `i` on, of which `n` are left.
  unfoldable pub is_in_authed_from : L → SockAddr → ℕ → ℕ → Bool
  is_in_authed_from l caddr zero i = false
  is_in_authed_from l caddr (suc n) i =
      let rest = is_in_authed_from l caddr n (i + 1) in
      if matches_entry caddr (lib.get l i) then true else rest

  unfoldable pub is_in_authed_list : L → SockAddr → Bool
  is_in_authed_list l caddr = is_in_authed_from l caddr (lib.get_size l) 0

  -- The result of `sblist_add` is not looked at.
  unfoldable pub add_auth_ip : L → SockAddr → L
  add_auth_ip l caddr = elim (lib.add l caddr) [ none ↦ l | some l' ↦ l' ]

  -- What a client that has given its password is remembered by.
  unfoldable pub remember : L → SockAddr → L
  remember l caddr = if is_in_authed_list l caddr then l else add_auth_ip l caddr

  -- The abstract list: some entry has the address.
  abbrev pub is_known : SockAddr → List SockAddr → Bool
  is_known caddr [] = false
  is_known caddr (entry ∷ entries) = is_authed caddr entry || is_known caddr entries

  by_first : (a b : Bool) → (if a then true else b) ≡ (a || b)
  by_first true b = refl
  by_first false b = refl

  is_in_authed_from_lem :
      (l : L) (caddr : SockAddr) (n i : ℕ)
      → length (lib.items l) ≡ n + i
      → is_in_authed_from l caddr n i ≡ is_known caddr (drop i (lib.items l))
  unfolding is_in_authed_from
  is_in_authed_from_lem l caddr zero i h =
      sym (ap (is_known caddr) (drop_all (lib.items l) i (omega arith)))
  is_in_authed_from_lem l caddr (suc n) i h =
      let (x, here, tail) = drop_cons (lib.items l) i n h in
      let rest = rw add-one at (is_in_authed_from_lem l caddr n (i + 1) (omega arith)) in
      rw (tail, lib.get_lem l i, here) (rw add-one (rw rest (by_first (is_authed caddr x) _)))

  -- The loop finds a client exactly when an entry of the list has its address.
  pub is_in_authed_list_lem :
      (l : L) (caddr : SockAddr) → is_in_authed_list l caddr ≡ is_known caddr (lib.items l)
  unfolding is_in_authed_list
  is_in_authed_list_lem l caddr =
      is_in_authed_from_lem l caddr (lib.get_size l) 0 (omega (arith, lib.get_size_lem l))

  is_known-append :
      (caddr x : SockAddr) (xs : List SockAddr)
      → is_known caddr (xs ++ x ∷ []) ≡ (is_known caddr xs || is_authed caddr x)
  is_known-append caddr x [] = ground arith
  is_known-append caddr x (y ∷ xs) = ground (arith, is_known-append caddr x xs)

  is_authed_self : (a : SockAddr) → a ≢ unspec → is_authed a a ≡ true
  unfolding is_authed
  is_authed_self (v4 bytes port) h = str_eq_refl bytes
  is_authed_self (v6 bytes port scope) h = str_eq_refl bytes
  is_authed_self unspec h = absurd (h refl)

  -- `caddr` was entered: it is known, and so is whoever was known before.
  abbrev pub Enters : L → SockAddr → L → Type 0
  Enters l caddr l' =
      (is_known caddr (lib.items l') ≡ true)
      × ((other : SockAddr)
          → is_known other (lib.items l) ≡ true
          → is_known other (lib.items l') ≡ true)
      × (length (lib.items l') ≡ suc (length (lib.items l)))

  added-Enters :
      (l l' : L) (caddr : SockAddr)
      → caddr ≢ unspec
      → lib.items l' ≡ lib.items l ++ caddr ∷ []
      → Enters l caddr l'
  added-Enters l l' caddr h e =
      rw (e, is_known-append caddr caddr (lib.items l), is_authed_self caddr h)
        (
          ground arith,
          λ other k. rw (is_known-append other caddr (lib.items l), k) refl,
          omega (arith, length-append (lib.items l) (caddr ∷ [])),
        )

  -- After a client with an IPv4 or IPv6 address has given its password it is known, unless memory
  -- was exhausted; a client that was known is not entered again; and whoever else was known stays
  -- known.
  pub remember_lem :
      (l : L) (caddr : SockAddr)
      → caddr ≢ unspec
      → ((is_known caddr (lib.items l) ≡ true) × (remember l caddr ≡ l))
        ⊎ (((lib.add l caddr ≡ none) × (remember l caddr ≡ l)) ⊎ Enters l caddr (remember l caddr))
  unfolding remember add_auth_ip
  remember_lem l caddr h = elim (Bool-cases (is_in_authed_list l caddr)) [
    | inl known ↦ inl (sym (is_in_authed_list_lem l caddr) ∙ known, rw known refl)
    | inr new ↦ elim (Option-cases (lib.add l caddr)) [
      | inl full ↦ inr (inl (full, rw (new, full, add_auth_ip) refl))
      | inr (l', e) ↦
          inr (
            inr (rw (new, e, add_auth_ip) (added-Enters l l' caddr h (lib.items-add l l' caddr e))))
    ]
  ]
