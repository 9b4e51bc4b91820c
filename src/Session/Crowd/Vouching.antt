-- ===== src/Session/Crowd/Vouching.antt =====
-- TwoSocks/microsocks/sockssrv.c, `clientthread`: who may be on the list of known addresses that many
-- clients share.
use two_socks.Prelude.{
  ℕ, ◌≡◌, refl, sym, ◌∙◌, ◌⊎◌, inl, inr, Bool, true, false, ◌||◌, List, [], ◌∷◌, Option, none, some,
  All, All-append, Bool-cases, Option-cases,
}
use mathlib.Core.Path.{subst}
use two_socks.Codes.{success, connected, need_auth, authed}
use two_socks.Platform.{Inet}
use two_socks.SockAddr.{SockAddr, is_authed}
use two_socks.Buffer.{ok}
use two_socks.Auth.{Credentials, check_credentials}
use two_socks.Os.{Os, Received, got, receive_failed}
use two_socks.Whitelist.{is_known, is_in_authed_list, is_in_authed_list_lem, remember, add_auth_ip}
use two_socks.Session.{
  Lists, Config, Exit, done, still_relaying, still_reading, crashed, is_listed, remember_client,
}
use two_socks.Session.Crowd.{Crowd, hear}

abbrev pub Any : {A : Type 0} → (A → Type 0) → List A → Type 0
Any P [] = ⊥
Any P (x ∷ xs) = P x ⊎ Any P xs

All-map :
    {A : Type 0} (P Q : A → Type 0) → ((a : A) → P a → Q a) → (xs : List A) → All P xs → All Q xs
All-map P Q f [] h = tt
All-map P Q f (x ∷ xs) (p, h) = (f x p, All-map P Q f xs h)

Any-map :
    {A : Type 0} (P Q : A → Type 0) → ((a : A) → P a → Q a) → (xs : List A) → Any P xs → Any Q xs
Any-map P Q f [] h = absurd h
Any-map P Q f (x ∷ xs) (inl p) = inl (f x p)
Any-map P Q f (x ∷ xs) (inr h) = inr (Any-map P Q f xs h)

module _ {W L D : Type 0} (os : Os W) (net : Inet) (lib : Lists L D) (configs : ℕ → Config)
    (cr : Credentials) (start : Crowd W L) where
  -- The packet is a login with the name and the password.
  abbrev pub IsLogin : List ℕ → Type 0
  IsLogin buf = check_credentials cr buf ≡ ok success

  -- The packet is a login of `i`, or of a client of the same address.
  abbrev pub LogsIn : ℕ → ℕ × List ℕ → Type 0
  LogsIn i (j, buf) =
      ((j ≡ i) ⊎ (is_authed (configs i).client_addr (configs j).client_addr ≡ true))
      × (check_credentials cr buf ≡ ok success)

  -- The client of `i` was known at the start, or it or one of the same address has logged in.
  abbrev pub Entitled : ℕ → List (ℕ × List ℕ) → Type 0
  Entitled i log = (is_listed os net lib (configs i) start.ips ≡ true) ⊎ Any (LogsIn i) log

  abbrev pub Enters : SockAddr → ℕ × List ℕ → Type 0
  Enters a (j, buf) = (a ≡ (configs j).client_addr) × IsLogin buf

  -- Whoever has the address was known at the start, or a client of this address has logged in.
  abbrev pub Vouched : List (ℕ × List ℕ) → SockAddr → Type 0
  Vouched log a =
      ((i : ℕ)
        → is_authed (configs i).client_addr a ≡ true
        → is_listed os net lib (configs i) start.ips ≡ true)
      ⊎ Any (Enters a) log

  abbrev pub AllVouched : List (ℕ × List ℕ) → Option L → Type 0
  AllVouched log none = Unit
  AllVouched log (some l) = All (Vouched log) (lib.clients.items l)

  abbrev pub Deserved : List (ℕ × List ℕ) → ℕ → Exit → Type 0
  Deserved log i (still_reading authed) = Entitled i log
  Deserved log i (still_reading connected) = Unit
  Deserved log i (still_reading need_auth) = Unit
  Deserved log i done = Unit
  Deserved log i still_relaying = Unit
  Deserved log i crashed = Unit

  pub record IsSound (w : Crowd W L) : Type 0 where
    pub entries : AllVouched w.heard w.ips
    pub admitted : (i : ℕ) → Deserved w.heard i (w.exits i)

  -- More packets do no harm.
  Any-hear :
      (P : ℕ × List ℕ → Type 0) (i : ℕ) (r : Received) (log : List (ℕ × List ℕ))
      → Any P log
      → Any P (hear i r log)
  Any-hear P i (got buf) log h = inr h
  Any-hear P i (receive_failed e) log h = h

  module _ (i : ℕ) (r : Received) (log : List (ℕ × List ℕ)) where
    pub Vouched-hear : (a : SockAddr) → Vouched log a → Vouched (hear i r log) a
    Vouched-hear a (inl h) = inl h
    Vouched-hear a (inr h) = inr (Any-hear (Enters a) i r log h)

    pub AllVouched-hear : (ips : Option L) → AllVouched log ips → AllVouched (hear i r log) ips
    AllVouched-hear none h = tt
    AllVouched-hear (some l) h =
        All-map (Vouched log) (Vouched (hear i r log)) Vouched-hear (lib.clients.items l) h

    pub Entitled-hear : (j : ℕ) → Entitled j log → Entitled j (hear i r log)
    Entitled-hear j (inl h) = inl h
    Entitled-hear j (inr h) = inr (Any-hear (LogsIn j) i r log h)

    pub Deserved-hear : (j : ℕ) (e : Exit) → Deserved log j e → Deserved (hear i r log) j e
    Deserved-hear j (still_reading authed) h = Entitled-hear j h
    Deserved-hear j (still_reading connected) h = tt
    Deserved-hear j (still_reading need_auth) h = tt
    Deserved-hear j done h = tt
    Deserved-hear j still_relaying h = tt
    Deserved-hear j crashed h = tt

  -- A client that is known is entitled.
  known-Entitled :
      (i : ℕ) (log : List (ℕ × List ℕ)) (xs : List SockAddr)
      → All (Vouched log) xs
      → is_known lib.clients (configs i).client_addr xs ≡ true
      → Entitled i log
  known-Entitled i log [] h k = absurd (cc)
  known-Entitled i log (x ∷ xs) (v, h) k = elim (Bool-cases (is_authed (configs i).client_addr x)) [
    | inl same ↦ elim v [
      | inl before ↦ inl (before i same)
      | inr login ↦ inr (
          Any-map (Enters x) (LogsIn i)
            (λ p e. (inr (subst (λ a. is_authed (configs i).client_addr a ≡ true) e.0 same), e.1))
            log login)
    ]
    | inr differs ↦ known-Entitled i log xs h (rw differs at k)
  ]

  pub whitelisted-Entitled :
      (i : ℕ) (log : List (ℕ × List ℕ)) (ips : Option L)
      → AllVouched log ips
      → is_listed os net lib (configs i) ips ≡ true
      → Entitled i log
  unfolding is_listed
  whitelisted-Entitled i log none h k = absurd (cc)
  whitelisted-Entitled i log (some l) h k =
      known-Entitled i log (lib.clients.items l) h
        (sym (is_in_authed_list_lem lib.clients l (configs i).client_addr) ∙ k)

  -- Who logs in is entered.
  pub remember-AllVouched :
      (i : ℕ) (buf : List ℕ) (log : List (ℕ × List ℕ)) (w : W) (ips : Option L)
      → IsLogin buf
      → AllVouched log ips
      → AllVouched ((i, buf) ∷ log) (remember_client os net lib (configs i) w ips)
  unfolding remember_client remember add_auth_ip
  remember-AllVouched i buf log w none right h = tt
  remember-AllVouched i buf log w (some l) right h =
      let kept = AllVouched-hear i (got buf) log (some l) h in
      elim (Bool-cases (os.wrlock w)) [
        | inr no_lock ↦ rw no_lock kept
        | inl locked ↦ elim (Bool-cases (is_in_authed_list lib.clients l (configs i).client_addr)) [
          | inl known ↦ rw (locked, known, remember) kept
          | inr new ↦ elim (Option-cases (lib.clients.add l (configs i).client_addr)) [
            | inl full ↦ rw (locked, new, remember, full, add_auth_ip) kept
            | inr (l', e) ↦
                rw
                  (
                    locked,
                    new,
                    remember,
                    e,
                    add_auth_ip,
                    lib.clients.items-add l l' (configs i).client_addr e,
                  )
                  (All-append (Vouched ((i, buf) ∷ log)) (lib.clients.items l) _ kept
                    (inr (inl (refl, right)), tt))
          ]
        ]
      ]

  -- Every entry of a list is known by it.
  entries_known :
      (xs : List SockAddr)
      → All (λ e. (a : SockAddr) → is_authed a e ≡ true → is_known lib.clients a xs ≡ true) xs
  entries_known [] = tt
  entries_known (x ∷ xs) = (
    λ a h. rw h refl,
    All-map (λ e. (a : SockAddr) → is_authed a e ≡ true → is_known lib.clients a xs ≡ true)
        (λ e. (a : SockAddr) → is_authed a e ≡ true → is_known lib.clients a (x ∷ xs) ≡ true)
        (λ e f a h. or_true (is_authed a x) _ (f a h)) xs (entries_known xs),
  )
    where
      or_true : (b c : Bool) → c ≡ true → (b || c) ≡ true
      or_true true c h = refl
      or_true false c h = h

  pub start-AllVouched : (log : List (ℕ × List ℕ)) → AllVouched log start.ips
  unfolding is_listed
  start-AllVouched log = from start.ips refl
    where
      from : (ips : Option L) → start.ips ≡ ips → AllVouched log ips
      from none e = tt
      from (some l) e =
          All-map
            (λ x.
              (a : SockAddr)
              → is_authed a x ≡ true
              → is_known lib.clients a (lib.clients.items l) ≡ true)
            (Vouched log)
            (λ x f. inl (λ i h. rw e (
              is_in_authed_list_lem lib.clients l (configs i).client_addr
              ∙ f (configs i).client_addr h)))
            (lib.clients.items l) (entries_known (lib.clients.items l))
