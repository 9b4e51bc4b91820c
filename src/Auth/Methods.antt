-- ===== src/Auth/Methods.antt =====
-- Which of the methods that a client offers is chosen.
use two_socks.Prelude.{
  ℕ, zero, suc, ◌≡◌, ◌≢◌, refl, sym, ◌∙◌, ◌⊎◌, inl, inr, Bool, true, false, List, [], ◌∷◌, ◌++◌,
  Option, none, some, arith, take, All, ap, Bool-cases, ◌==◌,
}
use two_socks.Codes.{AuthMethod, no_auth, gssapi, username, invalid, method_value}
use two_socks.Buffer.{Result, ok, at}
use two_socks.Auth.{Credentials, judge_method, scan_methods, check_auth_method}

module _ (creds : Option Credentials) (whitelisted : Bool) where
  -- The methods that the server may accept: none, where no password is set or the client is on
  -- the list of known addresses; a password, where one is set.
  abbrev pub Permits : AuthMethod → Type 0
  Permits no_auth = (creds ≡ none) ⊎ (whitelisted ≡ true)
  Permits gssapi = ⊥
  Permits username = creds ≢ none
  Permits invalid = ⊥

  -- The offered byte is no method that the server may accept.
  abbrev pub Refuses : ℕ → Type 0
  Refuses b =
      (b ≡ method_value no_auth → ¬ Permits no_auth)
      × (b ≡ method_value username → ¬ Permits username)

  -- `m` is the first of the offered methods that the server may accept.
  pub record IsFirst (m : AuthMethod) (offered : List ℕ) : Type 0 where
    pub before : List ℕ
    pub after : List ℕ
    pub parts : offered ≡ before ++ method_value m ∷ after
    pub refused : All Refuses before
    pub permitted : Permits m

  data Judged (b : ℕ) : Type 0 where
    accepts :
        (m : AuthMethod)
        → judge_method creds whitelisted b ≡ some m
        → b ≡ method_value m
        → Permits m
        → Judged b
    passes : judge_method creds whitelisted b ≡ none → Refuses b → Judged b

  -- The outcome of the search.
  pub data Scanned (n : ℕ) (bs : List ℕ) : Type 0 where
    chosen :
        (m : AuthMethod)
        → scan_methods creds whitelisted n bs ≡ m
        → IsFirst m (take n bs)
        → Scanned n bs
    none_fits :
        scan_methods creds whitelisted n bs ≡ invalid → All Refuses (take n bs) → Scanned n bs

judge_method-Judged :
    (creds : Option Credentials) (whitelisted : Bool) (b : ℕ) → Judged creds whitelisted b
unfolding judge_method
judge_method-Judged none whitelisted b = elim (Bool-cases (b == 0)) [
  | inl is0 ↦ accepts no_auth (ground (arith, is0)) (ground (arith, is0)) (inl refl)
  | inr no0 ↦ passes (ground (arith, no0)) (λ e p. ground arith, λ e p. p refl)
]
judge_method-Judged (some c) true b = elim (Bool-cases (b == 0)) [
  | inl is0 ↦ accepts no_auth (ground (arith, is0)) (ground (arith, is0)) (inr refl)
  | inr no0 ↦ elim (Bool-cases (b == 2)) [
    | inl is2 ↦ accepts username (ground (arith, no0, is2)) (ground (arith, is2)) (λ e. cc)
    | inr no2 ↦ passes (ground (arith, no0, no2)) (λ e p. ground arith, λ e p. ground arith)
  ]
]
judge_method-Judged (some c) false b = elim (Bool-cases (b == 2)) [
  | inl is2 ↦ accepts username (ground (arith, is2)) (ground (arith, is2)) (λ e. cc)
  | inr no2 ↦ passes (ground (arith, no2)) (λ e p. ground arith, λ e p. ground arith)
]

-- What the greeting `5, n, method, method, …` offers: at most `n` methods, of those received.
abbrev pub offered : List ℕ → List ℕ
offered [] = []
offered (v ∷ []) = []
offered (v ∷ n ∷ bs) = take n bs

module _ (creds : Option Credentials) (whitelisted : Bool) where
  pub scan_methods-Scanned : (n : ℕ) (bs : List ℕ) → Scanned creds whitelisted n bs
  unfolding scan_methods
  scan_methods-Scanned zero bs = none_fits refl tt
  scan_methods-Scanned (suc n) [] = none_fits refl tt
  scan_methods-Scanned (suc n) (b ∷ bs) =
      extend (judge_method-Judged creds whitelisted b) (scan_methods-Scanned n bs)
    where
      extend :
          Judged creds whitelisted b
          → Scanned creds whitelisted n bs
          → Scanned creds whitelisted (suc n) (b ∷ bs)
      extend (accepts m e eb p) rest = chosen m (ground (arith, e)) (record {
        before = [];
        after = take n bs;
        parts = ap (λ x. x ∷ take n bs) eb;
        refused = tt;
        permitted = p;
      })
      extend (passes e refuses) (chosen m es first) = chosen m (ground (arith, e)) (record {
        before = b ∷ first.before;
        after = first.after;
        parts = ap (λ r. b ∷ r) first.parts;
        refused = (refuses, first.refused);
        permitted = first.permitted;
      })
      extend (passes e refuses) (none_fits es refused) =
          none_fits (ground (arith, e)) (refuses, refused)

  -- A greeting of at least one byte: one of version 5 is answered with the first offered method
  -- that the server may accept, and with "no acceptable method" exactly when there is none; one of
  -- another version is refused; and no byte past the received ones is read.
  pub check_auth_method_lem :
      (v : ℕ) (bs : List ℕ)
      → (m : AuthMethod) × (check_auth_method creds whitelisted (v ∷ bs) ≡ ok m)
        × (((v ≡ 5) × IsFirst creds whitelisted m (offered (v ∷ bs)))
            ⊎ ((m ≡ invalid) × ((v ≢ 5) ⊎ All (Refuses creds whitelisted) (offered (v ∷ bs)))))
  unfolding check_auth_method at
  check_auth_method_lem v [] = (invalid, ground arith, inr (refl, inr tt))
  check_auth_method_lem v (n ∷ bs) = elim (Bool-cases (v == 5)) [
    | inl is5 ↦ elim (scan_methods-Scanned n bs) [
      | chosen m e first ↦ (m, ground (arith, is5, e), inl (ground (arith, is5), first))
      | none_fits e refused ↦ (invalid, ground (arith, is5, e), inr (refl, inr refused))
    ]
    | inr not5 ↦ (invalid, ground (arith, not5), inr (refl, inl (ground (arith, not5))))
  ]

-- Where a password is set, a client that is not on the list of known addresses is never let in
-- without one, whatever it sends.
pub check_auth_method-ne-no_auth :
    (c : Credentials) (buf : List ℕ) → check_auth_method (some c) false buf ≢ ok no_auth
unfolding check_auth_method at
check_auth_method-ne-no_auth c [] h = cc
check_auth_method-ne-no_auth c (v ∷ bs) h =
    let (m, e, found) = check_auth_method_lem (some c) false v bs in
    excluded m (let same : ◌≡◌ {A = Result AuthMethod} (ok m) (ok no_auth) = sym e ∙ h in cc) found
  where
    excluded :
        (m : AuthMethod)
        → m ≡ no_auth
        → ((v ≡ 5) × IsFirst (some c) false m (offered (v ∷ bs)))
          ⊎ ((m ≡ invalid) × ((v ≢ 5) ⊎ All (Refuses (some c) false) (offered (v ∷ bs))))
        → ⊥
    excluded m em (inl (_, first)) = elim (rw em at first.permitted) [ inl e ↦ cc | inr e ↦ cc ]
    excluded m em (inr (e, _)) = cc
