-- ===== src/Auth/Password.antt =====
-- Which messages pass the check of a name and a password.
use two_socks.Prelude.{
  ℕ, ◌+◌, ◌≤◌, ◌<◌, ◌≡◌, refl, sym, ◌∙◌, ◌⊎◌, ◌↔◌, ◌&&◌, inl, inr, false, List, [], ◌∷◌, ◌++◌,
  arith, length, length-append, split_one, take, drop, ap, Bool-cases, ltb, ◌==◌, ==_iff,
  append_assoc, take-append-drop, length-take, length-drop, if◌then◌else◌,
}
use two_socks.Codes.{ErrorCode, success, general_failure, not_allowed}
use two_socks.Text.{c_str, str_eq, str_eq_sound, str_eq_refl}
use two_socks.Buffer.{ok, ◌>>=◌, at, at-append-cons, slice, slice-append}
use two_socks.Auth.{Credentials, check_credentials}

-- A message that holds a name and a password. At least two bytes stand behind the lengths, and
-- one behind the name.
pub record Login (buf : List ℕ) : Type 0 where
  pub name : List ℕ
  pub word : List ℕ
  pub rest : List ℕ
  pub long : 2 ≤ length name + length word + length rest
  pub trailed : 1 ≤ length word + length rest
  pub bytes : buf ≡ 1 ∷ length name ∷ name ++ length word ∷ (word ++ rest)

-- What the message of a login is answered with.
abbrev pub verdict : Credentials → List ℕ → List ℕ → ErrorCode
verdict creds name word =
    if str_eq (c_str name) creds.user && str_eq (c_str word) creds.pass
    then success
    else not_allowed

-- The bytes up to the length of the password, `p`, and what follows.
login_head : List ℕ → ℕ → List ℕ → List ℕ
login_head name p r = 1 ∷ length name ∷ name ++ p ∷ r

module _ (name : List ℕ) where
  length-login_head :
      (p : ℕ) (r : List ℕ) → length (login_head name p r) ≡ length name + length r + 3
  unfolding login_head
  length-login_head p r = omega (arith, length-append name (p ∷ r))

  login_reads :
      (p : ℕ) (r : List ℕ)
      → let buf = login_head name p r in
        (at buf 0 ≡ ok 1)
        × (at buf 1 ≡ ok (length name))
        × (at buf (2 + length name) ≡ ok p)
        × (slice buf 2 (length name) ≡ ok name)
  unfolding login_head
  login_reads p r = (
    at-append-cons [] 1 (length name ∷ name ++ p ∷ r) 0 refl,
    at-append-cons (1 ∷ []) (length name) (name ++ p ∷ r) 1 refl,
    at-append-cons (1 ∷ length name ∷ name) p r (2 + length name) (omega arith),
    slice-append (1 ∷ length name ∷ []) name (p ∷ r) 2 (length name) refl refl,
  )

  login_word :
      (word rest : List ℕ)
      → slice (login_head name (length word) (word ++ rest)) (2 + length name + 1) (length word)
        ≡ ok word
  unfolding login_head
  login_word word rest =
      ap (λ b. slice b (2 + length name + 1) (length word))
        (sym (append_assoc (1 ∷ length name ∷ name) (length word ∷ []) (word ++ rest)))
      ∙ slice-append (1 ∷ length name ∷ name ++ length word ∷ []) word rest _ _
          (omega (arith, length-append name (length word ∷ []))) refl

  module _ (creds : Credentials) where
    -- With the first bytes read, the three tests of the length are left.
    login_tests :
        (p : ℕ) (r : List ℕ)
        → let n = length name + length r + 3 in
          check_credentials creds (login_head name p r) ≡ (
            if ltb n 5
            then ok general_failure
            else if ltb n (2 + length name + 2)
            then ok general_failure
            else if ltb n (2 + length name + 1 + p)
            then ok general_failure
            else (slice (login_head name p r) (2 + length name + 1) p >>= λ word.
                ok (verdict creds name word)))
    unfolding check_credentials
    login_tests p r =
        let (r0, r1, r2, r3) = login_reads p r in rw (r0, r1, r2, r3, length-login_head p r) refl

    login_short :
        (p : ℕ) (r : List ℕ)
        → length r < p
        → check_credentials creds (login_head name p r) ≡ ok general_failure
    login_short p r h = login_tests p r ∙ ground arith

    login_whole :
        (word rest : List ℕ)
        → 2 ≤ length name + length word + length rest
        → 1 ≤ length word + length rest
        → check_credentials creds (login_head name (length word) (word ++ rest))
          ≡ ok (verdict creds name word)
    login_whole word rest long trailed =
        let len = length-append word rest in
        let n : ℕ = length name + length (word ++ rest) + 3 in
        let t0 : ltb n 5 ≡ false = ground arith in
        let t1 : ltb n (2 + length name + 2) ≡ false = ground arith in
        let t2 : ltb n (2 + length name + 1 + length word) ≡ false = ground arith in
        login_tests (length word) (word ++ rest) ∙ rw (t0, t1, t2, login_word word rest) refl

module _ (creds : Credentials) where
  check_credentials-Login :
      {buf : List ℕ} (l : Login buf)
      → check_credentials creds buf ≡ ok (verdict creds l.name l.word)
  unfolding login_head
  check_credentials-Login l = rw l.bytes (login_whole l.name creds l.word l.rest l.long l.trailed)

  -- A message is a login or is refused as malformed.
  abbrev IsJudged : List ℕ → Type 0
  IsJudged buf = Login buf ⊎ (check_credentials creds buf ≡ ok general_failure)

  judge_head : (name : List ℕ) (p : ℕ) (r : List ℕ) → IsJudged (login_head name p r)
  unfolding login_head
  judge_head name p r = elim (Bool-cases (ltb (length name + length r + 3) 5)) [
    | inl short ↦ inr (login_tests name creds p r ∙ rw short refl)
    | inr long ↦ elim (Bool-cases (ltb (length name + length r + 3) (2 + length name + 2))) [
      | inl short ↦ inr (login_tests name creds p r ∙ rw (long, short) refl)
      | inr trailed ↦ elim (Bool-cases (ltb (length r) p)) [
        | inl short ↦ inr (login_short name creds p r (ground (arith, short)))
        | inr holds ↦
            let size : length (take p r) ≡ p = ground (arith, length-take p r, holds) in
            let both : length (take p r) + length (drop p r) ≡ length r =
              omega (arith, size, length-drop p r, length-take p r) in
            inl (record {
              name = name;
              word = take p r;
              rest = drop p r;
              long = ground (arith, long, both);
              trailed = ground (arith, trailed, both);
              bytes = rw (size, take-append-drop p r) refl;
            })
      ]
    ]
  ]

  judge_split :
      (name : List ℕ) (p : ℕ) (r : List ℕ) {v l : ℕ} {xs : List ℕ}
      → v ≡ 1
      → length name ≡ l
      → xs ≡ name ++ p ∷ r
      → IsJudged (v ∷ l ∷ xs)
  unfolding login_head
  judge_split name p r ev el ex = rw (ev, ← el, ex) (judge_head name p r)

  judge_login_long : (v l : ℕ) (xs : List ℕ) → 5 ≤ length xs + 2 → IsJudged (v ∷ l ∷ xs)
  unfolding check_credentials at
  judge_login_long v l xs h5 = elim (Bool-cases (v == 1)) [
    | inl is1 ↦ elim (Bool-cases (ltb (length (v ∷ l ∷ xs)) (2 + l + 2))) [
      | inl short ↦ inr (ground (arith, is1, short))
      | inr long ↦
          let (name, p, r, len, ex) = split_one l xs (ground (arith, long)) in
          judge_split name p r ((==_iff v 1).0 is1) len ex
    ]
    | inr not1 ↦ inr (ground (arith, not1))
  ]

  judge_login : (buf : List ℕ) → IsJudged buf
  unfolding check_credentials at
  judge_login [] = inr refl
  judge_login (v ∷ []) = inr refl
  judge_login (v ∷ l ∷ xs) = elim (Bool-cases (ltb (length (v ∷ l ∷ xs)) 5)) [
    | inl short ↦ inr (ground (arith, short))
    | inr long ↦ judge_login_long v l xs (ground (arith, long))
  ]

  -- Every message is answered, without a read past it: one that is no login as malformed, and a
  -- login by the comparison of its name and its password, each up to its first zero byte.
  pub check_credentials_lem :
      (buf : List ℕ)
      → ((l : Login buf) × (check_credentials creds buf ≡ ok (verdict creds l.name l.word)))
        ⊎ ((¬ Login buf) × (check_credentials creds buf ≡ ok general_failure))
  check_credentials_lem buf = elim (judge_login buf) [
    | inl l ↦ inl (l, check_credentials-Login l)
    | inr e ↦ inr (λ l. let e' = check_credentials-Login l in ground arith, e)
  ]

  -- The check succeeds exactly on the logins whose name and password, each up to its first zero
  -- byte, are the configured ones.
  pub check_credentials-success_iff :
      (buf : List ℕ)
      → (check_credentials creds buf ≡ ok success)
        ↔ ((l : Login buf) × (c_str l.name ≡ creds.user) × (c_str l.word ≡ creds.pass))
  check_credentials-success_iff buf = (sound (check_credentials_lem buf), complete)
    where
      sound :
          ((l : Login buf) × (check_credentials creds buf ≡ ok (verdict creds l.name l.word)))
            ⊎ ((¬ Login buf) × (check_credentials creds buf ≡ ok general_failure))
          → check_credentials creds buf ≡ ok success
          → (l : Login buf) × (c_str l.name ≡ creds.user) × (c_str l.word ≡ creds.pass)
      sound (inl (l, e)) h = (l, str_eq_sound _ _ (ground arith), str_eq_sound _ _ (ground arith))
      sound (inr (_, e)) h = absurd (cc)

      complete :
          (l : Login buf) × (c_str l.name ≡ creds.user) × (c_str l.word ≡ creds.pass)
          → check_credentials creds buf ≡ ok success
      complete (l, eu, ep) =
          check_credentials-Login l
          ∙ rw (eu, ep, str_eq_refl creds.user, str_eq_refl creds.pass) refl
