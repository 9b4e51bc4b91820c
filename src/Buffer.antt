-- ===== src/Buffer.antt =====
-- Reading a received packet. A buffer is the list of the bytes received, and a read past them is a
-- fault, so that a parser can be shown to stay inside.
use two_socks.Prelude.{
  ℕ, ◌+◌, ◌≤◌, ◌<◌, ◌≡◌, refl, List, arith, length, take, drop, get_elem?, Option, some, none, leb,
  if◌then◌else◌, [], ◌∷◌, ◌++◌, zero, suc, ap, ◌∙◌, length-append, take-append, drop-append,
  get_elem?-append-cons,
}
use two_socks.Codes.{ErrorCode}

-- What a parser returns: a value, a negative `enum errorcode`, or an access out of bounds.
pub data Result {ℓ} (A : Type ℓ) : Type ℓ where
  fault : Result A
  err : ErrorCode → Result A
  ok : A → Result A

infixl 5 ◌>>=◌
abbrev pub ◌>>=◌ {ℓ ℓ'} : {P : Type ℓ} {Q : Type ℓ'} → Result P → (P → Result Q) → Result Q
fault >>= next = fault
err code >>= next = err code
ok x >>= next = next x

abbrev pub or_fault {ℓ} : {A : Type ℓ} → Option A → Result A
or_fault none = fault
or_fault (some a) = ok a

abbrev pub or_err {ℓ} : {A : Type ℓ} → ErrorCode → Option A → Result A
or_err e none = err e
or_err e (some a) = ok a

-- `buf[i]`
unfoldable pub at : List ℕ → ℕ → Result ℕ
at buf i = or_fault (get_elem? buf i)

-- The `k` bytes from `buf + i` on.
unfoldable pub slice : List ℕ → ℕ → ℕ → Result (List ℕ)
slice buf i k = if leb (i + k) (length buf) then ok (take k (drop i buf)) else fault

pub at_ok : (buf : List ℕ) (i : ℕ) → i < length buf → (b : ℕ) × (at buf i ≡ ok b)
unfolding at
at_ok [] i h = absurd (omega arith)
at_ok (b ∷ buf) zero h = (b, refl)
at_ok (b ∷ buf) (suc i) h = at_ok buf i (omega arith)

pub slice_ok :
    (buf : List ℕ) (i k : ℕ) → i + k ≤ length buf → slice buf i k ≡ ok (take k (drop i buf))
unfolding slice
slice_ok buf i k h = ground arith

pub at-append-cons :
    (pre : List ℕ) (b : ℕ) (rest : List ℕ) (i : ℕ) → i ≡ length pre → at (pre ++ b ∷ rest) i ≡ ok b
unfolding at
at-append-cons pre b rest i e = rw (get_elem?-append-cons pre b rest i e)

pub slice-append :
    (pre mid post : List ℕ) (i k : ℕ)
    → i ≡ length pre
    → k ≡ length mid
    → slice (pre ++ (mid ++ post)) i k ≡ ok mid
slice-append pre mid post i k ei ek =
    slice_ok _ i k (omega (arith, length-append pre (mid ++ post), length-append mid post))
    ∙ ap ok (rw (drop-append pre (mid ++ post) i ei) (take-append mid post k ek))

-- A value that was returned, or the reason why none was.
pub data Cases {ℓ} {A : Type ℓ} (r : Result A) : Type ℓ where
  is_ok : (a : A) → r ≡ ok a → Cases r
  is_err : (e : ErrorCode) → r ≡ err e → Cases r
  is_fault : r ≡ fault → Cases r

pub Result-Cases {ℓ} : {A : Type ℓ} (r : Result A) → Cases r
Result-Cases (ok a) = is_ok a refl
Result-Cases (err e) = is_err e refl
Result-Cases fault = is_fault refl

-- What a chain that succeeds went through.
pub >>=-eq-ok {ℓ ℓ'} :
    {P : Type ℓ} {Q : Type ℓ'} (r : Result P) (next : P → Result Q) {y : Q}
    → (r >>= next) ≡ ok y
    → (x : P) × (r ≡ ok x) × (next x ≡ ok y)
>>=-eq-ok fault next e = cc
>>=-eq-ok (err code) next e = cc
>>=-eq-ok (ok x) next e = (x, refl, e)
