-- ===== src/Prelude/Lists.antt =====
-- Lists measured and indexed by native numbers, under the library's names.
use Prim.Native.Nat.{ℕ, zero, suc, ◌+◌, ◌-◌, ◌≤◌, min}
use mathlib.Core.Path.{◌≡◌, refl, ap}
use mathlib.Core.List.{List, [], ◌∷◌, ◌++◌}
use mathlib.Core.Option.{Option, none, some}
use mathlib.Core.Bool.{Bool}
use native.Mathlib.Omega.{arith}
use two_socks.Prelude.Tests.{if◌then◌else◌, ◌==◌}

module _ {ℓ} {A : Type ℓ} where
  abbrev pub length : List A → ℕ
  length [] = 0
  length (x ∷ xs) = suc (length xs)

  abbrev pub get_elem? : List A → ℕ → Option A
  get_elem? [] i = none
  get_elem? (x ∷ xs) zero = some x
  get_elem? (x ∷ xs) (suc i) = get_elem? xs i

  abbrev pub take : ℕ → List A → List A
  take zero xs = []
  take (suc n) [] = []
  take (suc n) (x ∷ xs) = x ∷ take n xs

  abbrev pub drop : ℕ → List A → List A
  drop zero xs = xs
  drop (suc n) [] = []
  drop (suc n) (x ∷ xs) = drop n xs

  -- The list without its element at an index; out of range nothing changes.
  abbrev pub erase_idx : List A → ℕ → List A
  erase_idx [] i = []
  erase_idx (x ∷ xs) zero = xs
  erase_idx (x ∷ xs) (suc i) = x ∷ erase_idx xs i

  abbrev pub find_idx? : (A → Bool) → List A → Option ℕ
  find_idx? p [] = none
  find_idx? p (x ∷ xs) =
      if p x then some 0 else elim (find_idx? p xs) [ none ↦ none | some i ↦ some (suc i) ]

  -- A predicate by recursion computes to tuples.
  abbrev pub All {κ} : (A → Type κ) → List A → Type κ
  All P [] = Unit
  All P (x ∷ xs) = P x × All P xs

module _ {ℓ} {A : Type ℓ} where
  pub length-append : (xs ys : List A) → length (xs ++ ys) ≡ length xs + length ys
  length-append [] ys = omega arith
  length-append (x ∷ xs) ys = omega (arith, length-append xs ys)

  pub take-append-drop : (n : ℕ) (xs : List A) → take n xs ++ drop n xs ≡ xs
  take-append-drop zero xs = refl
  take-append-drop (suc n) [] = refl
  take-append-drop (suc n) (x ∷ xs) = rw (take-append-drop n xs)

  pub length-take : (n : ℕ) (xs : List A) → length (take n xs) ≡ min n (length xs)
  length-take zero xs = omega arith
  length-take (suc n) [] = omega arith
  length-take (suc n) (x ∷ xs) = omega (arith, length-take n xs)

  pub length-drop : (n : ℕ) (xs : List A) → length (drop n xs) ≡ length xs - n
  length-drop zero xs = omega arith
  length-drop (suc n) [] = omega arith
  length-drop (suc n) (x ∷ xs) = omega (arith, length-drop n xs)

  pub All-append {κ} : (P : A → Type κ) (xs ys : List A) → All P xs → All P ys → All P (xs ++ ys)
  All-append P [] ys hx hy = hy
  All-append P (x ∷ xs) ys hx hy = (hx.0, All-append P xs ys hx.1 hy)

  pub take-length-append : (xs ys : List A) → take (length xs) (xs ++ ys) ≡ xs
  take-length-append [] ys = refl
  take-length-append (x ∷ xs) ys = ap (λ r. x ∷ r) (take-length-append xs ys)

  pub drop-length-append : (xs ys : List A) → drop (length xs) (xs ++ ys) ≡ ys
  drop-length-append [] ys = refl
  drop-length-append (x ∷ xs) ys = drop-length-append xs ys

module _ {ℓ} {A : Type ℓ} where
  pub get_elem?-append-cons :
      (xs : List A) (y : A) (ys : List A) (i : ℕ)
      → i ≡ length xs
      → get_elem? (xs ++ y ∷ ys) i ≡ some y
  get_elem?-append-cons [] y ys i e = rw e
  get_elem?-append-cons (x ∷ xs) y ys zero e = absurd (omega arith)
  get_elem?-append-cons (x ∷ xs) y ys (suc i) e = get_elem?-append-cons xs y ys i (omega arith)

  pub take-append : (xs ys : List A) (n : ℕ) → n ≡ length xs → take n (xs ++ ys) ≡ xs
  take-append xs ys n e = rw e (take-length-append xs ys)

  pub drop-append : (xs ys : List A) (n : ℕ) → n ≡ length xs → drop n (xs ++ ys) ≡ ys
  drop-append xs ys n e = rw e (drop-length-append xs ys)

  -- A list splits into a part of a given length, two elements, and the rest.
  pub split_two :
      (n : ℕ) (xs : List A)
      → n + 2 ≤ length xs
      → (pre : List A) × (y : A) × (z : A) × (rest : List A) × (length pre ≡ n)
        × (xs ≡ pre ++ y ∷ z ∷ rest)
  split_two zero [] h = absurd (omega arith)
  split_two zero (x ∷ []) h = absurd (omega arith)
  split_two zero (x ∷ y ∷ xs) h = ([], x, y, xs, refl, refl)
  split_two (suc n) [] h = absurd (omega arith)
  split_two (suc n) (x ∷ xs) h =
      let (pre, y, z, rest, len, e) = split_two n xs (omega arith) in
      (x ∷ pre, y, z, rest, ap suc len, ap (λ r. x ∷ r) e)

  pub All-append-left {κ} : (P : A → Type κ) (xs ys : List A) → All P (xs ++ ys) → All P xs
  All-append-left P [] ys h = tt
  All-append-left P (x ∷ xs) ys h = (h.0, All-append-left P xs ys h.1)

  pub All-append-right {κ} : (P : A → Type κ) (xs ys : List A) → All P (xs ++ ys) → All P ys
  All-append-right P [] ys h = h
  All-append-right P (x ∷ xs) ys h = All-append-right P xs ys h.1

  pub split_one :
      (n : ℕ) (xs : List A)
      → n + 1 ≤ length xs
      → (pre : List A) × (y : A) × (rest : List A) × (length pre ≡ n) × (xs ≡ pre ++ y ∷ rest)
  split_one zero [] h = absurd (omega arith)
  split_one zero (x ∷ xs) h = ([], x, xs, refl, refl)
  split_one (suc n) [] h = absurd (omega arith)
  split_one (suc n) (x ∷ xs) h =
      let (pre, y, rest, len, e) = split_one n xs (omega arith) in
      (x ∷ pre, y, rest, ap suc len, ap (λ r. x ∷ r) e)

module _ {ℓ} {A : Type ℓ} where
  pub drop_cons :
      (xs : List A) (i n : ℕ)
      → length xs ≡ suc n + i
      → (x : A) × (get_elem? xs i ≡ some x) × (drop i xs ≡ x ∷ drop (suc i) xs)
  drop_cons [] i n h = absurd (omega arith)
  drop_cons (x ∷ xs) zero n h = (x, refl, refl)
  drop_cons (x ∷ xs) (suc i) n h = drop_cons xs i n (omega arith)

  pub drop_all : (xs : List A) (i : ℕ) → length xs ≡ i → drop i xs ≡ []
  drop_all [] zero h = refl
  drop_all [] (suc i) h = refl
  drop_all (x ∷ xs) zero h = absurd (omega arith)
  drop_all (x ∷ xs) (suc i) h = drop_all xs i (omega arith)

-- How often a number stands in a list.
abbrev pub count : ℕ → List ℕ → ℕ
count n [] = 0
count n (x ∷ xs) = count n xs + (if x == n then 1 else 0)

pub count-append : (n : ℕ) (xs ys : List ℕ) → count n (xs ++ ys) ≡ count n xs + count n ys
count-append n [] ys = omega arith
count-append n (x ∷ xs) ys = omega (arith, count-append n xs ys)

pub some_inj {ℓ} : {A : Type ℓ} {a b : A} → some a ≡ some b → a ≡ b
some_inj e = cc
