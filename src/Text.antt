-- ===== src/Text.antt =====
-- C strings as the bytes before their terminator: `strcmp` and `strncpy` as
-- TwoSocks/microsocks/sockssrv.c uses them. A byte is a number below 256.
use two_socks.Prelude.{
  ℕ, zero, suc, ◌<◌, ◌≤◌, ◌≡◌, ◌≢◌, ◌↔◌, refl, ap, Bool, true, false, ◌&&◌, List, [], ◌∷◌, arith,
  length, take, All, ◌==◌, if◌then◌else◌,
}

abbrev pub IsByte : ℕ → Type 0
IsByte b = b < 256

abbrev pub IsNonzero : ℕ → Type 0
IsNonzero b = b ≢ 0

-- What a string function reads of an array: the bytes before the first zero.
unfoldable pub c_str : List ℕ → List ℕ
c_str [] = []
c_str (b ∷ bs) = if b == 0 then [] else b ∷ c_str bs

-- `strcmp(a, b) == 0`
unfoldable pub str_eq : List ℕ → List ℕ → Bool
str_eq [] [] = true
str_eq [] (y ∷ ys) = false
str_eq (x ∷ xs) [] = false
str_eq (x ∷ xs) (y ∷ ys) = (x == y) && str_eq xs ys

pub str_eq_sound : (xs ys : List ℕ) → str_eq xs ys ≡ true → xs ≡ ys
unfolding str_eq
str_eq_sound [] [] h = refl
str_eq_sound [] (y ∷ ys) h = cc
str_eq_sound (x ∷ xs) [] h = cc
str_eq_sound (x ∷ xs) (y ∷ ys) h = ground (arith, str_eq_sound xs ys)

pub str_eq_refl : (xs : List ℕ) → str_eq xs xs ≡ true
unfolding str_eq
str_eq_refl [] = refl
str_eq_refl (x ∷ xs) = ground (arith, str_eq_refl xs)

pub str_eq_iff : (xs ys : List ℕ) → (str_eq xs ys ≡ true) ↔ (xs ≡ ys)
str_eq_iff xs ys = (str_eq_sound xs ys, λ e. rw e (str_eq_refl ys))

pub c_str-IsNonzero : (bs : List ℕ) → All IsNonzero (c_str bs)
unfolding c_str
c_str-IsNonzero [] = tt
c_str-IsNonzero (b ∷ bs) = ground (arith, c_str-IsNonzero bs)

pub c_str-eq_self : (bs : List ℕ) → All IsNonzero bs → c_str bs ≡ bs
unfolding c_str
c_str-eq_self [] h = refl
c_str-eq_self (b ∷ bs) h = ground (arith, c_str-eq_self bs h.1)

pub length-c_str-le : (bs : List ℕ) → length (c_str bs) ≤ length bs
unfolding c_str
length-c_str-le [] = omega arith
length-c_str-le (b ∷ bs) = ground (arith, length-c_str-le bs)

pub take-eq_self : (n : ℕ) (bs : List ℕ) → length bs ≤ n → take n bs ≡ bs
take-eq_self zero [] h = refl
take-eq_self zero (b ∷ bs) h = absurd (omega arith)
take-eq_self (suc n) [] h = refl
take-eq_self (suc n) (b ∷ bs) h = ap (λ r. b ∷ r) (take-eq_self n bs (omega arith))

-- `strncpy(dst, src, n)` into an array whose byte `n` is zero.
unfoldable pub strncpy : ℕ → List ℕ → List ℕ
unfolding c_str
strncpy n src = take n (c_str src)

-- A string that fits is copied whole.
pub strncpy-eq_self : (n : ℕ) (s : List ℕ) → length s ≤ n → All IsNonzero s → strncpy n s ≡ s
unfolding strncpy
strncpy-eq_self n s fits text = rw (c_str-eq_self s text) (take-eq_self n s fits)

-- A string that holds a zero is cut by `c_str`, so one that keeps its length is whole.
pub c_str_whole : (bs : List ℕ) → length (c_str bs) ≡ length bs → c_str bs ≡ bs
unfolding c_str
c_str_whole [] h = refl
c_str_whole (b ∷ bs) h = ground (arith, c_str_whole bs)

pub strncpy-eq_c_str : (n : ℕ) (s : List ℕ) → length s ≤ n → strncpy n s ≡ c_str s
unfolding strncpy
strncpy-eq_c_str n s fits = take-eq_self n (c_str s) (omega (arith, length-c_str-le s))
