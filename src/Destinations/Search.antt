-- ===== src/Destinations/Search.antt =====
-- What the search of a list finds.
use two_socks.Prelude.{
  ℕ, zero, suc, ◌≡◌, refl, Bool, true, false, List, [], ◌∷◌, Option, none, some, inl, inr, All,
  find_idx?, get_elem?, Bool-cases, Option-cases,
}

module _ {ℓ} {A : Type ℓ} where
  pub find_idx?-some :
      (p : A → Bool) (xs : List A) (i : ℕ)
      → find_idx? p xs ≡ some i
      → (x : A) × (get_elem? xs i ≡ some x) × (p x ≡ true)
  find_idx?-some p [] i h = absurd (cc)
  find_idx?-some p (x ∷ xs) i h = elim (Bool-cases (p x)) [
    | inl yes_x ↦ first i (rw yes_x at h) yes_x
    | inr no_x ↦ elim (Option-cases (find_idx? p xs)) [
      | inl e ↦ absurd (let e' : ◌≡◌ {A = Option ℕ} none (some i) = rw (no_x, e) at h in cc)
      | inr (j, e) ↦ later i j (rw (no_x, e) at h) (find_idx?-some p xs j e)
    ]
  ]
    where
      first :
          (i : ℕ)
          → ◌≡◌ {A = Option ℕ} (some 0) (some i)
          → p x ≡ true
          → (y : A) × (get_elem? (x ∷ xs) i ≡ some y) × (p y ≡ true)
      first zero e px = (x, refl, px)
      first (suc i) e px = absurd (cc)

      later :
          (i j : ℕ)
          → ◌≡◌ {A = Option ℕ} (some (suc j)) (some i)
          → (y : A) × (get_elem? xs j ≡ some y) × (p y ≡ true)
          → (y : A) × (get_elem? (x ∷ xs) i ≡ some y) × (p y ≡ true)
      later zero j e r = absurd (cc)
      later (suc i) j e (y, at, py) = let same : j ≡ i = cc in (y, rw (← same) at, py)

  pub find_idx?-none :
      (p : A → Bool) (xs : List A) → find_idx? p xs ≡ none → All (λ x. p x ≡ false) xs
  find_idx?-none p [] h = tt
  find_idx?-none p (x ∷ xs) h = elim (Bool-cases (p x)) [
    | inl yes_x ↦ absurd (let e' : ◌≡◌ {A = Option ℕ} (some 0) none = rw yes_x at h in cc)
    | inr no_x ↦ elim (Option-cases (find_idx? p xs)) [
      | inl e ↦ (no_x, find_idx?-none p xs e)
      | inr (j, e) ↦
          absurd (let e' : ◌≡◌ {A = Option ℕ} (some (suc j)) none = rw (no_x, e) at h in cc)
    ]
  ]
