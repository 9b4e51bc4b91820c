-- ===== src/Sblist.antt =====
-- The list library of TwoSocks/microsocks/sblist.h, a copy of a part of libulz, by its documented
-- behaviour: a dynamic array that holds its items by value.
use two_socks.Prelude.{
  ℕ, ◌≡◌, Bool, List, [], ◌∷◌, ◌++◌, Option, some, length, get_elem?, erase_idx, find_idx?,
}

-- `items` is what a list `l` holds. `create` and `add` return `none` when memory is exhausted.
pub record Sblist (A L : Type 0) : Type 0 where
  pub create : Option L
  pub get_size : L → ℕ
  pub get : L → ℕ → Option A
  pub add : L → A → Option L
  pub delete : L → ℕ → L
  pub find : L → (A → Bool) → Option ℕ
  pub items : L → List A
  pub items-create : (l : L) → create ≡ some l → items l ≡ []
  pub get_size_lem : (l : L) → get_size l ≡ length (items l)
  pub get_lem : (l : L) (i : ℕ) → get l i ≡ get_elem? (items l) i
  pub items-add : (l k : L) (a : A) → add l a ≡ some k → items k ≡ items l ++ a ∷ []
  pub items-delete : (l : L) (i : ℕ) → items (delete l i) ≡ erase_idx (items l) i
  pub find_lem : (l : L) (p : A → Bool) → find l p ≡ find_idx? p (items l)
