-- ===== src/Pool/Collecting.antt =====
-- `collect` deletes from the list while it walks over it; this is the walk over a list that is not
-- changed on the way.
use two_socks.Prelude.{
  ℕ, ◌+◌, ◌≡◌, refl, ap, sym, ◌∙◌, true, false, List, [], ◌∷◌, ◌++◌, some, inl, inr, arith, length,
  get_elem?, erase_idx, append_assoc, Bool-cases, length-append,
}
use two_socks.Os.{Os}
use two_socks.Sblist.{Sblist}
use two_socks.System.{moved}
use two_socks.Pool.{ThreadOs, Deed, freed, joined, Pool, reap, collect_from, collect}

pub get-behind :
    (front rest : List ℕ) (t : ℕ) → get_elem? (front ++ t ∷ rest) (length front) ≡ some t
get-behind [] rest t = refl
get-behind (x ∷ front) rest t = get-behind front rest t

pub erase-behind :
    (front rest : List ℕ) (t : ℕ) → erase_idx (front ++ t ∷ rest) (length front) ≡ front ++ rest
erase-behind [] rest t = refl
erase-behind (x ∷ front) rest t = ap (λ r. x ∷ r) (erase-behind front rest t)

pub record Swept (W : Type 0) : Type 0 where
  pub kept : List ℕ
  pub gone : List ℕ
  pub world : W

-- The log after threads were joined and freed, one after the other.
abbrev pub reaped : List ℕ → List Deed → List Deed
reaped [] ds = ds
reaped (t ∷ ts) ds = reaped ts (freed t ∷ joined t ∷ ds)

module _ {W T : Type 0} (os : Os W) (ths : ThreadOs W) (lib : Sblist ℕ T) where
  -- Each thread is asked once, in order; those that are done are joined and freed at once.
  unfoldable pub sweep : List ℕ → W → Swept W
  sweep [] w = record { kept = []; gone = []; world = w }
  sweep (t ∷ ts) w = elim (ths.is_done w t) [
    | true ↦ let r = sweep ts (ths.free (ths.pthread_join w t) t) in record r { gone = t ∷ r.gone }
    | false ↦ let r = sweep ts w in record r { kept = t ∷ r.kept }
  ]

  -- The state after a sweep that kept `front` before.
  pub record IsSwept (front : List ℕ) (v v' : Pool W T) (r : Swept W) : Type 0 where
    pub left : lib.items v'.threads ≡ front ++ r.kept
    pub log : v'.deeds ≡ reaped r.gone v.deeds
    pub state : v'.sys ≡ moved r.world v.sys

  collect_from-IsSwept :
      (front ts : List ℕ) (i : ℕ) (v : Pool W T)
      → i ≡ length front
      → lib.items v.threads ≡ front ++ ts
      → IsSwept front v (collect_from os ths lib (length ts) i v) (sweep ts v.sys.world)
  unfolding collect_from sweep
  collect_from-IsSwept front [] i v at_i e = record { left = e; log = refl; state = refl }
  collect_from-IsSwept front (t ∷ ts) i v at_i e =
      let found : lib.get v.threads i ≡ some t =
        lib.get_lem v.threads i ∙ (rw (e, at_i) (get-behind front ts t)) in
      elim (Bool-cases (ths.is_done v.sys.world t)) [
        | inl d ↦
            let h =
              collect_from-IsSwept front ts i (reap os ths lib i t v) at_i
                (lib.items-delete v.threads i ∙ rw (e, at_i) (erase-behind front ts t)) in
            rw (found, collect_from, sweep, d)
              (record { left = h.left; log = h.log; state = h.state })
        | inr d ↦
            let h =
              collect_from-IsSwept (front ++ t ∷ []) ts (i + 1) v
                (omega (arith, at_i, length-append front (t ∷ [])))
                (e ∙ sym (append_assoc front (t ∷ []) ts)) in
            rw (found, collect_from, sweep, d)
              (record {
                left = h.left ∙ append_assoc front (t ∷ []) _;
                log = h.log;
                state = h.state;
              })
      ]

  -- `collect` asks each thread of the list once, in order, whether it is done, joins and frees the
  -- ones that are, at once and once each, and leaves the others on the list in their order.
  pub collect-IsSwept :
      (v : Pool W T) → IsSwept [] v (collect os ths lib v) (sweep (lib.items v.threads) v.sys.world)
  unfolding collect
  collect-IsSwept v =
      rw (lib.get_size_lem v.threads) (collect_from-IsSwept [] (lib.items v.threads) 0 v refl refl)
