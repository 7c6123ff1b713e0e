-- ===== src/Ast/Quantize/Placed.antt =====
-- What it means that a number stands at the place of a value among the thresholds.
use treelite.Prelude.{
  ℕ, zero, suc, ◌+◌, ◌*◌, ◌≤◌, ◌<◌, false, List, [], ◌∷◌, some, ◌≡◌, refl, ap, ◌∙◌, arith, inl, inr,
  Bool-cases, length, get_elem?, ltb, ltb→lt, lt→ltb, get_elem?-lt,
}
use treelite.Base.{TlFloat, is_nan, order_key}
use treelite.Ast.Quantize.{int_key}
use treelite.Ast.Quantize.Bins.{Above, Above-lt, SameOrder, below, same, above}

-- `q` stands to the number of every threshold as `v` stands to the threshold.
unfoldable pub Placed : List TlFloat → TlFloat → ℕ → Type 0
Placed xs v q =
    (i : ℕ) (a : TlFloat)
    → get_elem? xs i ≡ some a
    → SameOrder (order_key v) (order_key a) (int_key q) (int_key (i * 2))

pub int_key-small : (x : ℕ) → x < 0x8000_0000 → int_key x ≡ x + 0x8000_0000
int_key-small x h = rw (lt→ltb x 0x8000_0000 h) refl

pub get_elem?-inside :
    {A : Type 0} (xs : List A) (i : ℕ) (a : A) → get_elem? xs i ≡ some a → i < length xs
get_elem?-inside [] i a h = cc
get_elem?-inside (x ∷ xs) zero a h = omega arith
get_elem?-inside (x ∷ xs) (suc i) a h = omega (arith, get_elem?-inside xs i a h)

module _ (xs : List TlFloat) (v : TlFloat) (s : Above 0 xs) (num : is_nan v ≡ false)
    (fits : length xs * 2 < 0x8000_0000) where
  -- The value of a threshold is found.
  pub Placed-at :
      (mid : ℕ) (a : TlFloat)
      → get_elem? xs mid ≡ some a
      → order_key v ≡ order_key a
      → Placed xs v (mid * 2)
  unfolding Placed
  Placed-at mid a e h i b g =
      let l = get_elem?-inside xs mid a e in
      let l' = get_elem?-inside xs i b g in
      let k = int_key-small (mid * 2) (omega arith) in
      let k' = int_key-small (i * 2) (omega arith) in
      elim (Bool-cases (ltb i mid)) [
        | inl p ↦
            let q = ltb→lt i mid p in
            let o = Above-lt 0 xs i mid b a s q g e in
            above (omega (arith, o, h)) (omega (arith, k, k', q))
        | inr p ↦ elim (Bool-cases (ltb mid i)) [
          | inl p' ↦
              let q = ltb→lt mid i p' in
              let o = Above-lt 0 xs mid i a b s q e g in
              below (omega (arith, o, h)) (omega (arith, k, k', q))
          | inr p' ↦
              let eq : mid ≡ i = ground arith in
              let ab : get_elem? xs mid ≡ some b = rw eq g in
              let ab' : a ≡ b = cc in
              same (h ∙ ap order_key ab') (ap (λ (j : ℕ). int_key (j * 2)) eq)
        ]
      ]

  -- The value lies above the threshold at `low` and below the next one, if there is one.
  pub Placed-between :
      (low q : ℕ) (a : TlFloat)
      → get_elem? xs low ≡ some a
      → order_key a < order_key v
      → ((b : TlFloat) → get_elem? xs (suc low) ≡ some b → order_key v < order_key b)
      → low * 2 < q
      → q < 0x8000_0000
      → (suc low < length xs → q < suc low * 2)
      → Placed xs v q
  unfolding Placed
  Placed-between low q a e h next more small less i b g =
      let l' = get_elem?-inside xs i b g in
      let k = int_key-small q small in
      let k' = int_key-small (i * 2) (omega arith) in
      elim (Bool-cases (ltb low i)) [
        | inl p ↦
            let c = get_elem?-lt xs (suc low) (omega (arith, l', ltb→lt low i p)) in
            let n = next c.0 c.1 in
            let r = less (omega (arith, l', ltb→lt low i p)) in
            let o = le_last (suc low) i c.0 b (ltb→lt low i p) c.1 g in
            below (omega (arith, n, o)) (omega (arith, k, k', r, ltb→lt low i p))
        | inr p ↦
            let il : i ≤ low = ground arith in
            let o = le_last i low b a il g e in
            above (omega (arith, o, h)) (omega (arith, k, k', il, more))
      ]
    where
      le_last :
          (i j : ℕ) (a b : TlFloat)
          → i ≤ j
          → get_elem? xs i ≡ some a
          → get_elem? xs j ≡ some b
          → order_key a ≤ order_key b
      le_last i j a b l e f = elim (Bool-cases (ltb i j)) [
        | inl p ↦ let o = Above-lt 0 xs i j a b s (ltb→lt i j p) e f in omega (arith, o)
        | inr p ↦
            let eq : i ≡ j = ground arith in
            let f' : get_elem? xs i ≡ some b = rw eq f in
            let ab : a ≡ b = cc in omega (arith, ap order_key ab)
      ]
