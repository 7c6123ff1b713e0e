-- ===== src/Predictor/Reshape.antt =====
-- The re-shape of the output in place: every value that is kept arrives, although the loop
-- overwrites the list that it reads.
use native.Mathlib.Nat.{mul-le-mul, mul-le-mul_left, mul-le-mul_right}
use treelite.Prelude.{
  ℕ, zero, suc, ◌+◌, ◌*◌, ◌≤◌, ◌<◌, ◌≡◌, refl, sym, ◌∙◌, arith, inl, inr, List, ok, some, length,
  get_elem?, set, length-set, get_elem?-set_self, get_elem?-set_ne, get_elem?-lt, ltb, Bool-cases,
  ltb→lt,
}
use treelite.Base.{TlFloat}
use treelite.Predictor.Rows.{write-inside}
use treelite.Predictor.Predict.{move_row, reshape}

-- `n` values from `from` on have moved to `to`, and no other place has changed.
record Moved (out out' : List TlFloat) (to from n : ℕ) : Type 0 where
  moved : (k : ℕ) → k < n → get_elem? out' (to + k) ≡ get_elem? out (from + k)
  before : (p : ℕ) → p < to → get_elem? out' p ≡ get_elem? out p
  after : (p : ℕ) → to + n ≤ p → get_elem? out' p ≡ get_elem? out p
  same_length : length out' ≡ length out

Moved-step :
    (n to from : ℕ) (x : TlFloat) (out out' : List TlFloat)
    → to ≤ from
    → to < length out
    → get_elem? out from ≡ some x
    → Moved (set out to x) out' (suc to) (suc from) n
    → Moved out out' to from (suc n)
Moved-step n to from x out out' h l e m = record {
  moved = arrived;
  before = λ p q. m.before p (omega (arith, q)) ∙ get_elem?-set_ne out to p x (omega (arith, q));
  after = λ p q. m.after p (omega (arith, q)) ∙ get_elem?-set_ne out to p x (omega (arith, q));
  same_length = m.same_length ∙ length-set out to x;
}
  where
    arrived : (k : ℕ) → k < suc n → get_elem? out' (to + k) ≡ get_elem? out (from + k)
    arrived zero q =
        let a : to + 0 ≡ to = omega arith in
        let b : from + 0 ≡ from = omega arith in
        rw (a, b) (m.before to (omega arith) ∙ get_elem?-set_self out to x l ∙ sym e)
    arrived (suc k) q =
        let a : to + suc k ≡ suc to + k = omega arith in
        let b : from + suc k ≡ suc from + k = omega arith in
        rw (a, b)
          (m.moved k (omega (arith, q)) ∙ get_elem?-set_ne out to (suc from + k) x (omega arith))

move_row-Moved :
    (n to from : ℕ) (out : List TlFloat)
    → to ≤ from
    → from + n ≤ length out
    → (out' : List TlFloat) × (move_row n to from out ≡ ok out') × Moved out out' to from n
unfolding move_row
move_row-Moved zero to from out h l = (
  out,
  refl,
  record {
    moved = λ k q. absurd (omega (arith, q));
    before = λ p q. refl;
    after = λ p q. refl;
    same_length = refl;
  },
)
move_row-Moved (suc n) to from out h l =
    let (x, e) = get_elem?-lt out from (omega arith) in
    let o = set out to x in
    let lo = length-set out to x in
    let (out', e', m) = move_row-Moved n (suc to) (suc from) o (omega arith) (omega (arith, lo)) in
    (
      out',
      simp (e, write-inside out to x (omega arith), e'),
      Moved-step n to from x out out' h (omega arith) e m,
    )

-- The rows from `rid` up to `last` have moved from width `g` to width `q`, and nothing before them
-- has changed.
pub record Reshaped (q g rid last : ℕ) (out out' : List TlFloat) : Type 0 where
  pub moved :
      (r k : ℕ)
      → rid ≤ r
      → r < last
      → k < q
      → get_elem? out' (r * q + k) ≡ get_elem? out (r * g + k)
  pub before : (p : ℕ) → p < rid * q → get_elem? out' p ≡ get_elem? out p
  pub same_length : length out' ≡ length out

Reshaped-step :
    (q g rid last : ℕ) (out o out' : List TlFloat)
    → q ≤ g
    → Moved out o (rid * q) (rid * g) q
    → Reshaped q g (suc rid) last o out'
    → Reshaped q g rid last out out'
Reshaped-step q g rid last out o out' h m r = record {
  moved = arrived;
  before = λ p l. r.before p (omega (arith, l)) ∙ m.before p l;
  same_length = r.same_length ∙ m.same_length;
}
  where
    arrived :
        (i k : ℕ)
        → rid ≤ i
        → i < last
        → k < q
        → get_elem? out' (i * q + k) ≡ get_elem? out (i * g + k)
    arrived i k a b c = elim (Bool-cases (ltb rid i)) [
      | inl l ↦
          let later = ltb→lt rid i l in
          let w = mul-le-mul later h in
          r.moved i k later b c ∙ m.after (i * g + k) (omega (arith, w))
      | inr l ↦
          let same : i ≡ rid = ground arith in
          rw same (r.before (rid * q + k) (omega (arith, c)) ∙ m.moved k c)
    ]

-- On an output with `rid + n` rows of `g` values, and `q` at most `g`, the loops that re-shape the
-- output in place, from row `rid` on, succeed: value `k` of row `r` arrives at place `r * q + k`, and
-- nothing before row `rid` changes.
pub reshape-Reshaped :
    (q g n rid : ℕ) (out : List TlFloat)
    → q ≤ g
    → (rid + n) * g ≤ length out
    → (out' : List TlFloat) × (reshape q g n rid out ≡ ok out')
      × Reshaped q g rid (rid + n) out out'
unfolding reshape
reshape-Reshaped q g zero rid out h l = (
  out,
  refl,
  record {
    moved = λ r k a b c. absurd (omega (arith, a, b));
    before = λ p l. refl;
    same_length = refl;
  },
)
reshape-Reshaped q g (suc n) rid out h l =
    let w = mul-le-mul_left rid h in
    let w' = mul-le-mul_right g (rid_le rid n) in
    let (o, e, m) = move_row-Moved q (rid * q) (rid * g) out w (omega (arith, w', h)) in
    let same : suc rid + n ≡ rid + suc n = omega arith in
    let (out', e', r) = reshape-Reshaped q g n (suc rid) o h (rw (same, m.same_length) l) in
    (
      out',
      simp (e, e'),
      Reshaped-step q g rid (rid + suc n) out o out' h m
          (until (suc rid + n) (rid + suc n) o out' same r),
    )
  where
    until :
        (a b : ℕ) (o o' : List TlFloat)
        → a ≡ b
        → Reshaped q g (suc rid) a o o'
        → Reshaped q g (suc rid) b o o'
    until a b o o' e r = rw (← e) r

    rid_le : (rid n : ℕ) → suc rid ≤ rid + suc n
    rid_le rid n = omega arith
