-- ===== src/Ast/Quantize/Bins.antt =====
-- The sorted thresholds of a feature, and the tables in which the C code keeps them.
use treelite.Prelude.{
  ℕ, zero, suc, ◌+◌, ◌≤◌, ◌<◌, true, false, List, [], ◌∷◌, ◌++◌, some, ◌≡◌, ◌≢◌, refl, sym, ap, ◌∙◌,
  arith, inl, inr, Bool-cases, ok, length, get_elem?, ltb, leb, ◌==◌, ltb→lt,
}
use treelite.Base.{
  TlFloat, is_nan, order_key, float_lt, float_le, float_eq, compare_with_op, Operator, no_op, eq,
  lt, le, gt, ge,
}
use treelite.Ast.Quantize.{
  insert, array_threshold, array_th_begin, array_th_len, total_num_threshold, int_key, compare_int,
}

-- Floats that are numbers, in strictly ascending order from `lo` on.
abbrev pub Above : ℕ → List TlFloat → Type 0
Above lo [] = Unit
Above lo (x ∷ xs) = (is_nan x ≡ false) × (lo ≤ order_key x) × Above (suc (order_key x)) xs

pub Above-get :
    (lo : ℕ) (xs : List TlFloat) (i : ℕ) (a : TlFloat)
    → Above lo xs
    → get_elem? xs i ≡ some a
    → (is_nan a ≡ false) × (lo ≤ order_key a)
Above-get lo [] i a s e = cc
Above-get lo (x ∷ xs) zero a s e = let same : x ≡ a = cc in (rw (← same) s.0, rw (← same) s.1)
Above-get lo (x ∷ xs) (suc i) a s e =
    let (n, l) = Above-get (suc (order_key x)) xs i a s.2 e in (n, omega (arith, l, s.1))

pub Above-lt :
    (lo : ℕ) (xs : List TlFloat) (i j : ℕ) (a b : TlFloat)
    → Above lo xs
    → i < j
    → get_elem? xs i ≡ some a
    → get_elem? xs j ≡ some b
    → order_key a < order_key b
Above-lt lo [] i j a b s l e f = cc
Above-lt lo (x ∷ xs) zero zero a b s l e f = absurd (omega (arith, l))
Above-lt lo (x ∷ xs) zero (suc j) a b s l e f =
    let same : x ≡ a = cc in rw (← same) ((Above-get (suc (order_key x)) xs j b s.2 f).1)
Above-lt lo (x ∷ xs) (suc i) zero a b s l e f = absurd (omega (arith, l))
Above-lt lo (x ∷ xs) (suc i) (suc j) a b s l e f =
    Above-lt (suc (order_key x)) xs i j a b s.2 (omega (arith, l)) e f

pub float_lt-keys :
    (x y : TlFloat)
    → is_nan x ≡ false
    → is_nan y ≡ false
    → float_lt x y ≡ ltb (order_key x) (order_key y)
unfolding float_lt
float_lt-keys x y h k = rw (h, k) refl

pub float_le-keys :
    (x y : TlFloat)
    → is_nan x ≡ false
    → is_nan y ≡ false
    → float_le x y ≡ leb (order_key x) (order_key y)
unfolding float_le
float_le-keys x y h k = rw (h, k) refl

pub float_eq-keys :
    (x y : TlFloat)
    → is_nan x ≡ false
    → is_nan y ≡ false
    → float_eq x y ≡ (order_key x == order_key y)
unfolding float_eq
float_eq-keys x y h k = rw (h, k) refl

-- The set of thresholds stays sorted.
pub insert-Above :
    (lo : ℕ) (x : TlFloat) (ys : List TlFloat)
    → is_nan x ≡ false
    → lo ≤ order_key x
    → Above lo ys
    → Above lo (insert x ys)
unfolding insert
insert-Above lo x [] n l s = (n, l, tt)
insert-Above lo x (y ∷ ys) n l s = elim (Bool-cases (float_lt x y)) [
  | inl p ↦
      let q : ltb (order_key x) (order_key y) ≡ true = sym (float_lt-keys x y n s.0) ∙ p in
      rw p (n, l, (s.0, ltb→lt (order_key x) (order_key y) q, s.2))
  | inr p ↦ elim (Bool-cases (float_lt y x)) [
    | inl q ↦
        let r : ltb (order_key y) (order_key x) ≡ true = sym (float_lt-keys y x s.0 n) ∙ q in
        rw (p, q)
          (
            s.0,
            s.1,
            insert-Above (suc (order_key y)) x ys n (ltb→lt (order_key y) (order_key x) r) s.2,
          )
    | inr q ↦ rw (p, q) s
  ]
]

-- Where the thresholds of one feature stand in the arrays of the C code.
pub record Segment (cut_pts : List (List TlFloat)) (fid accum : ℕ) (xs : List TlFloat)
    : Type 0 where
  pub offset : ℕ
  pub begins : get_elem? (array_th_begin accum cut_pts) fid ≡ some (accum + offset)
  pub len : get_elem? (array_th_len cut_pts) fid ≡ some (length xs)
  pub inside : offset + length xs ≤ total_num_threshold cut_pts
  pub values :
      (k : ℕ) (a : TlFloat)
      → get_elem? xs k ≡ some a
      → get_elem? (array_threshold cut_pts) (offset + k) ≡ some a

get-front :
    (xs ys : List TlFloat) (k : ℕ) (a : TlFloat)
    → get_elem? xs k ≡ some a
    → get_elem? (xs ++ ys) k ≡ some a
get-front [] ys k a e = cc
get-front (x ∷ xs) ys zero a e = e
get-front (x ∷ xs) ys (suc k) a e = get-front xs ys k a e

get-back : (xs ys : List TlFloat) (k : ℕ) → get_elem? (xs ++ ys) (length xs + k) ≡ get_elem? ys k
get-back [] ys k = ap (get_elem? ys) (omega arith)
get-back (x ∷ xs) ys k =
    let e : suc (length xs) + k ≡ suc (length xs + k) = omega arith in rw e (get-back xs ys k)

pub segment :
    (cut_pts : List (List TlFloat)) (fid accum : ℕ) (xs : List TlFloat)
    → get_elem? cut_pts fid ≡ some xs
    → Segment cut_pts fid accum xs
unfolding array_th_begin array_th_len total_num_threshold array_threshold
segment [] fid accum xs e = cc
segment (y ∷ ys) zero accum xs e =
    let same : y ≡ xs = cc in
    record {
      offset = 0;
      begins = ap some (omega arith);
      len = ap (λ (z : List TlFloat). some (length z)) same;
      inside = omega (arith, ap length same);
      values = λ k a g.
          let z : 0 + k ≡ k = omega arith in rw (same, z) (get-front xs (array_threshold ys) k a g);
    }
segment (y ∷ ys) (suc fid) accum xs e =
    let s = segment ys fid (accum + length y) xs e in
    record {
      offset = length y + s.offset;
      begins = s.begins ∙ ap some (omega arith);
      len = s.len;
      inside = omega (arith, s.inside);
      values = λ k a g.
          let e : length y + s.offset + k ≡ length y + (s.offset + k) = omega arith in
          ap (get_elem? (y ++ array_threshold ys)) e
          ∙ get-back y (array_threshold ys) (s.offset + k)
          ∙ s.values k a g;
    }

-- Two pairs of numbers stand in the same order.
pub data SameOrder (x y x' y' : ℕ) : Type 0 where
  below : x < y → x' < y' → SameOrder x y x' y'
  same : x ≡ y → x' ≡ y' → SameOrder x y x' y'
  above : y < x → y' < x' → SameOrder x y x' y'

module _ (x y x' y' : ℕ) where
  same_eq : SameOrder x y x' y' → (x' == y') ≡ (x == y)
  same_eq (below h k) = ground arith
  same_eq (same h k) = ground arith
  same_eq (above h k) = ground arith

  same_lt : SameOrder x y x' y' → ltb x' y' ≡ ltb x y
  same_lt (below h k) = ground arith
  same_lt (same h k) = ground arith
  same_lt (above h k) = ground arith

  same_gt : SameOrder x y x' y' → ltb y' x' ≡ ltb y x
  same_gt (below h k) = ground arith
  same_gt (same h k) = ground arith
  same_gt (above h k) = ground arith

  same_le : SameOrder x y x' y' → leb x' y' ≡ leb x y
  same_le (below h k) = ground arith
  same_le (same h k) = ground arith
  same_le (above h k) = ground arith

  same_ge : SameOrder x y x' y' → leb y' x' ≡ leb y x
  same_ge (below h k) = ground arith
  same_ge (same h k) = ground arith
  same_ge (above h k) = ground arith

-- `q` stands to `n` as the float `v` to `a`, so every comparison has the same result.
pub SameOrder-compare :
    (v a : TlFloat) (q n : ℕ) (op : Operator)
    → is_nan v ≡ false
    → is_nan a ≡ false
    → SameOrder (order_key v) (order_key a) (int_key q) (int_key n)
    → op ≢ no_op
    → compare_int q op n ≡ compare_with_op v op a
unfolding compare_int compare_with_op
SameOrder-compare v a q n no_op h k s ne = absurd (ne refl)
SameOrder-compare v a q n eq h k s ne =
    ap ok
      (same_eq (order_key v) (order_key a) (int_key q) (int_key n) s ∙ sym (float_eq-keys v a h k))
SameOrder-compare v a q n lt h k s ne =
    ap ok
      (same_lt (order_key v) (order_key a) (int_key q) (int_key n) s ∙ sym (float_lt-keys v a h k))
SameOrder-compare v a q n le h k s ne =
    ap ok
      (same_le (order_key v) (order_key a) (int_key q) (int_key n) s ∙ sym (float_le-keys v a h k))
SameOrder-compare v a q n gt h k s ne =
    ap ok
      (same_gt (order_key v) (order_key a) (int_key q) (int_key n) s ∙ sym (float_lt-keys a v k h))
SameOrder-compare v a q n ge h k s ne =
    ap ok
      (same_ge (order_key v) (order_key a) (int_key q) (int_key n) s ∙ sym (float_le-keys a v k h))
