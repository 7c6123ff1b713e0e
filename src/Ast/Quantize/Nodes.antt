-- ===== src/Ast/Quantize/Nodes.antt =====
-- Quantizing a condition node, and what its condition decides before and after.
use treelite.Prelude.{
  ℕ, ◌*◌, ◌<◌, Bool, true, false, List, [], ◌∷◌, some, ◌≡◌, ◌≢◌, refl, sym, ap, ◌∙◌, arith, inl,
  inr, Bool-cases, Option-cases, ok, err, check_failed, ok-injective, length, get_elem?, ltb, leb,
  ◌==◌,
}
use treelite.Base.{
  TlFloat, minus_one, is_nan, is_finite, order_key, float_lt, compare_with_op, Operator, no_op, eq,
  lt, le, gt, ge,
}
use treelite.Ast.{Kind, Numerical, numerical_condition_node, float_val, int_val}
use treelite.Ast.Quantize.{
  rewrite_node, unquantized, math_binary_search, lower_bound_float, is_inf, quantized_entry,
  numerical_condition,
}
use treelite.Ast.Quantize.Bins.{Above, Above-get, float_lt-keys, float_eq-keys, float_le-keys}
use treelite.Ast.Quantize.Search.{quantized_comparison}

finite-numbers : (x : TlFloat) → is_finite x ≡ true → (is_nan x ≡ false) × (is_inf x ≡ false)
unfolding is_finite is_nan is_inf
finite-numbers x h = (ground arith, ground arith)

-- Equal places in the order of floats compare alike.
compare_with_op-keys :
    (v a b : TlFloat) (op : Operator)
    → is_nan v ≡ false
    → is_nan a ≡ false
    → is_nan b ≡ false
    → order_key a ≡ order_key b
    → compare_with_op v op a ≡ compare_with_op v op b
unfolding compare_with_op
compare_with_op-keys v a b no_op h k l e = refl
compare_with_op-keys v a b eq h k l e =
    ap ok (float_eq-keys v a h k ∙ ap (λ (z : ℕ). order_key v == z) e ∙ sym (float_eq-keys v b h l))
compare_with_op-keys v a b lt h k l e =
    ap ok
      (float_lt-keys v a h k ∙ ap (λ (z : ℕ). ltb (order_key v) z) e ∙ sym (float_lt-keys v b h l))
compare_with_op-keys v a b le h k l e =
    ap ok
      (float_le-keys v a h k ∙ ap (λ (z : ℕ). leb (order_key v) z) e ∙ sym (float_le-keys v b h l))
compare_with_op-keys v a b gt h k l e =
    ap ok
      (float_lt-keys a v k h ∙ ap (λ (z : ℕ). ltb z (order_key v)) e ∙ sym (float_lt-keys b v l h))
compare_with_op-keys v a b ge h k l e =
    ap ok
      (float_le-keys a v k h ∙ ap (λ (z : ℕ). leb z (order_key v)) e ∙ sym (float_le-keys b v l h))

lower_bound_float-ge :
    (xs : List TlFloat) (val y : TlFloat)
    → get_elem? xs (lower_bound_float xs val) ≡ some y
    → float_lt y val ≡ false
unfolding lower_bound_float
lower_bound_float-ge [] val y e = cc
lower_bound_float-ge (x ∷ xs) val y e = elim (Bool-cases (float_lt x val)) [
  | inl p ↦ lower_bound_float-ge xs val y (rw p at e)
  | inr p ↦ let e' : some x ≡ some y = rw p at e in let same : x ≡ y = cc in rw (← same) p
]

-- What the search finds is the threshold, up to the sign of a zero.
binary_search-found :
    (xs : List TlFloat) (val : TlFloat)
    → Above 0 xs
    → is_nan val ≡ false
    → (math_binary_search xs val == length xs) ≡ false
    → (y : TlFloat) × (get_elem? xs (math_binary_search xs val) ≡ some y)
      × (order_key y ≡ order_key val)
unfolding math_binary_search
binary_search-found xs val s n ne = elim (Option-cases (get_elem? xs (lower_bound_float xs val))) [
  | inl p ↦
      let bad : (length xs == length xs) ≡ false = rw (math_binary_search, p) at ne in
      absurd (ground arith)
  | inr (y, p) ↦ elim (Bool-cases (float_lt val y)) [
    | inl q ↦
        let bad : (length xs == length xs) ≡ false = rw (math_binary_search, p, q) at ne in
        absurd (ground arith)
    | inr q ↦
        let ny = (Above-get 0 xs (lower_bound_float xs val) y s p).0 in
        let a : ltb (order_key val) (order_key y) ≡ false = sym (float_lt-keys val y n ny) ∙ q in
        let b : ltb (order_key y) (order_key val) ≡ false =
          sym (float_lt-keys y val ny n) ∙ lower_bound_float-ge xs val y p in
        (y, rw (math_binary_search, p, q) p, ground arith)
  ]
]

-- Where `rewrite_thresholds` succeeds on a node with a finite threshold and an operator, and the
-- thresholds of its feature, one whose flag in `is_categorical` is not set, are sorted and fewer than 2 ^ 30,
-- the node gets a bin number, and for every feature value that is a number the condition in the C
-- code decides as before.
pub rewrite_node-numerical_condition :
    (is_categorical : List Bool) (cut_pts : List (List TlFloat)) (xs : List TlFloat) (c : Numerical)
    (th v : TlFloat) (kind : Kind)
    → c.quantized ≡ false
    → c.threshold ≡ float_val th
    → is_finite th ≡ true
    → is_nan v ≡ false
    → c.op ≢ no_op
    → get_elem? cut_pts c.condition.split_index ≡ some xs
    → get_elem? is_categorical c.condition.split_index ≡ some false
    → Above 0 xs
    → length xs * 2 < 0x8000_0000
    → rewrite_node cut_pts (numerical_condition_node c) ≡ ok kind
    → (c' : Numerical) × (kind ≡ numerical_condition_node c')
      × (c'.quantized ≡ true)
      × (numerical_condition is_categorical cut_pts c' v
          ≡ numerical_condition is_categorical cut_pts c v)
unfolding rewrite_node unquantized numerical_condition quantized_entry is_nan
rewrite_node-numerical_condition is_categorical cut_pts xs c th v kind q t fin num ne e cat s fits
      h =
    let (n, ni) = finite-numbers th fin in
    let loc = math_binary_search xs th in
    let c' : Numerical = record c { threshold = int_val (loc * 2); quantized = true } in
    elim (Bool-cases (loc == length xs)) [
      | inl p ↦
          let bad : err (check_failed "loc != v.end()") ≡ ok kind = rw (q, t, fin, e, p) at h in cc
      | inr p ↦
          let (y, found, key) = binary_search-found xs th s n p in
          let ny = (Above-get 0 xs loc y s found).0 in
          let cmp =
            quantized_comparison cut_pts c.condition.split_index v y xs loc c.op e s fits num found
              ne in
          let back = compare_with_op-keys v y th c.op num ny n key in
          let there : (v == minus_one) ≡ false = ground arith in
          let plain : numerical_condition is_categorical cut_pts c v ≡ compare_with_op v c.op th =
            rw (q, t, ni) refl in
          (
            c',
            sym (ok-injective (rw (q, t, fin, e, p) at h)),
            refl,
            rw (cat, there) (cmp ∙ back) ∙ sym plain,
          )
    ]
