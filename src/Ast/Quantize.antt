-- ===== src/Ast/Quantize.antt =====
-- src/compiler/ast/quantize.cc, `HandleQNode` of src/compiler/ast_native.cc and the code in
-- src/compiler/native/qnode_template.h: thresholds become positions among the sorted thresholds of
-- their feature, and the compiled code maps a feature value to its place among them.
pub mod Bins
pub mod Placed
pub mod Search
pub mod Nodes
pub mod Scan
use treelite.Prelude.{
  ℕ, zero, suc, ◌+◌, ◌-◌, ◌*◌, ◌/◌, ◌%◌, Bool, true, false, not, ◌&&◌, ◌||◌, List, [], ◌∷◌, ◌++◌,
  Option, none, some, Result, ok, err, ◌>>=◌, ◌>>◌, guard, or_fault, fault, out_of_fuel,
  check_failed, length, get_elem?, set, replicate, drop, ltb, leb, ◌==◌, if◌then◌else◌,
}
use treelite.Base.{
  TlFloat, minus_one, is_finite, float_lt, float_eq, compare_with_op, Operator, no_op, eq, lt, le,
  gt, ge,
}
use treelite.Ast.{
  AstNode, ast_node, Children, leaf, child, Kind, Info, Numerical, numerical_condition_node,
  float_val, int_val, quantizer_node, accumulator_context_node, new_node, top_ac_node,
}

-- `std::set<tl_float>::insert`, the set as its elements in ascending order.
unfoldable pub insert : TlFloat → List TlFloat → List TlFloat
insert x [] = x ∷ []
insert x (y ∷ ys) =
    let rest = insert x ys in
    if float_lt x y then x ∷ y ∷ ys else if float_lt y x then y ∷ rest else y ∷ ys

-- The threshold of a node that is not quantized; the union is read as a float.
unfoldable pub unquantized : Numerical → Result TlFloat
unquantized c = elim c.threshold [
  | float_val x ↦ guard (not c.quantized) (check_failed "should not be already quantized") >> ok x
  | int_val x ↦ guard (not c.quantized) (check_failed "should not be already quantized") >> ok x
]

unfoldable pub scan_node : Kind → List (List TlFloat) → Result (List (List TlFloat))
scan_node (numerical_condition_node c) cut_pts = do
  threshold ← unquantized c
  if is_finite threshold
      then (or_fault (get_elem? cut_pts c.condition.split_index) >>= λ cuts.
          ok (set cut_pts c.condition.split_index (insert threshold cuts)))
      else ok cut_pts
scan_node kind cut_pts = ok cut_pts

unfoldable mutual
  pub scan_thresholds : AstNode → List (List TlFloat) → Result (List (List TlFloat))
  scan_thresholds (ast_node kind info children) cut_pts = do
    cut_pts' ← scan_node kind cut_pts
    scan_thresholds_children children cut_pts'

  pub scan_thresholds_children : Children → List (List TlFloat) → Result (List (List TlFloat))
  scan_thresholds_children leaf cut_pts = ok cut_pts
  scan_thresholds_children (child n ns) cut_pts = do
    cut_pts' ← scan_thresholds n cut_pts
    scan_thresholds_children ns cut_pts'

-- `std::lower_bound` and `math::binary_search`, as a position.
unfoldable pub lower_bound_float : List TlFloat → TlFloat → ℕ
lower_bound_float [] val = 0
lower_bound_float (x ∷ xs) val =
    let rest = suc (lower_bound_float xs val) in if float_lt x val then rest else 0

unfoldable pub math_binary_search : List TlFloat → TlFloat → ℕ
unfolding lower_bound_float
math_binary_search xs val = elim (get_elem? xs (lower_bound_float xs val)) [
  | none ↦ length xs
  | some y ↦ if not (float_lt val y) then lower_bound_float xs val else length xs
]

unfoldable pub rewrite_node : List (List TlFloat) → Kind → Result Kind
rewrite_node cut_pts (numerical_condition_node c) = do
  threshold ← unquantized c
  if is_finite threshold
      then (or_fault (get_elem? cut_pts c.condition.split_index) >>= λ v.
          let loc = math_binary_search v threshold in
          guard (not (loc == length v)) (check_failed "loc != v.end()")
          >> ok (
              numerical_condition_node
                (record c { threshold = int_val (loc * 2); quantized = true })))
      else ok (numerical_condition_node c)
rewrite_node cut_pts kind = ok kind

unfoldable mutual
  pub rewrite_thresholds : List (List TlFloat) → AstNode → Result AstNode
  rewrite_thresholds cut_pts (ast_node kind info children) = do
    kind' ← rewrite_node cut_pts kind
    children' ← rewrite_thresholds_children cut_pts children
    ok (ast_node kind' info children')

  pub rewrite_thresholds_children : List (List TlFloat) → Children → Result Children
  rewrite_thresholds_children cut_pts leaf = ok leaf
  rewrite_thresholds_children cut_pts (child n ns) = do
    n' ← rewrite_thresholds cut_pts n
    ns' ← rewrite_thresholds_children cut_pts ns
    ok (child n' ns')

-- The end of `QuantizeThresholds`: a quantizer node between the main node and its only child.
unfoldable pub put_quantizer : List (List TlFloat) → AstNode → Result AstNode
put_quantizer cut_pts (ast_node kind info children) = do
  (i, trees) ← top_ac_node children
  let ac = ast_node accumulator_context_node i trees
  ok (ast_node kind info (child (new_node (quantizer_node cut_pts) (ac ∷ [])) leaf))

unfoldable pub quantize_thresholds : ℕ → AstNode → Result AstNode
quantize_thresholds num_feature main = do
  cut_pts ← scan_thresholds main (replicate num_feature [])
  main' ← rewrite_thresholds cut_pts main
  put_quantizer cut_pts main'

-- The arrays that `HandleQNode` writes into the C code.
unfoldable pub array_threshold : List (List TlFloat) → List TlFloat
array_threshold [] = []
array_threshold (e ∷ es) = e ++ array_threshold es

unfoldable pub array_th_begin : ℕ → List (List TlFloat) → List ℕ
array_th_begin accum [] = []
array_th_begin accum (e ∷ es) = accum ∷ array_th_begin (accum + length e) es

unfoldable pub array_th_len : List (List TlFloat) → List ℕ
array_th_len [] = []
array_th_len (e ∷ es) = length e ∷ array_th_len es

unfoldable pub total_num_threshold : List (List TlFloat) → ℕ
total_num_threshold [] = 0
total_num_threshold (e ∷ es) = length e + total_num_threshold es

-- `const float* array` is an array and an offset in it.
-- The loop `while (low + 1 < high)`, and what follows it; `high - low` is enough fuel.
unfoldable pub quantize_loop : ℕ → List TlFloat → ℕ → ℕ → TlFloat → ℕ → ℕ → Result ℕ
quantize_loop zero threshold offset len val low high = err out_of_fuel
quantize_loop (suc fuel) threshold offset len val low high =
    let mid = (low + high) / 2 in
    let go_left = quantize_loop fuel threshold offset len val low mid in
    let go_right = quantize_loop fuel threshold offset len val mid high in
    if ltb (low + 1) high
    then (or_fault (get_elem? threshold (offset + mid)) >>= λ mval.
        if float_eq val mval then ok (mid * 2) else if float_lt val mval then go_left else go_right)
    else (or_fault (get_elem? threshold (offset + low)) >>= λ found.
        if float_eq found val
        then ok (low * 2)
        else if high == len
        then ok (len * 2)
        else ok (low * 2 + 1))

-- `-10` as an `int`
abbrev pub minus_ten : ℕ
minus_ten = 0xffff_fff6

unfoldable pub quantize : List (List TlFloat) → TlFloat → ℕ → Result ℕ
unfolding quantize_loop array_threshold array_th_begin array_th_len total_num_threshold
quantize cut_pts val fid = do
  let threshold = array_threshold cut_pts
  offset ← or_fault (get_elem? (array_th_begin 0 cut_pts) fid)
  len ← or_fault (get_elem? (array_th_len cut_pts) fid)
  if offset == total_num_threshold cut_pts
      then ok minus_ten
      else (or_fault (get_elem? threshold offset) >>= λ first.
          if float_lt val first
          then ok minus_ten
          else quantize_loop (suc len) threshold offset len val 0 len)

-- The place of an `int` in the order of the integers.
abbrev pub int_key : ℕ → ℕ
int_key x = if ltb x 0x8000_0000 then x + 0x8000_0000 else x - 0x8000_0000

-- `data[i].qvalue OP threshold`, the comparison that `ExtractNumericalCondition` writes for a
-- quantized threshold.
unfoldable pub compare_int : ℕ → Operator → ℕ → Result Bool
compare_int q eq n = ok (int_key q == int_key n)
compare_int q lt n = ok (ltb (int_key q) (int_key n))
compare_int q le n = ok (leb (int_key q) (int_key n))
compare_int q gt n = ok (ltb (int_key n) (int_key q))
compare_int q ge n = ok (leb (int_key n) (int_key q))
compare_int q no_op n = err fault

-- `std::isinf`
unfoldable pub is_inf : TlFloat → Bool
is_inf x = x % 0x8000_0000 == 0x7f80_0000

-- What a round of `quantize_loop_template` leaves in an entry of `data`, whose value was `v`, for the
-- table `is_categorical`: the bin of `v`, unless the entry is missing or the feature is categorical.
unfoldable pub quantized_entry : List Bool → List (List TlFloat) → TlFloat → ℕ → Result ℕ
unfolding quantize
quantized_entry is_categorical cut_pts v i = do
  flag ← or_fault (get_elem? is_categorical i)
  if not (v == minus_one) && not flag then quantize cut_pts v i else ok v

-- What the expression of `ExtractNumericalCondition` computes for the feature value `v`, after the
-- loop of `quantize_loop_template` where thresholds are quantized.
unfoldable pub numerical_condition :
    List Bool → List (List TlFloat) → Numerical → TlFloat → Result Bool
unfolding quantized_entry compare_int is_inf
numerical_condition is_categorical cut_pts c v = elim c.threshold [
  | int_val n ↦
      if c.quantized
      then (quantized_entry is_categorical cut_pts v c.condition.split_index >>= λ q.
          compare_int q c.op n)
      else err fault
  | float_val th ↦
      if c.quantized
      then err fault
      else if is_inf th
      then compare_with_op 0 c.op th
      else compare_with_op v c.op th
]
