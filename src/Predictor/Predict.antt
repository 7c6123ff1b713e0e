-- ===== src/Predictor/Predict.antt =====
-- src/predictor/predictor.cc: `SplitBatch`, `PredictBatch_`, `PredictInst_` and the body of
-- `PredictBatchBase_`. The shares of the threads are computed one after the other: they write
-- disjoint parts of the output.
use treelite.Prelude.{
  ℕ, zero, suc, ◌+◌, ◌-◌, ◌*◌, ◌/◌, ◌%◌, Bool, List, [], ◌∷◌, Result, ok, err, ◌>>=◌, ◌>>◌, guard,
  or_fault, fault, check_failed, get_elem?, replicate, ltb, leb, ◌==◌, if◌then◌else◌,
}
use treelite.Base.{TlFloat, size_mod}
use treelite.Predictor.{Entry, Batch, Callback, pred_loop, write}

-- `++workload[i]` for the first `n` workers
unfoldable pub increment_first : ℕ → List ℕ → List ℕ
increment_first zero ws = ws
increment_first (suc n) [] = []
increment_first (suc n) (w ∷ ws) = (w + 1) ∷ increment_first n ws

-- `accum += workload[i]; row_ptr[i + 1] = accum;`
unfoldable pub running_sums : ℕ → List ℕ → List ℕ
running_sums accum [] = []
running_sums accum (w ∷ ws) = (accum + w) ∷ running_sums (accum + w) ws

-- A division by zero is undefined.
unfoldable pub split_batch : ℕ → ℕ → Result (List ℕ)
unfolding increment_first running_sums
split_batch num_row split_factor = do
  guard (leb split_factor num_row) (check_failed "split_factor <= num_row")
  guard (ltb 0 split_factor) fault
  let portion = num_row / split_factor
  let remainder = num_row % split_factor
  ok (0 ∷ running_sums 0 (increment_first remainder (replicate split_factor portion)))

-- The functions of the loaded library. `predict_multiclass` fills `result` and returns how many of
-- its values count. Both may write to the entries, which they return last.
pub record Library : Type 0 where
  pub predict : List Entry → Bool → TlFloat × List Entry
  pub predict_multiclass : List Entry → Bool → List TlFloat × ℕ × List Entry
  pub num_output_group : ℕ
  pub num_feature : ℕ

-- `out[base] = x0; out[base + 1] = x1; ...`
unfoldable pub write_from : List TlFloat → ℕ → List TlFloat → Result (List TlFloat)
write_from out base [] = ok out
write_from out base (x ∷ xs) = do out' ← write out base x; write_from out' (suc base) xs

-- The lambda that `PredictBatch_` hands to `PredLoop`.
unfoldable pub call : Library → Bool → Callback
call lib pred_margin rid inst out =
    if ltb 1 lib.num_output_group
    then (let (values, size, left) = lib.predict_multiclass inst pred_margin in
        write_from out (rid * lib.num_output_group) values >>= λ out'. ok (size, out', left))
    else (let (value, left) = lib.predict inst pred_margin in
        write out rid value >>= λ out'. ok (1, out', left))

module _ {B : Type 0} ⦃kind : Batch B⦄ where
  unfoldable pub predict_batch_ :
      Library → B → Bool → ℕ → ℕ → List TlFloat → Result (ℕ × List TlFloat)
  predict_batch_ lib batch pred_margin rbegin rend out_pred =
      pred_loop batch lib.num_feature rbegin rend out_pred (call lib pred_margin)

  -- The shares between neighbouring row pointers, the first pointer given.
  unfoldable pub predict_shares :
      Library → B → Bool → ℕ → List ℕ → List TlFloat → ℕ → Result (ℕ × List TlFloat)
  predict_shares lib batch pred_margin rbegin [] out total = ok (total, out)
  predict_shares lib batch pred_margin rbegin (rend ∷ ends) out total = do
    (size, out') ← predict_batch_ lib batch pred_margin rbegin rend out
    predict_shares lib batch pred_margin rend ends out' (total + size)

-- The entries are the caller's.
unfoldable pub predict_inst_ :
    Library → List Entry → Bool → List TlFloat → Result (ℕ × List TlFloat × List Entry)
predict_inst_ lib inst pred_margin out =
    if ltb 1 lib.num_output_group
    then (let (values, size, left) = lib.predict_multiclass inst pred_margin in
        write_from out 0 values >>= λ out'. ok (size, out', left))
    else (let (value, left) = lib.predict inst pred_margin in
        write out 0 value >>= λ out'. ok (1, out', left))

-- The re-shape loops: `out[rid * q + k] = out[rid * g + k]`, with `n` values of the row left.
unfoldable pub move_row : ℕ → ℕ → ℕ → List TlFloat → Result (List TlFloat)
move_row zero to from out = ok out
move_row (suc n) to from out = do
  x ← or_fault (get_elem? out from)
  out' ← write out to x
  move_row n (suc to) (suc from) out'

unfoldable pub reshape : ℕ → ℕ → ℕ → ℕ → List TlFloat → Result (List TlFloat)
reshape q g zero rid out = ok out
reshape q g (suc n) rid out = do
  out' ← move_row q (rid * q) (rid * g) out
  reshape q g n (suc rid) out'

-- "re-shape output if total_size < dimension of out_result"
unfoldable pub shrink : ℕ → ℕ → ℕ → List TlFloat → Result (ℕ × List TlFloat)
shrink total_size num_row g out = do
  guard (ltb 1 g) (check_failed "num_output_group_ > 1")
  guard (total_size % num_row == 0) (check_failed "total_size % batch->num_row == 0")
  let q = total_size / num_row
  guard (ltb 0 q) (check_failed "query_size_per_instance > 0")
  guard (ltb q g) (check_failed "query_size_per_instance < num_output_group_")
  out' ← reshape q g num_row 0 out
  ok (total_size, out')

-- `std::min` of two `int`s
unfoldable pub int_min : ℕ → ℕ → ℕ
int_min a b =
    if ltb ((b + 0x8000_0000) % 0x1_0000_0000) ((a + 0x8000_0000) % 0x1_0000_0000) then b else a

-- An `int` as a `size_t`, which a negative number wraps around to.
unfoldable pub size_of_int : ℕ → ℕ
size_of_int x = if ltb x 0x8000_0000 then x else x + (size_mod - 0x1_0000_0000)

module _ {B : Type 0} ⦃kind : Batch B⦄ where
  unfoldable pub predict_batch_base_ :
      Library → ℕ → B → Bool → List TlFloat → Result (ℕ × List TlFloat)
  unfolding int_min size_of_int
  predict_batch_base_ lib num_worker_thread batch pred_margin out_result = do
    let num_row = kind.rows batch
    let g = lib.num_output_group
    guard (ltb 0 num_row) (check_failed "batch->num_row > 0")
    let nthread = int_min num_worker_thread (num_row % 0x1_0000_0000)
    row_ptr ← split_batch num_row (size_of_int nthread)
    (total_size, out) ← elim row_ptr [
      | [] ↦ err fault
      | rbegin ∷ ends ↦ predict_shares lib batch pred_margin rbegin ends out_result 0
    ]
    if ltb total_size (num_row * g) then shrink total_size num_row g out else ok (total_size, out)
