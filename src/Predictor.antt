-- ===== src/Predictor.antt =====
-- src/predictor/predictor.cc and the batches of include/treelite/predictor.h: how rows are handed
-- to the compiled prediction function. That function stands in a shared library which the program
-- loads; it is an argument here. Sums of `size_t` are far below 2 ^ 64 and do not wrap.
pub mod Predict
pub mod SplitBatch
pub mod Rows
pub mod Reshape
pub mod SpscQueue
use treelite.Prelude.{
  ℕ, zero, suc, ◌+◌, ◌-◌, ◌*◌, ◌/◌, ◌%◌, Bool, true, false, not, ◌&&◌, ◌||◌, List, [], ◌∷◌, Option,
  none, some, Result, ok, err, ◌>>=◌, ◌>>◌, guard, or_fault, fault, check_failed, length, get_elem?,
  set, replicate, max, min, ltb, leb, ◌==◌, if◌then◌else◌,
}
use treelite.Base.{TlFloat, minus_one, is_nan, float_eq}

-- `union TreelitePredictorEntry`
abbrev pub Entry : Type 0
Entry = ℕ

pub record CsrBatch : Type 0 where
  pub data_ : List TlFloat
  pub col_ind : List ℕ
  pub row_ptr : List ℕ
  pub num_row : ℕ
  pub num_col : ℕ

pub record DenseBatch : Type 0 where
  pub data_ : List TlFloat
  pub missing_value : TlFloat
  pub num_row : ℕ
  pub num_col : ℕ

-- `inst[i] = entry`
unfoldable pub write : List Entry → ℕ → Entry → Result (List Entry)
write inst i entry = if ltb i (length inst) then ok (set inst i entry) else err fault

-- `for (size_t i = ibegin; i < iend; ++i) inst[col_ind[i]].fvalue = data[i];` with `n` rounds left.
unfoldable pub fill_row : CsrBatch → ℕ → ℕ → List Entry → Result (List Entry)
fill_row batch zero i inst = ok inst
fill_row batch (suc n) i inst = do
  col ← or_fault (get_elem? batch.col_ind i)
  value ← or_fault (get_elem? batch.data_ i)
  inst' ← write inst col value
  fill_row batch n (suc i) inst'

-- `for (size_t i = ibegin; i < iend; ++i) inst[col_ind[i]].missing = -1;`
unfoldable pub clear_row : CsrBatch → ℕ → ℕ → List Entry → Result (List Entry)
clear_row batch zero i inst = ok inst
clear_row batch (suc n) i inst = do
  col ← or_fault (get_elem? batch.col_ind i)
  inst' ← write inst col minus_one
  clear_row batch n (suc i) inst'

-- The body of the inner loop of the dense `PredLoop`.
unfoldable pub set_dense : DenseBatch → ℕ → TlFloat → List Entry → Result (List Entry)
set_dense batch j value inst =
    let nan_missing = is_nan batch.missing_value in
    if is_nan value
    then (guard nan_missing (
          check_failed
            "The missing_value argument must be set to NaN if there is any NaN in the matrix.")
        >> ok inst)
    else if nan_missing || not (float_eq value batch.missing_value)
    then write inst j value
    else ok inst

-- That loop, with `n` columns left, from column `j` of the row that begins at `row`.
unfoldable pub fill_dense : DenseBatch → ℕ → ℕ → ℕ → List Entry → Result (List Entry)
fill_dense batch row zero j inst = ok inst
fill_dense batch row (suc n) j inst = do
  value ← or_fault (get_elem? batch.data_ (row + j))
  inst' ← set_dense batch j value inst
  fill_dense batch row n (suc j) inst'

-- `for (size_t j = 0; j < num_col; ++j) inst[j].missing = -1;`
unfoldable pub clear_dense : ℕ → ℕ → List Entry → Result (List Entry)
clear_dense zero j inst = ok inst
clear_dense (suc n) j inst = do inst' ← write inst j minus_one; clear_dense n (suc j) inst'

-- The two kinds of batches, with what `PredLoop` does before and after the prediction of row `rid`.
pub record Batch (B : Type 0) : Type 0 where
  pub rows : B → ℕ
  pub cols : B → ℕ
  pub fill : B → ℕ → List Entry → Result (List Entry)
  pub clear : B → ℕ → List Entry → Result (List Entry)

unfoldable pub csr_fill : CsrBatch → ℕ → List Entry → Result (List Entry)
csr_fill batch rid inst = do
  ibegin ← or_fault (get_elem? batch.row_ptr rid)
  iend ← or_fault (get_elem? batch.row_ptr (rid + 1))
  fill_row batch (iend - ibegin) ibegin inst

unfoldable pub csr_clear : CsrBatch → ℕ → List Entry → Result (List Entry)
csr_clear batch rid inst = do
  ibegin ← or_fault (get_elem? batch.row_ptr rid)
  iend ← or_fault (get_elem? batch.row_ptr (rid + 1))
  clear_row batch (iend - ibegin) ibegin inst

instance abbrev pub csr_batch : Batch CsrBatch
csr_batch = record {
  rows = λ b. b.num_row;
  cols = λ b. b.num_col;
  fill = csr_fill;
  clear = csr_clear;
}

instance abbrev pub dense_batch : Batch DenseBatch
dense_batch = record {
  rows = λ b. b.num_row;
  cols = λ b. b.num_col;
  fill = λ b rid. fill_dense b (rid * b.num_col) b.num_col 0;
  clear = λ b rid. clear_dense b.num_col 0;
}

-- `func(rid, &inst[0], out_pred)`, which may write to both arrays: it returns how many values it has
-- put out, the output, and the row buffer as it leaves it.
abbrev pub Callback : Type 0
Callback = ℕ → List Entry → List TlFloat → Result (ℕ × List TlFloat × List Entry)

module _ {B : Type 0} ⦃kind : Batch B⦄ where
  -- The loop over the rows: `n` rows are left, from `rid`.
  unfoldable pub row_loop :
      Callback → B → ℕ → ℕ → List Entry → List TlFloat → ℕ → Result (ℕ × List TlFloat)
  row_loop func batch zero rid inst out total = ok (total, out)
  row_loop func batch (suc n) rid inst out total = do
    filled ← kind.fill batch rid inst
    (size, out', left) ← func rid filled out
    cleared ← kind.clear batch rid left
    row_loop func batch n (suc rid) cleared out' (total + size)

  unfoldable pub pred_loop : B → ℕ → ℕ → ℕ → List TlFloat → Callback → Result (ℕ × List TlFloat)
  pred_loop batch num_feature rbegin rend out_pred func = do
    guard (leb (kind.cols batch) num_feature) (check_failed "batch->num_col <= num_feature")
    let inst = replicate (max (kind.cols batch) num_feature) minus_one
    guard (ltb rbegin rend && leb rend (kind.rows batch))
        (check_failed "rbegin < rend && rend <= batch->num_row")
    row_loop func batch (rend - rbegin) rbegin inst out_pred 0
