-- ===== src/Predictor/Rows/Loops.antt =====
-- `PredLoop` of both kinds of batches, against a loop with a new buffer for each row.
use treelite.Prelude.{
  ℕ, ◌-◌, ◌≡◌, arith, ◌&&◌, List, Result, ◌>>◌, guard, check_failed, max, ltb, leb,
}
use treelite.Base.{TlFloat}
use treelite.Predictor.{Batch, Callback, CsrBatch, DenseBatch, csr_batch, dense_batch, pred_loop}
use treelite.Predictor.Rows.{Restoring, WritesPresent, fresh_loop, row_loop-fresh}
use treelite.Predictor.Rows.Sparse.{csr-Restoring}
use treelite.Predictor.Rows.Dense.{dense-Restoring}

module _ {B : Type 0} ⦃kind : Batch B⦄ where
  -- What the loop is meant to compute: every row by itself, in a buffer of missing entries.
  pub fresh_pred_loop : B → ℕ → ℕ → ℕ → List TlFloat → Callback → Result (ℕ × List TlFloat)
  fresh_pred_loop batch num_feature rbegin rend out_pred func = do
    guard (leb (kind.cols batch) num_feature) (check_failed "batch->num_col <= num_feature")
    guard (ltb rbegin rend && leb rend (kind.rows batch))
        (check_failed "rbegin < rend && rend <= batch->num_row")
    fresh_loop func batch (max (kind.cols batch) num_feature) (rend - rbegin) rbegin out_pred 0

  pred_loop-fresh :
      Restoring kind
      → (batch : B) (num_feature rbegin rend : ℕ) (out : List TlFloat) → (func : Callback)
      → WritesPresent func
      → pred_loop batch num_feature rbegin rend out func
        ≡ fresh_pred_loop batch num_feature rbegin rend out func
  unfolding pred_loop fresh_pred_loop
  pred_loop-fresh law batch num_feature rbegin rend out func writes =
      let m = max (kind.cols batch) num_feature in
      simp (row_loop-fresh law func batch m (rend - rbegin) rbegin 0 out writes (omega arith))

-- On a sparse batch, with a prediction function that may write to the entries that are present in the
-- row buffer, `PredLoop` has the results and the errors of a loop with a new buffer of missing entries
-- for each row: no row sees what another or a call has put into the buffer.
pub csr_pred_loop-fresh :
    (batch : CsrBatch) (num_feature rbegin rend : ℕ) (out : List TlFloat)
    → (func : Callback) → WritesPresent func
    → pred_loop batch num_feature rbegin rend out func
      ≡ fresh_pred_loop batch num_feature rbegin rend out func
csr_pred_loop-fresh = pred_loop-fresh csr-Restoring

-- On a dense batch, with a prediction function that may write to the entries that are present in the
-- row buffer, `PredLoop` has the results and the errors of a loop with a new buffer of missing entries
-- for each row: no row sees what another or a call has put into the buffer.
pub dense_pred_loop-fresh :
    (batch : DenseBatch) (num_feature rbegin rend : ℕ) (out : List TlFloat)
    → (func : Callback) → WritesPresent func
    → pred_loop batch num_feature rbegin rend out func
      ≡ fresh_pred_loop batch num_feature rbegin rend out func
dense_pred_loop-fresh = pred_loop-fresh dense-Restoring
