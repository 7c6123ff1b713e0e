-- ===== src/Examples/Rows.antt =====
-- Small batches: two rows of two columns.
use treelite.Prelude.{
  zero, suc, true, ap, some, length, get_elem?, ==_iff, ◌==◌, if◌then◌else◌, ok-injective, ℕ, ◌≡◌,
  refl, arith, List, [], ◌∷◌, ok,
}
use treelite.Base.{TlFloat, minus_one}
use treelite.Predictor.{Entry, Callback, CsrBatch, DenseBatch, csr_batch, dense_batch, pred_loop}
use treelite.Predictor.Predict.{split_batch, reshape}
use treelite.Predictor.Rows.{WritesPresent}
use treelite.Predictor.Rows.Loops.{fresh_pred_loop, csr_pred_loop-fresh, dense_pred_loop-fresh}
use treelite.Predictor.SplitBatch.{Shares, Share, split_batch-Shares, split_batch-Share}
use treelite.Predictor.Reshape.{Reshaped, reshape-Reshaped}

-- A prediction function that returns the whole buffer, and replaces what is there by 2.
abbrev overwrite : List Entry → List Entry
overwrite [] = []
overwrite (x ∷ xs) = (if x == minus_one then x else 2) ∷ overwrite xs

abbrev echo : Callback
echo rid inst out = ok (1, inst, overwrite inst)

overwrite-missing :
    (inst : List Entry) (j : ℕ)
    → get_elem? inst j ≡ some minus_one
    → get_elem? (overwrite inst) j ≡ some minus_one
overwrite-missing [] j e = e
overwrite-missing (x ∷ xs) zero e =
    let here : (x == minus_one) ≡ true = (==_iff _ _).1 cc in rw here e
overwrite-missing (x ∷ xs) (suc j) e = overwrite-missing xs j e

length-overwrite : (inst : List Entry) → length (overwrite inst) ≡ length inst
length-overwrite [] = refl
length-overwrite (x ∷ xs) = ap suc (length-overwrite xs)

echo-WritesPresent : WritesPresent echo
unfolding WritesPresent
echo-WritesPresent rid inst out r e =
    let left : overwrite inst ≡ r.2 = ap (λ q. q.2) (ok-injective e) in
    rw (← left)
      (record { same_length = length-overwrite inst; still_missing = overwrite-missing inst })

abbrev sparse : CsrBatch
sparse = record {
  data_ = 5 ∷ 6 ∷ [];
  col_ind = 0 ∷ 1 ∷ [];
  row_ptr = 0 ∷ 1 ∷ 2 ∷ [];
  num_row = 2;
  num_col = 2;
}

abbrev dense : DenseBatch
dense = record { data_ = 5 ∷ 6 ∷ 7 ∷ 8 ∷ []; missing_value = 6; num_row = 2; num_col = 2 }

csr_pred_loop-fresh_example : pred_loop sparse 2 0 2 [] echo ≡ fresh_pred_loop sparse 2 0 2 [] echo
csr_pred_loop-fresh_example = csr_pred_loop-fresh sparse 2 0 2 [] echo echo-WritesPresent

dense_pred_loop-fresh_example : pred_loop dense 2 0 2 [] echo ≡ fresh_pred_loop dense 2 0 2 [] echo
dense_pred_loop-fresh_example = dense_pred_loop-fresh dense 2 0 2 [] echo echo-WritesPresent

split_batch-Shares_example : (ptr : List ℕ) × (split_batch 7 3 ≡ ok ptr) × Shares 7 3 ptr
split_batch-Shares_example = split_batch-Shares 7 3 (omega arith) (omega arith)

split_batch-Share_example : Share 7 3 1 (0 ∷ 3 ∷ 5 ∷ 7 ∷ [])
unfolding split_batch
split_batch-Share_example =
    split_batch-Share 7 3 1 (0 ∷ 3 ∷ 5 ∷ 7 ∷ []) (omega arith) (omega arith) (omega arith) refl

reshape-Reshaped_example :
    (out : List TlFloat) × (reshape 1 2 2 0 (1 ∷ 2 ∷ 3 ∷ 4 ∷ []) ≡ ok out)
    × Reshaped 1 2 0 2 (1 ∷ 2 ∷ 3 ∷ 4 ∷ []) out
reshape-Reshaped_example = reshape-Reshaped 1 2 2 0 (1 ∷ 2 ∷ 3 ∷ 4 ∷ []) (omega arith) (omega arith)
