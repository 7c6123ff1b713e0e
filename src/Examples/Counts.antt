-- ===== src/Examples/Counts.antt =====
-- Counts of two threads, and a row that two trees count.
use treelite.Prelude.{
  zero, suc, ◌<◌, refl, ℕ, ◌≡◌, arith, List, [], ◌∷◌, ok, some, get_elem?, replicate, ◌%◌,
}
use treelite.Base.{size_mod}
use treelite.Annotator.{
  traverse_all, count_row_ptr, reduce, layout, Matrix, fill_inst, store, annotate,
}
use treelite.Annotator.RowLoop.{RowFits}
use treelite.Annotator.Completes.{threads_of, Annotated, annotate-Annotated}
use treelite.Annotator.Layout.{LaidOut, layout-RowOf}
use treelite.Annotator.Reduction.{stride_sum, reduce-stride_sum}
use treelite.Annotator.Forest.{AllFit, Visited, node_sum, traverse_all-Visited}
use treelite.Examples.Trees.{stump, stump-IsValid, stump-Fits}

reduce-stride_sum_example :
    get_elem? (reduce 2 3 (1 ∷ 2 ∷ 3 ∷ 4 ∷ 5 ∷ 6 ∷ []) (replicate 3 0)) 1
    ≡ some (stride_sum 2 3 (1 ∷ 2 ∷ 3 ∷ 4 ∷ 5 ∷ 6 ∷ []) 1 % size_mod)
reduce-stride_sum_example =
    reduce-stride_sum 2 3 1 (1 ∷ 2 ∷ 3 ∷ 4 ∷ 5 ∷ 6 ∷ []) (omega arith) (omega arith)

stumps-AllFit : AllFit (stump ∷ stump ∷ []) (0x3f00_0000 ∷ []) 0
unfolding AllFit
stumps-AllFit = (stump-IsValid, stump-Fits, (stump-IsValid, stump-Fits, tt))

traverse_all-Visited_example :
    (after : List ℕ) × (traverse_all
        (stump ∷ stump ∷ [])
        (count_row_ptr 0 (stump ∷ stump ∷ []))
        (0x3f00_0000 ∷ [])
        0
        0
        (5 ∷ 5 ∷ 5 ∷ 5 ∷ 5 ∷ 5 ∷ [])
      ≡ ok after)
    × Visited (stump ∷ stump ∷ []) 0 (5 ∷ 5 ∷ 5 ∷ 5 ∷ 5 ∷ 5 ∷ []) after
unfolding node_sum
traverse_all-Visited_example =
    traverse_all-Visited (0x3f00_0000 ∷ []) 0 0 (stump ∷ stump ∷ []) (5 ∷ 5 ∷ 5 ∷ 5 ∷ 5 ∷ 5 ∷ [])
      stumps-AllFit (omega arith) (omega arith)

layout-RowOf_example :
    (rows : List (List ℕ)) × (layout 2 0
        (count_row_ptr 0 (stump ∷ stump ∷ []))
        (1 ∷ 2 ∷ 3 ∷ 4 ∷ 5 ∷ 6 ∷ [])
        ((9 ∷ []) ∷ [])
      ≡ ok rows)
    × LaidOut (stump ∷ stump ∷ []) (1 ∷ 2 ∷ 3 ∷ 4 ∷ 5 ∷ 6 ∷ []) ((9 ∷ []) ∷ []) rows
unfolding node_sum
layout-RowOf_example =
    layout-RowOf (stump ∷ stump ∷ []) (1 ∷ 2 ∷ 3 ∷ 4 ∷ 5 ∷ 6 ∷ []) ((9 ∷ []) ∷ []) (omega arith)
      (omega arith)

-- One row, whose feature 0 is 0.5.
abbrev half : Matrix
half = record {
  data_ = 0x3f00_0000 ∷ [];
  col_ind = 0 ∷ [];
  row_ptr = 0 ∷ 1 ∷ [];
  num_row = 1;
  num_col = 1;
}

half-RowFits : (r : ℕ) → r < 1 → RowFits (stump ∷ []) half 1 0 r
unfolding fill_inst store AllFit
half-RowFits zero h = record {
  first = 0;
  last = 1;
  begins = refl;
  ends = refl;
  filled = 0x3f00_0000 ∷ [];
  fills = refl;
  fit = (stump-IsValid, stump-Fits, tt);
}
half-RowFits (suc r) h = absurd (omega arith)

annotate-Annotated_example :
    (rows : List (List ℕ)) × (annotate (stump ∷ []) half (λ _. 0) 8 1 [] ≡ ok rows)
    × Annotated (stump ∷ []) [] rows
unfolding node_sum threads_of
annotate-Annotated_example =
    annotate-Annotated (stump ∷ []) half (λ _. 0) 8 1 [] (omega arith) (λ _. omega arith)
      half-RowFits
