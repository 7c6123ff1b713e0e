-- ===== src/Annotator/Completes.antt =====
-- `Annotate` from the first row to the row of counts for each tree.
use treelite.Prelude.{
  ◌+◌, ℕ, zero, suc, ◌*◌, ◌≤◌, ◌<◌, ◌≡◌, refl, ap, ◌∙◌, arith, List, [], ◌∷◌, some, ok, length,
  get_elem?, replicate, length-replicate, min, take, drop, if◌then◌else◌, ◌==◌,
}
use treelite.Base.{size_mod}
use treelite.Tree.{Tree}
use treelite.Annotator.{Matrix, add_counts, reduce, count_row_ptr, layout, total_nodes, annotate}
use treelite.Annotator.Forest.{node_sum}
use treelite.Annotator.Layout.{layout-RowOf}
use treelite.Annotator.RowLoop.{RowFits, total_nodes-node_sum, compute_branch_loop_completes}

length-add_counts : (xs ys : List ℕ) → length (add_counts xs ys) ≡ length xs
unfolding add_counts
length-add_counts [] ys = refl
length-add_counts (x ∷ xs) [] = refl
length-add_counts (x ∷ xs) (y ∷ ys) = ap suc (length-add_counts xs ys)

length-reduce :
    (n size : ℕ) (counts new_counts : List ℕ)
    → length (reduce n size counts new_counts) ≡ length new_counts
unfolding reduce
length-reduce zero size counts new_counts = refl
length-reduce (suc n) size counts new_counts =
    length-reduce n size (drop size counts) (add_counts new_counts (take size counts))
    ∙ length-add_counts new_counts (take size counts)

-- The threads of `Annotate`.
unfoldable pub threads_of : ℕ → ℕ → ℕ
threads_of max_thread threads = if threads == 0 then max_thread else min threads max_thread

-- Behind the rows that were there and are kept, the annotation has a row for each tree and no other,
-- with a count for each node.
pub record Annotated (trees : List Tree) (before rows : List (List ℕ)) : Type 0 where
  pub many : length rows ≡ length before + length trees
  pub kept : (i : ℕ) → i < length before → get_elem? rows i ≡ get_elem? before i
  pub row_of :
      (k : ℕ) (t : Tree)
      → get_elem? trees k ≡ some t
      → (row : List ℕ) × (get_elem? rows (length before + k) ≡ some row)
        × (length row ≡ t.num_nodes)

layout-Annotated :
    (trees : List Tree) (counts : List ℕ) (before : List (List ℕ))
    → node_sum trees < size_mod
    → node_sum trees ≤ length counts
    → (rows : List (List ℕ)) × (layout (length trees) 0 (count_row_ptr 0 trees) counts before
        ≡ ok rows)
      × Annotated trees before rows
layout-Annotated trees counts before small room =
    let (rows, e, l) = layout-RowOf trees counts before small room in
    (
      rows,
      e,
      record {
        many = l.many;
        kept = l.kept;
        row_of = λ k t there. let (row, at, r) = l.row_of k t there in (row, at, r.width);
      },
    )

-- When the trees have fewer than 2 ^ 64 nodes in all, every row is given to one of the threads,
-- has its places in the arrays and fits all trees, valid ones, `Annotate` ends without a fault,
-- whatever thread gets which row, and its result has a row for each tree with a count for each of
-- its nodes, behind the rows that the annotator had.
pub annotate-Annotated :
    (trees : List Tree) (m : Matrix) (assigned : ℕ → ℕ) (max_thread threads : ℕ)
    (before : List (List ℕ))
    → node_sum trees < size_mod
    → ((r : ℕ) → assigned r < threads_of max_thread threads)
    → ((r : ℕ)
        → r < m.num_row
        → RowFits trees m (threads_of max_thread threads * m.num_col) (m.num_col * assigned r) r)
    → (rows : List (List ℕ)) × (annotate trees m assigned max_thread threads before ≡ ok rows)
      × Annotated trees before rows
unfolding annotate threads_of
annotate-Annotated trees m assigned max_thread threads before small inside fits =
    let nthread = threads_of max_thread threads in
    let size = total_nodes 0 trees in
    let total : size ≡ node_sum trees = total_nodes-node_sum trees 0 (omega arith) ∙ omega arith in
    let none_yet : List ℕ = replicate size 0 in
    let zeros : List ℕ = replicate (size * nthread) 0 in
    let many : length zeros ≡ node_sum trees * nthread =
      length-replicate (size * nthread) 0 ∙ ap (λ s. s * nthread) total in
    let room : node_sum trees * nthread ≤ length zeros = omega (arith, many) in
    let (after, r, _) =
      compute_branch_loop_completes trees m assigned nthread (nthread * m.num_col) small m.num_row 0
        zeros (λ q _ b. fits q (omega arith)) inside room in
    let sums = reduce nthread size after none_yet in
    let wide = length-reduce nthread size after none_yet ∙ length-replicate {A = ℕ} size 0 in
    let (rows, e, l) = layout-Annotated trees sums before small (omega (arith, wide, total)) in
    (rows, rw r e, l)
