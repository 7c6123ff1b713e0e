-- ===== src/Annotator/RowLoop.antt =====
-- The loop over the rows, `ComputeBranchLoop`.
use treelite.Prelude.{
  ℕ, zero, suc, ◌+◌, ◌-◌, ◌*◌, ◌%◌, ◌≤◌, ◌<◌, ◌≡◌, refl, sym, ◌∙◌, arith, List, [], ◌∷◌, Option,
  none, some, ok, err, Result, ◌>>=◌, or_fault, length, get_elem?, map, replicate,
}
use treelite.Base.{minus_one, size_mod}
use treelite.Tree.{Tree}
use treelite.Annotator.{
  Entry, Matrix, store, fill_inst, reset_inst, traverse_all, count_row_ptr, total_nodes,
  compute_branch_loop,
}
use treelite.Annotator.Forest.{AllFit, node_sum, traverse_all-Visited}
use treelite.Predictor.{CsrBatch, fill_row, clear_row, write}
use treelite.Predictor.Rows.{Kept-self}
use treelite.Predictor.Rows.Sparse.{clear_row-fill_row}

get_elem?-map :
    {A B : Type 0}
    → (f : A → B) (xs : List A) (i : ℕ)
    → or_fault (get_elem? (map f xs) i) ≡ (or_fault (get_elem? xs i) >>= λ x. ok (f x))
get_elem?-map f [] i = refl
get_elem?-map f (x ∷ xs) zero = refl
get_elem?-map f (x ∷ xs) (suc i) = get_elem?-map f xs i

bind-map :
    {A B C : Type 0}
    → (o : Option A) (f : A → B) (k : A → Result C) (k' : B → Result C) → ((a : A) → k a ≡ k' (f a))
    → (or_fault o >>= k) ≡ ((or_fault o >>= λ x. ok (f x)) >>= k')
bind-map none f k k' h = refl
bind-map (some a) f k k' h = h a

bind-eq :
    {A C : Type 0}
    → (r : Result A) (k k' : A → Result C) → ((a : A) → k a ≡ k' a)
    → (r >>= k) ≡ (r >>= k')
bind-eq (ok a) k k' h = h a
bind-eq (err e) k k' h = refl

-- The rows as the predictor sees them, in the part of the buffer from `off` on.
as_batch : Matrix → ℕ → CsrBatch
as_batch m off = record {
  data_ = m.data_;
  col_ind = map (λ col. off + col) m.col_ind;
  row_ptr = m.row_ptr;
  num_row = m.num_row;
  num_col = m.num_col;
}

fill_inst-fill_row :
    (m : Matrix) (off n i : ℕ) (inst : List Entry)
    → fill_inst m off n i inst ≡ fill_row (as_batch m off) n i inst
unfolding fill_inst fill_row store write as_batch
fill_inst-fill_row m off zero i inst = refl
fill_inst-fill_row m off (suc n) i inst = rw (get_elem?-map (λ col. off + col) m.col_ind i) (
    bind-map (get_elem? m.col_ind i) (λ col. off + col) _ _
      (λ col. bind-eq (or_fault (get_elem? m.data_ i)) _ _ (λ value.
        bind-eq (write inst (off + col) value) _ _
          (λ next. fill_inst-fill_row m off n (suc i) next))))

reset_inst-clear_row :
    (m : Matrix) (off n i : ℕ) (inst : List Entry)
    → reset_inst m off n i inst ≡ clear_row (as_batch m off) n i inst
unfolding reset_inst clear_row store write as_batch
reset_inst-clear_row m off zero i inst = refl
reset_inst-clear_row m off (suc n) i inst = rw (get_elem?-map (λ col. off + col) m.col_ind i) (
    bind-map (get_elem? m.col_ind i) (λ col. off + col) _ _
      (λ col.
        bind-eq (write inst (off + col) minus_one) _ _
          (λ next. reset_inst-clear_row m off n (suc i) next)))

-- The row has its places in the arrays and its columns in the buffer, and fits all trees.
pub record RowFits (trees : List Tree) (m : Matrix) (width off rid : ℕ) : Type 0 where
  pub first : ℕ
  pub last : ℕ
  pub begins : get_elem? m.row_ptr rid ≡ some first
  pub ends : get_elem? m.row_ptr (rid + 1) ≡ some last
  pub filled : List Entry
  pub fills : fill_inst m off (last - first) first (replicate width minus_one) ≡ ok filled
  pub fit : AllFit trees filled off

pub total_nodes-node_sum :
    (ts : List Tree) (sum : ℕ)
    → sum + node_sum ts < size_mod
    → total_nodes sum ts ≡ sum + node_sum ts
unfolding total_nodes node_sum
total_nodes-node_sum [] sum h = omega arith
total_nodes-node_sum (t ∷ ts) sum h =
    let no_wrap : (sum + t.num_nodes) % size_mod ≡ sum + t.num_nodes = omega arith in
    rw no_wrap (total_nodes-node_sum ts (sum + t.num_nodes) (omega arith) ∙ omega arith)

part_inside : (tid nthread size : ℕ) → tid < nthread → size * tid + size ≤ size * nthread
part_inside tid nthread size h =
    let mono : size * suc tid ≤ size * nthread = grind arith in
    let step : size * suc tid ≡ size * tid + size = grind arith in omega arith

module _ (trees : List Tree) (m : Matrix) (assigned : ℕ → ℕ) (nthread width : ℕ)
    (small : node_sum trees < size_mod) where
  -- One row, with the buffer that is as new before and after it.
  row :
      (n rid : ℕ) (counts mid : List ℕ)
      → (fits : RowFits trees m width (m.num_col * assigned rid) rid)
      → traverse_all trees
          (count_row_ptr 0 trees)
          fits.filled
          (m.num_col * assigned rid)
          (total_nodes 0 trees * assigned rid)
          counts
        ≡ ok mid
      → compute_branch_loop trees m assigned (suc n) rid counts (replicate width minus_one)
        ≡ compute_branch_loop trees m assigned n (suc rid) mid (replicate width minus_one)
  unfolding compute_branch_loop
  row n rid counts mid fits r =
      let off = m.num_col * assigned rid in
      let k = fits.last - fits.first in
      let filled =
        sym (fill_inst-fill_row m off k fits.first (replicate width minus_one)) ∙ fits.fills in
      let cleared =
        reset_inst-clear_row m off k fits.first fits.filled
        ∙ clear_row-fill_row (as_batch m off) fits.first k width fits.filled fits.filled filled
            (Kept-self fits.filled) in
      rw (fits.begins, fits.ends, fits.fills, r, cleared) refl

  -- When every row has its places in the arrays and fits all trees, and the threads have room for their
  -- counts, the loop over the rows ends without a fault, with as many counts as before and with a buffer
  -- in which all entries are missing again.
  pub compute_branch_loop_completes :
      (n rid : ℕ) (counts : List ℕ)
      → ((r : ℕ) → rid ≤ r → r < rid + n → RowFits trees m width (m.num_col * assigned r) r)
      → ((r : ℕ) → assigned r < nthread)
      → node_sum trees * nthread ≤ length counts
      → (after : List ℕ) × (compute_branch_loop trees m assigned n rid counts
            (replicate width minus_one)
          ≡ ok (after, replicate width minus_one))
        × (length after ≡ length counts)
  unfolding compute_branch_loop
  compute_branch_loop_completes zero rid counts fits threads room = (counts, refl, refl)
  compute_branch_loop_completes (suc n) rid counts fits threads room =
      let here = fits rid (omega arith) (omega arith) in
      let tid = assigned rid in
      let inside = part_inside tid nthread (node_sum trees) (threads rid) in
      let (mid, r, v) =
        traverse_all-Visited here.filled (m.num_col * tid) (node_sum trees * tid) trees counts
          here.fit small (omega arith) in
      let total : total_nodes 0 trees ≡ node_sum trees =
        total_nodes-node_sum trees 0 (omega arith) ∙ omega arith in
      let (after, r', l) =
        compute_branch_loop_completes n (suc rid) mid (λ q a b. fits q (omega arith) (omega arith))
          threads (omega (arith, v.same_length)) in
      (after, row n rid counts mid here (rw total r) ∙ r', l ∙ v.same_length)
