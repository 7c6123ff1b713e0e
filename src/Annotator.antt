-- ===== src/Annotator.antt =====
-- src/annotator.cc: how often each node of a tree is visited by the rows of a matrix. A pointer into
-- an array is the array and a base index.
pub mod Branch
pub mod Categories
pub mod Completes
pub mod Forest
pub mod Layout
pub mod Reduction
pub mod RowLoop
pub mod Traversal
pub mod Walks
use treelite.Prelude.{
  ℕ, zero, suc, ◌+◌, ◌-◌, ◌*◌, ◌%◌, Bool, true, false, not, ◌&&◌, List, [], ◌∷◌, ◌++◌, Option, none,
  some, Result, ok, err, ◌>>=◌, ◌>>◌, guard, or_fault, fault, out_of_fuel, check_failed, length,
  get_elem?, set, take, drop, replicate, min, ltb, leb, ◌==◌, if◌then◌else◌,
}
use treelite.Base.{
  TlFloat, minus_one, size_mod, numerical, categorical, no_split, SplitFeatureType, compare_with_op,
  float_to_uint32,
}
use treelite.Tree.{Tree}
use treelite.Tree.Getters.{
  left_child, right_child, default_child, split_index, is_leaf, threshold, comparison_op,
  split_type, left_categories,
}

-- `union Entry { int missing; float fvalue; }`
abbrev pub Entry : Type 0
Entry = ℕ

-- `std::lower_bound` on a sorted range: the first position whose element is not below `val`.
unfoldable pub lower_bound : List ℕ → ℕ → ℕ
lower_bound [] val = 0
lower_bound (x ∷ xs) val = let rest = suc (lower_bound xs val) in if ltb x val then rest else 0

-- `std::binary_search`
unfoldable pub binary_search : List ℕ → ℕ → Bool
unfolding lower_bound
binary_search xs val = elim (get_elem? xs (lower_bound xs val)) [
  | none ↦ false
  | some y ↦ not (ltb val y)
]

-- `++out_counts[nid]`
unfoldable pub count_visit : List ℕ → ℕ → Result (List ℕ)
count_visit counts i = do c ← or_fault (get_elem? counts i); ok (set counts i ((c + 1) % size_mod))

-- Whether the test of node `nid` sends a value that is there to the left.
unfoldable pub test_node : Tree → ℕ → Entry → Result Bool
test_node t nid entry = do
  type ← split_type t nid
  elim type [
    | numerical ↦ do th ← threshold t nid; op ← comparison_op t nid; compare_with_op entry op th
    | _ ↦ do
      categories ← left_categories t nid
      category ← float_to_uint32 entry
      ok (binary_search categories category)
  ]

-- The child in which `Traverse_` goes on from the test node `nid`.
unfoldable pub branch : Tree → List Entry → ℕ → ℕ → Result ℕ
branch t entries base nid = do
  index ← split_index t nid
  entry ← or_fault (get_elem? entries (base + index))
  if entry == minus_one
      then default_child t nid
      else (test_node t nid entry >>= λ result.
          if result then left_child t nid else right_child t nid)

unfoldable pub traverse_ : ℕ → Tree → List Entry → ℕ → ℕ → ℕ → List ℕ → Result (List ℕ)
traverse_ zero t entries base cbase nid counts = err out_of_fuel
traverse_ (suc fuel) t entries base cbase nid counts = do
  counts' ← count_visit counts (cbase + nid)
  leaf ← is_leaf t nid
  elim leaf [
    | true ↦ ok counts'
    | false ↦ branch t entries base nid >>= λ next. traverse_ fuel t entries base cbase next counts'
  ]

-- A path has no more nodes than the tree, so this fuel is enough.
unfoldable pub traverse : Tree → List Entry → ℕ → ℕ → List ℕ → Result (List ℕ)
traverse t entries base cbase counts = traverse_ (suc t.num_nodes) t entries base cbase 0 counts

-- The fields of `class DMatrix` that the loop reads.
pub record Matrix : Type 0 where
  pub data_ : List TlFloat
  pub col_ind : List ℕ
  pub row_ptr : List ℕ
  pub num_row : ℕ
  pub num_col : ℕ

-- `array[i] = x`
unfoldable pub store : List ℕ → ℕ → ℕ → Result (List ℕ)
store xs i x = if ltb i (length xs) then ok (set xs i x) else err fault

-- `for (size_t i = ibegin; i < iend; ++i) inst[off + col_ind[i]].fvalue = data[i];`
unfoldable pub fill_inst : Matrix → ℕ → ℕ → ℕ → List Entry → Result (List Entry)
unfolding store
fill_inst m off zero i inst = ok inst
fill_inst m off (suc n) i inst = do
  col ← or_fault (get_elem? m.col_ind i)
  value ← or_fault (get_elem? m.data_ i)
  inst' ← store inst (off + col) value
  fill_inst m off n (suc i) inst'

-- The loop that sets the same entries to -1.
unfoldable pub reset_inst : Matrix → ℕ → ℕ → ℕ → List Entry → Result (List Entry)
unfolding store
reset_inst m off zero i inst = ok inst
reset_inst m off (suc n) i inst = do
  col ← or_fault (get_elem? m.col_ind i)
  inst' ← store inst (off + col) minus_one
  reset_inst m off n (suc i) inst'

-- The loop over the trees, with their first places in `count_row_ptr`.
unfoldable pub traverse_all : List Tree → List ℕ → List Entry → ℕ → ℕ → List ℕ → Result (List ℕ)
unfolding traverse
traverse_all [] ptrs inst off off2 counts = ok counts
traverse_all (t ∷ ts) [] inst off off2 counts = err fault
traverse_all (t ∷ ts) (ptr ∷ ptrs) inst off off2 counts = do
  counts' ← traverse t inst off (off2 + ptr) counts
  traverse_all ts ptrs inst off off2 counts'

-- `count_row_ptr`: the sums of the sizes of the trees before each, and of all.
unfoldable pub count_row_ptr : ℕ → List Tree → List ℕ
count_row_ptr sum [] = sum ∷ []
count_row_ptr sum (t ∷ ts) = sum ∷ count_row_ptr ((sum + t.num_nodes) % size_mod) ts

unfoldable pub total_nodes : ℕ → List Tree → ℕ
total_nodes sum [] = sum
total_nodes sum (t ∷ ts) = total_nodes ((sum + t.num_nodes) % size_mod) ts

-- The rows of a parallel loop, with `n` left from `rid`. `assigned rid` is the thread that OpenMP
-- gives row `rid`; threads write to disjoint parts of `counts_tloc` and `inst`, so the order of the
-- rows does not matter and they are taken one after the other.
unfoldable pub compute_branch_loop :
    List Tree → Matrix → (ℕ → ℕ) → ℕ → ℕ → List ℕ → List Entry → Result (List ℕ × List Entry)
unfolding fill_inst traverse_all reset_inst
compute_branch_loop trees m assigned zero rid counts_tloc inst = ok (counts_tloc, inst)
compute_branch_loop trees m assigned (suc n) rid counts_tloc inst = do
  let tid = assigned rid
  let off = m.num_col * tid
  let off2 = total_nodes 0 trees * tid
  ibegin ← or_fault (get_elem? m.row_ptr rid)
  iend ← or_fault (get_elem? m.row_ptr (rid + 1))
  filled ← fill_inst m off (iend - ibegin) ibegin inst
  counts' ← traverse_all trees (count_row_ptr 0 trees) filled off off2 counts_tloc
  cleared ← reset_inst m off (iend - ibegin) ibegin filled
  compute_branch_loop trees m assigned n (suc rid) counts' cleared

-- `new_counts[i] += counts_tloc[off + i]` for all `i`
unfoldable pub add_counts : List ℕ → List ℕ → List ℕ
add_counts [] ys = []
add_counts (x ∷ xs) [] = x ∷ xs
add_counts (x ∷ xs) (y ∷ ys) = (x + y) % size_mod ∷ add_counts xs ys

-- The reduction over the threads, of which `n` are left.
unfoldable pub reduce : ℕ → ℕ → List ℕ → List ℕ → List ℕ
unfolding add_counts
reduce zero size counts_tloc new_counts = new_counts
reduce (suc n) size counts_tloc new_counts =
    reduce n size (drop size counts_tloc) (add_counts new_counts (take size counts_tloc))

-- The vector of the elements from `&new_counts[first]` to `&new_counts[last]`.
unfoldable pub slice_counts : List ℕ → ℕ → ℕ → Result (List ℕ)
slice_counts new_counts first last =
    if leb first last && leb last (length new_counts)
    then ok (take (last - first) (drop first new_counts))
    else err fault

-- "change layout of counts": the round for tree `i` and the `n - 1` after it. `this->counts` keeps the
-- rows it had.
unfoldable pub layout : ℕ → ℕ → List ℕ → List ℕ → List (List ℕ) → Result (List (List ℕ))
unfolding slice_counts
layout zero i row_ptr new_counts counts = ok counts
layout (suc n) i row_ptr new_counts counts = do
  first ← or_fault (get_elem? row_ptr i)
  last ← or_fault (get_elem? row_ptr (i + 1))
  row ← slice_counts new_counts first last
  layout n (i + 1) row_ptr new_counts (counts ++ row ∷ [])

-- `Annotate`, where OpenMP has `max_thread` threads at most, on an annotator whose `counts` are
-- `counts`. The outer loop only cuts the rows into steps of progress.
unfoldable pub annotate :
    List Tree → Matrix → (ℕ → ℕ) → ℕ → ℕ → List (List ℕ) → Result (List (List ℕ))
unfolding compute_branch_loop reduce layout total_nodes
annotate trees m assigned max_thread threads counts = do
  let nthread = if threads == 0 then max_thread else min threads max_thread
  let size = total_nodes 0 trees
  let inst = replicate (nthread * m.num_col) minus_one
  (counts_tloc, inst') ←
      compute_branch_loop trees m assigned m.num_row 0 (replicate (size * nthread) 0) inst
  let new_counts = reduce nthread size counts_tloc (replicate size 0)
  layout (length trees) 0 (count_row_ptr 0 trees) new_counts counts
