-- ===== src/Annotator/Layout.antt =====
-- The last step of `Annotate`: a row of counts for each tree.
use mathlib.Core.List.{append-nil, append_assoc}
use treelite.Prelude.{
  ap, sym, ok, true, ◌-◌, ◌++◌, ◌&&◌, leb, length-append, get_elem?-append_lt, ℕ, zero, suc, ◌+◌,
  ◌%◌, ◌≤◌, ◌<◌, ◌≡◌, refl, ◌∙◌, arith, List, [], ◌∷◌, some, length, get_elem?, take, drop,
  get_elem?-take, get_elem?-drop, drop-drop, length-take, length-drop,
}
use treelite.Base.{size_mod}
use treelite.Tree.{Tree}
use treelite.Annotator.{count_row_ptr, slice_counts, layout}
use treelite.Annotator.Forest.{node_sum}

-- The row has the counts from `first` on, one for each node of the tree.
pub record RowOf (t : Tree) (first : ℕ) (counts row : List ℕ) : Type 0 where
  pub width : length row ≡ t.num_nodes
  pub entry : (i : ℕ) → i < t.num_nodes → get_elem? row i ≡ get_elem? counts (first + i)

first_row :
    (t : Tree) (sum : ℕ) (counts : List ℕ)
    → sum + t.num_nodes ≤ length counts
    → RowOf t sum counts (take t.num_nodes (drop sum counts))
first_row t sum counts room = record {
  width = omega (arith, length-take t.num_nodes (drop sum counts), length-drop sum counts);
  entry = λ i l. get_elem?-take t.num_nodes i (drop sum counts) l ∙ get_elem?-drop sum i counts;
}

get_elem?-append_ge :
    {A : Type 0} (xs ys : List A) (k : ℕ) → get_elem? (xs ++ ys) (length xs + k) ≡ get_elem? ys k
get_elem?-append_ge [] ys k = ap (get_elem? ys) (omega arith)
get_elem?-append_ge (x ∷ xs) ys k =
    let next : suc (length xs) + k ≡ suc (length xs + k) = omega arith in
    rw next (get_elem?-append_ge xs ys k)

-- The rows of the trees, cut off one after the other.
rows_of : List Tree → List ℕ → List (List ℕ)
rows_of [] counts = []
rows_of (t ∷ ts) counts = take t.num_nodes counts ∷ rows_of ts (drop t.num_nodes counts)

length-rows_of : (ts : List Tree) (counts : List ℕ) → length (rows_of ts counts) ≡ length ts
unfolding rows_of
length-rows_of [] counts = refl
length-rows_of (t ∷ ts) counts = ap suc (length-rows_of ts (drop t.num_nodes counts))

rows_of-RowOf :
    (ts : List Tree) (k : ℕ) (t : Tree) (sum : ℕ) (counts : List ℕ)
    → get_elem? ts k ≡ some t
    → sum + node_sum ts ≤ length counts
    → (row : List ℕ) × (get_elem? (rows_of ts (drop sum counts)) k ≡ some row)
      × RowOf t (sum + node_sum (take k ts)) counts row
unfolding rows_of node_sum
rows_of-RowOf [] k t sum counts e room = cc
rows_of-RowOf (u ∷ ts) zero t sum counts e room =
    let same : u ≡ t = cc in
    let here : sum + 0 ≡ sum = omega arith in
    (
      take u.num_nodes (drop sum counts),
      refl,
      rw (here, ← same) (first_row u sum counts (omega arith)),
    )
rows_of-RowOf (u ∷ ts) (suc k) t sum counts e room =
    let (row, l, r) = rows_of-RowOf ts k t (sum + u.num_nodes) counts e (omega arith) in
    let place : sum + (u.num_nodes + node_sum (take k ts))
        ≡ sum + u.num_nodes + node_sum (take k ts) =
      omega arith in
    (row, rw (drop-drop u.num_nodes sum counts) l, rw place r)

count_row_ptr-first : (sum : ℕ) (ts : List Tree) → get_elem? (count_row_ptr sum ts) 0 ≡ some sum
unfolding count_row_ptr
count_row_ptr-first sum [] = refl
count_row_ptr-first sum (t ∷ ts) = refl

layout-rows_of :
    (ts : List Tree) (i sum : ℕ) (row_ptr counts : List ℕ) (before : List (List ℕ))
    → ((j : ℕ) → get_elem? row_ptr (i + j) ≡ get_elem? (count_row_ptr sum ts) j)
    → sum + node_sum ts < size_mod
    → sum + node_sum ts ≤ length counts
    → layout (length ts) i row_ptr counts before ≡ ok (before ++ rows_of ts (drop sum counts))
unfolding layout slice_counts rows_of count_row_ptr node_sum
layout-rows_of [] i sum row_ptr counts before at small room = ap ok (sym (append-nil before))
layout-rows_of (t ∷ ts) i sum row_ptr counts before at small room =
    let no_wrap : (sum + t.num_nodes) % size_mod ≡ sum + t.num_nodes = omega arith in
    let here : i + 0 ≡ i = omega arith in
    let first : get_elem? row_ptr i ≡ some sum = rw here at (at 0) in
    let last : get_elem? row_ptr (i + 1) ≡ some (sum + t.num_nodes) =
      at 1 ∙ count_row_ptr-first ((sum + t.num_nodes) % size_mod) ts ∙ ap some no_wrap in
    let inside : (leb sum (sum + t.num_nodes) && leb (sum + t.num_nodes) (length counts)) ≡ true =
      ground arith in
    let width : sum + t.num_nodes - sum ≡ t.num_nodes = omega arith in
    let row = take t.num_nodes (drop sum counts) in
    let more =
      layout-rows_of ts (i + 1) (sum + t.num_nodes) row_ptr counts (before ++ row ∷ [])
        (λ j.
          let next : i + 1 + j ≡ i + suc j = omega arith in
          rw next (at (suc j) ∙ ap (λ s. get_elem? (count_row_ptr s ts) j) no_wrap))
        (omega arith) (omega arith) in
    rw (first, last, inside, width)
      (more
        ∙ ap ok (
            append_assoc before (row ∷ []) (rows_of ts (drop (sum + t.num_nodes) counts))
            ∙ ap (λ rest. before ++ row ∷ rows_of ts rest)
                (sym (drop-drop t.num_nodes sum counts))))

-- The rows that were there are kept, and every tree gets one behind them: tree `k` the one with the
-- counts behind those of the trees before it.
pub record LaidOut (ts : List Tree) (counts : List ℕ) (before rows : List (List ℕ)) : Type 0 where
  pub many : length rows ≡ length before + length ts
  pub kept : (i : ℕ) → i < length before → get_elem? rows i ≡ get_elem? before i
  pub row_of :
      (k : ℕ) (t : Tree)
      → get_elem? ts k ≡ some t
      → (row : List ℕ) × (get_elem? rows (length before + k) ≡ some row)
        × RowOf t (node_sum (take k ts)) counts row

-- When there is a count for every node of all trees, fewer than 2 ^ 64, the last step of `Annotate`
-- succeeds: the rows of counts that the annotator had are kept, and behind them comes a row for each
-- tree in order, with one entry for each of its nodes. These are the counts from the place on that is
-- the number of nodes of all trees before it.
pub layout-RowOf :
    (ts : List Tree) (counts : List ℕ) (before : List (List ℕ))
    → node_sum ts < size_mod
    → node_sum ts ≤ length counts
    → (rows : List (List ℕ)) × (layout (length ts) 0 (count_row_ptr 0 ts) counts before ≡ ok rows)
      × LaidOut ts counts before rows
layout-RowOf ts counts before small room =
    let rows = rows_of ts counts in
    let same : (j : ℕ) → 0 + j ≡ j = λ j. omega arith in
    (
      before ++ rows,
      layout-rows_of ts 0 0 (count_row_ptr 0 ts) counts before
          (λ j. ap (get_elem? (count_row_ptr 0 ts)) (same j)) (omega arith) (omega arith),
      record {
        many = length-append before rows ∙ ap (λ n. length before + n) (length-rows_of ts counts);
        kept = λ i l. get_elem?-append_lt before rows i l;
        row_of = λ k t e.
            let (row, l, r) = rows_of-RowOf ts k t 0 counts e (omega arith) in
            (row, get_elem?-append_ge before rows k ∙ l, rw (same (node_sum (take k ts))) at r);
      },
    )
