-- ===== src/Tree/Setters.antt =====
-- The setters of `class Tree` in include/treelite/tree_impl.h.
use treelite.Prelude.{
  ℕ, ◌+◌, ◌-◌, Bool, true, ◌&&◌, List, [], ◌∷◌, ◌++◌, Result, ok, ◌>>=◌, ◌>>◌, guard, runtime_error,
  fault, length, take, drop, leb, ltb, ◌==◌, if◌then◌else◌, replicate,
}
use treelite.Base.{TlFloat, minus_one, no_split, numerical, categorical, Operator}
use treelite.ContiguousArray.{ContiguousArray, size, back, extend}
use treelite.Tree.{Tree, modify_node}
use treelite.Tree.Getters.{pack_sindex}

-- The largest feature index, and the first that the setters refuse.
abbrev pub split_index_limit : ℕ
split_index_limit = 0x7fff_ffff

unfoldable pub set_numerical_split : ℕ → ℕ → TlFloat → Bool → Operator → Tree → Result Tree
set_numerical_split nid split_index threshold default_left cmp t = do
  guard (ltb split_index split_index_limit) (runtime_error "split_index too big")
  modify_node t nid λ node. record node {
    sindex = pack_sindex split_index default_left;
    info = threshold;
    cmp = cmp;
    split_type = numerical;
  }

-- `std::all_of(begin, end, [end_oft](size_t x) { return (x == end_oft); })`
unfoldable pub all_equal : ℕ → List ℕ → Bool
all_equal end_oft [] = true
all_equal end_oft (x ∷ xs) = x == end_oft && all_equal end_oft xs

-- `std::sort`, as an insertion sort: sorting numbers has one result.
unfoldable pub insert_sorted : ℕ → List ℕ → List ℕ
insert_sorted x [] = x ∷ []
insert_sorted x (y ∷ ys) = let rest = insert_sorted x ys in if leb x y then x ∷ y ∷ ys else y ∷ rest

unfoldable pub sort : List ℕ → List ℕ
unfolding insert_sorted
sort [] = []
sort (x ∷ xs) = insert_sorted x (sort xs)

-- `std::for_each(&offset[nid + 1], offset.End(), [new_end_oft](size_t& x) { x = new_end_oft; })`
unfoldable pub fill_from : ℕ → ℕ → List ℕ → List ℕ
fill_from i new_end_oft xs = take i xs ++ replicate (length xs - i) new_end_oft

-- What `SetCategoricalSplit` and `SetLeafVector` have in common: append `xs` to the values as the
-- slice of node `nid`, whose successors must have none yet.
unfoldable pub append_slice :
    {A : Type 0}
    → ℕ
    → List A
    → ContiguousArray A
    → ContiguousArray ℕ
    → Result (ContiguousArray A × ContiguousArray ℕ)
append_slice nid xs values offset = do
  end_oft ← back offset
  let new_end_oft = end_oft + length xs
  guard (end_oft == size values) (runtime_error "Invariant violated")
  guard (leb (nid + 1) (size offset)) fault
  guard (all_equal end_oft (drop (nid + 1) offset.items)) (runtime_error "Invariant violated")
  longer ← extend xs values
  guard (new_end_oft == size longer) (runtime_error "Invariant violated")
  ok (longer, record offset { items = fill_from (nid + 1) new_end_oft offset.items })

unfoldable pub set_categorical_split : ℕ → ℕ → Bool → Bool → List ℕ → Tree → Result Tree
set_categorical_split nid split_index default_left missing_category_to_zero categories t = do
  guard (ltb split_index split_index_limit) (runtime_error "split_index too big")
  end_oft ← back t.left_categories_offset
  (values, offset) ← append_slice nid categories t.left_categories t.left_categories_offset
  let sorted = take end_oft values.items ++ sort (drop end_oft values.items)
  let t₁ = record t {
    left_categories = record values { items = sorted };
    left_categories_offset = offset;
  }
  modify_node t₁ nid λ node. record node {
    sindex = pack_sindex split_index default_left;
    split_type = categorical;
    missing_category_to_zero = missing_category_to_zero;
  }

unfoldable pub set_leaf_vector : ℕ → List TlFloat → Tree → Result Tree
set_leaf_vector nid node_leaf_vector t = do
  (values, offset) ← append_slice nid node_leaf_vector t.leaf_vector t.leaf_vector_offset
  let t₁ = record t { leaf_vector = values; leaf_vector_offset = offset }
  modify_node t₁ nid
      λ node. record node { cleft = minus_one; cright = minus_one; split_type = no_split }

unfoldable pub set_sum_hess : ℕ → ℕ → Tree → Result Tree
set_sum_hess nid sum_hess t =
    modify_node t nid λ node. record node { sum_hess = sum_hess; sum_hess_present = true }

unfoldable pub set_data_count : ℕ → ℕ → Tree → Result Tree
set_data_count nid data_count t =
    modify_node t nid λ node. record node { data_count = data_count; data_count_present = true }

unfoldable pub set_gain : ℕ → ℕ → Tree → Result Tree
set_gain nid gain t = modify_node t nid λ node. record node { gain = gain; gain_present = true }
