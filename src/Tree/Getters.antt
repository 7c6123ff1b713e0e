-- ===== src/Tree/Getters.antt =====
-- The getters of `class Tree` in include/treelite/tree_impl.h.
use treelite.Prelude.{
  ℕ, ◌+◌, ◌-◌, ◌/◌, ◌%◌, Bool, not, List, Result, ok, err, ◌>>=◌, ◌>>◌, guard, runtime_error, fault,
  length, take, drop, leb, ◌==◌, if◌then◌else◌,
}
use treelite.Base.{TlFloat, minus_one, SplitFeatureType, Operator}
use treelite.ContiguousArray.{ContiguousArray, size, at}
use treelite.Tree.{Tree}

-- `(sindex & ((1U << 31U) - 1U))`
abbrev pub split_index_of : ℕ → ℕ
split_index_of sindex = sindex % 0x8000_0000

-- `(sindex >> 31U) != 0`
abbrev pub default_left_of : ℕ → Bool
default_left_of sindex = not (sindex / 0x8000_0000 == 0)

-- `if (default_left) split_index |= (1U << 31U);`
abbrev pub pack_sindex : ℕ → Bool → ℕ
pack_sindex split_index default_left =
    if default_left
    then (if split_index / 0x8000_0000 % 2 == 0 then split_index + 0x8000_0000 else split_index)
    else split_index

-- `std::vector<T>(&array[begin], &array[end])`
unfoldable pub slice : {A : Type 0} → ContiguousArray A → ℕ → ℕ → Result (List A)
slice a begin end =
    if leb begin end
    then (if leb end (length a.items)
        then ok (take (end - begin) (drop begin a.items))
        else err fault)
    else err fault

module _ (t : Tree) (nid : ℕ) where
  unfoldable pub left_child : Result ℕ
  left_child = do node ← at t.nodes nid; ok node.cleft

  unfoldable pub right_child : Result ℕ
  right_child = do node ← at t.nodes nid; ok node.cright

  unfoldable pub split_index : Result ℕ
  split_index = do node ← at t.nodes nid; ok (split_index_of node.sindex)

  unfoldable pub default_left : Result Bool
  default_left = do node ← at t.nodes nid; ok (default_left_of node.sindex)

  unfoldable pub default_child : Result ℕ
  default_child = do d ← default_left; if d then left_child else right_child

  unfoldable pub is_leaf : Result Bool
  is_leaf = do node ← at t.nodes nid; ok (node.cleft == minus_one)

  unfoldable pub leaf_value : Result TlFloat
  leaf_value = do node ← at t.nodes nid; ok node.info

  unfoldable pub threshold : Result TlFloat
  threshold = do node ← at t.nodes nid; ok node.info

  unfoldable pub comparison_op : Result Operator
  comparison_op = do node ← at t.nodes nid; ok node.cmp

  unfoldable pub split_type : Result SplitFeatureType
  split_type = do node ← at t.nodes nid; ok node.split_type

  unfoldable pub has_data_count : Result Bool
  has_data_count = do node ← at t.nodes nid; ok node.data_count_present

  unfoldable pub data_count : Result ℕ
  data_count = do node ← at t.nodes nid; ok node.data_count

  unfoldable pub has_sum_hess : Result Bool
  has_sum_hess = do node ← at t.nodes nid; ok node.sum_hess_present

  unfoldable pub sum_hess : Result ℕ
  sum_hess = do node ← at t.nodes nid; ok node.sum_hess

  unfoldable pub has_gain : Result Bool
  has_gain = do node ← at t.nodes nid; ok node.gain_present

  unfoldable pub gain : Result ℕ
  gain = do node ← at t.nodes nid; ok node.gain

  unfoldable pub missing_category_to_zero : Result Bool
  missing_category_to_zero = do node ← at t.nodes nid; ok node.missing_category_to_zero

  unfoldable pub leaf_vector : Result (List TlFloat)
  leaf_vector = do
    guard (leb nid (size t.leaf_vector_offset)) (runtime_error "nid too large")
    begin ← at t.leaf_vector_offset nid
    end ← at t.leaf_vector_offset (nid + 1)
    slice t.leaf_vector begin end

  unfoldable pub has_leaf_vector : Result Bool
  has_leaf_vector = do
    guard (leb nid (size t.leaf_vector_offset)) (runtime_error "nid too large")
    begin ← at t.leaf_vector_offset nid
    end ← at t.leaf_vector_offset (nid + 1)
    ok (not (begin == end))

  unfoldable pub left_categories : Result (List ℕ)
  left_categories = do
    guard (leb nid (size t.left_categories_offset)) (runtime_error "nid too large")
    begin ← at t.left_categories_offset nid
    end ← at t.left_categories_offset (nid + 1)
    slice t.left_categories begin end
