-- ===== src/Tree.antt =====
-- include/treelite/tree.h, `class Tree`, and include/treelite/tree_impl.h: the nodes, `Init`,
-- `AllocNode`, `AddChilds` and `Clone`. A method returns the new tree; where it throws, what it had
-- changed by then is not modelled. A node id is an `int` pattern, and one outside of `nodes_` is a
-- fault where the source indexes with it. `junk` is what fresh memory holds.
pub mod Getters
pub mod Setters
pub mod Offsets
pub mod Invariant
pub mod Slices
pub mod Append
pub mod Splits
pub mod Leaves
pub mod LeafVectors
pub mod Refusals
pub mod CategoryLists
pub mod Categories
pub mod Alloc
pub mod AddChilds
pub mod Free
use treelite.Prelude.{
  ◌&&◌, not, ℕ, ◌+◌, ◌≡◌, Bool, true, false, not, List, [], ◌∷◌, Result, ok, err, ◌>>=◌, ◌>>◌,
  guard, runtime_error, fault, length, ltb, ◌==◌, if◌then◌else◌,
}
use treelite.Base.{TlFloat, minus_one, int_max, SplitFeatureType, no_split, Operator, no_op}
use treelite.ContiguousArray
use treelite.ContiguousArray.{
  ContiguousArray, empty, clone, size, at, assign, back, resize, resize_fill, clear, push_back,
}

pub record Node : Type 0 where
  pub cleft : ℕ
  pub cright : ℕ
  -- the feature in the lower 31 bits, the default direction in the highest
  pub sindex : ℕ
  -- `union Info`: a leaf value or a threshold
  pub info : TlFloat
  pub data_count : ℕ
  pub sum_hess : ℕ
  pub gain : ℕ
  pub split_type : SplitFeatureType
  pub cmp : Operator
  pub missing_category_to_zero : Bool
  pub data_count_present : Bool
  pub sum_hess_present : Bool
  pub gain_present : Bool

-- `Node::Init` writes every field.
abbrev pub node_init : Node
node_init = record {
  cleft = minus_one;
  cright = minus_one;
  sindex = 0;
  info = 0;
  data_count = 0;
  sum_hess = 0;
  gain = 0;
  split_type = no_split;
  cmp = no_op;
  missing_category_to_zero = false;
  data_count_present = false;
  sum_hess_present = false;
  gain_present = false;
}

pub record Tree : Type 0 where
  pub nodes : ContiguousArray Node
  pub leaf_vector : ContiguousArray TlFloat
  pub leaf_vector_offset : ContiguousArray ℕ
  pub left_categories : ContiguousArray ℕ
  pub left_categories_offset : ContiguousArray ℕ
  pub num_nodes : ℕ

-- `Tree() = default`, with `num_nodes` left as memory had it.
unfoldable pub default_tree : ℕ → Tree
unfolding empty
default_tree num = record {
  nodes = empty;
  leaf_vector = empty;
  leaf_vector_offset = empty;
  left_categories = empty;
  left_categories_offset = empty;
  num_nodes = num;
}

-- `nodes_[nid] = f(nodes_[nid])`: what the setters do through `Node& node`.
unfoldable pub modify_node : Tree → ℕ → (Node → Node) → Result Tree
modify_node t nid f = do
  node ← at t.nodes nid
  nodes ← assign t.nodes nid (f node)
  ok (record t { nodes = nodes })

-- The loop of `AllocNode` makes one round. `num_nodes++` overflows at the greatest `int`; a negative
-- number is no size of `nodes_`.
unfoldable pub alloc_node : Node → Tree → Result (ℕ × Tree)
alloc_node junk t = do
  let nd = t.num_nodes
  guard (not (nd == int_max)) fault
  guard (ltb nd 0x8000_0000 && size t.nodes == nd)
      (runtime_error "Invariant violated: nodes_ contains incorrect number of nodes")
  leaf_end ← back t.leaf_vector_offset
  leaf_vector_offset ← push_back leaf_end t.leaf_vector_offset
  categories_end ← back t.left_categories_offset
  left_categories_offset ← push_back categories_end t.left_categories_offset
  longer ← resize junk (size t.nodes + 1) t.nodes
  nodes ← assign longer nd node_init
  ok (
    nd,
    record t {
      nodes = nodes;
      leaf_vector_offset = leaf_vector_offset;
      left_categories_offset = left_categories_offset;
      num_nodes = nd + 1;
    },
  )

unfoldable pub add_childs : Node → ℕ → Tree → Result Tree
add_childs junk nid t = do
  (cleft, t₁) ← alloc_node junk t
  (cright, t₂) ← alloc_node junk t₁
  modify_node t₂ nid (λ node. record node { cleft = cleft; cright = cright })

unfoldable pub set_leaf : ℕ → TlFloat → Tree → Result Tree
set_leaf nid value t = modify_node t nid λ node. record node {
  info = value;
  cleft = minus_one;
  cright = minus_one;
  split_type = no_split;
}

unfoldable pub init : Node → Tree → Result Tree
init junk t = do
  leaf_vector ← clear t.leaf_vector
  leaf_vector_offset ← resize_fill 2 0 t.leaf_vector_offset
  left_categories ← clear t.left_categories
  left_categories_offset ← resize_fill 2 0 t.left_categories_offset
  nodes ← resize junk 1 t.nodes
  nodes ← assign nodes 0 node_init
  set_leaf 0 0 (record {
    nodes = nodes;
    leaf_vector = leaf_vector;
    leaf_vector_offset = leaf_vector_offset;
    left_categories = left_categories;
    left_categories_offset = left_categories_offset;
    num_nodes = 1;
  })

unfoldable pub clone_tree : Tree → Tree
unfolding clone
clone_tree t = record {
  num_nodes = t.num_nodes;
  nodes = clone t.nodes;
  leaf_vector = clone t.leaf_vector;
  leaf_vector_offset = clone t.leaf_vector_offset;
  left_categories = clone t.left_categories;
  left_categories_offset = clone t.left_categories_offset;
}
