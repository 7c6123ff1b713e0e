-- ===== src/Builder.antt =====
-- src/frontend/builder.cc, `class TreeBuilder`: a tree under construction, as nodes in memory that
-- point to each other. A pointer is an address in `heap`, where a freed node leaves `none`; null is
-- `none`. Node keys are `int` patterns. The message of a failed check is shortened to the method.
pub mod Heap
pub mod Links
pub mod Deletion
pub mod Calls
use treelite.Prelude.{
  ℕ, zero, suc, ◌+◌, Bool, true, false, not, ◌&&◌, ◌||◌, List, [], ◌∷◌, ◌++◌, Option, none, some,
  String, Result, ok, err, ◌>>=◌, ◌>>◌, guard, or_fault, fault, check_failed, length, get_elem?,
  set, ◌==◌, if◌then◌else◌,
}
use treelite.Base.{TlFloat, Operator, optable}

-- `_Node::_Status`
pub data Status : Type 0 where
  empty_status numerical_test categorical_test leaf_status : Status

-- `struct _Node`
pub record BuilderNode : Type 0 where
  pub leaf_vector : List TlFloat
  pub status : Status
  pub parent : Option ℕ
  pub left_child : Option ℕ
  pub right_child : Option ℕ
  pub feature_id : ℕ
  pub default_left : Bool
  -- `union _Info`: a leaf value or a threshold
  pub info : TlFloat
  pub op : Operator
  pub left_categories : List ℕ

-- `new _Node()`: the fields that it leaves open are those of `junk`.
abbrev pub new_builder_node : BuilderNode → BuilderNode
new_builder_node junk = record junk {
  leaf_vector = [];
  status = empty_status;
  parent = none;
  left_child = none;
  right_child = none;
  left_categories = [];
}

-- `struct _Tree`, with the memory of its nodes: `nodes` has the address for each key.
pub record TreeState : Type 0 where
  pub root : Option ℕ
  pub nodes : List (ℕ × ℕ)
  pub heap : List (Option BuilderNode)

-- `nodes.count(key)` and `nodes[key].get()`
unfoldable pub find_key : ℕ → List (ℕ × ℕ) → Option ℕ
find_key key [] = none
find_key key (entry ∷ entries) =
    let rest = find_key key entries in if entry.0 == key then some entry.1 else rest

-- `nodes.erase(key)`
unfoldable pub erase_key : ℕ → List (ℕ × ℕ) → List (ℕ × ℕ)
erase_key key [] = []
erase_key key (entry ∷ entries) =
    let rest = erase_key key entries in if entry.0 == key then rest else entry ∷ rest

-- `CHECK_GT(nodes.count(key), 0)`, and the node's address
unfoldable pub node_at : String → ℕ → TreeState → Result ℕ
unfolding find_key
node_at method key s = elim (find_key key s.nodes) [
  | none ↦ err (check_failed method)
  | some p ↦ ok p
]

-- `*p`
unfoldable pub deref : List (Option BuilderNode) → ℕ → Result BuilderNode
deref heap p = or_fault (get_elem? heap p) >>= or_fault

unfoldable pub update : ℕ → (BuilderNode → BuilderNode) → TreeState → Result TreeState
unfolding deref
update p f s = do node ← deref s.heap p; ok (record s { heap = set s.heap p (some (f node)) })

-- `p == q` of two pointers
unfoldable pub same_pointer : Option ℕ → ℕ → Bool
same_pointer none p = false
same_pointer (some q) p = q == p

abbrev pub is_null : Option ℕ → Bool
is_null none = true
is_null (some p) = false

unfoldable pub is_empty : Status → Bool
is_empty empty_status = true
is_empty status = false

unfoldable pub create_node : BuilderNode → ℕ → TreeState → Result TreeState
unfolding find_key
create_node junk node_key s = elim (find_key node_key s.nodes) [
  | some p ↦ err (check_failed "CreateNode")
  | none ↦ ok (record s {
    nodes = (node_key, length s.heap) ∷ s.nodes;
    heap = s.heap ++ some (new_builder_node junk) ∷ [];
  })
]

-- `if (child != nullptr) child->parent = nullptr;`
unfoldable pub orphan : Option ℕ → TreeState → Result TreeState
unfolding update
orphan none s = ok s
orphan (some c) s = update c (λ node. record node { parent = none }) s

-- The nodes that `nodes.clear()` frees.
unfoldable pub free_all : List (ℕ × ℕ) → List (Option BuilderNode) → List (Option BuilderNode)
free_all [] heap = heap
free_all (entry ∷ entries) heap = free_all entries (set heap entry.1 none)

-- `if (tree.root == node) tree.root = nullptr;`
unfoldable pub drop_root : ℕ → TreeState → TreeState
unfolding same_pointer
drop_root p s = if same_pointer s.root p then record s { root = none } else s

-- Both children of the node lose their parent.
unfoldable pub detach : ℕ → TreeState → Result TreeState
unfolding deref orphan
detach p s = do
  node ← deref s.heap p
  s₁ ← orphan node.left_child s
  node₁ ← deref s₁.heap p
  orphan node₁.right_child s₁

-- `if (node == tree.root) { tree.root = nullptr; nodes.clear(); } else { nodes.erase(node_key); }`
unfoldable pub erase_node : ℕ → ℕ → TreeState → TreeState
unfolding same_pointer erase_key free_all
erase_node node_key p s =
    if same_pointer s.root p
    then record { root = none; nodes = []; heap = free_all s.nodes s.heap }
    else record s { nodes = erase_key node_key s.nodes; heap = set s.heap p none }

unfoldable pub delete_node : ℕ → TreeState → Result TreeState
unfolding node_at drop_root detach erase_node
delete_node node_key s = do
  p ← node_at "DeleteNode" node_key s
  s' ← detach p (drop_root p s)
  ok (erase_node node_key p s')

unfoldable pub set_root_node : ℕ → TreeState → Result TreeState
unfolding node_at deref
set_root_node node_key s = do
  p ← node_at "SetRootNode" node_key s
  node ← deref s.heap p
  guard (is_null node.parent) (check_failed "SetRootNode")
  ok (record s { root = some p })

-- The node is still empty, and the two others can become its children.
unfoldable pub may_link : TreeState → BuilderNode → BuilderNode → BuilderNode → ℕ → ℕ → Bool
unfolding is_empty same_pointer
may_link s node left right l r =
    is_empty node.status
    && (is_null left.parent
        && (is_null right.parent && (not (same_pointer s.root l) && not (same_pointer s.root r))))

-- The pointers and the test are written; `fill` writes the test.
unfoldable pub link : ℕ → ℕ → ℕ → (BuilderNode → BuilderNode) → TreeState → Result TreeState
unfolding update
link p l r fill s = do
  s₁ ← update p (λ node. fill (record node { left_child = some l; right_child = some r })) s
  s₂ ← update l (λ node. record node { parent = some p }) s₁
  update r (λ node. record node { parent = some p }) s₂

-- The checks on the three nodes, and the link.
unfoldable pub link_checked :
    String → ℕ → ℕ → ℕ → (BuilderNode → BuilderNode) → TreeState → Result TreeState
unfolding deref may_link link
link_checked method p l r fill s = do
  node ← deref s.heap p
  left ← deref s.heap l
  right ← deref s.heap r
  guard (may_link s node left right l r) (check_failed method)
  link p l r fill s

-- What the test nodes of both kinds have in common.
unfoldable pub set_test_node :
    String → ℕ → ℕ → ℕ → (BuilderNode → BuilderNode) → TreeState → Result TreeState
unfolding node_at link_checked
set_test_node method node_key left_child_key right_child_key fill s = do
  p ← node_at method node_key s
  l ← node_at method left_child_key s
  r ← node_at method right_child_key s
  link_checked method p l r fill s

unfoldable pub set_numerical_test_node :
    ℕ → ℕ → Operator → TlFloat → Bool → ℕ → ℕ → TreeState → Result TreeState
unfolding set_test_node
set_numerical_test_node node_key feature_id op threshold default_left left_child_key
      right_child_key =
    set_test_node "SetNumericalTestNode" node_key left_child_key right_child_key λ node.
      record node {
        status = numerical_test;
        feature_id = feature_id;
        default_left = default_left;
        info = threshold;
        op = op;
      }

-- The overload that takes the operator's name.
unfoldable pub set_numerical_test_node_by_name :
    ℕ → ℕ → String → TlFloat → Bool → ℕ → ℕ → TreeState → Result TreeState
set_numerical_test_node_by_name node_key feature_id opname threshold default_left left_child_key
      right_child_key s =
    elim (optable opname) [
      | none ↦ err (check_failed "No operator exists")
      | some op ↦
          set_numerical_test_node node_key feature_id op threshold default_left left_child_key
            right_child_key s
    ]

unfoldable pub set_categorical_test_node :
    ℕ → ℕ → List ℕ → Bool → ℕ → ℕ → TreeState → Result TreeState
unfolding set_test_node
set_categorical_test_node node_key feature_id left_categories default_left left_child_key
      right_child_key =
    set_test_node "SetCategoricalTestNode" node_key left_child_key right_child_key λ node.
      record node {
        status = categorical_test;
        feature_id = feature_id;
        default_left = default_left;
        left_categories = left_categories;
      }

-- What the two kinds of leaf nodes have in common; `fill` writes the output.
unfoldable pub set_leaf_of : String → ℕ → (BuilderNode → BuilderNode) → TreeState → Result TreeState
unfolding node_at deref update is_empty
set_leaf_of method node_key fill s = do
  p ← node_at method node_key s
  node ← deref s.heap p
  guard (is_empty node.status) (check_failed method)
  update p fill s

unfoldable pub set_leaf_node : ℕ → TlFloat → TreeState → Result TreeState
unfolding set_leaf_of
set_leaf_node node_key leaf_value =
    set_leaf_of "SetLeafNode" node_key
      λ node. record node { status = leaf_status; info = leaf_value }

unfoldable pub set_leaf_vector_node : ℕ → List TlFloat → TreeState → Result TreeState
unfolding set_leaf_of
set_leaf_vector_node node_key leaf_vector =
    set_leaf_of "SetLeafVectorNode" node_key
      λ node. record node { status = leaf_status; leaf_vector = leaf_vector }

-- The methods of `class TreeBuilder`, as one type of calls.
pub data Call : Type 0 where
  create_call : BuilderNode → ℕ → Call
  delete_call : ℕ → Call
  root_call : ℕ → Call
  numerical_call : ℕ → ℕ → Operator → TlFloat → Bool → ℕ → ℕ → Call
  named_call : ℕ → ℕ → String → TlFloat → Bool → ℕ → ℕ → Call
  categorical_call : ℕ → ℕ → List ℕ → Bool → ℕ → ℕ → Call
  leaf_call : ℕ → TlFloat → Call
  leaf_vector_call : ℕ → List TlFloat → Call

unfoldable pub run : Call → TreeState → Result TreeState
run (create_call junk key) s = create_node junk key s
run (delete_call key) s = delete_node key s
run (root_call key) s = set_root_node key s
run (numerical_call key feature op threshold default l r) s =
    set_numerical_test_node key feature op threshold default l r s
run (named_call key feature opname threshold default l r) s =
    set_numerical_test_node_by_name key feature opname threshold default l r s
run (categorical_call key feature categories default l r) s =
    set_categorical_test_node key feature categories default l r s
run (leaf_call key value) s = set_leaf_node key value s
run (leaf_vector_call key values) s = set_leaf_vector_node key values s
