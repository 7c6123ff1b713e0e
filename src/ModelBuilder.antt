-- ===== src/ModelBuilder.antt =====
-- src/frontend/builder.cc, `class ModelBuilder`: the trees of a model under construction, and
-- `CommitModel`, which copies them into the arrays of `class Tree` breadth first.
pub mod Trees
pub mod Committed
use treelite.Prelude.{
  ℕ, zero, suc, ◌+◌, ◌-◌, ◌%◌, Bool, true, false, not, ◌&&◌, ◌||◌, List, [], ◌∷◌, ◌++◌, Option,
  none, some, String, Result, ok, err, ◌>>=◌, ◌>>◌, guard, or_fault, fault, runtime_error,
  check_failed, out_of_fuel, length, get_elem?, take, drop, ltb, leb, ◌==◌, if◌then◌else◌,
}
use treelite.Base.{TlFloat, minus_one}
use treelite.Tree.{Tree, Node, default_tree, init, add_childs, set_leaf}
use treelite.Tree.Getters.{left_child, right_child}
use treelite.Tree.Setters.{set_numerical_split, set_categorical_split, set_leaf_vector}
use treelite.Builder.{
  BuilderNode, TreeState, Status, empty_status, numerical_test, categorical_test, leaf_status,
  deref, is_empty, is_null, same_pointer,
}

-- `class TreeBuilder`: `pimpl`, which is null after a move, and whether `ensemble_id` is set.
pub record TreeBuilder : Type 0 where
  pub pimpl : Option TreeState
  pub in_ensemble : Bool

-- `struct ModelBuilderImpl`
pub record ModelState : Type 0 where
  pub trees : List TreeState
  pub num_feature : ℕ
  pub num_output_group : ℕ
  pub random_forest_flag : Bool
  pub cfg : List (String × String)

-- `x > 0` of an `int`
abbrev pub is_positive : ℕ → Bool
is_positive x = ltb 0 x && ltb x 0x8000_0000

unfoldable pub new_model_builder : ℕ → ℕ → Bool → Result ModelState
new_model_builder num_feature num_output_group random_forest_flag = do
  guard (is_positive num_feature) (check_failed "ModelBuilder: num_feature must be positive")
  guard (is_positive num_output_group)
      (check_failed "ModelBuilder: num_output_group must be positive")
  ok (record {
    trees = [];
    num_feature = num_feature;
    num_output_group = num_output_group;
    random_forest_flag = random_forest_flag;
    cfg = [];
  })

unfoldable pub set_model_param : String → String → ModelState → ModelState
set_model_param name value s = record s { cfg = s.cfg ++ (name, value) ∷ [] }

abbrev pub is_test : Status → Bool
is_test numerical_test = true
is_test categorical_test = true
is_test status = false

-- `fid < 0 || fid >= pimpl->num_feature` does not hold for a test node.
unfoldable pub split_in_bounds : ℕ → BuilderNode → Bool
split_in_bounds num_feature node =
    if is_test node.status
    then ltb node.feature_id 0x8000_0000 && ltb node.feature_id num_feature
    else true

-- The loop over `tree.nodes`.
unfoldable pub check_splits : ℕ → List (Option BuilderNode) → List (ℕ × ℕ) → Result (Unit {0})
unfolding split_in_bounds
check_splits num_feature heap [] = ok tt
check_splits num_feature heap (entry ∷ entries) = do
  node ← deref heap entry.1
  guard (split_in_bounds num_feature node) (check_failed "InsertTree: tree has an invalid split")
  check_splits num_feature heap entries

-- The place and the trees, with the new tree.
unfoldable pub place_tree : ℕ → TreeState → List TreeState → Result (ℕ × List TreeState)
place_tree index tree trees =
    if index == minus_one
    then ok (length trees + 1, trees ++ tree ∷ [])
    else if ltb index 0x8000_0000 && leb index (length trees)
    then ok (index, take index trees ++ tree ∷ drop index trees)
    else err (check_failed "CreateTree: index out of bound")

-- `InsertTree` of a builder that is not null: the result, the builder and the model builder.
unfoldable pub insert_tree : TreeBuilder → ℕ → ModelState → Result (ℕ × TreeBuilder × ModelState)
unfolding check_splits place_tree
insert_tree tree_builder index s = do
  guard (not tree_builder.in_ensemble)
      (check_failed "InsertTree: tree is already part of another ensemble")
  tree ← or_fault tree_builder.pimpl
  check_splits s.num_feature tree.heap tree.nodes
  (result, trees) ← place_tree index tree s.trees
  ok (result, record { pimpl = none; in_ensemble = true }, record s { trees = trees })

-- `trees.at(index)`
unfoldable pub get_tree : ℕ → ModelState → Result TreeState
get_tree index s = elim (get_elem? s.trees index) [
  | none ↦ err (runtime_error "vector::_M_range_check")
  | some tree ↦ ok tree
]

unfoldable pub delete_tree : ℕ → ModelState → Result ModelState
delete_tree index s = do
  guard (ltb index (length s.trees)) (check_failed "DeleteTree: index out of bound")
  ok (record s { trees = take index s.trees ++ drop (suc index) s.trees })

-- `flag_leaf_vector`: -1, 0 and 1
pub data LeafVectorUse : Type 0 where
  indeterminate no_leaf every_leaf : LeafVectorUse

-- The rest of the queue, the tree and the flag.
pub record Commit : Type 0 where
  pub queue : List (ℕ × ℕ)
  pub tree : Tree
  pub flag : LeafVectorUse

-- `CHECK(node->left_child); ... CHECK(node->left_child->parent == node); ...`
unfoldable pub check_children : List (Option BuilderNode) → ℕ → BuilderNode → Result (ℕ × ℕ)
check_children heap p node = do
  l ← elim node.left_child [
    | none ↦ err (check_failed "CommitModel: a test node lacks a left child")
    | some l ↦ ok l
  ]
  r ← elim node.right_child [
    | none ↦ err (check_failed "CommitModel: a test node lacks a right child")
    | some r ↦ ok r
  ]
  left ← deref heap l
  guard (same_pointer left.parent p) (check_failed "CommitModel: left child has wrong parent")
  right ← deref heap r
  guard (same_pointer right.parent p) (check_failed "CommitModel: right child has wrong parent")
  ok (l, r)

-- `Q.push({node->left_child, tree.LeftChild(nid)}); Q.push({node->right_child, ...});`
unfoldable pub push_children : ℕ × ℕ → ℕ → Tree → List (ℕ × ℕ) → LeafVectorUse → Result Commit
push_children children nid t queue flag = do
  cleft ← left_child t nid
  cright ← right_child t nid
  ok (record {
    queue = queue ++ (children.0, cleft) ∷ (children.1, cright) ∷ [];
    tree = t;
    flag = flag;
  })

-- The value or the vector of a leaf, by whether the vector is empty.
unfoldable pub commit_value :
    ℕ → List TlFloat → TlFloat → ℕ → Tree → List (ℕ × ℕ) → LeafVectorUse → Result Commit
commit_value num_output_group [] info nid t queue flag = do
  guard (elim flag [ every_leaf ↦ false | _ ↦ true ])
      (check_failed "CommitModel: Inconsistent use of leaf vector")
  t' ← set_leaf nid info t
  ok (record { queue = queue; tree = t'; flag = no_leaf })
commit_value num_output_group (x ∷ xs) info nid t queue flag = do
  guard (elim flag [ no_leaf ↦ false | _ ↦ true ])
      (check_failed "CommitModel: Inconsistent use of leaf vector")
  guard (length (x ∷ xs) == num_output_group) (
      check_failed
        "CommitModel: The length of leaf vector must be identical to the number of output groups")
  t' ← set_leaf_vector nid (x ∷ xs) t
  ok (record { queue = queue; tree = t'; flag = every_leaf })

-- A leaf of the builder.
unfoldable pub commit_leaf :
    ℕ → BuilderNode → ℕ → Tree → List (ℕ × ℕ) → LeafVectorUse → Result Commit
unfolding commit_value
commit_leaf num_output_group node nid t queue flag = do
  guard (is_null node.left_child && is_null node.right_child)
      (check_failed "CommitModel: a leaf node cannot have children")
  commit_value num_output_group node.leaf_vector node.info nid t queue flag

module _ (junk : Node) (num_output_group : ℕ) where
  -- The node at `p`, by its status.
  unfoldable pub commit_status :
      List (Option BuilderNode)
      → ℕ
      → BuilderNode
      → Status
      → ℕ
      → Tree
      → List (ℕ × ℕ)
      → LeafVectorUse
      → Result Commit
  unfolding check_children push_children commit_leaf
  commit_status heap p node empty_status nid t queue flag =
      err (check_failed "CommitModel: encountered an empty node in the middle of a tree")
  commit_status heap p node numerical_test nid t queue flag = do
    children ← check_children heap p node
    t₁ ← add_childs junk nid t
    t₂ ← set_numerical_split nid node.feature_id node.info node.default_left node.op t₁
    push_children children nid t₂ queue flag
  commit_status heap p node categorical_test nid t queue flag = do
    children ← check_children heap p node
    t₁ ← add_childs junk nid t
    t₂ ← set_categorical_split nid node.feature_id node.default_left false node.left_categories t₁
    push_children children nid t₂ queue flag
  commit_status heap p node leaf_status nid t queue flag =
      commit_leaf num_output_group node nid t queue flag

  -- One round of `while (!Q.empty())`, for the node at `p`.
  unfoldable pub commit_node :
      List (Option BuilderNode) → ℕ → ℕ → Tree → List (ℕ × ℕ) → LeafVectorUse → Result Commit
  unfolding deref commit_status
  commit_node heap p nid t queue flag = do
    node ← deref heap p
    commit_status heap p node node.status nid t queue flag

  -- The loop, with `fuel` rounds at most.
  unfoldable pub commit_queue :
      ℕ
      → List (Option BuilderNode)
      → List (ℕ × ℕ)
      → Tree
      → LeafVectorUse
      → Result (Tree × LeafVectorUse)
  commit_queue fuel heap [] t flag = ok (t, flag)
  commit_queue zero heap (entry ∷ queue) t flag = err out_of_fuel
  commit_queue (suc fuel) heap (entry ∷ queue) t flag = do
    c ← commit_node heap entry.0 entry.1 t queue flag
    commit_queue fuel heap c.queue c.tree c.flag

  unfoldable pub commit_tree : ℕ → TreeState → LeafVectorUse → Result (Tree × LeafVectorUse)
  commit_tree fuel s flag = do
    root ← elim s.root [
      | none ↦ err (check_failed "CommitModel: a tree has no root node")
      | some r ↦ ok r
    ]
    node ← deref s.heap root
    guard (not (is_empty node.status))
        (check_failed "SetRootNode: cannot set an empty node as root")
    t ← init junk (default_tree 0)
    commit_queue fuel s.heap ((root, 0) ∷ []) t flag

  unfoldable pub commit_trees :
      ℕ → List TreeState → LeafVectorUse → Result (List Tree × LeafVectorUse)
  commit_trees fuel [] flag = ok ([], flag)
  commit_trees fuel (s ∷ ss) flag = do
    (t, flag₁) ← commit_tree fuel s flag
    (ts, flag₂) ← commit_trees fuel ss flag₁
    ok (t ∷ ts, flag₂)

-- The checks on the number of trees and the kind of leaves.
unfoldable pub check_model : LeafVectorUse → ℕ → ModelState → Result (Unit {0})
check_model indeterminate n s =
    err (check_failed "Impossible thing happened: model has no leaf node!")
check_model every_leaf n s =
    guard s.random_forest_flag
      (check_failed "each leaf node must output a single floating-point value.")
check_model no_leaf n s =
    if ltb 1 s.num_output_group
    then (guard (not s.random_forest_flag) (check_failed "each leaf node must output a leaf vector")
        >> guard (n % s.num_output_group == 0) (
            check_failed
              "the number of trees must be evenly divisible by the number of output groups"))
    else ok tt

-- The `Model` that `CommitModel` fills.
pub record CommittedModel (P : Type 0) : Type 0 where
  pub trees : List Tree
  pub num_feature : ℕ
  pub num_output_group : ℕ
  pub random_forest_flag : Bool
  pub param : P

-- `CommitModel`. `init_param` is `InitParamAndCheck`, which reads the parameters with a library.
unfoldable pub commit_model :
    {P : Type 0}
    → (List (String × String) → Result P)
    → Node
    → ℕ
    → ModelState
    → Result (CommittedModel P)
commit_model init_param junk fuel s = do
  param ← init_param s.cfg
  (trees, flag) ← commit_trees junk s.num_output_group fuel s.trees indeterminate
  check_model flag (length s.trees) s
  ok (record {
    trees = trees;
    num_feature = s.num_feature;
    num_output_group = s.num_output_group;
    random_forest_flag = s.random_forest_flag;
    param = param;
  })
