-- ===== src/Ast/Build.antt =====
-- src/compiler/ast/build.cc: the syntax tree of a model.
use treelite.Prelude.{
  ℕ, zero, suc, Bool, true, false, ◌&&◌, List, [], ◌∷◌, Option, none, some, Result, ok, err, ◌>>=◌,
  out_of_fuel, length, ltb, if◌then◌else◌,
}
use treelite.Base.{TlFloat, numerical}
use treelite.Tree.{Tree}
use treelite.Tree.Getters.{
  left_child, right_child, split_index, default_left, is_leaf, leaf_value, leaf_vector, threshold,
  comparison_op, split_type, left_categories, missing_category_to_zero, has_gain, gain,
  has_data_count, data_count, has_sum_hess, sum_hess,
}
use treelite.Ast.{
  AstNode, ast_node, Kind, Info, Condition, main_node, accumulator_context_node,
  numerical_condition_node, categorical_condition_node, scalar_output_node, vector_output_node,
  float_val, new_node, to_children,
}

-- `if (tree.HasX(nid)) node->x = tree.X(nid);` on an optional that is empty.
unfoldable pub when_present : Result Bool → Result ℕ → Result (Option ℕ)
when_present has value = has >>= λ b. if b then (value >>= λ x. ok (some x)) else ok none

unfoldable pub output_node : Tree → ℕ → Bool → Result Kind
output_node t nid output_vector_flag =
    if output_vector_flag
    then (leaf_vector t nid >>= λ v. ok (vector_output_node v))
    else (leaf_value t nid >>= λ v. ok (scalar_output_node v))

unfoldable pub condition_node : Tree → ℕ → Result Kind
unfolding when_present
condition_node t nid = do
  type ← split_type t nid
  index ← split_index t nid
  default ← default_left t nid
  g ← when_present (has_gain t nid) (gain t nid)
  let condition : Condition = record { split_index = index; default_left = default; gain = g }
  elim type [
    | numerical ↦ do
      op ← comparison_op t nid
      th ← threshold t nid
      ok (
          numerical_condition_node (record {
            condition = condition;
            quantized = false;
            op = op;
            threshold = float_val th;
          }))
    | _ ↦ do
      categories ← left_categories t nid
      to_zero ← missing_category_to_zero t nid
      ok (
          categorical_condition_node (record {
            condition = condition;
            left_categories = categories;
            convert_missing_to_zero = to_zero;
          }))
  ]

unfoldable pub node_info : Tree → ℕ → ℕ → Result Info
unfolding when_present
node_info t tree_id nid = do
  count ← when_present (has_data_count t nid) (data_count t nid)
  hess ← when_present (has_sum_hess t nid) (sum_hess t nid)
  ok (record { node_id = nid; tree_id = tree_id; data_count = count; sum_hess = hess })

-- `BuildASTFromTree(tree, tree_id, nid, parent)`; a path has no more nodes than the tree.
unfoldable pub build_ast_from_tree : Bool → Tree → ℕ → ℕ → ℕ → Result AstNode
build_ast_from_tree vector t tree_id zero nid = err out_of_fuel
build_ast_from_tree vector t tree_id (suc fuel) nid = do
  info ← node_info t tree_id nid
  at_leaf ← is_leaf t nid
  elim at_leaf [
    | true ↦ do kind ← output_node t nid vector; ok (ast_node kind info (to_children []))
    | false ↦ do
      kind ← condition_node t nid
      cleft ← left_child t nid
      cright ← right_child t nid
      left ← build_ast_from_tree vector t tree_id fuel cleft
      right ← build_ast_from_tree vector t tree_id fuel cright
      ok (ast_node kind info (to_children (left ∷ right ∷ [])))
  ]

-- The fields of `class Model` that the builder reads.
pub record Model : Type 0 where
  pub trees : List Tree
  pub num_feature : ℕ
  pub num_output_group : ℕ
  pub random_forest_flag : Bool
  pub global_bias : TlFloat

-- The loop over the trees, from number `tree_id`.
unfoldable pub build_trees : Bool → ℕ → List Tree → Result (List AstNode)
build_trees vector tree_id [] = ok []
build_trees vector tree_id (t ∷ ts) = do
  head ← build_ast_from_tree vector t tree_id (suc t.num_nodes) 0
  heads ← build_trees vector (suc tree_id) ts
  ok (head ∷ heads)

unfoldable pub build_ast : Model → Result AstNode
build_ast model = do
  let vector = ltb 1 model.num_output_group && model.random_forest_flag
  heads ← build_trees vector 0 model.trees
  ok (
      new_node
        (main_node (record {
          global_bias = model.global_bias;
          average_result = model.random_forest_flag;
          num_tree = length model.trees;
          num_feature = model.num_feature;
        }))
        (new_node accumulator_context_node heads ∷ []))
