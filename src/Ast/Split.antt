-- ===== src/Ast/Split.antt =====
-- src/compiler/ast/split.cc: the trees of the model go into translation units.
pub mod Units
pub mod Groups
use treelite.Prelude.{
  ℕ, zero, suc, ◌+◌, ◌-◌, ◌*◌, ◌/◌, Bool, true, false, ◌&&◌, ◌||◌, List, [], ◌∷◌, ◌++◌, Result, ok,
  err, ◌>>=◌, ◌>>◌, guard, fault, check_failed, length, take, drop, min, ltb, ◌==◌, if◌then◌else◌,
}
use treelite.Ast.{
  AstNode, ast_node, Children, leaf, child, Kind, Info, accumulator_context_node,
  translation_unit_node, numerical_condition_node, categorical_condition_node, scalar_output_node,
  vector_output_node, code_folder_node, new_node, to_children, from_children, top_ac_node,
}
use treelite.Ast.Passes.{count_tu_nodes}

-- `dynamic_cast<ConditionNode*>(node) || dynamic_cast<OutputNode*>(node) || ...`
unfoldable pub is_tree_head : AstNode → Bool
is_tree_head (ast_node (numerical_condition_node c) info ns) = true
is_tree_head (ast_node (categorical_condition_node c) info ns) = true
is_tree_head (ast_node (scalar_output_node v) info ns) = true
is_tree_head (ast_node (vector_output_node v) info ns) = true
is_tree_head (ast_node code_folder_node info ns) = true
is_tree_head n = false

-- `for (ASTNode* node : top_ac_node->children) { CHECK(...); tree_head.push_back(node); }`
unfoldable pub all_tree_heads : List AstNode → Bool
unfolding is_tree_head
all_tree_heads [] = true
all_tree_heads (n ∷ ns) = is_tree_head n && all_tree_heads ns

-- The units from `unit_id` on, with `n` of them left.
unfoldable pub make_units : ℕ → ℕ → List AstNode → ℕ → ℕ → List AstNode
make_units unit_size current_num_tu tree_head zero unit_id = []
make_units unit_size current_num_tu tree_head (suc n) unit_id =
    let ntree = length tree_head in
    let tree_begin = unit_id * unit_size in
    let tree_end = min ((unit_id + 1) * unit_size) ntree in
    let rest = make_units unit_size current_num_tu tree_head n (suc unit_id) in
    let trees = take (tree_end - tree_begin) (drop tree_begin tree_head) in
    let ac = new_node accumulator_context_node trees in
    let tu = new_node (translation_unit_node (current_num_tu + unit_id)) (ac ∷ []) in
    if ltb tree_begin tree_end then tu ∷ rest else rest

-- `Split(parallel_comp)` of the main node, for a positive `parallel_comp`; otherwise it only logs.
unfoldable pub split : ℕ → AstNode → Result AstNode
split zero main = ok main
split (suc p) (ast_node kind info children) = do
  (i, trees) ← top_ac_node children
  let tree_head = from_children trees
  guard (all_tree_heads tree_head)
      (check_failed "dynamic_cast<ConditionNode*>(node) || dynamic_cast<OutputNode*>(node)")
  let unit_size = (length tree_head + suc p - 1) / suc p
  let current_num_tu = count_tu_nodes (ast_node kind info children)
  let tu_list = make_units unit_size current_num_tu tree_head (suc p) 0
  ok (ast_node kind info (child (ast_node accumulator_context_node i (to_children tu_list)) leaf))
