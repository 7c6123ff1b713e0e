-- ===== src/Ast/Passes.antt =====
-- The passes over the whole syntax tree that keep its shape: src/compiler/ast/load_data_counts.cc,
-- is_categorical_array.cc, and `count_tu_nodes` of split.cc.
use treelite.Prelude.{
  ℕ, ◌+◌, Bool, true, false, ◌&&◌, List, some, Result, ok, err, ◌>>=◌, or_fault, fault, length,
  get_elem?, set, replicate, ltb, if◌then◌else◌,
}
use treelite.Ast.{
  AstNode, ast_node, Children, leaf, child, Kind, translation_unit_node, categorical_condition_node,
  Info,
}

-- `dynamic_cast<TranslationUnitNode*>(node) ? 1 : 0`
unfoldable pub is_tu : Kind → ℕ
is_tu (translation_unit_node unit_id) = 1
is_tu kind = 0

unfoldable mutual
  unfolding is_tu

  pub count_tu_nodes : AstNode → ℕ
  count_tu_nodes (ast_node kind info children) = is_tu kind + count_tu_children children

  pub count_tu_children : Children → ℕ
  count_tu_children leaf = 0
  count_tu_children (child n ns) = count_tu_nodes n + count_tu_children ns

-- `x >= 0` of an `int`
abbrev pub is_nonneg : ℕ → Bool
is_nonneg x = ltb x 0x8000_0000

-- `if (node->tree_id >= 0 && node->node_id >= 0) node->data_count = counts[tree_id][node_id];`
unfoldable pub load_count : List (List ℕ) → Info → Result Info
load_count counts info =
    if is_nonneg info.tree_id && is_nonneg info.node_id
    then (or_fault (get_elem? counts info.tree_id) >>= λ row.
        or_fault (get_elem? row info.node_id) >>= λ c. ok (record info { data_count = some c }))
    else ok info

unfoldable mutual
  pub load_data_counts : List (List ℕ) → AstNode → Result AstNode
  load_data_counts counts (ast_node kind info children) = do
    info' ← load_count counts info
    children' ← load_data_counts_children counts children
    ok (ast_node kind info' children')

  pub load_data_counts_children : List (List ℕ) → Children → Result Children
  load_data_counts_children counts leaf = ok leaf
  load_data_counts_children counts (child n ns) = do
    n' ← load_data_counts counts n
    ns' ← load_data_counts_children counts ns
    ok (child n' ns')

-- `(*is_categorical)[cat_cond->split_index] = true`
unfoldable pub mark : Kind → List Bool → Result (List Bool)
mark (categorical_condition_node c) flags =
    if ltb c.condition.split_index (length flags)
    then ok (set flags c.condition.split_index true)
    else err fault
mark kind flags = ok flags

unfoldable mutual
  pub mark_categorical : AstNode → List Bool → Result (List Bool)
  mark_categorical (ast_node kind info children) flags = do
    flags' ← mark kind flags
    mark_categorical_children children flags'

  pub mark_categorical_children : Children → List Bool → Result (List Bool)
  mark_categorical_children leaf flags = ok flags
  mark_categorical_children (child n ns) flags = do
    flags' ← mark_categorical n flags
    mark_categorical_children ns flags'

unfoldable pub generate_is_categorical_array : ℕ → AstNode → Result (List Bool)
generate_is_categorical_array num_feature main = mark_categorical main (replicate num_feature false)
