-- ===== src/Ast/Folding.antt =====
-- src/compiler/ast/fold_code.cc: subtrees that few rows reach go under code folder nodes. The
-- operations of `double` that it uses are arguments.
pub mod Unfolded
use treelite.Prelude.{
  ℕ, ◌+◌, Bool, true, false, not, ◌&&◌, ◌||◌, List, [], ◌∷◌, Option, none, some, Result, ok, err,
  ◌>>=◌, ◌>>◌, guard, fault, ◌==◌, if◌then◌else◌,
}
use treelite.Ast.{
  AstNode, ast_node, Children, leaf, child, Kind, Info, accumulator_context_node,
  translation_unit_node, code_folder_node, new_node,
}
use treelite.Ast.Passes.{count_tu_nodes}

-- `std::log`, `std::isnan`, subtraction and comparison of doubles, and `quiet_NaN()`
pub record DoubleOps : Type 0 where
  pub log_of_size : ℕ → ℕ
  pub log : ℕ → ℕ
  pub double_is_nan : ℕ → Bool
  pub sub : ℕ → ℕ → ℕ
  pub double_ge : ℕ → ℕ → Bool
  pub quiet_nan : ℕ

pub record CodeFoldingContext : Type 0 where
  pub log_root_data_count : ℕ
  pub log_root_sum_hess : ℕ
  pub num_tu : ℕ

module _ (ops : DoubleOps) (magnitude_req : ℕ) (create_new_translation_unit : Bool) where
  -- `if (x) context->log_root = std::log(x.value()); else context->log_root = quiet_NaN();`
  abbrev pub log_or_nan : (ℕ → ℕ) → Option ℕ → ℕ
  log_or_nan log none = ops.quiet_nan
  log_or_nan log (some x) = log x

  unfoldable pub enter_node : Info → CodeFoldingContext → CodeFoldingContext
  enter_node info context =
      if info.node_id == 0
      then record context {
        log_root_data_count = log_or_nan ops.log_of_size info.data_count;
        log_root_sum_hess = log_or_nan ops.log info.sum_hess;
      }
      else context

  -- `x && !std::isnan(log_root) && log_root - std::log(x.value()) >= magnitude_req`
  abbrev pub is_rare : (ℕ → ℕ) → Option ℕ → ℕ → Bool
  is_rare log none log_root = false
  is_rare log (some x) log_root =
      not (ops.double_is_nan log_root) && ops.double_ge (ops.sub log_root (log x)) magnitude_req

  unfoldable pub should_fold : Info → CodeFoldingContext → Bool
  should_fold info context =
      is_rare ops.log_of_size info.data_count context.log_root_data_count
      || is_rare ops.log info.sum_hess context.log_root_sum_hess

  -- What takes the place of `node` under its parent.
  unfoldable pub fold_node : AstNode → CodeFoldingContext → AstNode × CodeFoldingContext
  fold_node node context =
      let folder_node = new_node code_folder_node (node ∷ []) in
      if create_new_translation_unit
      then (let ac = new_node accumulator_context_node (folder_node ∷ []) in
          (
            new_node (translation_unit_node context.num_tu) (ac ∷ []),
            record context { num_tu = context.num_tu + 1 },
          ))
      else (folder_node, context)

  unfoldable mutual
    unfolding enter_node should_fold fold_node

    -- `fold_code` of a node with a parent; the node that comes back stands in its place.
    pub fold_code : AstNode → CodeFoldingContext → AstNode × Bool × CodeFoldingContext
    fold_code (ast_node kind info children) context =
        let context₁ = enter_node info context in
        let (folded, context₂) = fold_node (ast_node kind info children) context₁ in
        let (children', any, context₃) = fold_children children context₁ in
        if should_fold info context₁
        then (folded, true, context₂)
        else (ast_node kind info children', any, context₃)

    pub fold_children : Children → CodeFoldingContext → Children × Bool × CodeFoldingContext
    fold_children leaf context = (leaf, false, context)
    fold_children (child n ns) context =
        let (n', folded, context₁) = fold_code n context in
        let (ns', any, context₂) = fold_children ns context₁ in
        (child n' ns', folded || any, context₂)

  -- `FoldCode` starts at the main node, which has no parent to hang a folder under.
  unfoldable pub fold_main : AstNode → Result (AstNode × Bool)
  unfolding enter_node should_fold
  fold_main (ast_node kind info children) =
      let start : CodeFoldingContext = record {
        log_root_data_count = ops.quiet_nan;
        log_root_sum_hess = ops.quiet_nan;
        num_tu = count_tu_nodes (ast_node kind info children);
      } in
      let context = enter_node info start in
      let (children', any, _) = fold_children children context in
      guard (not (should_fold info context)) fault >> ok (ast_node kind info children', any)
