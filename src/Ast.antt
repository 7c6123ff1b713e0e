-- ===== src/Ast.antt =====
-- src/compiler/ast: the syntax tree from which the compiler writes C code. A node owns its children;
-- the pointer to its parent is the place where it stands. An `int` that is -1 is `minus_one`; a
-- `double` is its bit pattern.
pub mod Build
pub mod Passes
pub mod Core
pub mod Complete
pub mod DataCounts
pub mod Split
pub mod Quantize
pub mod Folding
use treelite.Prelude.{
  ℕ, Bool, List, [], ◌∷◌, Option, none, some, ◌≡◌, refl, ap, Result, ok, err, check_failed, ◌>>=◌,
  >>=-eq-ok, ok-injective, ◌∙◌,
}
use treelite.Base.{TlFloat, minus_one, Operator}

-- `union ThresholdVariant`
pub data ThresholdVariant : Type 0 where
  float_val : TlFloat → ThresholdVariant
  int_val : ℕ → ThresholdVariant

-- `class ConditionNode`
pub record Condition : Type 0 where
  pub split_index : ℕ
  pub default_left : Bool
  pub gain : Option ℕ

pub record Numerical : Type 0 where
  pub condition : Condition
  pub quantized : Bool
  pub op : Operator
  pub threshold : ThresholdVariant

pub record Categorical : Type 0 where
  pub condition : Condition
  pub left_categories : List ℕ
  pub convert_missing_to_zero : Bool

pub record Main : Type 0 where
  pub global_bias : TlFloat
  pub average_result : Bool
  pub num_tree : ℕ
  pub num_feature : ℕ

-- The subclasses of `ASTNode`, with their own fields.
pub data Kind : Type 0 where
  main_node : Main → Kind
  translation_unit_node : ℕ → Kind
  quantizer_node : List (List TlFloat) → Kind
  accumulator_context_node : Kind
  code_folder_node : Kind
  numerical_condition_node : Numerical → Kind
  categorical_condition_node : Categorical → Kind
  -- `is_vector` false and true
  scalar_output_node : TlFloat → Kind
  vector_output_node : List TlFloat → Kind

-- The other fields of `class ASTNode`.
pub record Info : Type 0 where
  pub node_id : ℕ
  pub tree_id : ℕ
  pub data_count : Option ℕ
  pub sum_hess : Option ℕ

mutual
  pub data AstNode : Type 0 where
    ast_node : Kind → Info → Children → AstNode

  pub data Children : Type 0 where
    leaf : Children
    child : AstNode → Children → Children

-- `ASTNode()`
abbrev pub new_info : Info
new_info = record { node_id = minus_one; tree_id = minus_one; data_count = none; sum_hess = none }

unfoldable pub to_children : List AstNode → Children
to_children [] = leaf
to_children (n ∷ ns) = child n (to_children ns)

unfoldable pub from_children : Children → List AstNode
from_children leaf = []
from_children (child n ns) = n ∷ from_children ns

pub from_children-to_children : (ns : List AstNode) → from_children (to_children ns) ≡ ns
unfolding from_children to_children
from_children-to_children [] = refl
from_children-to_children (n ∷ ns) = ap (◌∷◌ n) (from_children-to_children ns)

-- `AddNode<...>(parent, ...)` and the children pushed to it afterwards.
abbrev pub new_node : Kind → List AstNode → AstNode
new_node kind children = ast_node kind new_info (to_children children)

-- `CHECK_EQ(this->main_node->children.size(), 1); ... this->main_node->children[0]`
unfoldable pub only_child : Children → Result AstNode
only_child (child n leaf) = ok n
only_child ns = err (check_failed "this->main_node->children.size() == 1")

-- `CHECK(dynamic_cast<AccumulatorContextNode*>(top_ac_node))`
unfoldable pub as_accumulator : AstNode → Result (Info × Children)
as_accumulator (ast_node accumulator_context_node info trees) = ok (info, trees)
as_accumulator n = err (check_failed "dynamic_cast<AccumulatorContextNode*>(top_ac_node)")

unfoldable pub top_ac_node : Children → Result (Info × Children)
top_ac_node ns = do n ← only_child ns; as_accumulator n

only_child-ok : (ns : Children) (n : AstNode) → only_child ns ≡ ok n → ns ≡ child n leaf
unfolding only_child
only_child-ok leaf n h = cc
only_child-ok (child m leaf) n h = cc
only_child-ok (child m (child k ns)) n h = cc

as_accumulator-ok :
    (n : AstNode) (r : Info × Children)
    → as_accumulator n ≡ ok r
    → n ≡ ast_node accumulator_context_node r.0 r.1
unfolding as_accumulator
as_accumulator-ok (ast_node accumulator_context_node i ts) r h =
    ap (λ (r : Info × Children). ast_node accumulator_context_node r.0 r.1) (ok-injective h)
as_accumulator-ok (ast_node (main_node x) i ts) r h = cc
as_accumulator-ok (ast_node (translation_unit_node x) i ts) r h = cc
as_accumulator-ok (ast_node (quantizer_node x) i ts) r h = cc
as_accumulator-ok (ast_node code_folder_node i ts) r h = cc
as_accumulator-ok (ast_node (numerical_condition_node x) i ts) r h = cc
as_accumulator-ok (ast_node (categorical_condition_node x) i ts) r h = cc
as_accumulator-ok (ast_node (scalar_output_node x) i ts) r h = cc
as_accumulator-ok (ast_node (vector_output_node x) i ts) r h = cc

pub top_ac_node-ok :
    (ns : Children) (r : Info × Children)
    → top_ac_node ns ≡ ok r
    → ns ≡ child (ast_node accumulator_context_node r.0 r.1) leaf
unfolding top_ac_node
top_ac_node-ok ns r h =
    let (n, e, h') = >>=-eq-ok (only_child ns) as_accumulator h in
    only_child-ok ns n e ∙ ap (λ n. child n leaf) (as_accumulator-ok n r h')
