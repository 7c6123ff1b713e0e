-- ===== src/Ast/Split/Groups.antt =====
-- How `Split` divides the trees: the translation units it makes have all trees, each once and in order.
use treelite.Prelude.{ℕ, ◌+◌, ◌*◌, ◌≤◌, ◌<◌, List, [], ◌∷◌, ◌++◌, All, ◌≡◌, length, drop}
use treelite.Ast.{
  AstNode, ast_node, leaf, child, Kind, Info, to_children, new_node, translation_unit_node,
  accumulator_context_node,
}
use treelite.Ast.Passes.{count_tu_nodes}
use treelite.Ast.Split.{make_units}

pub concat : List (List AstNode) → List AstNode
concat [] = []
concat (group ∷ groups) = group ++ concat groups

-- A translation unit for each group of trees, numbered from `first` on.
pub units_from : ℕ → List (List AstNode) → List AstNode
units_from first [] = []
units_from first (group ∷ groups) =
    new_node (translation_unit_node first) (new_node accumulator_context_node group ∷ [])
    ∷ units_from (first + 1) groups

-- The main node has one accumulator context with the trees before, and one with a translation unit for
-- each of some groups after. The groups make up the trees, are not empty, and are `n` at most. Their
-- numbers begin at the number of units that there were.
pub record Divided (n : ℕ) (main main' : AstNode) : Type 0 where
  pub kind : Kind
  pub info : Info
  pub top : Info
  pub heads : List AstNode
  pub groups : List (List AstNode)
  pub was :
      main
      ≡ ast_node kind info (child (ast_node accumulator_context_node top (to_children heads)) leaf)
  pub becomes :
      main'
      ≡ ast_node kind info (
          child
            (ast_node accumulator_context_node top
              (to_children (units_from (count_tu_nodes main) groups)))
            leaf)
  pub parts : concat groups ≡ heads
  pub filled : All (λ group. 0 < length group) groups
  pub few : length groups ≤ n

-- The groups of the units from `id` on.
record Grouped (us tu : ℕ) (heads : List AstNode) (n id : ℕ) : Type 0 where
  groups : List (List AstNode)
  made : make_units us tu heads n id ≡ units_from (tu + id) groups
  parts : concat groups ≡ drop (id * us) heads
  filled : All (λ group. 0 < length group) groups
  few : length groups ≤ n
