-- ===== src/Ast/Core.antt =====
-- What the compiler's passes over the syntax tree must keep: the nodes that compute something, in
-- the order in which the code is written.
use treelite.Prelude.{List, [], ◌∷◌, ◌++◌, ◌≡◌, refl, sym, ap, ◌∙◌}
use treelite.Ast.{
  AstNode, ast_node, Children, leaf, child, Kind, Info, translation_unit_node,
  accumulator_context_node, code_folder_node, to_children, from_children,
}
use mathlib.Core.List.{append_assoc}

-- Units, accumulator contexts and folders only say where the code of their children goes.
unfoldable pub own_core : Kind → Info → List (Kind × Info)
own_core (translation_unit_node u) info = []
own_core accumulator_context_node info = []
own_core code_folder_node info = []
own_core kind info = (kind, info) ∷ []

unfoldable mutual
  unfolding own_core

  pub core_nodes : AstNode → List (Kind × Info)
  core_nodes (ast_node kind info children) = own_core kind info ++ core_children children

  pub core_children : Children → List (Kind × Info)
  core_children leaf = []
  core_children (child n ns) = core_nodes n ++ core_children ns

unfoldable pub core_list : List AstNode → List (Kind × Info)
unfolding core_nodes
core_list [] = []
core_list (n ∷ ns) = core_nodes n ++ core_list ns

pub core_children-to_children : (ns : List AstNode) → core_children (to_children ns) ≡ core_list ns
unfolding to_children core_list core_children
core_children-to_children [] = refl
core_children-to_children (n ∷ ns) = ap (λ r. core_nodes n ++ r) (core_children-to_children ns)

pub core_list-from_children : (ns : Children) → core_list (from_children ns) ≡ core_children ns
unfolding from_children core_list core_children
core_list-from_children leaf = refl
core_list-from_children (child n ns) = ap (λ r. core_nodes n ++ r) (core_list-from_children ns)

pub core_list-append : (xs ys : List AstNode) → core_list (xs ++ ys) ≡ core_list xs ++ core_list ys
unfolding core_list
core_list-append [] ys = refl
core_list-append (x ∷ xs) ys =
    ap (λ r. core_nodes x ++ r) (core_list-append xs ys)
    ∙ sym (append_assoc (core_nodes x) (core_list xs) (core_list ys))
