-- ===== src/Ast/DataCounts.antt =====
-- `LoadDataCounts` on the syntax tree of one tree.
use treelite.Prelude.{
  ℕ, ◌≤◌, ◌<◌, ◌≡◌, refl, ap, ◌∙◌, arith, List, some, ok, length, get_elem?, get_elem?-lt, lt→ltb,
}
use treelite.Ast.{AstNode, ast_node, Children, leaf, child, Info}
use treelite.Ast.Passes.{load_count, load_data_counts, load_data_counts_children}

unfoldable mutual
  -- Every node has the id of the tree, and the id of one of its `n` nodes.
  pub NodesOf : ℕ → ℕ → AstNode → Type 0
  NodesOf n tree_id (ast_node kind info children) =
      (info.tree_id ≡ tree_id) × (info.node_id < n) × ChildrenOf n tree_id children

  pub ChildrenOf : ℕ → ℕ → Children → Type 0
  ChildrenOf n tree_id leaf = Unit
  ChildrenOf n tree_id (child c cs) = NodesOf n tree_id c × ChildrenOf n tree_id cs

mutual
  -- The count of every node is the entry of the row for its id.
  pub CountsOf : List ℕ → AstNode → Type 0
  CountsOf row (ast_node kind info children) =
      (info.data_count ≡ get_elem? row info.node_id) × CountsOfChildren row children

  pub CountsOfChildren : List ℕ → Children → Type 0
  CountsOfChildren row leaf = Unit
  CountsOfChildren row (child n ns) = CountsOf row n × CountsOfChildren row ns

load_count-ok :
    (counts : List (List ℕ)) (row : List ℕ) (info : Info)
    → get_elem? counts info.tree_id ≡ some row
    → info.tree_id < 0x8000_0000
    → info.node_id < length row
    → length row ≤ 0x8000_0000
    → load_count counts info ≡ ok (record info { data_count = get_elem? row info.node_id })
unfolding load_count
load_count-ok counts row info e t l small =
    let (c, ec) = get_elem?-lt row info.node_id l in
    let a = lt→ltb info.tree_id 0x8000_0000 t in
    let b = lt→ltb info.node_id 0x8000_0000 (omega arith) in simp (a, b, e, ec)

mutual
  unfolding load_data_counts CountsOf NodesOf

  node-CountsOf :
      (counts : List (List ℕ)) (row : List ℕ) (tree_id n : ℕ) (ast : AstNode)
      → get_elem? counts tree_id ≡ some row
      → tree_id < 0x8000_0000
      → n ≤ length row
      → length row ≤ 0x8000_0000
      → NodesOf n tree_id ast
      → (loaded : AstNode) × (load_data_counts counts ast ≡ ok loaded) × CountsOf row loaded
  node-CountsOf counts row tree_id n (ast_node kind info children) e t l small (id, inside, kids) =
      let e' : get_elem? counts info.tree_id ≡ some row = ap (get_elem? counts) id ∙ e in
      let loaded =
        load_count-ok counts row info e' (omega (arith, id, t)) (omega (arith, inside, l)) small in
      let (children', r, c) = children-CountsOf counts row tree_id n children e t l small kids in
      (
        ast_node kind (record info { data_count = get_elem? row info.node_id }) children',
        simp (loaded, r),
        (refl, c),
      )

  children-CountsOf :
      (counts : List (List ℕ)) (row : List ℕ) (tree_id n : ℕ) (children : Children)
      → get_elem? counts tree_id ≡ some row
      → tree_id < 0x8000_0000
      → n ≤ length row
      → length row ≤ 0x8000_0000
      → ChildrenOf n tree_id children
      → (loaded : Children) × (load_data_counts_children counts children ≡ ok loaded)
        × CountsOfChildren row loaded
  children-CountsOf counts row tree_id n leaf e t l small kids = (leaf, refl, tt)
  children-CountsOf counts row tree_id n (child c cs) e t l small (first, rest) =
      let (c', r, p) = node-CountsOf counts row tree_id n c e t l small first in
      let (cs', r', p') = children-CountsOf counts row tree_id n cs e t l small rest in
      (child c' cs', simp (r, r'), (p, p'))

-- On a syntax tree whose nodes stand for the nodes of one tree, with a tree number below 2 ^ 31
-- and a row of at most 2 ^ 31 counts that has an entry for each of them, `LoadDataCounts` succeeds
-- and gives every node its count.
pub load_data_counts-CountsOf :
    (counts : List (List ℕ)) (row : List ℕ) (tree_id n : ℕ) (ast : AstNode)
    → get_elem? counts tree_id ≡ some row
    → tree_id < 0x8000_0000
    → n ≤ length row
    → length row ≤ 0x8000_0000
    → NodesOf n tree_id ast
    → (loaded : AstNode) × (load_data_counts counts ast ≡ ok loaded) × CountsOf row loaded
load_data_counts-CountsOf = node-CountsOf
