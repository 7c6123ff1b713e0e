-- ===== src/Tree/Leaves.antt =====
-- `Init`, `SetLeaf` and `SetLeafVector`.
use treelite.Prelude.{
  ℕ, zero, suc, ◌<◌, ◌≡◌, refl, arith, true, inl, [], ◌∷◌, ok, some, get_elem?, get_elem?-set_self,
}
use treelite.Base.{TlFloat, minus_one, no_split}
use treelite.ContiguousArray.{at, clear, resize_fill, resize, reserve, grown_capacity, assign}
use treelite.Tree.{Node, Tree, modify_node, set_leaf, init, default_tree, node_init}
use treelite.Tree.Getters.{split_type, is_leaf, leaf_value}
use treelite.Tree.Invariant.{
  ChildrenOk, IsValid, with_node, modify_node-with_node, with_node-IsValid,
}
use treelite.Tree.Splits.{OthersKept, with_node-OthersKept}

-- The tree of one leaf that `Init` makes of a default-constructed tree.
abbrev pub one_leaf : Tree
one_leaf = record {
  nodes = record { items = record node_init { info = 0 } ∷ []; capacity = 2; owned_buffer = true };
  leaf_vector = record { items = []; capacity = 0; owned_buffer = true };
  leaf_vector_offset = record { items = 0 ∷ 0 ∷ []; capacity = 4; owned_buffer = true };
  left_categories = record { items = []; capacity = 0; owned_buffer = true };
  left_categories_offset = record { items = 0 ∷ 0 ∷ []; capacity = 4; owned_buffer = true };
  num_nodes = 1;
}

-- `Init` of a default-constructed tree gives one leaf of value 0, whatever memory held.
pub init-default_tree : (junk : Node) (num : ℕ) → init junk (default_tree num) ≡ ok one_leaf
unfolding init default_tree set_leaf modify_node clear resize_fill resize reserve grown_capacity
    assign at
init-default_tree junk num = refl

pub one_leaf-IsValid : IsValid one_leaf
one_leaf-IsValid = record {
  nodes_held = record { same = refl; owned = refl; fits = omega arith };
  leaf_held = record { same = refl; owned = refl; fits = omega arith };
  leaf_offset_held = record { same = refl; owned = refl; fits = omega arith };
  categories_held = record { same = refl; owned = refl; fits = omega arith };
  categories_offset_held = record { same = refl; owned = refl; fits = omega arith };
  counted = refl;
  positive = omega arith;
  in_int = omega arith;
  leaf_offsets = refl;
  categories_offsets = refl;
  leaf_climbs = omega arith;
  categories_climbs = omega arith;
  children = λ i node e. single i node e;
}
  where
    single :
        (i : ℕ) (node : Node) → get_elem? one_leaf.nodes.items i ≡ some node → ChildrenOk 1 i node
    single zero node e = inl (ground arith)
    single (suc i) node e = cc

-- What the getters say after `SetLeaf`.
pub record LeafSet (t : Tree) (nid : ℕ) (value : TlFloat) (u : Tree) : Type 0 where
  pub leaf : is_leaf u nid ≡ ok true
  pub with_value : leaf_value u nid ≡ ok value
  pub of_type : split_type u nid ≡ ok no_split
  pub others : OthersKept t nid u
  pub same_categories : u.left_categories ≡ t.left_categories
  pub same_offsets : u.left_categories_offset ≡ t.left_categories_offset
  pub same_count : u.num_nodes ≡ t.num_nodes

-- On a node of a valid tree `SetLeaf` succeeds, keeps the invariant, and makes that node a leaf with
-- the value; the other nodes stay.
pub set_leaf-IsValid :
    (nid : ℕ) (value : TlFloat) (t : Tree)
    → IsValid t
    → nid < t.num_nodes
    → (u : Tree) × (set_leaf nid value t ≡ ok u) × IsValid u × LeafSet t nid value u
unfolding set_leaf is_leaf leaf_value split_type at
set_leaf-IsValid nid value t v inside =
    let (node, was, e) =
      modify_node-with_node t nid
        (λ node. record node {
          info = value;
          cleft = minus_one;
          cright = minus_one;
          split_type = no_split;
        })
        (omega (arith, v.counted)) in
    let node' = record node {
      info = value;
      cleft = minus_one;
      cright = minus_one;
      split_type = no_split;
    } in
    let now = get_elem?-set_self t.nodes.items nid node' (omega (arith, v.counted)) in
    (
      with_node t nid node',
      e,
      with_node-IsValid t nid node' v (inl refl),
      record {
        leaf = rw now refl;
        with_value = rw now refl;
        of_type = rw now refl;
        others = with_node-OthersKept t nid node';
        same_categories = refl;
        same_offsets = refl;
        same_count = refl;
      },
    )
