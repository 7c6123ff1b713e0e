-- ===== src/Tree/Invariant.antt =====
-- The invariant of a tree, and single nodes that are read and replaced.
use treelite.Prelude.{
  ℕ, ◌+◌, ◌≤◌, ◌<◌, ◌≡◌, refl, ◌∙◌, ◌⊎◌, inl, inr, List, ok, some, length, get_elem?, set,
  length-set, get_elem?-set, get_elem?-lt, lt→ltb,
}
use treelite.Base.{minus_one, int_max}
use treelite.ContiguousArray.{ContiguousArray, at, assign}
use treelite.ContiguousArray.Growth.{Holds}
use treelite.Tree.{Node, Tree, modify_node}
use treelite.Tree.Offsets.{Climbs}

-- A node is a leaf, or its children come after it in the array.
abbrev pub ChildrenOk : ℕ → ℕ → Node → Type 0
ChildrenOk n i node =
    (node.cleft ≡ minus_one)
    ⊎ ((i < node.cleft) × (node.cleft < n) × (i < node.cright) × (node.cright < n))

abbrev pub AllChildrenOk : ℕ → List Node → Type 0
AllChildrenOk n nodes = (i : ℕ) (node : Node) → get_elem? nodes i ≡ some node → ChildrenOk n i node

pub record IsValid (t : Tree) : Type 0 where
  pub nodes_held : Holds t.nodes.items t.nodes
  pub leaf_held : Holds t.leaf_vector.items t.leaf_vector
  pub leaf_offset_held : Holds t.leaf_vector_offset.items t.leaf_vector_offset
  pub categories_held : Holds t.left_categories.items t.left_categories
  pub categories_offset_held : Holds t.left_categories_offset.items t.left_categories_offset
  pub counted : length t.nodes.items ≡ t.num_nodes
  pub positive : 0 < t.num_nodes
  pub in_int : t.num_nodes ≤ int_max
  pub leaf_offsets : length t.leaf_vector_offset.items ≡ t.num_nodes + 1
  pub categories_offsets : length t.left_categories_offset.items ≡ t.num_nodes + 1
  pub leaf_climbs : Climbs 0 t.leaf_vector_offset.items (length t.leaf_vector.items)
  pub categories_climbs : Climbs 0 t.left_categories_offset.items (length t.left_categories.items)
  pub children : AllChildrenOk t.num_nodes t.nodes.items

-- An array holds its own elements.
pub Holds-self : {A : Type 0} (xs : List A) (a : ContiguousArray A) → Holds xs a → Holds a.items a
Holds-self xs a h = record { same = refl; owned = h.owned; fits = rw h.same h.fits }

abbrev pub with_node : Tree → ℕ → Node → Tree
with_node t nid node = record t { nodes = record t.nodes { items = set t.nodes.items nid node } }

-- On a node that exists, a setter reads the node and writes the new one.
pub modify_node-with_node :
    (t : Tree) (nid : ℕ) (f : Node → Node)
    → nid < length t.nodes.items
    → (node : Node) × (get_elem? t.nodes.items nid ≡ some node)
      × (modify_node t nid f ≡ ok (with_node t nid (f node)))
unfolding modify_node at assign
modify_node-with_node t nid f h =
    let (node, e) = get_elem?-lt t.nodes.items nid h in
    (node, e, simp (e, lt→ltb nid (length t.nodes.items) h))

pub with_node-IsValid :
    (t : Tree) (nid : ℕ) (node : Node)
    → IsValid t
    → ChildrenOk t.num_nodes nid node
    → IsValid (with_node t nid node)
with_node-IsValid t nid node v ok_node = record {
  nodes_held = record {
    same = refl;
    owned = v.nodes_held.owned;
    fits = rw (length-set t.nodes.items nid node) v.nodes_held.fits;
  };
  leaf_held = v.leaf_held;
  leaf_offset_held = v.leaf_offset_held;
  categories_held = v.categories_held;
  categories_offset_held = v.categories_offset_held;
  counted = length-set t.nodes.items nid node ∙ v.counted;
  positive = v.positive;
  in_int = v.in_int;
  leaf_offsets = v.leaf_offsets;
  categories_offsets = v.categories_offsets;
  leaf_climbs = v.leaf_climbs;
  categories_climbs = v.categories_climbs;
  children = written;
}
  where
    written : AllChildrenOk t.num_nodes (set t.nodes.items nid node)
    written i other e = elim (get_elem?-set t.nodes.items nid i node other e) [
      | inl p ↦ rw (← p.0, p.1) ok_node
      | inr p ↦ v.children i other p.1
    ]
