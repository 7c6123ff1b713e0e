-- ===== src/Examples/Trees.antt =====
-- Small trees: one leaf, and a test of feature 0 against 1.0 with two leaves.
use treelite.Prelude.{
  ℕ, zero, suc, ◌+◌, ◌≡◌, ◌≢◌, inl, inr, refl, arith, true, false, [], ◌∷◌, some, ok, err, fault,
  get_elem?,
}
use treelite.Base.{float_to_uint32, minus_one, lt, numerical}
use treelite.ContiguousArray.{ContiguousArray, size, at}
use treelite.ContiguousArray.Growth.{Holds}
use treelite.Tree.{Tree, Node, node_init, add_childs}
use treelite.Tree.Getters.{leaf_vector, has_leaf_vector, left_categories, split_index_of, slice}
use treelite.Tree.Setters.{set_categorical_split, set_leaf_vector, all_equal}
use treelite.Tree.Invariant.{IsValid, AllChildrenOk}
use treelite.Tree.Leaves.{one_leaf, one_leaf-IsValid}
use treelite.Tree.LeafVectors.{set_leaf_vector-IsValid, LeafVectorSet}
use treelite.Tree.Categories.{set_categorical_split-IsValid, CategoricalSplit}
use treelite.Tree.AddChilds.{add_childs-IsValid, Grown}
use treelite.Tree.Refusals.{slice_getters-past_end}
use treelite.Annotator.Categories.{elem, test_node-set_categorical_split}
use treelite.Annotator.{Entry, test_node}
use treelite.Annotator.Branch.{Fits, Testable}
use treelite.Ast.{AstNode}
use treelite.Ast.Build.{build_ast_from_tree}
use treelite.Ast.Complete.{StandsFor, build_ast_from_tree-StandsFor}

abbrev test_root : Node
test_root = record node_init {
  cleft = 1;
  cright = 2;
  info = 0x3f80_0000;
  cmp = lt;
  split_type = numerical;
}

abbrev offsets : ContiguousArray ℕ
offsets = record { items = 0 ∷ 0 ∷ 0 ∷ 0 ∷ []; capacity = 4; owned_buffer = true }

abbrev pub stump : Tree
stump = record {
  nodes = record {
    items = test_root ∷ node_init ∷ node_init ∷ [];
    capacity = 4;
    owned_buffer = true;
  };
  leaf_vector = record { items = []; capacity = 0; owned_buffer = true };
  leaf_vector_offset = offsets;
  left_categories = record { items = []; capacity = 0; owned_buffer = true };
  left_categories_offset = offsets;
  num_nodes = 3;
}

stump_children : AllChildrenOk 3 stump.nodes.items
stump_children zero node e =
    let same : test_root ≡ node = cc in
    rw (← same) (inr (omega arith, omega arith, omega arith, omega arith))
stump_children (suc zero) node e = let same : node_init ≡ node = cc in rw (← same) (inl refl)
stump_children (suc (suc zero)) node e = let same : node_init ≡ node = cc in rw (← same) (inl refl)
stump_children (suc (suc (suc i))) node e = cc

pub stump-IsValid : IsValid stump
stump-IsValid = record {
  nodes_held = record { same = refl; owned = refl; fits = omega arith };
  leaf_held = record { same = refl; owned = refl; fits = omega arith };
  leaf_offset_held = record { same = refl; owned = refl; fits = omega arith };
  categories_held = record { same = refl; owned = refl; fits = omega arith };
  categories_offset_held = record { same = refl; owned = refl; fits = omega arith };
  counted = refl;
  positive = omega arith;
  in_int = omega arith;
  leaf_offsets = refl;
  categories_offsets = refl;
  leaf_climbs = (omega arith, (omega arith, (omega arith, (omega arith, refl))));
  categories_climbs = (omega arith, (omega arith, (omega arith, (omega arith, refl))));
  children = stump_children;
}

-- A row whose feature 0 is 0.5.
pub stump-Fits : Fits stump (0x3f00_0000 ∷ []) 0
stump-Fits = record { entry = fits }
  where
    fits :
        (i : ℕ) (node : Node)
        → get_elem? stump.nodes.items i ≡ some node
        → node.cleft ≢ minus_one
        → (e : Entry) × (get_elem? (0x3f00_0000 ∷ []) (0 + split_index_of node.sindex) ≡ some e)
          × Testable node e
    fits zero node e ne =
        let same : test_root ≡ node = cc in rw (← same) (0x3f00_0000, refl, inl (refl, λ c. cc))
    fits (suc zero) node e ne = let same : node_init ≡ node = cc in absurd (ne (rw (← same) refl))
    fits (suc (suc zero)) node e ne =
        let same : node_init ≡ node = cc in absurd (ne (rw (← same) refl))
    fits (suc (suc (suc i))) node e ne = cc

add_childs-IsValid_example :
    (u : Tree) × (add_childs node_init 0 one_leaf ≡ ok u) × IsValid u × Grown one_leaf 0 u
add_childs-IsValid_example =
    add_childs-IsValid node_init 0 one_leaf one_leaf-IsValid (omega arith) (omega arith)

set_categorical_split-IsValid_example :
    (u : Tree) × (set_categorical_split 0 3 true false (9 ∷ 4 ∷ []) stump ≡ ok u)
    × IsValid u
    × CategoricalSplit stump 0 3 true false (9 ∷ 4 ∷ []) u
unfolding all_equal
set_categorical_split-IsValid_example =
    set_categorical_split-IsValid 0 3 true false (9 ∷ 4 ∷ []) stump stump-IsValid (omega arith)
      (omega arith) refl (omega arith)

set_leaf_vector-IsValid_example :
    (u : Tree) × (set_leaf_vector 1 (8 ∷ 6 ∷ []) stump ≡ ok u)
    × IsValid u
    × LeafVectorSet stump 1 (8 ∷ 6 ∷ []) u
unfolding all_equal
set_leaf_vector-IsValid_example =
    set_leaf_vector-IsValid 1 (8 ∷ 6 ∷ []) stump stump-IsValid (omega arith) refl (omega arith)

slice_getters-past_end_example :
    (leaf_vector stump 3 ≡ err fault)
    × (has_leaf_vector stump 3 ≡ err fault)
    × (left_categories stump 3 ≡ err fault)
slice_getters-past_end_example = slice_getters-past_end stump 3 stump-IsValid (omega arith)

abbrev two_items : ContiguousArray ℕ
two_items = record { items = 3 ∷ 4 ∷ []; capacity = 2; owned_buffer = true }

two_items-Holds : Holds (3 ∷ 4 ∷ []) two_items
two_items-Holds = record { same = refl; owned = refl; fits = omega arith }

build_ast_from_tree-StandsFor_example :
    (n : AstNode) × (build_ast_from_tree false stump 4 3 0 ≡ ok n) × StandsFor false stump 4 0 n
build_ast_from_tree-StandsFor_example =
    build_ast_from_tree-StandsFor false stump 4 3 0 stump-IsValid (omega arith) (omega arith)

test_node-set_categorical_split_example :
    (u : Tree) × (set_categorical_split 0 3 true false (9 ∷ 4 ∷ []) stump ≡ ok u)
    × ((entry v : ℕ)
        → float_to_uint32 entry ≡ ok v
        → test_node u 0 entry ≡ ok (elem v (9 ∷ 4 ∷ [])))
unfolding all_equal left_categories size at slice
test_node-set_categorical_split_example =
    test_node-set_categorical_split 0 3 true false (9 ∷ 4 ∷ []) stump stump-IsValid (omega arith)
      (omega arith) refl refl (omega arith)
