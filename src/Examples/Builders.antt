-- ===== src/Examples/Builders.antt =====
-- A tree of three nodes under construction, and a model builder that takes a tree.
use treelite.Prelude.{
  ℕ, ◌≡◌, refl, true, false, List, [], ◌∷◌, Option, none, some, ok, err, fault, check_failed, All,
}
use treelite.Base.{minus_one, lt, no_op}
use treelite.Builder.{
  BuilderNode, TreeState, create_call, numerical_call, run, create_node, delete_node,
  set_numerical_test_node, empty_status, numerical_test, find_key, deref,
}
use treelite.Builder.Heap.{Linked}
use treelite.Builder.Calls.{run-Linked, delete_node-deleted_child}
use treelite.ModelBuilder.{ModelState, insert_tree}
use treelite.ModelBuilder.Trees.{Checked, insert_tree-Checked}

abbrev fresh : BuilderNode
fresh = record {
  leaf_vector = [];
  status = empty_status;
  parent = none;
  left_child = none;
  right_child = none;
  feature_id = 0;
  default_left = false;
  info = 0;
  op = no_op;
  left_categories = [];
}

abbrev state : List (ℕ × ℕ) → List (Option BuilderNode) → TreeState
state nodes heap = record { root = none; nodes = nodes; heap = heap }

abbrev three : TreeState
three = state ((5, 2) ∷ (4, 1) ∷ (3, 0) ∷ []) (some fresh ∷ some fresh ∷ some fresh ∷ [])

abbrev linked_root : BuilderNode
linked_root = record fresh {
  status = numerical_test;
  left_child = some 1;
  right_child = some 2;
  feature_id = 6;
  default_left = true;
  info = 9;
  op = lt;
}

abbrev kid : BuilderNode
kid = record fresh { parent = some 0 }

abbrev linked : TreeState
linked = state ((5, 2) ∷ (4, 1) ∷ (3, 0) ∷ []) (some linked_root ∷ some kid ∷ some kid ∷ [])

none-Linked : Linked (state [] [])
unfolding find_key
none-Linked = record {
  parents = λ a q n l e. cc;
  root_free = λ r e. cc;
  named = λ k p e. cc;
  distinct = λ k k' p e f. cc;
  childless = λ a n l e. cc;
}

three-Linked : Linked three
unfolding run create_node
three-Linked =
    let one =
      run-Linked (create_call fresh 3) (state [] []) (state ((3, 0) ∷ []) (some fresh ∷ []))
        none-Linked refl in
    let two =
      run-Linked (create_call fresh 4) (state ((3, 0) ∷ []) (some fresh ∷ []))
        (state ((4, 1) ∷ (3, 0) ∷ []) (some fresh ∷ some fresh ∷ [])) one refl in
    run-Linked (create_call fresh 5) (state ((4, 1) ∷ (3, 0) ∷ []) (some fresh ∷ some fresh ∷ []))
      three two refl

run-Linked_example : Linked linked
unfolding run set_numerical_test_node
run-Linked_example = run-Linked (numerical_call 3 6 lt 9 true 4 5) three linked three-Linked refl

-- The left child of the root has been deleted.
abbrev dangling : TreeState
dangling = state ((5, 2) ∷ (3, 0) ∷ []) (some linked_root ∷ none ∷ some kid ∷ [])

child_deleted : delete_node 4 linked ≡ ok dangling
unfolding delete_node
child_deleted = refl

delete_node-deleted_child_example : delete_node 3 dangling ≡ err fault
unfolding find_key
delete_node-deleted_child_example =
    delete_node-deleted_child dangling 3 0 1 linked_root refl refl refl refl

abbrev empty_model : ModelState
empty_model = record {
  trees = [];
  num_feature = 7;
  num_output_group = 1;
  random_forest_flag = false;
  cfg = [];
}

insert_tree-Checked_example :
    All (Checked 7) (linked ∷ [])
    × ((index : ℕ) (s : ModelState)
        → insert_tree (record { pimpl = none; in_ensemble = true }) index s
          ≡ err (check_failed "InsertTree: tree is already part of another ensemble"))
unfolding insert_tree deref
insert_tree-Checked_example =
    insert_tree-Checked (record { pimpl = some linked; in_ensemble = false }) minus_one empty_model
      (1, record { pimpl = none; in_ensemble = true }, record empty_model { trees = linked ∷ [] })
      tt refl
