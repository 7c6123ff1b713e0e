-- ===== src/Examples/Models.antt =====
-- A model builder with one tree, a numerical test of two leaves.
use treelite.Prelude.{
  ℕ, ◌≡◌, refl, arith, inl, false, true, List, [], ◌∷◌, Option, none, some, String, Result, ok,
}
use treelite.Base.{lt}
use treelite.Tree.{Tree, node_init}
use treelite.Frontend.Source.{Shape, leaf, test, shape_size, shape_categories}
use treelite.Builder.{BuilderNode, TreeState, numerical_test, leaf_status, deref, same_pointer}
use treelite.ModelBuilder.{ModelState, commit_model, check_model}
use treelite.ModelBuilder.Committed.Represents.{
  builder_source, Finished, AllCommitted, commit_model-AllCommitted,
}

abbrev leaf_of_root : BuilderNode
leaf_of_root = record {
  leaf_vector = [];
  status = leaf_status;
  parent = some 0;
  left_child = none;
  right_child = none;
  feature_id = 0;
  default_left = false;
  info = 5;
  op = lt;
  left_categories = [];
}

abbrev root : BuilderNode
root = record leaf_of_root {
  status = numerical_test;
  parent = none;
  left_child = some 1;
  right_child = some 2;
  feature_id = 3;
  default_left = true;
  info = 7;
}

abbrev heap : List (Option BuilderNode)
heap = some root ∷ some leaf_of_root ∷ some (record leaf_of_root { info = 6 }) ∷ []

abbrev built : TreeState
built = record { root = some 0; nodes = (0, 0) ∷ (1, 1) ∷ (2, 2) ∷ []; heap = heap }

abbrev builder : ModelState
builder = record {
  trees = built ∷ built ∷ [];
  num_feature = 4;
  num_output_group = 1;
  random_forest_flag = false;
  cfg = [];
}

abbrev no_param : List (String × String) → Result ℕ
no_param cfg = ok 0

built-Shape : Shape (builder_source node_init 1 heap) 0
unfolding deref same_pointer
built-Shape =
    test {left = 1} {right = 2}
      (record {
        node = root;
        there = refl;
        to_left = refl;
        to_right = refl;
        left_node = leaf_of_root;
        left_there = refl;
        left_parent = refl;
        right_node = record leaf_of_root { info = 6 };
        right_there = refl;
        right_parent = refl;
        small = omega arith;
        categories = [];
        kind = inl (refl, refl);
      })
      (leaf (record {
        node = leaf_of_root;
        there = refl;
        at_leaf = refl;
        no_left = refl;
        no_right = refl;
        no_vector = refl;
      }))
      (leaf (record {
        node = record leaf_of_root { info = 6 };
        there = refl;
        at_leaf = refl;
        no_left = refl;
        no_right = refl;
        no_vector = refl;
      }))

built-Finished : Finished node_init 1 4 built
unfolding built-Shape shape_size shape_categories
built-Finished = record {
  root = 0;
  has_root = refl;
  shape = built-Shape;
  enough = omega arith;
  small = omega arith;
  few = omega arith;
}

commit_model-AllCommitted_example :
    (ts : List Tree) × (commit_model no_param node_init 4 builder
      ≡ ok (record {
        trees = ts;
        num_feature = builder.num_feature;
        num_output_group = builder.num_output_group;
        random_forest_flag = builder.random_forest_flag;
        param = 0;
      }))
    × AllCommitted node_init 1 4 (built ∷ built ∷ []) ts
unfolding check_model
commit_model-AllCommitted_example =
    commit_model-AllCommitted no_param 0 node_init 4 builder refl (omega arith)
      (built-Finished, (built-Finished, tt)) refl
