-- ===== src/XgBoost/Export/Represents.antt =====
-- The exported tree is the tree of XGBoost's nodes.
use treelite.Prelude.{ℕ, arith, ◌≤◌, ◌<◌, ◌≡◌, refl, ok}
use treelite.Base.{int_max}
use treelite.Tree.{Tree, Node}
use treelite.Tree.Invariant.{IsValid}
use treelite.Tree.Leaves.{init-default_tree}
use treelite.Frontend.Source.{Source, Shape, leaf, test, shape_size, shape_categories, Represents}
use treelite.Frontend.Represents.{run_queue-Represents}
use treelite.XgBoost.Parse.{XgbTree}
use treelite.XgBoost.Export.{FloatMath, visit, export_tree}
use treelite.XgBoost.Export.Nodes.{
  LeafOk, TestOk, LeafExported, TestExported, LeafExported-SameAt, TestExported-SameAt, exclusive,
  unique, visit_leaf, visit_test,
}

-- XGBoost's nodes, which have no categories.
abbrev pub xgb_source : FloatMath → Node → XgbTree → Source
xgb_source lib junk xgb = record {
  visit = visit lib junk xgb;
  Leaf = LeafOk lib junk xgb;
  Test = TestOk lib junk xgb;
  categories = λ old left right x. 0;
  LeafDone = LeafExported lib junk xgb;
  TestDone = TestExported lib junk xgb;
  LeafDone-SameAt = LeafExported-SameAt lib junk xgb;
  TestDone-SameAt = TestExported-SameAt lib junk xgb;
  exclusive = exclusive lib junk xgb;
  unique = unique lib junk xgb;
  visit_leaf = visit_leaf lib junk xgb;
  visit_test = λ t old left right new v inside room f x few.
      visit_test lib junk xgb t old left right new v inside room f x;
}

module _ (lib : FloatMath) (junk : Node) (xgb : XgbTree) where
  no_categories :
      {old : ℕ} (shape : Shape (xgb_source lib junk xgb) old)
      → shape_categories (xgb_source lib junk xgb) shape ≡ 0
  unfolding shape_categories
  no_categories (leaf x) = refl
  no_categories (test x left right) = omega (arith, no_categories left, no_categories right)

  -- Where XGBoost's nodes are a tree from node 0 on, of at most 2 ^ 31 - 1 nodes that each have
  -- statistics, and the fuel is more than the number of these nodes, the export of the tree ends
  -- without a fault, and its result is a valid tree that represents that of XGBoost, without the nodes
  -- that node 0 does not reach: leaf for leaf and test for test, with their values, features,
  -- thresholds, directions and children.
  pub export_tree-xgb_source :
      (num fuel : ℕ) (shape : Shape (xgb_source lib junk xgb) 0)
      → shape_size (xgb_source lib junk xgb) shape < fuel
      → shape_size (xgb_source lib junk xgb) shape ≤ int_max
      → (t : Tree) × (export_tree lib junk num fuel xgb ≡ ok t)
        × IsValid t
        × Represents (xgb_source lib junk xgb) t 0 0
  unfolding export_tree
  export_tree-xgb_source num fuel shape enough small =
      let (t, r, valid, represents) =
        run_queue-Represents (xgb_source lib junk xgb) fuel 0 shape enough small
          (omega (arith, no_categories shape)) in
      (t, rw (init-default_tree junk num) r, valid, represents)
