-- ===== src/LightGbm/Export/Represents.antt =====
-- The exported tree is the tree that LightGBM's arrays describe.
use treelite.Prelude.{ℕ, ◌≤◌, ◌<◌, ◌≡◌, refl, true, false, [], ok, length, ◌==◌, if◌then◌else◌}
use treelite.Base.{int_max, minus_one}
use treelite.Tree.{Tree, Node}
use treelite.Tree.Invariant.{IsValid}
use treelite.Tree.Leaves.{init-default_tree}
use treelite.Frontend.{IdQueue}
use treelite.Frontend.Source.{Source, Shape, shape_size, shape_categories, Represents}
use treelite.Frontend.Represents.{run_queue-Represents}
use treelite.LightGbm.Numbers.{FloatLibrary}
use treelite.LightGbm.Parse.{LgbTree}
use treelite.LightGbm.Export.{
  visit, export_leaf, export_test, push_children, not_negative, export_tree,
}
use treelite.LightGbm.Export.Shape.{LeafOk, TestOk, LeafExported, TestExported}
use treelite.LightGbm.Export.Nodes.{
  LeafExported-SameAt, TestExported-SameAt, export_leaf-Written, export_test-TestWritten,
}

pub visit-leaf :
    (lib : FloatLibrary) (junk : Node) (lgb : LgbTree) (old new : ℕ) (t u : Tree)
    → not_negative old ≡ false
    → export_leaf lib lgb old new t ≡ ok u
    → visit lib junk lgb old new t ≡ ok ([], u)
unfolding visit
visit-leaf lib junk lgb old new t u n e = rw (n, e) refl

pub visit-test :
    (lib : FloatLibrary) (junk : Node) (lgb : LgbTree) (old new : ℕ) (children : IdQueue)
    (t u : Tree)
    → not_negative old ≡ true
    → export_test lib junk lgb old new t ≡ ok u
    → push_children lgb old new u ≡ ok children
    → visit lib junk lgb old new t ≡ ok (children, u)
unfolding visit
visit-test lib junk lgb old new children t u n e p = rw (n, e, p) refl

module _ (lib : FloatLibrary) (lgb : LgbTree) where
  pub exclusive : (old left right : ℕ) → LeafOk lib lgb old → TestOk lib lgb old left right → ⊥
  exclusive old left right x y = cc (x.negative, y.not_leaf)

  pub unique :
      (old left right left' right' : ℕ)
      → TestOk lib lgb old left right
      → TestOk lib lgb old left' right'
      → (left ≡ left') × (right ≡ right')
  unique old left right left' right' x y =
      (cc (x.left_from, y.left_from), cc (x.right_from, y.right_from))

-- The nodes of LightGBM's arrays.
abbrev pub lgb_source : FloatLibrary → Node → LgbTree → Source
lgb_source lib junk lgb = record {
  visit = visit lib junk lgb;
  Leaf = LeafOk lib lgb;
  Test = TestOk lib lgb;
  categories = λ old left right x. length x.categories;
  LeafDone = LeafExported lib lgb;
  TestDone = TestExported lib lgb;
  LeafDone-SameAt = LeafExported-SameAt lib lgb;
  TestDone-SameAt = TestExported-SameAt lib lgb;
  exclusive = exclusive lib lgb;
  unique = unique lib lgb;
  visit_leaf = λ t old new v inside f x.
      let (u, e, w, y) = export_leaf-Written lib lgb t old new v inside f x in
      (u, visit-leaf lib junk lgb old new t u x.negative e, w, y);
  visit_test = λ t old left right new v inside room f x few.
      let (u, e, w) =
        export_test-TestWritten lib lgb junk t old left right new v inside room f x few in
      (
        u,
        visit-test lib junk lgb old new _ t u x.not_leaf e w.pushed,
        w.written,
        w.exported,
        w.to_left,
        w.to_right,
      );
}

-- The root of LightGBM's tree: the only leaf, or the first test node.
abbrev pub root_of : LgbTree → ℕ
root_of lgb = if lgb.num_leaves == 1 then minus_one else 0

module _ (lib : FloatLibrary) (junk : Node) (lgb : LgbTree) where
  -- Where LightGBM's arrays describe a tree from its root on, of at most 2 ^ 31 - 1 nodes and with
  -- fewer than 2 ^ 63 categories in all, and the fuel is more than the number of nodes, the export of
  -- the tree ends without a fault, and its result is a valid tree that represents that of LightGBM:
  -- leaf for leaf and test for test, with their values, features, thresholds, sorted categories,
  -- directions and children.
  pub export_tree-Represents :
      (num fuel : ℕ) (shape : Shape (lgb_source lib junk lgb) (root_of lgb))
      → (lgb.num_leaves == 0) ≡ false
      → shape_size (lgb_source lib junk lgb) shape < fuel
      → shape_size (lgb_source lib junk lgb) shape ≤ int_max
      → shape_categories (lgb_source lib junk lgb) shape < 0x8000_0000_0000_0000
      → (t : Tree) × (export_tree lib junk num fuel lgb ≡ ok t)
        × IsValid t
        × Represents (lgb_source lib junk lgb) t (root_of lgb) 0
  unfolding export_tree
  export_tree-Represents num fuel shape some_leaf enough small few =
      let (t, r, valid, represents) =
        run_queue-Represents (lgb_source lib junk lgb) fuel (root_of lgb) shape enough small few in
      (t, rw (init-default_tree junk num, some_leaf) r, valid, represents)
