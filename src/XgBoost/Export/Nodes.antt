-- ===== src/XgBoost/Export/Nodes.antt =====
-- XGBoost's nodes that are a tree, and one round of the loop over the queue on them.
use treelite.Prelude.{
  ℕ, ◌+◌, ◌≤◌, ◌<◌, ◌≡◌, refl, ◌∙◌, arith, true, false, [], ◌∷◌, some, ok, get_elem?,
}
use treelite.Base.{numerical, lt, int_max}
use treelite.Tree.{Tree, Node}
use treelite.Tree.Getters.{
  left_child, right_child, split_index, default_left, is_leaf, leaf_value, threshold, comparison_op,
  split_type,
}
use treelite.Tree.Setters.{split_index_limit}
use treelite.Tree.Invariant.{IsValid}
use treelite.Tree.Leaves.{set_leaf-IsValid}
use treelite.Tree.Splits.{set_numerical_split-IsValid}
use treelite.Tree.AddChilds.{add_childs-IsValid}
use treelite.Tree.Free.{Free, Free-Grown}
use treelite.Frontend.Kept.{SameAt}
use treelite.Frontend.Statistics.{set_gain-Decorated, set_sum_hess-Decorated}
use treelite.Frontend.Written.{
  Written-LeafSet, Written-NumericalSplit, Written, Written-Decorated, Written-Grown,
}
use treelite.XgBoost.Parse.{XgbNode, NodeStat, XgbTree, feature_of, goes_left, is_xgb_leaf}
use treelite.XgBoost.Export.{FloatMath, export_test, visit}

module _ (lib : FloatMath) (junk : Node) (xgb : XgbTree) where
  -- `old` is a node of the tree with statistics.
  pub record NodeOk (old : ℕ) : Type 0 where
    pub node : XgbNode
    pub from : get_elem? xgb.nodes old ≡ some node
    pub stat : NodeStat
    pub stat_from : get_elem? xgb.stats old ≡ some stat

  pub record LeafOk (old : ℕ) : Type 0 where
    pub here : NodeOk old
    pub at_leaf : is_xgb_leaf here.node ≡ true

  pub record TestOk (old left right : ℕ) : Type 0 where
    pub here : NodeOk old
    pub not_leaf : is_xgb_leaf here.node ≡ false
    pub small : feature_of here.node < split_index_limit
    pub to_left : here.node.cleft ≡ left
    pub to_right : here.node.cright ≡ right

  -- Node `new` of the tree is the leaf `old`.
  pub record LeafExported (t : Tree) (old new : ℕ) : Type 0 where
    pub node : XgbNode
    pub from : get_elem? xgb.nodes old ≡ some node
    pub leaf_there : is_leaf t new ≡ ok true
    pub has_value : leaf_value t new ≡ ok node.info

  -- Node `new` of the tree makes the test of `old`.
  pub record TestExported (t : Tree) (old new : ℕ) : Type 0 where
    pub node : XgbNode
    pub from : get_elem? xgb.nodes old ≡ some node
    pub has_feature : split_index t new ≡ ok (feature_of node)
    pub of_type : split_type t new ≡ ok numerical
    pub has_bound : threshold t new ≡ ok node.info
    pub by_op : comparison_op t new ≡ ok lt
    pub direction : default_left t new ≡ ok (goes_left node)

  pub LeafExported-SameAt :
      (t u : Tree) (old new : ℕ) → SameAt t u new → LeafExported t old new → LeafExported u old new
  LeafExported-SameAt t u old new s x = record {
    node = x.node;
    from = x.from;
    leaf_there = s.leaf ∙ x.leaf_there;
    has_value = s.value ∙ x.has_value;
  }

  pub TestExported-SameAt :
      (t u : Tree) (old new : ℕ) → SameAt t u new → TestExported t old new → TestExported u old new
  TestExported-SameAt t u old new s x = record {
    node = x.node;
    from = x.from;
    has_feature = s.feature ∙ x.has_feature;
    of_type = s.type ∙ x.of_type;
    has_bound = s.bound ∙ x.has_bound;
    by_op = s.op ∙ x.by_op;
    direction = s.direction ∙ x.direction;
  }

  pub exclusive : (old left right : ℕ) → LeafOk old → TestOk old left right → ⊥
  exclusive old left right x y =
      let same : x.here.node ≡ y.here.node = cc (x.here.from, y.here.from) in
      cc (same, x.at_leaf, y.not_leaf)

  pub unique :
      (old left right left' right' : ℕ)
      → TestOk old left right
      → TestOk old left' right'
      → (left ≡ left') × (right ≡ right')
  unique old left right left' right' x y =
      let same : x.here.node ≡ y.here.node = cc (x.here.from, y.here.from) in
      (cc (same, x.to_left, y.to_left), cc (same, x.to_right, y.to_right))

  pub visit_leaf :
      (t : Tree) (old new : ℕ)
      → IsValid t
      → new < t.num_nodes
      → Free t new
      → LeafOk old
      → (u : Tree) × (visit lib junk xgb old new t ≡ ok ([], u))
        × Written t new 0 0 u
        × LeafExported u old new
  unfolding visit
  visit_leaf t old new v inside f x =
      let node = x.here.node in
      let (u, e, vu, s) = set_leaf-IsValid new node.info t v inside in
      let (w, e', d) =
        set_sum_hess-Decorated new (lib.widen x.here.stat.sum_hess) u vu
          (omega (arith, s.same_count)) in
      let written = Written-LeafSet t u new node.info vu f s in
      (
        w,
        rw (x.here.from, x.here.stat_from, x.at_leaf, e, e') refl,
        Written-Decorated t u w new 0 0 written d,
        LeafExported-SameAt u w old new (d.same new) (record {
          node = node;
          from = x.here.from;
          leaf_there = s.leaf;
          has_value = s.with_value;
        }),
      )

  -- What `export_test` does to a node without categories.
  record TestWritten (t : Tree) (old new : ℕ) (u : Tree) : Type 0 where
    written : Written t new 2 0 u
    exported : TestExported u old new
    first : left_child u new ≡ ok t.num_nodes
    second : right_child u new ≡ ok (t.num_nodes + 1)

  export_test-TestWritten :
      (t : Tree) (old left right new : ℕ)
      → IsValid t
      → new < t.num_nodes
      → t.num_nodes + 2 ≤ int_max
      → Free t new
      → (x : TestOk old left right)
      → (u : Tree) × (export_test lib junk x.here.node x.here.stat new t
          ≡ ok ((left, t.num_nodes) ∷ (right, t.num_nodes + 1) ∷ [], u))
        × TestWritten t old new u
  unfolding export_test
  export_test-TestWritten t old left right new v inside room f x =
      let node = x.here.node in
      let (g, e, vg, grown) = add_childs-IsValid junk new t v inside room in
      let fg = Free-Grown t g new new grown (omega (arith, v.categories_offsets)) f in
      let (s, e₁, vs, split) =
        set_numerical_split-IsValid new (feature_of node) node.info (goes_left node) lt g vg
          (omega (arith, grown.two_more)) x.small in
      let written =
        Written-NumericalSplit g s new 0 (feature_of node) node.info (goes_left node) lt vs fg split
          refl in
      let (u, e₂, d) =
        set_gain-Decorated new (lib.widen x.here.stat.loss_chg) s vs
          (omega (arith, split.same_count, grown.two_more)) in
      let same = d.same new in
      let first = same.left ∙ split.same_left ∙ grown.left in
      let second = same.right ∙ split.same_right ∙ grown.right in
      (
        u,
        rw (e, e₁, e₂, first, second, x.to_left, x.to_right) refl,
        record {
          written =
              Written-Decorated t s u new 2 0 (Written-Grown t g s new 0 v vg grown written) d;
          exported = TestExported-SameAt s u old new same (record {
            node = node;
            from = x.here.from;
            has_feature = split.feature;
            of_type = split.of_type;
            has_bound = split.at_threshold;
            by_op = split.by_op;
            direction = split.direction;
          });
          first = first;
          second = second;
        },
      )

  pub visit_test :
      (t : Tree) (old left right new : ℕ)
      → IsValid t
      → new < t.num_nodes
      → t.num_nodes + 2 ≤ int_max
      → Free t new
      → TestOk old left right
      → (u : Tree) × (visit lib junk xgb old new t
          ≡ ok ((left, t.num_nodes) ∷ (right, t.num_nodes + 1) ∷ [], u))
        × Written t new 2 0 u
        × TestExported u old new
        × (left_child u new ≡ ok t.num_nodes)
        × (right_child u new ≡ ok (t.num_nodes + 1))
  unfolding visit
  visit_test t old left right new v inside room f x =
      let (u, e, w) = export_test-TestWritten t old left right new v inside room f x in
      let (z, e', d) =
        set_sum_hess-Decorated new (lib.widen x.here.stat.sum_hess) u w.written.valid
          (omega (arith, w.written.count)) in
      let same = d.same new in
      (
        z,
        rw (x.here.from, x.here.stat_from, x.not_leaf, e, e') refl,
        Written-Decorated t u z new 2 0 w.written d,
        TestExported-SameAt u z old new same w.exported,
        same.left ∙ w.first,
        same.right ∙ w.second,
      )
