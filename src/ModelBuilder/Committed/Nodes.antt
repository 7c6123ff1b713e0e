-- ===== src/ModelBuilder/Committed/Nodes.antt =====
-- The nodes of a builder that are a tree without leaf vectors, and one round of `CommitModel` on them.
use treelite.Prelude.{
  ℕ, ◌+◌, ◌≤◌, ◌<◌, ◌≡◌, refl, ap, ◌∙◌, arith, ◌⊎◌, inl, inr, true, false, List, [], ◌∷◌, Option,
  none, some, ok, length,
}
use treelite.Base.{numerical, categorical, int_max}
use treelite.Tree.{Tree, Node}
use treelite.Tree.Getters.{
  left_child, right_child, split_index, default_left, is_leaf, leaf_value, threshold, comparison_op,
  split_type, missing_category_to_zero, left_categories,
}
use treelite.Tree.Setters.{sort, split_index_limit, set_numerical_split, set_categorical_split}
use treelite.Tree.Invariant.{IsValid}
use treelite.Tree.Leaves.{set_leaf-IsValid}
use treelite.Tree.Splits.{set_numerical_split-IsValid}
use treelite.Tree.Categories.{set_categorical_split-IsValid}
use treelite.Tree.AddChilds.{add_childs-IsValid}
use treelite.Tree.Free.{Free, Free-suc, Free-Grown, left_categories-Free}
use treelite.Frontend.Kept.{SameAt}
use treelite.Frontend.Written.{
  Written-LeafSet, Written-NumericalSplit, Written-CategoricalSplit, Written, Written-Grown,
}
use treelite.Builder.{
  BuilderNode, numerical_test, categorical_test, leaf_status, deref, same_pointer,
}
use treelite.ModelBuilder.{
  check_children, push_children, commit_value, commit_leaf, commit_status, commit_node,
}
use treelite.ModelBuilder.Committed.{scalar_visit}

module _ (heap : List (Option BuilderNode)) where
  pub record LeafOk (p : ℕ) : Type 0 where
    pub node : BuilderNode
    pub there : deref heap p ≡ ok node
    pub at_leaf : node.status ≡ leaf_status
    pub no_left : node.left_child ≡ none
    pub no_right : node.right_child ≡ none
    pub no_vector : node.leaf_vector ≡ []

  -- A test node whose children know it as their parent.
  pub record TestOk (p left right : ℕ) : Type 0 where
    pub node : BuilderNode
    pub there : deref heap p ≡ ok node
    pub to_left : node.left_child ≡ some left
    pub to_right : node.right_child ≡ some right
    pub left_node : BuilderNode
    pub left_there : deref heap left ≡ ok left_node
    pub left_parent : same_pointer left_node.parent p ≡ true
    pub right_node : BuilderNode
    pub right_there : deref heap right ≡ ok right_node
    pub right_parent : same_pointer right_node.parent p ≡ true
    pub small : node.feature_id < split_index_limit
    pub categories : List ℕ
    pub kind :
        ((node.status ≡ numerical_test) × (categories ≡ []))
        ⊎ ((node.status ≡ categorical_test) × (categories ≡ node.left_categories))

  pub record LeafCommitted (t : Tree) (p new : ℕ) : Type 0 where
    pub node : BuilderNode
    pub there : deref heap p ≡ ok node
    pub leaf_there : is_leaf t new ≡ ok true
    pub has_value : leaf_value t new ≡ ok node.info

  pub record TestCommitted (t : Tree) (p new : ℕ) : Type 0 where
    pub node : BuilderNode
    pub there : deref heap p ≡ ok node
    pub has_feature : split_index t new ≡ ok node.feature_id
    pub direction : default_left t new ≡ ok node.default_left
    pub kind :
        ((node.status ≡ numerical_test)
          × (split_type t new ≡ ok numerical)
          × (threshold t new ≡ ok node.info)
          × (comparison_op t new ≡ ok node.op))
        ⊎ ((node.status ≡ categorical_test)
            × (split_type t new ≡ ok categorical)
            × (left_categories t new ≡ ok (sort node.left_categories))
            × (missing_category_to_zero t new ≡ ok false))

  pub LeafCommitted-SameAt :
      (t u : Tree) (p new : ℕ) → SameAt t u new → LeafCommitted t p new → LeafCommitted u p new
  LeafCommitted-SameAt t u p new s x = record {
    node = x.node;
    there = x.there;
    leaf_there = s.leaf ∙ x.leaf_there;
    has_value = s.value ∙ x.has_value;
  }

  pub TestCommitted-SameAt :
      (t u : Tree) (p new : ℕ) → SameAt t u new → TestCommitted t p new → TestCommitted u p new
  TestCommitted-SameAt t u p new s x = record {
    node = x.node;
    there = x.there;
    has_feature = s.feature ∙ x.has_feature;
    direction = s.direction ∙ x.direction;
    kind = elim x.kind [
      | inl (a, b, c, d) ↦ inl (a, s.type ∙ b, s.bound ∙ c, s.op ∙ d)
      | inr (a, b, c, d) ↦ inr (a, s.type ∙ b, s.categories ∙ c, s.to_zero ∙ d)
    ];
  }

  pub exclusive : (p left right : ℕ) → LeafOk p → TestOk p left right → ⊥
  exclusive p left right x y =
      let same : x.node ≡ y.node = cc (x.there, y.there) in cc (same, x.no_left, y.to_left)

  pub unique :
      (p left right left' right' : ℕ)
      → TestOk p left right
      → TestOk p left' right'
      → (left ≡ left') × (right ≡ right')
  unique p left right left' right' x y =
      let same : x.node ≡ y.node = cc (x.there, y.there) in
      (cc (same, x.to_left, y.to_left), cc (same, x.to_right, y.to_right))

  module _ (junk : Node) (n : ℕ) where
    pub visit_leaf :
        (t : Tree) (p new : ℕ)
        → IsValid t
        → new < t.num_nodes
        → Free t new
        → LeafOk p
        → (u : Tree) × (scalar_visit junk n heap p new t ≡ ok ([], u))
          × Written t new 0 0 u
          × LeafCommitted u p new
    unfolding scalar_visit commit_node commit_status commit_leaf commit_value
    visit_leaf t p new v inside f x =
        let (u, e, vu, s) = set_leaf-IsValid new x.node.info t v inside in
        (
          u,
          rw (x.there, x.at_leaf, x.no_left, x.no_right, x.no_vector, e) refl,
          Written-LeafSet t u new x.node.info vu f s,
          record { node = x.node; there = x.there; leaf_there = s.leaf; has_value = s.with_value },
        )

    check_children-ok :
        (p left right : ℕ) (x : TestOk p left right)
        → check_children heap p x.node ≡ ok (left, right)
    unfolding check_children
    check_children-ok p left right x =
        rw (x.to_left, x.to_right, x.left_there, x.left_parent, x.right_there, x.right_parent) refl

    -- What setting the split does to a node without categories.
    record Split (t : Tree) (p new : ℕ) (categories : List ℕ) (u : Tree) : Type 0 where
      written : Written t new 0 (length categories) u
      exported : TestCommitted u p new
      same_left : left_child u new ≡ left_child t new
      same_right : right_child u new ≡ right_child t new

    module _ (t : Tree) (p left right new : ℕ) (v : IsValid t) (inside : new < t.num_nodes)
        (f : Free t new) (x : TestOk p left right) where
      numerical-Split :
          x.node.status ≡ numerical_test
          → x.categories ≡ []
          → (u : Tree) × (set_numerical_split new x.node.feature_id x.node.info x.node.default_left
                x.node.op t
              ≡ ok u)
            × Split t p new x.categories u
      numerical-Split status no_categories =
          let node = x.node in
          let (u, e, vu, s) =
            set_numerical_split-IsValid new node.feature_id node.info node.default_left node.op t v
              inside x.small in
          (
            u,
            e,
            record {
              written =
                  Written-NumericalSplit t u new (length x.categories) node.feature_id node.info
                    node.default_left node.op vu f s (ap (λ xs. length xs) no_categories);
              exported = record {
                node = node;
                there = x.there;
                has_feature = s.feature;
                direction = s.direction;
                kind = inl (status, s.of_type, s.at_threshold, s.by_op);
              };
              same_left = s.same_left;
              same_right = s.same_right;
            },
          )

      categorical-Split :
          x.node.status ≡ categorical_test
          → x.categories ≡ x.node.left_categories
          → length t.left_categories.items + length x.categories < 0x8000_0000_0000_0000
          → (u : Tree) × (set_categorical_split new x.node.feature_id x.node.default_left false
                x.node.left_categories t
              ≡ ok u)
            × Split t p new x.categories u
      categorical-Split status all room =
          let node = x.node in
          let size : length x.categories ≡ length node.left_categories = ap (λ xs. length xs) all in
          let (u, e, vu, s) =
            set_categorical_split-IsValid new node.feature_id node.default_left false
              node.left_categories t v inside x.small (Free-suc t new f) (omega (arith, size)) in
          (
            u,
            e,
            record {
              written =
                  Written-CategoricalSplit t u new (length x.categories) node.feature_id
                    node.default_left false node.left_categories v inside vu s size;
              exported = record {
                node = node;
                there = x.there;
                has_feature = s.feature;
                direction = s.direction;
                kind = inr (
                  status,
                  s.of_type,
                  s.added [] (left_categories-Free t new v inside f),
                  s.to_zero,
                );
              };
              same_left = s.same_left;
              same_right = s.same_right;
            },
          )

    pub visit_test :
        (t : Tree) (p left right new : ℕ)
        → IsValid t
        → new < t.num_nodes
        → t.num_nodes + 2 ≤ int_max
        → Free t new
        → (x : TestOk p left right)
        → length t.left_categories.items + length x.categories < 0x8000_0000_0000_0000
        → (u : Tree) × (scalar_visit junk n heap p new t
            ≡ ok ((left, t.num_nodes) ∷ (right, t.num_nodes + 1) ∷ [], u))
          × Written t new 2 (length x.categories) u
          × TestCommitted u p new
          × (left_child u new ≡ ok t.num_nodes)
          × (right_child u new ≡ ok (t.num_nodes + 1))
    unfolding scalar_visit commit_node commit_status push_children
    visit_test t p left right new v inside room f x small =
        let (g, e, vg, grown) = add_childs-IsValid junk new t v inside room in
        let fg = Free-Grown t g new new grown (omega (arith, v.categories_offsets)) f in
        let inside' : new < g.num_nodes = omega (arith, grown.two_more) in
        let kids = check_children-ok p left right x in
        let fits : length g.left_categories.items + length x.categories < 0x8000_0000_0000_0000 =
          omega (arith, small, ap (λ xs. length xs.items) grown.same_categories) in
        elim x.kind [
          | inl (status, no_categories) ↦
              let (u, e₁, s) =
                numerical-Split g p left right new vg inside' fg x status no_categories in
              let first = s.same_left ∙ grown.left in
              let second = s.same_right ∙ grown.right in
              (
                u,
                rw (x.there, status, kids, e, e₁, first, second) refl,
                Written-Grown t g u new (length x.categories) v vg grown s.written,
                s.exported,
                first,
                second,
              )
          | inr (status, all) ↦
              let (u, e₁, s) =
                categorical-Split g p left right new vg inside' fg x status all fits in
              let first = s.same_left ∙ grown.left in
              let second = s.same_right ∙ grown.right in
              (
                u,
                rw (x.there, status, kids, e, e₁, first, second) refl,
                Written-Grown t g u new (length x.categories) v vg grown s.written,
                s.exported,
                first,
                second,
              )
        ]
