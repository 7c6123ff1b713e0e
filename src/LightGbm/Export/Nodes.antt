-- ===== src/LightGbm/Export/Nodes.antt =====
-- One round of the loop over the queue.
use treelite.Prelude.{
  ℕ, ◌+◌, ◌≤◌, ◌<◌, ◌≡◌, refl, ap, ◌∙◌, arith, inl, inr, true, false, List, [], ◌∷◌, ok, length,
}
use treelite.Base.{int_max, le}
use treelite.Tree.{Tree, Node}
use treelite.Tree.Getters.{left_child, right_child}
use treelite.Tree.Invariant.{IsValid}
use treelite.Tree.Leaves.{set_leaf-IsValid}
use treelite.Tree.Splits.{set_numerical_split-IsValid}
use treelite.Tree.Categories.{set_categorical_split-IsValid}
use treelite.Tree.AddChilds.{add_childs-IsValid}
use treelite.Tree.Free.{Free, Free-suc, Free-Grown, left_categories-Free}
use treelite.Frontend.Kept.{SameAt, SameAt-trans}
use treelite.Frontend.Written.{
  Written-LeafSet, Written-NumericalSplit, Written-CategoricalSplit, Written, Written-Decorated,
  Written-Grown,
}
use treelite.LightGbm.Numbers.{FloatLibrary}
use treelite.LightGbm.Bitset.{get_decision_type, get_missing_type}
use treelite.LightGbm.Parse.{LgbTree}
use treelite.LightGbm.Export.{
  export_leaf, export_split, export_test, push_children, leaf_of, not_nan, left_categories_of,
}
use treelite.LightGbm.Export.Statistics.{put_count-Decorated, put_gain-Decorated}
use treelite.LightGbm.Export.Shape.{LeafOk, TestOk, LeafExported, TestExported}

module _ (lib : FloatLibrary) (lgb : LgbTree) where
  pub LeafExported-SameAt :
      (t u : Tree) (old new : ℕ)
      → SameAt t u new
      → LeafExported lib lgb t old new
      → LeafExported lib lgb u old new
  LeafExported-SameAt t u old new s x = record {
    negative = x.negative;
    value = x.value;
    from = x.from;
    at_leaf = s.leaf ∙ x.at_leaf;
    has_value = s.value ∙ x.has_value;
  }

  pub TestExported-SameAt :
      (t u : Tree) (old new : ℕ)
      → SameAt t u new
      → TestExported lib lgb t old new
      → TestExported lib lgb u old new
  TestExported-SameAt t u old new s x = record {
    not_leaf = x.not_leaf;
    feature = x.feature;
    feature_from = x.feature_from;
    has_feature = s.feature ∙ x.has_feature;
    decision = x.decision;
    decision_from = x.decision_from;
    bound = x.bound;
    bound_from = x.bound_from;
    kind = elim x.kind [
      | inl (e, n) ↦ inl (
        e,
        record {
          of_type = s.type ∙ n.of_type;
          has_bound = s.bound ∙ n.has_bound;
          by_op = s.op ∙ n.by_op;
          direction = s.direction ∙ n.direction;
        },
      )
      | inr (e, c) ↦ inr (
        e,
        record {
          of_type = s.type ∙ c.of_type;
          categories = c.categories;
          from_bits = c.from_bits;
          has_categories = s.categories ∙ c.has_categories;
          direction = s.direction ∙ c.direction;
          to_zero = s.to_zero ∙ c.to_zero;
        },
      )
    ];
  }

  pub export_leaf-Written :
      (t : Tree) (old new : ℕ)
      → IsValid t
      → new < t.num_nodes
      → Free t new
      → LeafOk lib lgb old
      → (u : Tree) × (export_leaf lib lgb old new t ≡ ok u)
        × Written t new 0 0 u
        × LeafExported lib lgb u old new
  unfolding export_leaf
  export_leaf-Written t old new v inside f x =
      let (u, e, vu, s) = set_leaf-IsValid new (lib.narrow x.value) t v inside in
      let (w, e', d) =
        put_count-Decorated lgb.leaf_count (leaf_of old) new u vu (omega (arith, s.same_count))
          x.counted in
      let written = Written-LeafSet t u new (lib.narrow x.value) vu f s in
      (
        w,
        rw (x.from, e) e',
        Written-Decorated t u w new 0 0 written d,
        LeafExported-SameAt u w old new (d.same new) (record {
          negative = x.negative;
          value = x.value;
          from = x.from;
          at_leaf = s.leaf;
          has_value = s.with_value;
        }),
      )

  -- What `SetCategoricalSplit` or `SetNumericalSplit` does to a node without categories.
  record Split (t : Tree) (old new : ℕ) (categories : List ℕ) (u : Tree) : Type 0 where
    written : Written t new 0 (length categories) u
    exported : TestExported lib lgb u old new
    same_left : left_child u new ≡ left_child t new
    same_right : right_child u new ≡ right_child t new

  numerical-Split :
      (t : Tree) (old left right new : ℕ)
      → IsValid t
      → new < t.num_nodes
      → Free t new
      → (x : TestOk lib lgb old left right) → get_decision_type x.decision 1 ≡ false
      → x.categories ≡ []
      → (u : Tree) × (export_split lib lgb old new x.feature x.decision t ≡ ok u)
        × Split t old new x.categories u
  unfolding export_split
  numerical-Split t old left right new v inside f x kind none =
      let d = get_decision_type x.decision 2 in
      let (u, e, vu, s) =
        set_numerical_split-IsValid new x.feature (lib.narrow x.bound) d le t v inside x.small in
      (
        u,
        rw (x.bound_from, kind) e,
        record {
          written =
              Written-NumericalSplit t u new (length x.categories) x.feature (lib.narrow x.bound) d
                le vu f s (ap (λ xs. length xs) none);
          exported = record {
            not_leaf = x.not_leaf;
            feature = x.feature;
            feature_from = x.feature_from;
            has_feature = s.feature;
            decision = x.decision;
            decision_from = x.decision_from;
            bound = x.bound;
            bound_from = x.bound_from;
            kind = inl (
              kind,
              record {
                of_type = s.of_type;
                has_bound = s.at_threshold;
                by_op = s.by_op;
                direction = s.direction;
              },
            );
          };
          same_left = s.same_left;
          same_right = s.same_right;
        },
      )

  categorical-Split :
      (t : Tree) (old left right new : ℕ)
      → IsValid t
      → new < t.num_nodes
      → Free t new
      → (x : TestOk lib lgb old left right)
      → length t.left_categories.items + length x.categories < 0x8000_0000_0000_0000
      → get_decision_type x.decision 1 ≡ true
      → left_categories_of lgb (lib.truncate x.bound) ≡ ok x.categories
      → (u : Tree) × (export_split lib lgb old new x.feature x.decision t ≡ ok u)
        × Split t old new x.categories u
  unfolding export_split
  categorical-Split t old left right new v inside f x room kind bits =
      let mz = not_nan (get_missing_type x.decision) in
      let (u, e, vu, s) =
        set_categorical_split-IsValid new x.feature false mz x.categories t v inside x.small
          (Free-suc t new f) room in
      (
        u,
        rw (x.bound_from, kind, bits) e,
        record {
          written =
              Written-CategoricalSplit t u new (length x.categories) x.feature false mz x.categories
                v inside vu s refl;
          exported = record {
            not_leaf = x.not_leaf;
            feature = x.feature;
            feature_from = x.feature_from;
            has_feature = s.feature;
            decision = x.decision;
            decision_from = x.decision_from;
            bound = x.bound;
            bound_from = x.bound_from;
            kind = inr (
              kind,
              record {
                of_type = s.of_type;
                categories = x.categories;
                from_bits = bits;
                has_categories = s.added [] (left_categories-Free t new v inside f);
                direction = s.direction;
                to_zero = s.to_zero;
              },
            );
          };
          same_left = s.same_left;
          same_right = s.same_right;
        },
      )

  export_split-Split :
      (t : Tree) (old left right new : ℕ)
      → IsValid t
      → new < t.num_nodes
      → Free t new
      → (x : TestOk lib lgb old left right)
      → length t.left_categories.items + length x.categories < 0x8000_0000_0000_0000
      → (u : Tree) × (export_split lib lgb old new x.feature x.decision t ≡ ok u)
        × Split t old new x.categories u
  export_split-Split t old left right new v inside f x room = elim x.kind [
    | inl (kind, none) ↦ numerical-Split t old left right new v inside f x kind none
    | inr (kind, bits) ↦ categorical-Split t old left right new v inside f x room kind bits
  ]

  -- The test node is exported, and its children get the next two ids.
  pub record TestWritten (t : Tree) (old left right new : ℕ) (categories : List ℕ) (u : Tree)
      : Type 0 where
    pub written : Written t new 2 (length categories) u
    pub exported : TestExported lib lgb u old new
    pub to_left : left_child u new ≡ ok t.num_nodes
    pub to_right : right_child u new ≡ ok (t.num_nodes + 1)
    pub pushed :
        push_children lgb old new u ≡ ok ((left, t.num_nodes) ∷ (right, t.num_nodes + 1) ∷ [])

  pub export_test-TestWritten :
      (junk : Node) (t : Tree) (old left right new : ℕ)
      → IsValid t
      → new < t.num_nodes
      → t.num_nodes + 2 ≤ int_max
      → Free t new
      → (x : TestOk lib lgb old left right)
      → length t.left_categories.items + length x.categories < 0x8000_0000_0000_0000
      → (u : Tree) × (export_test lib junk lgb old new t ≡ ok u)
        × TestWritten t old left right new x.categories u
  unfolding export_test push_children
  export_test-TestWritten junk t old left right new v inside room f x small =
      let (g, e, vg, grown) = add_childs-IsValid junk new t v inside room in
      let fg = Free-Grown t g new new grown (omega (arith, v.categories_offsets)) f in
      let (s, e₁, split) =
        export_split-Split g old left right new vg (omega (arith, grown.two_more)) fg x
          (omega (arith, small, ap (λ xs. length xs.items) grown.same_categories)) in
      let w = split.written in
      let (c, e₂, d) =
        put_count-Decorated lgb.internal_count old new s w.valid
          (omega (arith, w.count, grown.two_more)) x.counted in
      let (u, e₃, d') =
        put_gain-Decorated lib lgb.split_gain old new c d.valid
          (omega (arith, w.count, grown.two_more, d.same_count)) x.gained in
      let same = SameAt-trans s c u new (d.same new) (d'.same new) in
      let to_left = same.left ∙ split.same_left ∙ grown.left in
      let to_right = same.right ∙ split.same_right ∙ grown.right in
      (
        u,
        rw (x.feature_from, e, x.decision_from, e₁, e₂) e₃,
        record {
          written =
              Written-Decorated t c u new 2 (length x.categories)
                (Written-Decorated t s c new 2 (length x.categories)
                  (Written-Grown t g s new (length x.categories) v vg grown w) d)
                d';
          exported = TestExported-SameAt s u old new same split.exported;
          to_left = to_left;
          to_right = to_right;
          pushed = rw (x.left_from, to_left, x.right_from, to_right) refl;
        },
      )
