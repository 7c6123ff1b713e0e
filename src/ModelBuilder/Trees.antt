-- ===== src/ModelBuilder/Trees.antt =====
-- `InsertTree`: what is known of the trees of a model builder, and of a builder after it.
use treelite.Prelude.{
  ◌⊎◌, ◌<◌, Option, sym, refl, ◌∙◌, ltb→lt, &&-split, ℕ, zero, suc, ◌+◌, ◌≡◌, inl, inr, true, not,
  ◌&&◌, List, [], ◌∷◌, ◌++◌, none, Result, ok, err, ◌>>=◌, ◌>>◌, guard, or_fault, check_failed,
  >>=-eq-ok, ok-injective, length, take, drop, All, ltb, leb, ◌==◌, Bool-cases,
}
use treelite.Base.{minus_one}
use treelite.Builder.{BuilderNode, TreeState, numerical_test, categorical_test, deref}
use treelite.ModelBuilder.{
  TreeBuilder, ModelState, split_in_bounds, check_splits, place_tree, insert_tree,
}

-- A node with a test, numerical or categorical, tests a feature below `num_feature`.
unfoldable pub FeatureBelow : ℕ → List (Option BuilderNode) → ℕ × ℕ → Type 0
FeatureBelow num_feature heap entry =
    (node : BuilderNode)
    → deref heap entry.1 ≡ ok node
    → (node.status ≡ numerical_test) ⊎ (node.status ≡ categorical_test)
    → node.feature_id < num_feature

-- The features of the tests in the tree are below `num_feature`.
unfoldable pub Checked : ℕ → TreeState → Type 0
Checked num_feature tree = All (FeatureBelow num_feature tree.heap) tree.nodes

split_in_bounds-below :
    (num_feature : ℕ) (node : BuilderNode)
    → split_in_bounds num_feature node ≡ true
    → (node.status ≡ numerical_test) ⊎ (node.status ≡ categorical_test)
    → node.feature_id < num_feature
unfolding split_in_bounds
split_in_bounds-below num_feature node b (inl p) = ltb→lt _ _ (&&-split _ _ (rw p at b)).1
split_in_bounds-below num_feature node b (inr p) = ltb→lt _ _ (&&-split _ _ (rw p at b)).1

check_splits-below :
    (num_feature : ℕ) (heap : List (Option BuilderNode)) (entries : List (ℕ × ℕ))
    → check_splits num_feature heap entries ≡ ok tt
    → All (FeatureBelow num_feature heap) entries
unfolding check_splits FeatureBelow
check_splits-below num_feature heap [] h = tt
check_splits-below num_feature heap (entry ∷ entries) h =
    let invalid = check_failed "InsertTree: tree has an invalid split" in
    let (node, there, h₁) =
      >>=-eq-ok (deref heap entry.1)
        (λ node.
          guard (split_in_bounds num_feature node) invalid >> check_splits num_feature heap entries)
        h in
    elim (Bool-cases (split_in_bounds num_feature node)) [
      | inl b ↦
          let rest : check_splits num_feature heap entries ≡ ok tt = rw b at h₁ in
          let below : FeatureBelow num_feature heap entry = λ node' e tests.
            let same : node ≡ node' = ok-injective (sym there ∙ e) in
            rw (← same) (split_in_bounds-below num_feature node b (rw (← same) at tests)) in
          (below, check_splits-below num_feature heap entries rest)
      | inr b ↦ let bad : err invalid ≡ ok tt = rw b at h₁ in cc
    ]

module _ (P : TreeState → Type 0) where
  All-append : (xs ys : List TreeState) → All P xs → All P ys → All P (xs ++ ys)
  All-append [] ys a b = b
  All-append (x ∷ xs) ys a b = (a.0, All-append xs ys a.1 b)

  All-take : (n : ℕ) (xs : List TreeState) → All P xs → All P (take n xs)
  All-take zero xs a = tt
  All-take (suc n) [] a = tt
  All-take (suc n) (x ∷ xs) a = (a.0, All-take n xs a.1)

  All-drop : (n : ℕ) (xs : List TreeState) → All P xs → All P (drop n xs)
  All-drop zero xs a = a
  All-drop (suc n) [] a = tt
  All-drop (suc n) (x ∷ xs) a = All-drop n xs a.1

  place_tree-All :
      (index : ℕ) (tree : TreeState) (trees : List TreeState) (r : ℕ × List TreeState)
      → P tree
      → All P trees
      → place_tree index tree trees ≡ ok r
      → All P r.1
  unfolding place_tree
  place_tree-All index tree trees r p a h = elim (Bool-cases (index == minus_one)) [
    | inl e ↦
        let same : ok (length trees + 1, trees ++ tree ∷ []) ≡ ok r = rw (place_tree, e) at h in
        rw (← ok-injective same) (All-append trees (tree ∷ []) a (p, tt))
    | inr e ↦ elim (Bool-cases (ltb index 0x8000_0000 && leb index (length trees))) [
      | inl f ↦
          let same : ok (index, take index trees ++ tree ∷ drop index trees) ≡ ok r =
            rw (place_tree, e, f) at h in
          rw (← ok-injective same) (
            All-append (take index trees) (tree ∷ drop index trees) (All-take index trees a)
              (p, All-drop index trees a))
      | inr f ↦
          let bad : err (check_failed "CreateTree: index out of bound") ≡ ok r =
            rw (place_tree, e, f) at h in
          cc
    ]
  ]

-- Where `InsertTree` succeeds on a model builder all of whose trees have only tests of features below
-- its number of features, this holds of its trees afterwards too, wherever the new tree goes; and the
-- builder that was inserted is refused from then on, by every model builder and at every place.
pub insert_tree-Checked :
    (b : TreeBuilder) (index : ℕ) (s : ModelState) (r : ℕ × TreeBuilder × ModelState)
    → All (Checked s.num_feature) s.trees
    → insert_tree b index s ≡ ok r
    → All (Checked s.num_feature) r.2.trees
      × ((index' : ℕ) (s' : ModelState)
          → insert_tree r.1 index' s'
            ≡ err (check_failed "InsertTree: tree is already part of another ensemble"))
unfolding insert_tree Checked
insert_tree-Checked b index s r a h =
    let done : ℕ × List TreeState → Result (ℕ × TreeBuilder × ModelState) =
      λ q. ok (q.0, record { pimpl = none; in_ensemble = true }, record s { trees = q.1 }) in
    let failed = check_failed "InsertTree: tree is already part of another ensemble" in
    let (_, _, h₁) =
      >>=-eq-ok (guard (not b.in_ensemble) failed)
        (λ _. or_fault b.pimpl >>= λ tree.
          check_splits s.num_feature tree.heap tree.nodes
          >> (place_tree index tree s.trees >>= done))
        h in
    let (tree, _, h₂) =
      >>=-eq-ok (or_fault b.pimpl)
        (λ tree.
          check_splits s.num_feature tree.heap tree.nodes
          >> (place_tree index tree s.trees >>= done))
        h₁ in
    let (u, c, h₃) =
      >>=-eq-ok (check_splits s.num_feature tree.heap tree.nodes)
        (λ _. place_tree index tree s.trees >>= done) h₂ in
    let (q, e, h₄) = >>=-eq-ok (place_tree index tree s.trees) done h₃ in
    let below = check_splits-below s.num_feature tree.heap tree.nodes c in
    rw (← ok-injective h₄)
      (place_tree-All (Checked s.num_feature) index tree s.trees q below a e, λ index' s'. refl)
