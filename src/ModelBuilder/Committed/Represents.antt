-- ===== src/ModelBuilder/Committed/Represents.antt =====
-- The trees of a committed model are those of its builder.
use treelite.Prelude.{
  ℕ, ◌≤◌, ◌<◌, ◌≡◌, refl, arith, ◌⊎◌, inl, inr, false, List, [], ◌∷◌, Option, some, String, Result,
  ok, All, length,
}
use treelite.Base.{int_max}
use treelite.Tree.{Tree, Node}
use treelite.Tree.Invariant.{IsValid}
use treelite.Tree.Leaves.{one_leaf, init-default_tree}
use treelite.Frontend.Source.{Source, Shape, leaf, test, shape_size, shape_categories, Represents}
use treelite.Frontend.Represents.{run_queue-Represents}
use treelite.Builder.{BuilderNode, TreeState, deref, is_empty}
use treelite.ModelBuilder.{
  ModelState, LeafVectorUse, indeterminate, no_leaf, commit_tree, commit_trees, commit_model,
  check_model,
}
use treelite.ModelBuilder.Committed.{LeafAhead, scalar_visit, commit_queue-run_queue}
use treelite.ModelBuilder.Committed.Nodes.{
  LeafOk, TestOk, LeafCommitted, TestCommitted, LeafCommitted-SameAt, TestCommitted-SameAt,
  exclusive, unique, visit_leaf, visit_test,
}

-- The nodes in the memory of a tree builder.
abbrev pub builder_source : Node → ℕ → List (Option BuilderNode) → Source
builder_source junk n heap = record {
  visit = scalar_visit junk n heap;
  Leaf = LeafOk heap;
  Test = TestOk heap;
  categories = λ p left right x. length x.categories;
  LeafDone = LeafCommitted heap;
  TestDone = TestCommitted heap;
  LeafDone-SameAt = LeafCommitted-SameAt heap;
  TestDone-SameAt = TestCommitted-SameAt heap;
  exclusive = exclusive heap;
  unique = unique heap;
  visit_leaf = visit_leaf heap junk n;
  visit_test = visit_test heap junk n;
}

module _ (junk : Node) (n fuel : ℕ) where
  -- The tree has a root, from which its nodes are a tree without leaf vectors, whose size is in
  -- bounds.
  pub record Finished (s : TreeState) : Type 0 where
    pub root : ℕ
    pub has_root : s.root ≡ some root
    pub shape : Shape (builder_source junk n s.heap) root
    pub enough : shape_size (builder_source junk n s.heap) shape < fuel
    pub small : shape_size (builder_source junk n s.heap) shape ≤ int_max
    pub few : shape_categories (builder_source junk n s.heap) shape < 0x8000_0000_0000_0000

  -- The tree is that of the builder.
  pub record Committed (s : TreeState) (t : Tree) : Type 0 where
    pub root : ℕ
    pub has_root : s.root ≡ some root
    pub valid : IsValid t
    pub represents : Represents (builder_source junk n s.heap) t root 0

  unfoldable pub AllCommitted : List TreeState → List Tree → Type 0
  AllCommitted [] [] = Unit
  AllCommitted (s ∷ ss) (t ∷ ts) = Committed s t × AllCommitted ss ts
  AllCommitted ss ts = ⊥

  root_node :
      (heap : List (Option BuilderNode)) (root : ℕ)
      → Shape (builder_source junk n heap) root
      → (node : BuilderNode) × (deref heap root ≡ ok node) × (is_empty node.status ≡ false)
  unfolding is_empty
  root_node heap root (leaf x) = (x.node, x.there, rw x.at_leaf refl)
  root_node heap root (test x l r) = (
    x.node,
    x.there,
    elim x.kind [ inl (status, c) ↦ rw status refl | inr (status, c) ↦ rw status refl ],
  )

  commit_tree-Committed :
      (s : TreeState) (flag : LeafVectorUse)
      → (flag ≡ no_leaf) ⊎ (flag ≡ indeterminate)
      → Finished s
      → (t : Tree) × (commit_tree junk n fuel s flag ≡ ok (t, no_leaf)) × Committed s t
  unfolding commit_tree LeafAhead
  commit_tree-Committed s flag scalar x =
      let (node, there, filled) = root_node s.heap x.root x.shape in
      let (t, e, valid, represents) =
        run_queue-Represents (builder_source junk n s.heap) fuel x.root x.shape x.enough x.small
          x.few in
      let ahead : LeafAhead flag ((x.root, 0) ∷ []) = elim scalar [
        | inl a ↦ inl a
        | inr a ↦ inr (a, (x.root, 0), [], refl)
      ] in
      (
        t,
        rw (x.has_root, there, filled, init-default_tree junk 0)
            (commit_queue-run_queue junk n s.heap fuel ((x.root, 0) ∷ []) one_leaf t flag ahead e),
        record { root = x.root; has_root = x.has_root; valid = valid; represents = represents },
      )

  commit_trees-Committed :
      (ss : List TreeState)
      → All Finished ss
      → (ts : List Tree) × (commit_trees junk n fuel ss no_leaf ≡ ok (ts, no_leaf))
        × AllCommitted ss ts
  unfolding commit_trees AllCommitted
  commit_trees-Committed [] x = ([], refl, tt)
  commit_trees-Committed (s ∷ ss) (x, more) =
      let (t, e, c) = commit_tree-Committed s no_leaf (inl refl) x in
      let (ts, e', cs) = commit_trees-Committed ss more in (t ∷ ts, rw (e, e') refl, (c, cs))

-- Where each tree of a model builder has a root from which its nodes are a tree without leaf vectors,
-- of at most 2 ^ 31 - 1 nodes and with fewer than 2 ^ 63 categories, there is at least one tree, the
-- parameters are accepted, the checks on the number of trees let leaves without vectors pass, and the
-- fuel is more than the number of nodes of each tree, `CommitModel` succeeds; its trees are valid, as
-- many as those of the builder, and represent them in their order: leaf for leaf and test for test;
-- the number of features, of output groups and the flag are those of the builder.
pub commit_model-AllCommitted :
    {P : Type 0} (init_param : List (String × String) → Result P) (param : P) (junk : Node)
    (fuel : ℕ) (s : ModelState)
    → init_param s.cfg ≡ ok param
    → 0 < length s.trees
    → All (Finished junk s.num_output_group fuel) s.trees
    → check_model no_leaf (length s.trees) s ≡ ok tt
    → (ts : List Tree) × (commit_model init_param junk fuel s
        ≡ ok (record {
          trees = ts;
          num_feature = s.num_feature;
          num_output_group = s.num_output_group;
          random_forest_flag = s.random_forest_flag;
          param = param;
        }))
      × AllCommitted junk s.num_output_group fuel s.trees ts
unfolding commit_model commit_trees AllCommitted
commit_model-AllCommitted init_param param junk fuel s accepted some_tree finished allowed =
    let (ts, e, c) = all_trees s.trees some_tree finished in (ts, rw (accepted, e, allowed) refl, c)
  where
    all_trees :
        (ss : List TreeState)
        → 0 < length ss
        → All (Finished junk s.num_output_group fuel) ss
        → (ts : List Tree) × (commit_trees junk s.num_output_group fuel ss indeterminate
            ≡ ok (ts, no_leaf))
          × AllCommitted junk s.num_output_group fuel ss ts
    all_trees [] h x = absurd (omega (arith, h))
    all_trees (s' ∷ ss) h (x, more) =
        let (t, e, c) =
          commit_tree-Committed junk s.num_output_group fuel s' indeterminate (inr refl) x in
        let (ts, e', cs) = commit_trees-Committed junk s.num_output_group fuel ss more in
        (t ∷ ts, rw (e, e') refl, (c, cs))
