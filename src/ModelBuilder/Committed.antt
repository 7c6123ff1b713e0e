-- ===== src/ModelBuilder/Committed.antt =====
-- `CommitModel` on trees without leaf vectors: its loop is that of the loaders, with a flag beside it.
pub mod Nodes
pub mod Represents
use treelite.Prelude.{
  ℕ, zero, suc, ◌≡◌, refl, ap, ◌∙◌, true, false, inl, inr, ◌⊎◌, List, [], ◌∷◌, ◌++◌, Option, none,
  some, Result, ok, err, ◌>>=◌, ◌>>◌, guard, ◌&&◌, ok-injective, >>=-eq-ok,
}
use mathlib.Core.List.{append-nil}
use treelite.Tree.{Tree, Node, add_childs, set_leaf}
use treelite.Tree.Getters.{left_child, right_child}
use treelite.Tree.Setters.{set_numerical_split, set_categorical_split}
use treelite.Base.{TlFloat}
use treelite.Builder.{
  BuilderNode, Status, empty_status, numerical_test, categorical_test, leaf_status, deref, is_null,
}
use treelite.ModelBuilder.{
  Commit, LeafVectorUse, indeterminate, no_leaf, every_leaf, check_children, push_children,
  commit_value, commit_leaf, commit_status, commit_node, commit_queue,
}
use treelite.Frontend.{IdQueue, run_queue}

-- A chain that ends with a value, and another over the same first call.
bind_ok :
    {A B C : Type 0} (r : Result A) (k : A → Result B) (k' : A → Result C) (b : B) (c : C)
    → (r >>= k) ≡ ok b
    → ((a : A) → k a ≡ ok b → k' a ≡ ok c)
    → (r >>= k') ≡ ok c
bind_ok (err why) k k' b c e h = cc
bind_ok (ok a) k k' b c e h = h a e

-- The flag after a round: a leaf pushes nothing.
abbrev flag_after : LeafVectorUse → IdQueue → LeafVectorUse
flag_after flag [] = no_leaf
flag_after flag (x ∷ xs) = flag

-- The round with `q` in the queue, from what it does to an empty queue.
abbrev pub finish : IdQueue → LeafVectorUse → Commit → Commit
finish q flag c = record { queue = q ++ c.queue; tree = c.tree; flag = flag_after flag c.queue }

-- There was no leaf, or none with a vector.
abbrev pub IsScalar : LeafVectorUse → Type 0
IsScalar flag = (flag ≡ no_leaf) ⊎ (flag ≡ indeterminate)

push_children-finish :
    (children : ℕ × ℕ) (nid : ℕ) (t : Tree) (q : IdQueue) (flag : LeafVectorUse) (c : Commit)
    → push_children children nid t [] no_leaf ≡ ok c
    → push_children children nid t q flag ≡ ok (finish q flag c)
unfolding push_children
push_children-finish children nid t q flag c e =
    bind_ok (left_child t nid) _ _ c (finish q flag c) e λ l e₁.
      bind_ok (right_child t nid) _ _ c (finish q flag c) e₁
        λ r e₂. ap (λ d. ok (finish q flag d)) (ok-injective e₂)

module _ (n nid : ℕ) (t : Tree) (q : IdQueue) (flag : LeafVectorUse) (c : Commit)
    (scalar : IsScalar flag) where
  commit_value-finish :
      (v : List TlFloat) (info : TlFloat)
      → commit_value n v info nid t [] no_leaf ≡ ok c
      → commit_value n v info nid t q flag ≡ ok (finish q flag c)
  unfolding commit_value
  commit_value-finish [] info e = rw allowed (
      bind_ok (set_leaf nid info t) _ _ c (finish q flag c) e
        λ t' e₁. rw (append-nil q) at (ap (λ d. ok (finish q flag d)) (ok-injective e₁)))
    where
      allowed : elim flag [ every_leaf ↦ false | _ ↦ true ] ≡ true
      allowed = elim scalar [ inl a ↦ rw a refl | inr a ↦ rw a refl ]
  commit_value-finish (x ∷ xs) info e = cc

  commit_leaf-finish :
      (node : BuilderNode)
      → commit_leaf n node nid t [] no_leaf ≡ ok c
      → commit_leaf n node nid t q flag ≡ ok (finish q flag c)
  unfolding commit_leaf
  commit_leaf-finish node e =
      bind_ok (guard (is_null node.left_child && is_null node.right_child) _) _ _ c
        (finish q flag c) e λ u e₁. commit_value-finish node.leaf_vector node.info e₁

  module _ (junk : Node) (heap : List (Option BuilderNode)) (p : ℕ) where
    commit_status-finish :
        (node : BuilderNode) (status : Status)
        → commit_status junk n heap p node status nid t [] no_leaf ≡ ok c
        → commit_status junk n heap p node status nid t q flag ≡ ok (finish q flag c)
    unfolding commit_status
    commit_status-finish node empty_status e = cc
    commit_status-finish node leaf_status e = commit_leaf-finish node e
    commit_status-finish node numerical_test e =
        bind_ok (check_children heap p node) _ _ c (finish q flag c) e λ children e₁.
          bind_ok (add_childs junk nid t) _ _ c (finish q flag c) e₁ λ t₁ e₂.
            bind_ok (set_numerical_split nid node.feature_id node.info node.default_left node.op t₁)
              _ _ c (finish q flag c) e₂ λ t₂ e₃. push_children-finish children nid t₂ q flag c e₃
    commit_status-finish node categorical_test e =
        bind_ok (check_children heap p node) _ _ c (finish q flag c) e λ children e₁.
          bind_ok (add_childs junk nid t) _ _ c (finish q flag c) e₁ λ t₁ e₂.
            bind_ok
              (set_categorical_split nid node.feature_id node.default_left false
                node.left_categories t₁)
              _ _ c (finish q flag c) e₂ λ t₂ e₃. push_children-finish children nid t₂ q flag c e₃

    commit_node-finish :
        commit_node junk n heap p nid t [] no_leaf ≡ ok c
        → commit_node junk n heap p nid t q flag ≡ ok (finish q flag c)
    unfolding commit_node
    commit_node-finish e =
        bind_ok (deref heap p) _ _ c (finish q flag c) e
          λ node e₁. commit_status-finish node node.status e₁

-- One round on an empty queue and leaves without vectors.
unfoldable pub scalar_visit :
    Node → ℕ → List (Option BuilderNode) → ℕ → ℕ → Tree → Result (IdQueue × Tree)
unfolding commit_node
scalar_visit junk n heap p nid t = do
  c ← commit_node junk n heap p nid t [] no_leaf
  ok (c.queue, c.tree)

-- There is a leaf ahead, or there was one.
unfoldable pub LeafAhead : LeafVectorUse → IdQueue → Type 0
LeafAhead flag q =
    (flag ≡ no_leaf) ⊎ ((flag ≡ indeterminate) × (x : ℕ × ℕ) × (xs : IdQueue) × (q ≡ x ∷ xs))

LeafAhead-IsScalar : (flag : LeafVectorUse) (q : IdQueue) → LeafAhead flag q → IsScalar flag
unfolding LeafAhead
LeafAhead-IsScalar flag q (inl a) = inl a
LeafAhead-IsScalar flag q (inr (a, y, ys, b)) = inr a

nonempty-append :
    (q : IdQueue) (x : ℕ × ℕ) (xs : IdQueue) → (y : ℕ × ℕ) × (ys : IdQueue) × (q ++ x ∷ xs ≡ y ∷ ys)
nonempty-append [] x xs = (x, xs, refl)
nonempty-append (y ∷ q) x xs = (y, q ++ x ∷ xs, refl)

-- A leaf sets the flag, and a test node pushes its children.
LeafAhead-append :
    (flag : LeafVectorUse) (q before pushed : IdQueue)
    → LeafAhead flag before
    → LeafAhead (flag_after flag pushed) (q ++ pushed)
unfolding LeafAhead
LeafAhead-append flag q before [] ahead = inl refl
LeafAhead-append flag q before (x ∷ xs) (inl a) = inl a
LeafAhead-append flag q before (x ∷ xs) (inr (a, y, ys, b)) =
    let (z, zs, e) = nonempty-append q x xs in inr (a, z, zs, e)

module _ (junk : Node) (n : ℕ) (heap : List (Option BuilderNode)) where
  -- The loop of `CommitModel` ends as that of the loaders does.
  pub commit_queue-run_queue :
      (fuel : ℕ) (q : IdQueue) (t t' : Tree) (flag : LeafVectorUse)
      → LeafAhead flag q
      → run_queue (scalar_visit junk n heap) fuel q t ≡ ok t'
      → commit_queue junk n fuel heap q t flag ≡ ok (t', no_leaf)
  unfolding run_queue commit_queue LeafAhead scalar_visit
  commit_queue-run_queue zero q t t' flag ahead e = cc
  commit_queue-run_queue (suc fuel) [] t t' flag (inl a) e =
      rw a (ap (λ u. ok (u, no_leaf)) (ok-injective e))
  commit_queue-run_queue (suc fuel) [] t t' flag (inr (a, x, xs, b)) e = cc
  commit_queue-run_queue (suc fuel) ((p, nid) ∷ q) t t' flag ahead e =
      let (x, v, r) = >>=-eq-ok (scalar_visit junk n heap p nid t) _ e in
      let (c, v₁, v₂) = >>=-eq-ok (commit_node junk n heap p nid t [] no_leaf) _ v in
      let round =
        commit_node-finish n nid t q flag c (LeafAhead-IsScalar flag ((p, nid) ∷ q) ahead) junk heap
          p v₁ in
      let left : run_queue (scalar_visit junk n heap) fuel (q ++ c.queue) c.tree ≡ ok t' =
        ap (λ y. run_queue (scalar_visit junk n heap) fuel (q ++ y.0) y.1) (ok-injective v₂) ∙ r in
      let next = LeafAhead-append flag q ((p, nid) ∷ q) c.queue ahead in
      rw round
        (commit_queue-run_queue fuel (q ++ c.queue) c.tree t' (flag_after flag c.queue) next left)
