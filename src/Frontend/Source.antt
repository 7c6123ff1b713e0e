-- ===== src/Frontend/Source.antt =====
-- The interface of the loop: what a loader has to say about its nodes, and to prove of its visits.
use treelite.Prelude.{ℕ, suc, ◌+◌, ◌≤◌, ◌<◌, ◌≡◌, [], ◌∷◌, ok, length}
use treelite.Base.{int_max}
use treelite.Tree.{Tree}
use treelite.Tree.Getters.{left_child, right_child}
use treelite.Tree.Invariant.{IsValid}
use treelite.Tree.Free.{Free}
use treelite.Frontend.{Visit}
use treelite.Frontend.Kept.{SameAt}
use treelite.Frontend.Written.{Written}

pub record Source : Type 1 where
  pub visit : Visit
  -- the old id is that of a leaf, or of a test node with these children
  pub Leaf : ℕ → Type 0
  pub Test : ℕ → ℕ → ℕ → Type 0
  pub categories : (old left right : ℕ) → Test old left right → ℕ
  -- what the new node says of the old one
  pub LeafDone : Tree → ℕ → ℕ → Type 0
  pub TestDone : Tree → ℕ → ℕ → Type 0
  pub LeafDone-SameAt :
      (t u : Tree) (old new : ℕ) → SameAt t u new → LeafDone t old new → LeafDone u old new
  pub TestDone-SameAt :
      (t u : Tree) (old new : ℕ) → SameAt t u new → TestDone t old new → TestDone u old new
  pub exclusive : (old left right : ℕ) → Leaf old → Test old left right → ⊥
  pub unique :
      (old left right left' right' : ℕ)
      → Test old left right
      → Test old left' right'
      → (left ≡ left') × (right ≡ right')
  pub visit_leaf :
      (t : Tree) (old new : ℕ)
      → IsValid t
      → new < t.num_nodes
      → Free t new
      → Leaf old
      → (u : Tree) × (visit old new t ≡ ok ([], u)) × Written t new 0 0 u × LeafDone u old new
  pub visit_test :
      (t : Tree) (old left right new : ℕ)
      → IsValid t
      → new < t.num_nodes
      → t.num_nodes + 2 ≤ int_max
      → Free t new
      → (x : Test old left right)
      → length t.left_categories.items + categories old left right x < 0x8000_0000_0000_0000
      → (u : Tree) × (visit old new t ≡ ok ((left, t.num_nodes) ∷ (right, t.num_nodes + 1) ∷ [], u))
        × Written t new 2 (categories old left right x) u
        × TestDone u old new
        × (left_child u new ≡ ok t.num_nodes)
        × (right_child u new ≡ ok (t.num_nodes + 1))

module _ (source : Source) where
  open source use {Leaf, Test, categories, LeafDone, TestDone}

  -- From an old id on, the nodes of the source are a tree.
  pub data Shape : ℕ → Type 0 where
    leaf : {old : ℕ} → Leaf old → Shape old
    test : {old left right : ℕ} → Test old left right → Shape left → Shape right → Shape old

  unfoldable pub shape_size : {old : ℕ} → Shape old → ℕ
  shape_size (leaf x) = 1
  shape_size (test x left right) = suc (shape_size left + shape_size right)

  -- How many categories its tests have in all.
  unfoldable pub shape_categories : {old : ℕ} → Shape old → ℕ
  shape_categories (leaf x) = 0
  shape_categories {old} (test {left} {right} x s r) =
      categories old left right x + (shape_categories s + shape_categories r)

  -- The subtree at node `new` is the tree of the source at `old`.
  pub data Represents (t : Tree) : ℕ → ℕ → Type 0 where
    leaf_as : {old new : ℕ} → Leaf old → LeafDone t old new → Represents t old new
    test_as :
        {old old_left old_right new new_left new_right : ℕ}
        → Test old old_left old_right
        → TestDone t old new
        → left_child t new ≡ ok new_left
        → right_child t new ≡ ok new_right
        → Represents t old_left new_left
        → Represents t old_right new_right
        → Represents t old new
