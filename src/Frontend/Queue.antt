-- ===== src/Frontend/Queue.antt =====
-- The loop over the queue: the new ids in it are consecutive, and end where the nodes of the tree do.
use treelite.Prelude.{
  ℕ, zero, suc, ◌+◌, ◌≤◌, ◌<◌, ◌≡◌, refl, sym, ap, ◌∙◌, arith, ◌⊎◌, inl, inr, List, [], ◌∷◌, ◌++◌,
  ok, some, length, get_elem?, get_elem?-append_lt, get_elem?-drop, drop,
}
use treelite.Tree.{Tree}
use treelite.Tree.Getters.{left_child, right_child}
use treelite.Tree.Invariant.{IsValid}
use treelite.Tree.Free.{Free}
use treelite.Frontend.{IdQueue}
use treelite.Frontend.Kept.{SameAt}
use treelite.Frontend.Source.{Source, Shape, leaf, test, shape_size, shape_categories}

-- The queue with the old ids `os`, whose new ids count up from `k`.
unfoldable pub numbered : ℕ → List ℕ → IdQueue
numbered k [] = []
numbered k (o ∷ os) = (o, k) ∷ numbered (suc k) os

pub numbered-push :
    (k l r : ℕ) (os : List ℕ)
    → numbered k os ++ (l, k + length os) ∷ (r, k + length os + 1) ∷ []
      ≡ numbered k (os ++ l ∷ r ∷ [])
unfolding numbered
numbered-push k l r [] =
    let a : k + 0 ≡ k = omega arith in let b : k + 1 ≡ suc k = omega arith in rw (a, b) refl
numbered-push k l r (o ∷ os) =
    let a : k + suc (length os) ≡ suc k + length os = omega arith in
    rw a (ap (λ q. (o, k) ∷ q) (numbered-push (suc k) l r os))

module _ (source : Source) where
  open source use {Leaf, Test, LeafDone, TestDone, LeafDone-SameAt, TestDone-SameAt}

  abbrev pub Shapes : List ℕ → Type 0
  Shapes [] = Unit
  Shapes (o ∷ os) = Shape source o × Shapes os

  unfoldable pub forest_size : (os : List ℕ) → Shapes os → ℕ
  forest_size [] shapes = 0
  forest_size (o ∷ os) (shape, shapes) = shape_size source shape + forest_size os shapes

  unfoldable pub forest_categories : (os : List ℕ) → Shapes os → ℕ
  forest_categories [] shapes = 0
  forest_categories (o ∷ os) (shape, shapes) =
      shape_categories source shape + forest_categories os shapes

  pub shape_size-pos : {o : ℕ} (s : Shape source o) → 0 < shape_size source s
  unfolding shape_size
  shape_size-pos (leaf x) = omega arith
  shape_size-pos (test x l r) = omega arith

  pub length-le-forest_size : (os : List ℕ) (shapes : Shapes os) → length os ≤ forest_size os shapes
  unfolding forest_size
  length-le-forest_size [] shapes = omega arith
  length-le-forest_size (o ∷ os) (s, shapes) =
      omega (arith, shape_size-pos s, length-le-forest_size os shapes)

  -- The children go to the end of the queue.
  pub push-Shapes :
      (os : List ℕ) (l r : ℕ) (shapes : Shapes os) (left : Shape source l) (right : Shape source r)
      → (more : Shapes (os ++ l ∷ r ∷ [])) × (forest_size (os ++ l ∷ r ∷ []) more
          ≡ forest_size os shapes + (shape_size source left + shape_size source right))
        × (forest_categories (os ++ l ∷ r ∷ []) more
            ≡ forest_categories os shapes
              + (shape_categories source left + shape_categories source right))
  unfolding forest_size forest_categories
  push-Shapes [] l r shapes left right = ((left, (right, tt)), omega arith, omega arith)
  push-Shapes (o ∷ os) l r (s, shapes) left right =
      let (more, e, f) = push-Shapes os l r shapes left right in
      ((s, more), omega (arith, e), omega (arith, f))

  -- A test node whose children are exported from the children of `old`; `origin` has the old id for
  -- each new one.
  pub record Linked (t : Tree) (origin : List ℕ) (old new : ℕ) : Type 0 where
    pub old_left : ℕ
    pub old_right : ℕ
    pub tested : Test old old_left old_right
    pub exported : TestDone t old new
    pub new_left : ℕ
    pub new_right : ℕ
    pub to_left : left_child t new ≡ ok new_left
    pub to_right : right_child t new ≡ ok new_right
    pub left_origin : get_elem? origin new_left ≡ some old_left
    pub right_origin : get_elem? origin new_right ≡ some old_right

  abbrev pub Done : Tree → List ℕ → ℕ → Type 0
  Done t origin new =
      (old : ℕ)
      → get_elem? origin new ≡ some old
      → (Leaf old × LeafDone t old new) ⊎ Linked t origin old new

  -- Nodes up to `k` are done, and `os` are the old ids of the others.
  pub record State (k : ℕ) (origin os : List ℕ) (t : Tree) : Type 0 where
    pub valid : IsValid t
    pub sized : length origin ≡ t.num_nodes
    pub behind : drop k origin ≡ os
    pub inside : k ≤ length origin
    pub free : Free t k
    pub done : (new : ℕ) → new < k → Done t origin new

  -- More nodes, and changes to nodes that are not done, leave a node done.
  pub Done-more :
      (t u : Tree) (origin more : List ℕ) (new : ℕ)
      → new < length origin
      → SameAt t u new
      → Done t origin new
      → Done u (origin ++ more) new
  Done-more t u origin more new l s d old e =
      let keep = λ (i o : ℕ) (h : get_elem? origin i ≡ some o). kept origin more i o h in
      elim (d old (sym (get_elem?-append_lt origin more new l) ∙ e)) [
        | inl x ↦ inl (x.0, LeafDone-SameAt t u old new s x.1)
        | inr x ↦ inr (record {
          exported = TestDone-SameAt t u old new s x.exported;
          old_left = x.old_left;
          old_right = x.old_right;
          tested = x.tested;
          new_left = x.new_left;
          new_right = x.new_right;
          to_left = s.left ∙ x.to_left;
          to_right = s.right ∙ x.to_right;
          left_origin = keep x.new_left x.old_left x.left_origin;
          right_origin = keep x.new_right x.old_right x.right_origin;
        })
      ]
    where
      kept : (xs ys : List ℕ) (i o : ℕ) → get_elem? xs i ≡ some o → get_elem? (xs ++ ys) i ≡ some o
      kept [] ys i o h = cc
      kept (x ∷ xs) ys zero o h = h
      kept (x ∷ xs) ys (suc i) o h = kept xs ys i o h

  pub head_origin :
      (k o : ℕ) (origin os : List ℕ) → drop k origin ≡ o ∷ os → get_elem? origin k ≡ some o
  head_origin k o origin os e =
      let here : k + 0 ≡ k = omega arith in
      rw here at (sym (get_elem?-drop k 0 origin) ∙ ap (λ xs. get_elem? xs 0) e)

  pub tail_origin :
      (k o : ℕ) (origin os : List ℕ) → drop k origin ≡ o ∷ os → drop (suc k) origin ≡ os
  tail_origin zero o [] os e = cc
  tail_origin zero o (x ∷ xs) os e = cc
  tail_origin (suc k) o [] os e = cc
  tail_origin (suc k) o (x ∷ xs) os e = tail_origin k o xs os e
