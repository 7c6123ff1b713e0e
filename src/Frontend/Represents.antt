-- ===== src/Frontend/Represents.antt =====
-- A tree that the loop has copied represents the tree that it has copied.
use treelite.Prelude.{
  ℕ, zero, suc, ◌≤◌, ◌<◌, ◌≡◌, refl, sym, ap, ◌∙◌, arith, inl, inr, List, [], ◌∷◌, ok, some, length,
  get_elem?,
}
use treelite.Base.{int_max}
use treelite.Tree.{Tree}
use treelite.Tree.Invariant.{IsValid}
use treelite.Tree.Leaves.{one_leaf, one_leaf-IsValid}
use treelite.Tree.Setters.{all_equal}
use treelite.Frontend.{run_queue}
use treelite.Frontend.Source.{
  Source, Shape, leaf, test, shape_size, shape_categories, Represents, leaf_as, test_as,
}
use treelite.Frontend.Queue.{numbered, Done, State, forest_size, forest_categories}
use treelite.Frontend.Loop.{run_queue-Ended}

module _ (source : Source) where
  -- Where all nodes are done, the nodes represent what they come from.
  Represents-Done :
      (t : Tree) (origin : List ℕ)
      → ((new : ℕ) → Done source t origin new)
      → {old : ℕ} (shape : Shape source old) (new : ℕ) → get_elem? origin new ≡ some old
      → Represents source t old new
  Represents-Done t origin done {old} (leaf x) new e = elim (done new old e) [
    | inl y ↦ leaf_as x y.1
    | inr y ↦ absurd (source.exclusive old y.old_left y.old_right x y.tested)
  ]
  Represents-Done t origin done {old} (test {left} {right} x sl sr) new e = elim (done new old e) [
    | inl y ↦ absurd (source.exclusive old left right y.0 x)
    | inr y ↦
        let (l, r) = source.unique old left right y.old_left y.old_right x y.tested in
        test_as x y.exported y.to_left y.to_right
          (Represents-Done t origin done sl y.new_left (y.left_origin ∙ ap some (sym l)))
          (Represents-Done t origin done sr y.new_right (y.right_origin ∙ ap some (sym r)))
  ]

  start : (root : ℕ) → State source 0 (root ∷ []) (root ∷ []) one_leaf
  unfolding all_equal
  start root = record {
    valid = one_leaf-IsValid;
    sized = refl;
    behind = refl;
    inside = omega arith;
    free = refl;
    done = λ new h. absurd (omega arith);
  }

  get_elem?-inside : (xs : List ℕ) (i x : ℕ) → get_elem? xs i ≡ some x → i < length xs
  get_elem?-inside [] i x h = cc
  get_elem?-inside (y ∷ xs) zero x h = omega arith
  get_elem?-inside (y ∷ xs) (suc i) x h = omega (arith, get_elem?-inside xs i x h)

  -- From a fresh tree and the root alone in the queue, the loop ends with a valid tree that
  -- represents the source, whatever the fuel above its number of nodes.
  pub run_queue-Represents :
      (fuel root : ℕ) (shape : Shape source root)
      → shape_size source shape < fuel
      → shape_size source shape ≤ int_max
      → shape_categories source shape < 0x8000_0000_0000_0000
      → (t : Tree) × (run_queue source.visit fuel ((root, 0) ∷ []) one_leaf ≡ ok t)
        × IsValid t
        × Represents source t root 0
  unfolding forest_size forest_categories numbered
  run_queue-Represents fuel root shape enough small few =
      let (t, r, e) =
        run_queue-Ended source fuel 0 (root ∷ []) (root ∷ []) one_leaf (shape, tt) (start root)
          (omega arith) (omega arith) (omega arith) in
      let done : (new : ℕ) → Done source t e.final_origin new =
        λ new old h. e.state.done new (get_elem?-inside e.final_origin new old h) old h in
      (t, r, e.state.valid, Represents-Done t e.final_origin done shape 0 (e.keeps 0 root refl))
