-- ===== src/Frontend/Written.antt =====
-- What one round of the loop may do to a tree.
use treelite.Prelude.{refl, List, Bool, ℕ, suc, ◌+◌, ◌<◌, ◌≡◌, ◌≢◌, ap, ◌∙◌, arith, length}
use treelite.Base.{TlFloat, Operator}
use treelite.Tree.{Tree}
use treelite.Tree.Invariant.{IsValid}
use treelite.Tree.AddChilds.{Grown}
use treelite.Tree.Leaves.{LeafSet}
use treelite.Tree.Splits.{OthersKept, NumericalSplit}
use treelite.Tree.Categories.{CategoricalSplit}
use treelite.Tree.Free.{Free, Free-suc, Free-CategoricalSplit, left_categories-Grown}
use treelite.Frontend.Kept.{SameAt, left_categories-same, SameAt-at, SameAt-trans, Decorated}

-- `u` is `t` after node `new` was written: with more nodes and more categories, and with none in
-- the nodes behind it.
pub record Written (t : Tree) (new more_nodes more_categories : ℕ) (u : Tree) : Type 0 where
  pub valid : IsValid u
  pub count : u.num_nodes ≡ t.num_nodes + more_nodes
  pub free : Free u (suc new)
  pub categories : length u.left_categories.items ≡ length t.left_categories.items + more_categories
  pub others : (i : ℕ) → i < t.num_nodes → i ≢ new → SameAt t u i

pub Free-same :
    (t u : Tree) (k : ℕ)
    → u.left_categories ≡ t.left_categories
    → u.left_categories_offset ≡ t.left_categories_offset
    → Free t k
    → Free u k
Free-same t u k e f h = rw (e, f) h

-- Statistics that are written afterwards do not matter.
pub Written-Decorated :
    (t u w : Tree) (new n c : ℕ) → Written t new n c u → Decorated u w → Written t new n c w
Written-Decorated t u w new n c a d = record {
  valid = d.valid;
  count = d.same_count ∙ a.count;
  free = Free-same u w (suc new) d.same_categories d.same_offsets a.free;
  categories = ap (λ xs. length xs.items) d.same_categories ∙ a.categories;
  others = λ i l ne. SameAt-trans t u w i (a.others i l ne) (d.same i);
}

pub Written-Grown :
    (t g u : Tree) (new c : ℕ)
    → IsValid t
    → IsValid g
    → Grown t new g
    → Written g new 0 c u
    → Written t new 2 c u
Written-Grown t g u new c v vg grown w = record {
  valid = w.valid;
  count = omega (arith, w.count, grown.two_more);
  free = w.free;
  categories = w.categories ∙ ap (λ n. n + c) (ap (λ xs. length xs.items) grown.same_categories);
  others = λ i l ne.
      SameAt-trans t g u i
        (SameAt-at t g i (grown.others i l ne) (left_categories-Grown t g new i v vg grown l))
        (w.others i (omega (arith, grown.two_more)) ne);
}

-- A change of one node, which has no categories.
pub Written-others :
    (t u : Tree) (new c : ℕ)
    → IsValid u
    → Free t new
    → OthersKept t new u
    → u.left_categories ≡ t.left_categories
    → u.left_categories_offset ≡ t.left_categories_offset
    → u.num_nodes ≡ t.num_nodes
    → c ≡ 0
    → Written t new 0 c u
Written-others t u new c v f kept same_categories same_offsets same_count nothing = record {
  valid = v;
  count = omega (arith, same_count);
  free = Free-same t u (suc new) same_categories same_offsets (Free-suc t new f);
  categories = omega (arith, ap (λ xs. length xs.items) same_categories, nothing);
  others = λ i l ne.
      SameAt-at t u i (kept i ne) (left_categories-same t u i same_categories same_offsets);
}

pub Written-LeafSet :
    (t u : Tree) (new : ℕ) (value : TlFloat)
    → IsValid u
    → Free t new
    → LeafSet t new value u
    → Written t new 0 0 u
Written-LeafSet t u new value v f s =
    Written-others t u new 0 v f s.others s.same_categories s.same_offsets s.same_count refl

pub Written-NumericalSplit :
    (t u : Tree) (new c s : ℕ) (th : TlFloat) (d : Bool) (op : Operator)
    → IsValid u
    → Free t new
    → NumericalSplit t new s th d op u
    → c ≡ 0
    → Written t new 0 c u
Written-NumericalSplit t u new c s th d op v f x nothing =
    Written-others t u new c v f x.others x.same_categories x.same_offsets x.same_count nothing

pub Written-CategoricalSplit :
    (t u : Tree) (new c s : ℕ) (d mz : Bool) (categories : List ℕ)
    → IsValid t
    → new < t.num_nodes
    → IsValid u
    → CategoricalSplit t new s d mz categories u
    → c ≡ length categories
    → Written t new 0 c u
Written-CategoricalSplit t u new c s d mz categories v inside vu x all = record {
  valid = vu;
  count = omega (arith, x.same_count);
  free = Free-CategoricalSplit t u new s d mz categories x (omega (arith, v.categories_offsets));
  categories = omega (arith, x.more_categories, all);
  others = λ i l ne. SameAt-at t u i (x.others i ne) (x.other_categories i l ne);
}
