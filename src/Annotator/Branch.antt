-- ===== src/Annotator/Branch.antt =====
-- What a test node decides: on a tree and a row that fit each other it picks one of its children.
use treelite.Prelude.{
  ℕ, ◌+◌, ◌<◌, ◌≡◌, refl, Bool, true, false, ◌⊎◌, inl, inr, ◌≢◌, List, ok, some, get_elem?, ◌==◌,
  Bool-cases, if◌then◌else◌,
}
use treelite.Base.{
  TlFloat, minus_one, numerical, categorical, compare_with_op, Operator, no_op, eq, lt, le, gt, ge,
  float_to_uint32,
}
use treelite.ContiguousArray.{at}
use treelite.Tree.{Node, Tree}
use treelite.Tree.Getters.{
  left_child, right_child, default_left, default_child, split_index, threshold, comparison_op,
  split_type, left_categories, split_index_of, default_left_of,
}
use treelite.Tree.Invariant.{IsValid}
use treelite.Tree.Append.{left_categories-total}
use treelite.Annotator.{Entry, branch, test_node, binary_search}

-- A test that does not throw on a value that is there: the operator is set, or the value is a
-- category.
abbrev pub Testable : Node → Entry → Type 0
Testable node entry =
    ((node.split_type ≡ numerical) × (node.cmp ≢ no_op))
    ⊎ ((node.split_type ≡ categorical) × ((c : ℕ) × (float_to_uint32 entry ≡ ok c)))

-- The row has an entry for the feature of each test node, and the test of it does not throw.
pub record Fits (t : Tree) (entries : List Entry) (base : ℕ) : Type 0 where
  pub entry :
      (i : ℕ) (node : Node)
      → get_elem? t.nodes.items i ≡ some node
      → node.cleft ≢ minus_one
      → (e : Entry) × (get_elem? entries (base + split_index_of node.sindex) ≡ some e)
        × Testable node e

pub compare_with_op-ok :
    (op : Operator) (x y : TlFloat) → op ≢ no_op → (b : Bool) × (compare_with_op x op y ≡ ok b)
unfolding compare_with_op
compare_with_op-ok no_op x y h = absurd (h refl)
compare_with_op-ok eq x y h = (_, refl)
compare_with_op-ok lt x y h = (_, refl)
compare_with_op-ok le x y h = (_, refl)
compare_with_op-ok gt x y h = (_, refl)
compare_with_op-ok ge x y h = (_, refl)

test_node-ok :
    (t : Tree) (nid : ℕ) (node : Node) (entry : Entry) (categories : List ℕ)
    → get_elem? t.nodes.items nid ≡ some node
    → left_categories t nid ≡ ok categories
    → Testable node entry
    → (b : Bool) × (test_node t nid entry ≡ ok b)
unfolding test_node split_type threshold comparison_op at
test_node-ok t nid node entry categories e c (inl (ty, op)) =
    let (b, eb) = compare_with_op-ok node.cmp entry node.info op in (b, rw (e, ty, e) eb)
test_node-ok t nid node entry categories e c (inr (ty, (k, ek))) =
    (binary_search categories k, rw (e, ty, c, ek) refl)

either : {A : Type 0} (b : Bool) (x y : A) → ((if b then x else y) ≡ x) ⊎ ((if b then x else y) ≡ y)
either true x y = inl refl
either false x y = inr refl

default_child-ok :
    (t : Tree) (nid : ℕ) (node : Node)
    → get_elem? t.nodes.items nid ≡ some node
    → (default_child t nid ≡ ok node.cleft) ⊎ (default_child t nid ≡ ok node.cright)
unfolding default_child default_left left_child right_child at
default_child-ok t nid node e =
    elim (either (default_left_of node.sindex) (ok node.cleft) (ok node.cright)) [
      | inl p ↦ inl (rw e p)
      | inr p ↦ inr (rw e p)
    ]

-- From a test node the walk goes on in one of the two children, whatever the row holds.
pub branch-ok :
    (t : Tree) (entries : List Entry) (base nid : ℕ) (node : Node)
    → IsValid t
    → Fits t entries base
    → get_elem? t.nodes.items nid ≡ some node
    → node.cleft ≢ minus_one
    → nid < t.num_nodes
    → (next : ℕ) × (branch t entries base nid ≡ ok next)
      × ((next ≡ node.cleft) ⊎ (next ≡ node.cright))
unfolding branch split_index left_child right_child at
branch-ok t entries base nid node v fits e internal inside =
    let (entry, p, testable) = fits.entry nid node e internal in
    let (categories, c) = left_categories-total t v nid inside in
    let (b, tested) = test_node-ok t nid node entry categories e c testable in
    elim (Bool-cases (entry == minus_one)) [
      | inl absent ↦ elim (default_child-ok t nid node e) [
        | inl d ↦ (node.cleft, rw (e, p, absent) d, inl refl)
        | inr d ↦ (node.cright, rw (e, p, absent) d, inr refl)
      ]
      | inr present ↦ elim (either b (ok node.cleft) (ok node.cright)) [
        | inl d ↦ (node.cleft, rw (e, p, present, tested) d, inl refl)
        | inr d ↦ (node.cright, rw (e, p, present, tested) d, inr refl)
      ]
    ]
