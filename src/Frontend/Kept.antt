-- ===== src/Frontend/Kept.antt =====
-- What a change of a tree leaves alone: the getters on the nodes that it is not about.
use treelite.Prelude.{
  ℕ, ◌<◌, ◌≡◌, ◌≢◌, refl, ap, ◌∙◌, arith, ok, or_fault, some, length, get_elem?, get_elem?-set_self,
  get_elem?-set_ne, inl, inr, Bool-cases, ◌==◌, ==_iff,
}
use treelite.ContiguousArray.{at}
use treelite.Tree.{Tree, Node, modify_node}
use treelite.Tree.Getters.{
  left_child, right_child, split_index, default_left, is_leaf, leaf_value, threshold, comparison_op,
  split_type, missing_category_to_zero, left_categories,
}
use treelite.Tree.Invariant.{IsValid, with_node, modify_node-with_node, with_node-IsValid}

-- The getters that say what node `i` tests, or which value it has.
pub record SameAt (t u : Tree) (i : ℕ) : Type 0 where
  pub left : left_child u i ≡ left_child t i
  pub right : right_child u i ≡ right_child t i
  pub feature : split_index u i ≡ split_index t i
  pub direction : default_left u i ≡ default_left t i
  pub leaf : is_leaf u i ≡ is_leaf t i
  pub value : leaf_value u i ≡ leaf_value t i
  pub bound : threshold u i ≡ threshold t i
  pub op : comparison_op u i ≡ comparison_op t i
  pub type : split_type u i ≡ split_type t i
  pub to_zero : missing_category_to_zero u i ≡ missing_category_to_zero t i
  pub categories : left_categories u i ≡ left_categories t i

pub SameAt-trans : (t u w : Tree) (i : ℕ) → SameAt t u i → SameAt u w i → SameAt t w i
SameAt-trans t u w i a b = record {
  left = b.left ∙ a.left;
  right = b.right ∙ a.right;
  feature = b.feature ∙ a.feature;
  direction = b.direction ∙ a.direction;
  leaf = b.leaf ∙ a.leaf;
  value = b.value ∙ a.value;
  bound = b.bound ∙ a.bound;
  op = b.op ∙ a.op;
  type = b.type ∙ a.type;
  to_zero = b.to_zero ∙ a.to_zero;
  categories = b.categories ∙ a.categories;
}

-- A node that is the same, with the same categories.
pub SameAt-at :
    (t u : Tree) (i : ℕ)
    → at u.nodes i ≡ at t.nodes i
    → left_categories u i ≡ left_categories t i
    → SameAt t u i
unfolding left_child right_child split_index default_left is_leaf leaf_value threshold comparison_op
    split_type missing_category_to_zero
SameAt-at t u i e c = record {
  left = rw e refl;
  right = rw e refl;
  feature = rw e refl;
  direction = rw e refl;
  leaf = rw e refl;
  value = rw e refl;
  bound = rw e refl;
  op = rw e refl;
  type = rw e refl;
  to_zero = rw e refl;
  categories = c;
}

pub left_categories-same :
    (t u : Tree) (i : ℕ)
    → u.left_categories ≡ t.left_categories
    → u.left_categories_offset ≡ t.left_categories_offset
    → left_categories u i ≡ left_categories t i
unfolding left_categories
left_categories-same t u i e f = rw (e, f) refl

-- A change that `SameAt` does not see.
pub record Decorated (t u : Tree) : Type 0 where
  pub valid : IsValid u
  pub same : (i : ℕ) → SameAt t u i
  pub same_count : u.num_nodes ≡ t.num_nodes
  pub same_categories : u.left_categories ≡ t.left_categories
  pub same_offsets : u.left_categories_offset ≡ t.left_categories_offset

pub Decorated-none : (t : Tree) → IsValid t → Decorated t t
Decorated-none t v = record {
  valid = v;
  same = λ i. SameAt-at t t i refl refl;
  same_count = refl;
  same_categories = refl;
  same_offsets = refl;
}

-- What a node tests is not touched by its statistics.
pub record SameTest (node node' : Node) : Type 0 where
  pub same_left : node'.cleft ≡ node.cleft
  pub same_right : node'.cright ≡ node.cright
  pub same_sindex : node'.sindex ≡ node.sindex
  pub same_info : node'.info ≡ node.info
  pub same_type : node'.split_type ≡ node.split_type
  pub same_op : node'.cmp ≡ node.cmp
  pub same_zero : node'.missing_category_to_zero ≡ node.missing_category_to_zero

written-SameAt :
    (t : Tree) (nid : ℕ) (node node' : Node)
    → get_elem? t.nodes.items nid ≡ some node
    → nid < length t.nodes.items
    → SameTest node node'
    → (i : ℕ) → SameAt t (with_node t nid node') i
unfolding at left_child right_child split_index default_left is_leaf leaf_value threshold
    comparison_op split_type missing_category_to_zero
written-SameAt t nid node node' was inside s i = elim (Bool-cases (nid == i)) [
  | inl p ↦
      let same = (==_iff nid i).0 p in
      let now = get_elem?-set_self t.nodes.items nid node' inside in
      rw (← same) (record {
        left = rw (now, was) (ap ok s.same_left);
        right = rw (now, was) (ap ok s.same_right);
        feature = rw (now, was, s.same_sindex) refl;
        direction = rw (now, was, s.same_sindex) refl;
        leaf = rw (now, was, s.same_left) refl;
        value = rw (now, was) (ap ok s.same_info);
        bound = rw (now, was) (ap ok s.same_info);
        op = rw (now, was) (ap ok s.same_op);
        type = rw (now, was) (ap ok s.same_type);
        to_zero = rw (now, was) (ap ok s.same_zero);
        categories = left_categories-same t (with_node t nid node') nid refl refl;
      })
  | inr p ↦
      let other : nid ≢ i = λ e. cc ((==_iff nid i).1 e, p) in
      SameAt-at t (with_node t nid node') i
        (ap or_fault (get_elem?-set_ne t.nodes.items nid i node' other))
        (left_categories-same t (with_node t nid node') i refl refl)
]

pub decorate :
    (t : Tree) (nid : ℕ) (f : Node → Node)
    → IsValid t
    → nid < t.num_nodes
    → ((node : Node) → SameTest node (f node))
    → (u : Tree) × (modify_node t nid f ≡ ok u) × Decorated t u
decorate t nid f v inside s =
    let (node, was, e) = modify_node-with_node t nid f (omega (arith, v.counted)) in
    let same = s node in
    let old = v.children nid node was in
    (
      with_node t nid (f node),
      e,
      record {
        valid = with_node-IsValid t nid (f node) v (rw (same.same_left, same.same_right) old);
        same = written-SameAt t nid node (f node) was (omega (arith, v.counted)) same;
        same_count = refl;
        same_categories = refl;
        same_offsets = refl;
      },
    )
