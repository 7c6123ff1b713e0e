-- ===== src/Builder/Calls.antt =====
-- Every method of `class TreeBuilder` keeps the pointers between the nodes consistent.
use treelite.Prelude.{
  ℕ, zero, suc, Bool, List, [], ◌∷◌, ◌++◌, Option, none, some, ◌≡◌, ◌≢◌, refl, sym, ap, ◌∙◌, arith,
  ◌⊎◌, inl, inr, Bool-cases, Option-cases, ok, err, fault, check_failed, ok-injective, length,
  get_elem?, get_elem?-append_lt, get_elem?-append_length, ◌==◌,
}
use treelite.Base.{optable, Operator}
use treelite.Builder.{
  BuilderNode, TreeState, numerical_test, categorical_test, leaf_status, find_key, new_builder_node,
  deref, create_node, delete_node, same_pointer, set_numerical_test_node,
  set_numerical_test_node_by_name, set_categorical_test_node, set_leaf_node, set_leaf_vector_node,
  node_at, drop_root, detach, orphan, update, Call, create_call, delete_call, root_call,
  numerical_call, named_call, categorical_call, leaf_call, leaf_vector_call, run,
}
use treelite.Builder.Heap.{Live, Linked, Live-inside}
use treelite.Builder.Links.{set_test_node-Linked, set_leaf_of-Linked, set_root_node-Linked}
use treelite.Builder.Deletion.{delete_node-Linked}

Live-push :
    (heap : List (Option BuilderNode)) (a : ℕ) (m n : BuilderNode)
    → Live (heap ++ some m ∷ []) a n
    → ((a ≡ length heap) × (m ≡ n)) ⊎ Live heap a n
Live-push [] zero m n h = let e : m ≡ n = cc in inl (refl, e)
Live-push [] (suc a) m n h = cc
Live-push (x ∷ xs) zero m n h = inr h
Live-push (x ∷ xs) (suc a) m n h = elim (Live-push xs a m n h) [
  | inl q ↦ inl (ap suc q.0, q.1)
  | inr q ↦ inr q
]

Live-kept :
    (heap ys : List (Option BuilderNode)) (a : ℕ) (n : BuilderNode)
    → Live heap a n
    → Live (heap ++ ys) a n
Live-kept heap ys a n h = get_elem?-append_lt heap ys a (Live-inside heap a n h) ∙ h

grow-Linked :
    (s : TreeState) (k : ℕ) (junk : BuilderNode)
    → Linked s
    → find_key k s.nodes ≡ none
    → Linked (record s {
      nodes = (k, length s.heap) ∷ s.nodes;
      heap = s.heap ++ some (new_builder_node junk) ∷ [];
    })
unfolding find_key
grow-Linked s k junk L fresh = record {
  parents = λ a q n la e. elim (Live-push s.heap a (new_builder_node junk) n la) [
    | inl c ↦ let bad : none ≡ some q = ap (λ (n : BuilderNode). n.parent) c.1 ∙ e in cc
    | inr c ↦ let (m, l, side) = L.parents a q n c e in (m, Live-kept s.heap more q m l, side)
  ];
  root_free = λ r e. let (n, l, f) = L.root_free r e in (n, Live-kept s.heap more r n l, f);
  named = named;
  distinct = distinct;
  childless = λ a n la e. elim (Live-push s.heap a (new_builder_node junk) n la) [
    | inl c ↦ (
      ap (λ (n : BuilderNode). n.left_child) (sym c.1),
      ap (λ (n : BuilderNode). n.right_child) (sym c.1),
    )
    | inr c ↦ L.childless a n c e
  ];
}
  where
    more : List (Option BuilderNode)
    more = some (new_builder_node junk) ∷ []

    named :
        (k' p : ℕ)
        → find_key k' ((k, length s.heap) ∷ s.nodes) ≡ some p
        → (n : BuilderNode) × Live (s.heap ++ more) p n
    named k' p e = elim (Bool-cases (k == k')) [
      | inl q ↦
          let e' : some (length s.heap) ≡ some p = rw q at e in
          let at_end : length s.heap ≡ p = cc in
          (
            new_builder_node junk,
            rw (← at_end) (get_elem?-append_length s.heap [] (some (new_builder_node junk))),
          )
      | inr q ↦
          let e' : find_key k' s.nodes ≡ some p = rw q at e in
          let (n, l) = L.named k' p e' in (n, Live-kept s.heap more p n l)
    ]

    old : (k' : ℕ) → find_key k' s.nodes ≢ some (length s.heap)
    old k' e =
        let (n, l) = L.named k' (length s.heap) e in
        absurd (omega (arith, Live-inside s.heap (length s.heap) n l))

    distinct :
        (k₁ k₂ p : ℕ)
        → find_key k₁ ((k, length s.heap) ∷ s.nodes) ≡ some p
        → find_key k₂ ((k, length s.heap) ∷ s.nodes) ≡ some p
        → k₁ ≡ k₂
    distinct k₁ k₂ p e f = elim (Bool-cases (k == k₁)) [
      | inl q ↦ elim (Bool-cases (k == k₂)) [
        | inl r ↦ ground arith
        | inr r ↦
            let e' : some (length s.heap) ≡ some p = rw q at e in
            let f' : find_key k₂ s.nodes ≡ some p = rw r at f in absurd (old k₂ (f' ∙ sym e'))
      ]
      | inr q ↦ elim (Bool-cases (k == k₂)) [
        | inl r ↦
            let e' : find_key k₁ s.nodes ≡ some p = rw q at e in
            let f' : some (length s.heap) ≡ some p = rw r at f in absurd (old k₁ (e' ∙ sym f'))
        | inr r ↦ L.distinct k₁ k₂ p (rw q at e) (rw r at f)
      ]
    ]

create_node-Linked :
    (junk : BuilderNode) (k : ℕ) (s s' : TreeState)
    → Linked s
    → create_node junk k s ≡ ok s'
    → Linked s'
unfolding create_node
create_node-Linked junk k s s' L h = elim (Option-cases (find_key k s.nodes)) [
  | inr (p, e) ↦ let bad : err (check_failed "CreateNode") ≡ ok s' = rw (create_node, e) at h in cc
  | inl e ↦
      let new = record s {
        nodes = (k, length s.heap) ∷ s.nodes;
        heap = s.heap ++ some (new_builder_node junk) ∷ [];
      } in
      let same : ok new ≡ ok s' = rw (create_node, e) at h in
      rw (← ok-injective same) (grow-Linked s k junk L e)
]

set_numerical_test_node-Linked :
    (k f : ℕ) (op : Operator) (th : ℕ) (d : Bool) (l r : ℕ) (s s' : TreeState)
    → Linked s
    → set_numerical_test_node k f op th d l r s ≡ ok s'
    → Linked s'
unfolding set_numerical_test_node
set_numerical_test_node-Linked k f op th d l r s s' L h =
    set_test_node-Linked "SetNumericalTestNode" s s' k l r
      (λ node. record node {
        status = numerical_test;
        feature_id = f;
        default_left = d;
        info = th;
        op = op;
      })
      (record {
        keeps_parent = λ n. refl;
        keeps_left = λ n. refl;
        keeps_right = λ n. refl;
        not_empty = λ n e. cc;
      })
      L h

-- Every method of `class TreeBuilder` that succeeds keeps the pointers consistent: a parent is there
-- and knows its child, the root is there and has no parent, the keys stand for nodes that are there,
-- each for its own, and an empty node has no children.
pub run-Linked : (c : Call) (s s' : TreeState) → Linked s → run c s ≡ ok s' → Linked s'
unfolding run set_numerical_test_node_by_name set_categorical_test_node set_leaf_node
    set_leaf_vector_node
run-Linked (create_call junk k) s s' L h = create_node-Linked junk k s s' L h
run-Linked (delete_call k) s s' L h = delete_node-Linked s s' k L h
run-Linked (root_call k) s s' L h = set_root_node-Linked s s' k L h
run-Linked (numerical_call k f op th d l r) s s' L h =
    set_numerical_test_node-Linked k f op th d l r s s' L h
run-Linked (named_call k f name th d l r) s s' L h = elim (Option-cases (optable name)) [
  | inl e ↦
      let bad : err (check_failed "No operator exists") ≡ ok s' =
        rw (set_numerical_test_node_by_name, e) at h in
      cc
  | inr (op, e) ↦
      let h' : set_numerical_test_node k f op th d l r s ≡ ok s' =
        rw (set_numerical_test_node_by_name, e) at h in
      set_numerical_test_node-Linked k f op th d l r s s' L h'
]
run-Linked (categorical_call k f cs d l r) s s' L h =
    set_test_node-Linked "SetCategoricalTestNode" s s' k l r
      (λ node. record node {
        status = categorical_test;
        feature_id = f;
        default_left = d;
        left_categories = cs;
      })
      (record {
        keeps_parent = λ n. refl;
        keeps_left = λ n. refl;
        keeps_right = λ n. refl;
        not_empty = λ n e. cc;
      })
      L h
run-Linked (leaf_call k v) s s' L h =
    set_leaf_of-Linked "SetLeafNode" s s' k (λ node. record node { status = leaf_status; info = v })
      (record {
        keeps_parent = λ n. refl;
        keeps_left = λ n. refl;
        keeps_right = λ n. refl;
        not_empty = λ n e. cc;
      })
      L h
run-Linked (leaf_vector_call k v) s s' L h =
    set_leaf_of-Linked "SetLeafVectorNode" s s' k
      (λ node. record node { status = leaf_status; leaf_vector = v })
      (record {
        keeps_parent = λ n. refl;
        keeps_left = λ n. refl;
        keeps_right = λ n. refl;
        not_empty = λ n e. cc;
      })
      L h

detach-deleted_child :
    (s : TreeState) (p c : ℕ) (n : BuilderNode)
    → Live s.heap p n
    → n.left_child ≡ some c
    → get_elem? s.heap c ≡ some none
    → detach p s ≡ err fault
unfolding detach deref orphan update
detach-deleted_child s p c n l left gone = rw (l, left, gone) refl

drop_root-heap : (s : TreeState) (p : ℕ) → (drop_root p s).heap ≡ s.heap
unfolding drop_root
drop_root-heap s p = elim (Bool-cases (same_pointer s.root p)) [
  | inl r ↦ rw r refl
  | inr r ↦ rw r refl
]

node_at-ok :
    (k p : ℕ) (s : TreeState) → find_key k s.nodes ≡ some p → node_at "DeleteNode" k s ≡ ok p
unfolding node_at
node_at-ok k p s e = rw (node_at, e) refl

-- `DeleteNode` of a node whose left child has been deleted before writes into the freed node.
pub delete_node-deleted_child :
    (s : TreeState) (k p c : ℕ) (n : BuilderNode)
    → find_key k s.nodes ≡ some p
    → Live s.heap p n
    → n.left_child ≡ some c
    → get_elem? s.heap c ≡ some none
    → delete_node k s ≡ err fault
unfolding delete_node
delete_node-deleted_child s k p c n e l left gone =
    let h = drop_root-heap s p in
    simp (
      node_at-ok k p s e,
      detach-deleted_child (drop_root p s) p c n (ap (λ heap. get_elem? heap p) h ∙ l) left
          (ap (λ heap. get_elem? heap c) h ∙ gone),
    )
