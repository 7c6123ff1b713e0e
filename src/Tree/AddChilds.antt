-- ===== src/Tree/AddChilds.antt =====
-- `AddChilds` keeps the invariant of a tree, and makes two new leaves the children of a node.
use treelite.Prelude.{
  ℕ, ◌+◌, ◌≤◌, ◌<◌, ◌≡◌, refl, sym, ap, ◌∙◌, arith, true, inr, ◌≢◌, [], ◌∷◌, ◌++◌, ok, some, length,
  get_elem?, length-append, get_elem?-append_lt, get_elem?-append_length, get_elem?-set_ne,
  get_elem?-set_self,
}
use treelite.Base.{int_max}
use treelite.ContiguousArray.{at}
use treelite.Tree.{Node, Tree, node_init, modify_node, alloc_node, add_childs}
use treelite.Tree.Getters.{left_child, right_child, is_leaf}
use treelite.Tree.Invariant.{IsValid, with_node, modify_node-with_node, with_node-IsValid}
use treelite.Tree.Alloc.{Allocated, alloc_node-IsValid}

-- What `AddChilds` gives: two new leaves, which are the children of `nid`.
pub record Grown (t : Tree) (nid : ℕ) (u : Tree) : Type 0 where
  pub two_more : u.num_nodes ≡ t.num_nodes + 2
  pub left : left_child u nid ≡ ok t.num_nodes
  pub right : right_child u nid ≡ ok (t.num_nodes + 1)
  pub left_leaf : is_leaf u t.num_nodes ≡ ok true
  pub right_leaf : is_leaf u (t.num_nodes + 1) ≡ ok true
  pub others : (i : ℕ) → i < t.num_nodes → i ≢ nid → at u.nodes i ≡ at t.nodes i
  pub same_leaf_vector : u.leaf_vector ≡ t.leaf_vector
  pub same_categories : u.left_categories ≡ t.left_categories
  pub offsets_end :
      u.left_categories_offset.items
      ≡ (t.left_categories_offset.items ++ length t.left_categories.items ∷ [])
        ++ length t.left_categories.items ∷ []

add_childs-run :
    (junk : Node) (nid a b : ℕ) (t u w x : Tree)
    → alloc_node junk t ≡ ok (a, u)
    → alloc_node junk u ≡ ok (b, w)
    → modify_node w nid (λ node. record node { cleft = a; cright = b }) ≡ ok x
    → add_childs junk nid t ≡ ok x
unfolding add_childs
add_childs-run junk nid a b t u w x e₁ e₂ e₃ = simp (e₁, e₂, e₃)

module _ (t u w : Tree) (nid a b : ℕ) (node : Node) (c : length t.nodes.items ≡ t.num_nodes)
    (inside : nid < t.num_nodes) (p : Allocated t a u) (q : Allocated u b w) where
  two_added : w.nodes.items ≡ (t.nodes.items ++ node_init ∷ []) ++ node_init ∷ []
  two_added = q.added ∙ ap (λ xs. xs ++ node_init ∷ []) p.added

  first_added : get_elem? w.nodes.items t.num_nodes ≡ some node_init
  first_added =
      rw (two_added, ← c)
        (get_elem?-append_lt (t.nodes.items ++ node_init ∷ []) _ (length t.nodes.items)
            (omega (arith, length-append t.nodes.items (node_init ∷ [])))
          ∙ get_elem?-append_length t.nodes.items [] node_init)

  second_added : get_elem? w.nodes.items (t.num_nodes + 1) ≡ some node_init
  second_added =
      let e : t.num_nodes + 1 ≡ length (t.nodes.items ++ node_init ∷ []) =
        omega (arith, length-append t.nodes.items (node_init ∷ [])) in
      rw (two_added, e) (get_elem?-append_length (t.nodes.items ++ node_init ∷ []) [] node_init)

  old_kept : (i : ℕ) → i < t.num_nodes → get_elem? w.nodes.items i ≡ get_elem? t.nodes.items i
  old_kept i h = rw two_added (
      get_elem?-append_lt (t.nodes.items ++ node_init ∷ []) _ i
        (omega (arith, length-append t.nodes.items (node_init ∷ [])))
      ∙ get_elem?-append_lt t.nodes.items _ i (omega arith))

  grown : Grown t nid (with_node w nid (record node { cleft = a; cright = b }))
  unfolding left_child right_child is_leaf at
  grown =
      let size_w : length w.nodes.items ≡ t.num_nodes + 2 = rw two_added (
        omega (
          arith,
          length-append (t.nodes.items ++ node_init ∷ []) (node_init ∷ []),
          length-append t.nodes.items (node_init ∷ []),
        )) in
      let self =
        get_elem?-set_self w.nodes.items nid (record node { cleft = a; cright = b })
          (omega arith) in
      record {
        two_more = omega (arith, q.more, p.more);
        left = rw (self, p.id) refl;
        right = rw (self, q.id, p.more) refl;
        left_leaf =
            rw
              (
                get_elem?-set_ne w.nodes.items nid t.num_nodes
                    (record node { cleft = a; cright = b }) (omega arith),
                first_added,
              )
              refl;
        right_leaf =
            rw
              (
                get_elem?-set_ne w.nodes.items nid (t.num_nodes + 1)
                    (record node { cleft = a; cright = b }) (omega arith),
                second_added,
              )
              refl;
        others = λ i h ne.
            rw
              (
                get_elem?-set_ne w.nodes.items nid i (record node { cleft = a; cright = b })
                    (λ e. ne (sym e)),
                old_kept i h,
              )
              refl;
        same_leaf_vector = q.same_leaf_vector ∙ p.same_leaf_vector;
        same_categories = q.same_categories ∙ p.same_categories;
        offsets_end =
            q.categories_end
            ∙ (rw (p.categories_end, ap (λ a. length a.items) p.same_categories) refl);
      }

-- On a node of a valid tree with room for two more node ids `AddChilds` succeeds and keeps the
-- invariant; the node gets two new leaves as children, and the other nodes stay.
pub add_childs-IsValid :
    (junk : Node) (nid : ℕ) (t : Tree)
    → IsValid t
    → nid < t.num_nodes
    → t.num_nodes + 2 ≤ int_max
    → (u : Tree) × (add_childs junk nid t ≡ ok u) × IsValid u × Grown t nid u
add_childs-IsValid junk nid t v inside room =
    let (a, u, e₁, vu, p) = alloc_node-IsValid junk t v (omega arith) in
    let (b, w, e₂, vw, q) = alloc_node-IsValid junk u vu (omega (arith, p.more)) in
    let (node, was, e₃) =
      modify_node-with_node w nid (λ node. record node { cleft = a; cright = b })
        (omega (arith, vw.counted, q.more, p.more)) in
    let x = with_node w nid (record node { cleft = a; cright = b }) in
    (
      x,
      add_childs-run junk nid a b t u w x e₁ e₂ e₃,
      with_node-IsValid w nid _ vw (
          inr (
            omega (arith, p.id),
            omega (arith, p.id, q.more, p.more),
            omega (arith, q.id, p.more),
            omega (arith, q.id, q.more, p.more),
          )),
      grown t u w nid a b node v.counted inside p q,
    )
