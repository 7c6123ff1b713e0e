-- ===== src/Tree/Alloc.antt =====
-- `AllocNode` keeps the invariant of a tree, and adds one leaf at the end.
use treelite.Prelude.{
  false, ◌==◌, ℕ, zero, suc, ◌+◌, ◌-◌, ◌≤◌, ◌<◌, ◌≡◌, refl, sym, ap, ◌∙◌, arith, true, ◌⊎◌, inl,
  inr, List, [], ◌∷◌, ◌++◌, ok, some, length, get_elem?, take, replicate, set, length-append,
  take_all, get_elem?-append_lt, get_elem?-append_length, get_elem?-ge, ltb, lt→ltb, ==_iff,
}
use treelite.Base.{int_max}
use treelite.ContiguousArray.{ContiguousArray, size, assign, back, resize, push_back}
use treelite.ContiguousArray.Growth.{Holds, push_back-Holds, resize-Holds}
use treelite.Tree.{Node, Tree, node_init, alloc_node}
use treelite.Tree.Offsets.{Climbs-push, back-Climbs}
use treelite.Tree.Invariant.{ChildrenOk, AllChildrenOk, IsValid, Holds-self}

set-append_last {ℓ} :
    {A : Type ℓ} (xs : List A) (x y : A) → set (xs ++ x ∷ []) (length xs) y ≡ xs ++ y ∷ []
set-append_last [] x y = refl
set-append_last (z ∷ xs) x y = ap (◌∷◌ z) (set-append_last xs x y)

resize_one {ℓ} :
    {A : Type ℓ} (xs : List A) (junk : A)
    → take (length xs + 1) xs ++ replicate (length xs + 1 - length xs) junk ≡ xs ++ junk ∷ []
resize_one xs junk =
    let one : length xs + 1 - length xs ≡ suc zero = omega arith in
    rw (one, take_all xs (length xs + 1) (omega arith)) refl

AllChildrenOk-push :
    (n m : ℕ) (nodes : List Node)
    → n ≤ m
    → AllChildrenOk n nodes
    → AllChildrenOk m (nodes ++ node_init ∷ [])
AllChildrenOk-push n m nodes le h i node e = go (length nodes) refl (ltb-cases i (length nodes))
  where
    ltb-cases : (a b : ℕ) → (a < b) ⊎ ((a ≡ b) ⊎ (b < a))
    ltb-cases a b = omega arith

    go : (k : ℕ) → length nodes ≡ k → (i < k) ⊎ ((i ≡ k) ⊎ (k < i)) → ChildrenOk m i node
    go k ek (inl p) =
        let old : get_elem? nodes i ≡ some node =
          sym (get_elem?-append_lt nodes (node_init ∷ []) i (omega arith)) ∙ e in
        ground (arith, h i node old)
    go k ek (inr (inl p)) =
        let at_end : get_elem? (nodes ++ node_init ∷ []) i ≡ some node_init =
          rw (p, ← ek) (get_elem?-append_length nodes [] node_init) in
        inl (ground arith)
    go k ek (inr (inr p)) =
        let beyond =
          get_elem?-ge (nodes ++ node_init ∷ []) i
            (omega (arith, length-append nodes (node_init ∷ []))) in
        ground arith

-- What a call of `AllocNode` returns: the next id, and a tree with one more node, which is a leaf
-- with no slice of values.
pub record Allocated (t : Tree) (nd : ℕ) (u : Tree) : Type 0 where
  pub id : nd ≡ t.num_nodes
  pub more : u.num_nodes ≡ t.num_nodes + 1
  pub added : u.nodes.items ≡ t.nodes.items ++ node_init ∷ []
  pub same_leaf_vector : u.leaf_vector ≡ t.leaf_vector
  pub same_categories : u.left_categories ≡ t.left_categories
  pub leaf_end :
      u.leaf_vector_offset.items ≡ t.leaf_vector_offset.items ++ length t.leaf_vector.items ∷ []
  pub categories_end :
      u.left_categories_offset.items
      ≡ t.left_categories_offset.items ++ length t.left_categories.items ∷ []

-- The tree that `AllocNode` returns, from the arrays that its calls return.
abbrev allocated : Tree → ContiguousArray ℕ → ContiguousArray ℕ → ContiguousArray Node → Tree
allocated t lvo lco ns = record t {
  nodes = ns;
  leaf_vector_offset = lvo;
  left_categories_offset = lco;
  num_nodes = t.num_nodes + 1;
}

alloc_node-run :
    (junk : Node) (t : Tree) (m n : ℕ) (lvo lco : ContiguousArray ℕ)
    (longer ns : ContiguousArray Node)
    → t.num_nodes < int_max
    → length t.nodes.items ≡ t.num_nodes
    → back t.leaf_vector_offset ≡ ok m
    → push_back m t.leaf_vector_offset ≡ ok lvo
    → back t.left_categories_offset ≡ ok n
    → push_back n t.left_categories_offset ≡ ok lco
    → resize junk (length t.nodes.items + 1) t.nodes ≡ ok longer
    → assign longer t.num_nodes node_init ≡ ok ns
    → alloc_node junk t ≡ ok (t.num_nodes, allocated t lvo lco ns)
unfolding alloc_node size
alloc_node-run junk t m n lvo lco longer ns room c b₁ p₁ b₂ p₂ r a =
    let below : (t.num_nodes == int_max) ≡ false = ground arith in
    let small : ltb t.num_nodes 0x8000_0000 ≡ true = lt→ltb _ _ (omega arith) in
    simp (below, small, (==_iff (length t.nodes.items) t.num_nodes).1 c, b₁, p₁, b₂, p₂, r, a)

-- The last cell of an array that `Resize` made one longer is overwritten.
assign-resized :
    (junk : Node) (xs : List Node) (a : ContiguousArray Node) (n : ℕ)
    → length xs ≡ n
    → Holds (take (length xs + 1) xs ++ replicate (length xs + 1 - length xs) junk) a
    → (b : ContiguousArray Node) × (assign a n node_init ≡ ok b) × Holds (xs ++ node_init ∷ []) b
unfolding assign
assign-resized junk xs a n c h =
    let e : a.items ≡ xs ++ junk ∷ [] = h.same ∙ resize_one xs junk in
    let fits : length (xs ++ junk ∷ []) ≤ a.capacity = rw (resize_one xs junk) at h.fits in
    let inside : ltb n (length a.items) ≡ true =
      lt→ltb _ _ (rw e (omega (arith, length-append xs (junk ∷ [])))) in
    let written : set a.items n node_init ≡ xs ++ node_init ∷ [] =
      rw (e, ← c) (set-append_last xs junk node_init) in
    (
      record a { items = xs ++ node_init ∷ [] },
      simp (inside, written),
      record {
        same = refl;
        owned = h.owned;
        fits = omega (arith, length-append xs (node_init ∷ []), length-append xs (junk ∷ []), fits);
      },
    )

allocated-IsValid :
    (t : Tree) (lvo lco : ContiguousArray ℕ) (ns : ContiguousArray Node)
    → IsValid t
    → t.num_nodes < int_max
    → Holds (t.leaf_vector_offset.items ++ length t.leaf_vector.items ∷ []) lvo
    → Holds (t.left_categories_offset.items ++ length t.left_categories.items ∷ []) lco
    → Holds (t.nodes.items ++ node_init ∷ []) ns
    → IsValid (allocated t lvo lco ns)
allocated-IsValid t lvo lco ns v room h₁ h₂ h₃ = record {
  nodes_held = Holds-self _ ns h₃;
  leaf_held = v.leaf_held;
  leaf_offset_held = Holds-self _ lvo h₁;
  categories_held = v.categories_held;
  categories_offset_held = Holds-self _ lco h₂;
  counted = rw h₃.same (omega (arith, length-append t.nodes.items (node_init ∷ [])));
  positive = omega arith;
  in_int = omega arith;
  leaf_offsets =
      rw h₁.same
        (omega (arith, length-append t.leaf_vector_offset.items (length t.leaf_vector.items ∷ [])));
  categories_offsets = rw h₂.same (
      omega (
        arith,
        length-append t.left_categories_offset.items (length t.left_categories.items ∷ []),
      ));
  leaf_climbs = rw h₁.same (Climbs-push 0 _ _ v.leaf_climbs);
  categories_climbs = rw h₂.same (Climbs-push 0 _ _ v.categories_climbs);
  children =
      rw h₃.same
        (AllChildrenOk-push t.num_nodes (t.num_nodes + 1) t.nodes.items (omega arith) v.children);
}

-- On a valid tree with room for one more node id `AllocNode` succeeds and keeps the invariant; the
-- new node is the last, and what the tree held before is unchanged.
pub alloc_node-IsValid :
    (junk : Node) (t : Tree)
    → IsValid t
    → t.num_nodes < int_max
    → (nd : ℕ) × (u : Tree) × (alloc_node junk t ≡ ok (nd, u)) × IsValid u × Allocated t nd u
alloc_node-IsValid junk t v room =
    let b₁ =
      back-Climbs 0 (length t.leaf_vector.items) t.leaf_vector_offset _ refl (omega arith)
        v.leaf_climbs in
    let b₂ =
      back-Climbs 0 (length t.left_categories.items) t.left_categories_offset _ refl (omega arith)
        v.categories_climbs in
    let (lvo, e₁, h₁) =
      push_back-Holds t.leaf_vector_offset.items (length t.leaf_vector.items) t.leaf_vector_offset
        v.leaf_offset_held (omega arith) (omega arith) in
    let (lco, e₂, h₂) =
      push_back-Holds t.left_categories_offset.items (length t.left_categories.items)
        t.left_categories_offset v.categories_offset_held (omega arith) (omega arith) in
    let (longer, e₃, h₃) =
      resize-Holds junk (length t.nodes.items + 1) t.nodes v.nodes_held.owned v.nodes_held.fits
        (omega arith) (omega arith) in
    let (ns, e₄, h₄) = assign-resized junk t.nodes.items longer t.num_nodes v.counted h₃ in
    (
      t.num_nodes,
      allocated t lvo lco ns,
      alloc_node-run junk t _ _ lvo lco longer ns room v.counted b₁ e₁ b₂ e₂ e₃ e₄,
      allocated-IsValid t lvo lco ns v room h₁ h₂ h₄,
      record {
        id = refl;
        more = refl;
        added = h₄.same;
        same_leaf_vector = refl;
        same_categories = refl;
        leaf_end = h₁.same;
        categories_end = h₂.same;
      },
    )
