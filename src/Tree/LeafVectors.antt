-- ===== src/Tree/LeafVectors.antt =====
-- `SetLeafVector`: it keeps the invariant, and the getters read back what was set.
use treelite.Prelude.{
  ℕ, suc, ◌+◌, ◌<◌, ◌≡◌, refl, sym, ◌∙◌, arith, true, inl, ◌≢◌, List, ◌++◌, ok, some, length,
  get_elem?, drop, get_elem?-set_self, length-append,
}
use treelite.Base.{TlFloat, minus_one, no_split}
use treelite.ContiguousArray.{ContiguousArray, at}
use treelite.ContiguousArray.Growth.{Holds}
use treelite.Tree.{Node, Tree}
use treelite.Tree.Getters.{split_type, is_leaf, leaf_vector}
use treelite.Tree.Setters.{all_equal, fill_from, set_leaf_vector}
use treelite.Tree.Offsets.{Climbs-fill}
use treelite.Tree.Slices.{slice_of-other, slice_of_self}
use treelite.Tree.Append.{append_slice-ok, leaf_vector-slice_of, length-fill_from}
use treelite.Tree.Invariant.{
  IsValid, Holds-self, with_node, modify_node-with_node, with_node-IsValid,
}
use treelite.Tree.Splits.{OthersKept, with_node-OthersKept}

-- The tree that `SetLeafVector` returns.
abbrev leaf_tree : ℕ → List TlFloat → Tree → ContiguousArray TlFloat → Node → Tree
leaf_tree nid xs t values node =
    with_node
      (record t {
        leaf_vector = values;
        leaf_vector_offset = record t.leaf_vector_offset {
          items =
              fill_from (suc nid) (length t.leaf_vector.items + length xs)
                t.leaf_vector_offset.items;
        };
      })
      nid (record node { cleft = minus_one; cright = minus_one; split_type = no_split })

-- What the getters say after `SetLeafVector`.
pub record LeafVectorSet (t : Tree) (nid : ℕ) (xs : List TlFloat) (u : Tree) : Type 0 where
  pub leaf : is_leaf u nid ≡ ok true
  pub of_type : split_type u nid ≡ ok no_split
  pub others : OthersKept t nid u
  pub added : (old : List TlFloat) → leaf_vector t nid ≡ ok old → leaf_vector u nid ≡ ok (old ++ xs)
  pub other_vectors : (i : ℕ) → i < t.num_nodes → i ≢ nid → leaf_vector u i ≡ leaf_vector t i

module _ (nid : ℕ) (xs : List TlFloat) (t : Tree) (v : IsValid t) (inside : nid < t.num_nodes)
    (free : all_equal (length t.leaf_vector.items) (drop (suc nid) t.leaf_vector_offset.items)
      ≡ true)
    (values : ContiguousArray TlFloat) (node : Node) (was : get_elem? t.nodes.items nid ≡ some node)
    (held : Holds (t.leaf_vector.items ++ xs) values) where
  leaf_tree-IsValid : IsValid (leaf_tree nid xs t values node)
  leaf_tree-IsValid =
      let n = length t.leaf_vector.items in
      let offs = t.leaf_vector_offset.items in
      let len = length-fill_from (suc nid) (n + length xs) offs (omega (arith, v.leaf_offsets)) in
      let total : n + length xs ≡ length values.items =
        rw held.same (omega (arith, length-append t.leaf_vector.items xs)) in
      with_node-IsValid _ nid _
        (record {
          nodes_held = v.nodes_held;
          leaf_held = Holds-self _ values held;
          leaf_offset_held = record {
            same = refl;
            owned = v.leaf_offset_held.owned;
            fits = rw len v.leaf_offset_held.fits;
          };
          categories_held = v.categories_held;
          categories_offset_held = v.categories_offset_held;
          counted = v.counted;
          positive = v.positive;
          in_int = v.in_int;
          leaf_offsets = len ∙ v.leaf_offsets;
          categories_offsets = v.categories_offsets;
          leaf_climbs = rw (← total) (
              Climbs-fill 0 n (n + length xs) (suc nid) offs v.leaf_climbs (omega arith)
                (omega (arith, v.leaf_offsets)));
          categories_climbs = v.categories_climbs;
          children = v.children;
        })
        (inl refl)

  leaf_vector_set : LeafVectorSet t nid xs (leaf_tree nid xs t values node)
  unfolding is_leaf split_type at
  leaf_vector_set =
      let node' = record node { cleft = minus_one; cright = minus_one; split_type = no_split } in
      let now = get_elem?-set_self t.nodes.items nid node' (omega (arith, v.counted)) in
      record {
        leaf = rw now refl;
        of_type = rw now refl;
        others = with_node-OthersKept t nid node';
        added = λ old e.
            leaf_vector-slice_of (leaf_tree nid xs t values node) leaf_tree-IsValid nid inside
            ∙ slice_of_self t.leaf_vector values t.leaf_vector_offset.items nid xs v.leaf_climbs
                (omega (arith, v.leaf_offsets)) free held.same old
                (sym (leaf_vector-slice_of t v nid inside) ∙ e);
        other_vectors = λ i h ne.
            leaf_vector-slice_of (leaf_tree nid xs t values node) leaf_tree-IsValid i h
            ∙ slice_of-other t.leaf_vector values t.leaf_vector_offset.items nid xs v.leaf_climbs
                (omega (arith, v.leaf_offsets)) free held.same i (omega (arith, v.leaf_offsets))
                (omega arith)
            ∙ sym (leaf_vector-slice_of t v i h);
      }

-- On a node of a valid tree whose successors have no leaf vector yet, and fewer than 2 ^ 63 values in
-- all, `SetLeafVector` succeeds, keeps the invariant, makes the node a leaf, and appends the values
-- to the leaf vector of this node alone.
pub set_leaf_vector-IsValid :
    (nid : ℕ) (xs : List TlFloat) (t : Tree)
    → IsValid t
    → nid < t.num_nodes
    → all_equal (length t.leaf_vector.items) (drop (suc nid) t.leaf_vector_offset.items) ≡ true
    → length t.leaf_vector.items + length xs < 0x8000_0000_0000_0000
    → (u : Tree) × (set_leaf_vector nid xs t ≡ ok u) × IsValid u × LeafVectorSet t nid xs u
unfolding set_leaf_vector
set_leaf_vector-IsValid nid xs t v inside free room =
    let (values, e, h) =
      append_slice-ok nid xs t.leaf_vector t.leaf_vector_offset v.leaf_held v.leaf_climbs
        (omega (arith, v.leaf_offsets)) free room in
    let (node, was, m) =
      modify_node-with_node
        (record t {
          leaf_vector = values;
          leaf_vector_offset = record t.leaf_vector_offset {
            items =
                fill_from (suc nid) (length t.leaf_vector.items + length xs)
                  t.leaf_vector_offset.items;
          };
        })
        nid (λ node. record node { cleft = minus_one; cright = minus_one; split_type = no_split })
        (omega (arith, v.counted)) in
    (
      leaf_tree nid xs t values node,
      rw e m,
      leaf_tree-IsValid nid xs t v inside free values node was h,
      leaf_vector_set nid xs t v inside free values node was h,
    )
