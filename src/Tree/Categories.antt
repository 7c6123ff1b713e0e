-- ===== src/Tree/Categories.antt =====
-- `SetCategoricalSplit`: it keeps the invariant, and the getters read back what was set.
use treelite.Prelude.{
  length-append, ℕ, suc, ◌+◌, ◌<◌, ◌≡◌, refl, sym, ap, ◌∙◌, arith, Bool, true, ◌≢◌, List, ◌++◌, ok,
  some, length, get_elem?, take, drop, lt→ltb, get_elem?-set_self,
}
use treelite.Base.{categorical}
use treelite.ContiguousArray.{ContiguousArray, at, back}
use treelite.Tree.{Node, Tree, modify_node}
use treelite.Tree.Getters.{
  pack_sindex, left_child, right_child, split_index, default_left, split_type,
  missing_category_to_zero, left_categories,
}
use treelite.Tree.Setters.{
  set_categorical_split, split_index_limit, append_slice, all_equal, fill_from, sort,
}
use treelite.Tree.Offsets.{back-Climbs}
use treelite.Tree.Slices.{slice_of, slice_of-other, slice_of_self}
use treelite.Tree.Append.{append_slice-ok, left_categories-slice_of, length-sort}
use treelite.Tree.Invariant.{IsValid, with_node, modify_node-with_node, with_node-IsValid}
use treelite.Tree.Splits.{pack_sindex-split, OthersKept, with_node-OthersKept}
use treelite.Tree.CategoryLists.{with_categories, with_categories-IsValid, sorted_suffix}

-- What the getters say after `SetCategoricalSplit`.
pub record CategoricalSplit (t : Tree) (nid s : ℕ) (d mz : Bool) (categories : List ℕ) (u : Tree)
    : Type 0 where
  pub feature : split_index u nid ≡ ok s
  pub direction : default_left u nid ≡ ok d
  pub to_zero : missing_category_to_zero u nid ≡ ok mz
  pub of_type : split_type u nid ≡ ok categorical
  pub same_left : left_child u nid ≡ left_child t nid
  pub same_right : right_child u nid ≡ right_child t nid
  pub others : OthersKept t nid u
  pub added :
      (old : List ℕ)
      → left_categories t nid ≡ ok old
      → left_categories u nid ≡ ok (old ++ sort categories)
  pub other_categories :
      (i : ℕ) → i < t.num_nodes → i ≢ nid → left_categories u i ≡ left_categories t i
  pub more_categories :
      length u.left_categories.items ≡ length t.left_categories.items + length categories
  pub offsets_filled :
      u.left_categories_offset.items
      ≡ fill_from
          (suc nid)
          (length t.left_categories.items + length categories)
          t.left_categories_offset.items
  pub same_count : u.num_nodes ≡ t.num_nodes

set_categorical_split-run :
    (nid s : ℕ) (d mz : Bool) (categories : List ℕ) (t u : Tree) (values : ContiguousArray ℕ)
    (offset : ContiguousArray ℕ) (n : ℕ)
    → s < split_index_limit
    → back t.left_categories_offset ≡ ok n
    → append_slice nid categories t.left_categories t.left_categories_offset ≡ ok (values, offset)
    → modify_node
        (record t {
          left_categories = record values {
            items = take n values.items ++ sort (drop n values.items);
          };
          left_categories_offset = offset;
        })
        nid
        (λ node. record node {
          sindex = pack_sindex s d;
          split_type = categorical;
          missing_category_to_zero = mz;
        })
      ≡ ok u
    → set_categorical_split nid s d mz categories t ≡ ok u
unfolding set_categorical_split
set_categorical_split-run nid s d mz categories t u values offset n h b e m =
    simp (lt→ltb s split_index_limit h, b, e, m)

-- The tree that `SetCategoricalSplit` returns.
abbrev split_tree : ℕ → ℕ → Bool → Bool → List ℕ → Tree → ContiguousArray ℕ → Node → Tree
split_tree nid s d mz categories t values node =
    with_node
      (with_categories t values (t.left_categories.items ++ sort categories) (
        fill_from (suc nid) (length t.left_categories.items + length categories)
          t.left_categories_offset.items))
      nid
      (record node {
        sindex = pack_sindex s d;
        split_type = categorical;
        missing_category_to_zero = mz;
      })

module _ (nid s : ℕ) (d mz : Bool) (categories : List ℕ) (t : Tree) (v : IsValid t)
    (inside : nid < t.num_nodes) (small : s < split_index_limit)
    (free : all_equal
        (length t.left_categories.items)
        (drop (suc nid) t.left_categories_offset.items)
      ≡ true)
    (values : ContiguousArray ℕ) (node : Node) (was : get_elem? t.nodes.items nid ≡ some node)
    (valid : IsValid (split_tree nid s d mz categories t values node)) where
  slice_length :
      (i : ℕ)
      → slice_of
          (split_tree nid s d mz categories t values node).left_categories
          (fill_from
            (suc nid)
            (length t.left_categories.items + length (sort categories))
            t.left_categories_offset.items)
          i
        ≡ slice_of
            (split_tree nid s d mz categories t values node).left_categories
            (split_tree nid s d mz categories t values node).left_categories_offset.items
            i
  slice_length i = rw (length-sort categories) refl

  appended :
      (old : List ℕ)
      → left_categories t nid ≡ ok old
      → left_categories (split_tree nid s d mz categories t values node) nid
        ≡ ok (old ++ sort categories)
  appended old e =
      left_categories-slice_of (split_tree nid s d mz categories t values node) valid nid inside
      ∙ sym (slice_length nid)
      ∙ slice_of_self t.left_categories _ t.left_categories_offset.items nid (sort categories)
          v.categories_climbs (omega (arith, v.categories_offsets)) free refl old
          (sym (left_categories-slice_of t v nid inside) ∙ e)

  untouched :
      (i : ℕ)
      → i < t.num_nodes
      → i ≢ nid
      → left_categories (split_tree nid s d mz categories t values node) i ≡ left_categories t i
  untouched i h ne =
      left_categories-slice_of (split_tree nid s d mz categories t values node) valid i h
      ∙ sym (slice_length i)
      ∙ slice_of-other t.left_categories _ t.left_categories_offset.items nid (sort categories)
          v.categories_climbs (omega (arith, v.categories_offsets)) free refl i
          (omega (arith, v.categories_offsets)) (omega arith)
      ∙ sym (left_categories-slice_of t v i h)

  categorical_split :
      CategoricalSplit t nid s d mz categories (split_tree nid s d mz categories t values node)
  unfolding split_index default_left missing_category_to_zero split_type left_child right_child at
  categorical_split =
      let node' = record node {
        sindex = pack_sindex s d;
        split_type = categorical;
        missing_category_to_zero = mz;
      } in
      let now = get_elem?-set_self t.nodes.items nid node' (omega (arith, v.counted)) in
      let (ps, pd) = pack_sindex-split s d small in
      record {
        feature = rw now (ap ok ps);
        direction = rw now (ap ok pd);
        to_zero = rw now refl;
        of_type = rw now refl;
        same_left = rw (now, was) refl;
        same_right = rw (now, was) refl;
        others = with_node-OthersKept t nid node';
        added = appended;
        other_categories = untouched;
        more_categories = omega (
          arith,
          length-append t.left_categories.items (sort categories),
          length-sort categories,
        );
        offsets_filled = refl;
        same_count = refl;
      }

-- On a node of a valid tree whose successors have no categories yet, with a feature index below the
-- limit and fewer than 2 ^ 63 categories in all, `SetCategoricalSplit` succeeds, keeps the invariant,
-- sets the test, and appends the sorted categories to those of this node alone.
pub set_categorical_split-IsValid :
    (nid s : ℕ) (d mz : Bool) (categories : List ℕ) (t : Tree)
    → IsValid t
    → nid < t.num_nodes
    → s < split_index_limit
    → all_equal (length t.left_categories.items) (drop (suc nid) t.left_categories_offset.items)
      ≡ true
    → length t.left_categories.items + length categories < 0x8000_0000_0000_0000
    → (u : Tree) × (set_categorical_split nid s d mz categories t ≡ ok u)
      × IsValid u
      × CategoricalSplit t nid s d mz categories u
set_categorical_split-IsValid nid s d mz categories t v inside small free room =
    let n = length t.left_categories.items in
    let offs = t.left_categories_offset.items in
    let (values, e, h) =
      append_slice-ok nid categories t.left_categories t.left_categories_offset v.categories_held
        v.categories_climbs (omega (arith, v.categories_offsets)) free room in
    let sorted : take n values.items ++ sort (drop n values.items)
        ≡ t.left_categories.items ++ sort categories =
      rw h.same (sorted_suffix t.left_categories.items categories) in
    let t₁ =
      with_categories t values (t.left_categories.items ++ sort categories)
        (fill_from (suc nid) (n + length categories) offs) in
    let v₁ =
      with_categories-IsValid t values categories (sort categories) nid v inside h
        (length-sort categories) in
    let (node, was, m) =
      modify_node-with_node t₁ nid
        (λ node. record node {
          sindex = pack_sindex s d;
          split_type = categorical;
          missing_category_to_zero = mz;
        })
        (omega (arith, v.counted)) in
    let node' = record node {
      sindex = pack_sindex s d;
      split_type = categorical;
      missing_category_to_zero = mz;
    } in
    let b =
      back-Climbs 0 n t.left_categories_offset offs refl (omega (arith, v.categories_offsets))
        v.categories_climbs in
    (
      with_node t₁ nid node',
      set_categorical_split-run nid s d mz categories t (with_node t₁ nid node') values _ n small b
          e (rw sorted m),
      with_node-IsValid t₁ nid node' v₁ (v.children nid node was),
      categorical_split nid s d mz categories t v inside small free values node was
          (with_node-IsValid t₁ nid node' v₁ (v.children nid node was)),
    )
