-- ===== src/Tree/CategoryLists.antt =====
-- The lists of categories of a tree while `SetCategoricalSplit` appends to them.
use treelite.Prelude.{
  ℕ, suc, ◌+◌, ◌<◌, ◌≡◌, refl, ◌∙◌, arith, List, ◌++◌, length, take, drop, length-append,
  take-append_le, drop-append, take_all,
}
use treelite.ContiguousArray.{ContiguousArray}
use treelite.ContiguousArray.Growth.{Holds}
use treelite.Tree.{Tree}
use treelite.Tree.Setters.{fill_from, sort}
use treelite.Tree.Offsets.{Climbs-fill}
use treelite.Tree.Append.{length-fill_from}
use treelite.Tree.Invariant.{IsValid}

-- The tree between the append and the change of the node.
abbrev pub with_categories : Tree → ContiguousArray ℕ → List ℕ → List ℕ → Tree
with_categories t values items offsets = record t {
  left_categories = record values { items = items };
  left_categories_offset = record t.left_categories_offset { items = offsets };
}

pub with_categories-IsValid :
    (t : Tree) (values : ContiguousArray ℕ) (xs ys : List ℕ) (nid : ℕ)
    → IsValid t
    → nid < t.num_nodes
    → Holds (t.left_categories.items ++ xs) values
    → length ys ≡ length xs
    → IsValid (
        with_categories t values (t.left_categories.items ++ ys) (
          fill_from
            (suc nid)
            (length t.left_categories.items + length xs)
            t.left_categories_offset.items))
with_categories-IsValid t values xs ys nid v inside h e =
    let n = length t.left_categories.items in
    let len =
      length-fill_from (suc nid) (n + length xs) t.left_categories_offset.items
        (omega (arith, v.categories_offsets)) in
    let total : n + length xs ≡ length (t.left_categories.items ++ ys) =
      omega (arith, length-append t.left_categories.items ys) in
    record {
      nodes_held = v.nodes_held;
      leaf_held = v.leaf_held;
      leaf_offset_held = v.leaf_offset_held;
      categories_held = record {
        same = refl;
        owned = h.owned;
        fits = omega (
          arith,
          h.fits,
          length-append t.left_categories.items ys,
          length-append t.left_categories.items xs,
        );
      };
      categories_offset_held = record {
        same = refl;
        owned = v.categories_offset_held.owned;
        fits = rw len v.categories_offset_held.fits;
      };
      counted = v.counted;
      positive = v.positive;
      in_int = v.in_int;
      leaf_offsets = v.leaf_offsets;
      categories_offsets = len ∙ v.categories_offsets;
      leaf_climbs = v.leaf_climbs;
      categories_climbs = rw (← total) (
          Climbs-fill 0 n (n + length xs) (suc nid) t.left_categories_offset.items
            v.categories_climbs (omega arith) (omega (arith, v.categories_offsets)));
      children = v.children;
    }

pub sorted_suffix :
    (values xs : List ℕ)
    → take (length values) (values ++ xs) ++ sort (drop (length values) (values ++ xs))
      ≡ values ++ sort xs
sorted_suffix values xs =
    rw
      (
        drop-append values xs,
        take-append_le (length values) values xs (omega arith),
        take_all values (length values) (omega arith),
      )
      refl
