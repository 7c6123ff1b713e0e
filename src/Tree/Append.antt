-- ===== src/Tree/Append.antt =====
-- `SetCategoricalSplit` and `SetLeafVector` append a slice where the checks let them.
use native.Mathlib.Numerals.{add-one}
use treelite.Prelude.{
  ℕ, suc, ◌+◌, ◌-◌, ◌≤◌, ◌<◌, ◌≡◌, refl, ◌∙◌, arith, true, List, [], ◌∷◌, ◌++◌, ok, length, take,
  drop, replicate, le→leb, ==_iff, length-append, length-take, length-replicate,
}
use treelite.Base.{TlFloat}
use treelite.ContiguousArray.{ContiguousArray, size, at}
use treelite.ContiguousArray.Growth.{Holds, extend-Holds}
use treelite.Tree.{Tree}
use treelite.Tree.Getters.{left_categories, leaf_vector}
use treelite.Tree.Setters.{fill_from, all_equal, append_slice, sort, insert_sorted}
use treelite.Tree.Offsets.{Climbs, back-Climbs, Climbs-bounds}
use treelite.Tree.Slices.{slice_of, slice_of-ok}
use treelite.Tree.Invariant.{IsValid}

pub length-fill_from :
    (i m : ℕ) (xs : List ℕ) → i ≤ length xs → length (fill_from i m xs) ≡ length xs
unfolding fill_from
length-fill_from i m xs h = omega (
  arith,
  length-append (take i xs) (replicate (length xs - i) m),
  length-take i xs,
  length-replicate (length xs - i) m,
)

length-insert_sorted : (x : ℕ) (xs : List ℕ) → length (insert_sorted x xs) ≡ suc (length xs)
unfolding insert_sorted
length-insert_sorted x [] = refl
length-insert_sorted x (y ∷ ys) = ground (arith, length-insert_sorted x ys)

pub length-sort : (xs : List ℕ) → length (sort xs) ≡ length xs
unfolding sort
length-sort [] = refl
length-sort (x ∷ xs) = omega (arith, length-insert_sorted x (sort xs), length-sort xs)

pub append_slice-ok :
    {A : Type 0} (i : ℕ) (xs : List A) (values : ContiguousArray A) (offset : ContiguousArray ℕ)
    → Holds values.items values
    → Climbs 0 offset.items (length values.items)
    → suc i < length offset.items
    → all_equal (length values.items) (drop (suc i) offset.items) ≡ true
    → length values.items + length xs < 0x8000_0000_0000_0000
    → (longer : ContiguousArray A) × (append_slice i xs values offset
        ≡ ok (
          longer,
          record offset {
            items = fill_from (suc i) (length values.items + length xs) offset.items;
          },
        ))
      × Holds (values.items ++ xs) longer
unfolding append_slice size
append_slice-ok i xs values offset h c inside free small =
    let (longer, e, hl) = extend-Holds values.items xs values h small in
    let b = back-Climbs 0 (length values.items) offset offset.items refl (omega arith) c in
    let total : length values.items + length xs ≡ length longer.items =
      rw hl.same (omega (arith, length-append values.items xs)) in
    (
      longer,
      simp (
        b,
        add-one,
        (==_iff (length values.items) (length values.items)).1 refl,
        le→leb (suc i) (length offset.items) (omega arith),
        free,
        e,
        (==_iff _ _).1 total,
      ),
      hl,
    )

module _ (t : Tree) (v : IsValid t) (j : ℕ) (inside : j < t.num_nodes) where
  -- Behind the guard, which holds for every node.
  pub left_categories-slice_of :
      left_categories t j ≡ slice_of t.left_categories t.left_categories_offset.items j
  unfolding left_categories size at
  left_categories-slice_of =
      rw
        (
          le→leb j (length t.left_categories_offset.items) (omega (arith, v.categories_offsets)),
          add-one,
        )
        refl

  pub leaf_vector-slice_of : leaf_vector t j ≡ slice_of t.leaf_vector t.leaf_vector_offset.items j
  unfolding leaf_vector size at
  leaf_vector-slice_of =
      rw (le→leb j (length t.leaf_vector_offset.items) (omega (arith, v.leaf_offsets)), add-one)
        refl

  -- Every node has its list of categories, which may be empty.
  pub left_categories-total : (xs : List ℕ) × (left_categories t j ≡ ok xs)
  left_categories-total =
      let (b, e, pb, pe, _, le, up) =
        Climbs-bounds 0 (length t.left_categories.items) j t.left_categories_offset.items
          v.categories_climbs (omega (arith, v.categories_offsets)) in
      (_, left_categories-slice_of ∙ slice_of-ok t.left_categories _ j b e pb pe le up)

  pub leaf_vector-total : (xs : List TlFloat) × (leaf_vector t j ≡ ok xs)
  leaf_vector-total =
      let (b, e, pb, pe, _, le, up) =
        Climbs-bounds 0 (length t.leaf_vector.items) j t.leaf_vector_offset.items v.leaf_climbs
          (omega (arith, v.leaf_offsets)) in
      (_, leaf_vector-slice_of ∙ slice_of-ok t.leaf_vector _ j b e pb pe le up)
