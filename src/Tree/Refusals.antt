-- ===== src/Tree/Refusals.antt =====
-- What the setters and getters of a tree refuse, and what they do not catch.
use native.Mathlib.Numerals.{add-one}
use treelite.Prelude.{
  ℕ, suc, ◌+◌, ◌≤◌, ◌<◌, ◌≡◌, refl, arith, Bool, true, false, List, Result, ok, err, fault,
  runtime_error, ◌>>=◌, guard, or_fault, Bool-cases, Option-cases, if◌then◌else◌, none, length,
  get_elem?, get_elem?-ge, drop, ltb, leb, le→leb, ==_iff, inl, inr,
}
use treelite.Base.{TlFloat, Operator}
use treelite.ContiguousArray.{ContiguousArray, at, back, size}
use treelite.Tree.{Tree}
use treelite.Tree.Getters.{leaf_vector, has_leaf_vector, left_categories}
use treelite.Tree.Setters.{
  set_numerical_split, set_categorical_split, set_leaf_vector, split_index_limit, append_slice,
  all_equal,
}
use treelite.Tree.Offsets.{back-Climbs}
use treelite.Tree.Invariant.{IsValid}

-- A feature index of 2 ^ 31 - 1 or more is refused by both split setters.
split_index_too_big :
    (nid s : ℕ) (th : TlFloat) (d mz : Bool) (op : Operator) (categories : List ℕ) (t : Tree)
    → split_index_limit ≤ s
    → (set_numerical_split nid s th d op t ≡ err (runtime_error "split_index too big"))
      × (set_categorical_split nid s d mz categories t ≡ err (runtime_error "split_index too big"))
unfolding set_numerical_split set_categorical_split
split_index_too_big nid s th d mz op categories t h =
    let e : ltb s split_index_limit ≡ false = ground arith in (rw e refl, rw e refl)

append_slice-occupied :
    {A : Type 0} (nid n : ℕ) (xs : List A) (values : ContiguousArray A) (offset : ContiguousArray ℕ)
    → back offset ≡ ok n
    → n ≡ length values.items
    → suc nid ≤ length offset.items
    → all_equal n (drop (suc nid) offset.items) ≡ false
    → append_slice nid xs values offset ≡ err (runtime_error "Invariant violated")
unfolding append_slice size
append_slice-occupied nid n xs values offset b e h occupied = simp (
  b,
  (==_iff n (length values.items)).1 e,
  add-one,
  le→leb (suc nid) (length offset.items) h,
  occupied,
)

-- Where a later node has values already, both setters that append refuse.
append_to_occupied :
    (nid s : ℕ) (d mz : Bool) (categories : List ℕ) (xs : List TlFloat) (t : Tree)
    → IsValid t
    → nid < t.num_nodes
    → s < split_index_limit
    → all_equal (length t.left_categories.items) (drop (suc nid) t.left_categories_offset.items)
      ≡ false
    → all_equal (length t.leaf_vector.items) (drop (suc nid) t.leaf_vector_offset.items) ≡ false
    → (set_categorical_split nid s d mz categories t ≡ err (runtime_error "Invariant violated"))
      × (set_leaf_vector nid xs t ≡ err (runtime_error "Invariant violated"))
unfolding set_categorical_split set_leaf_vector
append_to_occupied nid s d mz categories xs t v inside small o o' =
    let e : ltb s split_index_limit ≡ true = ground arith in
    let b₁ =
      back-Climbs 0 (length t.left_categories.items) t.left_categories_offset _ refl
        (omega (arith, v.categories_offsets)) v.categories_climbs in
    let b₂ =
      back-Climbs 0 (length t.leaf_vector.items) t.leaf_vector_offset _ refl
        (omega (arith, v.leaf_offsets)) v.leaf_climbs in
    (
      simp (
        e,
        b₁,
        append_slice-occupied nid _ categories t.left_categories t.left_categories_offset b₁ refl
            (omega (arith, v.categories_offsets)) o,
      ),
      simp (
          append_slice-occupied nid _ xs t.leaf_vector t.leaf_vector_offset b₂ refl
            (omega (arith, v.leaf_offsets)) o'),
    )

-- The guard and the two reads, before the slice is taken by `k`.
past_end :
    {B : Type 0} (offsets : List ℕ) (n nid : ℕ) (k : ℕ → ℕ → Result B)
    → length offsets ≡ n + 1
    → n ≤ nid
    → (guard (leb nid (length offsets)) (runtime_error "nid too large") >>= λ _.
        or_fault (get_elem? offsets nid) >>= λ b. or_fault (get_elem? offsets (nid + 1)) >>= k b)
      ≡ err (if leb nid (n + 1) then fault else runtime_error "nid too large")
past_end offsets n nid k e h =
    let gone : get_elem? offsets (nid + 1) ≡ none = get_elem?-ge offsets (nid + 1) (omega arith) in
    elim (Bool-cases (leb nid (n + 1))) [
      | inr large ↦ rw (e, large) refl
      | inl small ↦ elim (Option-cases (get_elem? offsets nid)) [
        | inl absent ↦ rw (e, small, absent) refl
        | inr (b, present) ↦ rw (e, small, present, gone) refl
      ]
    ]

-- On a valid tree the guard of the slice getters lets two ids pass that no node has, `num_nodes` and
-- the one after it: there they read past the end of the offsets. For larger ids they throw.
pub slice_getters-past_end :
    (t : Tree) (nid : ℕ)
    → IsValid t
    → t.num_nodes ≤ nid
    → let e = if leb nid (t.num_nodes + 1) then fault else runtime_error "nid too large" in
      (leaf_vector t nid ≡ err e)
      × (has_leaf_vector t nid ≡ err e)
      × (left_categories t nid ≡ err e)
unfolding leaf_vector has_leaf_vector left_categories size at
slice_getters-past_end t nid v past = (
  past_end t.leaf_vector_offset.items t.num_nodes nid _ v.leaf_offsets past,
  past_end t.leaf_vector_offset.items t.num_nodes nid _ v.leaf_offsets past,
  past_end t.left_categories_offset.items t.num_nodes nid _ v.categories_offsets past,
)
