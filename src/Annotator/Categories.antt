-- ===== src/Annotator/Categories.antt =====
-- `Traverse_` at a node whose test `SetCategoricalSplit` has set.
use treelite.Prelude.{
  ◌+◌, length, drop, ok, ℕ, suc, ◌≤◌, ◌<◌, ◌≡◌, refl, sym, ap, ◌∙◌, arith, inl, inr, Bool, true,
  false, not, List, [], ◌∷◌, none, some, get_elem?, ltb, leb, ltb→lt, leb→le, ◌==◌, if◌then◌else◌,
  Bool-cases,
}
use treelite.Base.{float_to_uint32}
use treelite.Tree.{Tree}
use treelite.Tree.Getters.{left_categories}
use treelite.Tree.Setters.{sort, insert_sorted, set_categorical_split, split_index_limit, all_equal}
use treelite.Tree.Invariant.{IsValid}
use treelite.Tree.Categories.{set_categorical_split-IsValid}
use treelite.Annotator.{binary_search, lower_bound, test_node}

-- Whether a number is in a list.
unfoldable pub elem : ℕ → List ℕ → Bool
elem v [] = false
elem v (x ∷ xs) = if v == x then true else elem v xs

-- The numbers go up from `lo`.
pub Ascending : ℕ → List ℕ → Type 0
Ascending lo [] = Unit
Ascending lo (x ∷ xs) = (lo ≤ x) × Ascending x xs

insert_sorted-Ascending :
    (lo x : ℕ) (ys : List ℕ) → lo ≤ x → Ascending lo ys → Ascending lo (insert_sorted x ys)
unfolding Ascending insert_sorted
insert_sorted-Ascending lo x [] l a = (l, tt)
insert_sorted-Ascending lo x (y ∷ ys) l a = elim (Bool-cases (leb x y)) [
  | inl p ↦ rw p (l, (leb→le x y p, a.1))
  | inr p ↦ let yx : y ≤ x = ground arith in rw p (a.0, insert_sorted-Ascending y x ys yx a.1)
]

sort-Ascending : (xs : List ℕ) → Ascending 0 (sort xs)
unfolding Ascending sort
sort-Ascending [] = tt
sort-Ascending (x ∷ xs) = insert_sorted-Ascending 0 x (sort xs) (omega arith) (sort-Ascending xs)

elem-insert_sorted :
    (v x : ℕ) (ys : List ℕ) → elem v (insert_sorted x ys) ≡ (if v == x then true else elem v ys)
unfolding elem insert_sorted
elem-insert_sorted v x [] = refl
elem-insert_sorted v x (y ∷ ys) = elim (Bool-cases (leb x y)) [
  | inl p ↦ rw p refl
  | inr p ↦ elim (Bool-cases (v == y)) [
    | inl q ↦ elim (Bool-cases (v == x)) [ inl r ↦ rw (p, q, r) refl | inr r ↦ rw (p, q, r) refl ]
    | inr q ↦ rw (p, q) (elem-insert_sorted v x ys)
  ]
]

elem-sort : (v : ℕ) (xs : List ℕ) → elem v (sort xs) ≡ elem v xs
unfolding elem sort
elem-sort v [] = refl
elem-sort v (x ∷ xs) =
    elem-insert_sorted v x (sort xs) ∙ ap (λ r. if v == x then true else r) (elem-sort v xs)

elem-below : (v lo : ℕ) (xs : List ℕ) → v < lo → Ascending lo xs → elem v xs ≡ false
unfolding elem Ascending
elem-below v lo [] l a = refl
elem-below v lo (x ∷ xs) l a =
    let ne : (v == x) ≡ false = ground (arith, a.0) in
    rw ne (elem-below v x xs (omega (arith, l, a.0)) a.1)

lower_bound-lt :
    (x v : ℕ) (xs : List ℕ) → ltb x v ≡ true → lower_bound (x ∷ xs) v ≡ suc (lower_bound xs v)
unfolding lower_bound
lower_bound-lt x v xs p = rw p refl

lower_bound-ge : (x v : ℕ) (xs : List ℕ) → ltb x v ≡ false → lower_bound (x ∷ xs) v ≡ 0
unfolding lower_bound
lower_bound-ge x v xs p = rw p refl

-- What `std::binary_search` makes of the position.
found : List ℕ → ℕ → ℕ → Bool
found xs v i = elim (get_elem? xs i) [ none ↦ false | some y ↦ not (ltb v y) ]

binary_search-found : (xs : List ℕ) (v : ℕ) → binary_search xs v ≡ found xs v (lower_bound xs v)
unfolding binary_search found
binary_search-found xs v = refl

binary_search-lt :
    (x v : ℕ) (xs : List ℕ) → ltb x v ≡ true → binary_search (x ∷ xs) v ≡ binary_search xs v
unfolding found
binary_search-lt x v xs p =
    binary_search-found (x ∷ xs) v
    ∙ ap (found (x ∷ xs) v) (lower_bound-lt x v xs p)
    ∙ sym (binary_search-found xs v)

binary_search-ge :
    (x v : ℕ) (xs : List ℕ) → ltb x v ≡ false → binary_search (x ∷ xs) v ≡ not (ltb v x)
unfolding found
binary_search-ge x v xs p =
    binary_search-found (x ∷ xs) v ∙ ap (found (x ∷ xs) v) (lower_bound-ge x v xs p)

pub binary_search-elem : (lo v : ℕ) (xs : List ℕ) → Ascending lo xs → binary_search xs v ≡ elem v xs
unfolding elem Ascending found
binary_search-elem lo v [] a = binary_search-found [] v ∙ nothing
  where
    nothing : found [] v (lower_bound [] v) ≡ false
    nothing = refl
binary_search-elem lo v (x ∷ xs) a = elim (Bool-cases (ltb x v)) [
  | inl p ↦
      let ne : (v == x) ≡ false = ground arith in
      binary_search-lt x v xs p ∙ rw ne (binary_search-elem x v xs a.1)
  | inr p ↦ elim (Bool-cases (v == x)) [
    | inl q ↦ let le : ltb v x ≡ false = ground arith in binary_search-ge x v xs p ∙ rw (q, le) refl
    | inr q ↦
        let lt : ltb v x ≡ true = ground arith in
        binary_search-ge x v xs p ∙ rw (q, lt) (sym (elem-below v x xs (ltb→lt v x lt) a.1))
  ]
]

binary_search-sort :
    (v : ℕ) (categories : List ℕ) → binary_search (sort categories) v ≡ elem v categories
binary_search-sort v categories =
    binary_search-elem 0 v (sort categories) (sort-Ascending categories) ∙ elem-sort v categories

-- On a node of a valid tree that has no categories yet, and under the conditions on sizes of
-- `SetCategoricalSplit`, that setter succeeds, and then the test of `Traverse_` sends every value that
-- converts to a category to the left exactly where the category is one of those that were given to
-- the setter, in whatever order.
pub test_node-set_categorical_split :
    (nid s : ℕ) (d mz : Bool) (categories : List ℕ) (t : Tree)
    → IsValid t
    → nid < t.num_nodes
    → s < split_index_limit
    → left_categories t nid ≡ ok []
    → all_equal (length t.left_categories.items) (drop (suc nid) t.left_categories_offset.items)
      ≡ true
    → length t.left_categories.items + length categories < 0x8000_0000_0000_0000
    → (u : Tree) × (set_categorical_split nid s d mz categories t ≡ ok u)
      × ((entry v : ℕ)
          → float_to_uint32 entry ≡ ok v
          → test_node u nid entry ≡ ok (elem v categories))
unfolding test_node
test_node-set_categorical_split nid s d mz categories t valid inside small empty free room =
    let (u, e, _, c) =
      set_categorical_split-IsValid nid s d mz categories t valid inside small free room in
    let set = c.added [] empty in
    (u, e, λ entry v f. rw (c.of_type, set, f) (ap ok (binary_search-sort v categories)))
