-- ===== src/Tree/Free.antt =====
-- Nodes from some id on that have no categories yet: what `SetCategoricalSplit` asks of the nodes
-- behind its own.
use native.Mathlib.Nat.{sub_self}
use treelite.Prelude.{
  ℕ, zero, suc, ◌+◌, ◌-◌, ◌≤◌, ◌<◌, ◌≡◌, refl, sym, ap, ◌∙◌, arith, Bool, true, &&-split, List, [],
  ◌∷◌, ◌++◌, ok, length, length-append, get_elem?-append_lt, drop, replicate, ◌==◌, ==_iff,
}
use treelite.Tree.{Tree}
use treelite.Tree.Getters.{left_categories}
use treelite.Tree.Setters.{all_equal, fill_from}
use treelite.Tree.Invariant.{IsValid}
use treelite.Tree.Slices.{slice_of-ok, all_equal-get}
use treelite.Tree.Append.{left_categories-slice_of}
use treelite.Tree.AddChilds.{Grown}
use treelite.Tree.Categories.{CategoricalSplit}

abbrev pub Free : Tree → ℕ → Type 0
Free t k = all_equal (length t.left_categories.items) (drop k t.left_categories_offset.items) ≡ true

self : (n : ℕ) → (n == n) ≡ true
self n = (==_iff n n).1 refl

all_equal-drop-suc :
    (n k : ℕ) (xs : List ℕ) → all_equal n (drop k xs) ≡ true → all_equal n (drop (suc k) xs) ≡ true
unfolding all_equal
all_equal-drop-suc n zero [] h = refl
all_equal-drop-suc n zero (x ∷ xs) h = (&&-split (x == n) (all_equal n xs) h).1
all_equal-drop-suc n (suc k) [] h = refl
all_equal-drop-suc n (suc k) (x ∷ xs) h = all_equal-drop-suc n k xs h

pub Free-suc : (t : Tree) (k : ℕ) → Free t k → Free t (suc k)
Free-suc t k = all_equal-drop-suc (length t.left_categories.items) k t.left_categories_offset.items

all_equal-push :
    (n k : ℕ) (xs : List ℕ)
    → k ≤ length xs
    → all_equal n (drop k xs) ≡ true
    → all_equal n (drop k (xs ++ n ∷ [])) ≡ true
unfolding all_equal
all_equal-push n zero [] l h = rw (self n) refl
all_equal-push n zero (x ∷ xs) l h =
    let (p, q) = &&-split (x == n) (all_equal n xs) h in
    rw (p, all_equal-push n zero xs (omega arith) q) refl
all_equal-push n (suc k) [] l h = absurd (omega arith)
all_equal-push n (suc k) (x ∷ xs) l h = all_equal-push n k xs (omega arith) h

-- New nodes have no categories either.
pub Free-Grown :
    (t u : Tree) (nid k : ℕ)
    → Grown t nid u
    → k ≤ length t.left_categories_offset.items
    → Free t k
    → Free u k
Free-Grown t u nid k g l h =
    let n = length t.left_categories.items in
    let offs = t.left_categories_offset.items in
    let once = all_equal-push n k offs l h in
    let twice =
      all_equal-push n k (offs ++ n ∷ []) (omega (arith, length-append offs (n ∷ []))) once in
    rw (g.offsets_end, ap (λ a. length a.items) g.same_categories) twice

all_equal-replicate : (n m : ℕ) → all_equal n (replicate m n) ≡ true
unfolding all_equal
all_equal-replicate n zero = refl
all_equal-replicate n (suc m) = rw (self n, all_equal-replicate n m) refl

drop-fill_from :
    (k m : ℕ) (xs : List ℕ)
    → k ≤ length xs
    → drop k (fill_from k m xs) ≡ replicate (length xs - k) m
unfolding fill_from
drop-fill_from zero m xs l = refl
drop-fill_from (suc k) m [] l = absurd (omega arith)
drop-fill_from (suc k) m (x ∷ xs) l =
    let less : suc (length xs) - suc k ≡ length xs - k = omega arith in
    rw less (drop-fill_from k m xs (omega arith))

-- The nodes behind a categorical test have none.
pub Free-CategoricalSplit :
    (t u : Tree) (nid s : ℕ) (d mz : Bool) (categories : List ℕ)
    → CategoricalSplit t nid s d mz categories u
    → suc nid ≤ length t.left_categories_offset.items
    → Free u (suc nid)
Free-CategoricalSplit t u nid s d mz categories c l =
    let m = length t.left_categories.items + length categories in
    rw
      (
        c.more_categories,
        c.offsets_filled,
        drop-fill_from (suc nid) m t.left_categories_offset.items l,
      )
      (all_equal-replicate m (length t.left_categories_offset.items - suc nid))

pub left_categories-Free :
    (t : Tree) (nid : ℕ)
    → IsValid t
    → nid < t.num_nodes
    → Free t nid
    → left_categories t nid ≡ ok []
left_categories-Free t nid v inside h =
    let n = length t.left_categories.items in
    let offs = t.left_categories_offset.items in
    let first =
      all_equal-get offs nid nid n h (omega arith) (omega (arith, v.categories_offsets)) in
    let last =
      all_equal-get offs nid (suc nid) n h (omega arith) (omega (arith, v.categories_offsets)) in
    left_categories-slice_of t v nid inside
    ∙ slice_of-ok t.left_categories offs nid n n first last (omega arith) (omega arith)
    ∙ (rw (sub_self n) refl)

-- The nodes that were there keep their categories.
pub left_categories-Grown :
    (t u : Tree) (nid i : ℕ)
    → IsValid t
    → IsValid u
    → Grown t nid u
    → i < t.num_nodes
    → left_categories u i ≡ left_categories t i
left_categories-Grown t u nid i v w g inside =
    let n = length t.left_categories.items in
    let offs = t.left_categories_offset.items in
    let keep = λ (j : ℕ) (l : j < length offs).
      get_elem?-append_lt (offs ++ n ∷ []) (n ∷ []) j (omega (arith, length-append offs (n ∷ [])))
      ∙ get_elem?-append_lt offs (n ∷ []) j l in
    left_categories-slice_of u w i (omega (arith, g.two_more))
    ∙ (rw
        (
          g.same_categories,
          g.offsets_end,
          keep i (omega (arith, v.categories_offsets)),
          keep (suc i) (omega (arith, v.categories_offsets)),
        )
        (sym (left_categories-slice_of t v i inside)))
