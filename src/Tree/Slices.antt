-- ===== src/Tree/Slices.antt =====
-- Appending the slice of one node to an array of values, and what each node's slice is then.
use native.Mathlib.Nat.{sub_self}
use treelite.Prelude.{
  ℕ, zero, suc, ◌+◌, ◌-◌, ◌≤◌, ◌<◌, ◌≡◌, refl, sym, ap, ◌∙◌, arith, true, &&-split, ◌⊎◌, inl, inr,
  List, [], ◌∷◌, ◌++◌, Result, ok, ◌>>=◌, or_fault, some, length, get_elem?, take, drop, replicate,
  le→leb, ==_iff, length-append, length-drop, take_all, ok-injective, take-append_le,
  drop-append_le,
}
use treelite.ContiguousArray.{ContiguousArray}
use treelite.Tree.Getters.{slice}
use treelite.Tree.Setters.{fill_from, all_equal}
use treelite.Tree.Offsets.{Climbs, Climbs-bounds, Climbs-get-le}

get_elem?-fill_lt :
    (xs : List ℕ) (i j m : ℕ) → j < i → get_elem? (fill_from i m xs) j ≡ get_elem? xs j
unfolding fill_from
get_elem?-fill_lt xs zero j m h = elim h [ ]
get_elem?-fill_lt [] (suc i) j m h = let w : 0 - suc i ≡ 0 = omega arith in rw w refl
get_elem?-fill_lt (x ∷ xs) (suc i) zero m h = refl
get_elem?-fill_lt (x ∷ xs) (suc i) (suc j) m h =
    let w : suc (length xs) - suc i ≡ length xs - i = omega arith in
    rw w (get_elem?-fill_lt xs i j m (omega arith))

get_elem?-replicate : (n j m : ℕ) → j < n → get_elem? (replicate n m) j ≡ some m
get_elem?-replicate zero j m h = elim h [ ]
get_elem?-replicate (suc n) zero m h = refl
get_elem?-replicate (suc n) (suc j) m h = get_elem?-replicate n j m (omega arith)

get_elem?-fill_ge :
    (xs : List ℕ) (i j m : ℕ) → i ≤ j → j < length xs → get_elem? (fill_from i m xs) j ≡ some m
unfolding fill_from
get_elem?-fill_ge [] i j m h p = elim p [ ]
get_elem?-fill_ge (x ∷ xs) zero j m h p =
    get_elem?-replicate (suc (length xs) - 0) j m (omega arith)
get_elem?-fill_ge (x ∷ xs) (suc i) zero m h p = elim h [ ]
get_elem?-fill_ge (x ∷ xs) (suc i) (suc j) m h p =
    let w : suc (length xs) - suc i ≡ length xs - i = omega arith in
    rw w (get_elem?-fill_ge xs i j m (omega arith) (omega arith))

pub all_equal-get :
    (xs : List ℕ) (i j n : ℕ)
    → all_equal n (drop i xs) ≡ true
    → i ≤ j
    → j < length xs
    → get_elem? xs j ≡ some n
unfolding all_equal
all_equal-get [] i j n h le p = elim p [ ]
all_equal-get (x ∷ xs) zero zero n h le p = ap some ((==_iff x n).0 (&&-split _ _ h).0)
all_equal-get (x ∷ xs) zero (suc j) n h le p =
    all_equal-get xs zero j n (&&-split _ _ h).1 (omega arith) (omega arith)
all_equal-get (x ∷ xs) (suc i) zero n h le p = elim le [ ]
all_equal-get (x ∷ xs) (suc i) (suc j) n h le p =
    all_equal-get xs i j n h (omega arith) (omega arith)

-- The values from `b` up to `e`, where `slice` does not fault.
slice-ok :
    {A : Type 0} (a : ContiguousArray A) (b e : ℕ)
    → b ≤ e
    → e ≤ length a.items
    → slice a b e ≡ ok (take (e - b) (drop b a.items))
unfolding slice
slice-ok a b e h p = simp (le→leb b e h, le→leb e (length a.items) p)

-- The slice of node `j`: what `LeafVector` and `LeftCategories` return behind their guard.
abbrev pub slice_of : {A : Type 0} → ContiguousArray A → List ℕ → ℕ → Result (List A)
slice_of a offsets j = or_fault (get_elem? offsets j) >>= λ b.
    or_fault (get_elem? offsets (suc j)) >>= λ e. slice a b e

pub slice_of-ok :
    {A : Type 0} (a : ContiguousArray A) (offsets : List ℕ) (j b e : ℕ)
    → get_elem? offsets j ≡ some b
    → get_elem? offsets (suc j) ≡ some e
    → b ≤ e
    → e ≤ length a.items
    → slice_of a offsets j ≡ ok (take (e - b) (drop b a.items))
slice_of-ok a offsets j b e p q h l = rw (p, q) (slice-ok a b e h l)

-- Slices are there for every node, and stay what they are when more values are appended.
slice_of-append :
    {A : Type 0} (a a' : ContiguousArray A) (offsets offsets' : List ℕ) (ys : List A) (j b e : ℕ)
    → a'.items ≡ a.items ++ ys
    → get_elem? offsets j ≡ some b
    → get_elem? offsets (suc j) ≡ some e
    → get_elem? offsets' j ≡ some b
    → get_elem? offsets' (suc j) ≡ some e
    → b ≤ e
    → e ≤ length a.items
    → slice_of a' offsets' j ≡ slice_of a offsets j
slice_of-append a a' offsets offsets' ys j b e s p q p' q' h l =
    slice_of-ok a' offsets' j b e p' q' h (rw s (omega (arith, length-append a.items ys)))
    ∙ ap ok (
        rw
          (
            s,
            drop-append_le b a.items ys (omega arith),
            take-append_le (e - b) (drop b a.items) ys (omega (arith, length-drop b a.items)),
          )
          refl)
    ∙ sym (slice_of-ok a offsets j b e p q h l)

module _ {A : Type 0} (a a' : ContiguousArray A) (offsets : List ℕ) (i : ℕ) (ys : List A)
    (c : Climbs 0 offsets (length a.items)) (inside : suc i < length offsets)
    (free : all_equal (length a.items) (drop (suc i) offsets) ≡ true)
    (s : a'.items ≡ a.items ++ ys) where
  -- The slice of another node is what it was.
  pub slice_of-other :
      (j : ℕ)
      → suc j < length offsets
      → (j < i) ⊎ (i < j)
      → slice_of a' (fill_from (suc i) (length a.items + length ys) offsets) j
        ≡ slice_of a offsets j
  slice_of-other j h (inl lt) =
      let (b, e, pb, pe, _, le, up) = Climbs-bounds 0 (length a.items) j offsets c h in
      slice_of-append a a' offsets _ ys j b e s pb pe
        (get_elem?-fill_lt offsets (suc i) j _ (omega arith) ∙ pb)
        (get_elem?-fill_lt offsets (suc i) (suc j) _ (omega arith) ∙ pe) le up
  slice_of-other j h (inr gt) =
      let n = length a.items in
      let m = length a.items + length ys in
      slice_of-ok a' _ j m m (get_elem?-fill_ge offsets (suc i) j m (omega arith) (omega arith))
        (get_elem?-fill_ge offsets (suc i) (suc j) m (omega arith) (omega arith)) (omega arith)
        (rw s (omega (arith, length-append a.items ys)))
      ∙ ap ok (rw (sub_self m, sub_self n) refl)
      ∙ sym (
          slice_of-ok a offsets j n n
            (all_equal-get offsets (suc i) j n free (omega arith) (omega arith))
            (all_equal-get offsets (suc i) (suc j) n free (omega arith) (omega arith)) (omega arith)
            (omega arith))

  -- The slice of the node itself is longer by the new values.
  pub slice_of_self :
      (old : List A)
      → slice_of a offsets i ≡ ok old
      → slice_of a' (fill_from (suc i) (length a.items + length ys) offsets) i ≡ ok (old ++ ys)
  slice_of_self old e =
      let n = length a.items in
      let m = length a.items + length ys in
      let (b, _, pb, _, _, _, _) = Climbs-bounds 0 n i offsets c inside in
      let pe = all_equal-get offsets (suc i) (suc i) n free (omega arith) inside in
      let le : b ≤ n = Climbs-get-le 0 n b i offsets c pb in
      let now = slice_of-ok a offsets i b n pb pe le (omega arith) in
      let same : old ≡ drop b a.items =
        ok-injective (sym e ∙ now) ∙ take_all _ (n - b) (omega (arith, length-drop b a.items)) in
      slice_of-ok a' _ i b m (get_elem?-fill_lt offsets (suc i) i m (omega arith) ∙ pb)
        (get_elem?-fill_ge offsets (suc i) (suc i) m (omega arith) inside) (omega arith)
        (rw s (omega (arith, length-append a.items ys)))
      ∙ ap ok (
          rw (s, drop-append_le b a.items ys le, same)
            (take_all _ (m - b)
              (omega (arith, length-append (drop b a.items) ys, length-drop b a.items))))
