-- ===== src/Tree/Offsets.antt =====
-- The offset arrays of a tree: where the slice of each node begins, in one array of values.
use treelite.Prelude.{
  ℕ, zero, suc, ◌-◌, ◌≤◌, ◌<◌, ◌≡◌, refl, ap, arith, List, [], ◌∷◌, ◌++◌, ok, some, length,
  get_elem?, replicate,
}
use treelite.ContiguousArray.{ContiguousArray, back, at}
use treelite.Tree.Setters.{fill_from}

-- The offsets climb from `lo` to `n`, which is the last of them.
abbrev pub Climbs : ℕ → List ℕ → ℕ → Type 0
Climbs lo [] n = lo ≡ n
Climbs lo (x ∷ xs) n = (lo ≤ x) × Climbs x xs n

pub Climbs-le : (lo n : ℕ) (xs : List ℕ) → Climbs lo xs n → lo ≤ n
Climbs-le lo n [] h = omega arith
Climbs-le lo n (x ∷ xs) h = omega (arith, Climbs-le x n xs h.1)

pub Climbs-push : (lo n : ℕ) (xs : List ℕ) → Climbs lo xs n → Climbs lo (xs ++ n ∷ []) n
Climbs-push lo n [] h = (omega arith, refl)
Climbs-push lo n (x ∷ xs) h = (h.0, Climbs-push x n xs h.1)

Climbs-last :
    (lo n x : ℕ) (xs : List ℕ) → Climbs lo (x ∷ xs) n → get_elem? (x ∷ xs) (length xs) ≡ some n
Climbs-last lo n x [] h = ap some h.1
Climbs-last lo n x (y ∷ xs) h = Climbs-last x n y xs h.1

-- `Back` of the offsets is the number of values.
pub back-Climbs :
    (lo n : ℕ) (a : ContiguousArray ℕ) (xs : List ℕ)
    → a.items ≡ xs
    → 0 < length xs
    → Climbs lo xs n
    → back a ≡ ok n
unfolding back at
back-Climbs lo n a [] e p h = elim p [ ]
back-Climbs lo n a (x ∷ xs) e p h = rw e (
    let w : suc (length xs) - 1 ≡ length xs = omega arith in
    rw (w, Climbs-last lo n x xs h) (ground arith))

-- Neighbouring offsets bound a slice of the values.
pub Climbs-bounds :
    (lo n i : ℕ) (xs : List ℕ)
    → Climbs lo xs n
    → suc i < length xs
    → (b : ℕ) × (e : ℕ) × (get_elem? xs i ≡ some b)
      × (get_elem? xs (suc i) ≡ some e)
      × (lo ≤ b)
      × (b ≤ e)
      × (e ≤ n)
Climbs-bounds lo n i [] h p = elim p [ ]
Climbs-bounds lo n i (x ∷ []) h p = absurd (omega arith)
Climbs-bounds lo n zero (x ∷ y ∷ xs) h p = (x, y, refl, refl, h.0, h.1.0, Climbs-le y n xs h.1.1)
Climbs-bounds lo n (suc i) (x ∷ y ∷ xs) h p =
    let (b, e, pb, pe, l, m, r) = Climbs-bounds x n i (y ∷ xs) h.1 (omega arith) in
    (b, e, pb, pe, omega arith, m, r)

-- No offset is above the number of values.
pub Climbs-get-le : (lo n b i : ℕ) (xs : List ℕ) → Climbs lo xs n → get_elem? xs i ≡ some b → b ≤ n
Climbs-get-le lo n b i [] h e = cc
Climbs-get-le lo n b zero (x ∷ xs) h e = ground (arith, Climbs-le x n xs h.1)
Climbs-get-le lo n b (suc i) (x ∷ xs) h e = Climbs-get-le x n b i xs h.1 e

Climbs-replicate : (k m n : ℕ) → m ≤ n → 0 < k → Climbs m (replicate k n) n
Climbs-replicate zero m n h p = elim p [ ]
Climbs-replicate (suc zero) m n h p = (h, refl)
Climbs-replicate (suc (suc k)) m n h p =
    (h, Climbs-replicate (suc k) n n (omega arith) (omega arith))

-- Raising a suffix of the offsets to a new number of values keeps the climb.
pub Climbs-fill :
    (lo n m i : ℕ) (xs : List ℕ)
    → Climbs lo xs n
    → n ≤ m
    → i < length xs
    → Climbs lo (fill_from i m xs) m
unfolding fill_from
Climbs-fill lo n m i [] h le p = elim p [ ]
Climbs-fill lo n m zero (x ∷ xs) h le p =
    Climbs-replicate (suc (length xs) - 0) lo m (omega (arith, Climbs-le lo n (x ∷ xs) h))
      (omega arith)
Climbs-fill lo n m (suc i) (x ∷ xs) h le p = (
  h.0,
  let w : suc (length xs) - suc i ≡ length xs - i = omega arith in
      rw w (Climbs-fill x n m i xs h.1 le (omega arith)),
)
