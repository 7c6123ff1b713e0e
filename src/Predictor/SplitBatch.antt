-- ===== src/Predictor/SplitBatch.antt =====
-- `SplitBatch` cuts the rows into shares that differ by one row at most.
use treelite.Prelude.{
  ℕ, zero, suc, ◌+◌, ◌-◌, ◌*◌, ◌/◌, ◌%◌, ◌≤◌, ◌<◌, ◌≡◌, refl, sym, ap, ◌∙◌, arith, List, ◌∷◌, ok,
  some, length, get_elem?, replicate, min, le→leb, lt→ltb, ok-injective,
}
use native.Mathlib.Nat.{div-add-mod, mod-lt}
use treelite.Predictor.Predict.{split_batch, increment_first, running_sums}

-- Running sums of `m` shares of `w`, the first `r` of them one larger.
running_sums-get :
    (m w r acc i : ℕ)
    → i < m
    → get_elem? (running_sums acc (increment_first r (replicate m w))) i
      ≡ some (acc + suc i * w + min (suc i) r)
unfolding running_sums increment_first
running_sums-get zero w r acc i h = elim h [ ]
running_sums-get (suc m) w zero acc zero h = ap some (omega arith)
running_sums-get (suc m) w (suc r) acc zero h = ap some (omega arith)
running_sums-get (suc m) w zero acc (suc i) h =
    running_sums-get m w zero (acc + w) i (omega arith) ∙ ap some (omega arith)
running_sums-get (suc m) w (suc r) acc (suc i) h =
    running_sums-get m w r (acc + (w + 1)) i (omega arith) ∙ ap some (omega arith)

length-running_sums :
    (m w r acc : ℕ) → length (running_sums acc (increment_first r (replicate m w))) ≡ m
unfolding running_sums increment_first
length-running_sums zero w zero acc = refl
length-running_sums zero w (suc r) acc = refl
length-running_sums (suc m) w zero acc = ap suc (length-running_sums m w zero (acc + w))
length-running_sums (suc m) w (suc r) acc = ap suc (length-running_sums m w r (acc + (w + 1)))

-- The pointers that `SplitBatch` returns: they begin at 0, end at the number of rows, and share
-- `tid` has `num_row / k` rows, or one more if `tid` is below the remainder.
pub record Shares (num_row k : ℕ) (ptr : List ℕ) : Type 0 where
  pub count : length ptr ≡ k + 1
  pub at_pointer :
      (i : ℕ) → i ≤ k → get_elem? ptr i ≡ some (i * (num_row / k) + min i (num_row % k))
  pub first : get_elem? ptr 0 ≡ some 0
  pub last : get_elem? ptr k ≡ some num_row

-- For a positive number of shares that is at most the number of rows, `SplitBatch` succeeds: its
-- row pointers begin at 0, end at the number of rows, and the first `num_row % k` shares get one row
-- more than the others.
pub split_batch-Shares :
    (num_row k : ℕ)
    → 0 < k
    → k ≤ num_row
    → (ptr : List ℕ) × (split_batch num_row k ≡ ok ptr) × Shares num_row k ptr
unfolding split_batch
split_batch-Shares num_row k pos le =
    let r = num_row % k in
    let w = num_row / k in
    (
      0 ∷ running_sums 0 (increment_first r (replicate k w)),
      simp (le→leb k num_row le, lt→ltb 0 k pos),
      record {
        count = omega (arith, length-running_sums k w r 0);
        at_pointer = pointer;
        first = refl;
        last =
            pointer k (omega arith)
            ∙ ap some (omega (arith, div-add-mod num_row k, mod-lt num_row pos));
      },
    )
  where
    pointer :
        (i : ℕ)
        → i ≤ k
        → get_elem?
            (0 ∷ running_sums 0 (increment_first (num_row % k) (replicate k (num_row / k))))
            i
          ≡ some (i * (num_row / k) + min i (num_row % k))
    pointer zero h = ap some (omega arith)
    pointer (suc i) h = running_sums-get k (num_row / k) (num_row % k) 0 i h ∙ ap some (omega arith)

portion_pos : (n k : ℕ) → 0 < k → k ≤ n → 0 < n / k
portion_pos n k pos le = go (n / k) refl
  where
    go : (w : ℕ) → n / k ≡ w → 0 < n / k
    go zero e = absurd (omega (arith, div-add-mod n k, mod-lt n pos, ap (λ (t : ℕ). k * t) e))
    go (suc w) e = omega arith

share_end : (n k i : ℕ) → 0 < k → suc i ≤ k → suc i * (n / k) + min (suc i) (n % k) ≤ n
share_end n k i pos h =
    let mono : suc i * (n / k) ≤ k * (n / k) = grind arith in
    omega (arith, div-add-mod n k, mod-lt n pos)

-- The rows of share `tid`.
pub record Share (num_row k tid : ℕ) (ptr : List ℕ) : Type 0 where
  pub rbegin : ℕ
  pub rend : ℕ
  pub begins : get_elem? ptr tid ≡ some rbegin
  pub ends : get_elem? ptr (suc tid) ≡ some rend
  pub nonempty : rbegin < rend
  pub inside : rend ≤ num_row
  pub at_least : num_row / k ≤ rend - rbegin
  pub at_most : rend - rbegin ≤ num_row / k + 1

-- Under the same conditions no share is empty, none ends beyond the last row, so that the check of
-- `PredLoop` holds of each, and no two shares differ by more than one row.
pub split_batch-Share :
    (num_row k tid : ℕ) (ptr : List ℕ)
    → 0 < k
    → k ≤ num_row
    → tid < k
    → split_batch num_row k ≡ ok ptr
    → Share num_row k tid ptr
split_batch-Share num_row k tid ptr pos le h e =
    let (ptr', e', s) = split_batch-Shares num_row k pos le in
    let same : ptr ≡ ptr' = ok-injective (sym e ∙ e') in
    let w = num_row / k in
    let r = num_row % k in
    record {
      rbegin = tid * w + min tid r;
      rend = suc tid * w + min (suc tid) r;
      begins = rw same (s.at_pointer tid (omega arith));
      ends = rw same (s.at_pointer (suc tid) h);
      nonempty = omega (arith, portion_pos num_row k pos le);
      inside = share_end num_row k tid pos h;
      at_least = omega arith;
      at_most = omega arith;
    }
