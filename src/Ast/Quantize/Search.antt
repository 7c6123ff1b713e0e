-- ===== src/Ast/Quantize/Search.antt =====
-- The search for the bin of a feature value, and what comparisons with its result mean.
use treelite.Prelude.{
  ℕ, zero, suc, ◌+◌, ◌-◌, ◌*◌, ◌/◌, ◌≤◌, ◌<◌, true, false, List, [], ◌∷◌, some, ◌≡◌, ◌≢◌, refl, sym,
  ap, ◌∙◌, arith, inl, inr, Bool-cases, ok, ◌>>=◌, length, get_elem?, ltb, ◌==◌, ltb→lt,
  get_elem?-lt, ==_iff,
}
use treelite.Base.{TlFloat, is_nan, order_key, compare_with_op, Operator, no_op}
use treelite.Ast.Quantize.{
  array_threshold, array_th_begin, total_num_threshold, int_key, compare_int, quantize,
  quantize_loop, minus_ten,
}
use treelite.Ast.Quantize.Bins.{
  Above, Above-get, Above-lt, float_lt-keys, float_eq-keys, segment, SameOrder, below,
  SameOrder-compare,
}
use treelite.Ast.Quantize.Placed.{
  Placed, Placed-at, Placed-between, int_key-small, get_elem?-inside,
}

module _ (xs : List TlFloat) (v : TlFloat) (s : Above 0 xs) (num : is_nan v ≡ false)
    (fits : length xs * 2 < 0x8000_0000) where
  -- The array of the C code holds the thresholds from `offset` on.
  Held : List TlFloat → ℕ → Type 0
  Held threshold offset =
      (k : ℕ) (a : TlFloat) → get_elem? xs k ≡ some a → get_elem? threshold (offset + k) ≡ some a

  -- What the loop does between `low` and `high`.
  abbrev Searches : ℕ → List TlFloat → ℕ → ℕ → ℕ → Type 0
  Searches fuel threshold offset low high =
      low < high
      → high ≤ length xs
      → high - low ≤ fuel
      → ((a : TlFloat) → get_elem? xs low ≡ some a → order_key a ≤ order_key v)
      → ((b : TlFloat) → get_elem? xs high ≡ some b → order_key v < order_key b)
      → (q : ℕ) × (quantize_loop fuel threshold offset (length xs) v low high ≡ ok q)
        × Placed xs v q

  narrow :
      (fuel : ℕ) (threshold : List TlFloat) (offset : ℕ)
      → Held threshold offset
      → ((low high : ℕ) → Searches fuel threshold offset low high)
      → (low high : ℕ) → ltb (low + 1) high ≡ true
      → Searches (suc fuel) threshold offset low high
  unfolding Held quantize_loop
  narrow fuel threshold offset held ih low high p lt le enough lo hi =
      let wide = ltb→lt (low + 1) high p in
      let mid = (low + high) / 2 in
      let inside : mid < length xs = omega (arith, wide, le) in
      let (m, e) = get_elem?-lt xs mid inside in
      let r = held mid m e in
      let n = (Above-get 0 xs mid m s e).0 in
      let ek = float_eq-keys v m num n in
      let lk = float_lt-keys v m num n in
      elim (Bool-cases (order_key v == order_key m)) [
        | inl q ↦ (
          mid * 2,
          rw (p, r, ek, q) refl,
          Placed-at xs v s num fits mid m e ((==_iff (order_key v) (order_key m)).0 q),
        )
        | inr q ↦ elim (Bool-cases (ltb (order_key v) (order_key m))) [
          | inl l ↦
              let (b, run, placed) =
                ih low mid (omega (arith, wide)) (omega (arith, inside))
                  (omega (arith, wide, enough)) lo
                  (λ b g.
                    let same : m ≡ b = cc in rw (← same) (ltb→lt (order_key v) (order_key m) l)) in
              (b, rw (p, r, ek, q, lk, l) run, placed)
          | inr l ↦
              let (b, run, placed) =
                ih mid high (omega (arith, wide)) le (omega (arith, wide, enough))
                  (λ b g.
                    let same : m ≡ b = cc in
                    let o : order_key m ≤ order_key v = ground arith in rw (← same) o)
                  hi in
              (b, rw (p, r, ek, q, lk, l) run, placed)
        ]
      ]

  finish :
      (fuel : ℕ) (threshold : List TlFloat) (offset : ℕ)
      → Held threshold offset
      → (low high : ℕ) → ltb (low + 1) high ≡ false
      → Searches (suc fuel) threshold offset low high
  unfolding Held quantize_loop
  finish fuel threshold offset held low high p lt le enough lo hi =
      let next : high ≡ suc low = ground arith in
      let (a, e) = get_elem?-lt xs low (omega (arith, lt, le)) in
      let r = held low a e in
      let n = (Above-get 0 xs low a s e).0 in
      let ek = float_eq-keys a v n num in
      let o = lo a e in
      elim (Bool-cases (order_key a == order_key v)) [
        | inl q ↦ (
          low * 2,
          rw (p, r, ek, q) refl,
          Placed-at xs v s num fits low a e (sym ((==_iff (order_key a) (order_key v)).0 q)),
        )
        | inr q ↦
            let strict : order_key a < order_key v = ground arith in
            let after : (b : TlFloat)
                → get_elem? xs (suc low) ≡ some b
                → order_key v < order_key b =
              λ b g. hi b (rw next g) in
            elim (Bool-cases (high == length xs)) [
              | inl l ↦
                  let end : high ≡ length xs = (==_iff high (length xs)).0 l in
                  (
                    length xs * 2,
                    rw (p, r, ek, q, l) refl,
                    Placed-between xs v s num fits low (length xs * 2) a e strict after
                        (omega (arith, end, next)) fits (λ m. absurd (omega (arith, m, end, next))),
                  )
              | inr l ↦ (
                low * 2 + 1,
                rw (p, r, ek, q, l) refl,
                Placed-between xs v s num fits low (low * 2 + 1) a e strict after (omega arith)
                    (omega (arith, next, le, fits)) (λ m. omega arith),
              )
            ]
      ]

  quantize_loop-Placed :
      (fuel : ℕ) (threshold : List TlFloat) (offset : ℕ)
      → Held threshold offset
      → (low high : ℕ) → Searches fuel threshold offset low high
  quantize_loop-Placed zero threshold offset held low high =
      λ lt le enough lo hi. absurd (omega (arith, lt, enough))
  quantize_loop-Placed (suc fuel) threshold offset held low high =
      let ih = quantize_loop-Placed fuel threshold offset held in
      elim (Bool-cases (ltb (low + 1) high)) [
        | inl p ↦ narrow fuel threshold offset held ih low high p
        | inr p ↦ finish fuel threshold offset held low high p
      ]

minus_ten-Placed :
    (xs : List TlFloat) (v first : TlFloat)
    → Above 0 xs
    → length xs * 2 < 0x8000_0000
    → get_elem? xs 0 ≡ some first
    → order_key v < order_key first
    → Placed xs v minus_ten
unfolding Placed
minus_ten-Placed xs v first s fits e l i a g =
    let l' = get_elem?-inside xs i a g in
    let k' = int_key-small (i * 2) (omega arith) in below (first_least i g) (omega (arith, k'))
  where
    first_least : (i : ℕ) → get_elem? xs i ≡ some a → order_key v < order_key a
    first_least zero g = let same : first ≡ a = cc in rw (← same) l
    first_least (suc i) g =
        let o = Above-lt 0 xs 0 (suc i) first a s (omega arith) e g in omega (arith, o, l)

-- The C code's bin of a value is placed among the bins of the thresholds of the feature.
quantize-Placed :
    (cut_pts : List (List TlFloat)) (fid : ℕ) (v : TlFloat) (x : TlFloat) (xs : List TlFloat)
    → get_elem? cut_pts fid ≡ some (x ∷ xs)
    → Above 0 (x ∷ xs)
    → length (x ∷ xs) * 2 < 0x8000_0000
    → is_nan v ≡ false
    → (q : ℕ) × (quantize cut_pts v fid ≡ ok q) × Placed (x ∷ xs) v q
unfolding quantize Held
quantize-Placed cut_pts fid v x xs e s fits num =
    let g = segment cut_pts fid 0 (x ∷ xs) e in
    let begins : get_elem? (array_th_begin 0 cut_pts) fid ≡ some g.offset =
      g.begins ∙ ap some (omega arith) in
    let used : (g.offset == total_num_threshold cut_pts) ≡ false = ground (arith, g.inside) in
    let zero_add : g.offset + 0 ≡ g.offset = omega arith in
    let first : get_elem? (array_threshold cut_pts) g.offset ≡ some x =
      ap (get_elem? (array_threshold cut_pts)) (sym zero_add) ∙ g.values 0 x refl in
    let lk = float_lt-keys v x num s.0 in
    elim (Bool-cases (ltb (order_key v) (order_key x))) [
      | inl p ↦ (
        minus_ten,
        simp (begins, g.len, used, first, lk, p),
        minus_ten-Placed (x ∷ xs) v x s fits refl (ltb→lt (order_key v) (order_key x) p),
      )
      | inr p ↦
          let o : order_key x ≤ order_key v = ground arith in
          let n = length (x ∷ xs) in
          let (q, run, placed) =
            quantize_loop-Placed (x ∷ xs) v s num fits (suc n) (array_threshold cut_pts) g.offset
              g.values 0 n (omega arith) (omega arith) (omega arith)
              (λ a h. let same : x ≡ a = cc in rw (← same) o)
              (λ b h. absurd (omega (arith, get_elem?-inside (x ∷ xs) n b h))) in
          (q, simp (begins, g.len, used, first, lk, p, run), placed)
    ]

-- For a feature value that is a number, sorted thresholds, fewer than 2 ^ 30 of them, and an operator,
-- the comparison of the bin of the value with that of a threshold, as the C code makes it, ends and
-- has the result of the comparison of the value with the threshold.
pub quantized_comparison :
    (cut_pts : List (List TlFloat)) (fid : ℕ) (v a : TlFloat) (xs : List TlFloat) (i : ℕ)
    (op : Operator)
    → get_elem? cut_pts fid ≡ some xs
    → Above 0 xs
    → length xs * 2 < 0x8000_0000
    → is_nan v ≡ false
    → get_elem? xs i ≡ some a
    → op ≢ no_op
    → (quantize cut_pts v fid >>= λ q. compare_int q op (i * 2)) ≡ compare_with_op v op a
unfolding Placed
quantized_comparison cut_pts fid v a [] i op e s fits num g ne = cc
quantized_comparison cut_pts fid v a (x ∷ xs) i op e s fits num g ne =
    let (q, run, placed) = quantize-Placed cut_pts fid v x xs e s fits num in
    let n = (Above-get 0 (x ∷ xs) i a s g).0 in
    rw run (SameOrder-compare v a q (i * 2) op num n (placed_at q placed) ne)
  where
    placed_at :
        (q : ℕ)
        → Placed (x ∷ xs) v q
        → SameOrder (order_key v) (order_key a) (int_key q) (int_key (i * 2))
    placed_at q placed = placed i a g
