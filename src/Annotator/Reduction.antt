-- ===== src/Annotator/Reduction.antt =====
-- The reduction of the counts of the threads, of `Annotate`.
use treelite.Prelude.{
  ℕ, zero, suc, ◌+◌, ◌*◌, ◌%◌, ◌≤◌, ◌<◌, ◌≡◌, refl, ap, ◌∙◌, arith, List, [], ◌∷◌, none, some,
  length, get_elem?, get_elem?-lt, take, drop, replicate, get_elem?-take, get_elem?-drop, drop-drop,
}
use treelite.Base.{size_mod}
use treelite.Annotator.{add_counts, reduce}

-- The sum of `n` entries, each `size` places after the one before, from place `i` on.
pub stride_sum : ℕ → ℕ → List ℕ → ℕ → ℕ
stride_sum zero size xs i = 0
stride_sum (suc n) size xs i =
    elim (get_elem? xs i) [ none ↦ 0 | some x ↦ x ] + stride_sum n size xs (i + size)

get_elem?-add_counts :
    (xs ys : List ℕ) (i x y : ℕ)
    → get_elem? xs i ≡ some x
    → get_elem? ys i ≡ some y
    → get_elem? (add_counts xs ys) i ≡ some ((x + y) % size_mod)
unfolding add_counts
get_elem?-add_counts [] ys i x y e f = cc
get_elem?-add_counts (a ∷ xs) [] i x y e f = cc
get_elem?-add_counts (a ∷ xs) (b ∷ ys) zero x y e f =
    let p : a ≡ x = cc in let q : b ≡ y = cc in rw (p, q) refl
get_elem?-add_counts (a ∷ xs) (b ∷ ys) (suc i) x y e f = get_elem?-add_counts xs ys i x y e f

mod_sum : (c y s : ℕ) → ((c + y) % size_mod + s) % size_mod ≡ (c + (y + s)) % size_mod
mod_sum c y s = omega arith

-- The reduction, with the parts of `k` places behind.
reduce-from :
    (n size k i c : ℕ) (counts new_counts : List ℕ)
    → i < size
    → k + n * size ≤ length counts
    → get_elem? new_counts i ≡ some c
    → c < size_mod
    → get_elem? (reduce n size (drop k counts) new_counts) i
      ≡ some ((c + stride_sum n size counts (k + i)) % size_mod)
unfolding reduce stride_sum
reduce-from zero size k i c counts new_counts l room e small = e ∙ ap some (omega (arith, small))
reduce-from (suc n) size k i c counts new_counts l room e small =
    let more : suc n * size ≡ size + n * size = grind arith in
    let (y, f) = get_elem?-lt counts (k + i) (omega arith) in
    let here = get_elem?-take size i (drop k counts) l ∙ get_elem?-drop k i counts ∙ f in
    let sum = get_elem?-add_counts new_counts (take size (drop k counts)) i c y e here in
    let wrapped : (c + y) % size_mod < size_mod = omega arith in
    let rest =
      reduce-from n size (k + size) i ((c + y) % size_mod) counts
        (add_counts new_counts (take size (drop k counts))) l (omega arith) sum wrapped in
    let place : k + size + i ≡ k + i + size = omega arith in
    rw (f, drop-drop size k counts, ← place)
      (rest ∙ ap some (mod_sum c y (stride_sum n size counts (k + size + i))))

get_elem?-zeros : (n i : ℕ) → i < n → get_elem? {A = ℕ} (replicate n 0) i ≡ some 0
get_elem?-zeros zero i l = absurd (omega arith)
get_elem?-zeros (suc n) zero l = refl
get_elem?-zeros (suc n) (suc i) l = get_elem?-zeros n i (omega arith)

-- When there are `size` counts for each of `n` threads, the reduction leaves at each place the sum
-- of the counts of all threads at this place, with the wrap-around of `size_t`.
pub reduce-stride_sum :
    (n size i : ℕ) (counts : List ℕ)
    → i < size
    → n * size ≤ length counts
    → get_elem? (reduce n size counts (replicate size 0)) i
      ≡ some (stride_sum n size counts i % size_mod)
reduce-stride_sum n size i counts l room =
    let at_zero : 0 + i ≡ i = omega arith in
    let sum =
      reduce-from n size 0 i 0 counts (replicate size 0) l (omega arith) (get_elem?-zeros size i l)
        (omega arith) in
    sum ∙ ap (λ j. some (j % size_mod)) (omega arith ∙ ap (stride_sum n size counts) at_zero)
