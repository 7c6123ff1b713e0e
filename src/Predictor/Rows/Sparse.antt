-- ===== src/Predictor/Rows/Sparse.antt =====
-- Sparse rows: clearing the columns of a row after they were filled.
use treelite.Prelude.{
  ℕ, zero, suc, ◌+◌, ◌-◌, ◌≤◌, ◌<◌, ◌≡◌, sym, ap, ◌∙◌, arith, ◌⊎◌, inl, inr, List, ok, ◌>>=◌,
  >>=-eq-ok, or_fault, Option, none, some, ◌≢◌, ltb, ltb→lt, leb, leb→le, Bool-cases, length,
  get_elem?, replicate, set, length-set, get_elem?-set, length-replicate, get_elem?-replicate,
  ok-injective,
}
use treelite.Base.{minus_one}
use treelite.Predictor.{Entry, CsrBatch, csr_batch, csr_fill, csr_clear, fill_row, clear_row, write}
use treelite.Predictor.Rows.{Restoring, Kept, Kept-elem, all_missing, write-set, write-inside}

-- Every entry is missing, or has its column between the positions `lo` and `hi` of the columns,
-- which are all inside the buffer.
record Touched (cols : List ℕ) (lo hi : ℕ) (inst : List Entry) : Type 0 where
  missing :
      (j : ℕ) (e : Entry)
      → get_elem? inst j ≡ some e
      → (e ≡ minus_one) ⊎ ((p : ℕ) × (lo ≤ p) × (p < hi) × (get_elem? cols p ≡ some j))
  inside : (p : ℕ) → lo ≤ p → p < hi → (j : ℕ) × (get_elem? cols p ≡ some j) × (j < length inst)

Touched-Kept :
    (cols : List ℕ) (lo hi : ℕ) (inst left : List Entry)
    → Touched cols lo hi inst
    → Kept inst left
    → Touched cols lo hi left
Touched-Kept cols lo hi inst left t k = record {
  missing = λ j e p.
      let (old, there, gone) = Kept-elem inst left j e k p in
      elim (t.missing j old there) [ inl q ↦ inl (gone q) | inr q ↦ inr q ];
  inside = λ p a b. let (j, e, m) = t.inside p a b in (j, e, omega (arith, m, k.same_length));
}

or_fault-ok : {A : Type 0} (o : Option A) (a : A) → or_fault o ≡ ok a → o ≡ some a
or_fault-ok none a h = cc
or_fault-ok (some x) a h = ap some (ok-injective h)

untouched : (cols : List ℕ) (i n : ℕ) → Touched cols i i (replicate n minus_one)
untouched cols i n = record {
  missing = λ j e p. inl (get_elem?-replicate n minus_one j e p);
  inside = λ p l h. absurd (omega (arith, l, h));
}

Touched-write :
    (cols : List ℕ) (lo i col : ℕ) (v : Entry) (inst : List Entry)
    → Touched cols lo i inst
    → lo ≤ i
    → get_elem? cols i ≡ some col
    → col < length inst
    → Touched cols lo (suc i) (set inst col v)
Touched-write cols lo i col v inst t l c h = record {
  missing = λ j e p. elim (get_elem?-set inst col j v e p) [
    | inl q ↦ inr (i, l, omega arith, c ∙ ap some q.0)
    | inr q ↦ elim (t.missing j e q.1) [
      | inl r ↦ inl r
      | inr (p', a, b, d) ↦ inr (p', a, omega (arith, b), d)
    ]
  ];
  inside = λ p a b. elim (le-cases p i) [
    | inl q ↦ let (j, e, m) = t.inside p a q in (j, e, omega (arith, m, length-set inst col v))
    | inr q ↦ (
      col,
      ap (get_elem? cols) (omega (arith, q, b)) ∙ c,
      omega (arith, h, length-set inst col v),
    )
  ];
}
  where
    le-cases : (p i : ℕ) → (p < i) ⊎ (i ≤ p)
    le-cases p i = elim (Bool-cases (ltb p i)) [
      | inl q ↦ inl (ltb→lt p i q)
      | inr q ↦ inr (ground arith)
    ]

fill_row-Touched :
    (b : CsrBatch) (lo n i : ℕ) (inst f : List Entry)
    → Touched b.col_ind lo i inst
    → lo ≤ i
    → fill_row b n i inst ≡ ok f
    → Touched b.col_ind lo (i + n) f × (length f ≡ length inst)
unfolding fill_row
fill_row-Touched b lo zero i inst f t l h =
    let e = ok-injective h in
    let same : i + 0 ≡ i = omega arith in (rw (← e, same) t, ap length (sym e))
fill_row-Touched b lo (suc n) i inst f t l h =
    let (col, c, h₁) =
      >>=-eq-ok (or_fault (get_elem? b.col_ind i))
        (λ col. or_fault (get_elem? b.data_ i) >>= λ v. write inst col v >>= fill_row b n (suc i))
        h in
    let (v, _, h₂) =
      >>=-eq-ok (or_fault (get_elem? b.data_ i)) (λ v. write inst col v >>= fill_row b n (suc i))
        h₁ in
    let (inst', w, h₃) = >>=-eq-ok (write inst col v) (fill_row b n (suc i)) h₂ in
    let (lt, e) = write-set inst inst' col v w in
    let t' =
      Touched-write b.col_ind lo i col v inst t l (or_fault-ok (get_elem? b.col_ind i) col c) lt in
    let (t'', l'') = fill_row-Touched b lo n (suc i) inst' f (rw e t') (omega (arith, l)) h₃ in
    let same : i + suc n ≡ suc i + n = omega arith in
    (rw (same) t'', l'' ∙ ap length e ∙ length-set inst col v)

Touched-clear :
    (cols : List ℕ) (i hi col : ℕ) (inst : List Entry)
    → Touched cols i hi inst
    → get_elem? cols i ≡ some col
    → Touched cols (suc i) hi (set inst col minus_one)
Touched-clear cols i hi col inst t c = record {
  missing = λ j e p. elim (get_elem?-set inst col j minus_one e p) [
    | inl q ↦ inl q.1
    | inr q ↦ elim (t.missing j e q.1) [
      | inl r ↦ inl r
      | inr (p', a, b, d) ↦ inr (p', later j p' q.0 a d, b, d)
    ]
  ];
  inside = λ p a b.
      let (j, e, m) = t.inside p (omega (arith, a)) b in
      (j, e, omega (arith, m, length-set inst col minus_one));
}
  where
    later : (j p : ℕ) → col ≢ j → i ≤ p → get_elem? cols p ≡ some j → suc i ≤ p
    later j p ne a d = elim (Bool-cases (leb (suc i) p)) [
      | inl q ↦ leb→le (suc i) p q
      | inr q ↦
          let same : p ≡ i = ground arith in
          let e : get_elem? cols i ≡ some j = rw same at d in absurd (ne cc)
    ]

clear_row-missing :
    (b : CsrBatch) (n i : ℕ) (inst : List Entry)
    → Touched b.col_ind i (i + n) inst
    → clear_row b n i inst ≡ ok (replicate (length inst) minus_one)
unfolding clear_row
clear_row-missing b zero i inst t = ap ok (
    all_missing inst (λ k e p. elim (t.missing k e p) [
      | inl q ↦ q
      | inr (p', a, c, d) ↦ absurd (omega (arith, a, c))
    ]))
clear_row-missing b (suc n) i inst t =
    let (col, c, lt) = t.inside i (omega arith) (omega arith) in
    let t' = Touched-clear b.col_ind i (i + suc n) col inst t c in
    let same : suc i + n ≡ i + suc n = omega arith in
    let ih = clear_row-missing b n (suc i) (set inst col minus_one) (rw (same) t') in
    simp (c, write-inside inst col minus_one lt, ih, length-set inst col minus_one)

pub clear_row-fill_row :
    (b : CsrBatch) (lo k n : ℕ) (f left : List Entry)
    → fill_row b k lo (replicate n minus_one) ≡ ok f
    → Kept f left
    → clear_row b k lo left ≡ ok (replicate n minus_one)
clear_row-fill_row b lo k n f left h kept =
    let (t, l) =
      fill_row-Touched b lo k lo (replicate n minus_one) f (untouched b.col_ind lo n) (omega arith)
        h in
    let r = clear_row-missing b k lo left (Touched-Kept b.col_ind lo (lo + k) f left t kept) in
    simp (kept.same_length, l, length-replicate n minus_one) at r

csr_clear-missing :
    (b : CsrBatch) (rid n : ℕ) (f left : List Entry)
    → csr_fill b rid (replicate n minus_one) ≡ ok f
    → Kept f left
    → csr_clear b rid left ≡ ok (replicate n minus_one)
unfolding csr_fill csr_clear
csr_clear-missing b rid n f left h kept =
    let inst = replicate n minus_one in
    let (lo, e₁, h₁) =
      >>=-eq-ok (or_fault (get_elem? b.row_ptr rid))
        (λ lo. or_fault (get_elem? b.row_ptr (rid + 1)) >>= λ hi. fill_row b (hi - lo) lo inst) h in
    let (hi, e₂, h₂) =
      >>=-eq-ok (or_fault (get_elem? b.row_ptr (rid + 1))) (λ hi. fill_row b (hi - lo) lo inst)
        h₁ in
    let r = clear_row-fill_row b lo (hi - lo) n f left h₂ kept in simp (e₁, e₂, r)

-- Clearing the columns of a sparse row undoes filling it and what a call has written to them.
pub csr-Restoring : Restoring csr_batch
csr-Restoring = record {
  restores = λ b rid n filled left wide h kept. csr_clear-missing b rid n filled left h kept;
}
