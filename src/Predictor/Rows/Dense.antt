-- ===== src/Predictor/Rows/Dense.antt =====
-- Dense rows: clearing all columns after some of them were filled.
use treelite.Prelude.{
  ℕ, zero, suc, ◌+◌, ◌≤◌, ◌<◌, ◌≡◌, sym, ap, ◌∙◌, arith, ◌⊎◌, inl, inr, List, ok, err, ◌>>=◌, ◌||◌,
  not, check_failed, or_fault, get_elem?-replicate, ◌*◌, >>=-eq-ok, some, length, get_elem?,
  replicate, set, length-set, get_elem?-set, length-replicate, Bool-cases, ok-injective,
}
use treelite.Base.{TlFloat, minus_one, is_nan, float_eq}
use treelite.Predictor.{Entry, DenseBatch, dense_batch, fill_dense, clear_dense, set_dense}
use treelite.Predictor.Rows.{Restoring, Kept, Kept-elem, all_missing, write-set, write-inside}

-- All but the columns from `lo` up to `hi` are missing.
abbrev MissingBut : ℕ → ℕ → List Entry → Type 0
MissingBut lo hi inst =
    (j : ℕ) (e : Entry) → get_elem? inst j ≡ some e → (e ≡ minus_one) ⊎ ((lo ≤ j) × (j < hi))

MissingBut-set :
    (lo hi j : ℕ) (v : Entry) (inst : List Entry)
    → MissingBut lo hi inst
    → lo ≤ j
    → j < hi
    → MissingBut lo hi (set inst j v)
MissingBut-set lo hi j v inst m l h k e p = elim (get_elem?-set inst j k v e p) [
  | inl q ↦ inr (omega (arith, q.0), omega (arith, q.0))
  | inr q ↦ m k e q.1
]

MissingBut-wider :
    (lo hi hi' : ℕ) (inst : List Entry) → hi ≤ hi' → MissingBut lo hi inst → MissingBut lo hi' inst
MissingBut-wider lo hi hi' inst le m j e p = elim (m j e p) [
  | inl q ↦ inl q
  | inr q ↦ inr (q.0, omega (arith, q.1))
]

MissingBut-Kept :
    (lo hi : ℕ) (inst left : List Entry)
    → MissingBut lo hi inst
    → Kept inst left
    → MissingBut lo hi left
MissingBut-Kept lo hi inst left m k j e p =
    let (old, there, gone) = Kept-elem inst left j e k p in
    elim (m j old there) [ inl q ↦ inl (gone q) | inr q ↦ inr q ]

-- One column is written, or left as it is.
set_dense-cases :
    (batch : DenseBatch) (j : ℕ) (value : TlFloat) (inst f : List Entry)
    → set_dense batch j value inst ≡ ok f
    → (f ≡ inst) ⊎ ((j < length inst) × (f ≡ set inst j value))
unfolding set_dense
set_dense-cases batch j value inst f h = elim (Bool-cases (is_nan value)) [
  | inl p ↦ elim (Bool-cases (is_nan batch.missing_value)) [
    | inl q ↦ inl (sym (ok-injective (rw (p, q) at h)))
    | inr q ↦
        let bad : err (
              check_failed
                "The missing_value argument must be set to NaN if there is any NaN in the matrix.")
            ≡ ok f =
          rw (p, q) at h in
        cc
  ]
  | inr p ↦
      elim (Bool-cases (is_nan batch.missing_value || not (float_eq value batch.missing_value))) [
        | inl q ↦ inr (write-set inst f j value (rw (p, q) at h))
        | inr q ↦ inl (sym (ok-injective (rw (p, q) at h)))
      ]
]

fill_dense-MissingBut :
    (batch : DenseBatch) (row n j : ℕ) (inst f : List Entry)
    → MissingBut 0 j inst
    → fill_dense batch row n j inst ≡ ok f
    → MissingBut 0 (j + n) f × (length f ≡ length inst)
unfolding fill_dense
fill_dense-MissingBut batch row zero j inst f m h =
    let e = ok-injective h in
    (rw (← e) (MissingBut-wider 0 j (j + 0) inst (omega arith) m), ap length (sym e))
fill_dense-MissingBut batch row (suc n) j inst f m h =
    let (value, _, h₁) =
      >>=-eq-ok (or_fault (get_elem? batch.data_ (row + j)))
        (λ value. set_dense batch j value inst >>= λ inst'. fill_dense batch row n (suc j) inst')
        h in
    let (inst', s, h₂) =
      >>=-eq-ok (set_dense batch j value inst) (fill_dense batch row n (suc j)) h₁ in
    let (m', l') = stepped inst' value (set_dense-cases batch j value inst inst' s) in
    let (r, l) = fill_dense-MissingBut batch row n (suc j) inst' f m' h₂ in
    (MissingBut-wider 0 (suc j + n) (j + suc n) f (omega arith) r, l ∙ l')
  where
    stepped :
        (inst' : List Entry)
        → (value : TlFloat) → (inst' ≡ inst) ⊎ ((j < length inst) × (inst' ≡ set inst j value))
        → MissingBut 0 (suc j) inst' × (length inst' ≡ length inst)
    stepped inst' value (inl e) =
        (rw e (MissingBut-wider 0 j (suc j) inst (omega arith) m), ap length e)
    stepped inst' value (inr (lt, e)) = (
      rw e (
          MissingBut-set 0 (suc j) j value inst (MissingBut-wider 0 j (suc j) inst (omega arith) m)
            (omega arith) (omega arith)),
      ap length e ∙ length-set inst j value,
    )

clear_dense-missing :
    (n j : ℕ) (inst : List Entry)
    → MissingBut j (j + n) inst
    → j + n ≤ length inst
    → clear_dense n j inst ≡ ok (replicate (length inst) minus_one)
unfolding clear_dense
clear_dense-missing zero j inst m h = ap ok (
    all_missing inst
      (λ k e p. elim (m k e p) [ inl q ↦ q | inr q ↦ absurd (omega (arith, q.0, q.1)) ]))
clear_dense-missing (suc n) j inst m h =
    let inst' = set inst j minus_one in
    let l = length-set inst j minus_one in
    let ih = clear_dense-missing n (suc j) inst' later (omega (arith, l)) in
    rw (write-inside inst j minus_one (omega arith)) (rw (l) at ih)
  where
    later : MissingBut (suc j) (suc j + n) (set inst j minus_one)
    later k e p = elim (get_elem?-set inst j k minus_one e p) [
      | inl q ↦ inl q.1
      | inr q ↦ elim (m k e q.1) [
        | inl r ↦ inl r
        | inr r ↦ inr (omega (arith, q.0, r.0), omega (arith, r.1))
      ]
    ]

-- Clearing all columns of a dense row undoes filling it and what a call has written to them.
pub dense-Restoring : Restoring dense_batch
dense-Restoring = record {
  restores = λ b rid n filled left wide h kept.
      let (m, l) =
        fill_dense-MissingBut b (rid * b.num_col) b.num_col 0 (replicate n minus_one) filled
          (λ j e p. inl (get_elem?-replicate n minus_one j e p)) h in
      let l' = kept.same_length ∙ l ∙ length-replicate n minus_one in
      let m' = MissingBut-Kept 0 (0 + b.num_col) filled left m kept in
      let r = clear_dense-missing b.num_col 0 left m' (omega (arith, l', wide)) in rw (l') at r;
}
