-- ===== src/Predictor/Rows.antt =====
-- The row buffer of `PredLoop`, which is cleared after each row, against a new buffer of missing
-- entries for each row, for calls that write only to entries that are present.
pub mod Sparse
pub mod Dense
pub mod Loops
use treelite.Prelude.{
  ℕ, zero, suc, ◌+◌, ◌≤◌, ◌<◌, ◌≡◌, refl, sym, ap, ◌∙◌, arith, ◌⊎◌, inl, inr, List, [], ◌∷◌, Result,
  ok, err, ◌>>=◌, none, some, length, get_elem?, get_elem?-lt, get_elem?-ge, replicate, set,
  length-set, ltb, ltb→lt, lt→ltb, Bool-cases, ok-injective, fault,
}
use treelite.Base.{TlFloat, minus_one}
use treelite.Predictor.{Entry, Batch, Callback, row_loop, write}

-- What a call leaves in the row buffer: as many entries, and those missing that were.
pub record Kept (before after : List Entry) : Type 0 where
  pub same_length : length after ≡ length before
  pub still_missing :
      (j : ℕ) → get_elem? before j ≡ some minus_one → get_elem? after j ≡ some minus_one

pub Kept-self : (inst : List Entry) → Kept inst inst
Kept-self inst = record { same_length = refl; still_missing = λ j e. e }

-- The generated code writes to an entry only under `data[i].missing != -1`.
unfoldable pub WritesPresent : Callback → Type 0
WritesPresent func =
    (rid : ℕ) (inst : List Entry) (out : List TlFloat) (r : ℕ × List TlFloat × List Entry)
    → func rid inst out ≡ ok r
    → Kept inst r.2

pub Kept-elem :
    (before after : List Entry) (j : ℕ) (e : Entry)
    → Kept before after
    → get_elem? after j ≡ some e
    → (old : Entry) × (get_elem? before j ≡ some old) × (old ≡ minus_one → e ≡ minus_one)
Kept-elem before after j e k p = elim (Bool-cases (ltb j (length after))) [
  | inl q ↦
      let (old, there) = get_elem?-lt before j (omega (arith, ltb→lt _ _ q, k.same_length)) in
      (old, there, λ m. let e' = k.still_missing j (there ∙ ap some m) in cc)
  | inr q ↦ let past = get_elem?-ge after j (ground arith) in cc
]

-- What makes the buffer reusable: clearing a row undoes filling it, whatever a call has written to
-- the entries that were there.
pub record Restoring {B : Type 0} (kind : Batch B) : Type 0 where
  pub restores :
      (b : B) (rid n : ℕ) (filled left : List Entry)
      → kind.cols b ≤ n
      → kind.fill b rid (replicate n minus_one) ≡ ok filled
      → Kept filled left
      → kind.clear b rid left ≡ ok (replicate n minus_one)

-- A list of missing entries, by its length.
pub all_missing :
    (xs : List Entry)
    → ((j : ℕ) (e : Entry) → get_elem? xs j ≡ some e → e ≡ minus_one)
    → xs ≡ replicate (length xs) minus_one
all_missing [] h = refl
all_missing (x ∷ xs) h = rw (h 0 x refl, ← all_missing xs (λ j e p. h (suc j) e p)) refl

pub write-set :
    (inst f : List Entry) (i : ℕ) (e : Entry)
    → write inst i e ≡ ok f
    → (i < length inst) × (f ≡ set inst i e)
unfolding write
write-set inst f i e h = elim (Bool-cases (ltb i (length inst))) [
  | inl p ↦ (ltb→lt i (length inst) p, sym (ok-injective (rw p at h)))
  | inr p ↦ let bad : err fault ≡ ok f = rw p at h in cc
]

pub write-inside :
    (inst : List Entry) (i : ℕ) (e : Entry) → i < length inst → write inst i e ≡ ok (set inst i e)
unfolding write
write-inside inst i e h = rw (lt→ltb i (length inst) h) refl

module _ {B : Type 0} ⦃kind : Batch B⦄ where
  -- The loop with a new buffer of `m` entries for each row.
  pub fresh_loop : Callback → B → ℕ → ℕ → ℕ → List TlFloat → ℕ → Result (ℕ × List TlFloat)
  fresh_loop func batch m zero rid out total = ok (total, out)
  fresh_loop func batch m (suc n) rid out total = do
    filled ← kind.fill batch rid (replicate m minus_one)
    (size, out', left) ← func rid filled out
    fresh_loop func batch m n (suc rid) out' (total + size)

  row_step :
      (func : Callback) (batch : B) (m n rid total : ℕ) (out : List TlFloat)
      (filled : Result (List Entry))
      → ((f : List Entry) (r : ℕ × List TlFloat × List Entry)
          → filled ≡ ok f
          → func rid f out ≡ ok r
          → kind.clear batch rid r.2 ≡ ok (replicate m minus_one))
      → ((out' : List TlFloat) (total' : ℕ)
          → row_loop func batch n (suc rid) (replicate m minus_one) out' total'
            ≡ fresh_loop func batch m n (suc rid) out' total')
      → (filled >>= λ f. func rid f out >>= λ r.
          kind.clear batch rid r.2 >>= λ c. row_loop func batch n (suc rid) c r.1 (total + r.0))
        ≡ (filled >>= λ f.
            func rid f out >>= λ r. fresh_loop func batch m n (suc rid) r.1 (total + r.0))
  row_step func batch m n rid total out (err e) clear ih = refl
  row_step func batch m n rid total out (ok f) clear ih =
      called (func rid f out) (λ r e. clear f r refl e)
    where
      called :
          (res : Result (ℕ × List TlFloat × List Entry))
          → ((r : ℕ × List TlFloat × List Entry)
              → res ≡ ok r
              → kind.clear batch rid r.2 ≡ ok (replicate m minus_one))
          → (res >>= λ r.
              kind.clear batch rid r.2 >>= λ c. row_loop func batch n (suc rid) c r.1 (total + r.0))
            ≡ (res >>= λ r. fresh_loop func batch m n (suc rid) r.1 (total + r.0))
      called (err e) cleared = refl
      called (ok r) cleared = rw (cleared r refl) (ih r.1 (total + r.0))

  -- The loop of `PredLoop` gives each row a buffer in which all but the entries of the row are
  -- missing, with the results and the errors of the loop with new buffers.
  pub row_loop-fresh :
      (law : Restoring kind) (func : Callback) (batch : B) (m n rid total : ℕ) (out : List TlFloat)
      → WritesPresent func
      → kind.cols batch ≤ m
      → row_loop func batch n rid (replicate m minus_one) out total
        ≡ fresh_loop func batch m n rid out total
  unfolding row_loop fresh_loop WritesPresent
  row_loop-fresh law func batch m zero rid total out writes wide = refl
  row_loop-fresh law func batch m (suc n) rid total out writes wide =
      row_step func batch m n rid total out (kind.fill batch rid (replicate m minus_one))
        (λ f r e called. law.restores batch rid m f r.2 wide e (writes rid f out r called))
        (λ out' total'. row_loop-fresh law func batch m n (suc rid) total' out' writes wide)
