-- ===== src/XgBoost/Stream/Fills.antt =====
-- Filling the buffer for a peek.
use treelite.Prelude.{
  ℕ, ◌+◌, ◌-◌, ◌≤◌, ◌<◌, ◌≡◌, refl, sym, ap, ◌∙◌, arith, inl, inr, ◌++◌, ok, length, length-take,
  length-drop, take, drop, take-drop, drop-drop, ltb, lt→ltb, ltb→lt, leb, leb→le, Bool-cases,
  Bytes, ==_iff,
}
use mathlib.Core.List.{append_assoc}
use treelite.XgBoost.Stream.{ByteStream, Peekable, bytes_buffered, fill}
use treelite.XgBoost.Stream.Ring.{held, Ring, length-held, not_lt, leb-false, ltb-false}
use treelite.XgBoost.Stream.Stores.{
  stored, store-ok, length-stored, held-stored_straight, held-stored_wrapped, held-stored_around,
}
use treelite.XgBoost.Stream.Reads.{Delivers}

module _ (lib : ByteStream) (rest : lib.State → Bytes) (delivers : Delivers lib rest) where
  -- What `fill` does: the next `k` bytes are behind those that wait.
  pub record Filled (k : ℕ) (p p' : Peekable lib.State) : Type 0 where
    pub ring : Ring p'
    pub waits : held p' ≡ held p ++ take k (rest p.istm)
    pub left : rest p'.istm ≡ drop k (rest p.istm)

  delivered : (k : ℕ) (s : lib.State) → k ≤ length (rest s) → length (lib.read k s).0 ≡ k
  delivered k s h =
      ap (λ xs. length xs) (delivers.gives k s) ∙ length-take k (rest s) ∙ (omega arith)

  fill-once :
      (k : ℕ) (p : Peekable lib.State)
      → Ring p
      → p.end_ptr + k < 1025
      → k ≤ length (rest p.istm)
      → ((bytes : Bytes)
          → length bytes ≡ k
          → held (record p {
            istm = (lib.read k p.istm).1;
            buf = stored p.buf p.end_ptr bytes;
            end_ptr = p.end_ptr + length bytes;
          })
            ≡ held p ++ bytes)
      → (p' : Peekable lib.State) × (fill lib k p ≡ ok p') × Filled k p p'
  unfolding fill
  fill-once k p r small enough holds =
      let bytes = (lib.read k p.istm).0 in
      let size = delivered k p.istm enough in
      let room : p.end_ptr + length bytes ≤ length p.buf = omega (arith, size, r.full) in
      let p' : Peekable lib.State = record p {
        istm = (lib.read k p.istm).1;
        buf = stored p.buf p.end_ptr bytes;
        end_ptr = p.end_ptr + k;
      } in
      let same : p.end_ptr + length bytes ≡ p.end_ptr + k = ap (λ n. p.end_ptr + n) size in
      (
        p',
        rw
            (
              lt→ltb (p.end_ptr + k) 1025 small,
              store-ok p.buf p.end_ptr bytes room,
              (==_iff (length bytes) k).1 size,
            )
            refl,
        record {
          ring = record {
            full = length-stored p.buf p.end_ptr bytes room ∙ r.full;
            begin_inside = r.begin_inside;
            end_inside = small;
          };
          waits =
              ap (λ n. held (record p' { end_ptr = n })) (sym same)
              ∙ holds bytes size
              ∙ ap (λ xs. held p ++ xs) (delivers.gives k p.istm);
          left = delivers.leaves k p.istm;
        },
      )

  fill-around :
      (k : ℕ) (p : Peekable lib.State)
      → Ring p
      → p.begin_ptr ≤ p.end_ptr
      → 1025 ≤ p.end_ptr + k
      → p.end_ptr + k < 1025 + p.begin_ptr
      → k ≤ length (rest p.istm)
      → (p' : Peekable lib.State) × (fill lib k p ≡ ok p') × Filled k p p'
  unfolding fill
  fill-around k p r h far few enough =
      let a = 1025 - p.end_ptr in
      let b = (k + p.end_ptr) - 1025 in
      let s = (lib.read a p.istm).1 in
      let first = (lib.read a p.istm).0 in
      let second = (lib.read b s).0 in
      let sum : a + b ≡ k = omega (arith, r.end_inside) in
      let size = delivered a p.istm (omega arith) in
      let size' = delivered b s (
        omega (
          arith,
          sum,
          length-drop a (rest p.istm),
          ap (λ xs. length xs) (delivers.leaves a p.istm),
        )) in
      let room : p.end_ptr + length first ≤ length p.buf =
        omega (arith, size, r.full, r.end_inside) in
      let c = stored p.buf p.end_ptr first in
      let full = length-stored p.buf p.end_ptr first room ∙ r.full in
      let room' : 0 + length second ≤ length c =
        omega (arith, size', full, r.end_inside, r.begin_inside) in
      let p' : Peekable lib.State = record p {
        istm = (lib.read b s).1;
        buf = stored c 0 second;
        end_ptr = b;
      } in
      (
        p',
        rw
            (
              not_lt (p.end_ptr + k) 1025 far,
              store-ok p.buf p.end_ptr first room,
              store-ok c 0 second room',
              (==_iff (length first + length second) k).1 (omega (arith, size, size', sum)),
            )
            refl,
        record {
          ring = record {
            full = length-stored c 0 second room' ∙ full;
            begin_inside = r.begin_inside;
            end_inside = omega (arith, r.begin_inside);
          };
          waits =
              ap (λ n. held (record p' { end_ptr = n })) (sym size')
              ∙ held-stored_around p r (lib.read b s).1 first second h
                  (omega (arith, size, r.end_inside)) (omega (arith, size'))
              ∙ append_assoc (held p) first second
              ∙ ap (λ xs. held p ++ xs) (both a b p.istm sum);
          left =
              delivers.leaves b s
              ∙ ap (λ xs. drop b xs) (delivers.leaves a p.istm)
              ∙ drop-drop b a (rest p.istm)
              ∙ ap (λ n. drop n (rest p.istm)) sum;
        },
      )
    where
      both :
          (m n : ℕ) (s : lib.State)
          → m + n ≡ k
          → (lib.read m s).0 ++ (lib.read n (lib.read m s).1).0 ≡ take k (rest s)
      both m n s sum =
          rw
            (
              delivers.gives m s,
              delivers.gives n (lib.read m s).1,
              delivers.leaves m s,
              take-drop m n (rest s),
              sum,
            )
            refl

  pub fill-Filled :
      (k : ℕ) (p : Peekable lib.State)
      → Ring p
      → length (held p) + k ≤ 1024
      → k ≤ length (rest p.istm)
      → (p' : Peekable lib.State) × (fill lib k p ≡ ok p') × Filled k p p'
  unfolding bytes_buffered
  fill-Filled k p r few enough = elim (Bool-cases (leb p.begin_ptr p.end_ptr)) [
    | inl h ↦
        let le = leb→le p.begin_ptr p.end_ptr h in
        let size : length (held p) ≡ p.end_ptr - p.begin_ptr = length-held p r ∙ (rw h refl) in
        elim (Bool-cases (ltb (p.end_ptr + k) 1025)) [
          | inl e ↦
              let small = ltb→lt (p.end_ptr + k) 1025 e in
              fill-once k p r small enough λ bytes size.
                held-stored_straight p r (lib.read k p.istm).1 bytes le (omega (arith, size))
          | inr e ↦
              fill-around k p r le (ltb-false (p.end_ptr + k) 1025 e) (omega (arith, size)) enough
        ]
    | inr h ↦
        let wraps = leb-false p.begin_ptr p.end_ptr h in
        let size : length (held p) ≡ (1025 + p.end_ptr) - p.begin_ptr =
          length-held p r ∙ (rw h refl) in
        fill-once k p r (omega (arith, size, r.begin_inside)) enough λ bytes long.
          held-stored_wrapped p r (lib.read k p.istm).1 bytes
            (omega (arith, size, long, r.begin_inside))
  ]
