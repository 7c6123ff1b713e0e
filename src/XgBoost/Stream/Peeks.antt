-- ===== src/XgBoost/Stream/Peeks.antt =====
-- `PeekRead`: it gives the bytes that come next, and they stay to come.
use treelite.Prelude.{
  ℕ, zero, suc, ◌+◌, ◌-◌, ◌≤◌, ◌<◌, ◌≡◌, refl, sym, ap, ◌∙◌, arith, inl, inr, [], ◌∷◌, ◌++◌, ok,
  err, fault, length, length-append, length-take, take, drop, take-append_le, take_all, ltb, ltb→lt,
  le→leb, Bool-cases, if◌then◌else◌, Bytes,
}
use mathlib.Core.List.{append_assoc}
use treelite.XgBoost.Stream.{ByteStream, Peekable, bytes_buffered, fill, peek_read}
use treelite.XgBoost.Stream.Ring.{held, Ring, length-held, peeked-held, not_lt, not_le, ltb-false}
use treelite.XgBoost.Stream.Reads.{Delivers, pending}
use treelite.XgBoost.Stream.Fills.{Filled, fill-Filled}

take_and_drop : (k : ℕ) (xs : Bytes) → take k xs ++ drop k xs ≡ xs
take_and_drop zero xs = refl
take_and_drop (suc k) [] = refl
take_and_drop (suc k) (x ∷ xs) = ap (λ ys. x ∷ ys) (take_and_drop k xs)

module _ (lib : ByteStream) (rest : lib.State → Bytes) (delivers : Delivers lib rest) where
  peek_read-held :
      (room size : ℕ) (p p' : Peekable lib.State)
      → size ≤ 1024
      → (if ltb (bytes_buffered p) size then fill lib (size - bytes_buffered p) p else ok p) ≡ ok p'
      → Ring p'
      → length (held p') ≤ room
      → peek_read lib room size p ≡ ok (held p', p')
  unfolding peek_read
  peek_read-held room size p p' small e r fits =
      rw (le→leb size 1024 small, e, peeked-held p' r, le→leb (length (held p')) room fits) refl

  -- `PeekRead` of `size` bytes, at most 1024 and no more than are still to come, into a place that has
  -- room for them and for all that wait in the buffer, from a buffer with its pointers inside: it
  -- stores the next bytes to come in their order, at least `size` of them and no more than there is
  -- room for; what is to come stays the
  -- same, and the pointers stay inside.
  pub peek_read-pending :
      (room size : ℕ) (p : Peekable lib.State)
      → Ring p
      → size ≤ 1024
      → size ≤ length (pending lib rest delivers p)
      → size ≤ room
      → length (held p) ≤ room
      → (bytes : Bytes) × (p' : Peekable lib.State) × (peek_read lib room size p ≡ ok (bytes, p'))
        × (take (length bytes) (pending lib rest delivers p) ≡ bytes)
        × (size ≤ length bytes)
        × (length bytes ≤ room)
        × Ring p'
        × (pending lib rest delivers p' ≡ pending lib rest delivers p)
  unfolding pending
  peek_read-pending room size p r small enough fits all_fit =
      let same = length-held p r in
      elim (Bool-cases (ltb (bytes_buffered p) size)) [
        | inl h ↦
            let more = ltb→lt (bytes_buffered p) size h in
            let k = size - bytes_buffered p in
            let few : length (held p) + k ≤ 1024 = omega (arith, same) in
            let left : k ≤ length (rest p.istm) =
              omega (arith, same, length-append (held p) (rest p.istm)) in
            let (p', e, f) = fill-Filled lib rest delivers k p r few left in
            let whole : held p' ++ rest p'.istm ≡ held p ++ rest p.istm = same_bytes k p p' f in
            let full : length (held p') ≡ size =
              ap (λ xs. length xs) f.waits
              ∙ length-append (held p) (take k (rest p.istm))
              ∙ omega (arith, same, length-take k (rest p.istm)) in
            (
              held p',
              p',
              peek_read-held room size p p' small (rw h e) f.ring (omega (arith, full)),
              ap (λ xs. take (length (held p')) xs) (sym whole)
                  ∙ take_front (held p') (rest p'.istm),
              omega (arith, full),
              omega (arith, full),
              f.ring,
              whole,
            )
        | inr h ↦ (
          held p,
          p,
          peek_read-held room size p p small (rw h refl) r all_fit,
          take_front (held p) (rest p.istm),
          omega (arith, same, ltb-false (bytes_buffered p) size h),
          all_fit,
          r,
          refl,
        )
      ]
    where
      take_front : (xs ys : Bytes) → take (length xs) (xs ++ ys) ≡ xs
      take_front xs ys =
          take-append_le (length xs) xs ys (omega arith) ∙ take_all xs (length xs) (omega arith)

      same_bytes :
          (k : ℕ) (p p' : Peekable lib.State)
          → Filled lib rest delivers k p p'
          → held p' ++ rest p'.istm ≡ held p ++ rest p.istm
      same_bytes k p p' f =
          rw (f.waits, f.left)
            (append_assoc (held p) (take k (rest p.istm)) (drop k (rest p.istm))
              ∙ ap (λ xs. held p ++ xs) (take_and_drop k (rest p.istm)))

  -- `PeekRead` stores all that waits in the buffer, also where that is more than `size`: into a place
  -- of `size` bytes it writes past the end.
  pub peek_read-overrun :
      (size : ℕ) (p : Peekable lib.State)
      → Ring p
      → size ≤ 1024
      → size < length (held p)
      → peek_read lib size size p ≡ err fault
  unfolding peek_read
  peek_read-overrun size p r small over =
      rw
        (
          le→leb size 1024 small,
          not_lt (bytes_buffered p) size (omega (arith, length-held p r)),
          peeked-held p r,
          not_le (length (held p)) size over,
        )
        refl
