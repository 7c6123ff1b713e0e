-- ===== src/XgBoost/Stream/Reads.antt =====
-- `Read`: the stream behind the buffer gives its bytes one after the other.
use treelite.Prelude.{
  ℕ, ◌-◌, ◌≤◌, ◌≡◌, refl, ap, ◌∙◌, arith, inl, inr, [], ◌++◌, ok, length, take, drop,
  take-append_le, take-append_ge, drop-append_le, drop-append_ge, leb, leb→le, Bool-cases, Bytes,
}
use treelite.XgBoost.Stream.{ByteStream, Peekable, bytes_buffered, read}
use treelite.XgBoost.Stream.Ring.{
  held, held-straight, Ring, length-held, buffered-held, consume-Consumed, leb-false,
}

-- The stream gives the bytes `rest`, in their order, and as many as it is asked for where it has
-- them.
pub record Delivers (lib : ByteStream) (rest : lib.State → Bytes) : Type 0 where
  pub gives : (n : ℕ) (s : lib.State) → (lib.read n s).0 ≡ take n (rest s)
  pub leaves : (n : ℕ) (s : lib.State) → rest (lib.read n s).1 ≡ drop n (rest s)

module _ (lib : ByteStream) (rest : lib.State → Bytes) (delivers : Delivers lib rest) where
  -- All bytes that are still to come.
  unfoldable pub pending : Peekable lib.State → Bytes
  unfolding held
  pending p = held p ++ rest p.istm

  -- From a buffer with its pointers inside, `Read` stores the next `size` bytes that are to come, or
  -- all of them if there are less; it takes these from what is to come, and keeps the pointers
  -- inside.
  pub read-pending :
      (size : ℕ) (p : Peekable lib.State)
      → Ring p
      → (p' : Peekable lib.State) × (read lib size p ≡ ok (take size (pending p), p'))
        × Ring p'
        × (pending p' ≡ drop size (pending p))
  unfolding read pending
  read-pending size p r = elim (Bool-cases (leb size (bytes_buffered p))) [
    | inl h ↦
        let few = leb→le size (bytes_buffered p) h in
        let (p', e, c) = consume-Consumed p size r few in
        let inside : size ≤ length (held p) = omega (arith, length-held p r) in
        (
          p',
          rw (h, e, take-append_le size (held p) (rest p.istm) inside) refl,
          c.ring,
          rw (c.left, c.same_stream, drop-append_le size (held p) (rest p.istm) inside) refl,
        )
    | inr h ↦
        let many = leb-false size (bytes_buffered p) h in
        let n = size - bytes_buffered p in
        let outside : length (held p) ≤ size = omega (arith, length-held p r) in
        let same : size - length (held p) ≡ n = ap (λ k. size - k) (length-held p r) in
        let p' : Peekable lib.State = record p {
          istm = (lib.read n p.istm).1;
          begin_ptr = p.end_ptr;
        } in
        (
          p',
          rw
              (
                h,
                buffered-held p r,
                delivers.gives n p.istm,
                take-append_ge size (held p) (rest p.istm) outside,
                same,
              )
              refl,
          record { full = r.full; begin_inside = r.end_inside; end_inside = r.end_inside },
          rw
              (
                empty p',
                delivers.leaves n p.istm,
                drop-append_ge size (held p) (rest p.istm) outside,
                same,
              )
              refl,
        )
  ]
    where
      empty : (q : Peekable lib.State) → held (record q { begin_ptr = q.end_ptr }) ≡ []
      empty q =
          let none_left : q.end_ptr - q.end_ptr ≡ 0 = omega arith in
          held-straight (record q { begin_ptr = q.end_ptr }) (omega arith)
          ∙ ap (λ k. take k (drop q.end_ptr q.buf)) none_left
