-- ===== src/XgBoost/Stream/Ring.antt =====
-- The ring buffer of the stream: the bytes that it holds, and what the copies out of it give.
use treelite.Prelude.{
  ℕ, ◌+◌, ◌-◌, ◌≤◌, ◌<◌, ◌≡◌, refl, ap, ◌∙◌, arith, false, inl, inr, ◌++◌, ok, length,
  length-append, length-take, length-drop, take, drop, take_all, take-append_le, take-append_ge,
  take-take_le, drop-append_le, drop-append_ge, drop-take, drop-drop, ltb, lt→ltb, ltb→lt, leb,
  le→leb, leb→le, Bool-cases, if◌then◌else◌, Bytes,
}
use treelite.XgBoost.Stream.{Peekable, copy, bytes_buffered, copy_around, consume, buffered, peeked}

pub copy-ok :
    (buf : Bytes) (from n : ℕ)
    → from + n ≤ length buf
    → copy buf from n ≡ ok (take n (drop from buf))
unfolding copy
copy-ok buf from n h = rw (le→leb (from + n) (length buf) h) refl

pub not_le : (a b : ℕ) → b < a → leb a b ≡ false
not_le a b h = elim (Bool-cases (leb a b)) [
  | inl p ↦ absurd (omega (arith, leb→le a b p))
  | inr p ↦ p
]

pub not_lt : (a b : ℕ) → b ≤ a → ltb a b ≡ false
not_lt a b h = elim (Bool-cases (ltb a b)) [
  | inl p ↦ absurd (omega (arith, ltb→lt a b p))
  | inr p ↦ p
]

pub leb-false : (a b : ℕ) → leb a b ≡ false → b < a
leb-false a b h = ground arith

pub ltb-false : (a b : ℕ) → ltb a b ≡ false → b ≤ a
ltb-false a b h = ground arith

module _ {S : Type 0} where
  -- The bytes that wait in the buffer, the oldest first.
  unfoldable pub held : Peekable S → Bytes
  held p =
      if leb p.begin_ptr p.end_ptr
      then take (p.end_ptr - p.begin_ptr) (drop p.begin_ptr p.buf)
      else drop p.begin_ptr p.buf ++ take p.end_ptr p.buf

  -- The buffer has its size, and the pointers are inside.
  pub record Ring (p : Peekable S) : Type 0 where
    pub full : length p.buf ≡ 1025
    pub begin_inside : p.begin_ptr < 1025
    pub end_inside : p.end_ptr < 1025

  pub held-straight :
      (p : Peekable S)
      → p.begin_ptr ≤ p.end_ptr
      → held p ≡ take (p.end_ptr - p.begin_ptr) (drop p.begin_ptr p.buf)
  unfolding held
  held-straight p h = rw (le→leb p.begin_ptr p.end_ptr h) refl

  pub held-wrapped :
      (p : Peekable S)
      → p.end_ptr < p.begin_ptr
      → held p ≡ drop p.begin_ptr p.buf ++ take p.end_ptr p.buf
  unfolding held
  held-wrapped p h = rw (not_le p.begin_ptr p.end_ptr h) refl

  pub length-held : (p : Peekable S) → Ring p → length (held p) ≡ bytes_buffered p
  unfolding held bytes_buffered
  length-held p r = elim (Bool-cases (leb p.begin_ptr p.end_ptr)) [
    | inl h ↦ rw h (
        omega (
          arith,
          r.full,
          r.end_inside,
          leb→le p.begin_ptr p.end_ptr h,
          length-take (p.end_ptr - p.begin_ptr) (drop p.begin_ptr p.buf),
          length-drop p.begin_ptr p.buf,
        ))
    | inr h ↦ rw h (
        omega (
          arith,
          r.full,
          r.begin_inside,
          r.end_inside,
          length-append (drop p.begin_ptr p.buf) (take p.end_ptr p.buf),
          length-take p.end_ptr p.buf,
          length-drop p.begin_ptr p.buf,
        ))
  ]

  copy_around-ok :
      (p : Peekable S) (n : ℕ)
      → Ring p
      → n ≤ 1025
      → copy_around p n ≡ ok (drop p.begin_ptr p.buf ++ take n p.buf)
  unfolding copy_around
  copy_around-ok p n r h =
      let all =
        take_all (drop p.begin_ptr p.buf) (1025 - p.begin_ptr)
          (omega (arith, r.full, length-drop p.begin_ptr p.buf)) in
      rw
        (
          copy-ok p.buf p.begin_ptr (1025 - p.begin_ptr) (omega (arith, r.full, r.begin_inside)),
          copy-ok p.buf 0 n (omega (arith, r.full)),
          all,
        )
        refl

  pub peeked-held : (p : Peekable S) → Ring p → peeked p ≡ ok (held p)
  unfolding peeked held
  peeked-held p r = elim (Bool-cases (leb p.begin_ptr p.end_ptr)) [
    | inl h ↦ rw h (
        copy-ok p.buf p.begin_ptr (p.end_ptr - p.begin_ptr)
          (omega (arith, r.full, r.begin_inside, r.end_inside)))
    | inr h ↦ rw h (copy_around-ok p p.end_ptr r (omega (arith, r.end_inside)))
  ]

  pub buffered-held : (p : Peekable S) → Ring p → buffered p ≡ ok (held p)
  unfolding buffered held bytes_buffered
  buffered-held p r = elim (Bool-cases (leb p.begin_ptr p.end_ptr)) [
    | inl h ↦ rw h (
        copy-ok p.buf p.begin_ptr (p.end_ptr - p.begin_ptr)
          (omega (arith, r.full, r.begin_inside, r.end_inside)))
    | inr h ↦
        let n : (((1025 + p.end_ptr) - p.begin_ptr) + p.begin_ptr) - 1025 ≡ p.end_ptr =
          omega (arith, r.begin_inside) in
        rw (h, n) (copy_around-ok p p.end_ptr r (omega (arith, r.end_inside)))
  ]

  -- What `consume` does to the bytes that wait.
  pub record Consumed (p : Peekable S) (n : ℕ) (p' : Peekable S) : Type 0 where
    pub ring : Ring p'
    pub left : held p' ≡ drop n (held p)
    pub same_stream : p'.istm ≡ p.istm

  consume-straight :
      (p : Peekable S) (n : ℕ)
      → Ring p
      → p.begin_ptr ≤ p.end_ptr
      → p.begin_ptr + n ≤ p.end_ptr
      → (p' : Peekable S) × (consume n p ≡ ok (take n (held p), p')) × Consumed p n p'
  unfolding consume
  consume-straight p n r h few =
      let p' = record p { begin_ptr = p.begin_ptr + n } in
      let here = held-straight p h in
      let gap : p.end_ptr - (p.begin_ptr + n) ≡ (p.end_ptr - p.begin_ptr) - n = omega arith in
      (
        p',
        rw
            (
              lt→ltb (p.begin_ptr + n) 1025 (omega (arith, r.end_inside)),
              copy-ok p.buf p.begin_ptr n (omega (arith, r.full, r.end_inside)),
              here,
              take-take_le n (p.end_ptr - p.begin_ptr) (drop p.begin_ptr p.buf) (omega arith),
            )
            refl,
        record {
          ring = record {
            full = r.full;
            begin_inside = omega (arith, r.end_inside);
            end_inside = r.end_inside;
          };
          left =
              held-straight p' few
              ∙ (rw
                  (
                    here,
                    drop-take n (p.end_ptr - p.begin_ptr) (drop p.begin_ptr p.buf),
                    drop-drop n p.begin_ptr p.buf,
                    gap,
                  )
                  refl);
          same_stream = refl;
        },
      )

  consume-wrapped :
      (p : Peekable S) (n : ℕ)
      → Ring p
      → p.end_ptr < p.begin_ptr
      → p.begin_ptr + n < 1025
      → (p' : Peekable S) × (consume n p ≡ ok (take n (held p), p')) × Consumed p n p'
  unfolding consume
  consume-wrapped p n r h few =
      let p' = record p { begin_ptr = p.begin_ptr + n } in
      let here = held-wrapped p h in
      let long : n ≤ length (drop p.begin_ptr p.buf) =
        omega (arith, r.full, length-drop p.begin_ptr p.buf) in
      (
        p',
        rw
            (
              lt→ltb (p.begin_ptr + n) 1025 few,
              copy-ok p.buf p.begin_ptr n (omega (arith, r.full)),
              here,
              take-append_le n (drop p.begin_ptr p.buf) (take p.end_ptr p.buf) long,
            )
            refl,
        record {
          ring = record { full = r.full; begin_inside = few; end_inside = r.end_inside };
          left =
              held-wrapped p' (omega (arith, h))
              ∙ (rw
                  (
                    here,
                    drop-append_le n (drop p.begin_ptr p.buf) (take p.end_ptr p.buf) long,
                    drop-drop n p.begin_ptr p.buf,
                  )
                  refl);
          same_stream = refl;
        },
      )

  consume-around :
      (p : Peekable S) (n : ℕ)
      → Ring p
      → p.end_ptr < p.begin_ptr
      → 1025 ≤ p.begin_ptr + n
      → p.begin_ptr + n ≤ 1025 + p.end_ptr
      → (p' : Peekable S) × (consume n p ≡ ok (take n (held p), p')) × Consumed p n p'
  unfolding consume
  consume-around p n r h many few =
      let k = (n + p.begin_ptr) - 1025 in
      let p' = record p { begin_ptr = k } in
      let here = held-wrapped p h in
      let size : length (drop p.begin_ptr p.buf) ≡ 1025 - p.begin_ptr =
        length-drop p.begin_ptr p.buf ∙ ap (λ m. m - p.begin_ptr) r.full in
      let long : length (drop p.begin_ptr p.buf) ≤ n = omega (arith, size) in
      let rest : n - length (drop p.begin_ptr p.buf) ≡ k = omega (arith, size, r.begin_inside) in
      let inside : k ≤ p.end_ptr = omega arith in
      (
        p',
        rw
            (
              not_lt (p.begin_ptr + n) 1025 many,
              copy_around-ok p k r (omega (arith, r.end_inside)),
              here,
              take-append_ge n (drop p.begin_ptr p.buf) (take p.end_ptr p.buf) long,
              rest,
              take-take_le k p.end_ptr p.buf inside,
            )
            refl,
        record {
          ring = record {
            full = r.full;
            begin_inside = omega (arith, r.end_inside);
            end_inside = r.end_inside;
          };
          left =
              held-straight p' inside
              ∙ (rw
                  (
                    here,
                    drop-append_ge n (drop p.begin_ptr p.buf) (take p.end_ptr p.buf) long,
                    rest,
                    drop-take k p.end_ptr p.buf,
                  )
                  refl);
          same_stream = refl;
        },
      )

  pub consume-Consumed :
      (p : Peekable S) (n : ℕ)
      → Ring p
      → n ≤ bytes_buffered p
      → (p' : Peekable S) × (consume n p ≡ ok (take n (held p), p')) × Consumed p n p'
  unfolding bytes_buffered
  consume-Consumed p n r few = elim (Bool-cases (leb p.begin_ptr p.end_ptr)) [
    | inl h ↦
        let le = leb→le p.begin_ptr p.end_ptr h in
        let inside = (rw h at few) in consume-straight p n r le (omega arith)
    | inr h ↦
        let wraps = leb-false p.begin_ptr p.end_ptr h in
        let inside = rw h at few in
        elim (Bool-cases (ltb (p.begin_ptr + n) 1025)) [
          | inl e ↦ consume-wrapped p n r wraps (ltb→lt (p.begin_ptr + n) 1025 e)
          | inr e ↦
              consume-around p n r wraps (ltb-false (p.begin_ptr + n) 1025 e)
                (omega (arith, r.begin_inside))
        ]
  ]
