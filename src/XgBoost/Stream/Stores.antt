-- ===== src/XgBoost/Stream/Stores.antt =====
-- The ring buffer after more bytes were stored in it.
use treelite.Prelude.{
  ℕ, ◌+◌, ◌-◌, ◌≤◌, ◌<◌, ◌≡◌, refl, sym, ap, ◌∙◌, arith, [], ◌∷◌, ◌++◌, ok, length, length-append,
  length-take, length-drop, take, drop, take-append_ge, drop_all, drop-append_le, drop-append_ge,
  drop-take, drop-drop, le→leb, Bytes,
}
use mathlib.Core.List.{append-nil, append_assoc}
use treelite.XgBoost.Stream.{Peekable, store}
use treelite.XgBoost.Stream.Ring.{held, held-straight, held-wrapped, Ring}

abbrev pub stored : Bytes → ℕ → Bytes → Bytes
stored buf at bytes = take at buf ++ (bytes ++ drop (at + length bytes) buf)

pub store-ok :
    (buf : Bytes) (at : ℕ) (bytes : Bytes)
    → at + length bytes ≤ length buf
    → store buf at bytes ≡ ok (stored buf at bytes)
unfolding store
store-ok buf at bytes h = rw (le→leb (at + length bytes) (length buf) h) refl

take_to_end : (xs tail : Bytes) → take (length xs) (xs ++ tail) ≡ xs
take_to_end [] tail = refl
take_to_end (x ∷ xs) tail = ap (λ ys. x ∷ ys) (take_to_end xs tail)

module _ (buf : Bytes) (at : ℕ) (bytes : Bytes) (h : at + length bytes ≤ length buf) where
  before : length (take at buf) ≡ at
  before = omega (arith, length-take at buf)

  pub length-stored : length (stored buf at bytes) ≡ length buf
  length-stored = omega (
    arith,
    before,
    length-append (take at buf) (bytes ++ drop (at + length bytes) buf),
    length-append bytes (drop (at + length bytes) buf),
    length-drop (at + length bytes) buf,
  )

  pub take-stored : take (at + length bytes) (stored buf at bytes) ≡ take at buf ++ bytes
  take-stored =
      let tail = drop (at + length bytes) buf in
      let left : (at + length bytes) - length (take at buf) ≡ length bytes =
        omega (arith, before) in
      take-append_ge (at + length bytes) (take at buf) (bytes ++ tail) (omega (arith, before))
      ∙ (rw (left, take_to_end bytes tail) refl)

  pub drop-stored_ge : (n : ℕ) → at + length bytes ≤ n → drop n (stored buf at bytes) ≡ drop n buf
  drop-stored_ge n far =
      let tail = drop (at + length bytes) buf in
      let left : n - length (take at buf) ≡ n - at = ap (λ k. n - k) before in
      let all : (at + length bytes) + ((n - at) - length bytes) ≡ n = omega arith in
      drop-append_ge n (take at buf) (bytes ++ tail) (omega (arith, before))
      ∙ (rw
          (
            left,
            drop-append_ge (n - at) bytes tail (omega arith),
            drop-drop ((n - at) - length bytes) (at + length bytes) buf,
            all,
          )
          refl)

  pub drop-stored_le :
      (n : ℕ)
      → n ≤ at
      → drop n (stored buf at bytes)
        ≡ take (at - n) (drop n buf) ++ (bytes ++ drop (at + length bytes) buf)
  drop-stored_le n near =
      drop-append_le n (take at buf) (bytes ++ drop (at + length bytes) buf) (omega (arith, before))
      ∙ (rw (drop-take n at buf) refl)

module _ {S : Type 0} (p : Peekable S) (r : Ring p) where
  -- More bytes behind those that wait, up to the end of the buffer at most.
  pub held-stored_straight :
      (s : S) (bytes : Bytes)
      → p.begin_ptr ≤ p.end_ptr
      → p.end_ptr + length bytes ≤ 1025
      → held (record p {
        istm = s;
        buf = stored p.buf p.end_ptr bytes;
        end_ptr = p.end_ptr + length bytes;
      })
        ≡ held p ++ bytes
  held-stored_straight s bytes h small =
      let b = p.buf in
      let at = p.end_ptr in
      let tail = drop (at + length bytes) b in
      let room : at + length bytes ≤ length b = omega (arith, r.full) in
      let q : Peekable S = record p {
        istm = s;
        buf = stored b at bytes;
        end_ptr = at + length bytes;
      } in
      let size : length (take (at - p.begin_ptr) (drop p.begin_ptr b)) ≡ at - p.begin_ptr = omega (
        arith,
        r.full,
        r.end_inside,
        length-take (at - p.begin_ptr) (drop p.begin_ptr b),
        length-drop p.begin_ptr b,
      ) in
      let left : ((at + length bytes) - p.begin_ptr) - (at - p.begin_ptr) ≡ length bytes =
        omega arith in
      held-straight q (omega (arith, h))
      ∙ (rw
          (
            drop-stored_le b at bytes room p.begin_ptr h,
            held-straight p h,
            take-append_ge ((at + length bytes) - p.begin_ptr)
                (take (at - p.begin_ptr) (drop p.begin_ptr b)) (bytes ++ tail)
                (omega (arith, size)),
            size,
            left,
            take_to_end bytes tail,
          )
          refl)

  -- The same where those that wait go around the end of the buffer.
  pub held-stored_wrapped :
      (s : S) (bytes : Bytes)
      → p.end_ptr + length bytes < p.begin_ptr
      → held (record p {
        istm = s;
        buf = stored p.buf p.end_ptr bytes;
        end_ptr = p.end_ptr + length bytes;
      })
        ≡ held p ++ bytes
  held-stored_wrapped s bytes h =
      let b = p.buf in
      let room : p.end_ptr + length bytes ≤ length b = omega (arith, h, r.full, r.begin_inside) in
      held-wrapped
        (record p { istm = s; buf = stored b p.end_ptr bytes; end_ptr = p.end_ptr + length bytes })
        h
      ∙ (rw
          (
            drop-stored_ge b p.end_ptr bytes room p.begin_ptr (omega (arith, h)),
            take-stored b p.end_ptr bytes room,
            held-wrapped p (omega (arith, h)),
          )
          (sym (append_assoc (drop p.begin_ptr b) (take p.end_ptr b) bytes)))

  -- Bytes up to the end of the buffer, and more of them from its start on.
  pub held-stored_around :
      (s : S) (first second : Bytes)
      → p.begin_ptr ≤ p.end_ptr
      → p.end_ptr + length first ≡ 1025
      → length second < p.begin_ptr
      → held (record p {
        istm = s;
        buf = stored (stored p.buf p.end_ptr first) 0 second;
        end_ptr = length second;
      })
        ≡ held p ++ first ++ second
  held-stored_around s first second h full few =
      let b = p.buf in
      let at = p.end_ptr in
      let c = stored b at first in
      let room : at + length first ≤ length b = omega (arith, full, r.full) in
      let room' : 0 + length second ≤ length c =
        omega (arith, few, r.full, r.begin_inside, length-stored b at first room) in
      let start : 0 + length second ≡ length second = omega arith in
      let q : Peekable S = record p {
        istm = s;
        buf = stored c 0 second;
        end_ptr = length second;
      } in
      let nothing : drop (at + length first) b ≡ [] =
        drop_all (at + length first) b (omega (arith, full, r.full)) in
      let first_part : drop p.begin_ptr (stored c 0 second) ≡ held p ++ first =
        drop-stored_ge c 0 second room' p.begin_ptr (omega (arith, few))
        ∙ drop-stored_le b at first room p.begin_ptr h
        ∙ (rw (nothing, append-nil first, held-straight p h) refl) in
      let second_part : take (length second) (stored c 0 second) ≡ second =
        ap (λ k. take k (stored c 0 second)) (sym start) ∙ take-stored c 0 second room' in
      held-wrapped q few ∙ (rw (first_part, second_part) refl)
