-- ===== src/LightGbm/Text/Buffers.antt =====
-- The loops of `LoadText` over its buffer, and the bytes that a call of `Read` has put there.
use treelite.Prelude.{
  ℕ, suc, ◌+◌, ◌-◌, ◌≡◌, ◌<◌, ◌≤◌, refl, ap, ◌∙◌, arith, true, false, inl, inr, Bool-cases, some,
  [], ◌∷◌, ok, err, fault, length, get_elem?, get_elem?-lt, get_elem?-append_lt, length-append,
  length-drop, drop, get_elem?-ge, Bytes,
}
use treelite.LightGbm.Text.{Reader, read_byte, read_bytes, fill_buffer}

-- The reader after some bytes, one after the other.
unfoldable pub read_all : Reader → Bytes → Reader
unfolding read_byte
read_all r [] = r
read_all r (c ∷ cs) = read_all (read_byte r c) cs

-- Over bytes that stand in the buffer from `i` on, the loops take these one after the other.
pub read_bytes-read_all :
    (buf cs : Bytes) (i : ℕ) (r : Reader)
    → ((j : ℕ) → j < length cs → get_elem? buf (i + j) ≡ get_elem? cs j)
    → read_bytes buf (length cs) i r ≡ read_bytes buf 0 (i + length cs) (read_all r cs)
unfolding read_bytes read_all
read_bytes-read_all buf [] i r at = ap (λ k. read_bytes buf 0 k r) (omega arith)
read_bytes-read_all buf (c ∷ cs) i r at =
    let here : i + 0 ≡ i = omega arith in
    let first : get_elem? buf i ≡ some c = rw here at (at 0 (omega arith)) in
    let rest = read_bytes-read_all buf cs (i + 1) (read_byte r c) λ j l.
      let next : i + 1 + j ≡ i + suc j = omega arith in rw next (at (suc j) (omega (arith, l))) in
    let stop : i + 1 + length cs ≡ i + suc (length cs) = omega arith in
    rw first (rest ∙ ap (λ k. read_bytes buf 0 k (read_all (read_byte r c) cs)) stop)

-- What the loops do with a chunk that `Read` has put into the buffer.
pub read_bytes-fill_buffer :
    (buf chunk : Bytes) (r : Reader)
    → read_bytes (fill_buffer buf chunk) (length chunk) 0 r
      ≡ read_bytes (fill_buffer buf chunk) 0 (length chunk) (read_all r chunk)
unfolding fill_buffer
read_bytes-fill_buffer buf chunk r =
    let stored = fill_buffer buf chunk in
    let same : (j : ℕ) → 0 + j ≡ j = λ j. omega arith in
    read_bytes-read_all stored chunk 0 r (λ j l.
      ap (get_elem? stored) (same j) ∙ get_elem?-append_lt chunk (drop (length chunk) buf) j l)
    ∙ ap (λ k. read_bytes stored 0 k (read_all r chunk)) (same (length chunk))

pub length-fill_buffer :
    (buf chunk : Bytes)
    → length (fill_buffer buf chunk) ≡ length chunk + (length buf - length chunk)
unfolding fill_buffer
length-fill_buffer buf chunk =
    length-append chunk (drop (length chunk) buf)
    ∙ ap (λ n. length chunk + n) (length-drop (length chunk) buf)

-- The end of the loops, at a place in the buffer or with no delimiter before it.
pub read_bytes-inside :
    (buf : Bytes) (i : ℕ) (r : Reader) → i < length buf → read_bytes buf 0 i r ≡ ok r
unfolding read_bytes
read_bytes-inside buf i r l = elim (Bool-cases r.skipping) [
  | inl s ↦ let (c, e) = get_elem?-lt buf i l in rw (s, e) refl
  | inr s ↦ rw s refl
]

pub read_bytes-stopped :
    (buf : Bytes) (i : ℕ) (r : Reader) → r.skipping ≡ false → read_bytes buf 0 i r ≡ ok r
unfolding read_bytes
read_bytes-stopped buf i r s = rw s refl

-- The end of the loops behind the buffer, after a delimiter.
pub read_bytes-behind :
    (buf : Bytes) (i : ℕ) (r : Reader)
    → r.skipping ≡ true
    → length buf ≤ i
    → read_bytes buf 0 i r ≡ err fault
unfolding read_bytes
read_bytes-behind buf i r s l = rw (s, get_elem?-ge buf i l) refl
