-- ===== src/LightGbm/Text/Segments.antt =====
-- What the reader of `LoadText` has found after some bytes: the parts between delimiters.
use treelite.Prelude.{
  ℕ, ◌+◌, ◌≡◌, refl, sym, ap, ◌∙◌, arith, inl, inr, Bool, true, false, ◌&&◌, Bool-cases, List, [],
  ◌∷◌, ◌++◌, length, ltb, lt→ltb, if◌then◌else◌, Bytes,
}
use treelite.LightGbm.Text.{is_delimiter, Reader, end_line, read_byte}
use treelite.LightGbm.Text.Buffers.{read_all}
use mathlib.Core.List.{append_assoc}

-- The lines that hold something.
unfoldable pub nonempty : List Bytes → List Bytes
nonempty [] = []
nonempty ([] ∷ lines) = nonempty lines
nonempty ((c ∷ cs) ∷ lines) = (c ∷ cs) ∷ nonempty lines

unfoldable pub concat : List Bytes → Bytes
concat [] = []
concat (chunk ∷ chunks) = chunk ++ concat chunks

-- The longest parts without a delimiter, where `token` has been read already.
unfoldable pub segments : Bytes → Bytes → List Bytes
unfolding nonempty
segments token [] = nonempty (token ∷ [])
segments token (c ∷ cs) =
    let fresh = nonempty (token ∷ []) ++ segments [] cs in
    let longer = segments (token ++ c ∷ []) cs in if is_delimiter c then fresh else longer

pub nonempty-append : (xs ys : List Bytes) → nonempty (xs ++ ys) ≡ nonempty xs ++ nonempty ys
unfolding nonempty
nonempty-append [] ys = refl
nonempty-append ([] ∷ xs) ys = nonempty-append xs ys
nonempty-append ((c ∷ cs) ∷ xs) ys = ap (λ zs. (c ∷ cs) ∷ zs) (nonempty-append xs ys)

-- The part that the next delimiter ends.
unfoldable pub pending : Reader → Bytes
pending r = r.leftover ++ r.token

pub record IsOk (r : Reader) : Type 0 where
  pub moved : r.at_start ≡ false → r.leftover ≡ []
  pub skipped : r.skipping ≡ true → (r.token ≡ []) × (r.leftover ≡ [])

-- What the reader has, and what it will find in the bytes to come.
unfoldable pub found : Reader → Bytes → List Bytes
found r cs = nonempty r.lines ++ segments (pending r) cs

none_left :
    (leftover token : Bytes) → ltb 0 (length leftover + length token) ≡ false → leftover ≡ []
none_left [] token h = refl
none_left (c ∷ cs) token h = let t = lt→ltb 0 (length (c ∷ cs) + length token) (omega arith) in cc

segments-delimiter :
    (token cs : Bytes) (c : ℕ)
    → is_delimiter c ≡ true
    → segments token (c ∷ cs) ≡ nonempty (token ∷ []) ++ segments [] cs
unfolding segments
segments-delimiter token cs c d = rw d refl

segments-byte :
    (token cs : Bytes) (c : ℕ)
    → is_delimiter c ≡ false
    → segments token (c ∷ cs) ≡ segments (token ++ c ∷ []) cs
unfolding segments
segments-byte token cs c d = rw d refl

-- A line that is complete is the next segment.
line_found :
    (lines : List Bytes) (token cs : Bytes) (c : ℕ)
    → is_delimiter c ≡ true
    → nonempty (lines ++ token ∷ []) ++ segments [] cs ≡ nonempty lines ++ segments token (c ∷ cs)
line_found lines token cs c d =
    rw (nonempty-append lines (token ∷ []), segments-delimiter token cs c d)
      (append_assoc (nonempty lines) (nonempty (token ∷ [])) (segments [] cs))

end_line-found :
    (r : Reader) (c : ℕ) (cs : Bytes)
    → IsOk r
    → is_delimiter c ≡ true
    → IsOk (end_line r) × (found (end_line r) cs ≡ found r (c ∷ cs))
unfolding end_line found pending
end_line-found r c cs k d =
    elim (Bool-cases (r.at_start && ltb 0 (length r.leftover + length r.token))) [
      | inl p ↦ rw p (
        record { moved = λ e. refl; skipped = λ e. (refl, refl) },
        line_found r.lines (r.leftover ++ r.token) cs c d,
      )
      | inr p ↦
          let none : r.leftover ≡ [] = elim (Bool-cases r.at_start) [
            | inl q ↦ none_left r.leftover r.token (rw q at p)
            | inr q ↦ k.moved q
          ] in
          rw p (
            record { moved = λ e. none; skipped = λ e. (refl, none) },
            rw none (line_found r.lines r.token cs c d),
          )
    ]

found-skipped :
    (r : Reader) (c : ℕ) (cs : Bytes)
    → IsOk r
    → is_delimiter c ≡ true
    → r.skipping ≡ true
    → found r cs ≡ found r (c ∷ cs)
unfolding found pending nonempty
found-skipped r c cs k d s =
    let (token, leftover) = k.skipped s in simp (token, leftover, segments-delimiter [] cs c d)

found-longer :
    (r : Reader) (c : ℕ) (cs : Bytes)
    → is_delimiter c ≡ false
    → found (record r { token = r.token ++ c ∷ []; skipping = false }) cs ≡ found r (c ∷ cs)
unfolding found pending
found-longer r c cs d =
    rw (segments-byte (r.leftover ++ r.token) cs c d)
      (ap (λ t. nonempty r.lines ++ segments t cs) (sym (append_assoc r.leftover r.token (c ∷ []))))

read_byte-skipped :
    (r : Reader) (c : ℕ) → is_delimiter c ≡ true → r.skipping ≡ true → read_byte r c ≡ r
unfolding read_byte
read_byte-skipped r c d s = simp (d, s)

read_byte-end_line :
    (r : Reader) (c : ℕ) → is_delimiter c ≡ true → r.skipping ≡ false → read_byte r c ≡ end_line r
unfolding read_byte
read_byte-end_line r c d s = simp (d, s)

read_byte-longer :
    (r : Reader) (c : ℕ)
    → is_delimiter c ≡ false
    → read_byte r c ≡ record r { token = r.token ++ c ∷ []; skipping = false }
unfolding read_byte
read_byte-longer r c d = simp d

read_byte-found :
    (r : Reader) (c : ℕ) (cs : Bytes)
    → IsOk r
    → IsOk (read_byte r c) × (found (read_byte r c) cs ≡ found r (c ∷ cs))
read_byte-found r c cs k = elim (Bool-cases (is_delimiter c)) [
  | inl d ↦ elim (Bool-cases r.skipping) [
    | inl s ↦ rw (read_byte-skipped r c d s) (k, found-skipped r c cs k d s)
    | inr s ↦ rw (read_byte-end_line r c d s) (end_line-found r c cs k d)
  ]
  | inr d ↦
      rw (read_byte-longer r c d)
        (record { moved = k.moved; skipped = λ e. cc e }, found-longer r c cs d)
]

pub read_all-found :
    (r : Reader) (cs : Bytes)
    → IsOk r
    → IsOk (read_all r cs) × ((rest : Bytes) → found (read_all r cs) rest ≡ found r (cs ++ rest))
unfolding read_all
read_all-found r [] k = (k, λ rest. refl)
read_all-found r (c ∷ cs) k =
    let (k', _) = read_byte-found r c [] k in
    let (k'', e) = read_all-found (read_byte r c) cs k' in
    (k'', λ rest. e rest ∙ (read_byte-found r c (cs ++ rest) k).1)

unfoldable pub ends_in_delimiter : Bytes → Bool
ends_in_delimiter [] = false
ends_in_delimiter (c ∷ []) = is_delimiter c
ends_in_delimiter (c ∷ d ∷ cs) = ends_in_delimiter (d ∷ cs)

read_byte-skipping : (r : Reader) (c : ℕ) → (read_byte r c).skipping ≡ is_delimiter c
unfolding end_line
read_byte-skipping r c = elim (Bool-cases (is_delimiter c)) [
  | inl d ↦ elim (Bool-cases r.skipping) [
    | inl s ↦ rw (read_byte-skipped r c d s) (s ∙ sym d)
    | inr s ↦ rw (read_byte-end_line r c d s) (end_line_skips r ∙ sym d)
  ]
  | inr d ↦ rw (read_byte-longer r c d) (sym d)
]
  where
    end_line_skips : (r : Reader) → (end_line r).skipping ≡ true
    end_line_skips r =
        elim (Bool-cases (r.at_start && ltb 0 (length r.leftover + length r.token))) [
          | inl p ↦ rw p refl
          | inr p ↦ rw p refl
        ]

pub read_all-skipping :
    (r : Reader) (c : ℕ) (cs : Bytes) → (read_all r (c ∷ cs)).skipping ≡ ends_in_delimiter (c ∷ cs)
unfolding read_all ends_in_delimiter
read_all-skipping r c [] = read_byte-skipping r c
read_all-skipping r c (d ∷ cs) = read_all-skipping (read_byte r c) d cs
