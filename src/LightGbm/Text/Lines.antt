-- ===== src/LightGbm/Text/Lines.antt =====
-- The lines that `LoadText` returns do not depend on how the stream is cut into buffers, apart from
-- empty ones.
use treelite.Prelude.{
  ◌≤◌, replicate, length-replicate, ℕ, ◌≡◌, ◌<◌, refl, sym, ◌∙◌, arith, ◌⊎◌, inl, inr, true, false,
  List, [], ◌∷◌, ◌++◌, ok, err, fault, length, Bytes,
}
use treelite.LightGbm.Text.{
  Reader, read_bytes, fill_buffer, read_chunk, read_chunks, add_leftover, load_text,
}
use treelite.LightGbm.Text.Buffers.{
  read_all, read_bytes-fill_buffer, length-fill_buffer, read_bytes-inside, read_bytes-stopped,
  read_bytes-behind,
}
use mathlib.Core.List.{append-nil}
use treelite.LightGbm.Text.Segments.{
  nonempty, concat, segments, found, pending, read_all-found, read_all-skipping, nonempty-append,
  ends_in_delimiter,
}

-- The stream has this chunk: some bytes that do not fill the buffer, or do not end in a delimiter.
unfoldable pub Fits : ℕ → Bytes → Type 0
Fits bufsize chunk =
    (0 < length chunk) × ((length chunk < bufsize) ⊎ (ends_in_delimiter chunk ≡ false))

unfoldable pub AllFit : ℕ → List Bytes → Type 0
AllFit bufsize [] = Unit
AllFit bufsize (chunk ∷ chunks) = Fits bufsize chunk × AllFit bufsize chunks

abbrev fresh_reader : List Bytes → Bytes → Reader
fresh_reader lines leftover = record {
  lines = lines;
  leftover = leftover;
  at_start = true;
  skipping = false;
  token = [];
}

read_chunk-found :
    (buf : Bytes) (bufsize c : ℕ) (cs leftover : Bytes) (lines : List Bytes)
    → bufsize ≤ length buf
    → Fits bufsize (c ∷ cs)
    → (buf' : Bytes) × (lines' : List Bytes) × (leftover' : Bytes) × (bufsize ≤ length buf')
      × (read_chunk buf lines leftover (c ∷ cs) ≡ ok (buf', lines', leftover'))
      × ((rest : Bytes)
          → nonempty lines' ++ segments leftover' rest
            ≡ nonempty lines ++ segments leftover ((c ∷ cs) ++ rest))
unfolding read_chunk Fits found pending
read_chunk-found buf bufsize c cs leftover lines room (_, fits) =
    let start = fresh_reader lines leftover in
    let r = read_all start (c ∷ cs) in
    let filled = fill_buffer buf (c ∷ cs) in
    let wide = length-fill_buffer buf (c ∷ cs) in
    let (k, e) =
      read_all-found start (c ∷ cs) (record { moved = λ e. cc e; skipped = λ e. cc e }) in
    let stops : read_bytes filled 0 (length (c ∷ cs)) r ≡ ok r = elim fits [
      | inl l ↦ read_bytes-inside filled (length (c ∷ cs)) r (omega (arith, wide, room, l))
      | inr n ↦ read_bytes-stopped filled (length (c ∷ cs)) r (read_all-skipping start c cs ∙ n)
    ] in
    let done = read_bytes-fill_buffer buf (c ∷ cs) start ∙ stops in
    (
      filled,
      r.lines,
      r.leftover ++ r.token,
      omega (arith, wide, room),
      rw done refl,
      λ rest. rw (append-nil leftover) at (e rest),
    )

read_chunks-cons :
    (buf buf' : Bytes) (c : ℕ) (cs leftover leftover' : Bytes) (lines lines' : List Bytes)
    (chunks : List Bytes)
    → read_chunk buf lines leftover (c ∷ cs) ≡ ok (buf', lines', leftover')
    → read_chunks buf lines leftover ((c ∷ cs) ∷ chunks) ≡ read_chunks buf' lines' leftover' chunks
unfolding read_chunks
read_chunks-cons buf buf' c cs leftover leftover' lines lines' chunks e = rw e refl

read_chunks-found :
    (buf : Bytes) (bufsize : ℕ) (lines chunks : List Bytes) (leftover : Bytes)
    → bufsize ≤ length buf
    → AllFit bufsize chunks
    → (lines' : List Bytes) × (leftover' : Bytes) × (read_chunks buf lines leftover chunks
        ≡ ok (lines', leftover'))
      × (nonempty lines' ++ segments leftover' []
          ≡ nonempty lines ++ segments leftover (concat chunks))
unfolding AllFit concat Fits
read_chunks-found buf bufsize lines [] leftover room fits =
    (lines, leftover, unfold read_chunks in refl, refl)
read_chunks-found buf bufsize lines ([] ∷ chunks) leftover room ((some_bytes, _), fits) =
    absurd (omega arith)
read_chunks-found buf bufsize lines ((c ∷ cs) ∷ chunks) leftover room (fit, fits) =
    let (buf', lines', leftover', room', e, f) =
      read_chunk-found buf bufsize c cs leftover lines room fit in
    let (lines'', leftover'', e', f') =
      read_chunks-found buf' bufsize lines' chunks leftover' room' fits in
    (
      lines'',
      leftover'',
      read_chunks-cons buf buf' c cs leftover leftover' lines lines' chunks e ∙ e',
      f' ∙ f (concat chunks),
    )

nonempty-add_leftover :
    (lines : List Bytes) (leftover : Bytes)
    → nonempty (add_leftover lines leftover) ≡ nonempty lines ++ segments leftover []
unfolding add_leftover segments nonempty
nonempty-add_leftover lines [] = sym (append-nil (nonempty lines))
nonempty-add_leftover lines (c ∷ cs) = nonempty-append lines ((c ∷ cs) ∷ [])

-- However the stream is cut into buffers, each with some bytes and none of them full and with a
-- delimiter at its end, `LoadText` succeeds, and the lines that are not empty are the longest parts
-- of the stream without a line end, in order.
pub load_text-segments :
    (bufsize : ℕ) (chunks : List Bytes)
    → AllFit bufsize chunks
    → (lines : List Bytes) × (load_text bufsize chunks ≡ ok lines)
      × (nonempty lines ≡ segments [] (concat chunks))
unfolding load_text nonempty
load_text-segments bufsize chunks fits =
    let buf : Bytes = replicate bufsize 0 in
    let wide = length-replicate {A = ℕ} bufsize 0 in
    let (lines, leftover, e, f) =
      read_chunks-found buf bufsize [] chunks [] (omega (arith, wide)) fits in
    (add_leftover lines leftover, rw e refl, nonempty-add_leftover lines leftover ∙ f)

-- Where the first call of `Read` fills the buffer and its last byte is a delimiter, `LoadText` reads
-- behind the end of the buffer.
pub load_text-full :
    (bufsize : ℕ) (chunk : Bytes) (chunks : List Bytes)
    → 0 < bufsize
    → length chunk ≡ bufsize
    → ends_in_delimiter chunk ≡ true
    → load_text bufsize (chunk ∷ chunks) ≡ err fault
unfolding load_text read_chunks read_chunk
load_text-full bufsize [] chunks pos len d = absurd (omega arith)
load_text-full bufsize (c ∷ cs) chunks pos len d =
    let buf : Bytes = replicate bufsize 0 in
    let start = fresh_reader [] [] in
    let wide = length-fill_buffer buf (c ∷ cs) in
    let size = length-replicate {A = ℕ} bufsize 0 in
    let behind =
      read_bytes-behind (fill_buffer buf (c ∷ cs)) (length (c ∷ cs)) (read_all start (c ∷ cs))
        (read_all-skipping start c cs ∙ d) (omega (arith, wide, size, len)) in
    rw (read_bytes-fill_buffer buf (c ∷ cs) start ∙ behind) refl
