-- ===== src/LightGbm/Text.antt =====
-- How src/frontend/lightgbm.cc cuts its input: `LoadText`, `Split`, and `std::getline`.
pub mod Buffers
pub mod Lines
pub mod Segments
use treelite.Prelude.{
  ℕ, zero, suc, ◌+◌, or_fault, get_elem?, drop, replicate, Bool, true, false, not, ◌&&◌, ◌||◌, List,
  [], ◌∷◌, ◌++◌, Result, ok, ◌>>=◌, length, ltb, ◌==◌, if◌then◌else◌, Bytes,
}

-- `buf[i] == '\n' || buf[i] == '\r'`
unfoldable pub is_delimiter : ℕ → Bool
is_delimiter c = c == b'\n' || c == b'\r'

-- The variables of `LoadText` while it reads a buffer: `token` are the bytes from `tok_begin` on,
-- `at_start` says that `tok_begin` is 0, and `skipping` that the inner loop over delimiters runs.
pub record Reader : Type 0 where
  pub lines : List Bytes
  pub leftover : Bytes
  pub at_start : Bool
  pub skipping : Bool
  pub token : Bytes

-- The line that ends at a delimiter.
unfoldable pub end_line : Reader → Reader
end_line r =
    if r.at_start && ltb 0 (length r.leftover + length r.token)
    then record {
      lines = r.lines ++ (r.leftover ++ r.token) ∷ [];
      leftover = [];
      at_start = false;
      skipping = true;
      token = [];
    }
    else record {
      lines = r.lines ++ r.token ∷ [];
      leftover = r.leftover;
      at_start = false;
      skipping = true;
      token = [];
    }

-- One byte of the buffer, in either loop.
unfoldable pub read_byte : Reader → ℕ → Reader
unfolding is_delimiter end_line
read_byte r c =
    if is_delimiter c
    then (if r.skipping then r else end_line r)
    else record r { token = r.token ++ c ∷ []; skipping = false }

-- The loops from `buf[i]` on, with `n` bytes left before `byte_read`. The inner loop tests the byte
-- before its index, so where it still runs at `byte_read` it reads one byte more.
unfoldable pub read_bytes : Bytes → ℕ → ℕ → Reader → Result Reader
unfolding read_byte
read_bytes buf zero i r = if r.skipping then (or_fault (get_elem? buf i) >>= λ c. ok r) else ok r
read_bytes buf (suc n) i r = do
  c ← or_fault (get_elem? buf i)
  read_bytes buf n (i + 1) (read_byte r c)

-- `fi->Read(&buf[0], bufsize)`, which has returned `chunk`: the bytes behind it stay.
unfoldable pub fill_buffer : Bytes → Bytes → Bytes
fill_buffer buf chunk = chunk ++ drop (length chunk) buf

-- One round of the outer loop: the buffer, the lines and what is left over.
unfoldable pub read_chunk : Bytes → List Bytes → Bytes → Bytes → Result (Bytes × List Bytes × Bytes)
unfolding read_bytes fill_buffer
read_chunk buf lines leftover chunk = do
  let filled = fill_buffer buf chunk
  r ←
      read_bytes filled (length chunk) 0 (record {
        lines = lines;
        leftover = leftover;
        at_start = true;
        skipping = false;
        token = [];
      })
  ok (filled, r.lines, r.leftover ++ r.token)

-- The chunks are what the calls of `Read` return; the first empty one ends the loop.
unfoldable pub read_chunks : Bytes → List Bytes → Bytes → List Bytes → Result (List Bytes × Bytes)
read_chunks buf lines leftover [] = ok (lines, leftover)
read_chunks buf lines leftover ([] ∷ chunks) = ok (lines, leftover)
read_chunks buf lines leftover ((c ∷ cs) ∷ chunks) = do
  (buf', lines', leftover') ← read_chunk buf lines leftover (c ∷ cs)
  read_chunks buf' lines' leftover' chunks

-- The last line, if no delimiter ends it.
unfoldable pub add_leftover : List Bytes → Bytes → List Bytes
add_leftover lines [] = lines
add_leftover lines (c ∷ cs) = lines ++ (c ∷ cs) ∷ []

unfoldable pub load_text : ℕ → List Bytes → Result (List Bytes)
unfolding read_chunk read_chunks add_leftover
load_text bufsize chunks = do
  (lines, leftover) ← read_chunks (replicate bufsize 0) [] [] chunks
  ok (add_leftover lines leftover)

-- A `std::istringstream`: what is left, and whether its end has been met.
pub record Stream : Type 0 where
  pub rest : Bytes
  pub at_end : Bool

abbrev pub stream_of : Bytes → Stream
stream_of text = record { rest = text; at_end = false }

-- The bytes up to a delimiter, which is dropped; or all of them.
unfoldable pub until : ℕ → Bytes → Bytes × Stream
until delim [] = ([], record { rest = []; at_end = true })
until delim (c ∷ cs) =
    let (token, s) = until delim cs in
    if c == delim then ([], record { rest = cs; at_end = false }) else (c ∷ token, s)

-- `std::getline(s, str, delim)`: once the end has been met, `str` is left alone.
unfoldable pub getline : ℕ → Bytes → Stream → Bytes × Stream
unfolding until
getline delim str s = if s.at_end then (str, s) else until delim s.rest

-- `Split`: `getline` until it extracts nothing.
unfoldable pub split_from : ℕ → Bytes → Bytes → List Bytes
split_from delim [] [] = []
split_from delim (t ∷ ts) [] = (t ∷ ts) ∷ []
split_from delim token (c ∷ cs) =
    let fresh = token ∷ split_from delim [] cs in
    let longer = split_from delim (token ++ c ∷ []) cs in if c == delim then fresh else longer

unfoldable pub split_text : Bytes → ℕ → List Bytes
unfolding split_from
split_text text delim = split_from delim [] text
