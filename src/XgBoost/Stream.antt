-- ===== src/XgBoost/Stream.antt =====
-- `PeekableInputStream` of src/frontend/xgboost.cc. `dmlc::Stream` belongs to another library; it is
-- the argument of type `ByteStream`. The model reads the two parts that PeekRead takes around the
-- end of the buffer in their order in the source.
pub mod Ring
pub mod Stores
pub mod Reads
pub mod Fills
pub mod Peeks
use treelite.Prelude.{
  ℕ, ◌+◌, ◌-◌, ◌≤◌, ◌<◌, ◌≡◌, Bool, List, [], ◌∷◌, ◌++◌, Result, ok, err, ◌>>=◌, ◌>>◌, guard, fault,
  check_failed, length, take, drop, ltb, leb, ◌==◌, if◌then◌else◌, Bytes,
}

-- `dmlc::Stream::Read(ptr, size)`: the bytes that it stores, and the stream after it.
pub record ByteStream : Type 1 where
  pub State : Type 0
  pub read : ℕ → State → Bytes × State

-- `MAX_PEEK_WINDOW`
abbrev pub max_peek_window : ℕ
max_peek_window = 1024

pub record Peekable (S : Type 0) : Type 0 where
  pub istm : S
  pub buf : Bytes
  pub begin_ptr : ℕ
  pub end_ptr : ℕ

-- `std::memcpy` of `n` bytes from `from` on.
unfoldable pub copy : Bytes → ℕ → ℕ → Result Bytes
copy buf from n = guard (leb (from + n) (length buf)) fault >> ok (take n (drop from buf))

-- The bytes that are stored from `at` on.
unfoldable pub store : Bytes → ℕ → Bytes → Result Bytes
store buf at bytes =
    guard (leb (at + length bytes) (length buf)) fault
    >> ok (take at buf ++ (bytes ++ drop (at + length bytes) buf))

module _ {S : Type 0} where
  unfoldable pub bytes_buffered : Peekable S → ℕ
  bytes_buffered p =
      if leb p.begin_ptr p.end_ptr
      then p.end_ptr - p.begin_ptr
      else (max_peek_window + 1 + p.end_ptr) - p.begin_ptr

  -- The two parts of a copy around the end of the buffer, of which the second has `n` bytes.
  unfoldable pub copy_around : Peekable S → ℕ → Result Bytes
  unfolding copy
  copy_around p n = do
    first ← copy p.buf p.begin_ptr (max_peek_window + 1 - p.begin_ptr)
    second ← copy p.buf 0 n
    ok (first ++ second)

  -- "all content already buffered; consume buffer"
  unfoldable pub consume : ℕ → Peekable S → Result (Bytes × Peekable S)
  unfolding copy copy_around
  consume size p =
      if ltb (p.begin_ptr + size) (max_peek_window + 1)
      then (do
        bytes ← copy p.buf p.begin_ptr size
        ok (bytes, record p { begin_ptr = p.begin_ptr + size }))
      else (do
        let rest = (size + p.begin_ptr) - (max_peek_window + 1)
        bytes ← copy_around p rest
        ok (bytes, record p { begin_ptr = rest }))

  -- What `Read` takes from the buffer where it needs more.
  unfoldable pub buffered : Peekable S → Result Bytes
  unfolding copy copy_around bytes_buffered
  buffered p =
      if leb p.begin_ptr p.end_ptr
      then copy p.buf p.begin_ptr (bytes_buffered p)
      else copy_around p ((bytes_buffered p + p.begin_ptr) - (max_peek_window + 1))

  -- "copy buffer into ptr without emptying buffer"
  unfoldable pub peeked : Peekable S → Result Bytes
  unfolding copy copy_around
  peeked p =
      if leb p.begin_ptr p.end_ptr
      then copy p.buf p.begin_ptr (p.end_ptr - p.begin_ptr)
      else copy_around p p.end_ptr

module _ (lib : ByteStream) where
  -- `PeekableInputStream(fi)`
  unfoldable pub new_stream : Bytes → lib.State → Peekable lib.State
  new_stream buf fi = record { istm = fi; buf = buf; begin_ptr = 0; end_ptr = 0 }

  -- `Read(ptr, size)`: the bytes that it stores, as many as it returns.
  unfoldable pub read : ℕ → Peekable lib.State → Result (Bytes × Peekable lib.State)
  unfolding bytes_buffered consume buffered
  read size p = if leb size (bytes_buffered p) then consume size p else (do
    held ← buffered p
    let (more, istm) = lib.read (size - bytes_buffered p) p.istm
    ok (held ++ more, record p { istm = istm; begin_ptr = p.end_ptr }))

  -- "fill buffer with additional bytes", of which there are `bytes_to_read`.
  unfoldable pub fill : ℕ → Peekable lib.State → Result (Peekable lib.State)
  unfolding store
  fill bytes_to_read p =
      if ltb (p.end_ptr + bytes_to_read) (max_peek_window + 1)
      then (do
        let (bytes, istm) = lib.read bytes_to_read p.istm
        buf ← store p.buf p.end_ptr bytes
        guard (length bytes == bytes_to_read) (check_failed "Failed to peek")
        ok (record p { istm = istm; buf = buf; end_ptr = p.end_ptr + bytes_to_read }))
      else (do
        let rest = (bytes_to_read + p.end_ptr) - (max_peek_window + 1)
        let (first, istm) = lib.read (max_peek_window + 1 - p.end_ptr) p.istm
        let (second, istm') = lib.read rest istm
        buf ← store p.buf p.end_ptr first
        buf' ← store buf 0 second
        guard (length first + length second == bytes_to_read)
            (check_failed "Ill-formed XGBoost model: Failed to peek")
        ok (record p { istm = istm'; buf = buf'; end_ptr = rest }))

  -- `PeekRead(ptr, size)`, for a `ptr` to `room` bytes: the bytes that it stores there.
  unfoldable pub peek_read : ℕ → ℕ → Peekable lib.State → Result (Bytes × Peekable lib.State)
  unfolding bytes_buffered fill peeked
  peek_read room size p = do
    guard (leb size max_peek_window)
        (check_failed "PeekableInputStream allows peeking up to 1024 bytes")
    p' ← (if ltb (bytes_buffered p) size then fill (size - bytes_buffered p) p else ok p)
    bytes ← peeked p'
    guard (leb (length bytes) room) fault
    ok (bytes, p')
