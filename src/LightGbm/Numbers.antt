-- ===== src/LightGbm/Numbers.antt =====
-- `TextToNumber` and `TextToArray` of src/frontend/lightgbm.cc. An integer is its two's complement
-- pattern, in the width of its type. `strtol` and its like are written out; `strtod` and `strtof`
-- and the conversions between `double`, `float` and `int` are the arguments of type `FloatLibrary`.
use treelite.Prelude.{
  ℕ, zero, suc, ◌+◌, ◌-◌, ◌*◌, ◌%◌, Bool, true, false, not, ◌&&◌, ◌||◌, List, [], ◌∷◌, Result, ok,
  err, ◌>>=◌, ◌>>◌, guard, check_failed, String, length, ltb, leb, ◌==◌, if◌then◌else◌, Bytes,
}
use treelite.Base.{TlFloat, size_mod}
use treelite.LightGbm.Text.{Stream, stream_of, getline}

-- What a conversion leaves in `errno`.
pub data Errno : Type 0 where
  no_error range_error other_error : Errno

-- What a conversion returns, and the text behind what it has read.
pub record Converted : Type 0 where
  pub value : ℕ
  pub end_text : Bytes
  pub errno : Errno

-- The functions of the C library on `double` and `float`, which are patterns of 64 and 32 bits.
pub record FloatLibrary : Type 0 where
  pub strtod : Bytes → Converted
  pub strtof : Bytes → Converted
  -- `static_cast<float>` of a `double`, `static_cast<double>` of a `float`
  pub narrow : ℕ → TlFloat
  pub widen : TlFloat → ℕ
  -- `static_cast<int>` of a `double`
  pub truncate : ℕ → ℕ

-- The part of a `std::string` that its `c_str()` shows to the C library.
unfoldable pub c_str : Bytes → Bytes
c_str [] = []
c_str (c ∷ cs) = let rest = c ∷ c_str cs in if c == 0 then [] else rest

-- `std::isspace`
unfoldable pub is_space : ℕ → Bool
is_space c = c == b' ' || (leb 9 c && leb c 13)

unfoldable pub is_digit : ℕ → Bool
is_digit c = leb b'0' c && leb c b'9'

unfoldable pub skip_spaces : Bytes → Bytes
unfolding is_space
skip_spaces [] = []
skip_spaces (c ∷ cs) = let rest = skip_spaces cs in if is_space c then rest else c ∷ cs

-- The value of the digits at the front, and what is behind them.
unfoldable pub digits_from : ℕ → Bytes → ℕ × Bytes
unfolding is_digit
digits_from acc [] = (acc, [])
digits_from acc (c ∷ cs) =
    let more = digits_from (acc * 10 + (c - b'0')) cs in if is_digit c then more else (acc, c ∷ cs)

-- A number in base 10 with its sign; one with no digits reads nothing, and its value is 0.
pub record Signed : Type 0 where
  pub negative : Bool
  pub magnitude : ℕ
  pub end_text : Bytes

-- The digits behind the sign, where `whole` is the text with all in front of them.
unfoldable pub signed : Bool → Bytes → Bytes → Signed
unfolding digits_from is_digit
signed negative whole [] = record { negative = false; magnitude = 0; end_text = whole }
signed negative whole (c ∷ cs) =
    let (magnitude, end_text) = digits_from 0 (c ∷ cs) in
    if is_digit c
    then record { negative = negative; magnitude = magnitude; end_text = end_text }
    else record { negative = false; magnitude = 0; end_text = whole }

unfoldable pub after_spaces : Bytes → Bytes → Signed
unfolding signed
after_spaces whole [] = signed false whole []
after_spaces whole (c ∷ cs) =
    if c == b'-'
    then signed true whole cs
    else if c == b'+'
    then signed false whole cs
    else signed false whole (c ∷ cs)

unfoldable pub scan_number : Bytes → Signed
unfolding after_spaces skip_spaces c_str
scan_number str = let text = c_str str in after_spaces text (skip_spaces text)

-- `*endptr != '\0'`
unfoldable pub at_terminator : Bytes → Bool
at_terminator [] = true
at_terminator (c ∷ cs) = c == 0

-- `strtol`, then the test against the bounds of a signed type of modulus `modulus`: from
-- `-modulus / 2` to `modulus / 2 - 1`. The range of `long` is wider, so that its own range error
-- falls together with this one.
unfoldable pub text_to_signed : ℕ → String → Bytes → Result ℕ
unfolding scan_number at_terminator
text_to_signed modulus why str = do
  let n = scan_number str
  let in_range = if n.negative then leb (n.magnitude * 2) modulus else ltb (n.magnitude * 2) modulus
  guard in_range (check_failed why)
  guard (at_terminator n.end_text) (check_failed "String does not represent a valid integer")
  ok (if n.negative then (modulus - n.magnitude) % modulus else n.magnitude)

unfoldable pub text_to_int : Bytes → Result ℕ
unfolding text_to_signed
text_to_int = text_to_signed 0x1_0000_0000 "Range error while converting string to int"

unfoldable pub text_to_int8 : Bytes → Result ℕ
unfolding text_to_signed
text_to_int8 = text_to_signed 0x100 "Range error while converting string to int8_t"

-- `strtoul` and `strtoull` negate modulo 2 ^ 64; a magnitude of that or more is their range error.
unfoldable pub text_to_unsigned : ℕ → String → Bytes → Result ℕ
unfolding scan_number at_terminator
text_to_unsigned modulus why str = do
  let n = scan_number str
  let val = if n.negative then (size_mod - n.magnitude) % size_mod else n.magnitude
  guard (ltb n.magnitude size_mod && ltb val modulus) (check_failed why)
  guard (at_terminator n.end_text) (check_failed "String does not represent a valid integer")
  ok val

unfoldable pub text_to_uint32 : Bytes → Result ℕ
unfolding text_to_unsigned
text_to_uint32 = text_to_unsigned 0x1_0000_0000 "Range error while converting string to uint32_t"

unfoldable pub text_to_uint64 : Bytes → Result ℕ
unfolding text_to_unsigned
text_to_uint64 = text_to_unsigned size_mod "Range error while converting string to uint64_t"

-- The tests of `TextToNumber<float>` and `TextToNumber<double>`.
unfoldable pub check_converted : Converted → Result ℕ
unfolding at_terminator
check_converted c = elim c.errno [
  | range_error ↦ err (check_failed "Range error while converting string to double")
  | other_error ↦ err (check_failed "Unknown error")
  | no_error ↦
      guard (at_terminator c.end_text)
        (check_failed "String does not represent a valid floating-point number")
      >> ok c.value
]

unfoldable pub text_to_double : FloatLibrary → Bytes → Result ℕ
unfolding check_converted c_str
text_to_double lib str = check_converted (lib.strtod (c_str str))

unfoldable pub text_to_float : FloatLibrary → Bytes → Result TlFloat
unfolding check_converted c_str
text_to_float lib str = check_converted (lib.strtof (c_str str))

-- The loop of `TextToArray`, with `n` entries left.
unfoldable pub read_entries : (Bytes → Result ℕ) → ℕ → Bytes → Stream → Result (List ℕ)
unfolding getline
read_entries convert zero token ss = ok []
read_entries convert (suc n) token ss = do
  let (token', ss') = getline b' ' token ss
  x ← convert token'
  xs ← read_entries convert n token' ss'
  ok (x ∷ xs)

-- `TextToArray<T>(text, num_entry)`, where `num_entry` is an `int`.
unfoldable pub text_to_array : (Bytes → Result ℕ) → Bytes → ℕ → Result (List ℕ)
unfolding read_entries
text_to_array convert text num_entry = do
  let n = if ltb num_entry 0x8000_0000 then num_entry else 0
  guard (not (length text == 0 && ltb 0 n)) (check_failed "Cannot convert empty text into array")
  read_entries convert n [] (stream_of text)
