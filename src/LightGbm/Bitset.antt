-- ===== src/LightGbm/Bitset.antt =====
-- `BitsetToList`, `GetDecisionType` and `GetMissingType` of src/frontend/lightgbm.cc.
pub mod Members
use treelite.Prelude.{
  ℕ, zero, suc, ◌+◌, ◌*◌, ◌/◌, ◌%◌, ◌^◌, Bool, List, [], ◌∷◌, Result, ok, ◌>>=◌, or_fault,
  get_elem?, ltb, ◌==◌, if◌then◌else◌,
}
use treelite.Base.{size_mod}

-- `(bits[i / 32] >> (i % 32)) & 1`
abbrev pub bit_of : ℕ → ℕ → Bool
bit_of word i = word / 2 ^ (i % 32) % 2 == 1

-- The loop from `i` on, with `n` rounds left.
unfoldable pub bitset_loop : List ℕ → ℕ → ℕ → Result (List ℕ)
bitset_loop bits zero i = ok []
bitset_loop bits (suc n) i = do
  word ← or_fault (get_elem? bits (i / 32))
  result ← bitset_loop bits n (i + 1)
  ok (if bit_of word i then (i % 0x1_0000_0000) ∷ result else result)

unfoldable pub bitset_to_list : List ℕ → ℕ → Result (List ℕ)
unfolding bitset_loop
bitset_to_list bits nslots = bitset_loop bits (nslots * 32 % size_mod) 0

-- `(decision_type & mask) > 0` for a mask of one bit: `kCategoricalMask` is 1, `kDefaultLeftMask` 2.
-- An `int8_t` with its sign bit set is extended to an `int`, which does not change the low bits.
unfoldable pub get_decision_type : ℕ → ℕ → Bool
get_decision_type decision_type mask = decision_type / mask % 2 == 1

pub data MissingType : Type 0 where
  none_type zero_type nan_type unnamed_type : MissingType

-- `static_cast<MissingType>((decision_type >> 2) & 3)`
unfoldable pub get_missing_type : ℕ → MissingType
get_missing_type decision_type =
    let code = decision_type / 4 % 4 in
    if code == 0
    then none_type
    else if code == 1
    then zero_type
    else if code == 2
    then nan_type
    else unnamed_type
