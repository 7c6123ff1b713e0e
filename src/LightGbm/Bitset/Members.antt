-- ===== src/LightGbm/Bitset/Members.antt =====
-- The list that `BitsetToList` makes of a bitset has the members of the set.
use native.Mathlib.Nat.{div-div-eq-div-mul, pow-succ'}
use treelite.Prelude.{
  ◌-◌, ◌^◌, sym, ℕ, zero, suc, ◌+◌, ◌*◌, ◌/◌, ◌%◌, ◌≤◌, ◌<◌, ◌≡◌, refl, ap, ◌∙◌, arith, inl, inr,
  Bool, true, false, ◌&&◌, Bool-cases, List, [], ◌∷◌, Option, none, some, ok, length, get_elem?,
  get_elem?-lt, ltb, leb, ◌==◌, ==_iff, if◌then◌else◌,
}
use treelite.Base.{size_mod}
use treelite.Annotator.Categories.{elem}
use treelite.LightGbm.Bitset.{bit_of, bitset_loop, bitset_to_list}

-- Bit `k` of a number in binary notation.
unfoldable pub nth_bit : ℕ → ℕ → Bool
nth_bit zero word = word % 2 == 1
nth_bit (suc k) word = nth_bit k (word / 2)

-- Whether bit `c` of a row of words of 32 bits is set; behind its end none is.
unfoldable pub has_bit : List ℕ → ℕ → Bool
has_bit [] c = false
has_bit (word ∷ words) c = if ltb c 32 then nth_bit c word else has_bit words (c - 32)

nth_bit-shift : (k word : ℕ) → nth_bit k word ≡ (word / 2 ^ k % 2 == 1)
unfolding nth_bit
nth_bit-shift zero word = ap (λ (w : ℕ). w % 2 == 1) (omega arith)
nth_bit-shift (suc k) word =
    nth_bit-shift k (word / 2)
    ∙ ap (λ (w : ℕ). w % 2 == 1)
        (div-div-eq-div-mul word 2 (2 ^ k) ∙ ap (λ (w : ℕ). word / w) (sym (pow-succ' 2 k)))

word_bit : Option ℕ → ℕ → Bool
word_bit none c = false
word_bit (some word) c = bit_of word c

has_bit-get : (bits : List ℕ) (c : ℕ) → has_bit bits c ≡ word_bit (get_elem? bits (c / 32)) c
unfolding has_bit word_bit
has_bit-get [] c = refl
has_bit-get (word ∷ words) c = elim (Bool-cases (ltb c 32)) [
  | inl p ↦
      let first : c / 32 ≡ zero = ground arith in
      let low : c % 32 ≡ c = ground arith in
      rw (p, first) (nth_bit-shift c word ∙ ap (λ (k : ℕ). word / 2 ^ k % 2 == 1) (sym low))
  | inr p ↦
      let next : c / 32 ≡ suc ((c - 32) / 32) = ground arith in
      let same : (c - 32) % 32 ≡ c % 32 = ground arith in
      rw (p, next)
        (has_bit-get words (c - 32)
          ∙ word_bit-mod (get_elem? words ((c - 32) / 32)) (c - 32) c same)
]
  where
    word_bit-mod : (o : Option ℕ) (a b : ℕ) → a % 32 ≡ b % 32 → word_bit o a ≡ word_bit o b
    word_bit-mod none a b e = refl
    word_bit-mod (some word) a b e = ap (λ (k : ℕ). word / 2 ^ k % 2 == 1) e

elem-cons_if :
    (c i : ℕ) (b : Bool) (rest : List ℕ)
    → elem c (if b then i ∷ rest else rest)
      ≡ (if c == i then (if b then true else elem c rest) else elem c rest)
unfolding elem
elem-cons_if c i true rest = refl
elem-cons_if c i false rest = elim (Bool-cases (c == i)) [ inl p ↦ rw p refl | inr p ↦ rw p refl ]

-- The members among the bits from `i` on, of which there are `n`.
abbrev between : List ℕ → ℕ → ℕ → ℕ → Bool
between bits i n c = (leb i c && ltb c (i + n)) && has_bit bits c

window_after :
    (i n c : ℕ)
    → (c == i) ≡ false
    → (leb (i + 1) c && ltb c (i + 1 + n)) ≡ (leb i c && ltb c (i + suc n))
window_after i n c h = ground arith

window_start : (i n c : ℕ) → c ≡ i → (leb i c && ltb c (i + suc n)) ≡ true
window_start i n c h = ground arith

window_past : (i n c : ℕ) → c ≡ i → (leb (i + 1) c && ltb c (i + 1 + n)) ≡ false
window_past i n c h = ground arith

has_bit-word :
    (bits : List ℕ) (word i c : ℕ)
    → get_elem? bits (i / 32) ≡ some word
    → c ≡ i
    → has_bit bits c ≡ bit_of word i
unfolding word_bit
has_bit-word bits word i c w h = rw h (has_bit-get bits i ∙ ap (λ o. word_bit o i) w)

if-false : (b : Bool) → (if b then true else false) ≡ b
if-false true = refl
if-false false = refl

between-suc :
    (bits : List ℕ) (word i n c : ℕ) (e : Bool)
    → get_elem? bits (i / 32) ≡ some word
    → e ≡ between bits (i + 1) n c
    → (if c == i then (if bit_of word i then true else e) else e) ≡ between bits i (suc n) c
between-suc bits word i n c e w h = elim (Bool-cases (c == i)) [
  | inl p ↦
      let same = (==_iff c i).0 p in
      let past : e ≡ false = h ∙ ap (λ b. b && has_bit bits c) (window_past i n c same) in
      rw (p, past, window_start i n c same, has_bit-word bits word i c w same)
        (if-false (bit_of word i))
  | inr p ↦ rw p (h ∙ ap (λ b. b && has_bit bits c) (window_after i n c p))
]

bitset_loop-between :
    (bits : List ℕ) (n i : ℕ)
    → i + n ≤ length bits * 32
    → i + n ≤ 0x1_0000_0000
    → (result : List ℕ) × (bitset_loop bits n i ≡ ok result)
      × ((c : ℕ) → elem c result ≡ between bits i n c)
unfolding bitset_loop elem
bitset_loop-between bits zero i room small = ([], refl, λ c. ground arith)
bitset_loop-between bits (suc n) i room small =
    let (word, w) = get_elem?-lt bits (i / 32) (omega arith) in
    let (rest, r, members) = bitset_loop-between bits n (i + 1) (omega arith) (omega arith) in
    let low : i % 0x1_0000_0000 ≡ i = omega arith in
    (
      if bit_of word i then i ∷ rest else rest,
      rw (w, r, low) refl,
      λ c.
          elem-cons_if c i (bit_of word i) rest
          ∙ between-suc bits word i n c (elem c rest) w (members c),
    )

window_zero : (bits : List ℕ) (n c : ℕ) → between bits 0 n c ≡ (ltb c n && has_bit bits c)
window_zero bits n c = ap (λ b. b && has_bit bits c) (ground arith)

-- On a bitset of `nslots` words, fewer than 2 ^ 27, `BitsetToList` succeeds, and its list has exactly
-- the numbers whose bit is set among the first `nslots` words.
pub bitset_to_list-has_bit :
    (bits : List ℕ) (nslots : ℕ)
    → nslots ≤ length bits
    → nslots < 0x800_0000
    → (result : List ℕ) × (bitset_to_list bits nslots ≡ ok result)
      × ((c : ℕ) → elem c result ≡ (ltb c (nslots * 32) && has_bit bits c))
unfolding bitset_to_list
bitset_to_list-has_bit bits nslots room small =
    let no_wrap : nslots * 32 % size_mod ≡ nslots * 32 = omega arith in
    let (result, r, members) =
      bitset_loop-between bits (nslots * 32) 0 (omega arith) (omega arith) in
    (
      result,
      ap (λ n. bitset_loop bits n 0) no_wrap ∙ r,
      λ c. members c ∙ window_zero bits (nslots * 32) c,
    )
