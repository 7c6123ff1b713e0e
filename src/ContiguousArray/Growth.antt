-- ===== src/ContiguousArray/Growth.antt =====
-- What the growing operations of an array that owns its buffer do to its elements.
use treelite.Prelude.{
  ℕ, ◌+◌, ◌-◌, ◌*◌, ◌≤◌, ◌<◌, ◌≡◌, refl, ap, length-take, length-replicate, arith, inl, inr, true,
  List, [], ◌∷◌, ◌++◌, ok, length, length-append, take, replicate, ltb, ltb→lt, ◌==◌, Bool-cases,
}
use treelite.ContiguousArray.{ContiguousArray, reserve, resize, push_back, extend, grown_capacity}
use treelite.ContiguousArray.Capacity.{grown_capacity_lem}

-- `xs` are the elements of an array that owns its buffer, and they fit into it.
pub record Holds {A : Type 0} (xs : List A) (a : ContiguousArray A) : Type 0 where
  pub same : a.items ≡ xs
  pub owned : a.owned_buffer ≡ true
  pub fits : length xs ≤ a.capacity

module _ {A : Type 0} where
  reserve-ok :
      (c : ℕ) (a : ContiguousArray A)
      → a.owned_buffer ≡ true
      → 0 < c
      → length a.items ≤ c
      → reserve c a ≡ ok (record { items = a.items; capacity = c; owned_buffer = true })
  unfolding reserve
  reserve-ok c a o p le = ground arith

  -- On an owned array that holds `xs`, which is not empty and below 2 ^ 62 long, `PushBack` succeeds and
  -- the array holds `xs` and the new element, within its capacity.
  pub push_back-Holds :
      (xs : List A) (t : A) (a : ContiguousArray A)
      → Holds xs a
      → 0 < length xs
      → length xs < 0x4000_0000_0000_0000
      → (b : ContiguousArray A) × (push_back t a ≡ ok b) × Holds (xs ++ t ∷ []) b
  unfolding push_back reserve
  push_back-Holds xs t a h pos small = elim (Bool-cases (length a.items == a.capacity)) [
    | inl full ↦ (
      record { items = a.items ++ t ∷ []; capacity = a.capacity * 2; owned_buffer = true },
      ground arith,
      ground (arith, length-append a.items (t ∷ [])),
    )
    | inr room ↦ (
      record { items = a.items ++ t ∷ []; capacity = a.capacity; owned_buffer = true },
      ground arith,
      ground (arith, length-append a.items (t ∷ [])),
    )
  ]

  extend_at :
      (c : ℕ) (ys xs : List A) (a : ContiguousArray A)
      → Holds xs a
      → ltb a.capacity (length a.items + length ys) ≡ true
      → grown_capacity a.capacity (length a.items + length ys) ≡ ok c
      → length a.items + length ys < c
      → (b : ContiguousArray A) × (extend ys a ≡ ok b) × Holds (xs ++ ys) b
  unfolding extend
  extend_at c ys xs a h more e lt = (
    record { items = a.items ++ ys; capacity = c; owned_buffer = true },
    simp (h.owned, more, e, reserve-ok c a h.owned (omega arith) (omega arith)),
    ground (arith, length-append xs ys),
  )

  -- On an owned array that holds `xs`, `Extend` by `ys` succeeds when the sum of the lengths is below
  -- 2 ^ 63, and the array holds `xs ++ ys`, within its capacity.
  pub extend-Holds :
      (xs ys : List A) (a : ContiguousArray A)
      → Holds xs a
      → length xs + length ys < 0x8000_0000_0000_0000
      → (b : ContiguousArray A) × (extend ys a ≡ ok b) × Holds (xs ++ ys) b
  unfolding extend
  extend-Holds xs ys a h small = elim (Bool-cases (ltb a.capacity (length a.items + length ys))) [
    | inl more ↦
        let (c, e, lt, _) =
          grown_capacity_lem a.capacity (length a.items + length ys)
            (omega (arith, ap length h.same)) in
        extend_at c ys xs a h more e lt
    | inr room ↦ (
      record { items = a.items ++ ys; capacity = a.capacity; owned_buffer = true },
      ground arith,
      ground (arith, length-append xs ys),
    )
  ]

  resize_at :
      (c : ℕ) (junk : A) (n : ℕ) (a : ContiguousArray A)
      → a.owned_buffer ≡ true
      → length a.items ≤ a.capacity
      → ltb a.capacity n ≡ true
      → grown_capacity a.capacity n ≡ ok c
      → n < c
      → resize junk n a
        ≡ ok (record {
          items = take n a.items ++ replicate (n - length a.items) junk;
          capacity = c;
          owned_buffer = true;
        })
  unfolding resize
  resize_at c junk n a o v more e lt =
      simp (o, more, e, reserve-ok c a o (omega arith) (omega (arith, ltb→lt)))

  -- From any array that owns its buffer `Resize` keeps what fits, and adds cells up to the size.
  pub resize-Holds :
      (junk : A) (n : ℕ) (a : ContiguousArray A)
      → a.owned_buffer ≡ true
      → length a.items ≤ a.capacity
      → n < 0x8000_0000_0000_0000
      → 0 < n
      → (b : ContiguousArray A) × (resize junk n a ≡ ok b)
        × Holds (take n a.items ++ replicate (n - length a.items) junk) b
  unfolding resize
  resize-Holds junk n a o v small pos = elim (Bool-cases (ltb a.capacity n)) [
    | inl more ↦
        let (c, e, lt, _) = grown_capacity_lem a.capacity n small in
        (
          record {
            items = take n a.items ++ replicate (n - length a.items) junk;
            capacity = c;
            owned_buffer = true;
          },
          resize_at c junk n a o v more e lt,
          record {
            same = refl;
            owned = refl;
            fits = omega (
              arith,
              length-append (take n a.items) (replicate (n - length a.items) junk),
              length-take n a.items,
              length-replicate (n - length a.items) junk,
            );
          },
        )
    | inr room ↦ (
      record {
        items = take n a.items ++ replicate (n - length a.items) junk;
        capacity = a.capacity;
        owned_buffer = true;
      },
      ground arith,
      record {
        same = refl;
        owned = refl;
        fits = ground (
          arith,
          length-append (take n a.items) (replicate (n - length a.items) junk),
          length-take n a.items,
          length-replicate (n - length a.items) junk,
        );
      },
    )
  ]
