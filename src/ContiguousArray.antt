-- ===== src/ContiguousArray.antt =====
-- include/treelite/tree.h, `class ContiguousArray`, and its methods in include/treelite/tree_impl.h.
-- `items` are the cells `buffer_[0]` to `buffer_[size_ - 1]`. Memory does not run out; what a cell
-- holds that nothing has written is an argument `junk`. A `realloc` to no bytes, whose result the C
-- standard leaves open, is a fault, and so is an access outside of `items`.
pub mod Capacity
pub mod Growth
use treelite.Prelude.{
  ℕ, zero, suc, ◌+◌, ◌-◌, ◌*◌, ◌%◌, Bool, true, false, Option, none, some, List, [], ◌∷◌, ◌++◌,
  Result, ok, err, ◌>>=◌, ◌>>◌, guard, or_fault, Error, runtime_error, fault, out_of_fuel, length,
  get_elem?, set, take, replicate, ltb, leb, ◌==◌, if◌then◌else◌,
}
use treelite.Base.{size_mod}

pub record ContiguousArray (A : Type 0) : Type 0 where
  pub items : List A
  pub capacity : ℕ
  pub owned_buffer : Bool

-- `while (newcapacity <= newsize) newcapacity *= 2;`
unfoldable pub double_until : ℕ → ℕ → ℕ → Result ℕ
double_until zero newcapacity newsize = err out_of_fuel
double_until (suc fuel) newcapacity newsize =
    let rest = double_until fuel (newcapacity * 2 % size_mod) newsize in
    if leb newcapacity newsize then rest else ok newcapacity

-- A `size_t` doubles 64 times at most before it is above any other or wraps to 0.
unfoldable pub grown_capacity : ℕ → ℕ → Result ℕ
unfolding double_until
grown_capacity capacity newsize = double_until 65 (if capacity == 0 then 1 else capacity) newsize

module _ {A : Type 0} where
  unfoldable pub empty : ContiguousArray A
  empty = record { items = []; capacity = 0; owned_buffer = true }

  unfoldable pub clone : ContiguousArray A → ContiguousArray A
  clone a = record a { owned_buffer = true }

  unfoldable pub use_foreign_buffer : List A → ContiguousArray A → ContiguousArray A
  use_foreign_buffer prealloc_buf a = record {
    items = prealloc_buf;
    capacity = length prealloc_buf;
    owned_buffer = false;
  }

  unfoldable pub size : ContiguousArray A → ℕ
  size a = length a.items

  unfoldable pub at : ContiguousArray A → ℕ → Result A
  at a idx = or_fault (get_elem? a.items idx)

  -- `(*this)[idx] = t`
  unfoldable pub assign : ContiguousArray A → ℕ → A → Result (ContiguousArray A)
  assign a idx t =
      if ltb idx (length a.items) then ok (record a { items = set a.items idx t }) else err fault

  unfoldable pub back : ContiguousArray A → Result A
  unfolding at
  back a = if length a.items == 0 then err fault else at a (length a.items - 1)

  unfoldable pub reserve : ℕ → ContiguousArray A → Result (ContiguousArray A)
  reserve newsize a = do
    guard a.owned_buffer (runtime_error "Cannot resize when using a foreign buffer; clone first")
    if newsize == 0
        then err fault
        else if ltb newsize (length a.items)
        then err fault
        else ok (record a { capacity = newsize })

  unfoldable pub resize : A → ℕ → ContiguousArray A → Result (ContiguousArray A)
  resize junk newsize a = do
    guard a.owned_buffer (runtime_error "Cannot resize when using a foreign buffer; clone first")
    b ←
        if ltb a.capacity newsize
        then (grown_capacity a.capacity newsize >>= λ newcapacity. reserve newcapacity a)
        else ok a
    ok (record b { items = take newsize b.items ++ replicate (newsize - length b.items) junk })

  -- `Resize(newsize, t)`: the loop writes every cell that `Resize(newsize)` added.
  unfoldable pub resize_fill : ℕ → A → ContiguousArray A → Result (ContiguousArray A)
  resize_fill newsize t a = do
    guard a.owned_buffer (runtime_error "Cannot resize when using a foreign buffer; clone first")
    resize t newsize a

  unfoldable pub clear : ContiguousArray A → Result (ContiguousArray A)
  clear a = do
    guard a.owned_buffer (runtime_error "Cannot clear when using a foreign buffer; clone first")
    ok (record a { items = [] })

  unfoldable pub push_back : A → ContiguousArray A → Result (ContiguousArray A)
  push_back t a = do
    guard a.owned_buffer
        (runtime_error "Cannot add element when using a foreign buffer; clone first")
    b ← if length a.items == a.capacity then reserve (a.capacity * 2 % size_mod) a else ok a
    ok (record b { items = b.items ++ t ∷ [] })

  unfoldable pub extend : List A → ContiguousArray A → Result (ContiguousArray A)
  extend other a = do
    guard a.owned_buffer
        (runtime_error "Cannot add elements when using a foreign buffer; clone first")
    b ←
        if ltb a.capacity (length a.items + length other)
        then (grown_capacity a.capacity (length a.items + length other) >>= λ newcapacity.
            reserve newcapacity a)
        else ok a
    ok (record b { items = b.items ++ other })
