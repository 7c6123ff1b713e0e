-- ===== src/ContiguousArray/Capacity.antt =====
-- The doubling loop of `Resize` and `Extend`.
use native.Mathlib.Nat.{pow-suc}
use treelite.Prelude.{
  ℕ, zero, suc, ◌*◌, ◌%◌, ◌^◌, max, ◌≤◌, ◌<◌, ◌≡◌, refl, ap, ◌⊎◌, arith, inl, inr, ok, leb,
  Bool-cases, leb→le,
}
use treelite.Base.{size_mod}
use treelite.ContiguousArray.{double_until, grown_capacity}

-- The loop ends before the fuel does, and stops at the first doubling above `n`.
double_until-ends :
    (fuel c n : ℕ)
    → 0 < c
    → n < 0x8000_0000_0000_0000
    → n < c * 2 ^ fuel
    → (r : ℕ) × (double_until (suc fuel) c n ≡ ok r) × (n < r) × ((r ≡ c) ⊎ (r ≤ 2 * n))
unfolding double_until
double_until-ends zero c n p h e = (c, ground arith, ground arith, inl refl)
double_until-ends (suc fuel) c n p h e = elim (Bool-cases (leb c n)) [
  | inl more ↦
      let small = leb→le c n more in
      let (r, eq, lt, b) = double_until-ends fuel (c * 2 % size_mod) n (omega arith) h (
        let w : c * 2 % size_mod ≡ c * 2 = omega arith in
        rw w (omega (arith, ap (λ (t : ℕ). c * t) (pow-suc 2 fuel)))) in
      (r, rw more eq, lt, inr (omega arith))
  | inr done ↦ (c, rw done refl, ground arith, inl refl)
]

-- A request below 2 ^ 63 gets a capacity above it, and at most twice the old one or the request.
pub grown_capacity_lem :
    (c n : ℕ)
    → n < 0x8000_0000_0000_0000
    → (r : ℕ) × (grown_capacity c n ≡ ok r) × (n < r) × ((r ≤ max c 1) ⊎ (r ≤ 2 * n))
unfolding grown_capacity
grown_capacity_lem zero n h =
    let (r, e, lt, b) = double_until-ends 64 1 n (omega arith) h (omega arith) in
    (r, e, lt, omega arith)
grown_capacity_lem (suc c) n h =
    let (r, e, lt, b) = double_until-ends 64 (suc c) n (omega arith) h (omega arith) in
    (r, ground arith, lt, omega arith)
