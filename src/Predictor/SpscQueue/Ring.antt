-- ===== src/Predictor/SpscQueue/Ring.antt =====
-- The ring of the queue, which holds one element at most.
use treelite.Prelude.{
  ℕ, ◌+◌, ◌%◌, ◌<◌, ◌≡◌, ◌⊎◌, inl, inr, refl, sym, ap, ◌∙◌, arith, Bool, true, false, List, [], ◌∷◌,
  none, some, ok, err, check_failed, ok-injective, length, get_elem?, set, length-set,
  get_elem?-set_self, get_elem?-lt, ◌==◌, if◌then◌else◌, Bool-cases, ==_iff,
}
use treelite.Predictor.SpscQueue.{Queue, enqueue, dequeue}

-- The one element that the ring can hold, if it is there.
unfoldable pub contents : {A : Type 0} → Queue A → List A
contents q =
    if q.tail == q.head
    then []
    else elim (get_elem? q.buffer q.head) [ none ↦ [] | some x ↦ x ∷ [] ]

unfoldable pub count : {A : Type 0} → Queue A → ℕ
count q = if q.tail == q.head then 0 else 1

pub record RingOk {A : Type 0} (q : Queue A) : Type 0 where
  pub slots : length q.buffer ≡ 2
  pub head_in : q.head < 2
  pub tail_in : q.tail < 2
  pub pending_in : q.pending < 256

module _ {A : Type 0} where
  pub enqueue-facts :
      (x : A) (q q' : Queue A)
      → RingOk q
      → enqueue x q ≡ (true, q')
      → RingOk q'
        × (contents q ≡ [])
        × (contents q' ≡ x ∷ [])
        × (count q ≡ 0)
        × (count q' ≡ 1)
        × (q'.pending ≡ q.pending)
        × (q'.exit_now ≡ q.exit_now)
  unfolding enqueue contents count
  enqueue-facts x q q' R h = elim (Bool-cases ((q.tail + 1) % 2 == q.head)) [
    | inl e ↦ let bad : false ≡ true = ap (λ (r : Bool × Queue A). r.0) (rw e at h) in cc
    | inr e ↦
        let new = record q { buffer = set q.buffer q.tail x; tail = (q.tail + 1) % 2 } in
        let same : new ≡ q' = ap (λ (r : Bool × Queue A). r.1) (rw e at h) in
        let was_empty : (q.tail == q.head) ≡ true = ground (arith, R.head_in, R.tail_in) in
        let here : q.tail ≡ q.head = (==_iff q.tail q.head).0 was_empty in
        let put : get_elem? (set q.buffer q.tail x) q.head ≡ some x =
          ap (get_elem? (set q.buffer q.tail x)) (sym here)
          ∙ get_elem?-set_self q.buffer q.tail x (omega (arith, R.slots, R.tail_in)) in
        rw (← same) (
          record {
            slots = length-set q.buffer q.tail x ∙ R.slots;
            head_in = R.head_in;
            tail_in = omega arith;
            pending_in = R.pending_in;
          },
          rw was_empty refl,
          rw (e, put) refl,
          rw was_empty refl,
          rw e refl,
          refl,
          refl,
        )
  ]

  -- With an element in the ring, `Pop` takes it.
  pub dequeue-ok :
      (q : Queue A) → RingOk q → count q ≡ 1 → (x : A) × (q' : Queue A) × (dequeue q ≡ ok (x, q'))
  unfolding dequeue count
  dequeue-ok q R c = elim (Bool-cases (q.tail == q.head)) [
    | inl e ↦ let bad : 0 ≡ 1 = rw e at c in cc
    | inr e ↦
        let (x, g) = get_elem?-lt q.buffer q.head (omega (arith, R.slots, R.head_in)) in
        (x, record q { head = (q.head + 1) % 2 }, simp (e, g))
  ]

  pub dequeue-facts :
      (x : A) (q q' : Queue A)
      → RingOk q
      → dequeue q ≡ ok (x, q')
      → RingOk q'
        × (contents q ≡ x ∷ [])
        × (contents q' ≡ [])
        × (count q' ≡ 0)
        × (q'.pending ≡ q.pending)
        × (q'.exit_now ≡ q.exit_now)
  unfolding dequeue contents count
  dequeue-facts x q q' R h = elim (Bool-cases (q.tail == q.head)) [
    | inl e ↦
        let bad : err (check_failed "tail_.load(std::memory_order_acquire) != head") ≡ ok (x, q') =
          rw (dequeue, e) at h in
        cc
    | inr e ↦
        let (y, g) = get_elem?-lt q.buffer q.head (omega (arith, R.slots, R.head_in)) in
        let new = record q { head = (q.head + 1) % 2 } in
        let both : ok (y, new) ≡ ok (x, q') = rw (dequeue, e, g) at h in
        let same : new ≡ q' = ap (λ (r : A × Queue A). r.1) (ok-injective both) in
        let elem : y ≡ x = ap (λ (r : A × Queue A). r.0) (ok-injective both) in
        let now_empty : (q.tail == (q.head + 1) % 2) ≡ true =
          ground (arith, R.head_in, R.tail_in) in
        rw (← same) (
          record {
            slots = R.slots;
            head_in = omega arith;
            tail_in = R.tail_in;
            pending_in = R.pending_in;
          },
          rw (e, g, elem) refl,
          rw now_empty refl,
          rw now_empty refl,
          refl,
          refl,
        )
  ]

  pub count-range : (q : Queue A) → (count q ≡ 0) ⊎ (count q ≡ 1)
  unfolding count
  count-range q = elim (Bool-cases (q.tail == q.head)) [
    | inl e ↦ inl (rw e refl)
    | inr e ↦ inr (rw e refl)
  ]
