-- ===== src/Predictor/SpscQueue/Fifo.antt =====
-- The queue is first in, first out, and the check in `Pop` never fails.
use treelite.Prelude.{
  ℕ, ◌+◌, ◌%◌, ◌<◌, ◌≡◌, ◌≢◌, inl, inr, refl, sym, ap, ◌∙◌, arith, Bool, true, false, List, [], ◌∷◌,
  ◌++◌, ok, length, Bool-cases,
}
use mathlib.Core.List.{append-nil}
use treelite.Predictor.SpscQueue.{
  Queue, System, Consumer, idle, waiting, ready, stopped, dequeue, fetch_add, fetch_sub, may_wake,
  initial, Step, enqueues, counts, claims, waits, wakes, kills, stops, takes, Reach, start, next,
}
use treelite.Predictor.SpscQueue.Ring.{
  contents, count, RingOk, enqueue-facts, dequeue-ok, dequeue-facts, count-range,
}

owed_by_producer : Bool → ℕ
owed_by_producer true = 1
owed_by_producer false = 0

owed_by_consumer : Consumer → ℕ
owed_by_consumer idle = 0
owed_by_consumer waiting = 1
owed_by_consumer ready = 1
owed_by_consumer stopped = 1

-- What holds between two steps.
record Inv {A : Type 0} (s : System A) : Type 0 where
  ring : RingOk s.queue
  fifo : s.pushed ≡ s.popped ++ contents s.queue
  balance :
      (s.queue.pending + owed_by_consumer s.consumer + owed_by_producer s.uncounted) % 256
      ≡ count s.queue
  full : s.uncounted ≡ true → count s.queue ≡ 1
  served :
      s.consumer ≡ ready → s.queue.exit_now ≡ false → (count s.queue ≡ 1) × (s.uncounted ≡ false)

module _ {A : Type 0} where
  initial-Inv : (buffer : List A) → length buffer ≡ 2 → Inv (initial buffer)
  unfolding contents count owed_by_producer owed_by_consumer
  initial-Inv buffer l = record {
    ring = record {
      slots = l;
      head_in = omega arith;
      tail_in = omega arith;
      pending_in = omega arith;
    };
    fifo = refl;
    balance = refl;
    full = λ e. cc;
    served = λ e. cc;
  }

  -- A consumer that has found elements pending, or has been woken for one, is served.
  claimed :
      (s : System A)
      → Inv s
      → s.consumer ≡ idle
      → s.queue.pending ≢ 0
      → (count s.queue ≡ 1) × (s.uncounted ≡ false)
  unfolding owed_by_producer owed_by_consumer
  claimed s I i ne = elim (Bool-cases s.uncounted) [
    | inl u ↦ absurd (
        omega (
          arith,
          I.balance,
          I.full u,
          ap owed_by_producer u,
          ap owed_by_consumer i,
          I.ring.pending_in,
          ne,
        ))
    | inr u ↦ elim (count-range s.queue) [
      | inl z ↦ absurd (
          omega (
            arith,
            I.balance,
            z,
            ap owed_by_producer u,
            ap owed_by_consumer i,
            I.ring.pending_in,
            ne,
          ))
      | inr o ↦ (o, u)
    ]
  ]

  woken :
      (s : System A)
      → Inv s
      → s.consumer ≡ waiting
      → s.queue.exit_now ≡ false
      → may_wake s.queue ≡ true
      → (count s.queue ≡ 1) × (s.uncounted ≡ false)
  unfolding owed_by_producer owed_by_consumer may_wake
  woken s I w out m =
      let early : s.queue.pending < 128 = ground (arith, m, out) in
      elim (Bool-cases s.uncounted) [
        | inl u ↦ absurd (
            omega (arith, I.balance, I.full u, ap owed_by_producer u, ap owed_by_consumer w, early))
        | inr u ↦ elim (count-range s.queue) [
          | inl z ↦
              absurd
                (omega (arith, I.balance, z, ap owed_by_producer u, ap owed_by_consumer w, early))
          | inr o ↦ (o, u)
        ]
      ]

  Step-Inv : (s t : System A) → Inv s → Step s t → Inv t
  unfolding owed_by_producer owed_by_consumer fetch_add fetch_sub may_wake contents count
  Step-Inv s t I (enqueues x q u e) =
      let (R, was, now, c₀, c₁, p, x_now) = enqueue-facts x s.queue q I.ring e in
      record {
        ring = R;
        fifo = rw (now, I.fifo, was, append-nil s.popped) refl;
        balance = omega (arith, I.balance, ap owed_by_producer u, p, c₀, c₁);
        full = λ _. c₁;
        served =
            λ r out. let (one, _) = I.served r (sym x_now ∙ out) in absurd (omega (arith, one, c₀));
      }
  Step-Inv s t I (counts u) = record {
    ring = record {
      slots = I.ring.slots;
      head_in = I.ring.head_in;
      tail_in = I.ring.tail_in;
      pending_in = omega arith;
    };
    fifo = I.fifo;
    balance = omega (arith, I.balance, ap owed_by_producer u, I.ring.pending_in);
    full = λ e. cc;
    served = λ r out. (I.full u, refl);
  }
  Step-Inv s t I (claims i ne) = record {
    ring = record {
      slots = I.ring.slots;
      head_in = I.ring.head_in;
      tail_in = I.ring.tail_in;
      pending_in = omega arith;
    };
    fifo = I.fifo;
    balance = omega (arith, I.balance, ap owed_by_consumer i, I.ring.pending_in);
    full = I.full;
    served = λ r out. claimed s I i ne;
  }
  Step-Inv s t I (waits i z) = record {
    ring = record {
      slots = I.ring.slots;
      head_in = I.ring.head_in;
      tail_in = I.ring.tail_in;
      pending_in = omega arith;
    };
    fifo = I.fifo;
    balance = omega (arith, I.balance, ap owed_by_consumer i, I.ring.pending_in);
    full = I.full;
    served = λ r out. cc;
  }
  Step-Inv s t I (wakes w m) = record {
    ring = I.ring;
    fifo = I.fifo;
    balance = omega (arith, I.balance, ap owed_by_consumer w, I.ring.pending_in);
    full = I.full;
    served = λ r out. woken s I w out m;
  }
  Step-Inv s t I kills = record {
    ring = record {
      slots = I.ring.slots;
      head_in = I.ring.head_in;
      tail_in = I.ring.tail_in;
      pending_in = I.ring.pending_in;
    };
    fifo = I.fifo;
    balance = I.balance;
    full = I.full;
    served = λ r out. cc;
  }
  Step-Inv s t I (stops r out) = record {
    ring = I.ring;
    fifo = I.fifo;
    balance = omega (arith, I.balance, ap owed_by_consumer r, I.ring.pending_in);
    full = I.full;
    served = λ bad. cc;
  }
  Step-Inv s t I (takes x q r out e) =
      let (R, was, now, c₀, p, x_now) = dequeue-facts x s.queue q I.ring e in
      let (one, counted) = I.served r out in
      record {
        ring = R;
        fifo = I.fifo ∙ rw (was, now, append-nil (s.popped ++ x ∷ [])) refl;
        balance = omega (
          arith,
          I.balance,
          ap owed_by_consumer r,
          ap owed_by_producer counted,
          p,
          one,
          c₀,
          I.ring.pending_in,
        );
        full = λ u. cc;
        served = λ bad. cc;
      }

  Reach-Inv : (buffer : List A) (s : System A) → length buffer ≡ 2 → Reach buffer s → Inv s
  Reach-Inv buffer s l start = initial-Inv buffer l
  Reach-Inv buffer t l (next {s = s} r e) = Step-Inv s t (Reach-Inv buffer s l r) e

-- In every order of steps of the two threads, what has been popped is what has been pushed, in that
-- order, without at most the one element in the ring.
pub Reach-fifo :
    {A : Type 0} (buffer : List A) (s : System A)
    → length buffer ≡ 2
    → Reach buffer s
    → s.pushed ≡ s.popped ++ contents s.queue
Reach-fifo buffer s l r = (Reach-Inv buffer s l r).fifo

-- A consumer that has passed the wait, and is not told to exit, finds an element: the check in `Pop`
-- does not fail.
pub Reach-dequeue :
    {A : Type 0} (buffer : List A) (s : System A)
    → length buffer ≡ 2
    → Reach buffer s
    → s.consumer ≡ ready
    → s.queue.exit_now ≡ false
    → (x : A) × (q : Queue A) × (dequeue s.queue ≡ ok (x, q))
Reach-dequeue buffer s l r c out =
    let I = Reach-Inv buffer s l r in dequeue-ok s.queue I.ring (I.served c out).0
