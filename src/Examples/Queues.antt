-- ===== src/Examples/Queues.antt =====
-- A queue through which one number goes.
use treelite.Prelude.{ℕ, ◌≡◌, refl, false, List, [], ◌∷◌, ◌++◌, ok}
use treelite.Predictor.SpscQueue.{
  Queue, System, ready, enqueue, dequeue, fetch_add, fetch_sub, enqueues, counts, claims, Reach,
  start, next,
}
use treelite.Predictor.SpscQueue.Ring.{contents}
use treelite.Predictor.SpscQueue.Fifo.{Reach-fifo, Reach-dequeue}

abbrev buffer : List ℕ
buffer = 0 ∷ 0 ∷ []

abbrev holding_seven : Queue ℕ
holding_seven = record { buffer = 7 ∷ 0 ∷ []; head = 0; tail = 1; pending = 0; exit_now = false }

-- The producer has pushed 7, and the consumer is about to take it.
abbrev served : System ℕ
served = record {
  queue = holding_seven;
  uncounted = false;
  consumer = ready;
  pushed = 7 ∷ [];
  popped = [];
}

served-Reach : Reach buffer served
unfolding enqueue fetch_add fetch_sub
served-Reach =
    next (next (next start (enqueues 7 holding_seven refl refl)) (counts refl))
      (claims refl (λ e. cc))

Reach-fifo_example : 7 ∷ [] ≡ [] ++ contents holding_seven
Reach-fifo_example = Reach-fifo buffer served refl served-Reach

Reach-dequeue_example : (x : ℕ) × (q : Queue ℕ) × (dequeue holding_seven ≡ ok (x, q))
Reach-dequeue_example = Reach-dequeue buffer served refl served-Reach refl refl
