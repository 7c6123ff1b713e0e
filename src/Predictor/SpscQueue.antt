-- ===== src/Predictor/SpscQueue.antt =====
-- src/predictor/thread_pool/spsc_queue.h: the queue between the main thread and a worker, with one
-- producer and one consumer. The step relation interleaves the two threads at their reads and writes
-- of `pending_`, which order the others: a thread's accesses between two of these are one step.
pub mod Ring
pub mod Fifo
use treelite.Prelude.{
  ℕ, ◌+◌, ◌%◌, ◌<◌, ◌≤◌, ◌≡◌, ◌≢◌, ◌⊎◌, Bool, true, false, List, [], ◌∷◌, ◌++◌, Option, none, some,
  Result, ok, err, ◌>>=◌, ◌>>◌, guard, or_fault, check_failed, get_elem?, set, ltb, ◌==◌, not,
  if◌then◌else◌,
}

-- `kRingSize`
abbrev pub ring_size : ℕ
ring_size = 2

-- `pending_` is an `int8_t`, as its bit pattern.
pub record Queue (A : Type 0) : Type 0 where
  pub buffer : List A
  pub head : ℕ
  pub tail : ℕ
  pub pending : ℕ
  pub exit_now : Bool

module _ {A : Type 0} where
  -- `Enqueue`: whether there was room, and the queue.
  unfoldable pub enqueue : A → Queue A → Bool × Queue A
  enqueue input q =
      if not ((q.tail + 1) % ring_size == q.head)
      then (true, record q { buffer = set q.buffer q.tail input; tail = (q.tail + 1) % ring_size })
      else (false, q)

  -- `pending_.fetch_add(1)` and `pending_.fetch_sub(1)`
  unfoldable pub fetch_add : Queue A → Queue A
  fetch_add q = record q { pending = (q.pending + 1) % 256 }

  unfoldable pub fetch_sub : Queue A → Queue A
  fetch_sub q = record q { pending = (q.pending + 255) % 256 }

  -- `pending_.load() >= 0 || exit_now_.load()`
  unfoldable pub may_wake : Queue A → Bool
  may_wake q = if ltb q.pending 128 then true else q.exit_now

  -- The end of `Pop`, after the test of `exit_now_`.
  unfoldable pub dequeue : Queue A → Result (A × Queue A)
  dequeue q = do
    guard (not (q.tail == q.head)) (check_failed "tail_.load(std::memory_order_acquire) != head")
    x ← or_fault (get_elem? q.buffer q.head)
    ok (x, record q { head = (q.head + 1) % ring_size })

-- Where the consumer is in `Pop`.
pub data Consumer : Type 0 where
  -- before `pending_.fetch_sub(1)`
  idle : Consumer
  -- in `cv_.wait`
  waiting : Consumer
  -- before the test of `exit_now_`
  ready : Consumer
  -- after `return false`
  stopped : Consumer

-- The queue, whether the producer stands between `Enqueue` and `pending_.fetch_add(1)`, the consumer,
-- and what has been pushed and popped so far.
pub record System (A : Type 0) : Type 0 where
  pub queue : Queue A
  pub uncounted : Bool
  pub consumer : Consumer
  pub pushed : List A
  pub popped : List A

abbrev pub initial : {A : Type 0} → List A → System A
initial buffer = record {
  queue = record { buffer = buffer; head = 0; tail = 0; pending = 0; exit_now = false };
  uncounted = false;
  consumer = idle;
  pushed = [];
  popped = [];
}

pub data Step {A : Type 0} (s : System A) : System A → Type 0 where
  enqueues :
      (x : A) (q : Queue A)
      → s.uncounted ≡ false
      → enqueue x s.queue ≡ (true, q)
      → Step s (record s { queue = q; uncounted = true; pushed = s.pushed ++ x ∷ [] })
  counts : s.uncounted ≡ true → Step s (record s { queue = fetch_add s.queue; uncounted = false })
  claims :
      s.consumer ≡ idle
      → s.queue.pending ≢ 0
      → Step s (record s { queue = fetch_sub s.queue; consumer = ready })
  waits :
      s.consumer ≡ idle
      → s.queue.pending ≡ 0
      → Step s (record s { queue = fetch_sub s.queue; consumer = waiting })
  wakes : s.consumer ≡ waiting → may_wake s.queue ≡ true → Step s (record s { consumer = ready })
  -- `SignalForKill`
  kills : Step s (record s { queue = record s.queue { exit_now = true } })
  stops : s.consumer ≡ ready → s.queue.exit_now ≡ true → Step s (record s { consumer = stopped })
  takes :
      (x : A) (q : Queue A)
      → s.consumer ≡ ready
      → s.queue.exit_now ≡ false
      → dequeue s.queue ≡ ok (x, q)
      → Step s (record s { queue = q; consumer = idle; popped = s.popped ++ x ∷ [] })

-- The states that are reached from an empty queue on a buffer.
pub data Reach {A : Type 0} (buffer : List A) : System A → Type 0 where
  start : Reach buffer (initial buffer)
  next : {s t : System A} → Reach buffer s → Step s t → Reach buffer t
