-- ===== src/Frontend/Loop.antt =====
-- The loop over the queue ends when all nodes are done.
use treelite.Prelude.{
  ℕ, zero, suc, ◌+◌, ◌≤◌, ◌<◌, ◌≡◌, ◌≢◌, refl, ap, ◌∙◌, arith, inl, inr, List, [], ◌∷◌, ◌++◌, ok,
  some, length, length-append, get_elem?, get_elem?-append_lt, get_elem?-append_length,
  drop-append_le, length-drop, Bool-cases, ◌==◌, ==_iff,
}
use mathlib.Core.List.{append-nil}
use treelite.Base.{int_max}
use treelite.Tree.{Tree}
use treelite.Tree.Getters.{left_child, right_child}
use treelite.Frontend.{IdQueue, run_queue}
use treelite.Frontend.Written.{Written}
use treelite.Frontend.Source.{Source, leaf, test, shape_size, shape_categories}
use treelite.Frontend.Queue.{
  numbered, numbered-push, Shapes, forest_size, forest_categories, length-le-forest_size,
  shape_size-pos, push-Shapes, Linked, State, Done-more, head_origin, tail_origin,
}

second_pushed : (xs : List ℕ) (l r : ℕ) → get_elem? (xs ++ l ∷ r ∷ []) (length xs + 1) ≡ some r
second_pushed [] l r = refl
second_pushed (x ∷ xs) l r =
    let e : suc (length xs) + 1 ≡ suc (length xs + 1) = omega arith in rw e (second_pushed xs l r)

module _ (source : Source) where
  open source use {visit, Leaf, Test, categories, LeafDone, TestDone, visit_leaf, visit_test}

  queue-visit :
      (fuel old new : ℕ) (q children : IdQueue) (t u : Tree)
      → visit old new t ≡ ok (children, u)
      → run_queue visit (suc fuel) ((old, new) ∷ q) t ≡ run_queue visit fuel (q ++ children) u
  unfolding run_queue
  queue-visit fuel old new q children t u e = rw e refl

  -- The state after a leaf.
  after_leaf :
      (k o : ℕ) (origin os : List ℕ) (t u : Tree)
      → State source k origin (o ∷ os) t
      → Written t k 0 0 u
      → source.Leaf o
      → source.LeafDone u o k
      → State source (suc k) origin os u
  after_leaf k o origin os t u s w y x = record {
    valid = w.valid;
    sized = omega (arith, s.sized, w.count);
    behind = tail_origin source k o origin os s.behind;
    inside = omega (arith, length-drop k origin, ap (λ xs. length xs) s.behind);
    free = w.free;
    done = λ new l. elim (Bool-cases (new == k)) [
      | inl p ↦ rw ((==_iff new k).0 p) (λ old e. inl (rw (same old e) (y, x)))
      | inr p ↦
          let other : new ≢ k = λ e. cc ((==_iff new k).1 e, p) in
          rw (append-nil origin) at (
            Done-more source t u origin [] new (omega (arith, s.inside))
              (w.others new (omega (arith, s.inside, s.sized)) other)
              (s.done new (omega (arith, l, other))))
    ];
  }
    where
      same : (old : ℕ) → get_elem? origin k ≡ some old → old ≡ o
      same old e = let h = head_origin source k o origin os s.behind in cc (h, e)

  -- The state after a test node.
  after_test :
      (k o l r : ℕ) (origin os : List ℕ) (t u : Tree)
      → State source k origin (o ∷ os) t
      → (x : source.Test o l r) → Written t k 2 (source.categories o l r x) u
      → source.TestDone u o k
      → left_child u k ≡ ok t.num_nodes
      → right_child u k ≡ ok (t.num_nodes + 1)
      → State source (suc k) (origin ++ l ∷ r ∷ []) (os ++ l ∷ r ∷ []) u
  after_test k o l r origin os t u s x w done to_left to_right =
      let room : suc k ≤ length origin =
        omega (arith, length-drop k origin, ap (λ xs. length xs) s.behind) in
      let longer = length-append origin (l ∷ r ∷ []) in
      record {
        valid = w.valid;
        sized = omega (arith, s.sized, w.count, longer);
        behind =
            drop-append_le (suc k) origin (l ∷ r ∷ []) room
            ∙ ap (λ xs. xs ++ l ∷ r ∷ []) (tail_origin source k o origin os s.behind);
        inside = omega arith;
        free = w.free;
        done = λ new less. elim (Bool-cases (new == k)) [
          | inl p ↦ rw ((==_iff new k).0 p) (λ old e. inr (rw (same old e room) linked))
          | inr p ↦
              let other : new ≢ k = λ e. cc ((==_iff new k).1 e, p) in
              Done-more source t u origin (l ∷ r ∷ []) new (omega (arith, s.inside))
                (w.others new (omega (arith, s.inside, s.sized)) other)
                (s.done new (omega (arith, less, other)))
        ];
      }
    where
      same :
          (old : ℕ)
          → get_elem? (origin ++ l ∷ r ∷ []) k ≡ some old
          → suc k ≤ length origin
          → old ≡ o
      same old e room =
          let h = head_origin source k o origin os s.behind in
          let a = get_elem?-append_lt origin (l ∷ r ∷ []) k room in cc (h, e, a)

      linked : Linked source u (origin ++ l ∷ r ∷ []) o k
      linked = record {
        exported = done;
        old_left = l;
        old_right = r;
        tested = x;
        new_left = t.num_nodes;
        new_right = t.num_nodes + 1;
        to_left = to_left;
        to_right = to_right;
        left_origin = rw (← s.sized) (get_elem?-append_length origin (r ∷ []) l);
        right_origin = rw (← s.sized) (second_pushed origin l r);
      }

  append_keeps :
      (xs ys : List ℕ) (i o : ℕ) → get_elem? xs i ≡ some o → get_elem? (xs ++ ys) i ≡ some o
  append_keeps [] ys i o h = cc
  append_keeps (x ∷ xs) ys zero o h = h
  append_keeps (x ∷ xs) ys (suc i) o h = append_keeps xs ys i o h

  -- Where the loop ends: all nodes are done.
  pub record Ended (origin : List ℕ) (u : Tree) : Type 0 where
    pub final_origin : List ℕ
    pub keeps : (i o : ℕ) → get_elem? origin i ≡ some o → get_elem? final_origin i ≡ some o
    pub state : State source (length final_origin) final_origin [] u

  inside_tree :
      (k o : ℕ) (origin os : List ℕ) (t : Tree)
      → State source k origin (o ∷ os) t
      → t.num_nodes ≡ suc k + length os
  inside_tree k o origin os t s =
      omega (arith, s.sized, length-drop k origin, ap (λ xs. length xs) s.behind)

  pub run_queue-Ended :
      (fuel k : ℕ) (origin os : List ℕ) (t : Tree) (shapes : Shapes source os)
      → State source k origin os t
      → forest_size source os shapes < fuel
      → k + forest_size source os shapes ≤ int_max
      → length t.left_categories.items + forest_categories source os shapes < 0x8000_0000_0000_0000
      → (u : Tree) × (run_queue visit fuel (numbered k os) t ≡ ok u) × Ended origin u
  unfolding forest_size forest_categories numbered shape_size shape_categories
  run_queue-Ended zero k origin os t shapes s enough small few = absurd (omega arith)
  run_queue-Ended (suc fuel) k origin [] t shapes s enough small few =
      let at_end : k ≡ length origin =
        omega (arith, s.inside, length-drop k origin, ap (λ xs. length xs) s.behind) in
      (
        t,
        unfold run_queue in refl,
        record { final_origin = origin; keeps = λ i o h. h; state = rw at_end at s },
      )
  run_queue-Ended (suc fuel) k origin (o ∷ os) t (leaf x, shapes) s enough small few =
      let here = inside_tree k o origin os t s in
      let (u, e, w, y) = source.visit_leaf t o k s.valid (omega arith) s.free x in
      let s' = after_leaf k o origin os t u s w x y in
      let (v, r, ended) =
        run_queue-Ended fuel (suc k) origin os u shapes s' (omega arith) (omega arith)
          (omega (arith, w.categories)) in
      (
        v,
        queue-visit fuel o k (numbered (suc k) os) [] t u e
            ∙ (rw (append-nil (numbered (suc k) os)) r),
        ended,
      )
  run_queue-Ended (suc fuel) k origin (o ∷ os) t (test {left} {right} x sl sr, shapes) s enough
        small few =
      let here = inside_tree k o origin os t s in
      let waiting = length-le-forest_size source os shapes in
      let pos_left = shape_size-pos source sl in
      let pos_right = shape_size-pos source sr in
      let (u, e, w, y, to_left, to_right) =
        source.visit_test t o left right k s.valid (omega arith)
          (omega (arith, waiting, pos_left, pos_right)) s.free x (omega arith) in
      let s' = after_test k o left right origin os t u s x w y to_left to_right in
      let (more, size, categories) = push-Shapes source os left right shapes sl sr in
      let (v, r, ended) =
        run_queue-Ended fuel (suc k) (origin ++ left ∷ right ∷ []) (os ++ left ∷ right ∷ []) u more
          s' (omega (arith, size)) (omega (arith, size))
          (omega (arith, categories, w.categories)) in
      let ids : t.num_nodes ≡ suc k + length os = omega arith in
      let queue : numbered (suc k) os ++ (left, t.num_nodes) ∷ (right, t.num_nodes + 1) ∷ []
          ≡ numbered (suc k) (os ++ left ∷ right ∷ []) =
        rw ids (numbered-push (suc k) left right os) in
      (
        v,
        queue-visit fuel o k (numbered (suc k) os) _ t u e ∙ (rw queue r),
        record {
          final_origin = ended.final_origin;
          keeps = λ i q h. ended.keeps i q (append_keeps origin (left ∷ right ∷ []) i q h);
          state = ended.state;
        },
      )
