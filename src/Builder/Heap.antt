-- ===== src/Builder/Heap.antt =====
-- The nodes under construction and the pointers between them.
use treelite.Prelude.{
  ℕ, zero, suc, ◌<◌, List, [], ◌∷◌, Option, none, some, ◌≡◌, ◌≢◌, refl, sym, ap, ◌∙◌, arith, ◌⊎◌,
  inl, inr, Bool-cases, ok, >>=-eq-ok, ok-injective, length, get_elem?, set, get_elem?-set,
  get_elem?-set_ne, get_elem?-set_self, ◌==◌, ==_iff,
}
use treelite.Builder.{BuilderNode, TreeState, empty_status, find_key, update, deref}

-- The node at address `a`, which has not been freed.
abbrev pub Live : List (Option BuilderNode) → ℕ → BuilderNode → Type 0
Live heap a n = get_elem? heap a ≡ some (some n)

-- `a` is a child of the node at `q`.
abbrev pub Kid : List (Option BuilderNode) → ℕ → ℕ → Type 0
Kid heap q a =
    (m : BuilderNode) × Live heap q m × ((m.left_child ≡ some a) ⊎ (m.right_child ≡ some a))

pub record Linked (s : TreeState) : Type 0 where
  -- a parent is there and knows its child
  pub parents : (a q : ℕ) (n : BuilderNode) → Live s.heap a n → n.parent ≡ some q → Kid s.heap q a
  -- the root is there and has no parent
  pub root_free :
      (r : ℕ) → s.root ≡ some r → (n : BuilderNode) × Live s.heap r n × (n.parent ≡ none)
  -- the keys stand for nodes that are there, each for its own
  pub named : (k p : ℕ) → find_key k s.nodes ≡ some p → (n : BuilderNode) × Live s.heap p n
  pub distinct : (k k' p : ℕ) → find_key k s.nodes ≡ some p → find_key k' s.nodes ≡ some p → k ≡ k'
  pub childless :
      (a : ℕ) (n : BuilderNode)
      → Live s.heap a n
      → n.status ≡ empty_status
      → (n.left_child ≡ none) × (n.right_child ≡ none)

pub Live-inside :
    (heap : List (Option BuilderNode)) (a : ℕ) (n : BuilderNode) → Live heap a n → a < length heap
Live-inside [] a n h = cc
Live-inside (x ∷ xs) zero n h = omega arith
Live-inside (x ∷ xs) (suc a) n h = omega (arith, Live-inside xs a n h)

pub Live-set :
    (heap : List (Option BuilderNode)) (p a : ℕ) (m n : BuilderNode)
    → Live (set heap p (some m)) a n
    → ((p ≡ a) × (n ≡ m)) ⊎ ((p ≢ a) × Live heap a n)
Live-set heap p a m n h = elim (get_elem?-set heap p a (some m) (some n) h) [
  | inl q ↦ let e : n ≡ m = cc in inl (q.0, e)
  | inr q ↦ inr q
]

pub deref-Live :
    (heap : List (Option BuilderNode)) (p : ℕ) (n : BuilderNode)
    → deref heap p ≡ ok n
    → Live heap p n
unfolding deref
deref-Live [] p n h = cc
deref-Live (none ∷ xs) zero n h = cc
deref-Live (some x ∷ xs) zero n h = ap (λ (x : BuilderNode). some (some x)) (ok-injective h)
deref-Live (x ∷ xs) (suc p) n h = deref-Live xs p n h

pub Live-deref :
    (heap : List (Option BuilderNode)) (p : ℕ) (n : BuilderNode)
    → Live heap p n
    → deref heap p ≡ ok n
unfolding deref
Live-deref heap p n h = rw h refl

abbrev pub with_node : TreeState → ℕ → BuilderNode → TreeState
with_node s p m = record s { heap = set s.heap p (some m) }

pub update-with_node :
    (p : ℕ) (f : BuilderNode → BuilderNode) (s s' : TreeState)
    → update p f s ≡ ok s'
    → (n : BuilderNode) × Live s.heap p n × (s' ≡ with_node s p (f n))
unfolding update
update-with_node p f s s' h =
    let (n, e, h') = >>=-eq-ok (deref s.heap p) (λ n. ok (with_node s p (f n))) h in
    (n, deref-Live s.heap p n e, sym (ok-injective h'))

-- Both children are kept, or there were none.
abbrev pub KidsKept : BuilderNode → BuilderNode → Type 0
KidsKept n m =
    ((m.left_child ≡ n.left_child) × (m.right_child ≡ n.right_child))
    ⊎ ((n.left_child ≡ none) × (n.right_child ≡ none))

pub Kid-set :
    (heap : List (Option BuilderNode)) (p q a : ℕ) (n m : BuilderNode)
    → Live heap p n
    → KidsKept n m
    → Kid heap q a
    → Kid (set heap p (some m)) q a
Kid-set heap p q a n m l kept (k, lk, side) = elim (Bool-cases (p == q)) [
  | inr e ↦ (k, get_elem?-set_ne heap p q (some m) (ground arith) ∙ lk, side)
  | inl e ↦
      let pq : p ≡ q = (==_iff p q).0 e in
      let lk' : Live heap p k = rw pq lk in
      let nk : n ≡ k = cc in
      let there : Live (set heap p (some m)) q m =
        rw (← pq) (get_elem?-set_self heap p (some m) (Live-inside heap p n l)) in
      elim kept [
        | inl c ↦ (m, there, elim side [ inl d ↦ inl cc | inr d ↦ inr cc ])
        | inr c ↦ elim side [ inl d ↦ cc | inr d ↦ cc ]
      ]
]

-- One node is written: its children stay or are its first, and its parent, if it has one, knows it.
pub set-Linked :
    (s : TreeState) (p : ℕ) (n m : BuilderNode)
    → Linked s
    → Live s.heap p n
    → KidsKept n m
    → ((q : ℕ) → m.parent ≡ some q → Kid s.heap q p)
    → (s.root ≡ some p → m.parent ≡ none)
    → (m.status ≡ empty_status → (m.left_child ≡ none) × (m.right_child ≡ none))
    → Linked (with_node s p m)
set-Linked s p n m L l kept known free bare = record {
  parents = λ a q n' la e. elim (Live-set s.heap p a m n' la) [
    | inl c ↦
        let e' : m.parent ≡ some q = rw (← c.1) e in
        rw (← c.0) (Kid-set s.heap p q p n m l kept (known q e'))
    | inr c ↦ Kid-set s.heap p q a n m l kept (L.parents a q n' c.1 e)
  ];
  root_free = λ r e. elim (Bool-cases (p == r)) [
    | inl c ↦ let pr : p ≡ r = (==_iff p r).0 c in (m, rw (← pr) here, free (e ∙ ap some (sym pr)))
    | inr c ↦
        let (n', l', e') = L.root_free r e in
        (n', get_elem?-set_ne s.heap p r (some m) (ground arith) ∙ l', e')
  ];
  named = λ k a e. elim (Bool-cases (p == a)) [
    | inl c ↦ let pa : p ≡ a = (==_iff p a).0 c in (m, rw (← pa) here)
    | inr c ↦
        let (n', l') = L.named k a e in
        (n', get_elem?-set_ne s.heap p a (some m) (ground arith) ∙ l')
  ];
  distinct = L.distinct;
  childless = λ a n' la e. elim (Live-set s.heap p a m n' la) [
    | inl c ↦ let e' : m.status ≡ empty_status = rw (← c.1) e in rw (c.1) (bare e')
    | inr c ↦ L.childless a n' c.1 e
  ];
}
  where
    here : Live (set s.heap p (some m)) p m
    here = get_elem?-set_self s.heap p (some m) (Live-inside s.heap p n l)
