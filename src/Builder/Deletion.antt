-- ===== src/Builder/Deletion.antt =====
-- `DeleteNode`: the children lose their parent, the parent keeps a pointer to the freed node.
use treelite.Prelude.{
  ℕ, false, List, [], ◌∷◌, Option, none, some, String, ◌≡◌, ◌≢◌, refl, sym, ap, ◌∙◌, arith, ◌⊎◌,
  inl, inr, Bool-cases, Option-cases, ok, err, check_failed, ◌>>=◌, >>=-eq-ok, ok-injective, set,
  get_elem?-set, get_elem?-set_ne, ◌==◌, ==_iff,
}
use treelite.Builder.{
  BuilderNode, TreeState, find_key, erase_key, node_at, deref, same_pointer, orphan, delete_node,
  drop_root, detach, erase_node,
}
use treelite.Builder.Links.{same_pointer-ne}
use treelite.Builder.Heap.{Live, Linked, Live-set, deref-Live, update-with_node, set-Linked}

-- What `orphan` does to all nodes.
record Orphaned (o : Option ℕ) (s s' : TreeState) : Type 0 where
  linked : Linked s'
  same_root : s'.root ≡ s.root
  same_nodes : s'.nodes ≡ s.nodes
  gone : (a : ℕ) (n : BuilderNode) → o ≡ some a → Live s'.heap a n → n.parent ≡ none
  older :
      (a : ℕ) (n : BuilderNode)
      → Live s'.heap a n
      → (m : BuilderNode) × Live s.heap a m
        × ((n.left_child ≡ m.left_child) × (n.right_child ≡ m.right_child))
        × ((n.parent ≡ m.parent) ⊎ (n.parent ≡ none))

orphan-Orphaned :
    (o : Option ℕ) (s s' : TreeState) → Linked s → orphan o s ≡ ok s' → Orphaned o s s'
unfolding orphan
orphan-Orphaned none s s' L h = rw (← ok-injective h) (record {
  linked = L;
  same_root = refl;
  same_nodes = refl;
  gone = λ a n e l. cc;
  older = λ a n l. (n, l, (refl, refl), inl refl);
})
orphan-Orphaned (some c) s s' L h =
    let free = λ (n : BuilderNode). record n { parent = none } in
    let (m, l, e) = update-with_node c free s s' h in
    rw e (record {
      linked =
          set-Linked s c m (free m) L l (inl (refl, refl)) (λ q e. cc) (λ r. refl)
            (L.childless c m l);
      same_root = refl;
      same_nodes = refl;
      gone = λ a n e la. elim (Live-set s.heap c a (free m) n la) [
        | inl q ↦ rw (q.1) refl
        | inr q ↦ let ca : c ≡ a = cc in absurd (q.0 ca)
      ];
      older = λ a n la. elim (Live-set s.heap c a (free m) n la) [
        | inl q ↦ (
          m,
          rw (← q.0) l,
          (ap (λ (n : BuilderNode). n.left_child) q.1, ap (λ (n : BuilderNode). n.right_child) q.1),
          inr (ap (λ (n : BuilderNode). n.parent) q.1),
        )
        | inr q ↦ (n, q.1, (refl, refl), inl refl)
      ];
    })

find_key-erase_key :
    (k k' p : ℕ) (xs : List (ℕ × ℕ))
    → find_key k' (erase_key k xs) ≡ some p
    → (k ≢ k') × (find_key k' xs ≡ some p)
unfolding find_key erase_key
find_key-erase_key k k' p [] h = cc
find_key-erase_key k k' p (x ∷ xs) h = elim (Bool-cases (x.0 == k)) [
  | inl e ↦
      let h' : find_key k' (erase_key k xs) ≡ some p = rw e at h in
      let (ne, f) = find_key-erase_key k k' p xs h' in
      let other : (x.0 == k') ≡ false = ground arith in (ne, rw other f)
  | inr e ↦ elim (Bool-cases (x.0 == k')) [
    | inl e' ↦
        let h' : some x.1 ≡ some p = rw (e, e') at h in
        let x_k' : x.0 ≡ k' = (==_iff x.0 k').0 e' in (λ (kk : k ≡ k'). ground arith, rw e' h')
    | inr e' ↦
        let h' : find_key k' (erase_key k xs) ≡ some p = rw (e, e') at h in
        let (ne, f) = find_key-erase_key k k' p xs h' in (ne, rw e' f)
  ]
]

Live-freed :
    (heap : List (Option BuilderNode)) (p a : ℕ) (n : BuilderNode)
    → Live (set heap p none) a n
    → (p ≢ a) × Live heap a n
Live-freed heap p a n h = elim (get_elem?-set heap p a none (some n) h) [ inl q ↦ cc | inr q ↦ q ]

-- A node that is nobody's parent and not the root can be freed.
free-Linked :
    (s : TreeState) (k p : ℕ)
    → Linked s
    → find_key k s.nodes ≡ some p
    → s.root ≢ some p
    → ((a : ℕ) (n : BuilderNode) → Live s.heap a n → n.parent ≢ some p)
    → Linked (record s { nodes = erase_key k s.nodes; heap = set s.heap p none })
free-Linked s k p L named_k ne nobody = record {
  parents = λ a q n la e.
      let (pa, la') = Live-freed s.heap p a n la in
      let (m, lm, side) = L.parents a q n la' e in
      let pq : p ≢ q = λ (e' : p ≡ q). nobody a n la' (e ∙ ap some (sym e')) in
      (m, get_elem?-set_ne s.heap p q none pq ∙ lm, side);
  root_free = λ r e.
      let (n, l, f) = L.root_free r e in
      let pr : p ≢ r = λ (e' : p ≡ r). ne (e ∙ ap some (sym e')) in
      (n, get_elem?-set_ne s.heap p r none pr ∙ l, f);
  named = λ k' a e.
      let (kk, f) = find_key-erase_key k k' a s.nodes e in
      let (n, l) = L.named k' a f in
      let pa : p ≢ a = λ (e' : p ≡ a). kk (L.distinct k k' a (named_k ∙ ap some e') f) in
      (n, get_elem?-set_ne s.heap p a none pa ∙ l);
  distinct = λ k₁ k₂ a e f.
      L.distinct k₁ k₂ a (find_key-erase_key k k₁ a s.nodes e).1
        (find_key-erase_key k k₂ a s.nodes f).1;
  childless = λ a n la. L.childless a n (Live-freed s.heap p a n la).1;
}

node_at-find_key :
    (method : String) (k p : ℕ) (s : TreeState)
    → node_at method k s ≡ ok p
    → find_key k s.nodes ≡ some p
unfolding node_at
node_at-find_key method k p s h = elim (Option-cases (find_key k s.nodes)) [
  | inl e ↦ let bad : err (check_failed method) ≡ ok p = rw (node_at, e) at h in cc
  | inr (q, e) ↦ let same : ok q ≡ ok p = rw (node_at, e) at h in e ∙ ap some (ok-injective same)
]

drop_root-Linked :
    (s : TreeState) (p : ℕ)
    → Linked s
    → Linked (drop_root p s)
      × (same_pointer (drop_root p s).root p ≡ false)
      × ((drop_root p s).nodes ≡ s.nodes)
unfolding drop_root same_pointer
drop_root-Linked s p L = elim (Bool-cases (same_pointer s.root p)) [
  | inl e ↦ rw e (
    record {
      parents = L.parents;
      root_free = λ r e. cc;
      named = L.named;
      distinct = L.distinct;
      childless = L.childless;
    },
    unset,
    refl,
  )
  | inr e ↦ rw e (L, e, refl)
]
  where
    unset : same_pointer none p ≡ false
    unset = refl

-- The node that is to be freed has no more children that point to it.
detach-Linked :
    (s s' : TreeState) (p : ℕ)
    → Linked s
    → detach p s ≡ ok s'
    → Linked s'
      × (s'.root ≡ s.root)
      × (s'.nodes ≡ s.nodes)
      × ((a : ℕ) (n : BuilderNode) → Live s'.heap a n → n.parent ≢ some p)
unfolding detach
detach-Linked s s' p L h =
    let (n, e₁, h₁) =
      >>=-eq-ok (deref s.heap p)
        (λ n. orphan n.left_child s >>= λ s₁. deref s₁.heap p >>= λ n₁. orphan n₁.right_child s₁)
        h in
    let (s₁, o₁, h₂) =
      >>=-eq-ok (orphan n.left_child s) (λ s₁. deref s₁.heap p >>= λ n₁. orphan n₁.right_child s₁)
        h₁ in
    let (n₁, e₂, o₂) = >>=-eq-ok (deref s₁.heap p) (λ n₁. orphan n₁.right_child s₁) h₂ in
    let O₁ = orphan-Orphaned n.left_child s s₁ L o₁ in
    let O₂ = orphan-Orphaned n₁.right_child s₁ s' O₁.linked o₂ in
    (
      O₂.linked,
      O₂.same_root ∙ O₁.same_root,
      O₂.same_nodes ∙ O₁.same_nodes,
      nobody s₁ n n₁ O₁ O₂ (deref-Live s.heap p n e₁) (deref-Live s₁.heap p n₁ e₂),
    )
  where
    nobody :
        (s₁ : TreeState) (n n₁ : BuilderNode)
        → Orphaned n.left_child s s₁
        → Orphaned n₁.right_child s₁ s'
        → Live s.heap p n
        → Live s₁.heap p n₁
        → (a : ℕ) (x : BuilderNode) → Live s'.heap a x
        → x.parent ≢ some p
    nobody s₁ n n₁ O₁ O₂ l l₁ a x la bad =
        let (x₁, la₁, _, pp) = O₂.older a x la in
        let (m, lm, side) = O₂.linked.parents a p x la bad in
        let (m₁, lm₁, kids, _) = O₂.older p m lm in
        let (m₀, lm₀, kids₀, _) = O₁.older p m₁ lm₁ in
        let is_n₁ : m₁ ≡ n₁ = cc in
        let is_n : m₀ ≡ n = cc in
        elim side [
          | inr r ↦
              let right : n₁.right_child ≡ some a =
                ap (λ (n : BuilderNode). n.right_child) (sym is_n₁) ∙ sym kids.1 ∙ r in
              let lost = O₂.gone a x right la in cc
          | inl r ↦
              let left : n.left_child ≡ some a =
                ap (λ (n : BuilderNode). n.left_child) (sym is_n) ∙ sym kids₀.0 ∙ sym kids.0 ∙ r in
              let lost = O₁.gone a x₁ left la₁ in elim pp [ inl q ↦ cc | inr q ↦ cc ]
        ]

pub delete_node-Linked : (s s' : TreeState) (k : ℕ) → Linked s → delete_node k s ≡ ok s' → Linked s'
unfolding delete_node erase_node
delete_node-Linked s s' k L h =
    let (p, e, h₁) =
      >>=-eq-ok (node_at "DeleteNode" k s)
        (λ p. detach p (drop_root p s) >>= λ t. ok (erase_node k p t)) h in
    let (t, d, h₂) = >>=-eq-ok (detach p (drop_root p s)) (λ t. ok (erase_node k p t)) h₁ in
    let (L₁, off, nodes₁) = drop_root-Linked s p L in
    let (L₂, root₂, nodes₂, nobody) = detach-Linked (drop_root p s) t p L₁ d in
    let off₂ : same_pointer t.root p ≡ false = ap (λ r. same_pointer r p) root₂ ∙ off in
    let there : find_key k t.nodes ≡ some p =
      ap (find_key k) (nodes₂ ∙ nodes₁) ∙ node_at-find_key "DeleteNode" k p s e in
    let kept : record t { nodes = erase_key k t.nodes; heap = set t.heap p none } ≡ s' =
      sym (rw off₂ refl) ∙ ok-injective h₂ in
    rw (← kept) (free-Linked t k p L₂ there (same_pointer-ne t.root p off₂) nobody)
