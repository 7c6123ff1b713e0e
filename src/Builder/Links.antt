-- ===== src/Builder/Links.antt =====
-- The methods that add nodes, set the root, the tests and the leaves keep the pointers consistent.
use treelite.Prelude.{
  ℕ, Bool, true, false, not, ◌&&◌, Option, none, some, String, ◌≡◌, ◌≢◌, refl, sym, ap, ◌∙◌, arith,
  inl, inr, &&-split, ok, Error, check_failed, ◌>>=◌, ◌>>◌, guard, >>=-eq-ok, ok-injective,
  get_elem?-set_self,
}
use treelite.Builder.{
  BuilderNode, TreeState, Status, empty_status, numerical_test, categorical_test, leaf_status,
  node_at, update, deref, is_null, is_empty, same_pointer, set_root_node, set_test_node,
  link_checked, link, may_link, set_leaf_of,
}
use treelite.Builder.Heap.{
  Live, Kid, Linked, Live-inside, deref-Live, with_node, update-with_node, set-Linked, Kid-set,
}

guard-true : (b : Bool) (e : Error) (u : Unit {0}) → guard b e ≡ ok u → b ≡ true
guard-true true e u h = refl
guard-true false e u h = cc

not-true : (b : Bool) → not b ≡ true → b ≡ false
not-true b h = ground arith

is_null-none : (o : Option ℕ) → is_null o ≡ true → o ≡ none
is_null-none none h = refl
is_null-none (some x) h = cc

is_empty-empty : (x : Status) → is_empty x ≡ true → x ≡ empty_status
unfolding is_empty
is_empty-empty empty_status h = refl
is_empty-empty numerical_test h = cc
is_empty-empty categorical_test h = cc
is_empty-empty leaf_status h = cc

pub same_pointer-ne : (o : Option ℕ) (p : ℕ) → same_pointer o p ≡ false → o ≢ some p
unfolding same_pointer
same_pointer-ne none p h e = cc
same_pointer-ne (some q) p h e = let same : q ≡ p = cc in ground arith

-- What a test or an output writes into a node.
pub record Fills (fill : BuilderNode → BuilderNode) : Type 0 where
  pub keeps_parent : (n : BuilderNode) → (fill n).parent ≡ n.parent
  pub keeps_left : (n : BuilderNode) → (fill n).left_child ≡ n.left_child
  pub keeps_right : (n : BuilderNode) → (fill n).right_child ≡ n.right_child
  pub not_empty : (n : BuilderNode) → (fill n).status ≢ empty_status

-- A parent that was there stays the parent.
old_parent :
    (s : TreeState) (p : ℕ) (n : BuilderNode) (o : Option ℕ)
    → Linked s
    → Live s.heap p n
    → o ≡ n.parent
    → (q : ℕ) → o ≡ some q
    → Kid s.heap q p
old_parent s p n o L l e q h = L.parents p q n l (sym e ∙ h)

root_parent :
    (s : TreeState) (p : ℕ) (n : BuilderNode)
    → Linked s
    → Live s.heap p n
    → s.root ≡ some p
    → n.parent ≡ none
root_parent s p n L l e =
    let (n', l', f) = L.root_free p e in let same : n' ≡ n = cc in rw (← same) f

-- The first step of a link: the node gets its children.
fill-Linked :
    (s : TreeState) (p l r : ℕ) (n : BuilderNode) (fill : BuilderNode → BuilderNode)
    → Fills fill
    → Linked s
    → Live s.heap p n
    → n.status ≡ empty_status
    → Linked (with_node s p (fill (record n { left_child = some l; right_child = some r })))
fill-Linked s p l r n fill F L live e =
    let n' = record n { left_child = some l; right_child = some r } in
    set-Linked s p n (fill n') L live (inr (L.childless p n live e))
      (old_parent s p n (fill n').parent L live (F.keeps_parent n'))
      (λ root. F.keeps_parent n' ∙ root_parent s p n L live root)
      (λ bad. absurd (F.not_empty n' bad))

-- The other steps: a node that is not the root gets a parent that has it as a child.
adopt-Linked :
    (s : TreeState) (p a : ℕ) (n : BuilderNode)
    → Linked s
    → Live s.heap a n
    → Kid s.heap p a
    → s.root ≢ some a
    → Linked (with_node s a (record n { parent = some p }))
adopt-Linked s p a n L live kid ne =
    set-Linked s a n (record n { parent = some p }) L live (inl (refl, refl))
      (λ q e. let same : p ≡ q = cc in rw (← same) kid) (λ root. absurd (ne root))
      (L.childless a n live)

link-Linked :
    (s s' : TreeState) (p l r : ℕ) (n : BuilderNode) (fill : BuilderNode → BuilderNode)
    → Fills fill
    → Linked s
    → Live s.heap p n
    → n.status ≡ empty_status
    → s.root ≢ some l
    → s.root ≢ some r
    → link p l r fill s ≡ ok s'
    → Linked s'
unfolding link
link-Linked s s' p l r n fill F L live empty root_l root_r h =
    let write =
      λ (n : BuilderNode). fill (record n { left_child = some l; right_child = some r }) in
    let adopt = λ (n : BuilderNode). record n { parent = some p } in
    let (s₁, h₁, t₁) =
      >>=-eq-ok (update p write s) (λ s₁. update l adopt s₁ >>= update r adopt) h in
    let (s₂, h₂, h₃) = >>=-eq-ok (update l adopt s₁) (update r adopt) t₁ in
    let (n₁, live₁, e₁) = update-with_node p write s s₁ h₁ in
    let (n₂, live₂, e₂) = update-with_node l adopt s₁ s₂ h₂ in
    let (n₃, live₃, e₃) = update-with_node r adopt s₂ s' h₃ in
    let same : n₁ ≡ n = cc in
    let x = with_node s p (write n₁) in
    let here : Live x.heap p (write n₁) =
      get_elem?-set_self s.heap p (some (write n₁)) (Live-inside s.heap p n live) in
    let L₁ : Linked x = rw same (fill-Linked s p l r n fill F L live empty) in
    let live₂' : Live x.heap l n₂ = rw e₁ at live₂ in
    let left_kid : Kid x.heap p l = (
      write n₁,
      here,
      inl (F.keeps_left (record n₁ { left_child = some l; right_child = some r })),
    ) in
    let right_kid : Kid x.heap p r = (
      write n₁,
      here,
      inr (F.keeps_right (record n₁ { left_child = some l; right_child = some r })),
    ) in
    let y = with_node x l (adopt n₂) in
    let L₂ : Linked y = adopt-Linked x p l n₂ L₁ live₂' left_kid root_l in
    let yes_y : s₂ ≡ y = e₂ ∙ ap (λ s. with_node s l (adopt n₂)) e₁ in
    let live₃' : Live y.heap r n₃ = rw yes_y at live₃ in
    let kid : Kid y.heap p r =
      Kid-set x.heap l p r n₂ (adopt n₂) live₂' (inl (refl, refl)) right_kid in
    rw (e₃, yes_y) (adopt-Linked y p r n₃ L₂ live₃' kid root_r)

link_checked-Linked :
    (method : String) (s s' : TreeState) (p l r : ℕ) (fill : BuilderNode → BuilderNode)
    → Fills fill
    → Linked s
    → link_checked method p l r fill s ≡ ok s'
    → Linked s'
unfolding link_checked may_link
link_checked-Linked method s s' p l r fill F L h =
    let last = λ (n a b : BuilderNode).
      guard (may_link s n a b l r) (check_failed method) >> link p l r fill s in
    let (n, e₁, h₁) =
      >>=-eq-ok (deref s.heap p) (λ n. deref s.heap l >>= λ a. deref s.heap r >>= last n a) h in
    let (a, _, h₂) = >>=-eq-ok (deref s.heap l) (λ a. deref s.heap r >>= last n a) h₁ in
    let (b, _, h₃) = >>=-eq-ok (deref s.heap r) (last n a) h₂ in
    let (u, g, h₄) =
      >>=-eq-ok (guard (may_link s n a b l r) (check_failed method)) (λ _. link p l r fill s) h₃ in
    let test = guard-true (may_link s n a b l r) (check_failed method) u g in
    let roots = not (same_pointer s.root l) && not (same_pointer s.root r) in
    let (empty, t₁) =
      &&-split (is_empty n.status) (is_null a.parent && (is_null b.parent && roots)) test in
    let (_, t₂) = &&-split (is_null a.parent) (is_null b.parent && roots) t₁ in
    let (_, t₃) = &&-split (is_null b.parent) roots t₂ in
    let (rl, rr) = &&-split (not (same_pointer s.root l)) (not (same_pointer s.root r)) t₃ in
    link-Linked s s' p l r n fill F L (deref-Live s.heap p n e₁) (is_empty-empty n.status empty)
      (same_pointer-ne s.root l (not-true (same_pointer s.root l) rl))
      (same_pointer-ne s.root r (not-true (same_pointer s.root r) rr)) h₄

pub set_test_node-Linked :
    (method : String) (s s' : TreeState) (k kl kr : ℕ) (fill : BuilderNode → BuilderNode)
    → Fills fill
    → Linked s
    → set_test_node method k kl kr fill s ≡ ok s'
    → Linked s'
unfolding set_test_node
set_test_node-Linked method s s' k kl kr fill F L h =
    let (p, _, h₁) =
      >>=-eq-ok (node_at method k s)
        (λ p. node_at method kl s >>= λ l.
          node_at method kr s >>= λ r. link_checked method p l r fill s)
        h in
    let (l, _, h₂) =
      >>=-eq-ok (node_at method kl s)
        (λ l. node_at method kr s >>= λ r. link_checked method p l r fill s) h₁ in
    let (r, _, h₃) = >>=-eq-ok (node_at method kr s) (λ r. link_checked method p l r fill s) h₂ in
    link_checked-Linked method s s' p l r fill F L h₃

pub set_leaf_of-Linked :
    (method : String) (s s' : TreeState) (k : ℕ) (fill : BuilderNode → BuilderNode)
    → Fills fill
    → Linked s
    → set_leaf_of method k fill s ≡ ok s'
    → Linked s'
unfolding set_leaf_of
set_leaf_of-Linked method s s' k fill F L h =
    let (p, _, h₁) =
      >>=-eq-ok (node_at method k s)
        (λ p. deref s.heap p >>= λ n.
          guard (is_empty n.status) (check_failed method) >> update p fill s)
        h in
    let (n, e, h₂) =
      >>=-eq-ok (deref s.heap p)
        (λ n. guard (is_empty n.status) (check_failed method) >> update p fill s) h₁ in
    let (u, g, h₃) =
      >>=-eq-ok (guard (is_empty n.status) (check_failed method)) (λ _. update p fill s) h₂ in
    let (m, live, same) = update-with_node p fill s s' h₃ in
    rw same (
      set-Linked s p m (fill m) L live (inl (F.keeps_left m, F.keeps_right m))
        (old_parent s p m (fill m).parent L live (F.keeps_parent m))
        (λ root. F.keeps_parent m ∙ root_parent s p m L live root)
        (λ bad. absurd (F.not_empty m bad)))

pub set_root_node-Linked :
    (s s' : TreeState) (k : ℕ) → Linked s → set_root_node k s ≡ ok s' → Linked s'
unfolding set_root_node
set_root_node-Linked s s' k L h =
    let (p, _, h₁) =
      >>=-eq-ok (node_at "SetRootNode" k s)
        (λ p. deref s.heap p >>= λ n.
          guard (is_null n.parent) (check_failed "SetRootNode") >> ok (record s { root = some p }))
        h in
    let (n, e, h₂) =
      >>=-eq-ok (deref s.heap p)
        (λ n.
          guard (is_null n.parent) (check_failed "SetRootNode") >> ok (record s { root = some p }))
        h₁ in
    let (u, g, h₃) =
      >>=-eq-ok (guard (is_null n.parent) (check_failed "SetRootNode"))
        (λ _. ok (record s { root = some p })) h₂ in
    let null =
      is_null-none n.parent (guard-true (is_null n.parent) (check_failed "SetRootNode") u g) in
    let L' : Linked (record s { root = some p }) = record {
      parents = L.parents;
      root_free = λ r e'. let same : p ≡ r = cc in (n, rw (← same) (deref-Live s.heap p n e), null);
      named = L.named;
      distinct = L.distinct;
      childless = L.childless;
    } in
    rw (← ok-injective h₃) L'
