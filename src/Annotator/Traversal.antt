-- ===== src/Annotator/Traversal.antt =====
-- What one traversal does to the visit counts.
use treelite.Prelude.{
  ℕ, zero, suc, ◌+◌, ◌%◌, ◌≤◌, ◌<◌, ◌≡◌, refl, sym, ap, ◌∙◌, arith, true, false, ◌⊎◌, inl, inr, ◌≢◌,
  List, ok, Option, some, length, get_elem?, get_elem?-lt, set, length-set, get_elem?-set_self,
  get_elem?-set_ne, ◌==◌, Bool-cases, ==_iff,
}
use mathlib.Core.Bool.{false≢true}
use treelite.Base.{minus_one, size_mod}
use treelite.ContiguousArray.{at}
use treelite.Tree.{Node, Tree}
use treelite.Tree.Getters.{is_leaf}
use treelite.Tree.Invariant.{IsValid}
use treelite.Annotator.{Entry, branch, count_visit, traverse_, traverse}
use treelite.Annotator.Branch.{Fits, branch-ok}

-- `++` on a `size_t`
abbrev pub bump : ℕ → ℕ
bump c = (c + 1) % size_mod

-- The counts of a tree begin at `cbase`. A traversal from `nid` raises each count at most once: that
-- of `nid`, that of one leaf, and none before `nid` or outside of the tree.
pub record Counted (t : Tree) (cbase nid : ℕ) (before after : List ℕ) : Type 0 where
  pub same_length : length after ≡ length before
  pub start :
      (c : ℕ)
      → get_elem? before (cbase + nid) ≡ some c
      → get_elem? after (cbase + nid) ≡ some (bump c)
  pub outside :
      (i : ℕ)
      → (i < cbase + nid) ⊎ (cbase + t.num_nodes ≤ i)
      → get_elem? after i ≡ get_elem? before i
  pub once :
      (i c : ℕ)
      → get_elem? before i ≡ some c
      → (get_elem? after i ≡ some c) ⊎ (get_elem? after i ≡ some (bump c))
  pub leaf : ℕ
  pub leaf_inside : leaf < t.num_nodes
  pub is_a_leaf : is_leaf t leaf ≡ ok true
  pub leaf_raised :
      (c : ℕ)
      → get_elem? before (cbase + leaf) ≡ some c
      → get_elem? after (cbase + leaf) ≡ some (bump c)
  pub other_leaves :
      (k : ℕ)
      → is_leaf t k ≡ ok true
      → k ≢ leaf
      → get_elem? after (cbase + k) ≡ get_elem? before (cbase + k)

pub count_visit-ok :
    (counts : List ℕ) (i : ℕ)
    → i < length counts
    → (c : ℕ) × (get_elem? counts i ≡ some c) × (count_visit counts i ≡ ok (set counts i (bump c)))
unfolding count_visit
count_visit-ok counts i h = let (c, e) = get_elem?-lt counts i h in (c, e, rw e refl)

pub leaf-ok :
    (t : Tree) (nid : ℕ) (node : Node)
    → get_elem? t.nodes.items nid ≡ some node
    → is_leaf t nid ≡ ok (node.cleft == minus_one)
unfolding is_leaf at
leaf-ok t nid node e = rw e refl

some-eq : {A : Type 0} {o : Option A} {x y : A} → o ≡ some x → o ≡ some y → x ≡ y
some-eq p q = cc

-- A count after a visit of `i`: raised there, and as it was elsewhere.
module _ (counts : List ℕ) (i c : ℕ) (inside : i < length counts)
    (e : get_elem? counts i ≡ some c) where
  pub visited :
      (d : ℕ) → get_elem? counts i ≡ some d → get_elem? (set counts i (bump c)) i ≡ some (bump d)
  visited d f = get_elem?-set_self counts i (bump c) inside ∙ ap (λ x. some (bump x)) (some-eq e f)

  pub not_visited : (j : ℕ) → i ≢ j → get_elem? (set counts i (bump c)) j ≡ get_elem? counts j
  not_visited j ne = get_elem?-set_ne counts i j (bump c) ne

  visited_once :
      (j d : ℕ)
      → get_elem? counts j ≡ some d
      → (get_elem? (set counts i (bump c)) j ≡ some d)
        ⊎ (get_elem? (set counts i (bump c)) j ≡ some (bump d))
  visited_once j d f = elim (Bool-cases (i == j)) [
    | inl here ↦ let h = (==_iff i j).0 here in inr (rw (← h) (visited d (rw h f)))
    | inr there ↦ inl (not_visited j (λ h. false≢true (sym there ∙ (==_iff i j).1 h)) ∙ f)
  ]

-- One visit, of a leaf.
Counted-leaf :
    (t : Tree) (cbase nid c : ℕ) (counts : List ℕ)
    → nid < t.num_nodes
    → cbase + t.num_nodes ≤ length counts
    → get_elem? counts (cbase + nid) ≡ some c
    → is_leaf t nid ≡ ok true
    → Counted t cbase nid counts (set counts (cbase + nid) (bump c))
Counted-leaf t cbase nid c counts inside room e leaf = record {
  same_length = length-set counts (cbase + nid) (bump c);
  start = visited counts (cbase + nid) c (omega arith) e;
  outside = λ i h. not_visited counts (cbase + nid) c (omega arith) e i (omega arith);
  once = visited_once counts (cbase + nid) c (omega arith) e;
  leaf = nid;
  leaf_inside = inside;
  is_a_leaf = leaf;
  leaf_raised = visited counts (cbase + nid) c (omega arith) e;
  other_leaves =
      λ k _ ne. not_visited counts (cbase + nid) c (omega arith) e (cbase + k) (omega arith);
}

leaf_elsewhere :
    (t : Tree) (nid j cbase : ℕ)
    → is_leaf t nid ≡ ok false
    → is_leaf t j ≡ ok true
    → cbase + nid ≢ cbase + j
leaf_elsewhere t nid j cbase internal leaf e =
    let same : nid ≡ j = omega arith in
    let both : ok false ≡ ok true = sym (rw same at internal) ∙ leaf in cc both

step_once :
    (t : Tree) (cbase nid next c : ℕ) (counts after : List ℕ)
    → nid < next
    → cbase + nid < length counts
    → get_elem? counts (cbase + nid) ≡ some c
    → Counted t cbase next (set counts (cbase + nid) (bump c)) after
    → (i d : ℕ) → get_elem? counts i ≡ some d
    → (get_elem? after i ≡ some d) ⊎ (get_elem? after i ≡ some (bump d))
step_once t cbase nid next c counts after later room e k i d f =
    elim (Bool-cases (cbase + nid == i)) [
      | inl here ↦
          let h = (==_iff (cbase + nid) i).0 here in
          inr (
            k.outside i (inl (omega arith))
            ∙ (rw (← h) (visited counts (cbase + nid) c room e d (rw h f))))
      | inr there ↦ k.once i d (
          not_visited counts (cbase + nid) c room e i
            (λ h. false≢true (sym there ∙ (==_iff (cbase + nid) i).1 h))
          ∙ f)
    ]

-- One visit of a test node, and then a traversal from a later node.
Counted-step :
    (t : Tree) (cbase nid next c : ℕ) (counts after : List ℕ)
    → nid < next
    → cbase + t.num_nodes ≤ length counts
    → nid < t.num_nodes
    → get_elem? counts (cbase + nid) ≡ some c
    → is_leaf t nid ≡ ok false
    → Counted t cbase next (set counts (cbase + nid) (bump c)) after
    → Counted t cbase nid counts after
Counted-step t cbase nid next c counts after later room inside e internal k =
    let elsewhere = not_visited counts (cbase + nid) c (omega arith) e in
    let not_this = λ (j : ℕ) (h : is_leaf t j ≡ ok true). leaf_elsewhere t nid j cbase internal h in
    record {
      same_length = k.same_length ∙ length-set counts (cbase + nid) (bump c);
      start = λ d f.
          k.outside (cbase + nid) (inl (omega arith))
          ∙ visited counts (cbase + nid) c (omega arith) e d f;
      outside = λ i h. k.outside i (omega arith) ∙ elsewhere i (omega arith);
      once = step_once t cbase nid next c counts after later (omega arith) e k;
      leaf = k.leaf;
      leaf_inside = k.leaf_inside;
      is_a_leaf = k.is_a_leaf;
      leaf_raised =
          λ d f. k.leaf_raised d (elsewhere (cbase + k.leaf) (not_this k.leaf k.is_a_leaf) ∙ f);
      other_leaves = λ j h ne. k.other_leaves j h ne ∙ elsewhere (cbase + j) (not_this j h);
    }

module _ (t : Tree) (entries : List Entry) (base cbase : ℕ) where
  pub run-leaf :
      (fuel nid : ℕ) (counts counts' : List ℕ)
      → count_visit counts (cbase + nid) ≡ ok counts'
      → is_leaf t nid ≡ ok true
      → traverse_ (suc fuel) t entries base cbase nid counts ≡ ok counts'
  unfolding traverse_
  run-leaf fuel nid counts counts' c l = simp (c, l)

  pub run-step :
      (fuel nid next : ℕ) (counts counts' after : List ℕ)
      → count_visit counts (cbase + nid) ≡ ok counts'
      → is_leaf t nid ≡ ok false
      → branch t entries base nid ≡ ok next
      → traverse_ fuel t entries base cbase next counts' ≡ ok after
      → traverse_ (suc fuel) t entries base cbase nid counts ≡ ok after
  unfolding traverse_
  run-step fuel nid next counts counts' after c l b r = rw (c, l, b) r

module _ (t : Tree) (entries : List Entry) (base cbase : ℕ) (v : IsValid t)
    (fits : Fits t entries base) where
  -- The child in which the traversal goes on comes later.
  later_child :
      (nid : ℕ) (node : Node)
      → get_elem? t.nodes.items nid ≡ some node
      → node.cleft ≢ minus_one
      → nid < t.num_nodes
      → (next : ℕ) × (branch t entries base nid ≡ ok next) × (nid < next) × (next < t.num_nodes)
  later_child nid node e internal inside =
      let (next, b, which) = branch-ok t entries base nid node v fits e internal inside in
      let bounds = v.children nid node e in (next, b, ground arith, ground arith)

  -- With fuel for the nodes that may follow, the traversal ends.
  traverse_-Counted :
      (fuel nid : ℕ) (counts : List ℕ)
      → nid < t.num_nodes
      → t.num_nodes ≤ nid + fuel
      → cbase + t.num_nodes ≤ length counts
      → (after : List ℕ) × (traverse_ (suc fuel) t entries base cbase nid counts ≡ ok after)
        × Counted t cbase nid counts after
  traverse_-Counted zero nid counts inside enough room = absurd (omega arith)
  traverse_-Counted (suc fuel) nid counts inside enough room =
      let (node, e) = get_elem?-lt t.nodes.items nid (omega (arith, v.counted)) in
      let (c, ec, visit) = count_visit-ok counts (cbase + nid) (omega arith) in
      let counts' = set counts (cbase + nid) (bump c) in
      elim (Bool-cases (node.cleft == minus_one)) [
        | inl leaf ↦
            let l = leaf-ok t nid node e ∙ ap ok leaf in
            (
              counts',
              run-leaf t entries base cbase (suc fuel) nid counts counts' visit l,
              Counted-leaf t cbase nid c counts inside room ec l,
            )
        | inr test ↦
            let l = leaf-ok t nid node e ∙ ap ok test in
            let (next, b, lt, lt') =
              later_child nid node e
                (λ h. false≢true (sym test ∙ (==_iff node.cleft minus_one).1 h)) inside in
            let (after, r, k) =
              traverse_-Counted fuel next counts' lt' (omega arith)
                (omega (arith, length-set counts (cbase + nid) (bump c))) in
            (
              after,
              run-step t entries base cbase (suc fuel) nid next counts counts' after visit l b r,
              Counted-step t cbase nid next c counts after lt room inside ec l k,
            )
      ]

  -- A traversal of a valid tree by a row that fits it, with room for the counts, ends without a fault,
  -- and counts the root and one leaf once each, every other node at most once, no other leaf and
  -- nothing outside of the part of the tree.
  pub traverse-Counted :
      (counts : List ℕ)
      → cbase + t.num_nodes ≤ length counts
      → (after : List ℕ) × (traverse t entries base cbase counts ≡ ok after)
        × Counted t cbase 0 counts after
  unfolding traverse
  traverse-Counted counts room =
      traverse_-Counted t.num_nodes 0 counts v.positive (omega arith) room
