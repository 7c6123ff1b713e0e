-- ===== src/Annotator/Forest.antt =====
-- The loop over the trees, for one row: every tree counts in a part of the array of its own.
use treelite.Prelude.{
  ℕ, ◌+◌, ◌%◌, ◌≤◌, ◌<◌, ◌≡◌, refl, ◌∙◌, arith, ◌⊎◌, inl, inr, List, [], ◌∷◌, ok, some, length,
  get_elem?, ltb, ltb→lt, Bool-cases,
}
use treelite.Base.{size_mod}
use treelite.Tree.{Tree}
use treelite.Tree.Invariant.{IsValid}
use treelite.Annotator.{Entry, traverse, traverse_all, count_row_ptr}
use treelite.Annotator.Branch.{Fits}
use treelite.Annotator.Traversal.{Counted, bump, traverse-Counted}

-- The nodes of all trees.
unfoldable pub node_sum : List Tree → ℕ
node_sum [] = 0
node_sum (t ∷ ts) = t.num_nodes + node_sum ts

-- All trees are valid and fit the row.
unfoldable pub AllFit : List Tree → List Entry → ℕ → Type 0
AllFit [] inst off = Unit
AllFit (t ∷ ts) inst off = IsValid t × Fits t inst off × AllFit ts inst off

-- The count of every root is raised once, where the first tree begins at `first`.
pub RootsRaised : List Tree → ℕ → List ℕ → List ℕ → Type 0
RootsRaised [] first before after = Unit
RootsRaised (t ∷ ts) first before after =
    ((c : ℕ) → get_elem? before first ≡ some c → get_elem? after first ≡ some (bump c))
    × RootsRaised ts (first + t.num_nodes) before after

-- The trees raise counts from `first` on, each at most once, and those of the roots.
pub record Visited (ts : List Tree) (first : ℕ) (before after : List ℕ) : Type 0 where
  pub same_length : length after ≡ length before
  pub outside :
      (i : ℕ) → (i < first) ⊎ (first + node_sum ts ≤ i) → get_elem? after i ≡ get_elem? before i
  pub once :
      (i c : ℕ)
      → get_elem? before i ≡ some c
      → (get_elem? after i ≡ some c) ⊎ (get_elem? after i ≡ some (bump c))
  pub roots : RootsRaised ts first before after

RootsRaised-from :
    (ts : List Tree) (first : ℕ) (before mid after : List ℕ)
    → ((i : ℕ) → first ≤ i → get_elem? mid i ≡ get_elem? before i)
    → RootsRaised ts first mid after
    → RootsRaised ts first before after
unfolding RootsRaised
RootsRaised-from [] first before mid after same r = tt
RootsRaised-from (t ∷ ts) first before mid after same r = (
  λ c e. r.0 c (same first (omega arith) ∙ e),
  RootsRaised-from ts (first + t.num_nodes) before mid after (λ i l. same i (omega arith)) r.1,
)

Visited-none : (first : ℕ) (counts : List ℕ) → Visited [] first counts counts
unfolding RootsRaised
Visited-none first counts = record {
  same_length = refl;
  outside = λ i _. refl;
  once = λ i c e. inl e;
  roots = tt;
}

-- One tree, and then the others behind it.
Visited-more :
    (t : Tree) (ts : List Tree) (first : ℕ) (before mid after : List ℕ)
    → 0 < t.num_nodes
    → Counted t first 0 before mid
    → Visited ts (first + t.num_nodes) mid after
    → Visited (t ∷ ts) first before after
unfolding RootsRaised node_sum
Visited-more t ts first before mid after pos k v =
    let at_root : first + 0 ≡ first = omega arith in
    record {
      same_length = v.same_length ∙ k.same_length;
      outside = λ i h. v.outside i (omega arith) ∙ k.outside i (omega arith);
      once = λ i c e. elim (Bool-cases (ltb i (first + t.num_nodes))) [
        | inl p ↦
            let same = v.outside i (inl (ltb→lt i (first + t.num_nodes) p)) in
            elim (k.once i c e) [ inl q ↦ inl (same ∙ q) | inr q ↦ inr (same ∙ q) ]
        | inr p ↦ v.once i c (k.outside i (inr (ground arith)) ∙ e)
      ];
      roots = (
        λ c e. v.outside first (inl (omega arith)) ∙ (rw at_root at k.start) c e,
        RootsRaised-from ts (first + t.num_nodes) before mid after (λ i l. k.outside i (inr l))
            v.roots,
      );
    }

module _ (inst : List Entry) (off off2 : ℕ) where
  traverse_all-cons :
      (t : Tree) (ts : List Tree) (sum next : ℕ) (counts mid after : List ℕ)
      → (sum + t.num_nodes) % size_mod ≡ next
      → traverse t inst off (off2 + sum) counts ≡ ok mid
      → traverse_all ts (count_row_ptr next ts) inst off off2 mid ≡ ok after
      → traverse_all (t ∷ ts) (count_row_ptr sum (t ∷ ts)) inst off off2 counts ≡ ok after
  unfolding traverse_all count_row_ptr
  traverse_all-cons t ts sum next counts mid after n r r' = rw (r, n) r'

  traverse_all-from :
      (ts : List Tree) (sum : ℕ) (counts : List ℕ)
      → AllFit ts inst off
      → sum + node_sum ts < size_mod
      → off2 + (sum + node_sum ts) ≤ length counts
      → (after : List ℕ) × (traverse_all ts (count_row_ptr sum ts) inst off off2 counts ≡ ok after)
        × Visited ts (off2 + sum) counts after
  unfolding traverse_all count_row_ptr AllFit node_sum
  traverse_all-from [] sum counts fit small room = (counts, refl, Visited-none (off2 + sum) counts)
  traverse_all-from (t ∷ ts) sum counts (v, fits, fit) small room =
      let (mid, r, k) = traverse-Counted t inst off (off2 + sum) v fits counts (omega arith) in
      let no_wrap : (sum + t.num_nodes) % size_mod ≡ sum + t.num_nodes = omega arith in
      let (after, r', w) =
        traverse_all-from ts (sum + t.num_nodes) mid fit (omega arith)
          (omega (arith, k.same_length)) in
      let behind : off2 + (sum + t.num_nodes) ≡ off2 + sum + t.num_nodes = omega arith in
      (
        after,
        traverse_all-cons t ts sum (sum + t.num_nodes) counts mid after no_wrap r r',
        Visited-more t ts (off2 + sum) counts mid after v.positive k (rw behind at w),
      )

  -- For a row that fits all trees, valid ones with fewer than 2 ^ 64 nodes in all, with room for
  -- the counts of all nodes, the loop over the trees ends without a fault; it raises each count of
  -- its part once at most, that of each root once, and no count outside of its part.
  pub traverse_all-Visited :
      (ts : List Tree) (counts : List ℕ)
      → AllFit ts inst off
      → node_sum ts < size_mod
      → off2 + node_sum ts ≤ length counts
      → (after : List ℕ) × (traverse_all ts (count_row_ptr 0 ts) inst off off2 counts ≡ ok after)
        × Visited ts off2 counts after
  traverse_all-Visited ts counts fit small room =
      let (after, r, v) = traverse_all-from ts 0 counts fit (omega arith) (omega arith) in
      let at_start : off2 + 0 ≡ off2 = omega arith in (after, r, rw at_start at v)
