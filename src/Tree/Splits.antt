-- ===== src/Tree/Splits.antt =====
-- The setters of splits and leaves: they keep the invariant, the getters read back what was set,
-- and the other nodes keep what they had.
use treelite.Prelude.{
  ℕ, ◌<◌, ◌≡◌, refl, sym, ap, arith, Bool, true, false, ◌≢◌, ok, lt→ltb, get_elem?-set_self,
  get_elem?-set_ne,
}
use treelite.Base.{TlFloat, Operator, numerical}
use treelite.ContiguousArray.{at}
use treelite.Tree.{Node, Tree}
use treelite.Tree.Getters.{
  pack_sindex, split_index_of, default_left_of, left_child, right_child, split_index, default_left,
  threshold, comparison_op, split_type,
}
use treelite.Tree.Setters.{set_numerical_split, split_index_limit}
use treelite.Tree.Invariant.{IsValid, with_node, modify_node-with_node, with_node-IsValid}

-- The feature index and the default direction share one word, and come apart again.
pub pack_sindex-split :
    (s : ℕ) (d : Bool)
    → s < split_index_limit
    → (split_index_of (pack_sindex s d) ≡ s) × (default_left_of (pack_sindex s d) ≡ d)
pack_sindex-split s true h = (ground arith, ground arith)
pack_sindex-split s false h = (ground arith, ground arith)

-- A setter that changes one node leaves the others alone.
abbrev pub OthersKept : Tree → ℕ → Tree → Type 0
OthersKept t nid u = (i : ℕ) → i ≢ nid → at u.nodes i ≡ at t.nodes i

pub with_node-OthersKept :
    (t : Tree) (nid : ℕ) (node : Node) → OthersKept t nid (with_node t nid node)
unfolding at
with_node-OthersKept t nid node i ne =
    rw (get_elem?-set_ne t.nodes.items nid i node (λ e. ne (sym e))) refl

-- What the getters say after `SetNumericalSplit`.
pub record NumericalSplit (t : Tree) (nid s : ℕ) (th : TlFloat) (d : Bool) (op : Operator)
    (u : Tree) : Type 0 where
  pub feature : split_index u nid ≡ ok s
  pub direction : default_left u nid ≡ ok d
  pub at_threshold : threshold u nid ≡ ok th
  pub by_op : comparison_op u nid ≡ ok op
  pub of_type : split_type u nid ≡ ok numerical
  pub same_left : left_child u nid ≡ left_child t nid
  pub same_right : right_child u nid ≡ right_child t nid
  pub others : OthersKept t nid u
  pub same_categories : u.left_categories ≡ t.left_categories
  pub same_offsets : u.left_categories_offset ≡ t.left_categories_offset
  pub same_count : u.num_nodes ≡ t.num_nodes

-- On a node of a valid tree and a feature index below the limit `SetNumericalSplit` succeeds, keeps
-- the invariant, and the getters return what was set; the children and the other nodes stay.
pub set_numerical_split-IsValid :
    (nid s : ℕ) (th : TlFloat) (d : Bool) (op : Operator) (t : Tree)
    → IsValid t
    → nid < t.num_nodes
    → s < split_index_limit
    → (u : Tree) × (set_numerical_split nid s th d op t ≡ ok u)
      × IsValid u
      × NumericalSplit t nid s th d op u
unfolding set_numerical_split split_index default_left threshold comparison_op split_type left_child
    right_child at
set_numerical_split-IsValid nid s th d op t v inside small =
    let (node, was, e) =
      modify_node-with_node t nid
        (λ node. record node {
          sindex = pack_sindex s d;
          info = th;
          cmp = op;
          split_type = numerical;
        })
        (omega (arith, v.counted)) in
    let node' = record node {
      sindex = pack_sindex s d;
      info = th;
      cmp = op;
      split_type = numerical;
    } in
    let now = get_elem?-set_self t.nodes.items nid node' (omega (arith, v.counted)) in
    let (ps, pd) = pack_sindex-split s d small in
    (
      with_node t nid node',
      rw (lt→ltb s split_index_limit small) e,
      with_node-IsValid t nid node' v (v.children nid node was),
      record {
        feature = rw now (ap ok ps);
        direction = rw now (ap ok pd);
        at_threshold = rw now refl;
        by_op = rw now refl;
        of_type = rw now refl;
        same_left = rw (now, was) refl;
        same_right = rw (now, was) refl;
        others = with_node-OthersKept t nid node';
        same_categories = refl;
        same_offsets = refl;
        same_count = refl;
      },
    )
