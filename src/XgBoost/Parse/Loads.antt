-- ===== src/XgBoost/Parse/Loads.antt =====
-- What the reader makes of a stream that gives the bytes of XGBoost's structures.
use treelite.Prelude.{
  ℕ, ◌*◌, ◌%◌, ◌<◌, ◌≡◌, refl, sym, ap, ◌∙◌, arith, false, ◌⊎◌, inl, inr, [], ◌∷◌, ◌++◌, ok, Error,
  check_failed, length, take, drop, take-append_le, take_all, drop-append, replicate, All, Bytes,
  ◌==◌, ==_iff, lt→ltb, Bool-cases,
}
use mathlib.Core.List.{append-nil, append_assoc}
use treelite.Base.{size_mod}
use treelite.XgBoost.Stream.{ByteStream, Peekable}
use treelite.XgBoost.Stream.Ring.{Ring}
use treelite.XgBoost.Stream.Reads.{Delivers, pending, read-pending}
use treelite.XgBoost.Parse.{
  TreeParam, XgbTree, xgb_node, node_stat, tree_param, array_of, read_all, read_len, number,
  consume_bytes, skip_leaf_vectors, load_nodes, load_tree,
}
use treelite.XgBoost.Parse.Layout.{
  le_bytes, length-le_bytes, number-len, IsInt, ints, tree_fields, node_fields, stat_fields,
  tree_param-ints, xgb_node-ints, node_stat-ints, array_bytes, array_of-array_bytes,
  length-array_bytes, length-node_ints, length-stat_ints,
}

-- What stands behind the nodes of a tree: nothing, or vectors of floats behind their number.
unfoldable pub LeafVectors : TreeParam → Bytes → Type 0
LeafVectors param bytes =
    ((param.size_leaf_vector ≡ 0) × (bytes ≡ []))
    ⊎ ((0 < param.size_leaf_vector)
        × (n : ℕ) × (floats : Bytes) × (bytes ≡ le_bytes 8 n ++ floats)
        × (length floats ≡ 4 * n)
        × (n < 0x4000_0000_0000_0000))

-- A tree as XGBoost has them.
pub record TreeOk (tree : XgbTree) : Type 0 where
  pub numbers : All IsInt (tree_fields tree.param)
  pub nodes_fit : All (λ x. All IsInt (node_fields x)) tree.nodes
  pub stats_fit : All (λ x. All IsInt (stat_fields x)) tree.stats
  pub one_root : tree.param.num_roots ≡ 1
  pub not_empty : 0 < tree.param.num_nodes
  pub few : tree.param.num_nodes < 0x8000_0000
  pub all_nodes : length tree.nodes ≡ tree.param.num_nodes
  pub all_stats : length tree.stats ≡ tree.param.num_nodes

unfoldable pub param_bytes : TreeParam → Bytes
unfolding ints
param_bytes param = ints (tree_fields param) ++ replicate 124 0

-- A tree in a file, with `leaf_vectors` behind it.
unfoldable pub tree_bytes : XgbTree → Bytes → Bytes
unfolding param_bytes array_bytes
tree_bytes tree leaf_vectors =
    param_bytes tree.param
    ++ (array_bytes node_fields tree.nodes ++ (array_bytes stat_fields tree.stats ++ leaf_vectors))

length-param_bytes : (param : TreeParam) → length (param_bytes param) ≡ 148
unfolding param_bytes ints le_bytes
length-param_bytes param = refl

tree_param-param_bytes :
    (param : TreeParam) → All IsInt (tree_fields param) → tree_param (param_bytes param) ≡ param
unfolding param_bytes
tree_param-param_bytes param h = tree_param-ints param (replicate 124 0) h

order :
    (tree : XgbTree) (leaf ys : Bytes)
    → tree_bytes tree leaf ++ ys
      ≡ param_bytes tree.param
        ++ (array_bytes node_fields tree.nodes
            ++ (array_bytes stat_fields tree.stats ++ (leaf ++ ys)))
unfolding tree_bytes
order tree leaf ys =
    let a = param_bytes tree.param in
    let b = array_bytes node_fields tree.nodes in
    let c = array_bytes stat_fields tree.stats in
    append_assoc a (b ++ (c ++ leaf)) ys
    ∙ ap (λ xs. a ++ xs) (append_assoc b (c ++ leaf) ys)
    ∙ ap (λ xs. a ++ (b ++ xs)) (append_assoc c leaf ys)

not_zero : (n : ℕ) → 0 < n → (n == 0) ≡ false
not_zero n h = ground arith

module _ (lib : ByteStream) (rest : lib.State → Bytes) (delivers : Delivers lib rest) where
  -- The bytes `ys` are to come.
  pub record At (p : Peekable lib.State) (ys : Bytes) : Type 0 where
    pub ring : Ring p
    pub comes : pending lib rest delivers p ≡ ys

  pub read_all-At :
      (n : ℕ) (why : Error) (p : Peekable lib.State) (xs ys : Bytes)
      → At p (xs ++ ys)
      → length xs ≡ n
      → (p' : Peekable lib.State) × (read_all lib n why p ≡ ok (xs, p')) × At p' ys
  unfolding read_all
  read_all-At n why p xs ys at size =
      let (p', e, ring, left) = read-pending lib rest delivers n p at.ring in
      let taken : take n (pending lib rest delivers p) ≡ xs =
        rw (at.comes, ← size)
          (take-append_le (length xs) xs ys (omega arith)
            ∙ take_all xs (length xs) (omega arith)) in
      let dropped : drop n (pending lib rest delivers p) ≡ ys =
        rw (at.comes, ← size) (drop-append xs ys) in
      (
        p',
        rw (e, taken, (==_iff (length xs) n).1 size) refl,
        record { ring = ring; comes = left ∙ dropped },
      )

  pub read_len-At :
      (x : ℕ) (why : Error) (p : Peekable lib.State) (ys : Bytes)
      → At p (le_bytes 8 x ++ ys)
      → x < size_mod
      → (p' : Peekable lib.State) × (read_len lib why p ≡ ok (x, p')) × At p' ys
  unfolding read_len
  read_len-At x why p ys at small =
      let (p', e, at') = read_all-At 8 why p (le_bytes 8 x) ys at (length-le_bytes 8 x) in
      let decoded : number 8 (le_bytes 8 x) ≡ x =
        ap (λ bytes. number 8 bytes) (sym (append-nil (le_bytes 8 x))) ∙ number-len x [] small in
      (p', rw (e, decoded) refl, at')

  skip_leaf_vectors-At :
      (param : TreeParam) (bytes : Bytes) (p : Peekable lib.State) (ys : Bytes)
      → LeafVectors param bytes
      → At p (bytes ++ ys)
      → (p' : Peekable lib.State) × (skip_leaf_vectors lib param p ≡ ok p') × At p' ys
  unfolding LeafVectors skip_leaf_vectors consume_bytes
  skip_leaf_vectors-At param bytes p ys (inl (zero_size, none)) at =
      (p, rw ((==_iff param.size_leaf_vector 0).1 zero_size) refl, rw none at at)
  skip_leaf_vectors-At param bytes p ys (inr (some_size, n, floats, layout, size, small)) at =
      let why = check_failed "Ill-formed XGBoost model file" in
      let at₁ : At p (le_bytes 8 n ++ (floats ++ ys)) = record {
        ring = at.ring;
        comes = at.comes ∙ ap (λ xs. xs ++ ys) layout ∙ append_assoc (le_bytes 8 n) floats ys;
      } in
      let (q, e, at₂) = read_len-At n why p (floats ++ ys) at₁ (omega arith) in
      let some_vectors = not_zero param.size_leaf_vector some_size in
      elim (Bool-cases (n == 0)) [
        | inl z ↦ (
          q,
          rw (some_vectors, e, z) refl,
          record {
            ring = at₂.ring;
            comes =
                at₂.comes
                ∙ ap (λ xs. xs ++ ys) (no_bytes floats (omega (arith, size, (==_iff n 0).0 z)));
          },
        )
        | inr z ↦
            let whole : (4 * n) % size_mod ≡ 4 * n = omega arith in
            let (p', e', at₃) = read_all-At (4 * n) skip_why q floats ys at₂ size in
            (p', rw (some_vectors, e, z, whole, e') refl, at₃)
      ]
    where
      skip_why : Error
      skip_why = check_failed "Ill-formed XGBoost model format: cannot read bytes from the file"

      no_bytes : (xs : Bytes) → length xs ≡ 0 → xs ≡ []
      no_bytes [] h = refl
      no_bytes (x ∷ xs) h = absurd (omega (arith, h))

  load_nodes-At :
      (tree : XgbTree) (leaf_vectors ys : Bytes) (p : Peekable lib.State)
      → TreeOk tree
      → LeafVectors tree.param leaf_vectors
      → At p (
          array_bytes node_fields tree.nodes
          ++ (array_bytes stat_fields tree.stats ++ (leaf_vectors ++ ys)))
      → (p' : Peekable lib.State) × (load_nodes lib tree.param p ≡ ok (tree, p')) × At p' ys
  unfolding load_nodes
  load_nodes-At tree leaf_vectors ys p good leaf at =
      let n = tree.param.num_nodes in
      let nodes = array_bytes node_fields tree.nodes in
      let stats = array_bytes stat_fields tree.stats in
      let why =
        check_failed "Ill-formed XGBoost model file: cannot read specified number of nodes" in
      let (p₁, e₁, at₁) = read_all-At (20 * n) why p nodes (stats ++ (leaf_vectors ++ ys)) at (
        length-array_bytes node_fields xgb_node 20 xgb_node-ints length-node_ints tree.nodes
        ∙ ap (λ k. 20 * k) good.all_nodes) in
      let (p₂, e₂, at₂) = read_all-At (16 * n) why p₁ stats (leaf_vectors ++ ys) at₁ (
        length-array_bytes stat_fields node_stat 16 node_stat-ints length-stat_ints tree.stats
        ∙ ap (λ k. 16 * k) good.all_stats) in
      let (p₃, e₃, at₃) = skip_leaf_vectors-At tree.param leaf_vectors p₂ ys leaf at₂ in
      let all_nodes : array_of xgb_node 20 n nodes ≡ tree.nodes =
        ap (λ k. array_of xgb_node 20 k nodes) (sym good.all_nodes)
        ∙ array_of-array_bytes node_fields xgb_node 20 xgb_node-ints length-node_ints tree.nodes
            good.nodes_fit in
      let all_stats : array_of node_stat 16 n stats ≡ tree.stats =
        ap (λ k. array_of node_stat 16 k stats) (sym good.all_stats)
        ∙ array_of-array_bytes stat_fields node_stat 16 node_stat-ints length-stat_ints tree.stats
            good.stats_fit in
      (
        p₃,
        rw
            (
              lt→ltb n 0x8000_0000 good.few,
              not_zero n good.not_empty,
              e₁,
              e₂,
              e₃,
              (==_iff tree.param.num_roots 1).1 good.one_root,
              all_nodes,
              all_stats,
            )
            refl,
        at₃,
      )

  -- Loading from a stream that gives the bytes of a tree returns that tree, and leaves what comes
  -- behind it; the leaf vectors are skipped.
  pub load_tree-tree_bytes :
      (tree : XgbTree) (leaf_vectors ys : Bytes) (p : Peekable lib.State)
      → TreeOk tree
      → LeafVectors tree.param leaf_vectors
      → At p (tree_bytes tree leaf_vectors ++ ys)
      → (p' : Peekable lib.State) × (load_tree lib p ≡ ok (tree, p')) × At p' ys
  unfolding load_tree
  load_tree-tree_bytes tree leaf_vectors ys p good leaf at =
      let nodes = array_bytes node_fields tree.nodes in
      let stats = array_bytes stat_fields tree.stats in
      let at' : At p (param_bytes tree.param ++ (nodes ++ (stats ++ (leaf_vectors ++ ys)))) =
        record { ring = at.ring; comes = at.comes ∙ order tree leaf_vectors ys } in
      let (p₁, e, at₁) =
        read_all-At 148 (check_failed "Ill-formed XGBoost model file: can't read TreeParam") p
          (param_bytes tree.param) (nodes ++ (stats ++ (leaf_vectors ++ ys))) at'
          (length-param_bytes tree.param) in
      let (p₂, e₂, at₂) = load_nodes-At tree leaf_vectors ys p₁ good leaf at₁ in
      let decoded = tree_param-param_bytes tree.param good.numbers in
      (p₂, rw e (ap (λ q. load_nodes lib q p₁) decoded ∙ e₂), at₂)
