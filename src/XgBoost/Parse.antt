-- ===== src/XgBoost/Parse.antt =====
-- The structures of XGBoost's models, and how src/frontend/xgboost.cc reads them. Numbers are
-- little-endian; an `int` and a `float` are their patterns of 32 bits.
pub mod Layout
pub mod Loads
pub mod Files
use treelite.Prelude.{
  ℕ, zero, suc, ◌+◌, ◌*◌, ◌%◌, Bool, not, List, [], ◌∷◌, Result, ok, ◌>>=◌, ◌>>◌, guard,
  runtime_error, check_failed, Error, length, drop, ltb, leb, ◌==◌, if◌then◌else◌, Bytes, codes,
  same_text,
}
use treelite.Base.{TlFloat, minus_one, size_mod}
use treelite.XgBoost.Stream.{ByteStream, Peekable, read, peek_read}

-- The number of `n` bytes at the front.
unfoldable pub number : ℕ → Bytes → ℕ
number zero bytes = 0
number (suc n) [] = 0
number (suc n) (b ∷ bytes) = b + 256 * number n bytes

-- The `int` at offset `at` of a structure.
unfoldable pub int_at : ℕ → Bytes → ℕ
unfolding number
int_at at bytes = number 4 (drop at bytes)

pub record LearnerModelParam : Type 0 where
  pub base_score : TlFloat
  pub num_feature : ℕ
  pub num_class : ℕ
  pub contain_extra_attrs : ℕ
  pub contain_eval_metrics : ℕ
  pub major_version : ℕ
  pub minor_version : ℕ

unfoldable pub learner_param : Bytes → LearnerModelParam
unfolding int_at
learner_param bytes = record {
  base_score = int_at 0 bytes;
  num_feature = int_at 4 bytes;
  num_class = int_at 8 bytes;
  contain_extra_attrs = int_at 12 bytes;
  contain_eval_metrics = int_at 16 bytes;
  major_version = int_at 20 bytes;
  minor_version = int_at 24 bytes;
}

-- `GBTreeModelParam`, without its paddings.
pub record GbTreeModelParam : Type 0 where
  pub num_trees : ℕ
  pub num_roots : ℕ
  pub num_feature : ℕ
  pub num_output_group : ℕ
  pub size_leaf_vector : ℕ

unfoldable pub gbm_param : Bytes → GbTreeModelParam
unfolding int_at
gbm_param bytes = record {
  num_trees = int_at 0 bytes;
  num_roots = int_at 4 bytes;
  num_feature = int_at 8 bytes;
  num_output_group = int_at 24 bytes;
  size_leaf_vector = int_at 28 bytes;
}

pub record TreeParam : Type 0 where
  pub num_roots : ℕ
  pub num_nodes : ℕ
  pub num_deleted : ℕ
  pub max_depth : ℕ
  pub num_feature : ℕ
  pub size_leaf_vector : ℕ

unfoldable pub tree_param : Bytes → TreeParam
unfolding int_at
tree_param bytes = record {
  num_roots = int_at 0 bytes;
  num_nodes = int_at 4 bytes;
  num_deleted = int_at 8 bytes;
  max_depth = int_at 12 bytes;
  num_feature = int_at 16 bytes;
  size_leaf_vector = int_at 20 bytes;
}

pub record NodeStat : Type 0 where
  pub loss_chg : TlFloat
  pub sum_hess : TlFloat
  pub base_weight : TlFloat
  pub leaf_child_cnt : ℕ

unfoldable pub node_stat : Bytes → NodeStat
unfolding int_at
node_stat bytes = record {
  loss_chg = int_at 0 bytes;
  sum_hess = int_at 4 bytes;
  base_weight = int_at 8 bytes;
  leaf_child_cnt = int_at 12 bytes;
}

-- `XGBTree::Node`
pub record XgbNode : Type 0 where
  pub parent : ℕ
  pub cleft : ℕ
  pub cright : ℕ
  pub sindex : ℕ
  pub info : TlFloat

unfoldable pub xgb_node : Bytes → XgbNode
unfolding int_at
xgb_node bytes = record {
  parent = int_at 0 bytes;
  cleft = int_at 4 bytes;
  cright = int_at 8 bytes;
  sindex = int_at 12 bytes;
  info = int_at 16 bytes;
}

-- `split_index()`
unfoldable pub feature_of : XgbNode → ℕ
feature_of node = node.sindex % 0x8000_0000

-- `default_left()`
unfoldable pub goes_left : XgbNode → Bool
goes_left node = leb 0x8000_0000 node.sindex

-- `is_leaf()`
unfoldable pub is_xgb_leaf : XgbNode → Bool
is_xgb_leaf node = node.cleft == minus_one

pub record XgbTree : Type 0 where
  pub param : TreeParam
  pub nodes : List XgbNode
  pub stats : List NodeStat

-- What the file says.
pub record Contents : Type 0 where
  pub mparam : LearnerModelParam
  pub name_obj : Bytes
  pub trees : List XgbTree

-- The structures of an array of `n`, of `size` bytes each.
unfoldable pub array_of {ℓ} : {A : Type ℓ} → (Bytes → A) → ℕ → ℕ → Bytes → List A
array_of decode size zero bytes = []
array_of decode size (suc n) bytes = decode bytes ∷ array_of decode size n (drop size bytes)

module _ (lib : ByteStream) where
  -- A read whose number of bytes is checked.
  unfoldable pub read_all : ℕ → Error → Peekable lib.State → Result (Bytes × Peekable lib.State)
  unfolding read
  read_all size why fi = do
    (bytes, fi') ← read lib size fi
    guard (length bytes == size) why
    ok (bytes, fi')

  -- `CONSUME_BYTES`, whose buffer is grown to `size`.
  unfoldable pub consume_bytes : ℕ → Peekable lib.State → Result (Peekable lib.State)
  unfolding read_all
  consume_bytes size fi = do
    (bytes, fi') ←
        read_all size
          (check_failed "Ill-formed XGBoost model format: cannot read bytes from the file") fi
    ok fi'

  -- A `uint64_t`
  unfoldable pub read_len : Error → Peekable lib.State → Result (ℕ × Peekable lib.State)
  unfolding read_all number
  read_len why fi = do (bytes, fi') ← read_all 8 why fi; ok (number 8 bytes, fi')

  -- The text behind its length; `resize` refuses 2 ^ 63 - 1 bytes and more.
  unfoldable pub read_text : Peekable lib.State → Result (Bytes × Peekable lib.State)
  unfolding read_len read_all
  read_text fi = do
    let why = check_failed "Ill-formed XGBoost model file: corrupted header"
    (len, fi') ← read_len why fi
    guard (leb len 0x7fff_ffff_ffff_fffe) (runtime_error "basic_string::_M_replace_aux")
    if len == 0 then ok ([], fi') else read_all len why fi'

  unfoldable pub skip_leaf_vectors : TreeParam → Peekable lib.State → Result (Peekable lib.State)
  unfolding read_len consume_bytes
  skip_leaf_vectors param fi = if param.size_leaf_vector == 0 then ok fi else (do
    (len, fi') ← read_len (check_failed "Ill-formed XGBoost model file") fi
    if len == 0 then ok fi' else consume_bytes ((4 * len) % size_mod) fi')

  -- `XGBTree::Load` behind its parameters; `resize` refuses a negative number.
  unfoldable pub load_nodes : TreeParam → Peekable lib.State → Result (XgbTree × Peekable lib.State)
  unfolding read_all array_of xgb_node node_stat skip_leaf_vectors
  load_nodes param fi = do
    guard (ltb param.num_nodes 0x8000_0000) (runtime_error "vector::_M_default_append")
    guard (not (param.num_nodes == 0))
        (check_failed "Ill-formed XGBoost model file: a tree can't be empty")
    let why = check_failed "Ill-formed XGBoost model file: cannot read specified number of nodes"
    (node_bytes, fi₂) ← read_all (20 * param.num_nodes) why fi
    (stat_bytes, fi₃) ← read_all (16 * param.num_nodes) why fi₂
    fi₄ ← skip_leaf_vectors param fi₃
    guard (param.num_roots == 1) (
        check_failed
          "Invalid XGBoost model file: treelite does not support trees with multiple roots")
    ok (
      record {
        param = param;
        nodes = array_of xgb_node 20 param.num_nodes node_bytes;
        stats = array_of node_stat 16 param.num_nodes stat_bytes;
      },
      fi₄,
    )

  -- `XGBTree::Load`
  unfoldable pub load_tree : Peekable lib.State → Result (XgbTree × Peekable lib.State)
  unfolding read_all tree_param load_nodes
  load_tree fi = do
    (bytes, fi₁) ←
        read_all 148 (check_failed "Ill-formed XGBoost model file: can't read TreeParam") fi
    load_nodes (tree_param bytes) fi₁

  unfoldable pub load_trees : ℕ → Peekable lib.State → Result (List XgbTree × Peekable lib.State)
  unfolding load_tree
  load_trees zero fi = ok ([], fi)
  load_trees (suc n) fi = do
    (tree, fi₁) ← load_tree fi
    (trees, fi₂) ← load_trees n fi₁
    ok (tree ∷ trees, fi₂)

  -- "backward compatible header check"
  unfoldable pub check_header : Peekable lib.State → Result (Peekable lib.State)
  unfolding peek_read consume_bytes
  check_header fp = do
    (header, fp') ← peek_read lib 4 4 fp
    guard (not (same_text header (codes "bs64")))
        (check_failed "Ill-formed XGBoost model file: Base64 format no longer supported")
    if same_text header (codes "binf") then consume_bytes 4 fp' else ok fp'

  -- "loading GBTree"; there are no trees where `num_trees` is negative.
  unfoldable pub load_model : GbTreeModelParam → Peekable lib.State → Result (List XgbTree)
  unfolding load_trees
  load_model gbm fp = do
    (trees, fp') ← load_trees (if ltb gbm.num_trees 0x8000_0000 then gbm.num_trees else 0) fp
    guard (gbm.num_roots == 1) (check_failed "multi-root trees not supported")
    ok trees

  -- Step 1 of `ParseStream`.
  unfoldable pub parse_contents : Peekable lib.State → Result Contents
  unfolding check_header read_all read_text learner_param gbm_param load_model
  parse_contents fp = do
    fp₁ ← check_header fp
    (param_bytes, fp₂) ←
        read_all 136 (check_failed "Ill-formed XGBoost model file: corrupted header") fp₁
    (name_obj, fp₃) ← read_text fp₂
    (name_gbm, fp₄) ← read_text fp₃
    guard (same_text name_gbm (codes "gbtree"))
        (check_failed "Invalid XGBoost model file: Gradient booster must be gbtree type.")
    (gbm_bytes, fp₅) ←
        read_all 160 (check_failed "Invalid XGBoost model file: corrupted GBTree parameters") fp₄
    trees ← load_model (gbm_param gbm_bytes) fp₅
    ok (record { mparam = learner_param param_bytes; name_obj = name_obj; trees = trees })
