-- ===== src/Examples/XgBoosts.antt =====
-- XGBoost's streams on bytes in memory, and a tree of two leaves with a deleted node.
use treelite.Prelude.{
  ℕ, Bool, true, ◌&&◌, &&-split, ltb, ltb→lt, inl, All, ◌≡◌, ◌≤◌, refl, arith, List, [], ◌∷◌, ◌++◌,
  ok, err, fault, length, take, drop, replicate, Bytes, codes,
}
use treelite.Tree.{Tree, node_init}
use treelite.Tree.Invariant.{IsValid}
use treelite.Frontend.Source.{Source, Shape, leaf, test, Represents, shape_size}
use treelite.XgBoost.Stream.{ByteStream, Peekable, new_stream, read, peek_read}
use treelite.XgBoost.Stream.Ring.{Ring, held}
use treelite.XgBoost.Stream.Reads.{Delivers, pending, read-pending}
use treelite.XgBoost.Stream.Peeks.{peek_read-pending, peek_read-overrun}
use treelite.XgBoost.Parse.{parse_contents, XgbTree, NodeStat, feature_of, is_xgb_leaf}
use treelite.XgBoost.Parse.Layout.{
  IsInt, tree_fields, node_fields, stat_fields, learner_fields, gbm_fields,
}
use treelite.XgBoost.Parse.Loads.{LeafVectors, TreeOk}
use treelite.XgBoost.Parse.Files.{File, FileOk, file_bytes, contents_of, parse_contents-file_bytes}
use treelite.XgBoost.Export.{FloatMath, export_tree}
use treelite.XgBoost.Export.Represents.{xgb_source, export_tree-xgb_source}

-- `dmlc::MemoryFixedSizeStream`
abbrev memory : ByteStream
memory = record { State = Bytes; read = λ n s. (take n s, drop n s) }

memory-Delivers : Delivers memory (λ s. s)
memory-Delivers = record { gives = λ n s. refl; leaves = λ n s. refl }

-- Four bytes wait around the end of the buffer, and three more are in the stream.
abbrev around : Peekable Bytes
around = record {
  istm = 5 ∷ 6 ∷ 7 ∷ [];
  buf = (3 ∷ 4 ∷ []) ++ replicate 1021 0 ++ (1 ∷ 2 ∷ []);
  begin_ptr = 1023;
  end_ptr = 2;
}

around-Ring : Ring around
around-Ring = record { full = refl; begin_inside = omega arith; end_inside = omega arith }

read-pending_example :
    (p' : Peekable Bytes) × (read memory 6 around ≡ ok (1 ∷ 2 ∷ 3 ∷ 4 ∷ 5 ∷ 6 ∷ [], p'))
    × Ring p'
    × (pending memory (λ s. s) memory-Delivers p' ≡ 7 ∷ [])
unfolding pending held
read-pending_example = read-pending memory (λ s. s) memory-Delivers 6 around around-Ring

peek_read-pending_example :
    (bytes : Bytes) × (p' : Peekable Bytes) × (peek_read memory 5 5 around ≡ ok (bytes, p'))
    × (take (length bytes) (1 ∷ 2 ∷ 3 ∷ 4 ∷ 5 ∷ 6 ∷ 7 ∷ []) ≡ bytes)
    × (5 ≤ length bytes)
    × (length bytes ≤ 5)
    × Ring p'
    × (pending memory (λ s. s) memory-Delivers p' ≡ 1 ∷ 2 ∷ 3 ∷ 4 ∷ 5 ∷ 6 ∷ 7 ∷ [])
unfolding pending held
peek_read-pending_example =
    peek_read-pending memory (λ s. s) memory-Delivers 5 5 around around-Ring (omega arith)
      (omega arith) (omega arith) (omega arith)

peek_read-overrun_example : peek_read memory 2 2 around ≡ err fault
unfolding held
peek_read-overrun_example =
    peek_read-overrun memory (λ s. s) memory-Delivers 2 around around-Ring (omega arith)
      (omega arith)

abbrev float_math : FloatMath
float_math = record {
  logf = λ x. x;
  negate = λ x. x;
  minus = λ x y. x;
  divided_by = λ x y. x;
  widen = λ x. x;
}

abbrev stat : NodeStat
stat = record { loss_chg = 1; sum_hess = 2; base_weight = 3; leaf_child_cnt = 0 }

-- Node 0 tests feature 3, its children are the leaves 3 and 1, and node 2 is deleted.
abbrev with_deleted : XgbTree
with_deleted = record {
  param = record {
    num_roots = 1;
    num_nodes = 4;
    num_deleted = 1;
    max_depth = 1;
    num_feature = 4;
    size_leaf_vector = 0;
  };
  nodes =
      record { parent = 0xffff_ffff; cleft = 3; cright = 1; sindex = 0x8000_0003; info = 9 }
      ∷ record { parent = 0; cleft = 0xffff_ffff; cright = 0xffff_ffff; sindex = 0; info = 7 }
      ∷ record { parent = 0; cleft = 0; cright = 0; sindex = 0xffff_ffff; info = 0 }
      ∷ record { parent = 0; cleft = 0xffff_ffff; cright = 0xffff_ffff; sindex = 0; info = 8 }
      ∷ [];
  stats = stat ∷ stat ∷ stat ∷ stat ∷ [];
}

abbrev source : Source
source = xgb_source float_math node_init with_deleted

with_deleted-Shape : Shape source 0
unfolding is_xgb_leaf feature_of
with_deleted-Shape =
    test {left = 3} {right = 1}
      (record {
        here = record { node = _; from = refl; stat = _; stat_from = refl };
        not_leaf = refl;
        small = omega arith;
        to_left = refl;
        to_right = refl;
      })
      (leaf (record {
        here = record { node = _; from = refl; stat = _; stat_from = refl };
        at_leaf = refl;
      }))
      (leaf (record {
        here = record { node = _; from = refl; stat = _; stat_from = refl };
        at_leaf = refl;
      }))

export_tree-xgb_source_example :
    (t : Tree) × (export_tree float_math node_init 0 4 with_deleted ≡ ok t)
    × IsValid t
    × Represents source t 0 0
unfolding with_deleted-Shape shape_size
export_tree-xgb_source_example =
    export_tree-xgb_source float_math node_init with_deleted 0 4 with_deleted-Shape (omega arith)
      (omega arith)

all_fit : List ℕ → Bool
all_fit [] = true
all_fit (x ∷ xs) = ltb x 0x1_0000_0000 && all_fit xs

fits : (xs : List ℕ) → all_fit xs ≡ true → All IsInt xs
unfolding all_fit
fits [] h = tt
fits (x ∷ xs) h =
    let (a, b) = &&-split (ltb x 0x1_0000_0000) (all_fit xs) h in
    (ltb→lt x 0x1_0000_0000 a, fits xs b)

all_rows_fit : {A : Type 0} → (A → List ℕ) → List A → Bool
unfolding all_fit
all_rows_fit encode [] = true
all_rows_fit encode (x ∷ xs) = all_fit (encode x) && all_rows_fit encode xs

rows_fit :
    {A : Type 0} (encode : A → List ℕ) (xs : List A)
    → all_rows_fit encode xs ≡ true
    → All (λ x. All IsInt (encode x)) xs
unfolding all_rows_fit
rows_fit encode [] h = tt
rows_fit encode (x ∷ xs) h =
    let (a, b) = &&-split (all_fit (encode x)) (all_rows_fit encode xs) h in
    (fits (encode x) a, rows_fit encode xs b)

abbrev a_file : File
a_file = record {
  mparam = record {
    base_score = 0x3f00_0000;
    num_feature = 4;
    num_class = 0;
    contain_extra_attrs = 0;
    contain_eval_metrics = 0;
    major_version = 1;
    minor_version = 0;
  };
  name_obj = codes "binary:logistic";
  gbm = record {
    num_trees = 1;
    num_roots = 1;
    num_feature = 4;
    num_output_group = 1;
    size_leaf_vector = 0;
  };
  trees = (with_deleted, []) ∷ [];
}

with_deleted-TreeOk : TreeOk with_deleted
unfolding all_rows_fit all_fit
with_deleted-TreeOk = record {
  numbers = fits (tree_fields with_deleted.param) refl;
  nodes_fit = rows_fit node_fields with_deleted.nodes refl;
  stats_fit = rows_fit stat_fields with_deleted.stats refl;
  one_root = refl;
  not_empty = omega arith;
  few = omega arith;
  all_nodes = refl;
  all_stats = refl;
}

a_file-FileOk : FileOk a_file
unfolding all_fit LeafVectors
a_file-FileOk = record {
  learner_fits = fits (learner_fields a_file.mparam) refl;
  short_name = omega arith;
  gbm_fits = fits (gbm_fields a_file.gbm) refl;
  one_root = refl;
  few = omega arith;
  all_trees = refl;
  trees_ok = ((with_deleted-TreeOk, inl (refl, refl)), tt);
}

parse_contents-file_bytes_example :
    parse_contents memory (new_stream memory (replicate 1025 0) (file_bytes a_file))
    ≡ ok (contents_of a_file)
parse_contents-file_bytes_example =
    parse_contents-file_bytes memory (λ s. s) memory-Delivers a_file (replicate 1025 0)
      (file_bytes a_file) refl a_file-FileOk refl
