-- ===== src/Examples/Frontends.antt =====
-- A model in frames, parameters, and a LightGBM tree of three leaves.
use treelite.Prelude.{
  ℕ, ◌≡◌, ◌&&◌, ◌*◌, ◌%◌, ◌-◌, ◌++◌, replicate, get_elem?, some, refl, arith, inl, inr, true, false,
  List, [], ◌∷◌, map, ok, err, fault, Result, length, String, Bytes, codes, ltb,
}
use treelite.Base.{TlFloat, minus_one}
use treelite.Tree.{Tree, node_init}
use treelite.Tree.Invariant.{IsValid}
use treelite.Annotator.Categories.{elem}
use treelite.Model.{Model, new_param, init_allow_unknown, copied, set_param}
use treelite.Model.Param.{IsTerminated, init_allow_unknown-IsTerminated}
use treelite.Model.Frames.{model_frames, init_model}
use treelite.Model.RoundTrip.{foreign_tree, AllCounted, init_model-model_frames}
use treelite.LightGbm.Text.{load_text, is_delimiter}
use treelite.LightGbm.Text.Segments.{nonempty, concat, segments, ends_in_delimiter}
use treelite.LightGbm.Text.Lines.{Fits, AllFit, load_text-segments, load_text-full}
use treelite.LightGbm.Numbers.{FloatLibrary, no_error}
use treelite.LightGbm.Bitset.{bitset_to_list, get_decision_type}
use treelite.LightGbm.Bitset.Members.{has_bit, bitset_to_list-has_bit}
use treelite.LightGbm.Parse.{LgbTree}
use treelite.LightGbm.Export.{export_tree, left_categories_of}
use treelite.LightGbm.Export.Statistics.{CountOk, GainOk}
use treelite.Frontend.Source.{Source, Shape, leaf, test, Represents, shape_size, shape_categories}
use treelite.LightGbm.Export.Represents.{export_tree-Represents, lgb_source}
use treelite.Examples.Trees.{stump}

abbrev stumps : Model
stumps = record {
  trees = stump ∷ stump ∷ [];
  num_feature = 4;
  num_output_group = 1;
  random_forest_flag = false;
  param = record { pred_transform = []; sigmoid_alpha = 0x3f80_0000; global_bias = 0 };
}

stumps-AllCounted : AllCounted (stump ∷ stump ∷ [])
unfolding AllCounted
stumps-AllCounted = (refl, (refl, tt))

init_model-model_frames_example :
    init_model 0 (model_frames stumps)
    ≡ ok (record stumps { trees = map foreign_tree (stump ∷ stump ∷ []) })
init_model-model_frames_example = init_model-model_frames stumps 0 stumps-AllCounted

abbrev zero_stof : Bytes → Result TlFloat
zero_stof text = ok 0

abbrev renamed : List (String × Bytes)
renamed = ("pred_transform", codes "sigmoid") ∷ ("depth", codes "6") ∷ []

init_allow_unknown-IsTerminated_example :
    IsTerminated (record new_param { pred_transform = codes "sigmoid" ++ replicate 249 0 })
    × (◌≡◌ {A = List (String × Bytes)} [] [])
unfolding init_allow_unknown set_param copied new_param
init_allow_unknown-IsTerminated_example =
    init_allow_unknown-IsTerminated zero_stof renamed [] new_param _ fresh refl
  where
    fresh : IsTerminated new_param
    fresh = record { full = refl; terminator = refl }

-- "a", a line end, "b" and "c" in one buffer and in the next.
abbrev chunks : List Bytes
chunks = codes "a\nb" ∷ codes "c\n" ∷ []

chunks-AllFit : AllFit 3 chunks
unfolding AllFit Fits ends_in_delimiter is_delimiter
chunks-AllFit = ((omega arith, inr refl), ((omega arith, inl (omega arith)), tt))

load_text-segments_example :
    (lines : List Bytes) × (load_text 3 chunks ≡ ok lines)
    × (nonempty lines ≡ segments [] (concat chunks))
load_text-segments_example = load_text-segments 3 chunks chunks-AllFit

load_text-full_example : load_text 3 (codes "ab\n" ∷ []) ≡ err fault
unfolding ends_in_delimiter is_delimiter
load_text-full_example = load_text-full 3 (codes "ab\n") [] (omega arith) refl refl

bitset_to_list-has_bit_example :
    (result : List ℕ) × (bitset_to_list (6 ∷ 1 ∷ []) 2 ≡ ok result)
    × ((c : ℕ) → elem c result ≡ (ltb c (2 * 32) && has_bit (6 ∷ 1 ∷ []) c))
bitset_to_list-has_bit_example = bitset_to_list-has_bit (6 ∷ 1 ∷ []) 2 (omega arith) (omega arith)

abbrev library : FloatLibrary
library = record {
  strtod = λ text. record { value = length text; end_text = []; errno = no_error };
  strtof = λ text. record { value = length text; end_text = []; errno = no_error };
  narrow = λ x. x % 0x1_0000_0000;
  widen = λ x. x;
  truncate = λ x. x;
}

-- A test of categories 1 and 2, and on its left a numerical test.
abbrev three_leaves : LgbTree
three_leaves = record {
  num_leaves = 3;
  num_cat = 1;
  leaf_value = 10 ∷ 20 ∷ 30 ∷ [];
  decision_type = 1 ∷ 2 ∷ [];
  cat_boundaries = 0 ∷ 1 ∷ [];
  cat_threshold = 6 ∷ [];
  split_feature = 0 ∷ 7 ∷ [];
  threshold = 0 ∷ 0x3f80_0000 ∷ [];
  left_child = 1 ∷ 0xffff_ffff ∷ [];
  right_child = 0xffff_fffe ∷ 0xffff_fffd ∷ [];
  split_gain = [];
  internal_count = 9 ∷ 5 ∷ [];
  leaf_count = 2 ∷ 4 ∷ 3 ∷ [];
}

abbrev three_source : Source
three_source = lgb_source library node_init three_leaves

leaf_at :
    (old value count : ℕ)
    → ltb old 0x8000_0000 ≡ false
    → get_elem? three_leaves.leaf_value (minus_one - old) ≡ some value
    → get_elem? three_leaves.leaf_count (minus_one - old) ≡ some count
    → ltb count 0x8000_0000 ≡ true
    → Shape three_source old
unfolding CountOk
leaf_at old value count n e c ok_count =
    leaf (record { negative = n; value = value; from = e; counted = inr (count, c, ok_count) })

three_leaves-Shape : Shape three_source 0
unfolding get_decision_type left_categories_of bitset_to_list CountOk GainOk
three_leaves-Shape =
    test
      (record {
        not_leaf = refl;
        feature = 0;
        feature_from = refl;
        small = omega arith;
        decision = 1;
        decision_from = refl;
        bound = 0;
        bound_from = refl;
        categories = 1 ∷ 2 ∷ [];
        kind = inr (refl, refl);
        left_from = refl;
        right_from = refl;
        counted = inr (9, refl, refl);
        gained = inl refl;
      })
      (test
        (record {
          not_leaf = refl;
          feature = 7;
          feature_from = refl;
          small = omega arith;
          decision = 2;
          decision_from = refl;
          bound = 0x3f80_0000;
          bound_from = refl;
          categories = [];
          kind = inl (refl, refl);
          left_from = refl;
          right_from = refl;
          counted = inr (5, refl, refl);
          gained = inl refl;
        })
        (leaf_at 0xffff_ffff 10 2 refl refl refl refl)
        (leaf_at 0xffff_fffd 30 3 refl refl refl refl))
      (leaf_at 0xffff_fffe 20 4 refl refl refl refl)

export_tree-Represents_example :
    (t : Tree) × (export_tree library node_init 0 6 three_leaves ≡ ok t)
    × IsValid t
    × Represents three_source t 0 0
unfolding three_leaves-Shape leaf_at shape_size shape_categories
export_tree-Represents_example =
    export_tree-Represents library node_init three_leaves 0 6 three_leaves-Shape refl (omega arith)
      (omega arith) (omega arith)
