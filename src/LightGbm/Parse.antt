-- ===== src/LightGbm/Parse.antt =====
-- `ParseStream` of src/frontend/lightgbm.cc, step 1: from the lines to dictionaries, and from these
-- to the arrays of each tree.
use treelite.Prelude.{
  ℕ, ◌+◌, ◌-◌, ◌%◌, Bool, true, false, ◌&&◌, ◌||◌, List, [], ◌∷◌, Option, none, some, Result, ok,
  err, ◌>>=◌, ◌>>◌, guard, or_fault, fault, check_failed, String, length, get_elem?, replicate, ltb,
  leb, ◌==◌, if◌then◌else◌, Bytes, codes, same_text,
}
use treelite.Base.{TlFloat}
use treelite.LightGbm.Text.{stream_of, getline, split_text}
use treelite.LightGbm.Numbers.{
  FloatLibrary, text_to_array, text_to_int, text_to_int8, text_to_uint32, text_to_uint64,
  text_to_double, text_to_float,
}

-- `std::unordered_map<std::string, std::string>`
abbrev pub Dict : Type 0
Dict = List (Bytes × Bytes)

-- `dict.find(key)`
unfoldable pub find : Bytes → Dict → Option Bytes
find key [] = none
find key ((k, v) ∷ dict) = if same_text k key then some v else find key dict

-- `dict[key] = value`
unfoldable pub put : Bytes → Bytes → Dict → Dict
put key value [] = (key, value) ∷ []
put key value ((k, v) ∷ dict) =
    if same_text k key then (k, value) ∷ dict else (k, v) ∷ put key value dict

-- `global_dict` and `tree_dict`; the trees are there in the order of the file, the last one first.
pub record Dicts : Type 0 where
  pub global_dict : Dict
  pub tree_dict : List Dict

-- `tree_dict.back()[key] = value` or `global_dict[key] = value`: `in_tree` is set once a tree is there.
unfoldable pub store_entry : Bytes → Bytes → Dict → List Dict → Dicts
unfolding put
store_entry key value global [] = record { global_dict = put key value global; tree_dict = [] }
store_entry key value global (d ∷ ds) = record {
  global_dict = global;
  tree_dict = put key value d ∷ ds;
}

unfoldable pub parse_line : Bytes → Dicts → Result Dicts
unfolding getline store_entry
parse_line line dicts = do
  let (key, ss₁) = getline b'=' [] (stream_of line)
  let (value, ss₂) = getline b'=' [] ss₁
  let (rest, ss₃) = getline b'\n' [] ss₂
  guard (length rest == 0) (check_failed "Ill-formed LightGBM model file")
  if same_text key (codes "Tree")
      then ok (record dicts { tree_dict = [] ∷ dicts.tree_dict })
      else ok (store_entry key value dicts.global_dict dicts.tree_dict)

unfoldable pub parse_lines : List Bytes → Dicts → Result Dicts
unfolding parse_line
parse_lines [] dicts = ok dicts
parse_lines (line ∷ lines) dicts = do dicts' ← parse_line line dicts; parse_lines lines dicts'

-- What the second block of `ParseStream` takes from `global_dict`.
pub record Globals : Type 0 where
  pub obj_name : Bytes
  pub obj_param : List Bytes
  pub max_feature_idx : ℕ
  pub num_tree_per_iteration : ℕ
  pub average_output : Bool

-- `CHECK(it != dict.end())`
unfoldable pub need : Option Bytes → String → Result Bytes
need none why = err (check_failed why)
need (some text) why = ok text

-- `CHECK(it != dict.end() && !it->second.empty())`
unfoldable pub need_text : Option Bytes → String → Result Bytes
need_text none why = err (check_failed why)
need_text (some []) why = err (check_failed why)
need_text (some (c ∷ cs)) why = ok (c ∷ cs)

-- `obj_strs[0]` and the strings behind it.
unfoldable pub split_objective : List Bytes → Result (Bytes × List Bytes)
split_objective [] = err fault
split_objective (name ∷ params) = ok (name, params)

abbrev is_some : Option Bytes → Bool
is_some none = false
is_some (some text) = true

unfoldable pub parse_globals : Dict → Result Globals
unfolding find need split_objective split_text text_to_int
parse_globals dict = do
  objective ← need (find (codes "objective") dict) "Ill-formed LightGBM model file: need objective"
  (obj_name, obj_param) ← split_objective (split_text objective b' ')
  max_idx ←
      need (find (codes "max_feature_idx") dict)
        "Ill-formed LightGBM model file: need max_feature_idx"
  max_feature_idx ← text_to_int max_idx
  per_iteration ←
      need (find (codes "num_tree_per_iteration") dict)
        "Ill-formed LightGBM model file: need num_tree_per_iteration"
  num_tree_per_iteration ← text_to_int per_iteration
  ok (record {
    obj_name = obj_name;
    obj_param = obj_param;
    max_feature_idx = max_feature_idx;
    num_tree_per_iteration = num_tree_per_iteration;
    average_output = is_some (find (codes "average_output") dict);
  })

pub record LgbTree : Type 0 where
  pub num_leaves : ℕ
  pub num_cat : ℕ
  pub leaf_value : List ℕ
  pub decision_type : List ℕ
  pub cat_boundaries : List ℕ
  pub cat_threshold : List ℕ
  pub split_feature : List ℕ
  pub threshold : List ℕ
  pub left_child : List ℕ
  pub right_child : List ℕ
  pub split_gain : List TlFloat
  pub internal_count : List ℕ
  pub leaf_count : List ℕ

-- `x <= 1` of an `int`
abbrev pub at_most_one : ℕ → Bool
at_most_one x = leb x 1 || leb 0x8000_0000 x

-- A list of one entry for each test node that the file must have.
unfoldable pub node_array : (Bytes → Result ℕ) → Dict → String → String → ℕ → Result (List ℕ)
unfolding find need_text text_to_array
node_array convert dict key why num_leaves =
    if at_most_one num_leaves
    then ok []
    else (need_text (find (codes key) dict) why >>= λ text.
        text_to_array convert text (num_leaves - 1))

-- The entries that a file may leave out, but not leave empty; `absent` stands for them.
unfoldable pub optional_array :
    (Bytes → Result ℕ) → Dict → String → String → List ℕ → ℕ → Result (List ℕ)
unfolding find need_text text_to_array
optional_array convert dict key why absent num_leaves =
    if at_most_one num_leaves then ok [] else elim (find (codes key) dict) [
      | none ↦ ok absent
      | some text ↦
          need_text (some text) why >>= λ text'. text_to_array convert text' (num_leaves - 1)
    ]

-- `cat_boundaries` and `cat_threshold`; the last boundary is converted to an `int`.
unfoldable pub categories_of : Dict → ℕ → Result (List ℕ × List ℕ)
unfolding find need_text text_to_array text_to_uint32 text_to_uint64
categories_of dict num_cat =
    if ltb 0 num_cat && ltb num_cat 0x8000_0000
    then (do
      bounds ←
          need_text (find (codes "cat_boundaries") dict)
            "Ill-formed LightGBM model file: need cat_boundaries"
      cat_boundaries ← text_to_array text_to_uint64 bounds (num_cat + 1)
      words ←
          need_text (find (codes "cat_threshold") dict)
            "Ill-formed LightGBM model file: need cat_threshold"
      last ← or_fault (get_elem? cat_boundaries (length cat_boundaries - 1))
      cat_threshold ← text_to_array text_to_uint32 words (last % 0x1_0000_0000)
      ok (cat_boundaries, cat_threshold))
    else ok ([], [])

unfoldable pub leaf_counts : Dict → ℕ → Result (List ℕ)
unfolding find text_to_array text_to_int
leaf_counts dict num_leaves =
    if num_leaves == 0
    then ok []
    else (guard (ltb num_leaves 0x8000_0000) (check_failed "Check failed: tree.num_leaves > 0")
        >> elim (find (codes "leaf_count") dict) [
          | none ↦ ok []
          | some text ↦
              if length text == 0 then ok [] else text_to_array text_to_int text num_leaves
        ])

unfoldable pub parse_tree : FloatLibrary → Dict → Result LgbTree
unfolding find need need_text text_to_int text_to_array node_array optional_array categories_of
    leaf_counts text_to_double text_to_float text_to_int8
parse_tree lib dict = do
  leaves ← need (find (codes "num_leaves") dict) "Ill-formed LightGBM model file: need num_leaves"
  num_leaves ← text_to_int leaves
  cat ← need (find (codes "num_cat") dict) "Ill-formed LightGBM model file: need num_cat"
  num_cat ← text_to_int cat
  values ←
      need_text (find (codes "leaf_value") dict) "Ill-formed LightGBM model file: need leaf_value"
  leaf_value ← text_to_array (text_to_double lib) values num_leaves
  decision_type ←
      optional_array text_to_int8 dict "decision_type"
        "Ill-formed LightGBM model file: decision_type cannot be empty string"
        (replicate (num_leaves - 1) 0) num_leaves
  (cat_boundaries, cat_threshold) ← categories_of dict num_cat
  split_feature ←
      node_array text_to_int dict "split_feature"
        "Ill-formed LightGBM model file: need split_feature" num_leaves
  threshold ←
      node_array (text_to_double lib) dict "threshold"
        "Ill-formed LightGBM model file: need threshold" num_leaves
  split_gain ←
      optional_array (text_to_float lib) dict "split_gain"
        "Ill-formed LightGBM model file: split_gain cannot be empty string" [] num_leaves
  internal_count ←
      optional_array text_to_int dict "internal_count"
        "Ill-formed LightGBM model file: internal_count cannot be empty string" [] num_leaves
  leaf_count ← leaf_counts dict num_leaves
  left_child ←
      node_array text_to_int dict "left_child" "Ill-formed LightGBM model file: need left_child"
        num_leaves
  right_child ←
      node_array text_to_int dict "right_child" "Ill-formed LightGBM model file: need right_child"
        num_leaves
  ok (record {
    num_leaves = num_leaves;
    num_cat = num_cat;
    leaf_value = leaf_value;
    decision_type = decision_type;
    cat_boundaries = cat_boundaries;
    cat_threshold = cat_threshold;
    split_feature = split_feature;
    threshold = threshold;
    left_child = left_child;
    right_child = right_child;
    split_gain = split_gain;
    internal_count = internal_count;
    leaf_count = leaf_count;
  })
