-- ===== src/Model/Frames.antt =====
-- `GetPyBuffer` and `InitFromPyBuffer` of `Tree` and `Model`: views of the arrays for another
-- language. `buf` points to memory that holds values of one type; to read it as values of another
-- type of that size is a fault here.
use treelite.Prelude.{
  ℕ, ◌-◌, ◌%◌, Bool, List, [], ◌∷◌, ◌++◌, String, Result, ok, err, ◌>>=◌, ◌>>◌, guard, fault,
  runtime_error, or_fault, get_elem?, drop, length, ◌==◌, if◌then◌else◌,
}
use treelite.ContiguousArray.{ContiguousArray, use_foreign_buffer, size}
use treelite.Tree.{Tree, Node, default_tree}
use treelite.Model.{Model, ModelParam}

-- What a frame's memory holds: integers or floats, by their patterns, or structures.
pub data Cells : Type 0 where
  numbers : List ℕ → Cells
  flag : Bool → Cells
  node_cells : List Node → Cells
  param_cell : ModelParam → Cells

pub record PyBufferFrame : Type 0 where
  pub buf : Cells
  pub format : String
  pub itemsize : ℕ
  pub nitem : ℕ

-- `sizeof(Node)`, as the format of its fields adds up, and `sizeof(ModelParam)`.
abbrev pub node_size : ℕ
node_size = 48

abbrev pub param_size : ℕ
param_size = 264

-- The arithmetic types of the scalars and arrays, for `InferFormatString`.
pub data Scalar : Type 0 where
  int32 uint32 size_t float32 boolean : Scalar

unfoldable pub infer_format_string : Scalar → String
infer_format_string int32 = "=l"
infer_format_string uint32 = "=L"
infer_format_string size_t = "=Q"
infer_format_string float32 = "=f"
infer_format_string boolean = "=B"

-- `sizeof`
unfoldable pub size_of : Scalar → ℕ
size_of int32 = 4
size_of uint32 = 4
size_of size_t = 8
size_of float32 = 4
size_of boolean = 1

unfoldable pub get_py_buffer_from_array : Scalar → ContiguousArray ℕ → PyBufferFrame
unfolding infer_format_string size_of size
get_py_buffer_from_array type vec = record {
  buf = numbers vec.items;
  format = infer_format_string type;
  itemsize = size_of type;
  nitem = size vec;
}

unfoldable pub get_py_buffer_from_scalar : Scalar → ℕ → PyBufferFrame
unfolding infer_format_string size_of
get_py_buffer_from_scalar type scalar = record {
  buf = numbers (scalar ∷ []);
  format = infer_format_string type;
  itemsize = size_of type;
  nitem = 1;
}

unfoldable pub tree_frames : Tree → List PyBufferFrame
unfolding get_py_buffer_from_scalar get_py_buffer_from_array
tree_frames t =
    get_py_buffer_from_scalar int32 t.num_nodes
    ∷ (record {
      buf = node_cells t.nodes.items;
      format = "T{=l=l=L=f=Q=d=d=b=b=?=?=?=?=H}";
      itemsize = node_size;
      nitem = size t.nodes;
    })
    ∷ get_py_buffer_from_array float32 t.leaf_vector
    ∷ get_py_buffer_from_array size_t t.leaf_vector_offset
    ∷ get_py_buffer_from_array uint32 t.left_categories
    ∷ get_py_buffer_from_array size_t t.left_categories_offset
    ∷ []

-- The loop over the trees.
unfoldable pub body_frames : List Tree → List PyBufferFrame
body_frames [] = []
body_frames (t ∷ ts) = tree_frames t ++ body_frames ts

unfoldable pub model_frames : Model → List PyBufferFrame
unfolding get_py_buffer_from_scalar
model_frames m =
    get_py_buffer_from_scalar int32 m.num_feature
    ∷ get_py_buffer_from_scalar int32 m.num_output_group
    ∷ (record { buf = flag m.random_forest_flag; format = "=B"; itemsize = 1; nitem = 1 })
    ∷ (record {
      buf = param_cell m.param;
      format = "T{256s=f=f}";
      itemsize = param_size;
      nitem = 1;
    })
    ∷ body_frames m.trees

-- The first `nitem` numbers of the memory.
pub as_numbers : Cells → ℕ → Result (List ℕ)
as_numbers (numbers xs) nitem = if length xs == nitem then ok xs else err fault
as_numbers (flag b) nitem = err fault
as_numbers (node_cells ns) nitem = err fault
as_numbers (param_cell p) nitem = err fault

pub as_nodes : Cells → ℕ → Result (List Node)
as_nodes (numbers xs) nitem = err fault
as_nodes (flag b) nitem = err fault
as_nodes (node_cells ns) nitem = if length ns == nitem then ok ns else err fault
as_nodes (param_cell p) nitem = err fault

-- The memory of a scalar.
pub as_number : Cells → Result ℕ
as_number (numbers (x ∷ [])) = ok x
as_number _ = err fault

pub as_flag : Cells → Result Bool
as_flag (flag b) = ok b
as_flag _ = err fault

pub as_param : Cells → Result ModelParam
as_param (param_cell p) = ok p
as_param _ = err fault

unfoldable pub init_array_from_py_buffer :
    Scalar → ContiguousArray ℕ → PyBufferFrame → Result (ContiguousArray ℕ)
unfolding size_of as_numbers use_foreign_buffer
init_array_from_py_buffer type vec buffer = do
  guard (size_of type == buffer.itemsize) (runtime_error "Incorrect itemsize")
  xs ← as_numbers buffer.buf buffer.nitem
  ok (use_foreign_buffer xs vec)

-- The two checks of `InitScalarFromPyBuffer`.
unfoldable pub check_scalar : ℕ → PyBufferFrame → Result (Unit {0})
check_scalar bytes buffer = do
  guard (bytes == buffer.itemsize) (runtime_error "Incorrect itemsize")
  guard (buffer.nitem == 1) (runtime_error "nitem must be 1 for a scalar")

unfoldable pub init_scalar_from_py_buffer : Scalar → PyBufferFrame → Result ℕ
unfolding size_of check_scalar as_number
init_scalar_from_py_buffer type buffer = do check_scalar (size_of type) buffer; as_number buffer.buf

-- `Tree::InitFromPyBuffer`. A frame that is not there is a read past the end of the vector.
unfoldable pub init_tree : Tree → List PyBufferFrame → Result Tree
unfolding init_scalar_from_py_buffer init_array_from_py_buffer as_nodes use_foreign_buffer size
init_tree t frames = do
  num ← or_fault (get_elem? frames 0)
  num_nodes ← init_scalar_from_py_buffer int32 num
  ns ← or_fault (get_elem? frames 1)
  guard (node_size == ns.itemsize) (runtime_error "Incorrect itemsize")
  cells ← as_nodes ns.buf ns.nitem
  let nodes = use_foreign_buffer cells t.nodes
  guard (num_nodes == size nodes) (runtime_error "Could not load the correct number of nodes")
  lv ← or_fault (get_elem? frames 2)
  leaf_vector ← init_array_from_py_buffer float32 t.leaf_vector lv
  lvo ← or_fault (get_elem? frames 3)
  leaf_vector_offset ← init_array_from_py_buffer size_t t.leaf_vector_offset lvo
  lc ← or_fault (get_elem? frames 4)
  left_categories ← init_array_from_py_buffer uint32 t.left_categories lc
  lco ← or_fault (get_elem? frames 5)
  left_categories_offset ← init_array_from_py_buffer size_t t.left_categories_offset lco
  ok (record {
    nodes = nodes;
    leaf_vector = leaf_vector;
    leaf_vector_offset = leaf_vector_offset;
    left_categories = left_categories;
    left_categories_offset = left_categories_offset;
    num_nodes = num_nodes;
  })

-- The loop over the frames, six for each tree; a new tree's `num_nodes` is as memory had it.
unfoldable pub init_trees : ℕ → List PyBufferFrame → Result (List Tree)
init_trees junk [] = ok []
init_trees junk (num ∷ ns ∷ lv ∷ lvo ∷ lc ∷ lco ∷ frames) = do
  t ← init_tree (default_tree junk) (num ∷ ns ∷ lv ∷ lvo ∷ lc ∷ lco ∷ [])
  ts ← init_trees junk frames
  ok (t ∷ ts)
init_trees junk _ = err fault

unfoldable pub init_model : ℕ → List PyBufferFrame → Result Model
unfolding init_scalar_from_py_buffer check_scalar as_flag as_param
init_model junk frames = do
  feature ← or_fault (get_elem? frames 0)
  num_feature ← init_scalar_from_py_buffer int32 feature
  group ← or_fault (get_elem? frames 1)
  num_output_group ← init_scalar_from_py_buffer int32 group
  forest ← or_fault (get_elem? frames 2)
  check_scalar 1 forest
  random_forest_flag ← as_flag forest.buf
  param ← or_fault (get_elem? frames 3)
  check_scalar param_size param
  p ← as_param param.buf
  guard ((length frames - 4) % 6 == 0) (runtime_error "Wrong number of frames")
  trees ← init_trees junk (drop 4 frames)
  ok (record {
    trees = trees;
    num_feature = num_feature;
    num_output_group = num_output_group;
    random_forest_flag = random_forest_flag;
    param = p;
  })
