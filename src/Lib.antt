-- ===== src/Lib.antt =====
-- A verification library for treelite: decision tree ensembles, the compiler that turns them into C
-- code, and the runtime that calls the compiled code.
--
-- The parts and how they interact. A frontend builds a model, a list of trees (`class Tree`, arrays of
-- nodes with two arrays of slices for leaf vectors and categories) and their parameters. The frontends
-- are the model builder, which a program calls, and the loaders of LightGBM's and of XGBoost's models.
-- A model goes to other programs as a list of buffer frames. The branch annotator counts how often the
-- rows of a matrix visit each node. The compiler makes a syntax tree of the model (`BuildAST`),
-- changes it by passes (`LoadDataCounts`, `FoldCode`, `Split`, `QuantizeThresholds`) and writes C code
-- from it. The predictor hands the rows of a batch to the compiled function, over a pool of threads
-- that are fed by queues.
--
-- Which file models what:
--   Prelude          names of the libraries, Boolean tests, lists, results of fallible calls
--   Base             include/treelite/base.h, src/optable.cc
--   ContiguousArray  `ContiguousArray<T>` of include/treelite/tree.h and tree_impl.h: a record of the
--                    elements, the capacity and the ownership; `push_back` is `PushBack` and so on
--   Tree             `class Tree` of the same files: `alloc_node` is `AllocNode`, `add_childs` is
--                    `AddChilds`; Tree.Getters and Tree.Setters have the methods of these names.
--                    Tree.Invariant has the invariant `IsValid` that the theorems on trees keep
--   Annotator        src/annotator.cc: `traverse` is `Traverse`, `compute_branch_loop` is
--                    `ComputeBranchLoop`, `annotate` is `Annotate`; Annotator.Walks is about one
--                    traversal, Annotator.Forest about the loop over the trees, Annotator.RowLoop about
--                    that over the rows, and Annotator.Reduction and Annotator.Layout about what
--                    follows the loops
--   Ast              src/compiler/ast: the nodes; Ast.Build has `BuildAST`, Ast.Passes the passes that
--                    keep the shape, Ast.Split has `Split`, Ast.Folding has `FoldCode`, Ast.Quantize
--                    has `QuantizeThresholds`, the arrays that src/compiler/ast_native.cc writes for
--                    it, and the C function of src/compiler/native/qnode_template.h
--   Predictor        src/predictor/predictor.cc, include/treelite/predictor.h: `pred_loop` is
--                    `PredLoop` for both kinds of batches, which are instances of `Batch`;
--                    Predictor.Rows is about the row buffer, which the compiled function may write to;
--                    Predictor.Predict has `SplitBatch` and what shares the work;
--                    Predictor.SpscQueue has src/predictor/thread_pool/spsc_queue.h
--   Builder          src/frontend/builder.cc, `class TreeBuilder`, with the nodes in memory
--   ModelBuilder     src/frontend/builder.cc, `class ModelBuilder`, with `CommitModel`;
--                    ModelBuilder.Committed is about the trees that it makes
--   Model            `struct ModelParam` and `struct Model` of include/treelite/tree.h and tree_impl.h;
--                    Model.Frames has the buffer frames, `model_frames` is `GetPyBuffer` and
--                    `init_model` is `InitFromPyBuffer`
--   Frontend         the loop that the loaders have in their `ParseStream`, which copies a tree breadth
--                    first. Frontend.Source is what a frontend proves of its nodes, and
--                    Frontend.Represents what it gets for that
--   LightGbm         src/frontend/lightgbm.cc: LightGbm.Text has `LoadText`, LightGbm.Numbers has
--                    `TextToNumber` and `TextToArray`, LightGbm.Bitset has `BitsetToList`,
--                    LightGbm.Parse and LightGbm.Export have the two steps of `ParseStream`
--   XgBoost          src/frontend/xgboost.cc: XgBoost.Stream has `PeekableInputStream`, XgBoost.Parse
--                    and XgBoost.Export have the two steps of `ParseStream`; XgBoost.Parse.Layout and
--                    XgBoost.Parse.Files say how XGBoost writes what is read
--   Examples         the theorems at concrete inputs
--
-- How the code is modelled. A method takes its object and returns the new one. A call that can fail
-- returns a `Result`: a C++ exception with its message, `fault` for undefined behaviour (an access
-- outside of an array, a dangling pointer), or `out_of_fuel`. A `float` is its bit pattern, and an
-- `int` is its two's complement pattern below 2 ^ 32. Sizes are numbers; where a sum could wrap, the
-- modulus is written out. Fresh memory is an argument named `junk`.
--
-- Bounds and fuel. A traversal of a tree, and the construction of its syntax tree, have one round for
-- each node, which is enough because children have larger numbers than their parents. Doubling a
-- capacity has 64 rounds, enough for requests below 2 ^ 63. The search for a bin has one round for
-- each threshold, as every round narrows the range. `commit_model` has its fuel as an argument, and so
-- has `export_tree` of the loaders; a fuel above the number of nodes is enough. LightGBM's text is
-- read in chunks, for a buffer whose size is the argument `bufsize`; 16 MB in the code.
--
-- Not modelled: the text of the C code apart from thresholds (src/compiler/ast_native.cc, failsafe.cc,
-- elf), data matrices, the C API and the bindings, and input and output. A lack of memory is not
-- modelled either. What stands outside of the repository is an argument: the functions of a loaded
-- library, `dmlc::Stream`, the parser of parameters, the assignment of rows to threads, the conversions
-- and functions on `float` and `double` (`FloatLibrary`, `FloatMath`), and the logarithms of `FoldCode`.
pub mod Prelude
pub mod Base
pub mod ContiguousArray
pub mod Tree
pub mod Annotator
pub mod Ast
pub mod Predictor
pub mod Builder
pub mod Model
pub mod ModelBuilder
pub mod Frontend
pub mod LightGbm
pub mod XgBoost
pub mod Examples
