-- ===== src/XgBoost/Parse/Files.antt =====
-- A whole file, as XGBoost writes it, and what `parse_contents` makes of it.
use treelite.Prelude.{
  ◌≤◌, ◌<◌, ◌≡◌, refl, sym, ap, ◌∙◌, arith, true, inl, inr, List, [], ◌∷◌, ◌++◌, map, ok, ◌>>=◌,
  check_failed, length, replicate, take, All, Bytes, codes, same_text, le→leb, lt→ltb, ◌==◌, ==_iff,
  Bool-cases,
}
use mathlib.Core.List.{append_assoc}
use treelite.XgBoost.Stream.{ByteStream, Peekable, new_stream}
use treelite.XgBoost.Stream.Ring.{held}
use treelite.XgBoost.Stream.Reads.{Delivers, pending}
use treelite.XgBoost.Stream.Peeks.{peek_read-pending}
use treelite.XgBoost.Parse.{
  LearnerModelParam, GbTreeModelParam, XgbTree, learner_param, gbm_param, read_text, consume_bytes,
  check_header, load_trees, load_model, Contents, parse_contents,
}
use treelite.XgBoost.Parse.Layout.{
  le_bytes, IsInt, ints, learner_fields, gbm_fields, learner_param-ints, gbm_param-ints,
}
use treelite.XgBoost.Parse.Loads.{
  LeafVectors, TreeOk, tree_bytes, At, read_all-At, read_len-At, load_tree-tree_bytes,
}

-- What a file says; each tree has the bytes of its leaf vectors.
pub record File : Type 0 where
  pub mparam : LearnerModelParam
  pub name_obj : Bytes
  pub gbm : GbTreeModelParam
  pub trees : List (XgbTree × Bytes)

-- A text behind its length.
unfoldable pub text_bytes : Bytes → Bytes
unfolding le_bytes
text_bytes text = le_bytes 8 (length text) ++ text

unfoldable pub trees_bytes : List (XgbTree × Bytes) → Bytes
unfolding tree_bytes
trees_bytes [] = []
trees_bytes ((tree, leaf_vectors) ∷ trees) = tree_bytes tree leaf_vectors ++ trees_bytes trees

unfoldable pub learner_bytes : LearnerModelParam → Bytes
unfolding ints
learner_bytes mparam = ints (learner_fields mparam) ++ replicate 108 0

unfoldable pub gbm_bytes : GbTreeModelParam → Bytes
unfolding ints
gbm_bytes gbm = ints (gbm_fields gbm) ++ replicate 128 0

unfoldable pub file_bytes : File → Bytes
unfolding text_bytes trees_bytes learner_bytes gbm_bytes
file_bytes file =
    codes "binf"
    ++ (learner_bytes file.mparam
        ++ (text_bytes file.name_obj
            ++ (text_bytes (codes "gbtree") ++ (gbm_bytes file.gbm ++ trees_bytes file.trees))))

pub record FileOk (file : File) : Type 0 where
  pub learner_fits : All IsInt (learner_fields file.mparam)
  pub short_name : length file.name_obj ≤ 0x7fff_ffff_ffff_fffe
  pub gbm_fits : All IsInt (gbm_fields file.gbm)
  pub one_root : file.gbm.num_roots ≡ 1
  pub few : file.gbm.num_trees < 0x8000_0000
  pub all_trees : length file.trees ≡ file.gbm.num_trees
  pub trees_ok : All (λ x. TreeOk x.0 × LeafVectors x.0.param x.1) file.trees

-- What the model is made from.
abbrev pub contents_of : File → Contents
contents_of file = record {
  mparam = file.mparam;
  name_obj = file.name_obj;
  trees = map (λ x. x.0) file.trees;
}

length-learner_bytes : (p : LearnerModelParam) → length (learner_bytes p) ≡ 136
unfolding learner_bytes ints le_bytes
length-learner_bytes p = refl

length-gbm_bytes : (p : GbTreeModelParam) → length (gbm_bytes p) ≡ 160
unfolding gbm_bytes ints le_bytes
length-gbm_bytes p = refl

learner_param-learner_bytes :
    (p : LearnerModelParam) → All IsInt (learner_fields p) → learner_param (learner_bytes p) ≡ p
unfolding learner_bytes
learner_param-learner_bytes p h = learner_param-ints p (replicate 108 0) h

gbm_param-gbm_bytes :
    (p : GbTreeModelParam) → All IsInt (gbm_fields p) → gbm_param (gbm_bytes p) ≡ p
unfolding gbm_bytes
gbm_param-gbm_bytes p h = gbm_param-ints p (replicate 128 0) h

module _ (lib : ByteStream) (rest : lib.State → Bytes) (delivers : Delivers lib rest) where
  read_text-At :
      (text : Bytes) (p : Peekable lib.State) (ys : Bytes)
      → At lib rest delivers p (text_bytes text ++ ys)
      → length text ≤ 0x7fff_ffff_ffff_fffe
      → (p' : Peekable lib.State) × (read_text lib p ≡ ok (text, p')) × At lib rest delivers p' ys
  unfolding read_text text_bytes
  read_text-At text p ys at short =
      let why = check_failed "Ill-formed XGBoost model file: corrupted header" in
      let at' : At lib rest delivers p (le_bytes 8 (length text) ++ (text ++ ys)) = record {
        ring = at.ring;
        comes = at.comes ∙ append_assoc (le_bytes 8 (length text)) text ys;
      } in
      let (q, e, at₁) =
        read_len-At lib rest delivers (length text) why p (text ++ ys) at' (omega arith) in
      let allowed = le→leb (length text) 0x7fff_ffff_ffff_fffe short in
      elim (Bool-cases (length text == 0)) [
        | inl z ↦
            let none = no_bytes text ((==_iff (length text) 0).0 z) in
            (
              q,
              rw (e, allowed, z) (ap (λ xs. ok (xs, q)) (sym none)),
              record { ring = at₁.ring; comes = at₁.comes ∙ ap (λ xs. xs ++ ys) none },
            )
        | inr z ↦
            let (p', e', at₂) =
              read_all-At lib rest delivers (length text) why q text ys at₁ refl in
            (p', rw (e, allowed, z, e') refl, at₂)
      ]
    where
      no_bytes : (xs : Bytes) → length xs ≡ 0 → xs ≡ []
      no_bytes [] h = refl
      no_bytes (x ∷ xs) h = absurd (omega (arith, h))

  load_trees-At :
      (trees : List (XgbTree × Bytes)) (p : Peekable lib.State)
      → All (λ x. TreeOk x.0 × LeafVectors x.0.param x.1) trees
      → At lib rest delivers p (trees_bytes trees)
      → (p' : Peekable lib.State) × (load_trees lib (length trees) p
          ≡ ok (map (λ x. x.0) trees, p'))
  unfolding load_trees trees_bytes
  load_trees-At [] p good at = (p, refl)
  load_trees-At ((tree, leaf) ∷ trees) p ((good, leaf_ok), more) at =
      let (q, e, at') =
        load_tree-tree_bytes lib rest delivers tree leaf (trees_bytes trees) p good leaf_ok at in
      let (p', e') = load_trees-At trees q more at' in (p', rw (e, e') refl)

  load_model-At :
      (file : File) (p : Peekable lib.State)
      → FileOk file
      → At lib rest delivers p (trees_bytes file.trees)
      → load_model lib file.gbm p ≡ ok (map (λ x. x.0) file.trees)
  unfolding load_model
  load_model-At file p good at =
      let (p', e) = load_trees-At file.trees p good.trees_ok at in
      let n : length file.trees ≡ file.gbm.num_trees = good.all_trees in
      rw
        (
          lt→ltb file.gbm.num_trees 0x8000_0000 good.few,
          ← n,
          e,
          (==_iff file.gbm.num_roots 1).1 good.one_root,
        )
        refl

  check_header-At :
      (p : Peekable lib.State) (ys : Bytes)
      → length (held p) ≡ 0
      → At lib rest delivers p (codes "binf" ++ ys)
      → (p' : Peekable lib.State) × (check_header lib p ≡ ok p') × At lib rest delivers p' ys
  unfolding check_header consume_bytes same_text
  check_header-At p ys none at =
      let long = ap (λ xs. length xs) at.comes in
      let (bytes, q, e, front, least, most, ring, same) =
        peek_read-pending lib rest delivers 4 4 p at.ring (omega arith) (omega (arith, long))
          (omega arith) (omega (arith, none)) in
      let four : length bytes ≡ 4 = omega (arith, least, most) in
      let header : bytes ≡ codes "binf" =
        sym front
        ∙ ap (λ n. take n (pending lib rest delivers p)) four
        ∙ ap (λ xs. take 4 xs) at.comes in
      let at' : At lib rest delivers q (codes "binf" ++ ys) = record {
        ring = ring;
        comes = same ∙ at.comes;
      } in
      let (p', e', at₁) =
        read_all-At lib rest delivers 4
          (check_failed "Ill-formed XGBoost model format: cannot read bytes from the file") q
          (codes "binf") ys at' refl in
      (p', rw (e, header, e') refl, at₁)

  fresh :
      (file : File) (buf : Bytes) (s : lib.State)
      → length buf ≡ 1025
      → rest s ≡ file_bytes file
      → At lib rest delivers (new_stream lib buf s) (file_bytes file)
        × (length (held (new_stream lib buf s)) ≡ 0)
  unfolding new_stream held pending
  fresh file buf s full stream = (
    record {
      ring = record { full = full; begin_inside = omega arith; end_inside = omega arith };
      comes = stream;
    },
    refl,
  )

  is_gbtree : same_text (codes "gbtree") (codes "gbtree") ≡ true
  unfolding same_text
  is_gbtree = refl

  -- From a stream that gives the bytes of a file, with "binf" as its first four, and a fresh buffer of
  -- 1025 bytes, the first step of `ParseStream` succeeds, and what it has read are the parameters,
  -- the objective and the trees of the file, for an objective of less than 2 ^ 63 - 1 bytes, and for
  -- less than 2 ^ 31 trees of less than 2 ^ 31 nodes each.
  pub parse_contents-file_bytes :
      (file : File) (buf : Bytes) (s : lib.State)
      → length buf ≡ 1025
      → FileOk file
      → rest s ≡ file_bytes file
      → parse_contents lib (new_stream lib buf s) ≡ ok (contents_of file)
  unfolding parse_contents file_bytes
  parse_contents-file_bytes file buf s full good stream =
      let trees = trees_bytes file.trees in
      let gbm = gbm_bytes file.gbm in
      let after_obj = text_bytes (codes "gbtree") ++ (gbm ++ trees) in
      let corrupted = check_failed "Ill-formed XGBoost model file: corrupted header" in
      let (at, none) = fresh file buf s full stream in
      let (p₁, e₁, at₁) =
        check_header-At (new_stream lib buf s)
          (learner_bytes file.mparam ++ (text_bytes file.name_obj ++ after_obj)) none at in
      let (p₂, e₂, at₂) =
        read_all-At lib rest delivers 136 corrupted p₁ (learner_bytes file.mparam)
          (text_bytes file.name_obj ++ after_obj) at₁ (length-learner_bytes file.mparam) in
      let (p₃, e₃, at₃) = read_text-At file.name_obj p₂ after_obj at₂ good.short_name in
      let (p₄, e₄, at₄) = read_text-At (codes "gbtree") p₃ (gbm ++ trees) at₃ (omega arith) in
      let (p₅, e₅, at₅) =
        read_all-At lib rest delivers 160
          (check_failed "Invalid XGBoost model file: corrupted GBTree parameters") p₄ gbm trees at₄
          (length-gbm_bytes file.gbm) in
      let whole = load_model-At file p₅ good at₅ in
      rw (e₁, e₂, e₃, e₄, is_gbtree, e₅)
        (ap
            (λ g. load_model lib g p₅ >>= λ loaded. ok (record {
              mparam = learner_param (learner_bytes file.mparam);
              name_obj = file.name_obj;
              trees = loaded;
            }))
            (gbm_param-gbm_bytes file.gbm good.gbm_fits)
          ∙ ap
              (λ r. r >>= λ loaded. ok (record {
                mparam = learner_param (learner_bytes file.mparam);
                name_obj = file.name_obj;
                trees = loaded;
              }))
              whole
          ∙ ap
              (λ m. ok (record {
                mparam = m;
                name_obj = file.name_obj;
                trees = map (λ x. x.0) file.trees;
              }))
              (learner_param-learner_bytes file.mparam good.learner_fits))
