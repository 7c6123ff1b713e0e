-- ===== src/Ast/Split/Units.antt =====
-- Splitting keeps the core of the syntax tree.
use native.Mathlib.Nat.{div-add-mod, mod-lt}
use treelite.Prelude.{
  ℕ, zero, suc, ◌+◌, ◌-◌, ◌*◌, ◌/◌, ◌%◌, ◌≤◌, ◌<◌, min, false, List, [], ◌∷◌, ◌++◌, Result, Error,
  check_failed, ok, ◌>>=◌, guard, ◌≡◌, refl, sym, ap, ◌∙◌, arith, inl, inr, Bool-cases, >>=-eq-ok,
  ok-injective, length, take, drop, ltb, ltb→lt,
}
use mathlib.Core.List.{append-nil}
use treelite.Ast.{
  AstNode, ast_node, Children, leaf, child, Info, to_children, from_children, new_node,
  translation_unit_node, accumulator_context_node, top_ac_node, top_ac_node-ok,
}
use treelite.Ast.Passes.{count_tu_nodes}
use treelite.Ast.Core.{
  core_nodes, core_children, core_list, core_list-append, core_children-to_children,
  core_list-from_children,
}
use treelite.Ast.Split.{make_units, split, all_tree_heads}

take_nil : {A : Type 0} (n : ℕ) → take {A = A} n [] ≡ []
take_nil zero = refl
take_nil (suc n) = refl

take-drop_all : {A : Type 0} (b : ℕ) (xs : List A) → take (min b (length xs)) xs ++ drop b xs ≡ xs
take-drop_all zero [] = simp (take_nil (min 0 0))
take-drop_all (suc b) [] = simp (take_nil (min (suc b) 0))
take-drop_all zero (x ∷ xs) = let e : min 0 (suc (length xs)) ≡ 0 = omega arith in rw e refl
take-drop_all (suc b) (x ∷ xs) =
    let e : min (suc b) (suc (length xs)) ≡ suc (min b (length xs)) = omega arith in
    rw e (ap (◌∷◌ x) (take-drop_all b xs))

-- The elements from `a` up to `b`, or to the end, and those from `b` on.
pub take-drop_until :
    {A : Type 0} (a b : ℕ) (xs : List A)
    → a ≤ b
    → take (min b (length xs) - a) (drop a xs) ++ drop b xs ≡ drop a xs
take-drop_until zero b xs h =
    let e : min b (length xs) - 0 ≡ min b (length xs) = omega arith in rw e (take-drop_all b xs)
take-drop_until (suc a) zero xs h = elim h [ ]
take-drop_until (suc a) (suc b) [] h = simp (take_nil (min (suc b) 0 - suc a))
take-drop_until (suc a) (suc b) (x ∷ xs) h =
    let e : min (suc b) (suc (length xs)) - suc a ≡ min b (length xs) - a = omega arith in
    rw e (take-drop_until a b xs (omega (arith, h)))

pub drop-past : {A : Type 0} (n : ℕ) (xs : List A) → length xs ≤ n → drop n xs ≡ []
drop-past zero [] h = refl
drop-past (suc n) [] h = refl
drop-past zero (x ∷ xs) h = elim h [ ]
drop-past (suc n) (x ∷ xs) h = drop-past n xs (omega (arith, h))

unit-core :
    (u : ℕ) (trees : List AstNode)
    → core_nodes (new_node (translation_unit_node u) (new_node accumulator_context_node trees ∷ []))
      ≡ core_list trees
unfolding core_nodes to_children
unit-core u trees = append-nil (core_children (to_children trees)) ∙ core_children-to_children trees

no_unit :
    (a b n : ℕ) (xs : List AstNode)
    → a ≤ b
    → ltb a (min b (length xs)) ≡ false
    → drop b xs ≡ drop a xs
no_unit a b n xs h p = elim (Bool-cases (ltb a b)) [
  | inl q ↦
      let q' = ltb→lt a b q in
      let past : length xs ≤ a = ground arith in
      drop-past b xs (omega (arith, past, h)) ∙ sym (drop-past a xs past)
  | inr q ↦ let e : b ≡ a = ground arith in ap (λ k. drop k xs) e
]

make_units-core :
    (us tu : ℕ) (heads : List AstNode) (n id : ℕ)
    → length heads ≤ (id + n) * us
    → core_list (make_units us tu heads n id) ≡ core_list (drop (id * us) heads)
unfolding make_units core_list
make_units-core us tu heads zero id h = rw (drop-past (id * us) heads (omega (arith, h))) refl
make_units-core us tu heads (suc n) id h =
    let a = id * us in
    let b = suc id * us in
    let e : id + 1 ≡ suc id = omega arith in
    let le : a ≤ b = omega arith in
    let ih : core_list (make_units us tu heads n (suc id)) ≡ core_list (drop b heads) =
      make_units-core us tu heads n (suc id) (omega (arith, h)) in
    let trees = take (min b (length heads) - a) (drop a heads) in
    elim (Bool-cases (ltb a (min b (length heads)))) [
      | inl p ↦
          rw (e, p)
            (simp (
              unit-core (tu + id) trees,
              ih,
              ← core_list-append trees (drop b heads),
              take-drop_until a b heads le,
            ))
      | inr p ↦ rw (e, p) (ih ∙ ap core_list (no_unit a b n heads le p))
    ]

pub units_enough : (len p : ℕ) → len ≤ (0 + suc p) * ((len + suc p - 1) / suc p)
units_enough len p =
    let d = div-add-mod (len + suc p - 1) (suc p) in
    let m : (len + suc p - 1) % suc p < suc p = mod-lt (len + suc p - 1) (omega arith) in
    omega (arith, d, m)

-- Where `Split` succeeds, the nodes that compute something, with their fields, are the same before
-- and after it, in the same order.
pub split-core_nodes :
    (parallel_comp : ℕ) (main main' : AstNode)
    → split parallel_comp main ≡ ok main'
    → core_nodes main' ≡ core_nodes main
unfolding split core_nodes
split-core_nodes zero main main' h = ap core_nodes (sym (ok-injective h))
split-core_nodes (suc p) (ast_node kind info children) main' h =
    let (r, e, h₁) = >>=-eq-ok (top_ac_node children) checked h in
    let (_, _, h₂) =
      >>=-eq-ok (guard (all_tree_heads (from_children r.1)) failed)
        (λ _. ok (after (from_children r.1) r.0)) h₁ in
    let same = ok-injective h₂ in
    let kept = after-core r.1 r.0 in
    let old = top_ac_node-ok children r e in
    ap core_nodes (sym same) ∙ kept ∙ ap (λ ns. core_nodes (ast_node kind info ns)) (sym old)
  where
    failed : Error
    failed = check_failed "dynamic_cast<ConditionNode*>(node) || dynamic_cast<OutputNode*>(node)"

    units : List AstNode → List AstNode
    units heads =
        make_units ((length heads + suc p - 1) / suc p)
          (count_tu_nodes (ast_node kind info children)) heads (suc p) 0

    after : List AstNode → Info → AstNode
    after heads i =
        ast_node kind info
          (child (ast_node accumulator_context_node i (to_children (units heads))) leaf)

    checked : Info × Children → Result AstNode
    checked r = guard (all_tree_heads (from_children r.1)) failed >>= λ _.
        ok (after (from_children r.1) r.0)

    after-core :
        (trees : Children) (i : Info)
        → core_nodes (after (from_children trees) i)
          ≡ core_nodes (ast_node kind info (child (ast_node accumulator_context_node i trees) leaf))
    after-core trees i =
        let heads = from_children trees in
        let us = (length heads + suc p - 1) / suc p in
        let kept =
          make_units-core us (count_tu_nodes (ast_node kind info children)) heads (suc p) 0
            (units_enough (length heads) p) in
        let zero_mul : 0 * us ≡ 0 = omega arith in
        let kept' : core_list (units heads) ≡ core_list heads =
          kept ∙ ap (λ k. core_list (drop k heads)) zero_mul in
        simp (core_children-to_children (units heads), kept', core_list-from_children trees)
