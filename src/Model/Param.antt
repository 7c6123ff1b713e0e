-- ===== src/Model/Param.antt =====
-- What `InitAllowUnknown` keeps of the parameters.
use treelite.Prelude.{
  ℕ, zero, suc, ◌≡◌, refl, sym, ap, arith, inl, inr, Bool-cases, List, [], ◌∷◌, ◌++◌, Result, ok,
  some, >>=-eq-ok, ok-injective, length, length-append, length-replicate, get_elem?,
  get_elem?-append_length, String, Bytes, ◌==◌,
}
use text.Mathlib.Text.{◌==◌ as str_eq}
use treelite.Base.{TlFloat}
use treelite.Model.{ModelParam, copied, set_param, init_allow_unknown}

-- The name of the transform ends inside of its array of 256 characters.
pub record IsTerminated (param : ModelParam) : Type 0 where
  pub full : length param.pred_transform ≡ 256
  pub terminator : get_elem? param.pred_transform 255 ≡ some 0

length-copied : (n : ℕ) (src : Bytes) → length (copied n src) ≡ n
unfolding copied
length-copied zero src = refl
length-copied (suc n) [] = length-replicate (suc n) 0
length-copied (suc n) (c ∷ src) = elim (Bool-cases (c == 0)) [
  | inl p ↦ rw p (length-replicate {A = ℕ} (suc n) 0)
  | inr p ↦ rw p (ap suc (length-copied n src))
]

written-IsTerminated :
    (value : Bytes) (param : ModelParam)
    → IsTerminated (record param { pred_transform = copied 255 value ++ 0 ∷ [] })
written-IsTerminated value param = record {
  full = omega (arith, length-append (copied 255 value) (0 ∷ []), length-copied 255 value);
  terminator =
      let last = get_elem?-append_length (copied 255 value) [] 0 in
      rw (length-copied 255 value) at last;
}

set_param-IsTerminated :
    (stof : Bytes → Result TlFloat) (name : String) (value : Bytes) (param param' : ModelParam)
    → IsTerminated param
    → set_param stof name value param ≡ ok param'
    → IsTerminated param'
unfolding set_param
set_param-IsTerminated stof name value param param' t h =
    elim (Bool-cases (str_eq name "pred_transform")) [
      | inl p ↦ let e = ok-injective (rw p at h) in rw (← e) (written-IsTerminated value param)
      | inr p ↦ elim (Bool-cases (str_eq name "sigmoid_alpha")) [
        | inl q ↦
            let (x, _, e) =
              >>=-eq-ok (stof value) (λ x. ok (record param { sigmoid_alpha = x }))
                (rw (p, q) at h) in
            let e' = ok-injective e in
            rw (← e') (record { full = t.full; terminator = t.terminator })
        | inr q ↦ elim (Bool-cases (str_eq name "global_bias")) [
          | inl r ↦
              let (x, _, e) =
                >>=-eq-ok (stof value) (λ x. ok (record param { global_bias = x }))
                  (rw (p, q, r) at h) in
              let e' = ok-injective e in
              rw (← e') (record { full = t.full; terminator = t.terminator })
          | inr r ↦ let e = ok-injective (rw (p, q, r) at h) in rw (← e) t
        ]
      ]
    ]

-- Whatever parameters are given, where `InitAllowUnknown` succeeds the name of the transform still
-- ends inside of its array, and no parameter is reported as unknown.
pub init_allow_unknown-IsTerminated :
    (stof : Bytes → Result TlFloat) (kwargs unknown : List (String × Bytes))
    (param param' : ModelParam)
    → IsTerminated param
    → init_allow_unknown stof kwargs param ≡ ok (param', unknown)
    → IsTerminated param' × (unknown ≡ [])
unfolding init_allow_unknown
init_allow_unknown-IsTerminated stof [] unknown param param' t h =
    let e : (param, []) ≡ (param', unknown) = ok-injective h in
    let e₀ : param ≡ param' = ap (λ q. q.0) e in
    let e₁ : [] ≡ unknown = ap (λ q. q.1) e in (rw (← e₀) t, sym e₁)
init_allow_unknown-IsTerminated stof ((name, value) ∷ kwargs) unknown param param' t h =
    let (p, e, r) =
      >>=-eq-ok (set_param stof name value param) (init_allow_unknown stof kwargs) h in
    init_allow_unknown-IsTerminated stof kwargs unknown p param'
      (set_param-IsTerminated stof name value param p t e) r
