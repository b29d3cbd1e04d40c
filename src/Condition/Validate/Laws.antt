-- ===== src/Condition/Validate/Laws.antt =====
-- What it means that validation finds no problem.
use stonefold.Prelude.{
  ◌≡◌, refl, ◌↔◌, String, true, List, [], ◌∷◌, ◌++◌, contains, arith, Bool-cases, inl, inr,
}
use stonefold.Condition.{
  Operand, path, literal, func, Operands, no_args, arg, Expr, both, either, negate, compare_to,
  in_expr, exists,
}
use stonefold.Condition.Evaluate.{namespace_names}
use stonefold.Condition.Validate.{
  function_names, Problem, check_path, check_name, check_operand, check_args, check, validate,
}

append_nil : (xs ys : List Problem) → xs ++ ys ≡ [] → (xs ≡ []) × (ys ≡ [])
append_nil [] ys h = (refl, h)
append_nil (x ∷ xs) ys h = cc

nil_append : {xs ys : List Problem} → xs ≡ [] → ys ≡ [] → xs ++ ys ≡ []
nil_append h k = rw (h, k) refl

module _ (namespaces : List String) where
  -- A path of more than one part starts at a known namespace; a function is one of the four.
  abbrev pub PathIsKnown : String → List String → Type 0
  PathIsKnown p [] = Unit
  PathIsKnown p (q ∷ qs) = contains namespaces p ≡ true

  unfoldable mutual
    pub OperandIsKnown : Operand → Type 0
    OperandIsKnown (path p ps) = PathIsKnown p ps
    OperandIsKnown (literal l) = Unit
    OperandIsKnown (func name os) = (contains function_names name ≡ true) × ArgsAreKnown os

    pub ArgsAreKnown : Operands → Type 0
    ArgsAreKnown no_args = Unit
    ArgsAreKnown (arg o os) = OperandIsKnown o × ArgsAreKnown os

  unfoldable pub IsKnown : Expr → Type 0
  IsKnown (both l r) = IsKnown l × IsKnown r
  IsKnown (either l r) = IsKnown l × IsKnown r
  IsKnown (negate e) = IsKnown e
  IsKnown (compare_to a o b) = OperandIsKnown a × OperandIsKnown b
  IsKnown (in_expr a b negated) = OperandIsKnown a × OperandIsKnown b
  IsKnown (exists p ps) = PathIsKnown p ps

  path_known :
      (p : String) (ps : List String) → (check_path namespaces p ps ≡ []) ↔ PathIsKnown p ps
  unfolding check_path
  path_known p [] = (λ h. tt, λ h. refl)
  path_known p (q ∷ qs) = (λ h. ground (arith, h), λ h. ground (arith, h))

  name_known :
      (name : String) → (check_name namespaces name ≡ []) ↔ (contains function_names name ≡ true)
  unfolding check_name
  name_known name = elim (Bool-cases (contains function_names name)) [
    | inl e ↦ (λ h. e, λ h. rw (check_name, e) refl)
    | inr e ↦ (λ h. absurd (cc ((rw (check_name, e) at h))), λ h. absurd (cc (h, e)))
  ]

  mutual
    unfolding check_operand check_args OperandIsKnown ArgsAreKnown

    known_operand : (o : Operand) → check_operand namespaces o ≡ [] → OperandIsKnown o
    known_operand (path p ps) h = (path_known p ps).0 h
    known_operand (literal l) h = tt
    known_operand (func name os) h =
        let (a, b) = append_nil (check_name namespaces name) (check_args namespaces os) h in
        ((name_known name).0 a, known_args os b)

    known_args : (os : Operands) → check_args namespaces os ≡ [] → ArgsAreKnown os
    known_args no_args h = tt
    known_args (arg o os) h =
        let (a, b) = append_nil (check_operand namespaces o) (check_args namespaces os) h in
        (known_operand o a, known_args os b)

    operand_known : (o : Operand) → OperandIsKnown o → check_operand namespaces o ≡ []
    operand_known (path p ps) h = (path_known p ps).1 h
    operand_known (literal l) h = refl
    operand_known (func name os) (a, b) = nil_append ((name_known name).1 a) (args_known os b)

    args_known : (os : Operands) → ArgsAreKnown os → check_args namespaces os ≡ []
    args_known no_args h = refl
    args_known (arg o os) (a, b) = nil_append (operand_known o a) (args_known os b)

  pair_known :
      (a b : Operand)
      → check_operand namespaces a ++ check_operand namespaces b ≡ []
      → OperandIsKnown a × OperandIsKnown b
  pair_known a b h =
      let (x, y) = append_nil (check_operand namespaces a) (check_operand namespaces b) h in
      (known_operand a x, known_operand b y)

  known : (e : Expr) → check namespaces e ≡ [] → IsKnown e
  unfolding check IsKnown
  known (both l r) h =
      let (a, b) = append_nil (check namespaces l) (check namespaces r) h in (known l a, known r b)
  known (either l r) h =
      let (a, b) = append_nil (check namespaces l) (check namespaces r) h in (known l a, known r b)
  known (negate e) h = known e h
  known (compare_to a o b) h = pair_known a b h
  known (in_expr a b negated) h = pair_known a b h
  known (exists p ps) h = (path_known p ps).0 h

  checked : (e : Expr) → IsKnown e → check namespaces e ≡ []
  unfolding check IsKnown
  checked (both l r) (a, b) = nil_append (checked l a) (checked r b)
  checked (either l r) (a, b) = nil_append (checked l a) (checked r b)
  checked (negate e) h = checked e h
  checked (compare_to a o b) (x, y) = nil_append (operand_known a x) (operand_known b y)
  checked (in_expr a b negated) (x, y) = nil_append (operand_known a x) (operand_known b y)
  checked (exists p ps) h = (path_known p ps).1 h

-- Validation finds no problem exactly when every path of more than one part, at any depth, starts at
-- one of the five namespaces or of those that the caller admits, and every function is one of the
-- four.
pub validate-IsKnown :
    (extra : List String) (e : Expr)
    → (validate extra e ≡ []) ↔ IsKnown (namespace_names ++ extra) e
unfolding validate
validate-IsKnown extra e =
    (known (namespace_names ++ extra) e, checked (namespace_names ++ extra) e)
