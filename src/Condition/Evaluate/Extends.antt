-- ===== src/Condition/Evaluate/Extends.antt =====
-- A value that is missing never counts as false: a verdict that was reached stands in every context
-- that has more values.
use stonefold.Prelude.{
  false, Option-cases, some, arith, ◌≡◌, refl, String, inl, inr, List, [], ◌∷◌, contains,
}
use stonefold.Values.{Value, Fields, get}
use stonefold.Condition.{
  Operand, path, literal, func, Operands, no_args, arg, Expr, both, either, negate, compare_to,
  in_expr, exists,
}
use stonefold.Condition.Evaluate.{
  Eval, value, raise, ◌>>=◌, Thing, EvalContext, namespace_names, lookup_path, walk_path,
  call_function, resolve_path, resolve, resolve_args,
}

-- No operand is a whole namespace, which every further field changes.
unfoldable mutual
  pub NamesFields : Operand → Type 0
  NamesFields (path p []) = contains namespace_names p ≡ false
  NamesFields (path p (q ∷ qs)) = Unit
  NamesFields (literal l) = Unit
  NamesFields (func name os) = NamesFieldsAll os

  pub NamesFieldsAll : Operands → Type 0
  NamesFieldsAll no_args = Unit
  NamesFieldsAll (arg o os) = NamesFields o × NamesFieldsAll os

-- `exists`, which may ask for what is missing, does not stand in the expression, and no whole
-- namespace does.
abbrev pub AsksNothing : Expr → Type 0
AsksNothing (both l r) = AsksNothing l × AsksNothing r
AsksNothing (either l r) = AsksNothing l × AsksNothing r
AsksNothing (negate e) = AsksNothing e
AsksNothing (exists p ps) = ⊥
AsksNothing (in_expr a b negated) = NamesFields a × NamesFields b
AsksNothing (compare_to a o b) = NamesFields a × NamesFields b

-- `more` has every namespace and every field that `ctx` has, and any others; functions as well.
pub record Extends (ctx more : EvalContext) : Type 0 where
  pub fields :
      (p : String) (d : Fields)
      → ctx.namespaces p ≡ some d
      → (d' : Fields) × (more.namespaces p ≡ some d')
        × ((q : String) (v : Value) → get d q ≡ some v → get d' q ≡ some v)
  pub calls :
      (name : String) (vs : List Thing) (v : Thing)
      → call_function ctx name vs ≡ value v
      → call_function more name vs ≡ value v

pub same_value : {A : Type 0} {a b : A} → value a ≡ value b → a ≡ b
same_value h = cc

module _ {A B : Type 0} where
  pub bind_value :
      (r : Eval A) (f : A → Eval B) {b : B}
      → (r >>= f) ≡ value b
      → (a : A) × (r ≡ value a) × (f a ≡ value b)
  bind_value (value a) f h = (a, refl, h)
  bind_value (raise e) f h = cc

module _ (ctx more : EvalContext) (ext : Extends ctx more) where
  walk_path-Extends :
      (d d' : Fields) (q : String) (qs : List String) (v : Value)
      → ((n : String) (x : Value) → get d n ≡ some x → get d' n ≡ some x)
      → walk_path (Value.dict d) (q ∷ qs) ≡ value v
      → walk_path (Value.dict d') (q ∷ qs) ≡ value v
  unfolding walk_path
  walk_path-Extends d d' q qs v more_fields h = elim (Option-cases (get d q)) [
    | inl e ↦ absurd (ground (arith, e, h))
    | inr (x, e) ↦ rw (walk_path, more_fields q x e) (rw (walk_path, e) at h)
  ]

  lookup_path-Extends :
      (p : String) (q : String) (qs : List String) (v : Value)
      → lookup_path ctx p (q ∷ qs) ≡ value v
      → lookup_path more p (q ∷ qs) ≡ value v
  unfolding lookup_path
  lookup_path-Extends p q qs v h = elim (Option-cases (ctx.namespaces p)) [
    | inl e ↦ absurd (ground (arith, e, h))
    | inr (d, e) ↦
        let (d', e', more_fields) = ext.fields p d e in
        rw (lookup_path, e') (walk_path-Extends d d' q qs v more_fields (rw (lookup_path, e) at h))
  ]

  resolve_path-Extends :
      (p : String) (ps : List String) (v : Thing)
      → NamesFields (path p ps)
      → resolve_path ctx p ps ≡ value v
      → resolve_path more p ps ≡ value v
  unfolding resolve_path NamesFields
  resolve_path-Extends p [] v s h = rw (resolve_path, s) (rw (resolve_path, s) at h)
  resolve_path-Extends p (q ∷ qs) v s h =
      let (w, found, same) = bind_value (lookup_path ctx p (q ∷ qs)) _ h in
      rw (lookup_path-Extends p q qs w found) same

  mutual
    unfolding resolve resolve_args NamesFields

    resolve-Extends :
        (o : Operand) (v : Thing)
        → NamesFields o
        → resolve ctx o ≡ value v
        → resolve more o ≡ value v
    resolve-Extends (literal l) v s h = h
    resolve-Extends (path p ps) v s h = resolve_path-Extends p ps v s h
    resolve-Extends (func name os) v s h =
        let (vs, found, called) = bind_value (resolve_args ctx os) _ h in
        rw (resolve_args-Extends os vs s found) (ext.calls name vs v called)

    resolve_args-Extends :
        (os : Operands) (vs : List Thing)
        → NamesFieldsAll os
        → resolve_args ctx os ≡ value vs
        → resolve_args more os ≡ value vs
    resolve_args-Extends no_args vs s h = h
    resolve_args-Extends (arg o os) vs (s, s') h =
        let (w, found, rest) = bind_value (resolve ctx o) _ h in
        let (ws, founds, same) = bind_value (resolve_args ctx os) _ rest in
        rw (resolve-Extends o w s found, resolve_args-Extends os ws s' founds) same
