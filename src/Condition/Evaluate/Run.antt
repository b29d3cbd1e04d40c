-- ===== src/Condition/Evaluate/Run.antt =====
-- stonefold_core/condition.py: comparisons, membership and the walk over an expression.
use stonefold.Prelude.{
  ℕ, ◌+◌, ◌-◌, ◌*◌, ℤ, pos, negsuc, String, Bool, true, false, not, Option, none, some, ◌&&◌, ◌||◌,
  if◌then◌else◌, str_eq, nat_eq, leb,
}
use stonefold.Values.{
  Value, null, bool, int, float, str, instant, list, dict, Items, nil, cons, Fields, empty, field,
  get,
}
use stonefold.Condition.{Expr, both, either, negate, compare_to, in_expr, exists, CompareOp}
use stonefold.Condition.Evaluate.{
  runtime, foreign, Eval, value, raise, ◌>>=◌, Thing, plain, range, PyOps, EvalContext, has_path,
  resolve, int_eq, int_le, bool_int, partition, text_in,
}

fields_count : Fields → ℕ
fields_count empty = 0
fields_count (field k v d) = fields_count d + 1

module _ (py : PyOps) where
  -- a bool is an int to `==`
  eq_numbers : Value → Value → Option Bool
  eq_numbers (int n) (int m) = some (int_eq n m)
  eq_numbers (int n) (bool b) = some (int_eq n (bool_int b))
  eq_numbers (int n) (float x) = some (py.int_eq_float n x)
  eq_numbers (bool b) (int m) = some (int_eq (bool_int b) m)
  eq_numbers (bool b) (bool c) = some (int_eq (bool_int b) (bool_int c))
  eq_numbers (bool b) (float x) = some (py.int_eq_float (bool_int b) x)
  eq_numbers (float x) (int m) = some (py.int_eq_float m x)
  eq_numbers (float x) (bool b) = some (py.int_eq_float (bool_int b) x)
  eq_numbers (float x) (float y) = some (py.float_eq x y)
  eq_numbers _ _ = none

  eq_flat : Value → Value → Bool
  unfolding eq_numbers
  eq_flat null null = true
  eq_flat (str s) (str t) = str_eq s t
  eq_flat (instant s) (instant t) = nat_eq s t
  eq_flat a b = elim (eq_numbers a b) [ none ↦ false | some r ↦ r ]

  -- a == b of Python, up to the identity of objects
  unfoldable mutual
    unfolding fields_count eq_flat

    pub py_eq : Value → Value → Bool
    py_eq (list xs) b = elim b [ list ys ↦ eq_items xs ys | _ ↦ false ]
    py_eq (dict d) b = elim b [
      | dict e ↦ nat_eq (fields_count d) (fields_count e) && eq_fields d e
      | _ ↦ false
    ]
    py_eq a b = eq_flat a b

    pub eq_items : Items → Items → Bool
    eq_items nil ys = elim ys [ nil ↦ true | cons _ _ ↦ false ]
    eq_items (cons x xs) ys = elim ys [ nil ↦ false | cons y ys' ↦ py_eq x y && eq_items xs ys' ]

    pub eq_fields : Fields → Fields → Bool
    eq_fields empty e = true
    eq_fields (field k v d) e = elim (get e k) [
      | none ↦ false
      | some w ↦ py_eq v w && eq_fields d e
    ]

  unfoldable pub eq_things : Thing → Thing → Bool
  eq_things (plain a) (plain b) = py_eq a b
  eq_things (range s e) (range s' e') = int_eq s s' && int_eq e e'
  eq_things _ _ = false

  float_or_raise : Option ℕ → Eval (Option ℕ)
  float_or_raise none = raise foreign
  float_or_raise (some x) = value (some x)

  -- `_as_number`; float() of an integer out of range raises OverflowError
  unfoldable pub as_number : Thing → Eval (Option ℕ)
  unfolding float_or_raise
  as_number (plain (int n)) = float_or_raise (py.float_of_int n)
  as_number (plain (float x)) = value (some x)
  as_number (plain (str s)) = value (py.float_of_text s)
  as_number _ = value none

  eq_by : Thing → Thing → Option ℕ → Option ℕ → Bool
  eq_by a b (some x) (some y) = py.float_eq x y
  eq_by a b _ _ = eq_things a b

  -- `_eq`
  unfoldable pub equal : Thing → Thing → Eval Bool
  unfolding eq_by
  equal a b = as_number a >>= (λ x. as_number b >>= (λ y. value (eq_by a b x y)))

  order_by : (ℕ → ℕ → Bool) → Option ℕ → Option ℕ → Eval Bool
  order_by test (some x) (some y) = value (test x y)
  order_by test _ _ = raise runtime

  ordered : (ℕ → ℕ → Bool) → Thing → Thing → Eval Bool
  unfolding order_by
  ordered test a b = as_number a >>= (λ x. as_number b >>= (λ y. order_by test x y))

  matches_text : Option Bool → Eval Bool
  matches_text none = raise foreign
  matches_text (some b) = value b

  -- `_compare`
  unfoldable pub compare_things : Thing → CompareOp → Thing → Eval Bool
  unfolding ordered matches_text
  compare_things a CompareOp.eq b = equal a b
  compare_things a CompareOp.ne b = equal a b >>= (λ r. value (not r))
  compare_things a CompareOp.matches b = matches_text (py.search (py.text_of b) (py.text_of a))
  compare_things a CompareOp.lt b = ordered py.float_lt a b
  compare_things a CompareOp.le b = ordered py.float_le a b
  compare_things a CompareOp.gt b = ordered (λ x y. py.float_lt y x) a b
  compare_things a CompareOp.ge b = ordered (λ x y. py.float_le y x) a b

  add_int : ℤ → ℤ → ℤ
  add_int (pos n) (pos m) = pos (n + m)
  add_int (negsuc n) (negsuc m) = negsuc (n + m + 1)
  add_int (pos n) (negsuc m) = if leb (m + 1) n then pos (n - m - 1) else negsuc (m - n)
  add_int (negsuc n) (pos m) = if leb (n + 1) m then pos (m - n - 1) else negsuc (n - m)

  times_60 : ℤ → ℤ
  times_60 (pos n) = pos (n * 60)
  times_60 (negsuc n) = negsuc (n * 60 + 59)

  minutes_by : Option ℤ → Option ℤ → Option ℤ
  minutes_by (some h) (some m) = some (add_int (times_60 h) m)
  minutes_by _ _ = none

  minutes_of_text : String × Bool × String → Option ℤ
  minutes_of_text (hh, colon, mm) =
      if colon then minutes_by (py.int_of_text hh) (py.int_of_text mm) else none

  -- `_to_minutes`
  unfoldable pub to_minutes : Thing → Option ℤ
  unfolding minutes_of_text minutes_by add_int times_60
  to_minutes (plain (instant t)) = some (pos (py.minute_of t))
  to_minutes (plain (str s)) = minutes_of_text (partition ":" s)
  to_minutes _ = none

  -- `WindowRange.__contains__`
  unfoldable pub within : ℤ → ℤ → Option ℤ → Bool
  within start end none = false
  within start end (some m) =
      if int_le start end then int_le start m && int_le m end else int_le start m || int_le m end

  window_by : Option ℤ → Option ℤ → Eval Thing
  window_by (some s) (some e) = value (range s e)
  window_by _ _ = raise runtime

  window_of_text : String × Bool × String → Eval Thing
  unfolding window_by
  window_of_text (lo, dash, hi) =
      if dash
      then window_by (to_minutes (plain (str (py.strip lo))))
          (to_minutes (plain (str (py.strip hi))))
      else raise runtime

  -- `make_window`
  unfoldable pub make_window : Thing → Eval Thing
  unfolding window_of_text
  make_window (plain (str s)) = window_of_text (partition "-" s)
  make_window _ = raise runtime

  -- any(_eq(item, c) for c in collection)
  unfoldable pub any_equal : Thing → Items → Eval Bool
  any_equal item nil = value false
  any_equal item (cons c cs) =
      equal item (plain c) >>= (λ r. elim r [ true ↦ value true | false ↦ any_equal item cs ])

  -- `_contains`
  unfoldable pub contains_thing : Thing → Thing → Eval Bool
  contains_thing (range s e) item = value (within s e (to_minutes item))
  contains_thing (plain (list cs)) item = any_equal item cs
  contains_thing (plain (str s)) item = value (text_in (py.text_of item) s)
  contains_thing _ item = raise runtime

  -- `evaluate`
  unfoldable pub evaluate : EvalContext → Expr → Eval Bool
  evaluate ctx (both l r) =
      evaluate ctx l >>= (λ b. elim b [ true ↦ evaluate ctx r | false ↦ value false ])
  evaluate ctx (either l r) =
      evaluate ctx l >>= (λ b. elim b [ true ↦ value true | false ↦ evaluate ctx r ])
  evaluate ctx (negate e) = evaluate ctx e >>= (λ b. value (not b))
  evaluate ctx (exists p ps) = has_path ctx p ps
  evaluate ctx (in_expr a b negated) = resolve ctx a >>= (λ left.
      resolve ctx b
      >>= (λ right. contains_thing right left >>= (λ r. value (if negated then not r else r))))
  evaluate ctx (compare_to a o b) =
      resolve ctx a >>= (λ left. resolve ctx b >>= (λ right. compare_things left o right))
