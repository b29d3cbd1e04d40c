-- ===== src/Values.antt =====
-- Python's dynamic values, as they cross the gateway: `data`, claims, evidence, rows.
-- A float is its 64-bit pattern, a datetime the microseconds since the epoch. A dictionary keeps its entries in order.
use stonefold.Prelude.{
  ℕ, String, str_eq, Bool, true, false, not, Option, none, some, List, [], ◌∷◌, ℤ, pos, negsuc,
  ◌||◌, if◌then◌else◌, nat_eq, ◌≡◌, refl, arith, eq_iff,
}
use Prim.Native.Nat.{◌^◌}

mutual
  pub data Value : Type 0 where
    null : Value
    bool : Bool → Value
    int : ℤ → Value
    float : ℕ → Value
    str : String → Value
    instant : ℕ → Value
    list : Items → Value
    dict : Fields → Value

  pub data Items : Type 0 where
    nil : Items
    cons : Value → Items → Items

  pub data Fields : Type 0 where
    empty : Fields
    field : String → Value → Fields → Fields

-- d.get(k)
unfoldable pub get : Fields → String → Option Value
get empty k = none
get (field j v d) k = let rest = get d k in if str_eq j k then some v else rest

-- {**d, k: v}
unfoldable pub put : Fields → String → Value → Fields
put empty k v = field k v empty
put (field j w d) k v = let rest = put d k v in if str_eq j k then field j v d else field j w rest

pub get-put :
    (d : Fields) (k j : String) (v : Value)
    → get (put d k v) j ≡ (if str_eq k j then some v else get d j)
unfolding get put
get-put empty k j v = refl
get-put (field i w d) k j v = ground (arith, eq_iff k j, eq_iff i k, eq_iff i j, get-put d k j v)

abbrev pub to_list : Items → List Value
to_list nil = []
to_list (cons v vs) = v ∷ to_list vs

abbrev pub of_list : List Value → Items
of_list [] = nil
of_list (v ∷ vs) = cons v (of_list vs)

-- bool(v)
unfoldable pub truthy : Value → Bool
truthy null = false
truthy (bool b) = b
truthy (int (pos n)) = not (nat_eq n 0)
truthy (int (negsuc n)) = true
truthy (float bits) = not (nat_eq bits 0 || nat_eq bits (2 ^ 63))
truthy (str s) = not (str_eq s "")
truthy (instant t) = true
truthy (list nil) = false
truthy (list (cons v vs)) = true
truthy (dict empty) = false
truthy (dict (field k v d)) = true

-- What the program takes from Python's own text of values: `str(v)` of a value that is no text, and
-- `json.dumps(d, sort_keys=True, default=str)`.
pub record PyText : Type 0 where
  pub repr : Value → String
  pub dumps : Fields → String

-- str(v)
unfoldable pub py_str : PyText → Value → String
py_str t (str s) = s
py_str t v = t.repr v

step_into : Value → String → Value
step_into (dict d) k = elim (get d k) [ some v ↦ v | none ↦ null ]
step_into v k = null

-- value.get(part) if isinstance(value, Mapping) else None, along a path
unfoldable pub walk : Value → List String → Value
unfolding step_into
walk v [] = v
walk v (k ∷ ks) = walk (step_into v k) ks
