-- ===== src/Condition.antt =====
-- stonefold_core/condition.py: the syntax of the condition language.
pub mod Tokens
pub mod Parser
pub mod Printer
pub mod Evaluate
pub mod Validate
use stonefold.Prelude.{ℕ, ℤ, String, Bool, List, []}

-- A float is its 64-bit pattern.
mutual
  pub data Literal : Type 0 where
    text : String → Literal
    int : ℤ → Literal
    float : ℕ → Literal
    bool : Bool → Literal
    list : Literals → Literal

  pub data Literals : Type 0 where
    nil : Literals
    cons : Literal → Literals → Literals

-- `Path` with its first part and the others, `Literal`, `Func`
mutual
  pub data Operand : Type 0 where
    path : String → List String → Operand
    literal : Literal → Operand
    func : String → Operands → Operand

  pub data Operands : Type 0 where
    no_args : Operands
    arg : Operand → Operands → Operands

-- `_COMPARE_OPS`
pub data CompareOp : Type 0 where
  eq ne lt le gt ge matches : CompareOp

pub data Expr : Type 0 where
  both either : Expr → Expr → Expr
  negate : Expr → Expr
  compare_to : Operand → CompareOp → Operand → Expr
  in_expr : Operand → Operand → Bool → Expr
  exists : String → List String → Expr

-- `_KEYWORDS` but true and false, which are tokens of their own type
pub data Keyword : Type 0 where
  kw_and kw_or kw_not kw_in kw_exists kw_matches : Keyword

-- `Token`: the type, with the value where it can vary. The token `eof` stands at the end of every
-- token list and nowhere else: here it is the empty rest of the list.
pub data Token : Type 0 where
  op : CompareOp → Token
  lparen rparen lbrack rbrack comma dot : Token
  string number duration ident : String → Token
  truth : Bool → Token
  kw : Keyword → Token

-- ConditionError, and the ValueError of int() and float()
pub data Fault : Type 0 where
  condition_error value_error : Fault

-- `out_of_fuel` has no counterpart in the code.
pub data Result {ℓ} (A : Type ℓ) : Type ℓ where
  ok : A → Result A
  err : Fault → Result A
  out_of_fuel : Result A

infixl 5 ◌>>=◌
abbrev pub ◌>>=◌ {ℓ κ} : {A : Type ℓ} {B : Type κ} → Result A → (A → Result B) → Result B
ok a >>= f = f a
err e >>= f = err e
out_of_fuel >>= f = out_of_fuel
