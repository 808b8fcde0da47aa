-- ===== src/Symboliks/Value.antt =====
-- src/symboliks/value.rs: the expression tree of the symbolic engine, its shape and its width.
pub mod Solve
pub mod Inverse
pub mod Rewrite
mod Tests
use vivisect_rs.Base.{
  ℕ, zero, suc, ◌+◌, Bool, true, false, ◌&&◌, Option, none, some, String, is_some_of,
}

-- `enum Op`.
pub data Op : Type 0 where
  add sub mul div modulo and or xor shl shr sar not neg sign_extend zero_extend pow : Op

-- `enum ConstraintOp`.
pub data ConstraintOp : Type 0 where
  eq ne lt le gt ge ult ugt : ConstraintOp

-- `enum SymbolicValue`, and the argument lists of its calls. Widths are in bytes.
mutual
  pub data SymbolicValue : Type 0 where
    const : (value width : ℕ) → SymbolicValue
    var : (name : String) (width : ℕ) → SymbolicValue
    arg : (index width : ℕ) → SymbolicValue
    mem : (addr : SymbolicValue) (width : ℕ) → SymbolicValue
    oper : (op : Op) (lhs rhs : SymbolicValue) → SymbolicValue
    call : (target : String) (args : Args) (width : ℕ) → SymbolicValue
    constraint : (op : ConstraintOp) (lhs rhs : SymbolicValue) → SymbolicValue

  pub data Args : Type 0 where
    nil : Args
    cons : SymbolicValue → Args → Args

-- `ConstraintOp::inverse`.
unfoldable pub inverse : ConstraintOp → ConstraintOp
inverse ConstraintOp.eq = ConstraintOp.ne
inverse ConstraintOp.ne = ConstraintOp.eq
inverse ConstraintOp.lt = ConstraintOp.ge
inverse ConstraintOp.le = ConstraintOp.gt
inverse ConstraintOp.gt = ConstraintOp.le
inverse ConstraintOp.ge = ConstraintOp.lt
inverse ConstraintOp.ult = ConstraintOp.ugt
inverse ConstraintOp.ugt = ConstraintOp.ult

-- `SymbolicValue::is_discrete`: the leaves are constants.
unfoldable pub is_discrete : SymbolicValue → Bool
is_discrete (const value width) = true
is_discrete (oper op lhs rhs) = is_discrete lhs && is_discrete rhs
is_discrete (constraint op lhs rhs) = is_discrete lhs && is_discrete rhs
is_discrete _ = false

-- `SymbolicValue::is_const`.
abbrev pub is_const : SymbolicValue → Bool
is_const (const value width) = true
is_const _ = false

-- `SymbolicValue::as_const`.
abbrev pub as_const : SymbolicValue → Option ℕ
as_const (const value width) = some value
as_const _ = none

-- `SymbolicValue::width`.
unfoldable pub width : SymbolicValue → ℕ
width (const value w) = w
width (var name w) = w
width (arg index w) = w
width (mem addr w) = w
width (oper op lhs rhs) = width lhs
width (call target args w) = w
width (constraint op lhs rhs) = 1

-- The test `v.as_const() == Some(k)`.
abbrev pub is_value : SymbolicValue → ℕ → Bool
is_value v k = is_some_of (as_const v) k
