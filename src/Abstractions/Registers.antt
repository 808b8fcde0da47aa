-- ===== src/Abstractions/Registers.antt =====
-- src/abstractions/registers.rs: the register context, with registers that are part of another one. A
-- shift by 64 or more takes its amount modulo 64, as in a release build.
pub mod Views
pub mod Access
pub mod Snapshots
pub mod Valid
mod Tests
use vivisect_rs.Base.{
  ℕ, zero, suc, ◌+◌, ◌^◌, Bool, Option, none, some, String, List, [], ◌∷◌, leb, if◌then◌else◌,
  bit_and, length, get_elem?, decimal, unwrap_or,
}
use mathlib.Core.List.{◌++◌}
use Prim.Native.String.{◌++◌ as ◌◁◌}
use vivisect_rs.Word.{u64_max, wrapping_sub, wrapping_shl}
use vivisect_rs.Word.Fields.{insert_bits, extract_bits}
use vivisect_rs.Error.{VivResult, ok, err, invalid_register, ◌>>=◌}
use vivisect_rs.HashMap.{NameMap, find_name, put_name}

-- `bit_mask`.
unfoldable pub bit_mask : ℕ → ℕ
bit_mask size = if leb 64 size then u64_max else wrapping_sub (wrapping_shl 1 size) 1

-- `struct RegisterInfo`.
pub record RegisterInfo : Type 0 where
  pub name : String
  pub index : ℕ
  pub size : ℕ
  pub parent : Option ℕ
  pub parent_offset : ℕ

-- `struct BasicRegisterContext`.
pub record BasicRegisterContext : Type 0 where
  pub values : List ℕ
  pub by_name : NameMap ℕ
  pub info : List RegisterInfo
  pub pc_index : ℕ
  pub sp_index : ℕ

-- `BasicRegisterContext::new`.
abbrev pub new_context : BasicRegisterContext
new_context = record { values = []; by_name = []; info = []; pc_index = 0; sp_index = 0 }

-- What `add_register` and `add_sub_register` share.
unfoldable pub push_register :
    BasicRegisterContext → String → Option ℕ → ℕ → ℕ → BasicRegisterContext × ℕ
push_register c name parent offset size =
    let index = length c.info in
    let entry : RegisterInfo = record {
      name = name;
      index = index;
      size = size;
      parent = parent;
      parent_offset = offset;
    } in
    (
      record c {
        values = c.values ++ (0 ∷ []);
        by_name = put_name name index c.by_name;
        info = c.info ++ (entry ∷ []);
      },
      index,
    )

-- `add_register`.
unfoldable pub add_register : BasicRegisterContext → String → ℕ → BasicRegisterContext × ℕ
add_register c name size = push_register c name none 0 size

-- `add_sub_register`.
unfoldable pub add_sub_register :
    BasicRegisterContext → String → ℕ → ℕ → ℕ → BasicRegisterContext × ℕ
add_sub_register c name parent offset size = push_register c name (some parent) offset size

-- `values.get(i).copied().unwrap_or(0)`.
abbrev pub value_at : List ℕ → ℕ → ℕ
value_at values i = unwrap_or (get_elem? values i) 0

-- `values.get_mut(i)`, and then an assignment of a function of the value.
unfoldable pub update_at : ℕ → (ℕ → ℕ) → List ℕ → List ℕ
update_at i f [] = []
update_at zero f (v ∷ vs) = f v ∷ vs
update_at (suc i) f (v ∷ vs) = v ∷ update_at i f vs

-- The value of a register, from its definition.
unfoldable pub read_info : List ℕ → RegisterInfo → ℕ → ℕ
read_info values info index = elim info.parent [
  | none ↦ value_at values index
  | some parent ↦ extract_bits (value_at values parent) info.parent_offset (bit_mask info.size)
]

-- The values after a register is set.
unfoldable pub write_values : List ℕ → RegisterInfo → ℕ → ℕ → List ℕ
write_values values info index value = elim info.parent [
  | none ↦ update_at index (λ old. bit_and value (bit_mask info.size)) values
  | some parent ↦
      update_at parent (λ old. insert_bits old info.parent_offset (bit_mask info.size) value) values
]

abbrev pub unknown_index : ℕ → String
unknown_index index = "index " ◁ decimal index

-- `get_register_by_index`.
unfoldable pub get_register_by_index : BasicRegisterContext → ℕ → VivResult ℕ
get_register_by_index c index = elim (get_elem? c.info index) [
  | none ↦ err (invalid_register (unknown_index index))
  | some info ↦ ok (read_info c.values info index)
]

-- `set_register_by_index`.
unfoldable pub set_register_by_index : BasicRegisterContext → ℕ → ℕ → VivResult BasicRegisterContext
set_register_by_index c index value = elim (get_elem? c.info index) [
  | none ↦ err (invalid_register (unknown_index index))
  | some info ↦ ok (record c { values = write_values c.values info index value })
]

-- `get_register`.
unfoldable pub get_register : BasicRegisterContext → String → VivResult ℕ
get_register c name = elim (find_name name c.by_name) [
  | none ↦ err (invalid_register name)
  | some index ↦ get_register_by_index c index
]

-- `set_register`.
unfoldable pub set_register : BasicRegisterContext → String → ℕ → VivResult BasicRegisterContext
set_register c name value = elim (find_name name c.by_name) [
  | none ↦ err (invalid_register name)
  | some index ↦ set_register_by_index c index value
]

-- `get_pc_name`, and `get_program_counter` of the trait; likewise for the stack pointer.
unfoldable pub name_at : BasicRegisterContext → ℕ → String → String
name_at c index default = elim (get_elem? c.info index) [ none ↦ default | some info ↦ info.name ]

abbrev pub or_zero : VivResult ℕ → ℕ
or_zero (ok n) = n
or_zero (err e) = 0

unfoldable pub get_program_counter : BasicRegisterContext → ℕ
get_program_counter c = or_zero (get_register c (name_at c c.pc_index "pc"))

unfoldable pub set_program_counter : BasicRegisterContext → ℕ → VivResult BasicRegisterContext
set_program_counter c value = set_register c (name_at c c.pc_index "pc") value

unfoldable pub get_stack_pointer : BasicRegisterContext → ℕ
get_stack_pointer c = or_zero (get_register c (name_at c c.sp_index "sp"))

unfoldable pub set_stack_pointer : BasicRegisterContext → ℕ → VivResult BasicRegisterContext
set_stack_pointer c value = set_register c (name_at c c.sp_index "sp") value

-- `snapshot`: the values with their indices, from the given one on.
unfoldable pub enumerate : ℕ → List ℕ → List (ℕ × ℕ)
enumerate i [] = []
enumerate i (v ∷ vs) = (i, v) ∷ enumerate (suc i) vs

unfoldable pub snapshot : BasicRegisterContext → List (ℕ × ℕ)
snapshot c = enumerate 0 c.values

-- `restore`.
unfoldable pub restore_values : List (ℕ × ℕ) → List ℕ → List ℕ
restore_values [] values = values
restore_values ((i, v) ∷ saved) values = restore_values saved (update_at i (λ old. v) values)

unfoldable pub restore : BasicRegisterContext → List (ℕ × ℕ) → VivResult BasicRegisterContext
restore c saved = ok (record c { values = restore_values saved c.values })
