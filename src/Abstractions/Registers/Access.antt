-- ===== src/Abstractions/Registers/Access.antt =====
-- src/abstractions/registers.rs: reading and setting registers by name.
use vivisect_rs.Base.{
  ℕ, ◌+◌, ◌%◌, ◌^◌, ◌≤◌, ◌≡◌, ◌≢◌, sym, ap, ◌∙◌, some, String, arith, get_elem?, ◌⊎◌,
}
use vivisect_rs.Error.{ok}
use vivisect_rs.HashMap.{find_name}
use vivisect_rs.Abstractions.Registers.{
  RegisterInfo, BasicRegisterContext, read_info, write_values, get_register_by_index,
  set_register_by_index, get_register, set_register,
}
use vivisect_rs.Abstractions.Registers.Views.{
  IsValid, root, read_info-write_values, read_info-write_values_other, part_apart,
}

set_register-known :
    (c : BasicRegisterContext) (name : String) (index value : ℕ) (r : RegisterInfo)
    → find_name name c.by_name ≡ some index
    → get_elem? c.info index ≡ some r
    → set_register c name value ≡ ok (record c { values = write_values c.values r index value })
unfolding set_register set_register_by_index
set_register-known c name index value r named known = ground (arith, named, known)

get_register-known :
    (c : BasicRegisterContext) (name : String) (index : ℕ) (r : RegisterInfo)
    → find_name name c.by_name ≡ some index
    → get_elem? c.info index ≡ some r
    → get_register c name ≡ ok (read_info c.values r index)
unfolding get_register get_register_by_index
get_register-known c name index r named known = ground (arith, named, known)

-- In a valid context, a register of a known name can be set, and then has the value modulo 2 to its
-- size, whether it stands alone or is a part of another one.
pub get_register-set_register :
    (c : BasicRegisterContext) (name : String) (index value : ℕ) (r : RegisterInfo)
    → IsValid c
    → find_name name c.by_name ≡ some index
    → get_elem? c.info index ≡ some r
    → (c' : BasicRegisterContext) × (set_register c name value ≡ ok c')
      × (get_register c' name ≡ ok (value % 2 ^ r.size))
get_register-set_register c name index value r v named known =
    let c' = record c { values = write_values c.values r index value } in
    (
      c',
      set_register-known c name index value r named known,
      get_register-known c' name index r named known
          ∙ ap ok (read_info-write_values c r index value v known),
    )

-- Setting a register does not change a register whose value another one holds.
pub get_register-set_register_other :
    (c : BasicRegisterContext) (name other : String) (i j value : ℕ) (r q : RegisterInfo)
    → find_name name c.by_name ≡ some i
    → get_elem? c.info i ≡ some r
    → find_name other c.by_name ≡ some j
    → get_elem? c.info j ≡ some q
    → root r i ≢ root q j
    → (c' : BasicRegisterContext) × (set_register c name value ≡ ok c')
      × (get_register c' other ≡ get_register c other)
get_register-set_register_other c name other i j value r q named known named' known' apart =
    let c' = record c { values = write_values c.values r i value } in
    (
      c',
      set_register-known c name i value r named known,
      get_register-known c' other j q named' known'
          ∙ ap ok (read_info-write_values_other c.values r q i j value apart)
          ∙ sym (get_register-known c other j q named' known'),
    )

-- In a valid context, setting a part of a register does not change another part of the same register
-- that shares no bit with it.
pub get_register-set_register_apart :
    (c : BasicRegisterContext) (name other : String) (i j p value : ℕ) (r q : RegisterInfo)
    → IsValid c
    → find_name name c.by_name ≡ some i
    → get_elem? c.info i ≡ some r
    → find_name other c.by_name ≡ some j
    → get_elem? c.info j ≡ some q
    → r.parent ≡ some p
    → q.parent ≡ some p
    → (r.parent_offset + r.size ≤ q.parent_offset) ⊎ (q.parent_offset + q.size ≤ r.parent_offset)
    → (c' : BasicRegisterContext) × (set_register c name value ≡ ok c')
      × (get_register c' other ≡ get_register c other)
get_register-set_register_apart c name other i j p value r q v named known named' known' e f apart =
    let c' = record c { values = write_values c.values r i value } in
    (
      c',
      set_register-known c name i value r named known,
      get_register-known c' other j q named' known'
          ∙ ap ok (part_apart c r q i j p value v known known' e f apart)
          ∙ sym (get_register-known c other j q named' known'),
    )
