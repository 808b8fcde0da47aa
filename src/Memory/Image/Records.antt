-- ===== src/Memory/Image/Records.antt =====
-- src/envi/memory.rs, the persistence records of a memory image: `to_records` and `from_records`.
use vivisect_rs.Base.{
  ℕ, ◌+◌, ◌%◌, ◌≤◌, ◌<◌, ◌≡◌, refl, sym, ap, ◌∙◌, false, [], ◌∷◌, ◌++◌, arith, length,
}
use mathlib.Core.Path.{subst}
use vivisect_rs.Error.{ok}
use vivisect_rs.BTreeMap.{BTreeMap, insert}
use vivisect_rs.Memory.Region.{MemoryRegion, with_data}
use vivisect_rs.Memory.Region.Laws.{IsSound}
use vivisect_rs.Memory.Object.{overlaps_any, add_named_memory}
use vivisect_rs.Memory.Object.Lookup.{StartsAfter, AreValid, IsValid}
use vivisect_rs.Memory.Object.Snapshot.{append-cons}
use vivisect_rs.Memory.Image.{
  MemoryImage, Endian, records_of, to_records, map_records, from_records, map_verbatim,
}

-- The permissions of every region are made of the three flags.
abbrev pub HaveFlags : BTreeMap MemoryRegion → Type 0
HaveFlags [] = Unit
HaveFlags ((k, r) ∷ m) = (r.permissions < 8) × HaveFlags m

StartsAfter-middle :
    (e k : ℕ) (r : MemoryRegion) (m n : BTreeMap MemoryRegion)
    → StartsAfter e (m ++ ((k, r) ∷ n))
    → e ≤ k
StartsAfter-middle e k r [] n h = h.0
StartsAfter-middle e k r (x ∷ m) n h = StartsAfter-middle e k r m n h.1

-- The region that follows a part of a valid map is inserted at the end of that part, and overlaps
-- nothing of it.
insert-middle :
    (k : ℕ) (r : MemoryRegion) (m n : BTreeMap MemoryRegion)
    → AreValid (m ++ ((k, r) ∷ n))
    → (overlaps_any m k r.size ≡ false) × (insert k r m ≡ m ++ ((k, r) ∷ []))
unfolding insert
insert-middle k r [] n v = (refl, refl)
insert-middle k r ((j, q) ∷ m) n v =
    let (apart, placed) = insert-middle k r m n v.3 in
    let after = StartsAfter-middle (j + q.size) k r m n v.2 in
    (ground (arith, v.1.fits, v.0), ground (arith, v.1.occupied))

last_valid :
    (k : ℕ) (r : MemoryRegion) (m n : BTreeMap MemoryRegion)
    → AreValid (m ++ ((k, r) ∷ n))
    → (r.base ≡ k) × IsSound r
last_valid k r [] n v = (v.0, v.1)
last_valid k r (x ∷ m) n v = last_valid k r m n v.3

-- One record maps its region again.
add_record :
    (k : ℕ) (r : MemoryRegion) (m n : BTreeMap MemoryRegion)
    → AreValid (m ++ ((k, r) ∷ n))
    → r.permissions < 8
    → add_named_memory (record { regions = m }) r.base r.bytes (r.permissions % 8) r.name
      ≡ ok (record { regions = m ++ ((k, r) ∷ []) })
unfolding add_named_memory with_data
add_record k r m n v p =
    let (apart, placed) = insert-middle k r m n v in
    let (base, sound) = last_valid k r m n v in
    let flags : r.permissions % 8 ≡ r.permissions = omega arith in
    let copy : MemoryRegion = record (with_data r.base r.bytes (r.permissions % 8)) {
      name = r.name;
    } in
    let same : copy ≡ r = λ i. record {
      base = r.base;
      size = sym sound.counted i;
      bytes = r.bytes;
      permissions = flags i;
      name = r.name;
    } in
    let free : overlaps_any m r.base (length r.bytes) ≡ false =
      ap (λ t. overlaps_any m t (length r.bytes)) base
      ∙ ap (λ t. overlaps_any m k t) (sym sound.counted)
      ∙ apart in
    rw free (
      ap (λ t. ok (record { regions = t }))
        (ap (λ t. insert t copy m) base ∙ ap (λ t. insert k t m) same ∙ placed))

map_records-records_of :
    (endian : Endian) (m n : BTreeMap MemoryRegion)
    → AreValid (m ++ n)
    → HaveFlags n
    → map_records (record { mem = record { regions = m }; endian = endian }) (records_of n)
      ≡ ok (record { mem = record { regions = m ++ n }; endian = endian })
unfolding map_records map_verbatim
map_records-records_of endian m [] v f =
    ap (λ t. ok (record { mem = record { regions = t }; endian = endian })) (append_nil m)
  where
    append_nil : (m : BTreeMap MemoryRegion) → m ≡ m ++ []
    append_nil [] = refl
    append_nil (x ∷ m) = ap (λ t. x ∷ t) (append_nil m)
map_records-records_of endian m ((k, r) ∷ n) v f =
    let e = append-cons (k, r) m n in
    rw (add_record k r m n v f.0) (
      map_records-records_of endian (m ++ ((k, r) ∷ [])) n (subst AreValid (sym e) v) f.1
      ∙ ap (λ t. ok (record { mem = record { regions = t }; endian = endian })) e)

-- The records of a valid image, loaded with its byte order, give the image back, if the permissions
-- of its regions are made of the three flags.
pub from_records-to_records :
    (img : MemoryImage)
    → IsValid img.mem
    → HaveFlags img.mem.regions
    → from_records img.endian (to_records img) ≡ ok img
unfolding from_records to_records
from_records-to_records img v f = map_records-records_of img.endian [] img.mem.regions v f
