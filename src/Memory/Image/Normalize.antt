-- ===== src/Memory/Image/Normalize.antt =====
-- src/parsers/pe.rs, `normalize_mapped_image`, and the image that it is mapped into.
use vivisect_rs.Base.{
  ℕ, zero, suc, ◌+◌, ◌-◌, ◌<◌, min, ◌≡◌, refl, ap, ◌∙◌, false, ◌&&◌, ◌||◌, Option, none, some,
  String, List, [], ◌∷◌, arith, ltb, leb, if◌then◌else◌, length, take, drop, replicate, get_elem?,
  length-replicate, length-take, length-drop, inl, inr,
}
use mathlib.Core.Path.{subst}
use vivisect_rs.Word.{u64_mod}
use vivisect_rs.Error.{ok, VivResult-cases}
use vivisect_rs.Memory.Region.Laws.{
  get_elem?-take, get_elem?-drop, length-copy_from_slice, get_elem?-copy_from_slice,
}
use vivisect_rs.Memory.Object.{add_named_memory}
use vivisect_rs.Memory.Object.Lookup.{IsValid, byte_at}
use vivisect_rs.Memory.Object.Bytes.{add_named_memory_bytes}
use vivisect_rs.Memory.Object.Valid.{add_named_memory-IsValid}
use vivisect_rs.Memory.Image.{MemoryImage, normalize_mapped_image, map_normalized, is_empty}

get_elem?-replicate : (n i x : ℕ) → get_elem? (replicate n x) i ≡ (if ltb i n then some x else none)
get_elem?-replicate zero i x = ground arith
get_elem?-replicate (suc n) zero x = ground arith
get_elem?-replicate (suc n) (suc i) x = get_elem?-replicate n i x ∙ ground arith

-- A normalized image has the virtual size, whatever the raw span.
pub length-normalize_mapped_image :
    (source : List ℕ) (raw_offset raw_size virtual_size : ℕ)
    → length (normalize_mapped_image source raw_offset raw_size virtual_size) ≡ virtual_size
unfolding normalize_mapped_image
length-normalize_mapped_image source raw_offset raw_size virtual_size =
    let copy = min (min raw_size virtual_size) (length source - raw_offset) in
    let chunk = take copy (drop raw_offset source) in
    let l : length chunk ≡ copy =
      omega (arith, length-take copy (drop raw_offset source), length-drop raw_offset source) in
    ground (
      arith,
      length-replicate {A = ℕ} virtual_size 0,
      length-copy_from_slice 0 chunk (replicate virtual_size 0),
      l,
    )

-- A normalized image holds the bytes of the file up to the raw size and up to the end of the file,
-- then zeros up to the virtual size, and nothing after it.
pub normalize_mapped_image_lem :
    (source : List ℕ) (raw_offset raw_size virtual_size i : ℕ)
    → get_elem? (normalize_mapped_image source raw_offset raw_size virtual_size) i ≡ (
        if leb virtual_size i
        then none
        else if ltb i raw_size && ltb (raw_offset + i) (length source)
        then get_elem? source (raw_offset + i)
        else some 0)
unfolding normalize_mapped_image
normalize_mapped_image_lem source raw_offset raw_size virtual_size i =
    let copy = min (min raw_size virtual_size) (length source - raw_offset) in
    let chunk = take copy (drop raw_offset source) in
    let l : length chunk ≡ copy =
      omega (arith, length-take copy (drop raw_offset source), length-drop raw_offset source) in
    ground (
      arith,
      length-replicate {A = ℕ} virtual_size 0,
      get_elem?-replicate virtual_size i 0,
      get_elem?-copy_from_slice 0 i chunk (replicate virtual_size 0),
      get_elem?-take copy i (drop raw_offset source),
      get_elem?-drop raw_offset i source,
      l,
    )

-- What a successful mapping of at least one byte has done.
map_normalized-add :
    (img : MemoryImage) {img' : MemoryImage} (base : ℕ) (source : List ℕ)
    (raw_offset raw_size virtual_size perms : ℕ) (name : Option String)
    → 0 < virtual_size
    → map_normalized img base source raw_offset raw_size virtual_size perms name ≡ ok img'
    → add_named_memory img.mem base
        (normalize_mapped_image source raw_offset raw_size virtual_size)
        perms
        name
      ≡ ok img'.mem
unfolding map_normalized
map_normalized-add img {img'} base source raw_offset raw_size virtual_size perms name p h =
    let bytes = normalize_mapped_image source raw_offset raw_size virtual_size in
    let full =
      occupied bytes
        (omega (arith, length-normalize_mapped_image source raw_offset raw_size virtual_size)) in
    elim (VivResult-cases (add_named_memory img.mem base bytes perms name)) [
      | inr (e, failed) ↦ absurd (ground arith)
      | inl (mem, added) ↦
          let same : record img { mem = mem } ≡ img' = ground arith in
          added ∙ ap (λ (t : MemoryImage). ok t.mem) same
    ]
  where
    occupied : (bytes : List ℕ) → 0 < length bytes → is_empty bytes ≡ false
    occupied [] p = absurd (omega arith)
    occupied (b ∷ bs) p = refl

-- Mapping a file span keeps the image valid, if the end of the span does not wrap.
pub map_normalized-IsValid :
    (img : MemoryImage) {img' : MemoryImage} (base : ℕ) (source : List ℕ)
    (raw_offset raw_size virtual_size perms : ℕ) (name : Option String)
    → IsValid img.mem
    → base + virtual_size < u64_mod
    → map_normalized img base source raw_offset raw_size virtual_size perms name ≡ ok img'
    → IsValid img'.mem
unfolding map_normalized normalize_mapped_image
map_normalized-IsValid img {img'} base source raw_offset raw_size zero perms name v f h =
    let same : img ≡ img' = ground arith in subst (λ (t : MemoryImage). IsValid t.mem) same v
map_normalized-IsValid img {img'} base source raw_offset raw_size (suc n) perms name v f h =
    let l = length-normalize_mapped_image source raw_offset raw_size (suc n) in
    add_named_memory-IsValid img.mem {m' = img'.mem} base
      (normalize_mapped_image source raw_offset raw_size (suc n)) perms name v (omega arith)
      (omega arith)
      (map_normalized-add img {img' = img'} base source raw_offset raw_size (suc n) perms name
        (omega arith) h)

-- Let the image's memory be valid: each region is not empty, has as many bytes as its size, does not
-- wrap, is stored under its base and ends before the next one starts. Let the virtual size be above 0,
-- and the end of the span below `2 ^ 64`. If the mapping of a span of a file succeeds, then an address
-- of the span holds the byte of the file that it stands for, or zero when the raw span or the file ends
-- before it; every other address holds what it did.
pub map_normalized_bytes :
    (img : MemoryImage) {img' : MemoryImage} (base : ℕ) (source : List ℕ)
    (raw_offset raw_size virtual_size perms : ℕ) (name : Option String) (a : ℕ)
    → IsValid img.mem
    → 0 < virtual_size
    → base + virtual_size < u64_mod
    → map_normalized img base source raw_offset raw_size virtual_size perms name ≡ ok img'
    → byte_at img'.mem.regions a ≡ (
        if ltb a base || leb (base + virtual_size) a
        then byte_at img.mem.regions a
        else if ltb (a - base) raw_size && ltb (raw_offset + (a - base)) (length source)
        then get_elem? source (raw_offset + (a - base))
        else some 0)
map_normalized_bytes img {img'} base source raw_offset raw_size virtual_size perms name a v p f h =
    let l = length-normalize_mapped_image source raw_offset raw_size virtual_size in
    let bytes = normalize_mapped_image source raw_offset raw_size virtual_size in
    add_named_memory_bytes img.mem {m' = img'.mem} base bytes perms name a v (omega arith)
      (omega arith)
      (map_normalized-add img {img' = img'} base source raw_offset raw_size virtual_size perms name
        p h)
    ∙ ground
        (arith, l, normalize_mapped_image_lem source raw_offset raw_size virtual_size (a - base))
