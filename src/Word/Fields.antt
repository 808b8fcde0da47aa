-- ===== src/Word/Fields.antt =====
-- The bits of a field of a `u64`, taken out and put in through a mask.
use vivisect_rs.Base.{
  ℕ, ◌+◌, ◌-◌, ◌*◌, ◌/◌, ◌%◌, ◌^◌, ◌≤◌, ◌<◌, max, bit_and, bit_or, ◌≡◌, sym, ap, ◌∙◌, ◌&&◌, arith,
  ltb, leb, if◌then◌else◌, ◌⊎◌,
}
use vivisect_rs.Word.{IsU64, wrapping_shl, wrapping_shr, not_u64}
use vivisect_rs.Word.Bits.{bit_and-lt, bit_or-lt}
use vivisect_rs.Word.Laws.{shift_amount_small}
use vivisect_rs.Word.Digits.{
  digit_at, digit_at-le, digit_at-and, digit_at-or, digit_at-shl, digit_at-mask, digit_at-not,
  digit_at-mod, digit_at-shr, digits-ext,
}

-- `(old & !(mask << offset)) | ((new & mask) << offset)`.
abbrev pub insert_bits : ℕ → ℕ → ℕ → ℕ → ℕ
insert_bits old offset mask new =
    bit_or (bit_and old (not_u64 (wrapping_shl mask offset)))
      (wrapping_shl (bit_and new mask) offset)

-- `(value >> offset) & mask`.
abbrev pub extract_bits : ℕ → ℕ → ℕ → ℕ
extract_bits value offset mask = bit_and (wrapping_shr value offset) mask

-- The mask of so many ones.
abbrev pub ones : ℕ → ℕ
ones w = 2 ^ w - 1

pub digit_at-wrapping_shl :
    (x k i : ℕ)
    → k < 64
    → digit_at (wrapping_shl x k) i
      ≡ (if ltb i 64 then (if ltb i k then 0 else digit_at x (i - k)) else 0)
digit_at-wrapping_shl x k i h =
    rw (shift_amount_small k h) (digit_at-mod 64 (x * 2 ^ k) i ∙ ground (arith, digit_at-shl k x i))

-- A number below `2 ^ 64` has no digit past the 64th.
pub digit_at-u64 : (x i : ℕ) → IsU64 x → 64 ≤ i → digit_at x i ≡ 0
digit_at-u64 x i u h =
    let e : x % 2 ^ 64 ≡ x = omega arith in
    ap (λ t. digit_at t i) (sym e) ∙ digit_at-mod 64 x i ∙ ground arith

-- A mask of `w` ones.
abbrev IsMask : ℕ → ℕ → Type 0
IsMask mask w = (i : ℕ) → digit_at mask i ≡ (if ltb i w then 1 else 0)

digit_at-cleared :
    (old offset w mask i : ℕ)
    → IsU64 old
    → 0 < w
    → offset + w ≤ 64
    → IsMask mask w
    → digit_at (bit_and old (not_u64 (wrapping_shl mask offset))) i
      ≡ (if leb offset i && ltb i (offset + w) then 0 else digit_at old i)
digit_at-cleared old offset w mask i u positive fits m =
    let hole = wrapping_shl mask offset in
    digit_at-and old (not_u64 hole) i
    ∙ ground (
      arith,
      digit_at-not 64 hole i (omega arith),
      digit_at-wrapping_shl mask offset i (omega arith),
      m (i - offset),
      digit_at-u64 old i u,
      digit_at-le old i,
    )

digit_at-moved :
    (offset w mask new i : ℕ)
    → 0 < w
    → offset + w ≤ 64
    → IsMask mask w
    → digit_at (wrapping_shl (bit_and new mask) offset) i
      ≡ (if leb offset i && ltb i (offset + w) then digit_at new (i - offset) else 0)
digit_at-moved offset w mask new i positive fits m =
    digit_at-wrapping_shl (bit_and new mask) offset i (omega arith)
    ∙ ground
        (arith, digit_at-and new mask (i - offset), m (i - offset), digit_at-le new (i - offset))

-- The bits after a field is put in: those of the field are the new ones, the others stay.
pub digit_at-insert_bits :
    (old offset w new i : ℕ)
    → IsU64 old
    → 0 < w
    → offset + w ≤ 64
    → digit_at (insert_bits old offset (ones w) new) i
      ≡ (if leb offset i && ltb i (offset + w) then digit_at new (i - offset) else digit_at old i)
digit_at-insert_bits old offset w new i u positive fits =
    let mask = ones w in
    let rest = bit_and old (not_u64 (wrapping_shl mask offset)) in
    let field = wrapping_shl (bit_and new mask) offset in
    let left = digit_at-cleared old offset w mask i u positive fits (digit_at-mask w) in
    let right = digit_at-moved offset w mask new i positive fits (digit_at-mask w) in
    digit_at-or rest field i ∙ choose (digit_at rest i) (digit_at field i) left right
  where
    choose :
        (a b : ℕ)
        → a ≡ (if leb offset i && ltb i (offset + w) then 0 else digit_at old i)
        → b ≡ (if leb offset i && ltb i (offset + w) then digit_at new (i - offset) else 0)
        → max a b ≡ (
            if leb offset i && ltb i (offset + w)
            then digit_at new (i - offset)
            else digit_at old i)
    choose a b left right = ground arith

pub digit_at-extract_bits :
    (value offset w i : ℕ)
    → offset < 64
    → digit_at (extract_bits value offset (ones w)) i
      ≡ (if ltb i w then digit_at value (i + offset) else 0)
digit_at-extract_bits value offset w i k = rw (shift_amount_small offset k) (
    digit_at-and (value / 2 ^ offset) (ones w) i
    ∙ ground
        (arith, digit_at-shr offset value i, digit_at-mask w i, digit_at-le value (i + offset)))

-- Taking out the field that was put in, and one that shares no bit with it.
pub extract_bits-insert_bits :
    (old offset w new : ℕ)
    → IsU64 old
    → 0 < w
    → offset + w ≤ 64
    → extract_bits (insert_bits old offset (ones w) new) offset (ones w) ≡ new % 2 ^ w
extract_bits-insert_bits old offset w new u positive fits =
    let now = insert_bits old offset (ones w) new in
    digits-ext (extract_bits now offset (ones w)) (new % 2 ^ w) (λ i.
      let back : i + offset - offset ≡ i = omega arith in
      let moved = ap (digit_at new) back in
      digit_at-extract_bits now offset w i (omega arith)
      ∙ ground (
        arith,
        digit_at-insert_bits old offset w new (i + offset) u positive fits,
        digit_at-mod w new i,
        moved,
      ))

pub extract_bits-insert_bits_apart :
    (old o1 w1 o2 w2 new : ℕ)
    → IsU64 old
    → 0 < w1
    → o1 + w1 ≤ 64
    → o2 < 64
    → (o1 + w1 ≤ o2) ⊎ (o2 + w2 ≤ o1)
    → extract_bits (insert_bits old o1 (ones w1) new) o2 (ones w2) ≡ extract_bits old o2 (ones w2)
extract_bits-insert_bits_apart old o1 w1 o2 w2 new u positive fits k apart =
    let now = insert_bits old o1 (ones w1) new in
    digits-ext (extract_bits now o2 (ones w2)) (extract_bits old o2 (ones w2)) (λ i.
      let left = digit_at-extract_bits now o2 w2 i k in
      let right = digit_at-extract_bits old o2 w2 i k in
      let bits = digit_at-insert_bits old o1 w1 new (i + o2) u positive fits in
      left ∙ ground (arith, right, bits))

pub insert_bits-IsU64 :
    (old offset mask new : ℕ) → IsU64 old → IsU64 (insert_bits old offset mask new)
insert_bits-IsU64 old offset mask new u =
    let hole = wrapping_shl mask offset in
    let moved = wrapping_shl (bit_and new mask) offset in
    bit_or-lt 64 (bit_and old (not_u64 hole)) moved
      (bit_and-lt 64 old (not_u64 hole) u (omega arith)) (omega arith)
