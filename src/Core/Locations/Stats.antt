-- ===== src/Core/Locations/Stats.antt =====
-- src/core/locations.rs, `stats`.
use vivisect_rs.Base.{
  ℕ, suc, ◌+◌, ◌%◌, ◌<◌, ◌||◌, List, [], ◌∷◌, ◌==◌, if◌then◌else◌, ◌≡◌, refl, ap, arith, length,
  keep,
}
use vivisect_rs.Word.{u64_mod}
use vivisect_rs.BTreeMap.{values}
use vivisect_rs.Core.Locations.{
  LocationType, undefined, number, string_type, unicode, pointer, op, structure, clsid, vf_table,
  import_type, pad, type_number, Location, Locations, LocationStats, default_stats, count_type,
  stats_loop, stats, has_type, is_data, get_by_type, get_data,
}

-- The sum of the sizes.
abbrev pub bytes_of : List Location → ℕ
bytes_of [] = 0
bytes_of (l ∷ ls) = l.size + bytes_of ls

-- The six counters together.
abbrev pub counted : LocationStats → ℕ
counted s = s.instructions + s.strings + s.numbers + s.pointers + s.structs + s.other

-- What one location adds to the counters.
record Counts (t : LocationType) (s s' : LocationStats) : Type 0 where
  all_of : counted s' ≡ counted s + 1
  op_of : s'.instructions ≡ s.instructions + (if type_number t == 5 then 1 else 0)
  string_of : s'.strings ≡ s.strings + (if type_number t == 2 then 1 else 0)
  data_of :
      s'.numbers + s'.pointers + s'.structs
      ≡ s.numbers
        + s.pointers
        + s.structs
        + (if type_number t == 1 || type_number t == 4 || type_number t == 6 then 1 else 0)
  bytes_kept : s'.total_bytes ≡ s.total_bytes

count_type_lem : (t : LocationType) (s : LocationStats) → Counts t s (count_type t s)
unfolding type_number
count_type_lem undefined s = record {
  all_of = omega arith;
  op_of = omega arith;
  string_of = omega arith;
  data_of = omega arith;
  bytes_kept = refl;
}
count_type_lem number s = record {
  all_of = omega arith;
  op_of = omega arith;
  string_of = omega arith;
  data_of = omega arith;
  bytes_kept = refl;
}
count_type_lem string_type s = record {
  all_of = omega arith;
  op_of = omega arith;
  string_of = omega arith;
  data_of = omega arith;
  bytes_kept = refl;
}
count_type_lem unicode s = record {
  all_of = omega arith;
  op_of = omega arith;
  string_of = omega arith;
  data_of = omega arith;
  bytes_kept = refl;
}
count_type_lem pointer s = record {
  all_of = omega arith;
  op_of = omega arith;
  string_of = omega arith;
  data_of = omega arith;
  bytes_kept = refl;
}
count_type_lem op s = record {
  all_of = omega arith;
  op_of = omega arith;
  string_of = omega arith;
  data_of = omega arith;
  bytes_kept = refl;
}
count_type_lem structure s = record {
  all_of = omega arith;
  op_of = omega arith;
  string_of = omega arith;
  data_of = omega arith;
  bytes_kept = refl;
}
count_type_lem clsid s = record {
  all_of = omega arith;
  op_of = omega arith;
  string_of = omega arith;
  data_of = omega arith;
  bytes_kept = refl;
}
count_type_lem vf_table s = record {
  all_of = omega arith;
  op_of = omega arith;
  string_of = omega arith;
  data_of = omega arith;
  bytes_kept = refl;
}
count_type_lem import_type s = record {
  all_of = omega arith;
  op_of = omega arith;
  string_of = omega arith;
  data_of = omega arith;
  bytes_kept = refl;
}
count_type_lem pad s = record {
  all_of = omega arith;
  op_of = omega arith;
  string_of = omega arith;
  data_of = omega arith;
  bytes_kept = refl;
}

-- What the loop adds, from any start.
record Sums (ls : List Location) (s s' : LocationStats) : Type 0 where
  all_sum : counted s' ≡ counted s + length ls
  op_sum : s'.instructions ≡ s.instructions + length (keep (has_type op) ls)
  string_sum : s'.strings ≡ s.strings + length (keep (has_type string_type) ls)
  data_sum :
      s'.numbers + s'.pointers + s'.structs
      ≡ s.numbers + s.pointers + s.structs + length (keep is_data ls)
  bytes_sum : s'.total_bytes % u64_mod ≡ (s.total_bytes + bytes_of ls) % u64_mod
  bytes_fit : s.total_bytes < u64_mod → s'.total_bytes < u64_mod

stats_loop_lem : (ls : List Location) (s : LocationStats) → Sums ls s (stats_loop ls s)
unfolding stats_loop type_number
stats_loop_lem [] s = record {
  all_sum = omega arith;
  op_sum = omega arith;
  string_sum = omega arith;
  data_sum = omega arith;
  bytes_sum = omega arith;
  bytes_fit = λ p. p;
}
stats_loop_lem (l ∷ ls) s =
    let c = count_type_lem l.ltype s in
    let counted_stats : LocationStats = count_type l.ltype s in
    let rest =
      stats_loop_lem ls
        (record counted_stats { total_bytes = (counted_stats.total_bytes + l.size) % u64_mod }) in
    record {
      all_sum = omega (arith, c.all_of, rest.all_sum);
      op_sum = ground (arith, c.op_of, rest.op_sum);
      string_sum = ground (arith, c.string_of, rest.string_sum);
      data_sum = ground (arith, c.data_of, rest.data_sum);
      bytes_sum = omega (arith, c.bytes_kept, rest.bytes_sum);
      bytes_fit = λ p. rest.bytes_fit (omega arith);
    }

length-values : (m : Locations) → length (values m) ≡ length m
unfolding values
length-values [] = refl
length-values ((k, l) ∷ m) = ap suc (length-values m)

-- The statistics of any locations: the counters add up to the number of locations; those of
-- instructions, of strings, and of numbers, pointers and structures together are the lengths of what
-- `get_instructions`, `get_strings` and `get_data` give; the bytes are the sum of the sizes, which
-- wraps at 2 ^ 64.
pub stats_lem :
    (m : Locations)
    → (counted (stats m) ≡ (stats m).total)
      × ((stats m).instructions ≡ length (get_by_type m op))
      × ((stats m).strings ≡ length (get_by_type m string_type))
      × ((stats m).numbers + (stats m).pointers + (stats m).structs ≡ length (get_data m))
      × ((stats m).total_bytes ≡ bytes_of (values m) % u64_mod)
unfolding stats get_by_type get_data
stats_lem m =
    let sums = stats_loop_lem (values m) default_stats in
    (
      omega (arith, sums.all_sum, length-values m),
      omega (arith, sums.op_sum),
      omega (arith, sums.string_sum),
      omega (arith, sums.data_sum),
      omega (arith, sums.bytes_sum, sums.bytes_fit (omega arith)),
    )
