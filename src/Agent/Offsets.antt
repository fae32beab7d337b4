-- ===== src/Agent/Offsets.antt =====
-- partition.rs: `calculate_partition_offsets`, over the sizes that were read. Sums of bytes wrap at
-- 64 bits, as they do in a release build.
pub mod Sums
pub mod Tiles
use rack_director.Prelude.{
  ℕ, suc, ◌+◌, ◌-◌, ◌*◌, ◌/◌, ◌%◌, ◌^◌, min, Bool, true, false, Option, none, some, List, [], ◌∷◌,
  Bytes, map, leb, ltb, ◌==◌, if◌then◌else◌, Result, ok, err, ◌>>=◌,
}
use rack_director.DiskLayout.{PartitionConfig}
use rack_director.Agent.Sizes.{Floats, SizeError, parse_partition_size}

pub data OffsetError : Type 0 where
  bad_size : SizeError → OffsetError
  disk_too_small : ℕ → OffsetError
  multiple_rest : OffsetError
  sizes_exceed : ℕ → ℕ → OffsetError

abbrev pub align : ℕ
align = 1024 * 1024

abbrev pub u64 : ℕ → ℕ
u64 n = n % 2 ^ 64

-- The usable bytes end where the last MiB begins.
abbrev pub usable_end : ℕ → ℕ
usable_end disk_size_bytes = disk_size_bytes - align

abbrev pub as_offset_error : {A : Type 0} → Result SizeError A → Result OffsetError A
as_offset_error (ok a) = ok a
as_offset_error (err e) = err (bad_size e)

-- The sizes of the partitions, in their order.
unfoldable pub partition_sizes :
    Floats → ℕ → List PartitionConfig → Result OffsetError (List (Option ℕ))
partition_sizes f usable_size [] = ok []
partition_sizes f usable_size (p ∷ ps) = do
  size ← as_offset_error (parse_partition_size f p.size usable_size)
  rest ← partition_sizes f usable_size ps
  ok (size ∷ rest)

-- The first pass: how many partitions take the rest, and the sum of the others.
unfoldable pub rest_count : List (Option ℕ) → ℕ
rest_count [] = 0
rest_count (none ∷ sizes) = suc (rest_count sizes)
rest_count (some _ ∷ sizes) = rest_count sizes

unfoldable pub fixed_total : ℕ → List (Option ℕ) → ℕ
fixed_total total [] = total
fixed_total total (none ∷ sizes) = fixed_total total sizes
fixed_total total (some bytes ∷ sizes) = fixed_total (u64 (total + bytes)) sizes

abbrev pub div_ceil : ℕ → ℕ → ℕ
div_ceil n d = if n % d == 0 then n / d else suc (n / d)

abbrev pub size_or : ℕ → Option ℕ → ℕ
size_or rest_size none = rest_size
size_or rest_size (some bytes) = bytes

abbrev pub end_of : ℕ → ℕ → ℕ → ℕ
end_of limit current size = min (u64 (current + u64 (div_ceil size align * align))) limit

-- The second pass: first and last byte of each partition.
unfoldable pub assign_offsets : ℕ → ℕ → ℕ → List (Option ℕ) → List (ℕ × ℕ)
assign_offsets limit rest_size current [] = []
assign_offsets limit rest_size current (size ∷ sizes) =
    let end = end_of limit current (size_or rest_size size) in
    (current, end - 1) ∷ assign_offsets limit rest_size end sizes

abbrev pub checked_offsets : ℕ → List (Option ℕ) → Result OffsetError (List (ℕ × ℕ))
checked_offsets limit sizes =
    let usable_size = limit - align in
    let total = fixed_total 0 sizes in
    if ltb 1 (rest_count sizes)
    then err multiple_rest
    else if ltb usable_size total
    then err (sizes_exceed total usable_size)
    else ok (
        assign_offsets limit (if ltb 0 (rest_count sizes) then usable_size - total else 0) align
          sizes)

unfoldable pub calculate_partition_offsets :
    Floats → List PartitionConfig → ℕ → Result OffsetError (List (ℕ × ℕ))
calculate_partition_offsets f partitions disk_size_bytes =
    let limit = usable_end disk_size_bytes in
    if leb limit align
    then err (disk_too_small disk_size_bytes)
    else partition_sizes f (limit - align) partitions >>= checked_offsets limit
