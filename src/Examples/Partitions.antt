-- ===== src/Examples/Partitions.antt =====
-- A disk with two partitions, one of them in a volume group, that the agent makes.
use rack_director.Prelude.{
  ℕ, ◌*◌, ◌≤◌, ◌≡◌, refl, arith, Bool, true, false, Option, none, some, List, [], ◌∷◌, Bytes, codes,
  ok, str_eq, length, All,
}
use rack_director.Tftp.Decimal.{from_str}
use rack_director.DiskLayout.{
  PartitionConfig, DiskConfig, LogicalVolume, DiskLayout, layout_uses_labels,
}
use rack_director.DiskLayout.Validate.{uefi}
use rack_director.DiskLayout.Validate.Spec.{IsLayout}
use rack_director.DiskLayout.Validate.Correct.{validate_disk_layout-IsLayout}
use rack_director.Agent.Sizes.{
  Floats, ends_with, strip_suffix, trim, trim_start, trim_end, split_unit, parse_size,
  parse_partition_size,
}
use rack_director.Agent.Offsets.{
  align, usable_end, partition_sizes, rest_count, fixed_total, assign_offsets,
  calculate_partition_offsets,
}
use rack_director.Agent.Offsets.Sums.{sum}
use rack_director.Agent.Offsets.Tiles.{
  Tiles, HaveSizes, IsAligned, rest_of, calculate_partition_offsets-Tiles,
}
use rack_director.Agent.Commands.{Machine, is_free_size}
use rack_director.Agent.Layouts.{free_count, apply_disk_layout, execute, Command}
use rack_director.Agent.Layouts.Accepted.{execute-apply_disk_layout}

-- Whole numbers only.
abbrev times : ℕ → Option ℕ → Option ℕ
times unit none = none
times unit (some n) = some (n * unit)

abbrev whole : Floats
whole = record { scale = λ text unit. times unit (from_str text); percent = λ text usable. none }

abbrev partition_of : Bytes → Bytes → Option Bytes → Option Bytes → PartitionConfig
partition_of label size filesystem volume_group = record {
  label = label;
  size = size;
  filesystem = filesystem;
  mount_point = none;
  flags = none;
  volume_group = volume_group;
}

abbrev efi : PartitionConfig
efi = record (partition_of (codes "efi") (codes "1MiB") (some (codes "vfat")) none) {
  flags = some (codes "esp" ∷ []);
}

abbrev pv : PartitionConfig
pv = partition_of (codes "pv") (codes "rest") none (some (codes "data"))

abbrev mib : ℕ → ℕ
mib n = n * 1048576

two_sizes : partition_sizes whole (mib 6) (efi ∷ pv ∷ []) ≡ ok (some 1048576 ∷ none ∷ [])
unfolding partition_sizes parse_partition_size parse_size ends_with strip_suffix trim trim_start
    trim_end split_unit from_str str_eq
two_sizes = refl

one_rest : rest_count (some 1048576 ∷ none ∷ []) ≤ 1
unfolding rest_count
one_rest = omega arith

they_fit : sum 0 (some 1048576 ∷ none ∷ []) ≤ mib 6
unfolding sum
they_fit = omega arith

calculate_partition_offsets-Tiles_example :
    (offsets : List (ℕ × ℕ)) × (calculate_partition_offsets whole (efi ∷ pv ∷ []) (mib 8)
      ≡ ok offsets)
    × (length offsets ≡ 2)
    × Tiles align (usable_end (mib 8)) offsets
    × (All (IsAligned (rest_of (mib 6) (some 1048576 ∷ none ∷ []))) (some 1048576 ∷ none ∷ [])
        → HaveSizes (rest_of (mib 6) (some 1048576 ∷ none ∷ [])) (some 1048576 ∷ none ∷ []) offsets)
calculate_partition_offsets-Tiles_example =
    calculate_partition_offsets-Tiles whole (efi ∷ pv ∷ []) (mib 8) (some 1048576 ∷ none ∷ [])
      (omega arith) (omega arith) two_sizes one_rest they_fit

offsets_of_two :
    calculate_partition_offsets whole (efi ∷ pv ∷ []) (mib 8)
    ≡ ok ((1048576, 2097151) ∷ (2097152, 7340031) ∷ [])
unfolding calculate_partition_offsets partition_sizes rest_count fixed_total assign_offsets
    parse_partition_size parse_size ends_with strip_suffix trim trim_start trim_end split_unit
    from_str str_eq
offsets_of_two = refl

-- Three partitions of a byte on a disk of 4 MiB: the third ends before it starts.
abbrev byte : PartitionConfig
byte = partition_of (codes "b") (codes "1") none none

third_is_empty :
    calculate_partition_offsets whole (byte ∷ byte ∷ byte ∷ []) (mib 4)
    ≡ ok ((1048576, 2097151) ∷ (2097152, 3145727) ∷ (3145728, 3145727) ∷ [])
unfolding calculate_partition_offsets partition_sizes rest_count fixed_total assign_offsets
    parse_partition_size parse_size ends_with strip_suffix trim trim_start trim_end split_unit
    from_str str_eq
third_is_empty = refl

abbrev disk : DiskConfig
disk = record {
  device = codes "/dev/sda";
  partition_table = codes "gpt";
  partitions = efi ∷ pv ∷ [];
}

abbrev srv : LogicalVolume
srv = record {
  name = codes "srv";
  size = codes "rest";
  filesystem = some (codes "xfs");
  mount_point = some (codes "/srv");
}

abbrev layout : DiskLayout
layout = record {
  disks = disk ∷ [];
  volume_groups = some (record { name = codes "data"; logical_volumes = srv ∷ [] } ∷ []);
  zfs_pools = none;
  wipe_all_disks = false;
}

layout-IsLayout : IsLayout (some uefi) layout
unfolding layout_uses_labels str_eq
layout-IsLayout = record {
  has_disk = refl;
  has_root = λ h. cc;
  has_disks = (
    record {
      has_table = refl;
      has_one_rest = omega arith;
      has_partitions = (
        record { has_filesystem = refl; is_mountable = λ h. refl; has_group = λ h. cc },
        (record { has_filesystem = tt; is_mountable = λ h. cc; has_group = λ h. cc }, tt),
      );
    },
    tt,
  );
  has_groups = (
    record {
      has_disk = refl;
      has_volumes = (record { has_filesystem = refl; is_mountable = λ h. refl }, tt);
    },
    tt,
  );
  has_boot = tt;
}

abbrev machine : Machine
machine = record {
  floats = whole;
  disk_size = λ device. some (mib 8);
  disk_paths = codes "/dev/sda" ∷ [];
  canonicalize = λ path. path;
  physical_volumes = [];
}

one_free : free_count (record { name = codes "data"; logical_volumes = srv ∷ [] }) ≤ 1
unfolding free_count is_free_size str_eq
one_free = omega arith

every_command : (cs : List Command) → All (λ c. ◌≡◌ {A = Bool} true true) cs
every_command [] = tt
every_command (c ∷ cs) = (refl, every_command cs)

execute-apply_disk_layout_example :
    (execute (λ c. true) (apply_disk_layout machine layout)).1 ≡ true
execute-apply_disk_layout_example =
    execute-apply_disk_layout machine layout (some uefi) (λ c. true)
      ((validate_disk_layout-IsLayout layout (some uefi)).1 layout-IsLayout)
      ((mib 8, _, refl, offsets_of_two), tt) (one_free, tt)
      (every_command (execute (λ c. true) (apply_disk_layout machine layout)).0)
