-- ===== src/Agent/Commands.antt =====
-- partition.rs: the commands by which the agent makes a disk layout, as the list of its steps. What
-- the machine tells the agent on the way is the record `Machine`.
use rack_director.Prelude.{
  ℕ, suc, Bool, true, false, not, ◌||◌, ◌&&◌, Option, none, some, List, [], ◌∷◌, ◌++◌, Bytes, codes,
  str_eq, ◌==◌, leb, if◌then◌else◌, is_empty, any, map, Result, ok, err,
}
use rack_director.DiskLayout.{PartitionConfig, DiskConfig, or_default}
use rack_director.Tftp.Decimal.{to_string}
use rack_director.Agent.Sizes.{Floats}
use rack_director.Agent.Offsets.{OffsetError, calculate_partition_offsets}

pub data AgentError : Type 0 where
  bad_offsets : OffsetError → AgentError
  no_disk_size : Bytes → AgentError
  many_free_volumes : Bytes → ℕ → AgentError
  no_partitions : Bytes → AgentError
  unsupported_filesystem : Bytes → AgentError

-- A command that must succeed, one whose failure is ignored, or an error of the agent itself.
pub data Step : Type 0 where
  run : Bytes → List Bytes → Step
  attempt : Bytes → List Bytes → Step
  refuse : AgentError → Step

-- What the agent reads: the size of a disk, the paths of all disks, the target of a link, and the
-- physical volumes with their groups.
pub record Machine : Type 0 where
  pub floats : Floats
  pub disk_size : Bytes → Option ℕ
  pub disk_paths : List Bytes
  pub canonicalize : Bytes → Bytes
  pub physical_volumes : List (Bytes × Bytes)

abbrev pub flat_map : {A B : Type 0} → (A → List B) → List A → List B
flat_map f [] = []
flat_map f (x ∷ xs) = f x ++ flat_map f xs

abbrev pub keep : {A : Type 0} → (A → Bool) → List A → List A
keep p [] = []
keep p (x ∷ xs) = let rest = keep p xs in if p x then x ∷ rest else rest

unfoldable pub starts_with : Bytes → Bytes → Bool
starts_with s [] = true
starts_with [] (c ∷ prefix) = false
starts_with (d ∷ s) (c ∷ prefix) = d == c && starts_with s prefix

unfoldable contains_text : Bytes → Bytes → Bool
unfolding starts_with
contains_text [] part = is_empty part
contains_text (c ∷ s) part = starts_with (c ∷ s) part || contains_text s part

unfoldable ends_in_digit : Bytes → Bool
ends_in_digit [] = false
ends_in_digit (c ∷ []) = leb b'0' c && leb c b'9'
ends_in_digit (c ∷ d ∷ s) = ends_in_digit (d ∷ s)

unfoldable pub partition_path : Bytes → ℕ → Bytes
unfolding contains_text ends_in_digit
partition_path disk partition_num =
    if contains_text disk (codes "/by-path/") || contains_text disk (codes "/by-id/")
    then disk ++ codes "-part" ++ to_string partition_num
    else if ends_in_digit disk
    then disk ++ codes "p" ++ to_string partition_num
    else disk ++ to_string partition_num

unfoldable fs_type_hint : Bytes → Bytes
fs_type_hint filesystem =
    if str_eq filesystem (codes "ext4")
      || str_eq filesystem (codes "ext3")
      || str_eq filesystem (codes "ext2")
    then codes "ext4"
    else if str_eq filesystem (codes "xfs")
    then codes "xfs"
    else if str_eq filesystem (codes "btrfs")
    then codes "btrfs"
    else if str_eq filesystem (codes "vfat")
        || str_eq filesystem (codes "fat32")
        || str_eq filesystem (codes "fat16")
    then codes "fat32"
    else if str_eq filesystem (codes "swap")
    then codes "linux-swap"
    else if str_eq filesystem (codes "ntfs")
    then codes "ntfs"
    else codes "ext4"

abbrev hint_of : Option Bytes → Bytes
hint_of none = codes "ext4"
hint_of (some filesystem) = fs_type_hint filesystem

unfoldable pub set_flags : Bytes → ℕ → List Bytes → List Step
set_flags device part_num flags =
    map
      (λ flag.
        run (codes "parted")
          (codes "-s" ∷ device ∷ codes "set" ∷ to_string part_num ∷ flag ∷ codes "on" ∷ []))
      flags

-- The partitions with their offsets, counted from `part_num`.
unfoldable pub make_partitions : Bytes → ℕ → List PartitionConfig → List (ℕ × ℕ) → List Step
unfolding fs_type_hint
make_partitions device part_num [] offsets = []
make_partitions device part_num (p ∷ ps) [] = []
make_partitions device part_num (p ∷ ps) ((start, end) ∷ offsets) =
    run (codes "parted") (
      codes "-s"
      ∷ device
      ∷ codes "mkpart"
      ∷ p.label
      ∷ hint_of p.filesystem
      ∷ (to_string start ++ codes "B")
      ∷ (to_string end ++ codes "B")
      ∷ [])
    ∷ (set_flags device part_num (or_default p.flags)
        ++ make_partitions device (suc part_num) ps offsets)

abbrev pub partitions_or_refuse : DiskConfig → Result OffsetError (List (ℕ × ℕ)) → List Step
partitions_or_refuse disk (err e) = refuse (bad_offsets e) ∷ []
partitions_or_refuse disk (ok offsets) = make_partitions disk.device 1 disk.partitions offsets

abbrev pub wipe : Bytes → List Step
wipe device =
    run (codes "wipefs") (codes "--all" ∷ codes "--force" ∷ device ∷ [])
    ∷ run (codes "sgdisk") (codes "--zap-all" ∷ device ∷ [])
    ∷ []

abbrev pub sized : Machine → DiskConfig → Option ℕ → List Step
sized m disk none = refuse (no_disk_size disk.device) ∷ []
sized m disk (some size) =
    partitions_or_refuse disk (calculate_partition_offsets m.floats disk.partitions size)

unfoldable pub wipe_and_partition_disk : Machine → DiskConfig → List Step
wipe_and_partition_disk m disk =
    wipe disk.device
    ++ run (codes "parted") (codes "-s" ∷ disk.device ∷ codes "mklabel" ∷ disk.partition_table ∷ [])
      ∷ sized m disk (m.disk_size disk.device)

unfoldable pub wipe_all_disks : Machine → List Step
wipe_all_disks m = flat_map wipe m.disk_paths

-- The groups that have a volume on one of the disks, each once; all groups for no disk.
abbrev on_target : List Bytes → Bytes → Bool
on_target canonical pv = is_empty canonical || any (λ d. starts_with pv d) canonical

unfoldable groups_on : List Bytes → List (Bytes × Bytes) → List Bytes
unfolding starts_with
groups_on canonical [] = []
groups_on canonical ((pv, vg) ∷ rest) =
    let vgs = groups_on canonical rest in
    if on_target canonical pv && not (is_empty vg) && not (any (λ v. str_eq v vg) vgs)
    then vg ∷ vgs
    else vgs

abbrev pub remove_group : Bytes → List Step
remove_group vg =
    attempt (codes "vgchange") (codes "-an" ∷ vg ∷ [])
    ∷ attempt (codes "vgremove") (codes "--force" ∷ vg ∷ [])
    ∷ []

unfoldable pub remove_lvm_on_disks : Machine → List DiskConfig → List Step
unfolding groups_on
remove_lvm_on_disks m disks =
    flat_map remove_group (groups_on (map (λ d. m.canonicalize d.device) disks) m.physical_volumes)

unfoldable pub is_free_size : Bytes → Bool
is_free_size size = str_eq size (codes "100%FREE") || str_eq size (codes "rest")

unfoldable pub format_filesystem : Bytes → Bytes → Step
format_filesystem device filesystem =
    if str_eq filesystem (codes "ext4")
    then run (codes "mkfs.ext4") (codes "-F" ∷ codes "-q" ∷ device ∷ [])
    else if str_eq filesystem (codes "ext3")
    then run (codes "mkfs.ext3") (codes "-F" ∷ codes "-q" ∷ device ∷ [])
    else if str_eq filesystem (codes "xfs")
    then run (codes "mkfs.xfs") (codes "-f" ∷ codes "-q" ∷ device ∷ [])
    else if str_eq filesystem (codes "btrfs")
    then run (codes "mkfs.btrfs") (codes "-f" ∷ device ∷ [])
    else if str_eq filesystem (codes "vfat") || str_eq filesystem (codes "fat32")
    then run (codes "mkfs.vfat") (codes "-F" ∷ codes "32" ∷ device ∷ [])
    else if str_eq filesystem (codes "swap")
    then run (codes "mkswap") (device ∷ [])
    else refuse (unsupported_filesystem filesystem)
