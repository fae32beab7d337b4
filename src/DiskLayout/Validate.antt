-- ===== src/DiskLayout/Validate.antt =====
-- disk_layout/validate.rs: the checks of a layout, which collect every error under its field's path.
pub mod Spec
pub mod Checks
pub mod Partitions
pub mod Correct
use rack_director.Prelude.{
  ℕ, zero, suc, ◌+◌, Bool, true, false, ◌||◌, ◌&&◌, not, Option, none, some, List, [], ◌∷◌, ◌++◌,
  Bytes, codes, str_eq, any, find, is_empty, is_none, is_some, length, ltb, if◌then◌else◌, Result,
  ok, err,
}
use rack_director.Tftp.Decimal.{to_string}
use rack_director.DiskLayout.{
  PartitionConfig, DiskConfig, LogicalVolume, VolumeGroup, ZfsPool, DiskLayout, layout_uses_labels,
  or_default,
}

pub data FirmwareMode : Type 0 where
  bios uefi : FirmwareMode

-- `HashMap<String, String>`, with the newest entry first.
abbrev pub Errors : Type 0
Errors = List (Bytes × Bytes)

unfoldable pub remove_key : Bytes → Errors → Errors
remove_key key [] = []
remove_key key ((k, v) ∷ rest) =
    let others = remove_key key rest in if str_eq k key then others else (k, v) ∷ others

unfoldable pub insert_error : Bytes → Bytes → Errors → Errors
insert_error key message errors = (key, message) ∷ remove_key key errors

abbrev pub reject : Bool → Bytes → Bytes → Errors → Errors
reject is_bad key message errors = if is_bad then insert_error key message errors else errors

-- `slice::contains` on strings.
abbrev pub contains : Bytes → List Bytes → Bool
contains s names = any (λ n. str_eq n s) names

abbrev pub valid_filesystems : List Bytes
valid_filesystems = codes "ext4" ∷ codes "xfs" ∷ codes "btrfs" ∷ codes "vfat" ∷ codes "swap" ∷ []

abbrev pub valid_partition_tables : List Bytes
valid_partition_tables = codes "gpt" ∷ codes "msdos" ∷ []

abbrev pub each : {A : Type 0} → (ℕ → A → Errors → Errors) → ℕ → List A → Errors → Errors
each check i [] errors = errors
each check i (x ∷ xs) errors = each check (suc i) xs (check i x errors)

unfoldable pub validate_at_least_one_disk : DiskLayout → Errors → Errors
validate_at_least_one_disk l errors =
    reject (is_empty l.disks) (codes "disk_layout") (codes "At least one disk is required") errors

abbrev pub is_root : DiskConfig → Bool
is_root d = str_eq d.device (codes "ROOT")

unfoldable pub validate_root_disk_required : DiskLayout → Errors → Errors
validate_root_disk_required l errors =
    if is_empty l.disks
    then errors
    else if layout_uses_labels l
    then reject (not (any is_root l.disks)) (codes "disk_layout")
        (codes "A disk with label 'ROOT' is required") errors
    else errors

unfoldable pub disk_key : ℕ → Bytes
disk_key i = codes "disks." ++ to_string i

unfoldable pub partition_key : ℕ → ℕ → Bytes → Bytes
partition_key i j field = disk_key i ++ (codes ".partitions." ++ (to_string j ++ field))

unfoldable pub volume_key : ℕ → ℕ → Bytes → Bytes
volume_key i j field =
    codes "volume_groups." ++ (to_string i ++ (codes ".logical_volumes." ++ (to_string j ++ field)))

unfoldable pub validate_partition_table : ℕ → Bytes → Errors → Errors
validate_partition_table i table errors =
    reject (not (contains table valid_partition_tables)) (disk_key i ++ codes ".partition_table")
      (codes "Partition table must be 'gpt' or 'msdos'") errors

unfoldable pub validate_mount_point_requires_filesystem :
    Bytes → Option Bytes → Option Bytes → Errors → Errors
validate_mount_point_requires_filesystem field filesystem mount_point errors =
    reject (is_none filesystem && is_some mount_point) field
      (codes "A mount point requires a filesystem; clear the mount point or choose a filesystem")
      errors

abbrev pub is_rest : PartitionConfig → Bool
is_rest p = str_eq p.size (codes "rest") || str_eq p.size (codes "*")

-- The indices, from `j`, of the partitions that take the rest of the disk.
unfoldable pub rest_indices : ℕ → List PartitionConfig → List ℕ
rest_indices j [] = []
rest_indices j (p ∷ ps) =
    let later = rest_indices (suc j) ps in if is_rest p then j ∷ later else later

abbrev pub reject_sizes : ℕ → List ℕ → Errors → Errors
reject_sizes i [] errors = errors
reject_sizes i (j ∷ js) errors = reject_sizes i js (
    insert_error (partition_key i j (codes ".size"))
      (codes "Only one partition per disk can use 'rest' or '*' for size") errors)

unfoldable pub validate_at_most_one_rest_partition : ℕ → List PartitionConfig → Errors → Errors
validate_at_most_one_rest_partition i partitions errors =
    let rests = rest_indices 0 partitions in
    if ltb 1 (length rests) then reject_sizes i rests errors else errors

abbrev pub is_bad_filesystem : Option Bytes → Bool
is_bad_filesystem none = false
is_bad_filesystem (some fs) = not (contains fs valid_filesystems)

unfoldable pub filesystem_message : Option Bytes → Bytes
filesystem_message filesystem =
    codes "Invalid filesystem '"
    ++ (text filesystem ++ codes "'. Valid options: ext4, xfs, btrfs, vfat, swap")
  where
    text : Option Bytes → Bytes
    text none = []
    text (some fs) = fs

unfoldable pub validate_partition_filesystem : ℕ → ℕ → Option Bytes → Errors → Errors
validate_partition_filesystem i j filesystem errors =
    reject (is_bad_filesystem filesystem) (partition_key i j (codes ".filesystem"))
      (filesystem_message filesystem) errors

abbrev pub has_flag : Bytes → PartitionConfig → Bool
has_flag flag p = contains flag (or_default p.flags)

abbrev pub check_volume_group : ℕ → ℕ → Option Bytes → List Bytes → Errors → Errors
check_volume_group i j none defined errors =
    insert_error (partition_key i j (codes ".volume_group"))
      (codes "LVM partition must be assigned to a volume group") errors
check_volume_group i j (some name) defined errors =
    reject (not (contains name defined)) (partition_key i j (codes ".volume_group"))
      (codes "Volume group '" ++ (name ++ codes "' does not exist")) errors

unfoldable pub validate_lvm_partition : ℕ → ℕ → PartitionConfig → List Bytes → Errors → Errors
validate_lvm_partition i j p defined errors =
    if has_flag (codes "lvm") p
    then check_volume_group i j p.volume_group defined errors
    else errors

unfoldable pub validate_partition : ℕ → List Bytes → ℕ → PartitionConfig → Errors → Errors
validate_partition i defined j p errors = validate_lvm_partition i j p defined (
    validate_mount_point_requires_filesystem (partition_key i j (codes ".mount_point")) p.filesystem
      p.mount_point (validate_partition_filesystem i j p.filesystem errors))

unfoldable pub validate_disk_partitions : ℕ → List PartitionConfig → List Bytes → Errors → Errors
validate_disk_partitions i partitions defined errors =
    each (validate_partition i defined) 0 partitions
      (validate_at_most_one_rest_partition i partitions errors)

abbrev pub names : List VolumeGroup → List Bytes
names [] = []
names (g ∷ gs) = g.name ∷ names gs

unfoldable pub validate_disk : List Bytes → ℕ → DiskConfig → Errors → Errors
validate_disk defined i d errors =
    validate_disk_partitions i d.partitions defined
      (validate_partition_table i d.partition_table errors)

unfoldable pub validate_disks : DiskLayout → Errors → Errors
validate_disks l errors = each (validate_disk (names (or_default l.volume_groups))) 0 l.disks errors

abbrev pub is_in_group : Bytes → Option Bytes → Bool
is_in_group name none = false
is_in_group name (some g) = str_eq g name

abbrev pub is_referenced : Bytes → List DiskConfig → Bool
is_referenced name disks = any (λ d. any (λ p. is_in_group name p.volume_group) d.partitions) disks

unfoldable pub validate_vg_has_physical_volumes : ℕ → VolumeGroup → DiskLayout → Errors → Errors
validate_vg_has_physical_volumes i g l errors =
    reject (not (is_referenced g.name l.disks))
      (codes "volume_groups." ++ (to_string i ++ codes ".name"))
      (codes "Volume group '" ++ (g.name ++ codes "' has no physical volumes assigned")) errors

unfoldable pub validate_logical_volume : ℕ → ℕ → LogicalVolume → Errors → Errors
validate_logical_volume i j v errors =
    validate_mount_point_requires_filesystem (volume_key i j (codes ".mount_point")) v.filesystem
      v.mount_point
      (reject (is_bad_filesystem v.filesystem) (volume_key i j (codes ".filesystem"))
        (filesystem_message v.filesystem) errors)

unfoldable pub validate_logical_volume_filesystems : ℕ → VolumeGroup → Errors → Errors
validate_logical_volume_filesystems i g errors =
    each (validate_logical_volume i) 0 g.logical_volumes errors

unfoldable pub validate_group : DiskLayout → ℕ → VolumeGroup → Errors → Errors
validate_group l i g errors =
    validate_logical_volume_filesystems i g (validate_vg_has_physical_volumes i g l errors)

unfoldable pub validate_volume_groups : DiskLayout → Errors → Errors
validate_volume_groups l errors = each (validate_group l) 0 (or_default l.volume_groups) errors

abbrev pub is_gpt : DiskConfig → Bool
is_gpt d = str_eq d.partition_table (codes "gpt")

abbrev pub disk_has_flag : Bytes → DiskConfig → Bool
disk_has_flag flag d = any (has_flag flag) d.partitions

unfoldable pub uefi_message : Bytes
uefi_message =
    codes "ROOT disk is missing an EFI System Partition (esp flag). "
    ++ codes "Add a partition with the 'esp' flag (e.g. 300 MiB vfat at /boot/efi)."

unfoldable pub bios_message : Bytes
bios_message =
    codes "ROOT disk (GPT) is missing a BIOS GRUB partition (bios_grub flag). "
    ++ codes "Add a 1 MiB partition with the 'bios_grub' flag."

unfoldable pub unspecified_message : Bytes
unspecified_message =
    codes "ROOT disk (GPT) is missing boot partitions. "
    ++ (codes "When firmware mode is unspecified, add at least one of: "
        ++ (codes "an EFI System Partition (esp flag) for UEFI, or a BIOS GRUB partition "
            ++ codes "(bios_grub flag) for BIOS+GPT."))

abbrev pub check_root : Option FirmwareMode → DiskConfig → Errors → Errors
check_root (some uefi) root errors =
    reject (not (disk_has_flag (codes "esp") root)) (codes "disk_layout") uefi_message errors
check_root (some bios) root errors =
    reject (is_gpt root && not (disk_has_flag (codes "bios_grub") root)) (codes "disk_layout")
      bios_message errors
check_root none root errors =
    if is_gpt root
    then reject
        (not (disk_has_flag (codes "esp") root) && not (disk_has_flag (codes "bios_grub") root))
        (codes "disk_layout") unspecified_message errors
    else errors

abbrev pub check_boot : Option FirmwareMode → Option DiskConfig → Errors → Errors
check_boot mode none errors = errors
check_boot mode (some root) errors = check_root mode root errors

unfoldable pub validate_boot_partitions : DiskLayout → Option FirmwareMode → Errors → Errors
validate_boot_partitions l mode errors = check_boot mode (find is_root l.disks) errors

abbrev pub when_empty : Errors → Result {0} Errors Unit
when_empty [] = ok tt
when_empty (e ∷ es) = err (e ∷ es)

unfoldable pub validate_disk_layout : DiskLayout → Option FirmwareMode → Result {0} Errors Unit
validate_disk_layout l mode =
    let after_disks =
      validate_disks l (validate_root_disk_required l (validate_at_least_one_disk l [])) in
    when_empty (validate_boot_partitions l mode (validate_volume_groups l after_disks))
