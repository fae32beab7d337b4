-- ===== src/DiskLayout/Validate/Spec.antt =====
-- disk_layout/validate.rs: the layouts that are to be accepted, field by field.
use rack_director.Prelude.{
  ℕ, suc, ◌≤◌, ◌≡◌, Bool, true, false, ◌||◌, Option, none, some, List, [], ◌∷◌, Bytes, codes, any,
  All, find, is_empty, is_some, if◌then◌else◌,
}
use rack_director.DiskLayout.{
  PartitionConfig, DiskConfig, LogicalVolume, VolumeGroup, DiskLayout, layout_uses_labels,
  or_default,
}
use rack_director.DiskLayout.Validate.{
  FirmwareMode, bios, uefi, contains, valid_filesystems, valid_partition_tables, is_root, is_rest,
  has_flag, names, is_referenced, is_gpt, disk_has_flag,
}

abbrev pub IsFilesystem : Option Bytes → Type 0
IsFilesystem none = Unit
IsFilesystem (some fs) = contains fs valid_filesystems ≡ true

pub record IsPartition (defined : List Bytes) (p : PartitionConfig) : Type 0 where
  pub has_filesystem : IsFilesystem p.filesystem
  pub is_mountable : is_some p.mount_point ≡ true → is_some p.filesystem ≡ true
  pub has_group :
      has_flag (codes "lvm") p ≡ true
      → (g : Bytes) × (p.volume_group ≡ some g) × (contains g defined ≡ true)

abbrev pub count : {A : Type 0} → (A → Bool) → List A → ℕ
count p [] = 0
count p (x ∷ xs) = let rest = count p xs in if p x then suc rest else rest

pub record IsDisk (defined : List Bytes) (d : DiskConfig) : Type 0 where
  pub has_table : contains d.partition_table valid_partition_tables ≡ true
  pub has_one_rest : count is_rest d.partitions ≤ 1
  pub has_partitions : All (IsPartition defined) d.partitions

pub record IsVolume (v : LogicalVolume) : Type 0 where
  pub has_filesystem : IsFilesystem v.filesystem
  pub is_mountable : is_some v.mount_point ≡ true → is_some v.filesystem ≡ true

pub record IsGroup (disks : List DiskConfig) (g : VolumeGroup) : Type 0 where
  pub has_disk : is_referenced g.name disks ≡ true
  pub has_volumes : All IsVolume g.logical_volumes

abbrev pub IsBootable : Option FirmwareMode → DiskConfig → Type 0
IsBootable (some uefi) root = disk_has_flag (codes "esp") root ≡ true
IsBootable (some bios) root = is_gpt root ≡ true → disk_has_flag (codes "bios_grub") root ≡ true
IsBootable none root =
    is_gpt root ≡ true
    → (disk_has_flag (codes "esp") root || disk_has_flag (codes "bios_grub") root) ≡ true

abbrev pub WhenFound : {A : Type 0} → (A → Type 0) → Option A → Type 0
WhenFound P none = Unit
WhenFound P (some a) = P a

pub record IsLayout (mode : Option FirmwareMode) (l : DiskLayout) : Type 0 where
  pub has_disk : is_empty l.disks ≡ false
  pub has_root : layout_uses_labels l ≡ true → any is_root l.disks ≡ true
  pub has_disks : All (IsDisk (names (or_default l.volume_groups))) l.disks
  pub has_groups : All (IsGroup l.disks) (or_default l.volume_groups)
  pub has_boot : WhenFound (IsBootable mode) (find is_root l.disks)
