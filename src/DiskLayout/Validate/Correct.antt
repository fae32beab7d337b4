-- ===== src/DiskLayout/Validate/Correct.antt =====
-- disk_layout/validate.rs: which layouts the checks accept.
use rack_director.Prelude.{
  ℕ, ◌≡◌, ◌↔◌, Bool, true, false, ◌||◌, ◌&&◌, not, Option, none, some, List, [], ◌∷◌, Bytes, codes,
  any, All, find, is_empty, if◌then◌else◌, ok, refl, sym,
}
use rack_director.DiskLayout.{
  DiskConfig, LogicalVolume, VolumeGroup, DiskLayout, layout_uses_labels, or_default,
}
use rack_director.DiskLayout.Validate.{
  FirmwareMode, bios, uefi, Errors, contains, valid_partition_tables, is_root, names, is_referenced,
  is_gpt, disk_has_flag, check_root, check_boot, when_empty, validate_disk_layout,
  validate_boot_partitions, validate_volume_groups, validate_disks, validate_root_disk_required,
  validate_at_least_one_disk, validate_group, validate_logical_volume_filesystems,
  validate_vg_has_physical_volumes, validate_logical_volume, validate_disk,
  validate_disk_partitions, validate_partition_table,
}
use rack_director.DiskLayout.Validate.Spec.{
  IsDisk, IsVolume, IsGroup, IsBootable, WhenFound, IsLayout,
}
use rack_director.DiskLayout.Validate.Checks.{
  Checks, false≢true, reject-Checks, seq-Checks, map-Checks, if-Checks, each-Checks, not-false,
  not-true, require-Checks,
}
use rack_director.DiskLayout.Validate.Partitions.{
  IsFilesystem-Checks, mount-Checks, IsPartition-Checks, rest-Checks,
}

IsDisk-Checks :
    (defined : List Bytes) (i : ℕ) (d : DiskConfig)
    → Checks (validate_disk defined i d) (IsDisk defined d)
unfolding validate_disk validate_disk_partitions validate_partition_table
IsDisk-Checks defined i d =
    map-Checks (λ (t, (r, ps)). record { has_table = t; has_one_rest = r; has_partitions = ps })
      (λ h. (h.has_table, (h.has_one_rest, h.has_partitions)))
      (seq-Checks (require-Checks (contains d.partition_table valid_partition_tables) _ _) (
        seq-Checks (rest-Checks i d.partitions)
          (each-Checks (IsPartition-Checks i defined) 0 d.partitions)))

IsVolume-Checks :
    (i j : ℕ) (v : LogicalVolume) → Checks (validate_logical_volume i j v) (IsVolume v)
unfolding validate_logical_volume
IsVolume-Checks i j v =
    map-Checks (λ (f, m). record { has_filesystem = f; is_mountable = m })
      (λ h. (h.has_filesystem, h.is_mountable))
      (seq-Checks (IsFilesystem-Checks v.filesystem _ _)
        (mount-Checks _ v.filesystem v.mount_point))

volume_group-Checks :
    (l : DiskLayout) (i : ℕ) (g : VolumeGroup) → Checks (validate_group l i g) (IsGroup l.disks g)
unfolding validate_group validate_vg_has_physical_volumes validate_logical_volume_filesystems
volume_group-Checks l i g =
    map-Checks (λ (d, vs). record { has_disk = d; has_volumes = vs })
      (λ h. (h.has_disk, h.has_volumes))
      (seq-Checks (require-Checks (is_referenced g.name l.disks) _ _)
        (each-Checks (IsVolume-Checks i) 0 g.logical_volumes))

or-not : (a b : Bool) → (not a && not b) ≡ false → (a || b) ≡ true
or-not true b h = refl
or-not false b h = not-false b h

not-or : (a b : Bool) → (a || b) ≡ true → (not a && not b) ≡ false
not-or true b h = refl
not-or false b h = not-true b h

implied : (a b : Bool) → (a && not b) ≡ false → a ≡ true → b ≡ true
implied true b h t = not-false b h
implied false b h t = cc

not-implied : (a b : Bool) → (a ≡ true → b ≡ true) → (a && not b) ≡ false
not-implied true b h = not-true b (h refl)
not-implied false b h = refl

boot-Checks :
    (mode : Option FirmwareMode) (root : DiskConfig)
    → Checks (check_root mode root) (IsBootable mode root)
boot-Checks (some uefi) root = require-Checks (disk_has_flag (codes "esp") root) _ _
boot-Checks (some bios) root =
    map-Checks (implied (is_gpt root) (disk_has_flag (codes "bios_grub") root))
      (not-implied (is_gpt root) (disk_has_flag (codes "bios_grub") root)) (reject-Checks _ _ _)
boot-Checks none root = if-Checks (is_gpt root) (
    map-Checks (or-not (disk_has_flag (codes "esp") root) (disk_has_flag (codes "bios_grub") root))
      (not-or (disk_has_flag (codes "esp") root) (disk_has_flag (codes "bios_grub") root))
      (reject-Checks _ _ _))

found-Checks :
    (mode : Option FirmwareMode) (found : Option DiskConfig)
    → Checks (check_boot mode found) (WhenFound (IsBootable mode) found)
found-Checks mode none = record { holds = λ e. (λ h. (h, tt), λ h. h.0) }
found-Checks mode (some root) = boot-Checks mode root

unless-Checks :
    {f : Errors → Errors} {P : Type 0} (b : Bool)
    → Checks f P
    → Checks (λ e. if b then e else f e) (b ≡ false → P)
unless-Checks true cf = record {
  holds = λ e. (λ h. (h, λ t. elim (false≢true (sym t)) [ ]), λ h. h.0);
}
unless-Checks false cf = map-Checks (λ p t. p) (λ h. h refl) cf

root-Checks :
    (l : DiskLayout)
    → Checks
        (validate_root_disk_required l)
        (is_empty l.disks ≡ false → layout_uses_labels l ≡ true → any is_root l.disks ≡ true)
unfolding validate_root_disk_required
root-Checks l =
    unless-Checks (is_empty l.disks)
      (if-Checks (layout_uses_labels l) (require-Checks (any is_root l.disks) _ _))

disks-Checks :
    (l : DiskLayout)
    → Checks (validate_disks l) (All (IsDisk (names (or_default l.volume_groups))) l.disks)
unfolding validate_disks
disks-Checks l = each-Checks (IsDisk-Checks (names (or_default l.volume_groups))) 0 l.disks

groups-Checks :
    (l : DiskLayout)
    → Checks (validate_volume_groups l) (All (IsGroup l.disks) (or_default l.volume_groups))
unfolding validate_volume_groups
groups-Checks l = each-Checks (volume_group-Checks l) 0 (or_default l.volume_groups)

IsLayout-Checks :
    (l : DiskLayout) (mode : Option FirmwareMode)
    → Checks
        (λ e. validate_boot_partitions l mode (
          validate_volume_groups l
            (validate_disks l (validate_root_disk_required l (validate_at_least_one_disk l e)))))
        (IsLayout mode l)
unfolding validate_at_least_one_disk validate_boot_partitions
IsLayout-Checks l mode =
    map-Checks
      (λ (some_disk, (root, (disks, (groups, boot)))). record {
        has_disk = some_disk;
        has_root = root some_disk;
        has_disks = disks;
        has_groups = groups;
        has_boot = boot;
      })
      (λ h. (h.has_disk, ((λ _. h.has_root), (h.has_disks, (h.has_groups, h.has_boot)))))
      (seq-Checks (reject-Checks (is_empty l.disks) _ _) (
        seq-Checks (root-Checks l) (
          seq-Checks (disks-Checks l)
            (seq-Checks (groups-Checks l) (found-Checks mode (find is_root l.disks))))))

when_empty-ok : (e : Errors) → (when_empty e ≡ ok tt) ↔ (e ≡ [])
when_empty-ok [] = (λ h. refl, λ h. refl)
when_empty-ok (x ∷ e) = (λ h. cc, λ h. cc)

-- A layout is accepted exactly when it has a disk, a ROOT disk if it uses labels, disks with a
-- known partition table, at most one partition for the rest and sound partitions, volume groups
-- that some partition is in and whose volumes are sound, and, on the first ROOT disk if there is
-- one, the boot partitions of the firmware mode. A partition is sound if its filesystem is none or
-- a known one, it has one if it has a mount point, and, if it has the flag `lvm`, it names a volume
-- group that is defined; a volume is sound as its filesystem and mount point are. The boot
-- partitions are `esp` for UEFI, `bios_grub` for BIOS on a gpt disk, and one of the two, on a gpt
-- disk, if no mode is given.
pub validate_disk_layout-IsLayout :
    (l : DiskLayout) (mode : Option FirmwareMode)
    → (validate_disk_layout l mode ≡ ok tt) ↔ IsLayout mode l
unfolding validate_disk_layout
validate_disk_layout-IsLayout l mode = (
  λ h. (((IsLayout-Checks l mode).holds []).0 ((when_empty-ok _).0 h)).1,
  λ h. (when_empty-ok _).1 (((IsLayout-Checks l mode).holds []).1 (refl, h)),
)
