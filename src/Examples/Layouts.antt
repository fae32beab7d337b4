-- ===== src/Examples/Layouts.antt =====
-- A layout of disk_layout/validate.rs.
use rack_director.Prelude.{◌≡◌, ◌↔◌, none, some, [], ◌∷◌, codes, ok, false}
use rack_director.DiskLayout.{PartitionConfig, DiskConfig, DiskLayout}
use rack_director.DiskLayout.Validate.{uefi, validate_disk_layout}
use rack_director.DiskLayout.Validate.Spec.{IsLayout}
use rack_director.DiskLayout.Validate.Correct.{validate_disk_layout-IsLayout}

abbrev efi : PartitionConfig
efi = record {
  label = codes "efi";
  size = codes "300MiB";
  filesystem = some (codes "vfat");
  mount_point = some (codes "/boot/efi");
  flags = some (codes "esp" ∷ []);
  volume_group = none;
}

abbrev root : DiskConfig
root = record { device = codes "ROOT"; partition_table = codes "gpt"; partitions = efi ∷ [] }

abbrev layout : DiskLayout
layout = record {
  disks = root ∷ [];
  volume_groups = none;
  zfs_pools = none;
  wipe_all_disks = false;
}

validate_disk_layout-IsLayout_example :
    (validate_disk_layout layout (some uefi) ≡ ok tt) ↔ IsLayout (some uefi) layout
validate_disk_layout-IsLayout_example = validate_disk_layout-IsLayout layout (some uefi)
