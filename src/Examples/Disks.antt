-- ===== src/Examples/Disks.antt =====
-- Labels of disk_layout/resolve.rs on a device with two disks.
use rack_director.Prelude.{
  ◌≡◌, refl, none, some, [], ◌∷◌, codes, ok, false, All, arith, str_eq, Bytes,
}
use rack_director.DiskLayout.{DiskLayout, layout_uses_labels}
use rack_director.DiskLayout.Resolve.{
  PlatformAttributes, DeviceAttributes, nvme, hdd, validate_layout_against_platform,
  resolve_disk_layout, resolve_layout, resolve_label, traverse, sort_disks_canonical,
  sort_device_disks_canonical, sort_by, insert, platform_le, device_le, priority,
}
use rack_director.DiskLayout.Resolve.Total.{resolve_disk_layout-Gives}
use rack_director.DiskLayout.Resolve.Paths.{HasPath, resolve_disk_layout-layout_uses_labels}

abbrev on : Bytes → DiskLayout
on device = record {
  disks = record { device = device; partition_table = codes "gpt"; partitions = [] } ∷ [];
  volume_groups = none;
  zfs_pools = none;
  wipe_all_disks = false;
}

abbrev platform : PlatformAttributes
platform = record {
  disks =
      record { size_gb = 4000; disk_type = hdd; label = none }
      ∷ record { size_gb = 500; disk_type = nvme; label = some (codes "ROOT") }
      ∷ [];
}

abbrev device : DeviceAttributes
device = record {
  disks =
      record { size = some 4000; disk_type = some hdd; path = some (codes "/dev/sda") }
      ∷ record { size = some 500; disk_type = some nvme; path = some (codes "/dev/nvme0n1") }
      ∷ [];
  disk_label_overrides = [];
}

root_known : validate_layout_against_platform (on (codes "ROOT")) platform ≡ ok tt
unfolding validate_layout_against_platform str_eq
root_known = refl

resolve_disk_layout-Gives_example :
    (r : DiskLayout) × (resolve_disk_layout (on (codes "ROOT")) platform device ≡ ok r)
resolve_disk_layout-Gives_example =
    resolve_disk_layout-Gives (on (codes "ROOT")) platform device root_known (omega arith)
      (refl, (refl, tt))

root_resolved :
    resolve_disk_layout (on (codes "ROOT")) platform device ≡ ok (on (codes "/dev/nvme0n1"))
unfolding resolve_disk_layout resolve_layout resolve_label traverse sort_disks_canonical
    sort_device_disks_canonical sort_by insert platform_le device_le priority str_eq
root_resolved = refl

paths : All (λ d. HasPath d.path) device.disks
unfolding str_eq
paths = (refl, (refl, tt))

resolve_disk_layout-layout_uses_labels_example :
    layout_uses_labels (on (codes "/dev/nvme0n1")) ≡ false
resolve_disk_layout-layout_uses_labels_example =
    resolve_disk_layout-layout_uses_labels (on (codes "ROOT")) (on (codes "/dev/nvme0n1")) platform
      device tt paths root_resolved
