-- ===== src/DiskLayout.antt =====
-- common/src/disk_layout.rs: the layout of a device's disks.
pub mod Validate
pub mod Resolve
use rack_director.Prelude.{
  ℕ, Bool, true, false, ◌||◌, not, Option, none, some, List, [], ◌∷◌, ◌++◌, Bytes, codes, str_eq,
  any,
}

pub record PartitionConfig : Type 0 where
  pub label : Bytes
  pub size : Bytes
  pub filesystem : Option Bytes
  pub mount_point : Option Bytes
  pub flags : Option (List Bytes)
  pub volume_group : Option Bytes

pub record DiskConfig : Type 0 where
  pub device : Bytes
  pub partition_table : Bytes
  pub partitions : List PartitionConfig

pub record LogicalVolume : Type 0 where
  pub name : Bytes
  pub size : Bytes
  pub filesystem : Option Bytes
  pub mount_point : Option Bytes

pub record VolumeGroup : Type 0 where
  pub name : Bytes
  pub logical_volumes : List LogicalVolume

pub record ZfsDataset : Type 0 where
  pub name : Bytes
  pub mount_point : Option Bytes
  pub properties : Option (List (Bytes × Bytes))
  pub zvol_size : Option Bytes

pub record ZfsPool : Type 0 where
  pub name : Bytes
  pub vdev_type : Bytes
  pub devices : List Bytes
  pub datasets : List ZfsDataset
  pub properties : Option (List (Bytes × Bytes))

pub record DiskLayout : Type 0 where
  pub disks : List DiskConfig
  pub volume_groups : Option (List VolumeGroup)
  pub zfs_pools : Option (List ZfsPool)
  pub wipe_all_disks : Bool

-- `Option::as_deref().unwrap_or_default()` on a list.
abbrev pub or_default : {A : Type 0} → Option (List A) → List A
or_default none = []
or_default (some xs) = xs

-- `starts_with('/')`.
abbrev pub is_path : Bytes → Bool
is_path [] = false
is_path (c ∷ _) = str_eq (c ∷ []) (codes "/")

abbrev pub uses_labels_in_pools : Option (List ZfsPool) → Bool
uses_labels_in_pools none = false
uses_labels_in_pools (some pools) = any (λ p. any (λ d. not (is_path d)) p.devices) pools

unfoldable pub layout_uses_labels : DiskLayout → Bool
unfolding str_eq
layout_uses_labels l = any (λ d. not (is_path d.device)) l.disks || uses_labels_in_pools l.zfs_pools
