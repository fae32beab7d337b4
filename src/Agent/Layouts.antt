-- ===== src/Agent/Layouts.antt =====
-- partition.rs: volume groups, ZFS pools, file systems, and the whole layout.
pub mod Parts
pub mod Groups
pub mod Accepted
use rack_director.Prelude.{
  ℕ, suc, ◌-◌, Bool, true, false, not, ◌||◌, ◌&&◌, Option, none, some, List, [], ◌∷◌, ◌++◌, Bytes,
  codes, str_eq, ltb, if◌then◌else◌, is_empty, any, map, length, drop,
}
use rack_director.DiskLayout.{
  PartitionConfig, DiskConfig, LogicalVolume, VolumeGroup, ZfsDataset, ZfsPool, DiskLayout,
  or_default,
}
use rack_director.DiskLayout.Validate.{is_in_group}
use rack_director.Agent.Commands.{
  AgentError, many_free_volumes, no_partitions, Step, run, attempt, refuse, Machine, flat_map, keep,
  starts_with, partition_path, wipe_and_partition_disk, wipe_all_disks, remove_lvm_on_disks,
  is_free_size, format_filesystem,
}

abbrev pub is_free : LogicalVolume → Bool
is_free lv = is_free_size lv.size

-- The partitions of a disk that are in the group, counted from `part_num`.
unfoldable pub partitions_in : Bytes → Bytes → ℕ → List PartitionConfig → List Bytes
partitions_in name device part_num [] = []
partitions_in name device part_num (p ∷ ps) =
    let rest = partitions_in name device (suc part_num) ps in
    if is_in_group name p.volume_group then partition_path device part_num ∷ rest else rest

unfoldable pub pv_devices : Bytes → List DiskConfig → List Bytes
pv_devices name disks = flat_map (λ d. partitions_in name d.device 1 d.partitions) disks

-- The volume that takes the free space comes last.
unfoldable pub ordered_lvs : VolumeGroup → List LogicalVolume
ordered_lvs vg = keep (λ lv. not (is_free lv)) vg.logical_volumes ++ keep is_free vg.logical_volumes

abbrev pub format_volume : VolumeGroup → LogicalVolume → Option Bytes → List Step
format_volume vg lv none = []
format_volume vg lv (some fs) =
    format_filesystem (codes "/dev/" ++ vg.name ++ codes "/" ++ lv.name) fs ∷ []

abbrev size_arguments : LogicalVolume → List Bytes
size_arguments lv =
    if is_free lv then codes "-l" ∷ codes "100%FREE" ∷ [] else codes "-L" ∷ lv.size ∷ []

unfoldable pub create_volume : VolumeGroup → LogicalVolume → List Step
create_volume vg lv =
    run (codes "lvcreate") (
      size_arguments lv
      ++ codes "--zero"
        ∷ codes "y"
        ∷ codes "--wipesignatures"
        ∷ codes "y"
        ∷ codes "-y"
        ∷ codes "-n"
        ∷ lv.name
        ∷ vg.name
        ∷ [])
    ∷ format_volume vg lv lv.filesystem

abbrev pub group_steps : VolumeGroup → List Bytes → List Step
group_steps vg pvs =
    if is_empty pvs
    then refuse (no_partitions vg.name) ∷ []
    else map (λ pv. run (codes "pvcreate") (codes "-ff" ∷ codes "-y" ∷ pv ∷ [])) pvs
      ++ run (codes "vgcreate") (vg.name ∷ pvs) ∷ flat_map (create_volume vg) (ordered_lvs vg)

unfoldable pub free_count : VolumeGroup → ℕ
free_count vg = length (keep is_free vg.logical_volumes)

unfoldable pub setup_volume_group : VolumeGroup → List DiskConfig → List Step
setup_volume_group vg disks =
    if ltb 1 (free_count vg)
    then refuse (many_free_volumes vg.name (free_count vg)) ∷ []
    else group_steps vg (pv_devices vg.name disks)

-- The properties in the order in which the map gives them.
abbrev property_arguments : List (Bytes × Bytes) → List Bytes
property_arguments properties =
    flat_map (λ p. codes "-o" ∷ (p.0 ++ codes "=" ++ p.1) ∷ []) properties

abbrev zvol_arguments : Option Bytes → List Bytes
zvol_arguments none = []
zvol_arguments (some size) = codes "-V" ∷ size ∷ []

abbrev mount_arguments : Option Bytes → List Bytes
mount_arguments none = []
mount_arguments (some mount_point) = codes "-o" ∷ (codes "mountpoint=" ++ mount_point) ∷ []

unfoldable pub create_dataset : ZfsPool → ZfsDataset → Step
create_dataset pool dataset = run (codes "zfs") (
    codes "create"
    ∷ (zvol_arguments dataset.zvol_size
        ++ (mount_arguments dataset.mount_point
            ++ (property_arguments (or_default dataset.properties)
                ++ (pool.name ++ codes "/" ++ dataset.name) ∷ []))))

unfoldable pub setup_zfs_pool : ZfsPool → List Step
setup_zfs_pool pool =
    run (codes "zpool") (
      codes "create"
      ∷ codes "-f"
      ∷ codes "-o"
      ∷ codes "ashift=12"
      ∷ (property_arguments (or_default pool.properties)
          ++ pool.name
            ∷ ((if str_eq pool.vdev_type (codes "single") then [] else pool.vdev_type ∷ [])
                ++ pool.devices)))
    ∷ map (create_dataset pool) pool.datasets

-- The suffixes of the references that start with the disk's name and a dash.
unfoldable labels_after : Bytes → List Bytes → List Bytes
unfolding starts_with
labels_after prefix [] = []
labels_after prefix (r ∷ refs) =
    let rest = labels_after prefix refs in
    if starts_with r prefix then drop (length prefix) r ∷ rest else rest

unfoldable build_zfs_partition_labels : DiskConfig → DiskLayout → List Bytes
build_zfs_partition_labels disk layout =
    flat_map (λ pool. labels_after (disk.device ++ codes "-") pool.devices)
      (or_default layout.zfs_pools)

abbrev pub has_group : Option Bytes → Bool
has_group none = false
has_group (some _) = true

abbrev pub format_partition : Bytes → ℕ → Option Bytes → List Step
format_partition device part_num none = []
format_partition device part_num (some fs) =
    format_filesystem (partition_path device part_num) fs ∷ []

unfoldable pub format_from : List Bytes → Bytes → ℕ → List PartitionConfig → List Step
format_from zfs_labels device part_num [] = []
format_from zfs_labels device part_num (p ∷ ps) =
    let rest = format_from zfs_labels device (suc part_num) ps in
    if has_group p.volume_group || any (λ l. str_eq l p.label) zfs_labels
    then rest
    else format_partition device part_num p.filesystem ++ rest

unfoldable pub format_simple_partitions : DiskConfig → DiskLayout → List Step
unfolding build_zfs_partition_labels labels_after
format_simple_partitions disk layout =
    format_from (build_zfs_partition_labels disk layout) disk.device 1 disk.partitions

unfoldable pub apply_disk_layout : Machine → DiskLayout → List Step
apply_disk_layout m layout =
    remove_lvm_on_disks m (if layout.wipe_all_disks then [] else layout.disks)
    ++ ((if layout.wipe_all_disks then wipe_all_disks m else [])
        ++ (flat_map (wipe_and_partition_disk m) layout.disks
            ++ (run (codes "udevadm") (codes "settle" ∷ codes "--timeout=10" ∷ [])
                ∷ (flat_map (λ vg. setup_volume_group vg layout.disks)
                      (or_default layout.volume_groups)
                    ++ (flat_map setup_zfs_pool (or_default layout.zfs_pools)
                        ++ flat_map (λ d. format_simple_partitions d layout) layout.disks)))))

-- The commands that were executed, and whether the agent got to the end: the first error ends it.
abbrev pub Command : Type 0
Command = Bytes × List Bytes

unfoldable pub execute : (Command → Bool) → List Step → List Command × Bool
execute succeeds [] = ([], true)
execute succeeds (run cmd args ∷ steps) =
    let rest = execute succeeds steps in
    if succeeds (cmd, args) then ((cmd, args) ∷ rest.0, rest.1) else ((cmd, args) ∷ [], false)
execute succeeds (attempt cmd args ∷ steps) =
    let rest = execute succeeds steps in ((cmd, args) ∷ rest.0, rest.1)
execute succeeds (refuse e ∷ steps) = ([], false)
