-- ===== src/Agent/Layouts/Groups.antt =====
-- partition.rs: the steps of a sound volume group, and of the formatting of sound partitions.
use rack_director.Prelude.{
  ℕ, suc, ◌≤◌, ◌≡◌, arith, Bool, true, false, not, ◌||◌, Option, none, some, List, [], ◌∷◌, ◌++◌,
  Bytes, ltb, if◌then◌else◌, is_empty, any, All, map, str_eq,
}
use rack_director.DiskLayout.{PartitionConfig, DiskConfig, VolumeGroup}
use rack_director.DiskLayout.Validate.Spec.{IsGroup, IsVolume, IsPartition, IsFilesystem}
use rack_director.Agent.Commands.{Step, run, flat_map}
use rack_director.Agent.Layouts.{
  is_free, pv_devices, ordered_lvs, create_volume, group_steps, free_count, setup_volume_group,
  has_group, format_partition, format_from,
}
use rack_director.Agent.Layouts.Parts.{
  Commands, append-Commands, flat_map-Commands, map-Commands, All-keep, All-append,
  create_volume-Commands, pv_devices-nonempty, format_filesystem-IsCommand,
}

group_steps-Commands :
    (vg : VolumeGroup) (pvs : List Bytes)
    → is_empty pvs ≡ false
    → All IsVolume vg.logical_volumes
    → Commands (group_steps vg pvs)
unfolding ordered_lvs
group_steps-Commands vg [] h vs = cc
group_steps-Commands vg (pv ∷ pvs) h vs =
    append-Commands (map _ (pv ∷ pvs)) (run _ _ ∷ flat_map (create_volume vg) (ordered_lvs vg))
      (map-Commands _ (pv ∷ pvs) (λ x. tt))
      (
        tt,
        flat_map-Commands (create_volume vg) (ordered_lvs vg)
            (All-append IsVolume _ _
              (All-keep IsVolume (λ lv. not (is_free lv)) vg.logical_volumes vs)
              (All-keep IsVolume is_free vg.logical_volumes vs))
            (λ lv k. create_volume-Commands vg lv k),
      )

pub setup_volume_group-Commands :
    (disks : List DiskConfig) (vg : VolumeGroup)
    → free_count vg ≤ 1
    → IsGroup disks vg
    → Commands (setup_volume_group vg disks)
unfolding setup_volume_group
setup_volume_group-Commands disks vg one g =
    let few : ltb 1 (free_count vg) ≡ false = few_free (free_count vg) one in
    rw few (
      group_steps-Commands vg (pv_devices vg.name disks)
        (pv_devices-nonempty vg.name disks g.has_disk) g.has_volumes)
  where
    few_free : (n : ℕ) → n ≤ 1 → ltb 1 n ≡ false
    few_free n h = ground arith

format_partition-Commands :
    (device : Bytes) (n : ℕ) (fs : Option Bytes)
    → IsFilesystem fs
    → Commands (format_partition device n fs)
format_partition-Commands device n none h = tt
format_partition-Commands device n (some fs) h = (format_filesystem-IsCommand _ fs h, tt)

pub format_from-Commands :
    (defined labels : List Bytes) (device : Bytes) (n : ℕ) (ps : List PartitionConfig)
    → All (IsPartition defined) ps
    → Commands (format_from labels device n ps)
unfolding format_from
format_from-Commands defined labels device n [] hs = tt
format_from-Commands defined labels device n (p ∷ ps) (h, hs) =
    go (has_group p.volume_group || any (λ l. str_eq l p.label) labels)
      (format_from-Commands defined labels device (suc n) ps hs)
  where
    rest : List Step
    rest = format_from labels device (suc n) ps

    go :
        (b : Bool)
        → Commands rest
        → Commands (if b then rest else format_partition device n p.filesystem ++ rest)
    go true k = k
    go false k =
        append-Commands (format_partition device n p.filesystem) rest
          (format_partition-Commands device n p.filesystem h.has_filesystem) k
