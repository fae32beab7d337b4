-- ===== src/Agent/Layouts/Accepted.antt =====
-- partition.rs, disk_layout/validate.rs: the agent carries out a layout that the director accepts.
use rack_director.Prelude.{
  ℕ, suc, ◌≤◌, ◌≡◌, refl, Bool, true, false, Option, some, List, [], ◌∷◌, Bytes, if◌then◌else◌, All,
  ok,
}
use rack_director.DiskLayout.{PartitionConfig, DiskConfig, VolumeGroup, DiskLayout, or_default}
use rack_director.DiskLayout.Validate.{FirmwareMode, names, validate_disk_layout}
use rack_director.DiskLayout.Validate.Spec.{IsLayout, IsGroup}
use rack_director.DiskLayout.Validate.Correct.{validate_disk_layout-IsLayout}
use rack_director.Agent.Offsets.{calculate_partition_offsets}
use rack_director.Agent.Commands.{
  Step, run, attempt, refuse, Machine, flat_map, set_flags, make_partitions, wipe,
  wipe_and_partition_disk, wipe_all_disks, remove_group, remove_lvm_on_disks,
}
use rack_director.Agent.Layouts.{
  free_count, setup_volume_group, create_dataset, setup_zfs_pool, format_simple_partitions,
  apply_disk_layout, Command, execute,
}
use rack_director.Agent.Layouts.Parts.{
  Commands, append-Commands, flat_map-Commands, flat_map-Commands_all, map-Commands,
}
use rack_director.Agent.Layouts.Groups.{setup_volume_group-Commands, format_from-Commands}

-- The disk's size can be had, and its partitions fit.
abbrev pub HasOffsets : Machine → DiskConfig → Type 0
HasOffsets m d =
    (size : ℕ) × (offsets : List (ℕ × ℕ)) × (m.disk_size d.device ≡ some size)
    × (calculate_partition_offsets m.floats d.partitions size ≡ ok offsets)

make_partitions-Commands :
    (device : Bytes) (n : ℕ) (ps : List PartitionConfig) (offsets : List (ℕ × ℕ))
    → Commands (make_partitions device n ps offsets)
unfolding make_partitions set_flags
make_partitions-Commands device n [] offsets = tt
make_partitions-Commands device n (p ∷ ps) [] = tt
make_partitions-Commands device n (p ∷ ps) ((start, end) ∷ offsets) = (
  tt,
  append-Commands (set_flags device n (or_default p.flags)) _
      (map-Commands _ (or_default p.flags) (λ x. tt))
      (make_partitions-Commands device (suc n) ps offsets),
)

wipe_and_partition-Commands :
    (m : Machine) (d : DiskConfig) → HasOffsets m d → Commands (wipe_and_partition_disk m d)
unfolding wipe_and_partition_disk
wipe_and_partition-Commands m d (size, offsets, e, e') =
    (tt, (tt, (tt, rw (e, e') (make_partitions-Commands d.device 1 d.partitions offsets))))

remove_lvm-Commands :
    (m : Machine) (disks : List DiskConfig) → Commands (remove_lvm_on_disks m disks)
unfolding remove_lvm_on_disks
remove_lvm-Commands m disks = flat_map-Commands_all remove_group _ (λ vg. (tt, (tt, tt)))

both-All :
    {A : Type 0} (P Q : A → Type 0) (xs : List A) → All P xs → All Q xs → All (λ x. P x × Q x) xs
both-All P Q [] ps qs = tt
both-All P Q (x ∷ xs) (p, ps) (q, qs) = ((p, q), both-All P Q xs ps qs)

module _ (m : Machine) (l : DiskLayout) where
  apply_disk_layout-Commands :
      (mode : Option FirmwareMode)
      → IsLayout mode l
      → All (HasOffsets m) l.disks
      → All (λ vg. free_count vg ≤ 1) (or_default l.volume_groups)
      → Commands (apply_disk_layout m l)
  unfolding apply_disk_layout wipe_all_disks setup_zfs_pool create_dataset format_simple_partitions
  apply_disk_layout-Commands mode valid offsets few =
      append-Commands (remove_lvm_on_disks m (if l.wipe_all_disks then [] else l.disks)) _
        (remove_lvm-Commands m (if l.wipe_all_disks then [] else l.disks))
        (append-Commands (if l.wipe_all_disks then wipe_all_disks m else []) _
          (all_wiped l.wipe_all_disks)
          (append-Commands (flat_map (wipe_and_partition_disk m) l.disks) _
            (flat_map-Commands (wipe_and_partition_disk m) l.disks offsets
              (λ d h. wipe_and_partition-Commands m d h))
            (
              tt,
              append-Commands (flat_map groups vgs) _
                  (flat_map-Commands groups vgs
                    (both-All (λ vg. free_count vg ≤ 1) (IsGroup l.disks) vgs few valid.has_groups)
                    (λ vg h. setup_volume_group-Commands l.disks vg h.0 h.1))
                  (append-Commands (flat_map setup_zfs_pool (or_default l.zfs_pools)) _
                    (flat_map-Commands_all setup_zfs_pool (or_default l.zfs_pools)
                      (λ pool. (tt, map-Commands (create_dataset pool) pool.datasets (λ d. tt))))
                    (flat_map-Commands (λ d. format_simple_partitions d l) l.disks valid.has_disks
                      (λ d h.
                        format_from-Commands (names vgs) _ d.device 1 d.partitions
                          h.has_partitions))),
            )))
    where
      vgs : List VolumeGroup
      vgs = or_default l.volume_groups

      groups : VolumeGroup → List Step
      groups vg = setup_volume_group vg l.disks

      all_wiped : (b : Bool) → Commands (if b then wipe_all_disks m else [])
      all_wiped true = flat_map-Commands_all wipe m.disk_paths (λ d. (tt, (tt, tt)))
      all_wiped false = tt

execute-Commands :
    (succeeds : Command → Bool) (steps : List Step)
    → Commands steps
    → All (λ c. succeeds c ≡ true) (execute succeeds steps).0
    → (execute succeeds steps).1 ≡ true
unfolding execute
execute-Commands succeeds [] h fine = refl
execute-Commands succeeds (run cmd args ∷ steps) (h, hs) fine =
    go (succeeds (cmd, args)) refl fine (λ k. execute-Commands succeeds steps hs k)
  where
    rest : List Command × Bool
    rest = execute succeeds steps

    result : Bool → List Command × Bool
    result b = if b then ((cmd, args) ∷ rest.0, rest.1) else ((cmd, args) ∷ [], false)

    go :
        (b : Bool)
        → succeeds (cmd, args) ≡ b
        → All (λ c. succeeds c ≡ true) (result b).0
        → (All (λ c. succeeds c ≡ true) rest.0 → rest.1 ≡ true)
        → (result b).1 ≡ true
    go true e (_, k) later = later k
    go false e (k, _) later = cc
execute-Commands succeeds (attempt cmd args ∷ steps) (h, hs) (_, fine) =
    execute-Commands succeeds steps hs fine
execute-Commands succeeds (refuse e ∷ steps) (h, hs) fine = elim h [ ]

-- A layout that the director accepts, on a machine where the size of each of its disks can be had and
-- its partitions fit, and with at most one volume for the free space in each group: if every command
-- that is executed succeeds, then the agent gets to the end of the layout.
pub execute-apply_disk_layout :
    (m : Machine) (l : DiskLayout) (mode : Option FirmwareMode) (succeeds : Command → Bool)
    → validate_disk_layout l mode ≡ ok tt
    → All (HasOffsets m) l.disks
    → All (λ vg. free_count vg ≤ 1) (or_default l.volume_groups)
    → All (λ c. succeeds c ≡ true) (execute succeeds (apply_disk_layout m l)).0
    → (execute succeeds (apply_disk_layout m l)).1 ≡ true
execute-apply_disk_layout m l mode succeeds valid offsets few fine =
    execute-Commands succeeds (apply_disk_layout m l)
      (apply_disk_layout-Commands m l mode ((validate_disk_layout-IsLayout l mode).0 valid) offsets
        few)
      fine
