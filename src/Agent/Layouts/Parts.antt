-- ===== src/Agent/Layouts/Parts.antt =====
-- partition.rs: steps that are no error of the agent itself.
use rack_director.Prelude.{
  ℕ, suc, ◌≡◌, refl, subst, Bool, true, false, ◌||◌, Option, none, some, List, [], ◌∷◌, ◌++◌, Bytes,
  str_eq, str_eq_iff, if◌then◌else◌, is_empty, any, All, map,
}
use rack_director.DiskLayout.{PartitionConfig, DiskConfig, LogicalVolume, VolumeGroup}
use rack_director.DiskLayout.Validate.{contains, valid_filesystems, is_in_group, is_referenced}
use rack_director.DiskLayout.Validate.Spec.{IsVolume, IsFilesystem}
use rack_director.Agent.Commands.{
  Step, run, attempt, refuse, partition_path, flat_map, keep, format_filesystem,
}
use rack_director.Agent.Layouts.{partitions_in, pv_devices, create_volume, format_volume}

-- No step is an error of the agent itself.
abbrev pub IsCommand : Step → Type 0
IsCommand (run cmd args) = Unit
IsCommand (attempt cmd args) = Unit
IsCommand (refuse e) = ⊥

abbrev pub Commands : List Step → Type 0
Commands steps = All IsCommand steps

pub append-Commands : (xs ys : List Step) → Commands xs → Commands ys → Commands (xs ++ ys)
append-Commands [] ys p q = q
append-Commands (x ∷ xs) ys (p, ps) q = (p, append-Commands xs ys ps q)

module _ {A : Type 0} where
  pub flat_map-Commands :
      (f : A → List Step) {P : A → Type 0} (xs : List A)
      → All P xs
      → ((x : A) → P x → Commands (f x))
      → Commands (flat_map f xs)
  flat_map-Commands f [] ps g = tt
  flat_map-Commands f (x ∷ xs) (p, ps) g =
      append-Commands (f x) (flat_map f xs) (g x p) (flat_map-Commands f xs ps g)

  pub flat_map-Commands_all :
      (f : A → List Step) (xs : List A) → ((x : A) → Commands (f x)) → Commands (flat_map f xs)
  flat_map-Commands_all f [] g = tt
  flat_map-Commands_all f (x ∷ xs) g =
      append-Commands (f x) (flat_map f xs) (g x) (flat_map-Commands_all f xs g)

  pub map-Commands :
      (f : A → Step) (xs : List A) → ((x : A) → IsCommand (f x)) → Commands (map f xs)
  map-Commands f [] g = tt
  map-Commands f (x ∷ xs) g = (g x, map-Commands f xs g)

  pub All-keep : (P : A → Type 0) (p : A → Bool) (xs : List A) → All P xs → All P (keep p xs)
  All-keep P p [] ps = tt
  All-keep P p (x ∷ xs) (q, qs) = go (p x) (All-keep P p xs qs)
    where
      go : (b : Bool) → All P (keep p xs) → All P (if b then x ∷ keep p xs else keep p xs)
      go true rest = (q, rest)
      go false rest = rest

  pub All-append : (P : A → Type 0) (xs ys : List A) → All P xs → All P ys → All P (xs ++ ys)
  All-append P [] ys p q = q
  All-append P (x ∷ xs) ys (p, ps) q = (p, All-append P xs ys ps q)

contains-All :
    (P : Bytes → Type 0) (s : Bytes) (texts : List Bytes)
    → contains s texts ≡ true
    → All P texts
    → P s
contains-All P s [] h ps = cc
contains-All P s (x ∷ xs) h (p, ps) = go (str_eq x s) refl h (λ k. contains-All P s xs k ps)
  where
    go :
        (b : Bool)
        → str_eq x s ≡ b
        → (b || contains s xs) ≡ true
        → (contains s xs ≡ true → P s)
        → P s
    go true e k rest = subst P ((str_eq_iff x s).0 e) p
    go false e k rest = rest k

-- A file system that the director knows is one that the agent makes.
pub format_filesystem-IsCommand :
    (device fs : Bytes)
    → contains fs valid_filesystems ≡ true
    → IsCommand (format_filesystem device fs)
unfolding format_filesystem str_eq
format_filesystem-IsCommand device fs h =
    contains-All (λ fs. IsCommand (format_filesystem device fs)) fs valid_filesystems h
      (tt, (tt, (tt, (tt, (tt, tt)))))

format_volume-Commands :
    (vg : VolumeGroup) (lv : LogicalVolume) (fs : Option Bytes)
    → IsFilesystem fs
    → Commands (format_volume vg lv fs)
format_volume-Commands vg lv none h = tt
format_volume-Commands vg lv (some fs) h = (format_filesystem-IsCommand _ fs h, tt)

pub create_volume-Commands :
    (vg : VolumeGroup) (lv : LogicalVolume) → IsVolume lv → Commands (create_volume vg lv)
unfolding create_volume
create_volume-Commands vg lv h = (tt, format_volume-Commands vg lv lv.filesystem h.has_filesystem)

-- A group that some partition is in has a physical volume.
partitions_in-nonempty :
    (name device : Bytes) (n : ℕ) (ps : List PartitionConfig)
    → any (λ p. is_in_group name p.volume_group) ps ≡ true
    → is_empty (partitions_in name device n ps) ≡ false
unfolding partitions_in
partitions_in-nonempty name device n [] h = cc
partitions_in-nonempty name device n (p ∷ ps) h =
    go (is_in_group name p.volume_group) h (λ k. partitions_in-nonempty name device (suc n) ps k)
  where
    rest : List Bytes
    rest = partitions_in name device (suc n) ps

    go :
        (b : Bool)
        → (b || any (λ p. is_in_group name p.volume_group) ps) ≡ true
        → (any (λ p. is_in_group name p.volume_group) ps ≡ true → is_empty rest ≡ false)
        → is_empty (if b then partition_path device n ∷ rest else rest) ≡ false
    go true k later = refl
    go false k later = later k

append-nonempty : {A : Type 0} (xs ys : List A) → is_empty xs ≡ false → is_empty (xs ++ ys) ≡ false
append-nonempty [] ys h = cc
append-nonempty (x ∷ xs) ys h = refl

append-nonempty_right :
    {A : Type 0} (xs ys : List A) → is_empty ys ≡ false → is_empty (xs ++ ys) ≡ false
append-nonempty_right [] ys h = h
append-nonempty_right (x ∷ xs) ys h = refl

pub pv_devices-nonempty :
    (name : Bytes) (disks : List DiskConfig)
    → is_referenced name disks ≡ true
    → is_empty (pv_devices name disks) ≡ false
unfolding pv_devices
pv_devices-nonempty name [] h = cc
pv_devices-nonempty name (d ∷ ds) h =
    go (any (λ p. is_in_group name p.volume_group) d.partitions) refl h
      (λ k. pv_devices-nonempty name ds k)
  where
    here : List Bytes
    here = partitions_in name d.device 1 d.partitions

    rest : List Bytes
    rest = flat_map (λ d. partitions_in name d.device 1 d.partitions) ds

    go :
        (b : Bool)
        → any (λ p. is_in_group name p.volume_group) d.partitions ≡ b
        → (b || is_referenced name ds) ≡ true
        → (is_referenced name ds ≡ true → is_empty rest ≡ false)
        → is_empty (here ++ rest) ≡ false
    go true e k later =
        append-nonempty here rest (partitions_in-nonempty name d.device 1 d.partitions e)
    go false e k later = append-nonempty_right here rest (later k)
