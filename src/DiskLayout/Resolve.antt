-- ===== src/DiskLayout/Resolve.antt =====
-- disk_layout/resolve.rs and the canonical order of disks of platforms/detection.rs: the labels of a
-- layout are replaced by the paths of the device's disks.
pub mod Sorted
pub mod Labels
pub mod Total
pub mod Paths
use rack_director.Prelude.{
  ℕ, zero, suc, Bool, true, false, ◌&&◌, ◌||◌, not, Option, none, some, List, [], ◌∷◌, Bytes,
  str_eq, any, get_elem?, position, ltb, leb, ◌==◌, if◌then◌else◌, Result, ok, err, ◌>>=◌, ok_or,
}
use rack_director.DiskLayout.{DiskConfig, ZfsPool, DiskLayout, is_path}

pub data DiskType : Type 0 where
  nvme ssd hdd : DiskType

unfoldable pub priority : DiskType → ℕ
priority nvme = 1
priority ssd = 2
priority hdd = 3

pub record PlatformDisk : Type 0 where
  pub size_gb : ℕ
  pub disk_type : DiskType
  pub label : Option Bytes

-- Of the attributes of a platform and of a device, what the resolution reads.
pub record PlatformAttributes : Type 0 where
  pub disks : List PlatformDisk

pub record DiskInfo : Type 0 where
  pub size : Option ℕ
  pub disk_type : Option DiskType
  pub path : Option Bytes

pub record DeviceAttributes : Type 0 where
  pub disks : List DiskInfo
  pub disk_label_overrides : List (Bytes × Bytes)

-- `slice::sort_by`, which is stable: an item goes before those that are not less.
unfoldable pub insert : {A : Type 0} → (A → A → Bool) → A → List A → List A
insert le x [] = x ∷ []
insert le x (y ∷ ys) = let rest = insert le x ys in if le x y then x ∷ y ∷ ys else y ∷ rest

unfoldable pub sort_by : {A : Type 0} → (A → A → Bool) → List A → List A
sort_by le [] = []
sort_by le (x ∷ xs) = insert le x (sort_by le xs)

-- `cmp(..).then_with(..)` gives less or equal.
abbrev pub lexicographic : ℕ → ℕ → ℕ → ℕ → Bool
lexicographic a1 a2 b1 b2 = ltb a1 b1 || (a1 == b1 && leb a2 b2)

unfoldable pub platform_le : PlatformDisk → PlatformDisk → Bool
platform_le a b = lexicographic (priority a.disk_type) a.size_gb (priority b.disk_type) b.size_gb

unfoldable pub sort_disks_canonical : List PlatformDisk → List PlatformDisk
sort_disks_canonical disks = sort_by platform_le disks

abbrev pub priority_or : Option DiskType → ℕ
priority_or none = 4
priority_or (some t) = priority t

-- `unwrap_or(u64::MAX)`.
abbrev pub size_or_max : Option ℕ → ℕ
size_or_max none = 18446744073709551615
size_or_max (some n) = n

unfoldable pub device_le : DiskInfo → DiskInfo → Bool
device_le a b =
    lexicographic (priority_or a.disk_type) (size_or_max a.size) (priority_or b.disk_type)
      (size_or_max b.size)

unfoldable pub sort_device_disks_canonical : List DiskInfo → List DiskInfo
sort_device_disks_canonical disks = sort_by device_le disks

pub data ResolveError : Type 0 where
  label_not_found : Bytes → ResolveError
  disk_path_missing : ℕ → ResolveError

-- `HashMap::get`.
abbrev pub lookup : Bytes → List (Bytes × Bytes) → Option Bytes
lookup key [] = none
lookup key ((k, v) ∷ rest) = if str_eq k key then some v else lookup key rest

abbrev pub is_label : Bytes → Option Bytes → Bool
is_label name none = false
is_label name (some l) = str_eq l name

abbrev pub path_of : Option DiskInfo → Option Bytes
path_of none = none
path_of (some d) = d.path

abbrev pub label_at : Bytes → List DiskInfo → Option ℕ → Result ResolveError Bytes
label_at name devices none = err (label_not_found name)
label_at name devices (some i) = ok_or (path_of (get_elem? devices i)) (disk_path_missing i)

abbrev pub or_position : Option Bytes → Result ResolveError Bytes → Result ResolveError Bytes
or_position (some path) found = ok path
or_position none found = found

unfoldable pub resolve_label :
    Bytes → List (Bytes × Bytes) → List PlatformDisk → List DiskInfo → Result ResolveError Bytes
resolve_label name overrides sorted_platform_disks sorted_device_disks =
    or_position (lookup name overrides) (
      label_at name sorted_device_disks
        (position (λ d. is_label name d.label) sorted_platform_disks))

-- A loop over `&mut` items that stops at the first error.
unfoldable pub traverse : {A E : Type 0} → (A → Result E A) → List A → Result E (List A)
traverse f [] = ok []
traverse f (x ∷ xs) = f x >>= (λ y. traverse f xs >>= (λ ys. ok (y ∷ ys)))

module _ (resolve : Bytes → Result ResolveError Bytes) where
  -- A reference that is no path is a label.
  abbrev pub resolve_reference : Bytes → Result ResolveError Bytes
  resolve_reference reference = if is_path reference then ok reference else resolve reference

  abbrev pub resolve_disk : DiskConfig → Result ResolveError DiskConfig
  resolve_disk d = resolve_reference d.device >>= (λ p. ok (record d { device = p }))

  abbrev pub resolve_pool : ZfsPool → Result ResolveError ZfsPool
  resolve_pool p = traverse resolve_reference p.devices >>= (λ ds. ok (record p { devices = ds }))

  abbrev pub resolve_pools : Option (List ZfsPool) → Result ResolveError (Option (List ZfsPool))
  resolve_pools none = ok none
  resolve_pools (some pools) = traverse resolve_pool pools >>= (λ ps. ok (some ps))

  unfoldable pub resolve_layout : DiskLayout → Result ResolveError DiskLayout
  unfolding traverse
  resolve_layout l =
      traverse resolve_disk l.disks
      >>= (λ ds. resolve_pools l.zfs_pools >>= (λ ps. ok (record l { disks = ds; zfs_pools = ps })))

unfoldable pub resolve_disk_layout :
    DiskLayout → PlatformAttributes → DeviceAttributes → Result ResolveError DiskLayout
resolve_disk_layout l platform device =
    resolve_layout
      (λ name.
        resolve_label name device.disk_label_overrides (sort_disks_canonical platform.disks)
          (sort_device_disks_canonical device.disks))
      l

pub data PlatformError : Type 0 where
  unknown_label : Bytes → PlatformError
  unknown_pool_label : Bytes → Bytes → PlatformError

module _ (disks : List PlatformDisk) where
  abbrev pub is_known : Bytes → Bool
  is_known reference = is_path reference || any (λ d. is_label reference d.label) disks

  abbrev pub check_disks : List DiskConfig → Result {0} PlatformError Unit
  check_disks [] = ok tt
  check_disks (d ∷ ds) =
      let rest = check_disks ds in if is_known d.device then rest else err (unknown_label d.device)

  abbrev pub check_devices : Bytes → List Bytes → Result {0} PlatformError Unit
  check_devices pool [] = ok tt
  check_devices pool (d ∷ ds) =
      let rest = check_devices pool ds in
      if is_known d then rest else err (unknown_pool_label pool d)

  abbrev pub check_pools : List ZfsPool → Result {0} PlatformError Unit
  check_pools [] = ok tt
  check_pools (p ∷ ps) = check_devices p.name p.devices >>= (λ _. check_pools ps)

  abbrev pub check_layout_pools : Option (List ZfsPool) → Result {0} PlatformError Unit
  check_layout_pools none = ok tt
  check_layout_pools (some pools) = check_pools pools

unfoldable pub validate_layout_against_platform :
    DiskLayout → PlatformAttributes → Result {0} PlatformError Unit
validate_layout_against_platform l platform =
    check_disks platform.disks l.disks >>= (λ _. check_layout_pools platform.disks l.zfs_pools)
