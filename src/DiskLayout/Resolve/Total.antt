-- ===== src/DiskLayout/Resolve/Total.antt =====
-- disk_layout/resolve.rs: a layout that its platform knows is resolved on every device with enough
-- disks.
use rack_director.Prelude.{
  ◌≤◌, ◌≡◌, refl, ap, ◌∙◌, Bool, true, false, ◌||◌, Option, none, some, List, [], ◌∷◌, Bytes,
  length, any, All, is_some, if◌then◌else◌, Result, ok, err, ◌>>=◌, >>=-eq-ok, arith,
}
use rack_director.DiskLayout.{DiskConfig, ZfsPool, DiskLayout, is_path}
use rack_director.DiskLayout.Resolve.{
  PlatformDisk, PlatformAttributes, DeviceAttributes, ResolveError, is_label, resolve_label,
  traverse, resolve_reference, resolve_disk, resolve_pool, resolve_pools, resolve_layout,
  resolve_disk_layout, is_known, check_disks, check_devices, check_pools, check_layout_pools,
  validate_layout_against_platform, sort_disks_canonical, sort_device_disks_canonical, platform_le,
  device_le, unknown_label, unknown_pool_label,
}
use rack_director.DiskLayout.Resolve.Sorted.{length-sort_by, any-sort_by, All-sort_by}
use rack_director.DiskLayout.Resolve.Labels.{Gives, resolve_label-Gives, traverse-Gives}

bind-Gives :
    {A B E : Type 0} (m : Result E A) (f : A → Result E B)
    → Gives m
    → ((a : A) → Gives (f a))
    → Gives (m >>= f)
bind-Gives m f (a, e) h = let (b, k) = h a in (b, ap (λ r. r >>= f) e ∙ k)

if-known :
    {E : Type 0} (b : Bool) (rest : Result {0} E Unit) (e : E)
    → (if b then rest else err e) ≡ ok tt
    → (b ≡ true) × (rest ≡ ok tt)
if-known true rest e h = (refl, h)
if-known false rest e h = cc

module _ (disks : List PlatformDisk) where
  check_disks-All :
      (ds : List DiskConfig)
      → check_disks disks ds ≡ ok tt
      → All (λ d. is_known disks d.device ≡ true) ds
  check_disks-All [] h = tt
  check_disks-All (d ∷ ds) h =
      let (known, rest) =
        if-known (is_known disks d.device) (check_disks disks ds) (unknown_label d.device) h in
      (known, check_disks-All ds rest)

  check_devices-All :
      (pool : Bytes) (rs : List Bytes)
      → check_devices disks pool rs ≡ ok tt
      → All (λ r. is_known disks r ≡ true) rs
  check_devices-All pool [] h = tt
  check_devices-All pool (r ∷ rs) h =
      let (known, rest) =
        if-known (is_known disks r) (check_devices disks pool rs) (unknown_pool_label pool r) h in
      (known, check_devices-All pool rs rest)

  check_pools-All :
      (ps : List ZfsPool)
      → check_pools disks ps ≡ ok tt
      → All (λ p. All (λ r. is_known disks r ≡ true) p.devices) ps
  check_pools-All [] h = tt
  check_pools-All (p ∷ ps) h =
      let (u, here, rest) =
        >>=-eq-ok (check_devices disks p.name p.devices) (λ _. check_pools disks ps) tt h in
      (check_devices-All p.name p.devices here, check_pools-All ps rest)

  module _ (resolve : Bytes → Result ResolveError Bytes)
      (gives : (name : Bytes)
        → any (λ d. is_label name d.label) disks ≡ true
        → Gives (resolve name)) where
    reference-Gives : (r : Bytes) → is_known disks r ≡ true → Gives (resolve_reference resolve r)
    reference-Gives r h = go (is_path r) h
      where
        go :
            (b : Bool)
            → (b || any (λ d. is_label r d.label) disks) ≡ true
            → Gives (if b then ok r else resolve r)
        go true k = (r, refl)
        go false k = gives r k

    references-Gives :
        (rs : List Bytes)
        → All (λ r. is_known disks r ≡ true) rs
        → All (λ r. Gives (resolve_reference resolve r)) rs
    references-Gives [] h = tt
    references-Gives (r ∷ rs) h = (reference-Gives r h.0, references-Gives rs h.1)

    disks-Gives :
        (ds : List DiskConfig)
        → All (λ d. is_known disks d.device ≡ true) ds
        → All (λ d. Gives (resolve_disk resolve d)) ds
    disks-Gives [] h = tt
    disks-Gives (d ∷ ds) h = (
      bind-Gives (resolve_reference resolve d.device) (λ p. ok (record d { device = p }))
          (reference-Gives d.device h.0) (λ p. (record d { device = p }, refl)),
      disks-Gives ds h.1,
    )

    pools-Gives :
        (ps : List ZfsPool)
        → All (λ p. All (λ r. is_known disks r ≡ true) p.devices) ps
        → All (λ p. Gives (resolve_pool resolve p)) ps
    pools-Gives [] h = tt
    pools-Gives (p ∷ ps) h = (
      bind-Gives (traverse (resolve_reference resolve) p.devices)
          (λ rs. ok (record p { devices = rs }))
          (traverse-Gives (resolve_reference resolve) p.devices (references-Gives p.devices h.0))
          (λ rs. (record p { devices = rs }, refl)),
      pools-Gives ps h.1,
    )

    layout_pools-Gives :
        (pools : Option (List ZfsPool))
        → check_layout_pools disks pools ≡ ok tt
        → Gives (resolve_pools resolve pools)
    layout_pools-Gives none h = (none, refl)
    layout_pools-Gives (some ps) h =
        bind-Gives (traverse (resolve_pool resolve) ps) (λ qs. ok (some qs))
          (traverse-Gives (resolve_pool resolve) ps (pools-Gives ps (check_pools-All ps h)))
          (λ qs. (some qs, refl))

-- A layout whose labels the platform knows is resolved, without an error, on every device that has at
-- least as many disks as the platform, each with a path.
pub resolve_disk_layout-Gives :
    (l : DiskLayout) (platform : PlatformAttributes) (device : DeviceAttributes)
    → validate_layout_against_platform l platform ≡ ok tt
    → length platform.disks ≤ length device.disks
    → All (λ d. is_some d.path ≡ true) device.disks
    → (resolved : DiskLayout) × (resolve_disk_layout l platform device ≡ ok resolved)
unfolding resolve_disk_layout validate_layout_against_platform sort_disks_canonical
    sort_device_disks_canonical resolve_layout
resolve_disk_layout-Gives l platform device valid enough paths =
    let (u, known, pools_known) =
      >>=-eq-ok (check_disks platform.disks l.disks)
        (λ _. check_layout_pools platform.disks l.zfs_pools) tt valid in
    bind-Gives (traverse (resolve_disk resolve) l.disks)
      (λ ds.
        resolve_pools resolve l.zfs_pools >>= (λ ps. ok (record l { disks = ds; zfs_pools = ps })))
      (traverse-Gives (resolve_disk resolve) l.disks (
        disks-Gives platform.disks resolve gives l.disks
          (check_disks-All platform.disks l.disks known)))
      (λ ds.
        bind-Gives (resolve_pools resolve l.zfs_pools)
          (λ ps. ok (record l { disks = ds; zfs_pools = ps }))
          (layout_pools-Gives platform.disks resolve gives l.zfs_pools pools_known)
          (λ ps. (record l { disks = ds; zfs_pools = ps }, refl)))
  where
    resolve : Bytes → Result ResolveError Bytes
    resolve name =
        resolve_label name device.disk_label_overrides (sort_disks_canonical platform.disks)
          (sort_device_disks_canonical device.disks)

    gives :
        (name : Bytes)
        → any (λ d. is_label name d.label) platform.disks ≡ true
        → Gives (resolve name)
    gives name known =
        resolve_label-Gives name device.disk_label_overrides (sort_disks_canonical platform.disks)
          (sort_device_disks_canonical device.disks)
          (any-sort_by platform_le (λ d. is_label name d.label) platform.disks ∙ known)
          (omega (
            arith,
            enough,
            length-sort_by platform_le platform.disks,
            length-sort_by device_le device.disks,
          ))
          (All-sort_by device_le (λ d. is_some d.path ≡ true) device.disks paths)
