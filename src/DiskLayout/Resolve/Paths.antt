-- ===== src/DiskLayout/Resolve/Paths.antt =====
-- disk_layout/resolve.rs: what is left of labels after the resolution.
use rack_director.Prelude.{
  ℕ, zero, suc, ◌≡◌, refl, sym, ap, subst, ◌∙◌, Bool, true, false, ◌||◌, not, Option, none, some,
  List, [], ◌∷◌, Bytes, str_eq, any, All, get_elem?, position, if◌then◌else◌, Result, ok, ◌>>=◌,
  >>=-eq-ok, ok_or-eq-ok, ok-injective,
}
use rack_director.DiskLayout.{
  DiskConfig, ZfsPool, DiskLayout, is_path, layout_uses_labels, uses_labels_in_pools,
}
use rack_director.DiskLayout.Resolve.{
  PlatformDisk, PlatformAttributes, DiskInfo, DeviceAttributes, ResolveError, disk_path_missing,
  lookup, is_label, path_of, label_at, or_position, resolve_label, traverse, resolve_reference,
  resolve_disk, resolve_pool, resolve_pools, resolve_layout, resolve_disk_layout,
  sort_disks_canonical, sort_device_disks_canonical, device_le,
}
use rack_director.DiskLayout.Resolve.Sorted.{All-sort_by}

-- A disk that names a device names it by a path.
abbrev pub HasPath : Option Bytes → Type 0
HasPath none = Unit
HasPath (some p) = is_path p ≡ true

some-HasPath : (o : Option Bytes) (p : Bytes) → HasPath o → o ≡ some p → is_path p ≡ true
some-HasPath o p h e = subst HasPath e h

lookup-HasPath :
    (name : Bytes) (overrides : List (Bytes × Bytes))
    → All (λ o. is_path o.1 ≡ true) overrides
    → HasPath (lookup name overrides)
lookup-HasPath name [] h = tt
lookup-HasPath name ((k, v) ∷ rest) h = go (str_eq k name) (lookup-HasPath name rest h.1)
  where
    go : (b : Bool) → HasPath (lookup name rest) → HasPath (if b then some v else lookup name rest)
    go true later = h.0
    go false later = later

path_of-HasPath :
    (ds : List DiskInfo) (i : ℕ) → All (λ d. HasPath d.path) ds → HasPath (path_of (get_elem? ds i))
path_of-HasPath [] i h = tt
path_of-HasPath (d ∷ ds) zero h = h.0
path_of-HasPath (d ∷ ds) (suc i) h = path_of-HasPath ds i h.1

resolve_label-path :
    (name : Bytes) (overrides : List (Bytes × Bytes)) (ps : List PlatformDisk) (ds : List DiskInfo)
    (p : Bytes)
    → All (λ o. is_path o.1 ≡ true) overrides
    → All (λ d. HasPath d.path) ds
    → resolve_label name overrides ps ds ≡ ok p
    → is_path p ≡ true
unfolding resolve_label
resolve_label-path name overrides ps ds p good_overrides good_disks h =
    go (lookup name overrides) (lookup-HasPath name overrides good_overrides)
      (position (λ d. is_label name d.label) ps) h
  where
    go :
        (o : Option Bytes)
        → HasPath o
        → (at : Option ℕ) → or_position o (label_at name ds at) ≡ ok p
        → is_path p ≡ true
    go (some path) good at e = subst (λ q. is_path q ≡ true) (ok-injective e) good
    go none good none e = cc
    go none good (some i) e =
        some-HasPath (path_of (get_elem? ds i)) p (path_of-HasPath ds i good_disks)
          (ok_or-eq-ok (path_of (get_elem? ds i)) (disk_path_missing i) p e)

traverse-All :
    {A E : Type 0} (P : A → Type 0) (f : A → Result E A)
    → ((x y : A) → f x ≡ ok y → P y)
    → (xs ys : List A) → traverse f xs ≡ ok ys
    → All P ys
unfolding traverse
traverse-All P f good [] ys h = subst (All P) (ok-injective h) tt
traverse-All P f good (x ∷ xs) ys h =
    let (y, here, h1) = >>=-eq-ok (f x) (λ y. traverse f xs >>= (λ ys. ok (y ∷ ys))) ys h in
    let (zs, rest, h2) = >>=-eq-ok (traverse f xs) (λ ys. ok (y ∷ ys)) ys h1 in
    subst (All P) (ok-injective h2) (good x y here, traverse-All P f good xs zs rest)

none_unresolved :
    {A : Type 0} (p : A → Bool) (xs : List A) → All (λ x. p x ≡ false) xs → any p xs ≡ false
none_unresolved p [] h = refl
none_unresolved p (x ∷ xs) h = ap (λ b. b || any p xs) h.0 ∙ none_unresolved p xs h.1

module _ (resolve : Bytes → Result ResolveError Bytes)
    (good : (name p : Bytes) → resolve name ≡ ok p → is_path p ≡ true) where
  reference-path : (r p : Bytes) → resolve_reference resolve r ≡ ok p → not (is_path p) ≡ false
  reference-path r p h = ap not (go (is_path r) refl h)
    where
      go : (b : Bool) → is_path r ≡ b → (if b then ok r else resolve r) ≡ ok p → is_path p ≡ true
      go true e k = subst (λ q. is_path q ≡ true) (ok-injective k) e
      go false e k = good r p k

  disk-path : (d e : DiskConfig) → resolve_disk resolve d ≡ ok e → not (is_path e.device) ≡ false
  disk-path d e h =
      let (p, here, k) =
        >>=-eq-ok (resolve_reference resolve d.device) (λ p. ok (record d { device = p })) e h in
      subst (λ x. not (is_path x.device) ≡ false) (ok-injective k) (reference-path d.device p here)

  pool-path :
      (d e : ZfsPool) → resolve_pool resolve d ≡ ok e → any (λ r. not (is_path r)) e.devices ≡ false
  pool-path d e h =
      let (rs, here, k) =
        >>=-eq-ok (traverse (resolve_reference resolve) d.devices)
          (λ rs. ok (record d { devices = rs })) e h in
      subst (λ x. any (λ r. not (is_path r)) x.devices ≡ false) (ok-injective k)
        (none_unresolved (λ r. not (is_path r)) rs
          (traverse-All (λ r. not (is_path r) ≡ false) (resolve_reference resolve) reference-path
            d.devices rs here))

  pools-path :
      (ps qs : Option (List ZfsPool))
      → resolve_pools resolve ps ≡ ok qs
      → uses_labels_in_pools qs ≡ false
  pools-path none qs h = ap uses_labels_in_pools (sym (ok-injective h))
  pools-path (some ps) qs h =
      let (rs, here, k) =
        >>=-eq-ok (traverse (resolve_pool resolve) ps) (λ rs. ok (some rs)) qs h in
      ap uses_labels_in_pools (sym (ok-injective k))
      ∙ none_unresolved (λ p. any (λ r. not (is_path r)) p.devices) rs
          (traverse-All (λ p. any (λ r. not (is_path r)) p.devices ≡ false) (resolve_pool resolve)
            pool-path ps rs here)

-- Where the overrides of a device are paths, and its disks are named by paths, a layout that is
-- resolved has no label left, in its disks and in its ZFS pools.
pub resolve_disk_layout-layout_uses_labels :
    (l r : DiskLayout) (platform : PlatformAttributes) (device : DeviceAttributes)
    → All (λ o. is_path o.1 ≡ true) device.disk_label_overrides
    → All (λ d. HasPath d.path) device.disks
    → resolve_disk_layout l platform device ≡ ok r
    → layout_uses_labels r ≡ false
unfolding resolve_disk_layout layout_uses_labels resolve_layout sort_device_disks_canonical
resolve_disk_layout-layout_uses_labels l r platform device good_overrides good_disks h =
    let (ds, disks_done, h1) =
      >>=-eq-ok (traverse (resolve_disk resolve) l.disks)
        (λ ds.
          resolve_pools resolve l.zfs_pools
          >>= (λ ps. ok (record l { disks = ds; zfs_pools = ps })))
        r h in
    let (ps, pools_done, h2) =
      >>=-eq-ok (resolve_pools resolve l.zfs_pools)
        (λ ps. ok (record l { disks = ds; zfs_pools = ps })) r h1 in
    let no_disk =
      none_unresolved (λ d. not (is_path d.device)) ds
        (traverse-All (λ d. not (is_path d.device) ≡ false) (resolve_disk resolve)
          (disk-path resolve good) l.disks ds disks_done) in
    let no_pool = pools-path resolve good l.zfs_pools ps pools_done in
    ap layout_uses_labels (sym (ok-injective h2))
    ∙ ap (λ b. b || uses_labels_in_pools ps) no_disk
    ∙ no_pool
  where
    resolve : Bytes → Result ResolveError Bytes
    resolve name =
        resolve_label name device.disk_label_overrides (sort_disks_canonical platform.disks)
          (sort_device_disks_canonical device.disks)

    good : (name p : Bytes) → resolve name ≡ ok p → is_path p ≡ true
    good name p k =
        resolve_label-path name device.disk_label_overrides (sort_disks_canonical platform.disks)
          (sort_device_disks_canonical device.disks) p good_overrides
          (All-sort_by device_le (λ d. HasPath d.path) device.disks good_disks) k
