-- ===== src/DiskLayout/Validate/Partitions.antt =====
-- disk_layout/validate.rs: the checks of a partition, and of the sizes of a disk's partitions.
use rack_director.Prelude.{
  ℕ, suc, ◌≤◌, ◌≡◌, ◌≢◌, Bool, true, false, ◌&&◌, Option, none, some, List, [], ◌∷◌, Bytes, codes,
  is_empty, is_none, is_some, length, ltb, ltb→lt, ◌<◌, if◌then◌else◌, refl, arith, sym, ap, ◌∙◌,
}
use rack_director.DiskLayout.{PartitionConfig}
use rack_director.DiskLayout.Validate.{
  Errors, insert_error, reject, contains, valid_filesystems, is_rest, rest_indices, reject_sizes,
  is_bad_filesystem, has_flag, check_volume_group, validate_partition,
  validate_at_most_one_rest_partition, validate_partition_filesystem,
  validate_mount_point_requires_filesystem, validate_lvm_partition,
}
use rack_director.DiskLayout.Validate.Spec.{IsFilesystem, IsPartition, count}
use rack_director.DiskLayout.Validate.Checks.{
  Checks, insert-nonempty, false≢true, reject-Checks, seq-Checks, map-Checks, if-Checks, not-false,
  not-true, require-Checks,
}

pub IsFilesystem-good : (fs : Option Bytes) → is_bad_filesystem fs ≡ false → IsFilesystem fs
IsFilesystem-good none h = tt
IsFilesystem-good (some fs) h = not-false (contains fs valid_filesystems) h

pub filesystem-bad : (fs : Option Bytes) → IsFilesystem fs → is_bad_filesystem fs ≡ false
filesystem-bad none h = refl
filesystem-bad (some fs) h = not-true (contains fs valid_filesystems) h

pub IsFilesystem-Checks :
    (fs : Option Bytes) (key message : Bytes)
    → Checks (reject (is_bad_filesystem fs) key message) (IsFilesystem fs)
IsFilesystem-Checks fs key message =
    map-Checks (IsFilesystem-good fs) (filesystem-bad fs)
      (reject-Checks (is_bad_filesystem fs) key message)

pub mount-Checks :
    (field : Bytes) (fs mount : Option Bytes)
    → Checks
        (validate_mount_point_requires_filesystem field fs mount)
        (is_some mount ≡ true → is_some fs ≡ true)
unfolding validate_mount_point_requires_filesystem
mount-Checks field fs mount =
    map-Checks (to fs mount) (from fs mount) (reject-Checks (is_none fs && is_some mount) field _)
  where
    to :
        (fs mount : Option Bytes)
        → (is_none fs && is_some mount) ≡ false
        → is_some mount ≡ true
        → is_some fs ≡ true
    to none none h m = m
    to none (some m) h t = sym h
    to (some f) mount h t = refl

    from :
        (fs mount : Option Bytes)
        → (is_some mount ≡ true → is_some fs ≡ true)
        → (is_none fs && is_some mount) ≡ false
    from none none h = refl
    from none (some m) h = sym (h refl)
    from (some f) mount h = refl

pub HasGroup : List Bytes → Option Bytes → Type 0
HasGroup defined group = (g : Bytes) × (group ≡ some g) × (contains g defined ≡ true)

pub some≢none : {A : Type 0} {a : A} → none ≢ some a
some≢none h = cc

pub group-Checks :
    (i j : ℕ) (group : Option Bytes) (defined : List Bytes)
    → Checks (check_volume_group i j group defined) (HasGroup defined group)
unfolding HasGroup insert_error
group-Checks i j none defined = record { holds = λ e. (λ h. cc, λ h. elim (some≢none h.1.1) [ ]) }
group-Checks i j (some name) defined =
    map-Checks (λ h. (name, refl, h))
      (λ (g, e, h). let same : name ≡ g = cc in ap (λ n. contains n defined) same ∙ h)
      (require-Checks (contains name defined) _ _)

pub lvm-Checks :
    (i j : ℕ) (p : PartitionConfig) (defined : List Bytes)
    → Checks
        (validate_lvm_partition i j p defined)
        (has_flag (codes "lvm") p ≡ true → HasGroup defined p.volume_group)
unfolding validate_lvm_partition
lvm-Checks i j p defined =
    if-Checks (has_flag (codes "lvm") p) (group-Checks i j p.volume_group defined)

pub IsPartition-Checks :
    (i : ℕ) (defined : List Bytes) (j : ℕ) (p : PartitionConfig)
    → Checks (validate_partition i defined j p) (IsPartition defined p)
unfolding validate_partition validate_partition_filesystem HasGroup
IsPartition-Checks i defined j p =
    map-Checks (λ (f, (m, g)). record { has_filesystem = f; is_mountable = m; has_group = g })
      (λ h. (h.has_filesystem, (h.is_mountable, h.has_group)))
      (seq-Checks (IsFilesystem-Checks p.filesystem _ _)
        (seq-Checks (mount-Checks _ p.filesystem p.mount_point) (lvm-Checks i j p defined)))

pub lt-not-le : {n : ℕ} → 1 < n → n ≤ 1 → ⊥
lt-not-le h k = omega (arith, h, k)

pub not-ltb : (a b : ℕ) → ltb a b ≡ false → b ≤ a
not-ltb a b h = ground arith

pub length-rest_indices :
    (j : ℕ) (ps : List PartitionConfig) → length (rest_indices j ps) ≡ count is_rest ps
unfolding rest_indices
length-rest_indices j [] = refl
length-rest_indices j (p ∷ ps) = go (is_rest p) (length-rest_indices (suc j) ps)
  where
    go :
        (b : Bool)
        → length (rest_indices (suc j) ps) ≡ count is_rest ps
        → length (if b then j ∷ rest_indices (suc j) ps else rest_indices (suc j) ps)
          ≡ (if b then suc (count is_rest ps) else count is_rest ps)
    go true later = ap suc later
    go false later = later

pub reject_sizes-nonempty :
    (i : ℕ) (js : List ℕ) (e : Errors) → is_empty e ≡ false → is_empty (reject_sizes i js e) ≡ false
reject_sizes-nonempty i [] e h = h
reject_sizes-nonempty i (j ∷ js) e h = reject_sizes-nonempty i js _ (insert-nonempty _ _ e)

pub reject_sizes-some :
    (i : ℕ) (js : List ℕ) (e : Errors) → 1 ≤ length js → is_empty (reject_sizes i js e) ≡ false
reject_sizes-some i [] e h = ground arith
reject_sizes-some i (j ∷ js) e h = reject_sizes-nonempty i js _ (insert-nonempty _ _ e)

pub nonempty : (e : Errors) → is_empty e ≡ false → e ≢ []
nonempty e h same = false≢true (sym h ∙ ap is_empty same)

pub rest-Checks :
    (i : ℕ) (ps : List PartitionConfig)
    → Checks (validate_at_most_one_rest_partition i ps) (count is_rest ps ≤ 1)
unfolding validate_at_most_one_rest_partition
rest-Checks i ps =
    map-Checks (λ h. omega (arith, h, length-rest_indices 0 ps))
      (λ h. omega (arith, h, length-rest_indices 0 ps))
      (go (ltb 1 (length (rest_indices 0 ps))) refl)
  where
    go :
        (b : Bool)
        → ltb 1 (length (rest_indices 0 ps)) ≡ b
        → Checks
            (λ e. if b then reject_sizes i (rest_indices 0 ps) e else e)
            (length (rest_indices 0 ps) ≤ 1)
    go true h =
        let more = ltb→lt 1 (length (rest_indices 0 ps)) h in
        record {
          holds = λ e. (
            λ empty.
                elim (nonempty _ (reject_sizes-some i (rest_indices 0 ps) e (omega (arith, more)))
                  empty) [ ],
            λ k. elim (lt-not-le more k.1) [ ],
          );
        }
    go false h = record { holds = λ e. (λ k. (k, not-ltb _ _ h), λ k. k.0) }
