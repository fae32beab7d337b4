-- ===== src/DiskLayout/Resolve/Labels.antt =====
-- disk_layout/resolve.rs: a label that the platform knows is resolved.
use rack_director.Prelude.{
  ℕ, zero, suc, ◌≤◌, ◌<◌, ◌≡◌, refl, ap, ◌∙◌, Bool, true, false, ◌||◌, Option, none, some, List, [],
  ◌∷◌, Bytes, length, any, All, get_elem?, position, is_some, if◌then◌else◌, Result, ok, ◌>>=◌,
  ok_or, arith,
}
use rack_director.DiskLayout.Resolve.{
  PlatformDisk, DiskInfo, disk_path_missing, lookup, is_label, path_of, label_at, or_position,
  resolve_label, traverse,
}

-- A search that succeeds.
abbrev pub Gives : {A E : Type 0} → Result E A → Type 0
Gives {A} r = (a : A) × (r ≡ ok a)

position-any :
    {A : Type 0} (p : A → Bool) (xs : List A)
    → any p xs ≡ true
    → (i : ℕ) × (position p xs ≡ some i) × (i < length xs)
position-any p [] h = cc
position-any p (x ∷ xs) h = go (p x) h (position-any p xs)
  where
    later : Option ℕ → Option ℕ
    later none = none
    later (some i) = some (suc i)

    go :
        (b : Bool)
        → (b || any p xs) ≡ true
        → (any p xs ≡ true → (i : ℕ) × (position p xs ≡ some i) × (i < length xs))
        → (i : ℕ) × ((if b
              then some 0
              else elim (position p xs) [ none ↦ none | some i ↦ some (suc i) ])
            ≡ some i)
          × (i < suc (length xs))
    go true h k = (0, refl, omega arith)
    go false h k = let (i, found, below) = k h in (suc i, rw found, omega (arith, below))

get_elem?-path :
    (ds : List DiskInfo) (i : ℕ)
    → i < length ds
    → All (λ d. is_some d.path ≡ true) ds
    → (p : Bytes) × (path_of (get_elem? ds i) ≡ some p)
get_elem?-path [] i below h = ground arith
get_elem?-path (d ∷ ds) zero below h = go d.path h.0
  where
    go : (o : Option Bytes) → is_some o ≡ true → (p : Bytes) × (o ≡ some p)
    go none k = cc
    go (some p) k = (p, refl)
get_elem?-path (d ∷ ds) (suc i) below h = get_elem?-path ds i (omega (arith, below)) h.1

pub resolve_label-Gives :
    (name : Bytes) (overrides : List (Bytes × Bytes)) (ps : List PlatformDisk) (ds : List DiskInfo)
    → any (λ d. is_label name d.label) ps ≡ true
    → length ps ≤ length ds
    → All (λ d. is_some d.path ≡ true) ds
    → Gives (resolve_label name overrides ps ds)
unfolding resolve_label
resolve_label-Gives name overrides ps ds known enough paths = go (lookup name overrides)
  where
    found : Gives (label_at name ds (position (λ d. is_label name d.label) ps))
    found =
        let (i, at, below) = position-any (λ d. is_label name d.label) ps known in
        let (p, path) = get_elem?-path ds i (omega (arith, below, enough)) paths in
        (p, ap (label_at name ds) at ∙ ap (λ o. ok_or o (disk_path_missing i)) path)

    go :
        (o : Option Bytes)
        → Gives (or_position o (label_at name ds (position (λ d. is_label name d.label) ps)))
    go (some path) = (path, refl)
    go none = found

pub traverse-Gives :
    {A E : Type 0} (f : A → Result E A) (xs : List A)
    → All (λ x. Gives (f x)) xs
    → Gives (traverse f xs)
unfolding traverse
traverse-Gives f [] h = ([], refl)
traverse-Gives f (x ∷ xs) h =
    let (y, e) = h.0 in
    let (ys, es) = traverse-Gives f xs h.1 in
    (
      y ∷ ys,
      ap (λ r. r >>= (λ y. traverse f xs >>= (λ ys. ok (y ∷ ys)))) e
          ∙ ap (λ r. r >>= (λ ys. ok (y ∷ ys))) es,
    )
