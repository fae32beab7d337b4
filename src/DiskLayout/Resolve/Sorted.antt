-- ===== src/DiskLayout/Resolve/Sorted.antt =====
-- disk_layout/resolve.rs: the canonical order keeps the disks.
use rack_director.Prelude.{
  suc, ◌≡◌, refl, ap, ◌∙◌, Bool, true, false, ◌||◌, List, [], ◌∷◌, length, any, All, if◌then◌else◌,
}
use rack_director.DiskLayout.Resolve.{insert, sort_by}

module _ {A : Type 0} (le : A → A → Bool) where
  length-insert : (x : A) (ys : List A) → length (insert le x ys) ≡ suc (length ys)
  unfolding insert
  length-insert x [] = refl
  length-insert x (y ∷ ys) = go (le x y) (length-insert x ys)
    where
      go :
          (b : Bool)
          → length (insert le x ys) ≡ suc (length ys)
          → length (if b then x ∷ y ∷ ys else y ∷ insert le x ys) ≡ suc (suc (length ys))
      go true h = refl
      go false h = ap suc h

  pub length-sort_by : (xs : List A) → length (sort_by le xs) ≡ length xs
  unfolding sort_by
  length-sort_by [] = refl
  length-sort_by (x ∷ xs) = length-insert x (sort_by le xs) ∙ ap suc (length-sort_by xs)

  or_swap : (a b c : Bool) → (a || (b || c)) ≡ (b || (a || c))
  or_swap true true c = refl
  or_swap true false c = refl
  or_swap false b c = refl

  any-insert : (p : A → Bool) (x : A) (ys : List A) → any p (insert le x ys) ≡ (p x || any p ys)
  unfolding insert
  any-insert p x [] = refl
  any-insert p x (y ∷ ys) = go (le x y) (any-insert p x ys)
    where
      go :
          (b : Bool)
          → any p (insert le x ys) ≡ (p x || any p ys)
          → any p (if b then x ∷ y ∷ ys else y ∷ insert le x ys) ≡ (p x || (p y || any p ys))
      go true h = refl
      go false h = ap (λ r. p y || r) h ∙ or_swap (p y) (p x) (any p ys)

  pub any-sort_by : (p : A → Bool) (xs : List A) → any p (sort_by le xs) ≡ any p xs
  unfolding sort_by
  any-sort_by p [] = refl
  any-sort_by p (x ∷ xs) = any-insert p x (sort_by le xs) ∙ ap (λ r. p x || r) (any-sort_by p xs)

  All-insert : (P : A → Type 0) (x : A) (ys : List A) → P x → All P ys → All P (insert le x ys)
  unfolding insert
  All-insert P x [] h hs = (h, tt)
  All-insert P x (y ∷ ys) h hs = go (le x y) (All-insert P x ys h hs.1)
    where
      go :
          (b : Bool) → All P (insert le x ys) → All P (if b then x ∷ y ∷ ys else y ∷ insert le x ys)
      go true k = (h, hs)
      go false k = (hs.0, k)

  pub All-sort_by : (P : A → Type 0) (xs : List A) → All P xs → All P (sort_by le xs)
  unfolding sort_by
  All-sort_by P [] h = tt
  All-sort_by P (x ∷ xs) h = All-insert P x (sort_by le xs) h.0 (All-sort_by P xs h.1)
