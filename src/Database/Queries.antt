-- ===== src/Database/Queries.antt =====
-- plans/store.rs, lifecycle/store.rs: what a query's answer says of the table.
use rack_director.Prelude.{
  ℕ, zero, suc, ◌<◌, ◌≡◌, ◌⊎◌, inl, inr, Bool, true, false, Option, none, some, arith, refl, sym,
  subst,
}
use rack_director.Database.{keep, or_else, newest_below, first_below}

or_else-found :
    {B : Type 0} (x y : Option B) (b : B) → or_else x y ≡ some b → (x ≡ some b) ⊎ (y ≡ some b)
or_else-found none y b h = inr h
or_else-found (some x) y b h = inl h

or_else-none : {B : Type 0} (x y : Option B) → or_else x y ≡ none → (x ≡ none) × (y ≡ none)
or_else-none none y h = (refl, h)
or_else-none (some x) y h = cc

module _ {A : Type 0} (test : A → Bool) where
  keep-found :
      (n : ℕ) (row : Option A) (i : ℕ) (a : A)
      → keep test n row ≡ some (i, a)
      → (i ≡ n) × (row ≡ some a) × (test a ≡ true)
  keep-found n none i a h = cc
  keep-found n (some b) i a h = ground arith

  keep-missed :
      (n : ℕ) (row : Option A) (a : A) → keep test n row ≡ none → row ≡ some a → test a ≡ false
  keep-missed n none a h e = cc
  keep-missed n (some b) a h e = ground arith

  -- A row that a query gives is in the table and passes the test.
  pub newest_below-found :
      (rows : ℕ → Option A) (n i : ℕ) (a : A)
      → newest_below test rows n ≡ some (i, a)
      → (rows i ≡ some a) × (test a ≡ true)
  unfolding newest_below
  newest_below-found rows zero i a h = cc
  newest_below-found rows (suc n) i a h =
      elim (or_else-found (keep test n (rows n)) (newest_below test rows n) (i, a) h) [
        | inl e ↦
            let (same, row, passes) = keep-found n (rows n) i a e in
            (subst (λ k. rows k ≡ some a) (sym same) row, passes)
        | inr e ↦ newest_below-found rows n i a e
      ]

  pub first_below-found :
      (rows : ℕ → Option A) (n i : ℕ) (a : A)
      → first_below test rows n ≡ some (i, a)
      → (rows i ≡ some a) × (test a ≡ true)
  unfolding first_below
  first_below-found rows zero i a h = cc
  first_below-found rows (suc n) i a h =
      elim (or_else-found (first_below test rows n) (keep test n (rows n)) (i, a) h) [
        | inl e ↦ first_below-found rows n i a e
        | inr e ↦
            let (same, row, passes) = keep-found n (rows n) i a e in
            (subst (λ k. rows k ≡ some a) (sym same) row, passes)
      ]

  -- A query that gives nothing has seen no row below the bound that passes.
  pub newest_below-missed :
      (rows : ℕ → Option A) (n i : ℕ) (a : A)
      → newest_below test rows n ≡ none
      → i < n
      → rows i ≡ some a
      → test a ≡ false
  unfolding newest_below
  newest_below-missed rows zero i a h below row = ground arith
  newest_below-missed rows (suc n) i a h below row =
      let (here, rest) = or_else-none (keep test n (rows n)) (newest_below test rows n) h in
      let last_or_below : (i ≡ n) ⊎ (i < n) = ground arith in
      elim last_or_below [
        | inl e ↦ keep-missed n (rows n) a here (subst (λ k. rows k ≡ some a) e row)
        | inr e ↦ newest_below-missed rows n i a rest e row
      ]
