-- ===== src/DiskLayout/Validate/Checks.antt =====
-- disk_layout/validate.rs: checks that add errors, one after the other and over lists.
use rack_director.Prelude.{
  ℕ, suc, ◌≡◌, ◌≢◌, ◌↔◌, Bool, true, false, not, List, [], ◌∷◌, Bytes, All, is_empty, if◌then◌else◌,
  refl,
}
use rack_director.DiskLayout.Validate.{Errors, insert_error, reject, each}

-- A check that adds no error exactly when a condition holds, and takes none away.
pub record Checks (f : Errors → Errors) (P : Type 0) : Type 0 where
  pub holds : (e : Errors) → (f e ≡ []) ↔ ((e ≡ []) × P)

pub insert-nonempty :
    (key message : Bytes) (e : Errors) → is_empty (insert_error key message e) ≡ false
unfolding insert_error
insert-nonempty key message e = refl

pub false≢true : false ≢ true
false≢true h = cc

pub reject-Checks : (b : Bool) (key message : Bytes) → Checks (reject b key message) (b ≡ false)
unfolding insert_error
reject-Checks true key message = record { holds = λ e. (λ h. cc, λ h. cc) }
reject-Checks false key message = record { holds = λ e. (λ h. (h, refl), λ h. h.0) }

pub seq-Checks :
    {f g : Errors → Errors} {P Q : Type 0} → Checks f P → Checks g Q → Checks (λ e. g (f e)) (P × Q)
seq-Checks {f} cf cg = record {
  holds = λ e. (
    λ h. let (fe, q) = (cg.holds (f e)).0 h in let (ee, p) = (cf.holds e).0 fe in (ee, (p, q)),
    λ h. (cg.holds (f e)).1 ((cf.holds e).1 (h.0, h.1.0), h.1.1),
  );
}

pub map-Checks : {f : Errors → Errors} {P Q : Type 0} → (P → Q) → (Q → P) → Checks f P → Checks f Q
map-Checks to from cf = record {
  holds =
      λ e. (λ h. let (ee, p) = (cf.holds e).0 h in (ee, to p), λ h. (cf.holds e).1 (h.0, from h.1));
}

pub if-Checks :
    {f : Errors → Errors} {P : Type 0} (b : Bool)
    → Checks f P
    → Checks (λ e. if b then f e else e) (b ≡ true → P)
if-Checks true cf = map-Checks (λ p t. p) (λ h. h refl) cf
if-Checks false cf = record { holds = λ e. (λ h. (h, λ t. elim (false≢true t) [ ]), λ h. h.0) }

pub each-Checks :
    {A : Type 0} {check : ℕ → A → Errors → Errors} {P : A → Type 0}
    → ((i : ℕ) (x : A) → Checks (check i x) (P x))
    → (i : ℕ) (xs : List A) → Checks (each check i xs) (All P xs)
each-Checks cs i [] = record { holds = λ e. (λ h. (h, tt), λ h. h.0) }
each-Checks cs i (x ∷ xs) = seq-Checks (cs i x) (each-Checks cs (suc i) xs)

pub not-false : (b : Bool) → not b ≡ false → b ≡ true
not-false true h = refl
not-false false h = cc

pub not-true : (b : Bool) → b ≡ true → not b ≡ false
not-true true h = refl
not-true false h = cc

-- A check that a test holds.
pub require-Checks :
    (b : Bool) (key message : Bytes) → Checks (reject (not b) key message) (b ≡ true)
require-Checks b key message =
    map-Checks (not-false b) (not-true b) (reject-Checks (not b) key message)
