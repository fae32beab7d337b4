-- ===== src/Tftp/Decimal/RoundTrip.antt =====
-- Printing a u64 and reading it back.
use native.Mathlib.Nat.{pow-suc, mul_comm}
use rack_director.Prelude.{
  false, ℕ, zero, suc, ◌+◌, ◌*◌, ◌/◌, ◌%◌, ◌^◌, ◌≤◌, ◌<◌, ◌≡◌, ◌≢◌, refl, some, [], ◌∷◌, Bytes, All,
  ◌==◌, Bool-cases, ◌∙◌, inl, inr, arith,
}
use rack_director.Tftp.Decimal.{max_u64, digits, scan, to_string, from_str}

pow_ten : (k : ℕ) → 10 ^ suc k ≡ 10 * 10 ^ k
pow_ten k = rw pow-suc (mul_comm (10 ^ k) 10)

scan-digits :
    (fuel n : ℕ) (out : Bytes)
    → n < 10 ^ fuel
    → n ≤ max_u64
    → scan (digits fuel n out) 0 ≡ scan out n
unfolding digits scan
scan-digits zero n out h m = ground arith
scan-digits (suc fuel) n out h m =
    let small : n < 10 * 10 ^ fuel = rw (← pow_ten fuel) h in
    ground (arith, scan-digits fuel (n / 10) ((48 + n % 10) ∷ out) (omega arith) (omega arith))

scan_end : (n : ℕ) → scan [] n ≡ some n
unfolding scan
scan_end n = refl

abbrev pub AreDigits : Bytes → Type 0
AreDigits = All (λ c. (48 ≤ c) × (c ≤ 57))

digits-AreDigits : (fuel n : ℕ) (out : Bytes) → AreDigits out → AreDigits (digits fuel n out)
unfolding digits
digits-AreDigits zero n out h = h
digits-AreDigits (suc fuel) n out h =
    ground (arith, digits-AreDigits fuel (n / 10) ((48 + n % 10) ∷ out))

digits-ne-nil : (fuel n : ℕ) (out : Bytes) → out ≢ [] → digits fuel n out ≢ []
unfolding digits
digits-ne-nil zero n out h = h
digits-ne-nil (suc fuel) n out h =
    ground (arith, digits-ne-nil fuel (n / 10) ((48 + n % 10) ∷ out) (λ e. cc))

digits-pos-ne-nil : (n : ℕ) → 0 < n → digits 20 n [] ≢ []
unfolding digits
digits-pos-ne-nil n h = ground (arith, digits-ne-nil 19 (n / 10) ((48 + n % 10) ∷ []) (λ e. cc))

pub to_string-AreDigits : (n : ℕ) → AreDigits (to_string n)
unfolding to_string
to_string-AreDigits n = ground (arith, digits-AreDigits 20 n [])

from_str-scan : (s : Bytes) → AreDigits s → s ≢ [] → from_str s ≡ scan s 0
unfolding from_str
from_str-scan [] h e = absurd (e refl)
from_str-scan (c ∷ s) h e = ground arith

zero_text : scan (48 ∷ []) 0 ≡ some 0
unfolding scan
zero_text = refl

to_string_zero : to_string 0 ≡ 48 ∷ []
unfolding to_string
to_string_zero = refl

to_string_pos : (n : ℕ) → (n == 0) ≡ false → to_string n ≡ digits 20 n []
unfolding to_string
to_string_pos n h = rw h

-- A number below 2^64 survives printing and reading.
pub from_str-to_string : (n : ℕ) → n ≤ max_u64 → from_str (to_string n) ≡ some n
from_str-to_string n h = elim (Bool-cases (n == 0)) [
  | inl z ↦
      let e : n ≡ 0 = ground arith in
      rw (e, to_string_zero) (from_str-scan (48 ∷ []) (omega arith) (λ e. cc) ∙ zero_text)
  | inr p ↦ rw (to_string_pos n p) (
      from_str-scan (digits 20 n []) (digits-AreDigits 20 n [] tt)
        (digits-pos-ne-nil n (ground arith))
      ∙ scan-digits 20 n [] (omega arith) h
      ∙ scan_end n)
]
