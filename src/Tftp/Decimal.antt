-- ===== src/Tftp/Decimal.antt =====
-- `u64::to_string` and `u64::from_str`, which options.rs calls on the values of options.
pub mod RoundTrip
use rack_director.Prelude.{
  ℕ, zero, suc, ◌+◌, ◌-◌, ◌*◌, ◌/◌, ◌%◌, ◌^◌, Option, none, some, [], ◌∷◌, Bytes, Bool, ◌||◌, ltb,
  ◌==◌, if◌then◌else◌, is_empty, codes, ◌≡◌, refl,
}

abbrev pub max_u64 : ℕ
max_u64 = 2 ^ 64 - 1

-- One digit a round; a u64 has at most twenty.
pub digits : ℕ → ℕ → Bytes → Bytes
digits zero n out = out
digits (suc fuel) n out =
    let rest = digits fuel (n / 10) ((b'0' + n % 10) ∷ out) in if n == 0 then out else rest

unfoldable pub to_string : ℕ → Bytes
unfolding digits
to_string n = if n == 0 then b'0' ∷ [] else digits 20 n []

-- Digits only; a product or a sum that leaves the type is refused.
pub scan : Bytes → ℕ → Option ℕ
scan [] n = some n
scan (c ∷ s) n =
    let next = n * 10 + (c - b'0') in
    let rest = scan s next in
    if ltb c b'0' || ltb b'9' c then none else if ltb max_u64 next then none else rest

unfoldable pub from_str : Bytes → Option ℕ
unfolding scan
from_str [] = none
from_str (c ∷ s) = if c == b'+' then if is_empty s then none else scan s 0 else scan (c ∷ s) 0

to_string-max : to_string max_u64 ≡ codes "18446744073709551615"
unfolding to_string
to_string-max = refl

from_str_overflow : from_str (codes "18446744073709551616") ≡ none
unfolding from_str
from_str_overflow = refl
