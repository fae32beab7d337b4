-- ===== src/Dhcp/Ipv4/RoundTrip.antt =====
-- `Ipv4Addr`: what `Display` prints is parsed back.
use rack_director.Prelude.{
  ℕ, suc, ◌+◌, ◌*◌, ◌/◌, ◌%◌, ◌^◌, ◌<◌, ◌≡◌, inl, inr, some, [], ◌∷◌, ◌++◌, Bytes, refl, arith, ltb,
  Bool-cases, ap, ◌∙◌, ◌==◌, append-nil,
}
use rack_director.Dhcp.Ipv4.{octet, octet_of, digits_of, format_octet, parse_ipv4, format_ipv4}

digits_of_digit :
    (a n v : ℕ) (cs : Bytes)
    → a < 10
    → digits_of ((b'0' + a) ∷ cs) (n, v, (b'0' + a) ∷ cs) ≡ digits_of cs (suc n, v * 10 + a, cs)
unfolding digits_of
digits_of_digit a n v cs h = ground arith

-- The text goes on with no digit.
abbrev Stops : Bytes → Type 0
Stops t = (n v : ℕ) → digits_of t (n, v, t) ≡ (n, v, t)

module _ (t : Bytes) (stops : Stops t) where
  octet_one : (a : ℕ) → a < 10 → octet ((b'0' + a) ∷ t) ≡ some (a, t)
  unfolding octet
  octet_one a h =
      ap (octet_of (b'0' + a == b'0')) (digits_of_digit a 0 0 t h ∙ stops 1 (0 * 10 + a))
      ∙ ground arith

  octet_two :
      (a b : ℕ)
      → 0 < a
      → a < 10
      → b < 10
      → octet ((b'0' + a) ∷ (b'0' + b) ∷ t) ≡ some (a * 10 + b, t)
  unfolding octet
  octet_two a b p h k =
      ap (octet_of (b'0' + a == b'0')) (
        digits_of_digit a 0 0 ((b'0' + b) ∷ t) h
        ∙ digits_of_digit b 1 (0 * 10 + a) t k
        ∙ stops 2 ((0 * 10 + a) * 10 + b))
      ∙ ground arith

  octet_three :
      (a b c : ℕ)
      → 0 < a
      → a < 10
      → b < 10
      → c < 10
      → (a * 10 + b) * 10 + c < 256
      → octet ((b'0' + a) ∷ (b'0' + b) ∷ (b'0' + c) ∷ t) ≡ some ((a * 10 + b) * 10 + c, t)
  unfolding octet
  octet_three a b c p h k l small =
      ap (octet_of (b'0' + a == b'0')) (
        digits_of_digit a 0 0 ((b'0' + b) ∷ (b'0' + c) ∷ t) h
        ∙ digits_of_digit b 1 (0 * 10 + a) ((b'0' + c) ∷ t) k
        ∙ digits_of_digit c 2 ((0 * 10 + a) * 10 + b) t l
        ∙ stops 3 (((0 * 10 + a) * 10 + b) * 10 + c))
      ∙ ground arith

  octet-format_octet : (n : ℕ) → n < 256 → octet (format_octet n ++ t) ≡ some (n, t)
  unfolding format_octet
  octet-format_octet n h = elim (Bool-cases (ltb n 10)) [
    | inl e ↦ rw e (octet_one n (ground arith))
    | inr e ↦ rw e (elim (Bool-cases (ltb n 100)) [
      | inl f ↦
          rw f (
            octet_two (n / 10) (n % 10) (ground arith) (ground arith) (ground arith) ∙ ground arith)
      | inr f ↦ rw f (
          octet_three (n / 100) (n / 10 % 10) (n % 10) (ground arith) (ground arith) (ground arith)
            (ground arith) (ground arith)
          ∙ ground arith)
    ])
  ]

Stops-dot : (rest : Bytes) → Stops (b'.' ∷ rest)
unfolding digits_of
Stops-dot rest n v = refl

Stops-end : Stops []
unfolding digits_of
Stops-end n v = refl

octet_end : (n : ℕ) → n < 256 → octet (format_octet n) ≡ some (n, [])
octet_end n h = rw (← append-nil (format_octet n)) (octet-format_octet [] Stops-end n h)

pub parse_ipv4-format_ipv4 : (a : ℕ) → a < 2 ^ 32 → parse_ipv4 (format_ipv4 a) ≡ some a
unfolding parse_ipv4 format_ipv4
parse_ipv4-format_ipv4 a h =
    let last = format_octet (a % 256) in
    let third = format_octet (a / 256 % 256) ++ (b'.' ∷ last) in
    let second = format_octet (a / 65536 % 256) ++ (b'.' ∷ third) in
    rw
      (
        octet-format_octet (b'.' ∷ second) (Stops-dot second) (a / 16777216 % 256) (omega arith),
        octet-format_octet (b'.' ∷ third) (Stops-dot third) (a / 65536 % 256) (omega arith),
        octet-format_octet (b'.' ∷ last) (Stops-dot last) (a / 256 % 256) (omega arith),
        octet_end (a % 256) (omega arith),
      )
      (ground arith)
