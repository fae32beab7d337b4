-- ===== src/Dhcp/Ipv4.antt =====
-- What dhcp/allocator.rs uses of `std::net::Ipv4Addr`: an address as its 32 bits, and its parser. An
-- octet has one to three digits, no leading zero, and is at most 255.
pub mod RoundTrip
pub mod Bounds
use rack_director.Prelude.{
  ℕ, suc, ◌+◌, ◌-◌, ◌*◌, Bool, false, ◌&&◌, ◌||◌, Option, none, some, [], ◌∷◌, Bytes, codes, ◌==◌,
  ltb, leb, if◌then◌else◌, refl, ◌≡◌, ◌/◌, ◌%◌, ◌++◌,
}

abbrev is_digit : ℕ → Bool
is_digit c = leb b'0' c && leb c b'9'

-- The leading digits of a text: their number, their value, and what follows.
unfoldable pub digits_of : Bytes → ℕ × ℕ × Bytes → ℕ × ℕ × Bytes
digits_of [] acc = acc
digits_of (c ∷ cs) (n, v, _) =
    let longer = digits_of cs (suc n, v * 10 + (c - b'0'), cs) in
    if is_digit c then longer else (n, v, c ∷ cs)

abbrev starts_with_zero : Bytes → Bool
starts_with_zero [] = false
starts_with_zero (c ∷ _) = c == b'0'

abbrev octet_of : Bool → ℕ × ℕ × Bytes → Option (ℕ × Bytes)
octet_of leading_zero (n, v, rest) =
    if n == 0 || (ltb 3 n || ((leading_zero && ltb 1 n) || ltb 255 v)) then none else some (v, rest)

unfoldable pub octet : Bytes → Option (ℕ × Bytes)
unfolding digits_of
octet s = octet_of (starts_with_zero s) (digits_of s (0, 0, s))

abbrev dot : Bytes → Option Bytes
dot [] = none
dot (c ∷ cs) = if c == b'.' then some cs else none

abbrev the_end : ℕ → Bytes → Option ℕ
the_end a [] = some a
the_end a (_ ∷ _) = none

infixl 5 ◌>>=◌
abbrev ◌>>=◌ : {A B : Type 0} → Option A → (A → Option B) → Option B
none >>= f = none
some a >>= f = f a

unfoldable pub parse_ipv4 : Bytes → Option ℕ
unfolding octet
parse_ipv4 s = do
  (a, s1) ← octet s
  s2 ← dot s1
  (b, s3) ← octet s2
  s4 ← dot s3
  (c, s5) ← octet s4
  s6 ← dot s5
  (d, s7) ← octet s6
  the_end (((a * 256 + b) * 256 + c) * 256 + d) s7

-- `Display`: an octet below 256 in decimal, with no leading zero.
unfoldable pub format_octet : ℕ → Bytes
format_octet n =
    if ltb n 10
    then (b'0' + n) ∷ []
    else if ltb n 100
    then (b'0' + n / 10) ∷ (b'0' + n % 10) ∷ []
    else (b'0' + n / 100) ∷ (b'0' + n / 10 % 10) ∷ (b'0' + n % 10) ∷ []

unfoldable pub format_ipv4 : ℕ → Bytes
unfolding format_octet
format_ipv4 a =
    format_octet (a / 16777216 % 256)
    ++ (b'.'
        ∷ (format_octet (a / 65536 % 256)
            ++ (b'.' ∷ (format_octet (a / 256 % 256) ++ (b'.' ∷ format_octet (a % 256))))))

parse_ipv4-ten : parse_ipv4 (codes "10.0.1.255") ≡ some 167772671
unfolding parse_ipv4
parse_ipv4-ten = refl

parse_ipv4-zero : parse_ipv4 (codes "10.0.01.255") ≡ none
unfolding parse_ipv4
parse_ipv4-zero = refl
