-- ===== src/Networks/Validation/Accepted.antt =====
-- http/ui/validation.rs: what holds when no error was collected.
use rack_director.Prelude.{
  ℕ, ◌≤◌, ◌≡◌, ◌≢◌, refl, Bool, true, false, Option, none, some, List, [], ◌∷◌, Bytes, All, arith,
  if◌then◌else◌, Result, ok, err, ltb, length, is_empty, str_eq, is_some,
}
use rack_director.Dhcp.Ipv4.{parse_ipv4}
use rack_director.Dhcp.Subnet.{Ipv4Subnet, Ipv4SubnetError, parse_subnet, ip_in_range}
use rack_director.Networks.Validation.{
  ErrorMap, insert, add_if_err, into_result, validate_required, validate_string_length,
  validate_cidr_subnet, validate_ip_in_subnet, validate_ipv4_list, validate_u32_range,
  first_invalid, invalid_notation,
}

pub into_result-nil : (errors : ErrorMap) → into_result errors ≡ ok tt → errors ≡ []
unfolding into_result
into_result-nil [] h = refl
into_result-nil (x ∷ xs) h = cc

pub insert-nonempty : (field message : Bytes) (errors : ErrorMap) → insert field message errors ≢ []
unfolding insert
insert-nonempty field message [] h = cc
insert-nonempty field message (x ∷ xs) h = go (str_eq x.0 field) h
  where
    go : (b : Bool) → (if b then (field, message) ∷ xs else x ∷ insert field message xs) ≢ []
    go true h = cc
    go false h = cc

pub add_if_err-nil :
    (field : Bytes) (result : Option Bytes) (errors : ErrorMap)
    → add_if_err field result errors ≡ []
    → (result ≡ none) × (errors ≡ [])
unfolding add_if_err
add_if_err-nil field none errors h = (refl, h)
add_if_err-nil field (some message) errors h = elim (insert-nonempty field message errors h) [ ]

-- A test that must not make a message fails.
unsaid : (b : Bool) (m : Bytes) → (if b then some m else none) ≡ none → b ≡ false
unsaid true m h = cc
unsaid false m h = refl

pub required_lem :
    (value name : Bytes) → validate_required value name ≡ none → is_empty value ≡ false
unfolding validate_required
required_lem value name h = unsaid (is_empty value) _ h

pub string_length_lem :
    (value : Bytes) (max : ℕ) (name : Bytes)
    → validate_string_length value max name ≡ none
    → length value ≤ max
unfolding validate_string_length
string_length_lem value max name h = ground arith

pub ip_in_subnet_lem :
    (ip : Bytes) (subnet : Ipv4Subnet)
    → validate_ip_in_subnet ip subnet ≡ none
    → (g : ℕ) × (parse_ipv4 ip ≡ some g) × (ip_in_range subnet g ≡ true)
unfolding validate_ip_in_subnet
ip_in_subnet_lem ip subnet h = go (parse_ipv4 ip) _ _ h
  where
    inside : (g : ℕ) (b : Bool) (m : Bytes) → (if b then none else some m) ≡ none → b ≡ true
    inside g true m h = refl
    inside g false m h = cc

    go :
        (p : Option ℕ) (m m' : Bytes)
        → elim p [ some a ↦ if ip_in_range subnet a then none else some m | none ↦ some m' ] ≡ none
        → (g : ℕ) × (p ≡ some g) × (ip_in_range subnet g ≡ true)
    go none m m' h = cc
    go (some g) m m' h = (g, refl, inside g (ip_in_range subnet g) m h)

abbrev pub IsAddress : Bytes → Type 0
IsAddress ip = is_some (parse_ipv4 ip) ≡ true

first_invalid_lem : (ips : List Bytes) → first_invalid ips ≡ none → All IsAddress ips
unfolding first_invalid
first_invalid_lem [] h = tt
first_invalid_lem (ip ∷ ips) h = go (parse_ipv4 ip) _ h (λ k. first_invalid_lem ips k)
  where
    go :
        (p : Option ℕ) (m : Bytes)
        → elim p [ some _ ↦ first_invalid ips | none ↦ some m ] ≡ none
        → (first_invalid ips ≡ none → All IsAddress ips)
        → (is_some p ≡ true) × All IsAddress ips
    go none m h rest = cc
    go (some a) m h rest = (refl, rest h)

pub ipv4_list_lem :
    (ips : List Bytes) (name : Bytes) (min : ℕ)
    → validate_ipv4_list ips name min ≡ none
    → (min ≤ length ips) × All IsAddress ips
unfolding validate_ipv4_list
ipv4_list_lem ips name min h = go (ltb (length ips) min) _ refl h
  where
    go :
        (b : Bool) (m : Bytes)
        → ltb (length ips) min ≡ b
        → (if b then some m else first_invalid ips) ≡ none
        → (min ≤ length ips) × All IsAddress ips
    go true m e h = cc
    go false m e h = (ground arith, first_invalid_lem ips h)

pub cidr_subnet_lem :
    (text : Bytes) (subnet : Ipv4Subnet)
    → validate_cidr_subnet text ≡ ok subnet
    → parse_subnet text ≡ ok subnet
unfolding validate_cidr_subnet
cidr_subnet_lem text subnet h = go (parse_subnet text) h
  where
    go : (r : Result Ipv4SubnetError Ipv4Subnet) → invalid_notation r ≡ ok subnet → r ≡ ok subnet
    go (ok s) h = cc
    go (err e) h = cc

pub u32_range_lem :
    (value min max : ℕ) (name : Bytes)
    → validate_u32_range value min max name ≡ none
    → (min ≤ value) × (value ≤ max)
unfolding validate_u32_range
u32_range_lem value min max name h = ground arith
