-- ===== src/Networks/Validation.antt =====
-- http/ui/validation.rs: the validators that the endpoints share, and the errors they collect. A map
-- of errors is the list of its fields with their messages.
pub mod Accepted
use rack_director.Prelude.{
  ℕ, Option, none, some, List, [], ◌∷◌, ◌++◌, Bytes, codes, str_eq, ltb, if◌then◌else◌, Result, ok,
  err, length, is_empty,
}
use rack_director.Dhcp.Ipv4.{parse_ipv4}
use rack_director.Dhcp.Subnet.{
  Ipv4Subnet, Ipv4SubnetError, invalid_cidr, invalid_prefix, parse_subnet, ip_in_range,
}
use rack_director.Tftp.Decimal.{to_string}

abbrev pub ErrorMap : Type 0
ErrorMap = List (Bytes × Bytes)

-- `HashMap::insert`: a field's message is replaced.
unfoldable pub insert : Bytes → Bytes → ErrorMap → ErrorMap
insert field message [] = (field, message) ∷ []
insert field message (x ∷ xs) =
    if str_eq x.0 field then (field, message) ∷ xs else x ∷ insert field message xs

unfoldable pub add_error : Bytes → Bytes → ErrorMap → ErrorMap
add_error field message errors = insert field message errors

unfoldable pub add_if_err : Bytes → Option Bytes → ErrorMap → ErrorMap
add_if_err field none errors = errors
add_if_err field (some message) errors = insert field message errors

unfoldable pub into_result : ErrorMap → Result {0} ErrorMap Unit
into_result [] = ok tt
into_result (x ∷ xs) = err (x ∷ xs)

unfoldable pub validate_required : Bytes → Bytes → Option Bytes
validate_required value field_name =
    if is_empty value then some (field_name ++ codes " is required") else none

-- `str::len` counts bytes.
unfoldable pub validate_string_length : Bytes → ℕ → Bytes → Option Bytes
validate_string_length value max_len field_name =
    if ltb max_len (length value)
    then some
        (field_name ++ codes " must be less than " ++ to_string max_len ++ codes " characters")
    else none

abbrev not_ipv4 : Bytes
not_ipv4 = codes "Must be a valid IPv4 address"

unfoldable pub validate_ipv4_address : Bytes → Option Bytes
validate_ipv4_address ip = elim (parse_ipv4 ip) [ some _ ↦ none | none ↦ some not_ipv4 ]

-- The error's `Display`.
unfoldable pub show_subnet_error : Ipv4SubnetError → Bytes
show_subnet_error invalid_cidr = codes "Invalid CIDR format, must be of the form '192.168.0.1/24'"
show_subnet_error invalid_prefix = codes "Prefix must be equal to or shorter than 32"

abbrev pub invalid_notation : Result Ipv4SubnetError Ipv4Subnet → Result Bytes Ipv4Subnet
invalid_notation (ok s) = ok s
invalid_notation (err e) = err (codes "Invalid CIDR notation: " ++ show_subnet_error e)

unfoldable pub validate_cidr_subnet : Bytes → Result Bytes Ipv4Subnet
validate_cidr_subnet subnet = invalid_notation (parse_subnet subnet)

unfoldable pub validate_ip_in_subnet : Bytes → Ipv4Subnet → Option Bytes
validate_ip_in_subnet ip subnet = elim (parse_ipv4 ip) [
  | some ip_addr ↦
      if ip_in_range subnet ip_addr
      then none
      else some (codes "IP address must be within the subnet range")
  | none ↦ some not_ipv4
]

unfoldable pub first_invalid : List Bytes → Option Bytes
first_invalid [] = none
first_invalid (ip ∷ ips) = elim (parse_ipv4 ip) [
  | some _ ↦ first_invalid ips
  | none ↦ some (codes "'" ++ ip ++ codes "' is not a valid IPv4 address")
]

unfoldable pub validate_ipv4_list : List Bytes → Bytes → ℕ → Option Bytes
validate_ipv4_list ips field_name min_count =
    if ltb (length ips) min_count
    then some
        (codes "At least " ++ to_string min_count ++ codes " " ++ field_name ++ codes " required")
    else first_invalid ips

unfoldable pub validate_u32_range : ℕ → ℕ → ℕ → Bytes → Option Bytes
validate_u32_range value min max field_name =
    if ltb value min
    then some (field_name ++ codes " must be at least " ++ to_string min)
    else if ltb max value
    then some (field_name ++ codes " must be less than " ++ to_string max)
    else none
