-- ===== src/Tftp/Packet.antt =====
-- tftp/packet.rs: the wire format of the packets. A text is the list of its bytes.
pub mod Read
pub mod RoundTrip
pub mod Options
pub mod Stalls
use rack_director.Prelude.{
  ℕ, zero, suc, ◌+◌, ◌*◌, ◌/◌, ◌%◌, Bool, true, false, ◌&&◌, Option, none, some, List, [], ◌∷◌,
  ◌++◌, Bytes, str_eq, Result, ok, err, ◌>>=◌, any, is_empty, position, take, drop, ◌==◌,
  if◌then◌else◌,
}
use rack_director.Tftp.Unicode.{Unicode, from_utf8_lossy, to_lowercase}
use rack_director.Tftp.Options.{
  TftpOption, t_size, blk_size, unrecognized, OptionError, invalid_value, from_pair, to_pair,
}

pub data ErrorCode : Type 0 where
  undefined file_not_found access_violation disk_full illegal_operation : ErrorCode
  unknown_transfer_id file_already_exists no_such_user option_negotiation_failure : ErrorCode
  unknown : ℕ → ErrorCode

unfoldable pub from_u16 : ℕ → ErrorCode
from_u16 value =
    if value == 0
    then undefined
    else if value == 1
    then file_not_found
    else if value == 2
    then access_violation
    else if value == 3
    then disk_full
    else if value == 4
    then illegal_operation
    else if value == 5
    then unknown_transfer_id
    else if value == 6
    then file_already_exists
    else if value == 7
    then no_such_user
    else if value == 8
    then option_negotiation_failure
    else unknown value

unfoldable pub to_u16 : ErrorCode → ℕ
to_u16 undefined = 0
to_u16 file_not_found = 1
to_u16 access_violation = 2
to_u16 disk_full = 3
to_u16 illegal_operation = 4
to_u16 unknown_transfer_id = 5
to_u16 file_already_exists = 6
to_u16 no_such_user = 7
to_u16 option_negotiation_failure = 8
to_u16 (unknown code) = code

pub data Packet : Type 0 where
  rrq : Bytes → Bytes → List TftpOption → Packet
  wrq : Bytes → Bytes → List TftpOption → Packet
  block_data : ℕ → Bytes → Packet
  ack : ℕ → Packet
  failure : ErrorCode → Bytes → Packet
  oack : List TftpOption → Packet

-- `out_of_fuel` is no error of the program: it stands for a loop that has not ended.
pub data ParseError : Type 0 where
  too_short missing_terminator out_of_fuel : ParseError
  unknown_opcode : ℕ → ParseError
  duplicate_key : Bytes → ParseError

-- `u16::to_be_bytes` and `u16::from_be_bytes`.
unfoldable pub write_u16 : Bytes → ℕ → Bytes
write_u16 buf n = buf ++ (n / 256 % 256) ∷ (n % 256) ∷ []

unfoldable pub write_string : Bytes → Bytes → Bytes
write_string buf s = (buf ++ s) ++ 0 ∷ []

unfoldable pub write_options : Bytes → List TftpOption → Bytes
unfolding write_string to_pair
write_options buf [] = buf
write_options buf (opt ∷ opts) =
    let (key, value) = to_pair opt in write_options (write_string (write_string buf key) value) opts

unfoldable pub to_bytes : Packet → Bytes
unfolding write_u16 write_string write_options to_u16
to_bytes (rrq filename mode options) =
    write_options (write_string (write_string (write_u16 [] 1) filename) mode) options
to_bytes (wrq filename mode options) =
    write_options (write_string (write_string (write_u16 [] 2) filename) mode) options
to_bytes (block_data block bytes) = write_u16 (write_u16 [] 3) block ++ bytes
to_bytes (ack block) = write_u16 (write_u16 [] 4) block
to_bytes (failure code message) = write_string (write_u16 (write_u16 [] 5) (to_u16 code)) message
to_bytes (oack options) = write_options (write_u16 [] 6) options

unfoldable pub read_u16 : Bytes → Result ParseError (ℕ × Bytes)
read_u16 (hi ∷ lo ∷ remainder) = ok (hi * 256 + lo, remainder)
read_u16 _ = err too_short

unfoldable pub read_string : Unicode → Bytes → Result ParseError (Bytes × Bytes)
unfolding from_utf8_lossy
read_string u bytes = elim (position (λ c. c == 0) bytes) [
  | none ↦ err missing_terminator
  | some i ↦ ok (from_utf8_lossy u (take i bytes), drop (i + 1) bytes)
]

unfoldable pub same_key : TftpOption → TftpOption → Bool
same_key (t_size _) (t_size _) = true
same_key (blk_size _) (blk_size _) = true
same_key (unrecognized k _) (unrecognized k2 _) = str_eq k k2
same_key _ _ = false

unfoldable pub options_contain_duplicate : List TftpOption → TftpOption → Bool
unfolding same_key
options_contain_duplicate options option = any (λ o. same_key option o) options

-- The `while` loop, on fuel. The `continue` after an invalid value leaves the input as it was.
unfoldable pub parse_options_from :
    ℕ → Unicode → Bytes → List TftpOption → Result ParseError (List TftpOption)
parse_options_from zero u bytes options = err out_of_fuel
parse_options_from (suc fuel) u bytes options =
    let round : Result ParseError (List TftpOption) = read_string u bytes >>= λ (key, remainder).
    read_string u remainder >>= λ (value, remainder'). elim (from_pair (to_lowercase u key) value) [
      | err _ ↦ parse_options_from fuel u bytes options
      | ok option ↦
          let rest = parse_options_from fuel u remainder' (options ++ option ∷ []) in
          if options_contain_duplicate options option then err (duplicate_key key) else rest
    ] in
    if is_empty bytes then ok options else round

abbrev pub parse_options : ℕ → Unicode → Bytes → Result ParseError (List TftpOption)
parse_options fuel u bytes = parse_options_from fuel u bytes []

unfoldable pub parse_request :
    (Bytes → Bytes → List TftpOption → Packet) → ℕ → Unicode → Bytes → Result ParseError Packet
parse_request make fuel u bytes = read_string u bytes >>= λ (filename, remainder).
    read_string u remainder >>= λ (mode, remainder').
    parse_options fuel u remainder' >>= λ options. ok (make filename mode options)

parse_data : Bytes → Result ParseError Packet
parse_data bytes = read_u16 bytes >>= λ (block, remainder). ok (block_data block remainder)

parse_ack : Bytes → Result ParseError Packet
parse_ack bytes = read_u16 bytes >>= λ (block, _). ok (ack block)

parse_error : Unicode → Bytes → Result ParseError Packet
parse_error u bytes = read_u16 bytes >>= λ (code, remainder).
    read_string u remainder >>= λ (message, _). ok (failure (from_u16 code) message)

parse_oack : ℕ → Unicode → Bytes → Result ParseError Packet
parse_oack fuel u bytes = parse_options fuel u bytes >>= λ options. ok (oack options)

unfoldable pub parse : ℕ → Unicode → Bytes → Result ParseError Packet
unfolding parse_request parse_data parse_ack parse_error parse_oack
parse fuel u bytes = read_u16 bytes >>= λ (opcode, remainder).
    if opcode == 1
    then parse_request rrq fuel u remainder
    else if opcode == 2
    then parse_request wrq fuel u remainder
    else if opcode == 3
    then parse_data remainder
    else if opcode == 4
    then parse_ack remainder
    else if opcode == 5
    then parse_error u remainder
    else if opcode == 6
    then parse_oack fuel u remainder
    else err (unknown_opcode opcode)
