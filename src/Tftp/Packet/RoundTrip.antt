-- ===== src/Tftp/Packet/RoundTrip.antt =====
-- packet.rs: `Packet::parse` reads back what `Packet::to_bytes` writes.
use rack_director.Prelude.{
  ℕ, ◌≤◌, ◌<◌, ◌≡◌, ◌∙◌, List, [], ◌∷◌, ◌++◌, append_assoc, append-nil, Bytes, length, All, ok,
  ◌>>=◌, arith,
}
use rack_director.Tftp.Unicode.{Unicode, IsText}
use rack_director.Tftp.Options.{TftpOption}
use rack_director.Tftp.Packet.{
  ErrorCode, unknown, from_u16, to_u16, Packet, rrq, wrq, block_data, ack, failure, oack, write_u16,
  write_string, write_options, to_bytes, read_u16, parse_request, parse_data, parse_ack, parse_oack,
  parse_error, parse,
}
use rack_director.Tftp.Packet.Read.{
  read_string-append, read_u16-write, print_options, write_options-print,
}
use rack_director.Tftp.Packet.Options.{IsOption, AreDistinct, parse_options-print}

abbrev pub IsCode : ErrorCode → Type 0
IsCode (unknown code) = (9 ≤ code) × (code < 65536)
IsCode _ = Unit

abbrev pub AreOptions : Unicode → List TftpOption → Type 0
AreOptions u os = All (IsOption u) os × AreDistinct os

-- What the types of Rust say of a packet, and what the parser makes of options.
abbrev pub IsPacket : Unicode → Packet → Type 0
IsPacket u (rrq filename mode os) = IsText u filename × IsText u mode × AreOptions u os
IsPacket u (wrq filename mode os) = IsText u filename × IsText u mode × AreOptions u os
IsPacket u (block_data block bytes) = block < 65536
IsPacket u (ack block) = block < 65536
IsPacket u (failure code message) = IsCode code × IsText u message
IsPacket u (oack os) = AreOptions u os

abbrev pub option_count : Packet → ℕ
option_count (rrq _ _ os) = length os
option_count (wrq _ _ os) = length os
option_count (oack os) = length os
option_count _ = 0

from_u16-to_u16 : (c : ErrorCode) → IsCode c → from_u16 (to_u16 c) ≡ c
unfolding from_u16 to_u16
from_u16-to_u16 c h = ground arith

to_u16-lt : (c : ErrorCode) → IsCode c → to_u16 c < 65536
unfolding to_u16
to_u16-lt c h = ground arith

module _ (u : Unicode) (fuel : ℕ) where
  parse_request_lem :
      (make : Bytes → Bytes → List TftpOption → Packet) (f m : Bytes) (os : List TftpOption)
      → IsText u f
      → IsText u m
      → AreOptions u os
      → length os < fuel
      → parse_request make fuel u (f ++ 0 ∷ (m ++ 0 ∷ print_options os)) ≡ ok (make f m os)
  unfolding parse_request
  parse_request_lem make f m os tf tm h l = rw (
    read_string-append u f (m ++ 0 ∷ print_options os) tf,
    ◌>>=◌,
    read_string-append u m (print_options os) tm,
    ◌>>=◌,
    parse_options-print u os fuel h.0 h.1 l,
  )

  request_bytes :
      (op f m : Bytes) (os : List TftpOption)
      → write_options (write_string (write_string op f) m) os
        ≡ op ++ (f ++ 0 ∷ (m ++ 0 ∷ print_options os))
  unfolding write_string
  request_bytes op f m os =
      write_options-print ((((op ++ f) ++ 0 ∷ []) ++ m) ++ 0 ∷ []) os ∙ simp append_assoc

  parse_error_lem :
      (code : ErrorCode) (message : Bytes)
      → IsCode code
      → IsText u message
      → parse_error u (write_u16 [] (to_u16 code) ++ (message ++ 0 ∷ []))
        ≡ ok (failure code message)
  unfolding parse_error
  parse_error_lem code message c t = rw (
    read_u16-write (to_u16 code) (message ++ 0 ∷ []) (to_u16-lt code c),
    ◌>>=◌,
    read_string-append u message [] t,
    ◌>>=◌,
    from_u16-to_u16 code c,
  )

  parse_data_lem :
      (block : ℕ) (bytes : Bytes)
      → block < 65536
      → parse_data (write_u16 [] block ++ bytes) ≡ ok (block_data block bytes)
  unfolding parse_data
  parse_data_lem block bytes h = rw (read_u16-write block bytes h)

  parse_ack_lem : (block : ℕ) → block < 65536 → parse_ack (write_u16 [] block) ≡ ok (ack block)
  unfolding parse_ack
  parse_ack_lem block h = rw (← append-nil (write_u16 [] block), read_u16-write block [] h)

  parse_oack_lem :
      (os : List TftpOption)
      → AreOptions u os
      → length os < fuel
      → parse_oack fuel u (print_options os) ≡ ok (oack os)
  unfolding parse_oack
  parse_oack_lem os h l = rw (parse_options-print u os fuel h.0 h.1 l)

  -- A packet that Rust can hold, with options as the parser makes them (texts without NUL, numbers
  -- in range, keys in lower case, no key twice), is read back from its bytes as it was, by a parser
  -- that has more rounds than the packet has options.
  pub parse-to_bytes :
      (p : Packet) → IsPacket u p → option_count p < fuel → parse fuel u (to_bytes p) ≡ ok p
  unfolding parse to_bytes read_u16
  parse-to_bytes (rrq f m os) h l =
      rw (request_bytes (write_u16 [] 1) f m os) (parse_request_lem rrq f m os h.0 h.1 h.2 l)
  parse-to_bytes (wrq f m os) h l =
      rw (request_bytes (write_u16 [] 2) f m os) (parse_request_lem wrq f m os h.0 h.1 h.2 l)
  parse-to_bytes (block_data block bytes) h l = parse_data_lem block bytes h
  parse-to_bytes (ack block) h l = parse_ack_lem block h
  parse-to_bytes (failure code message) h l = parse_error_lem code message h.0 h.1
  parse-to_bytes (oack os) h l =
      rw (write_options-print (write_u16 [] 6) os) (parse_oack_lem os h l)
