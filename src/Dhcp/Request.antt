-- ===== src/Dhcp/Request.antt =====
-- dhcp/request.rs, with `format_mac` of dhcp/store.rs: what the server reads from a request.
use rack_director.Prelude.{
  ℕ, ◌+◌, ◌-◌, ◌/◌, ◌%◌, ◌≡◌, refl, Bool, true, false, ◌&&◌, Option, none, some, List, [], ◌∷◌,
  ◌++◌, Bytes, codes, str_eq, ◌==◌, ltb, if◌then◌else◌, any, length, drop,
}
use rack_director.Dhcp.Message.{
  Message, MessageType, Architecture, DhcpOption, Dhcproto, discover, message_type,
  requested_ip_address, server_identifier, client_system_architecture, user_class,
  parameter_request_list, unknown,
}

-- `{:02x}`.
abbrev hex_digit : ℕ → ℕ
hex_digit n = if ltb n 10 then b'0' + n else b'a' + n - 10

abbrev hex : ℕ → Bytes
hex b = hex_digit (b / 16) ∷ hex_digit (b % 16) ∷ []

abbrev join_after : Bytes → Bytes
join_after [] = []
join_after (c ∷ cs) = b':' ∷ c ∷ cs

unfoldable pub format_mac : Bytes → Bytes
format_mac [] = []
format_mac (b ∷ bs) = hex b ++ join_after (format_mac bs)

format_mac_lem : format_mac (0x0a ∷ 0xff ∷ []) ≡ codes "0a:ff"
unfolding format_mac
format_mac_lem = refl

abbrev server_of : Option DhcpOption → Option ℕ
server_of (some (server_identifier ip)) = some ip
server_of _ = none

pub record RequestContext : Type 0 where
  pub mac : Bytes
  pub message_type : MessageType
  pub requested_ip : Option ℕ
  pub client_arch : Option Architecture
  pub is_ipxe : Bool
  pub requested_tftp_server : Bool
  pub requested_bootfile : Bool
  pub requested_bootfile_size : Bool
  pub ciaddr : ℕ
  pub guid : Option ℕ

abbrev contains : List ℕ → ℕ → Bool
contains list code = any (λ c. c == code) list

-- One option of the request; a later one replaces what an earlier one set.
unfoldable pub read_option : DhcpOption → RequestContext → RequestContext
read_option (message_type mt) r = record r { message_type = mt }
read_option (requested_ip_address ip) r = record r { requested_ip = some ip }
read_option (client_system_architecture arch) r = record r { client_arch = some arch }
read_option (user_class text) r =
    if str_eq text (codes "iPXE") then record r { is_ipxe = true } else r
read_option (parameter_request_list list) r = record r {
  requested_tftp_server = contains list 66;
  requested_bootfile = contains list 67;
  requested_bootfile_size = contains list 13;
}
read_option _ r = r

unfoldable pub read_options : List DhcpOption → RequestContext → RequestContext
unfolding read_option
read_options [] r = r
read_options (o ∷ os) r = read_options os (read_option o r)

abbrev is_guid : Bytes → Bool
is_guid [] = false
is_guid (kind ∷ rest) = length rest == 16 && (kind == 0)

abbrev guid_or : (Bytes → ℕ) → Bytes → Option ℕ → Option ℕ
guid_or from_bytes_le text later =
    if is_guid text then some (from_bytes_le (drop 1 text)) else later

-- `Uuid::from_bytes_le` of the crate uuid is a parameter.
unfoldable pub extract_guid : (Bytes → ℕ) → List DhcpOption → Option ℕ
extract_guid from_bytes_le [] = none
extract_guid from_bytes_le (unknown code text ∷ os) =
    let later = extract_guid from_bytes_le os in
    if code == 97 then guid_or from_bytes_le text later else later
extract_guid from_bytes_le (_ ∷ os) = extract_guid from_bytes_le os

module _ {Options : Type 0} (d : Dhcproto Options) where
  unfoldable pub extract_server_identifier : Message Options → Option ℕ
  extract_server_identifier msg = server_of (d.get 54 msg.opts)

  unfoldable pub from_message : Message Options → RequestContext
  unfolding read_options extract_guid format_mac
  from_message msg = read_options (d.iter msg.opts) (record {
    mac = format_mac msg.chaddr;
    message_type = discover;
    requested_ip = none;
    client_arch = none;
    is_ipxe = false;
    requested_tftp_server = false;
    requested_bootfile = false;
    requested_bootfile_size = false;
    ciaddr = msg.ciaddr;
    guid = extract_guid d.uuid_from_bytes_le (d.iter msg.opts);
  })
