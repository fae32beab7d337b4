-- ===== src/Dhcp/Message.antt =====
-- The DHCP messages of dhcp/request.rs and dhcp/message_builder.rs, as far as the server reads and
-- writes them. The crate dhcproto is not part of the sources: its default message, its set of options, its
-- decoder and its encoder are parameters; that the options are a map is `IsOptionMap`.
use rack_director.Prelude.{ℕ, ◌≡◌, Option, some, List, Bytes, ◌==◌, if◌then◌else◌}

pub data MessageType : Type 0 where
  discover offer request decline ack nak release other_type : MessageType

pub data Opcode : Type 0 where
  boot_request boot_reply : Opcode

-- `bc` is the name that the crate gives to architecture 7; it has `Unknown` for those it does not
-- name, and other names for the rest.
pub data Architecture : Type 0 where
  bc : Architecture
  unknown_architecture named_architecture : ℕ → Architecture

pub data DhcpOption : Type 0 where
  message_type : MessageType → DhcpOption
  server_identifier requested_ip_address address_lease_time subnet_mask boot_file_size :
      ℕ → DhcpOption
  class_identifier tftp_server_name bootfile_name user_class : Bytes → DhcpOption
  router domain_name_server parameter_request_list : List ℕ → DhcpOption
  client_system_architecture : Architecture → DhcpOption
  unknown : ℕ → Bytes → DhcpOption
  other_option : ℕ → DhcpOption

-- The code of an option in a DHCP packet.
abbrev pub code_of : DhcpOption → ℕ
code_of (subnet_mask _) = 1
code_of (router _) = 3
code_of (domain_name_server _) = 6
code_of (boot_file_size _) = 13
code_of (requested_ip_address _) = 50
code_of (address_lease_time _) = 51
code_of (message_type _) = 53
code_of (server_identifier _) = 54
code_of (parameter_request_list _) = 55
code_of (class_identifier _) = 60
code_of (tftp_server_name _) = 66
code_of (bootfile_name _) = 67
code_of (user_class _) = 77
code_of (client_system_architecture _) = 93
code_of (unknown c _) = c
code_of (other_option c) = c

pub record Message (Options : Type 0) : Type 0 where
  pub opcode : Opcode
  pub xid : ℕ
  pub flags : ℕ
  pub ciaddr : ℕ
  pub yiaddr : ℕ
  pub siaddr : ℕ
  pub giaddr : ℕ
  pub chaddr : Bytes
  pub opts : Options

-- What the server calls of the crates dhcproto and uuid.
pub record Dhcproto (Options : Type 0) : Type 0 where
  pub default_message : Message Options
  pub insert : DhcpOption → Options → Options
  pub get : ℕ → Options → Option DhcpOption
  pub iter : Options → List DhcpOption
  pub decode : Bytes → Option (Message Options)
  pub encode : Message Options → Option Bytes
  pub uuid_from_bytes_le : Bytes → ℕ

-- The options are a map by their codes.
pub record IsOptionMap {Options : Type 0} (d : Dhcproto Options) : Type 0 where
  pub get-insert :
      (c : ℕ) (option : DhcpOption) (m : Options)
      → d.get c (d.insert option m) ≡ (if code_of option == c then some option else d.get c m)

-- `opts_mut().insert`.
abbrev pub add :
    {Options : Type 0} → Dhcproto Options → DhcpOption → Message Options → Message Options
add d o msg = record msg { opts = d.insert o msg.opts }
