-- ===== src/Examples/Dhcp.antt =====
-- A small DHCP server: one network, one device that asks for an address.
use rack_director.Prelude.{
  ℕ, ◌≡◌, refl, sym, ◌∙◌, arith, Option, none, some, List, [], ◌∷◌, Bytes, codes, find, ◌==◌,
  if◌then◌else◌, Any, head_has, tail_has,
}
use rack_director.Dhcp.Ipv4.{parse_ipv4}
use rack_director.Dhcp.Store.{Tables, DhcpNetwork, active, is_expired}
use rack_director.Dhcp.Leases.{IsConsistent, Holds, Reserves}
use rack_director.Dhcp.Message.{
  Message, Dhcproto, IsOptionMap, DhcpOption, MessageType, code_of, boot_request, discover, request,
  decline, message_type, requested_ip_address, parameter_request_list,
}
use rack_director.Dhcp.DeviceResolution.{DeviceRow}
use rack_director.Dhcp.Handler.{DhcpHandler, Db, director_device_resolver}

abbrev pub request_of : MessageType → List DhcpOption → Message (List DhcpOption)
request_of type rest = record {
  opcode = boot_request;
  xid = 7;
  flags = 0;
  ciaddr = 0;
  yiaddr = 0;
  siaddr = 0;
  giaddr = 0;
  chaddr = 2 ∷ 171 ∷ [];
  opts = message_type type ∷ rest;
}

abbrev pub discovers : Message (List DhcpOption)
discovers = request_of discover (parameter_request_list (66 ∷ 67 ∷ []) ∷ [])

-- A request for 10.0.0.3.
abbrev pub requests : Message (List DhcpOption)
requests = request_of request (requested_ip_address 167772163 ∷ [])

abbrev pub declines : Message (List DhcpOption)
declines = request_of decline []

-- Packets of one byte.
abbrev decoded : Bytes → Option (Message (List DhcpOption))
decoded [] = none
decoded (c ∷ _) =
    if c == 1
    then some discovers
    else if c == 2
    then some requests
    else if c == 3
    then some declines
    else none

-- Options as a list, the newest first.
abbrev pub protocol : Dhcproto (List DhcpOption)
protocol = record {
  default_message = record {
    opcode = boot_request;
    xid = 0;
    flags = 0;
    ciaddr = 0;
    yiaddr = 0;
    siaddr = 0;
    giaddr = 0;
    chaddr = [];
    opts = [];
  };
  insert = λ o m. o ∷ m;
  get = λ c m. find (λ o. code_of o == c) m;
  iter = λ m. m;
  decode = decoded;
  encode = λ m. some (m.yiaddr ∷ []);
  uuid_from_bytes_le = λ s. 0;
}

pub protocol-IsOptionMap : IsOptionMap protocol
protocol-IsOptionMap = record { get-insert = λ c o m. refl }

abbrev pub server : DhcpHandler (List DeviceRow) (List DhcpOption)
server = record {
  device_resolver = director_device_resolver;
  boot_config = record {
    tftp_server = codes "10.0.0.1";
    http_server = codes "http://10.0.0.1";
    filesize = λ file. some 40000000;
  };
  server_identifier = 167772161;
  dhcproto = protocol;
  interface_addresses = λ i. some (167772161 ∷ []);
}

abbrev pub lan : DhcpNetwork
lan = record {
  id = 1;
  name = codes "lan";
  subnet = codes "10.0.0.0/24";
  gateway = codes "10.0.0.1";
  dns_servers = [];
  lease_duration = 60;
  relay_agent_address = none;
}

-- 10.0.0.1 is leased to another device, 10.0.0.2 is reserved for one.
abbrev pub tables : Tables
tables = record {
  leases =
      record {
        mac_address = codes "aa";
        ip_address = codes "10.0.0.1";
        device_uuid = none;
        lease_start = 10;
        lease_end = 50;
        state = active;
        network_id = some 1;
      }
      ∷ [];
  reservations =
      record { network_id = 1; mac_address = codes "bb"; ip_address = codes "10.0.0.2" } ∷ [];
  pools =
      record {
        network_id = 1;
        name = codes "p";
        range_start = codes "10.0.0.1";
        range_end = codes "10.0.0.3";
      }
      ∷ [];
  networks = lan ∷ [];
}

abbrev pub database : Db (List DeviceRow)
database = record { tables = tables; devices = [] }

some-injective : {x y : ℕ} → ◌≡◌ {A = Option ℕ} (some x) (some y) → x ≡ y
some-injective h = cc

pub tables-IsConsistent : IsConsistent 10 tables
unfolding parse_ipv4 is_expired
tables-IsConsistent = record {
  one_holder = holder;
  reserved = λ n a m m' p q. absurd (apart n a m m' p q);
  one_reservation = reservation;
}
  where
    holder :
        (n a : ℕ) (m m' : Bytes)
        → Any (Holds 10 n a m) tables.leases
        → Any (Holds 10 n a m') tables.leases
        → m ≡ m'
    holder n a m m' (head_has p) (head_has q) = sym p.by_mac ∙ q.by_mac
    holder n a m m' (head_has p) (tail_has q) = elim q [ ]
    holder n a m m' (tail_has p) q = elim p [ ]

    apart :
        (n a : ℕ) (m m' : Bytes)
        → Any (Holds 10 n a m) tables.leases
        → Any (Reserves n a m') tables.reservations
        → ⊥
    apart n a m m' (head_has p) (head_has q) =
        let clash = some-injective (p.address ∙ sym q.address) in omega (arith, clash)
    apart n a m m' (head_has p) (tail_has q) = elim q [ ]
    apart n a m m' (tail_has p) q = elim p [ ]

    reservation :
        (n a : ℕ) (m m' : Bytes)
        → Any (Reserves n a m) tables.reservations
        → Any (Reserves n a m') tables.reservations
        → m ≡ m'
    reservation n a m m' (head_has p) (head_has q) = sym p.for_mac ∙ q.for_mac
    reservation n a m m' (head_has p) (tail_has q) = elim q [ ]
    reservation n a m m' (tail_has p) q = elim p [ ]
