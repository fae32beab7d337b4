-- ===== src/Dhcp/MessageBuilder.antt =====
-- dhcp/message_builder.rs, and the builders of replies in dhcp/handler.rs.
use rack_director.Prelude.{
  ℕ, Option, some, List, [], ◌∷◌, Bytes, codes, ◌==◌, if◌then◌else◌, is_empty, Result, ok, err,
  ◌>>=◌, ok_or, ◌||◌,
}
use rack_director.Dhcp.Ipv4.{parse_ipv4}
use rack_director.Dhcp.Store.{DhcpNetwork}
use rack_director.Dhcp.Subnet.{Ipv4SubnetError, parse_subnet, netmask}
use rack_director.Dhcp.Allocator.{AllocationError, push}
use rack_director.Dhcp.Message.{
  Message, Dhcproto, Architecture, offer, ack, nak, boot_reply, message_type, server_identifier,
  address_lease_time, class_identifier, subnet_mask, router, domain_name_server,
  unknown_architecture, add,
}
use rack_director.Dhcp.Request.{RequestContext}
use rack_director.Dhcp.BootConfig.{BootConfigProvider, populate_boot_options}

pub data DhcpError : Type 0 where
  allocation : AllocationError → DhcpError
  subnet_error : Ipv4SubnetError → DhcpError
  not_an_address not_encoded no_interfaces : DhcpError

unfoldable pub determine_vendor_class_identifier : Option Architecture → Bytes
determine_vendor_class_identifier (some (unknown_architecture n)) =
    if (n == 14) || ((n == 15) || (n == 16)) then codes "HTTPClient" else codes "PXEServer"
determine_vendor_class_identifier _ = codes "PXEServer"

-- The texts that parse.
unfoldable pub parse_servers : List Bytes → List ℕ
parse_servers [] = []
parse_servers (s ∷ ss) = push (parse_ipv4 s) (parse_servers ss)

abbrev pub map_err : {A : Type 0} → Result Ipv4SubnetError A → Result DhcpError A
map_err (ok a) = ok a
map_err (err e) = err (subnet_error e)

module _ {Options : Type 0} (d : Dhcproto Options) where
  unfoldable pub create_base_reply : Message Options → ℕ → Message Options
  create_base_reply req siaddr = record d.default_message {
    opcode = boot_reply;
    xid = req.xid;
    chaddr = req.chaddr;
    siaddr = siaddr;
    flags = req.flags;
  }

  unfoldable pub add_network_options :
      Message Options → DhcpNetwork → Result DhcpError (Message Options)
  unfolding parse_servers
  add_network_options msg network = do
    subnet ← map_err (parse_subnet network.subnet)
    gateway ← ok_or (parse_ipv4 network.gateway) not_an_address
    let masked = add d (router (gateway ∷ [])) (add d (subnet_mask (netmask subnet)) msg)
    let servers = parse_servers network.dns_servers
    ok (if is_empty servers then masked else add d (domain_name_server servers) masked)

  unfoldable pub build_nak : Message Options → ℕ → Message Options
  unfolding create_base_reply
  build_nak req id =
      add d (server_identifier id) (add d (message_type nak) (create_base_reply req id))

  unfoldable pub build_offer :
      BootConfigProvider
      → Message Options
      → ℕ
      → DhcpNetwork
      → RequestContext
      → ℕ
      → Result DhcpError (Message Options)
  unfolding create_base_reply determine_vendor_class_identifier
  build_offer boot req ip network r id = do
    let base = record (create_base_reply req id) { yiaddr = ip }
    let typed = add d (server_identifier id) (add d (message_type offer) base)
    let timed = add d (address_lease_time network.lease_duration) typed
    let classed = add d (class_identifier (determine_vendor_class_identifier r.client_arch)) timed
    full ← add_network_options classed network
    ok (populate_boot_options d boot r full)

  unfoldable pub build_ack :
      BootConfigProvider
      → Message Options
      → ℕ
      → DhcpNetwork
      → RequestContext
      → ℕ
      → Result DhcpError (Message Options)
  build_ack boot req ip network r id = do
    msg ← build_offer boot req ip network r id
    ok (add d (message_type ack) msg)
