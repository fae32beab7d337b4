-- ===== src/Examples/Offers.antt =====
-- Offers, acknowledgements and declines of the small DHCP server.
use rack_director.Prelude.{
  ℕ, ◌+◌, ◌*◌, ◌/◌, ◌-◌, ◌^◌, ◌≤◌, ◌<◌, ◌≡◌, ◌↔◌, ◌≢◌, refl, ap, sym, arith, true, false, Option,
  none, some, List, [], ◌∷◌, codes, str_eq, Result, ok,
}
use rack_director.Dhcp.Ipv4.{parse_ipv4, format_ipv4}
use rack_director.Dhcp.Store.{
  Lease, active, offered, get_lease_by_mac, get_static_reservation, is_expired,
  create_or_update_lease_with_network, list_pools_for_network, upsert_lease,
}
use rack_director.Tftp.Decimal.{from_str}
use rack_director.Dhcp.Subnet.{Ipv4Subnet, parse_subnet, ip_in_range}
use rack_director.Dhcp.Subnet.Range.{ip_in_range_iff}
use rack_director.Dhcp.Allocator.{
  allocate_for_mac_in_network, allocate_from_pools, try_pools, parse_ip_range, free_in_range,
  is_taken, active_ips, reserved_ips,
}
use rack_director.Dhcp.Message.{Message, DhcpOption, Architecture, unknown_architecture, offer}
use rack_director.Dhcp.Request.{from_message, extract_server_identifier, format_mac}
use rack_director.Dhcp.DeviceResolution.{
  DeviceRow, resolve, resolve_device, find_device_by_mac, find_device_by_bmc_mac, device_exists,
}
use rack_director.Dhcp.BootConfig.{
  lookup_file_size_blocks, populate_boot_options, apply_boot_options, options_for, method_of,
}
use rack_director.Dhcp.BootConfig.Choice.{
  lookup_file_size_blocks-bounds, determine_vendor_class_identifier-method_of, speaks_http,
  is_http_boot,
}
use rack_director.Dhcp.MessageBuilder.{
  DhcpError, build_offer, create_base_reply, add_network_options, parse_servers,
}
use rack_director.Dhcp.Handler.{
  Db, handle_discover, handle_request, offer_address, handle_release, for_other_server, requested,
}
use rack_director.Dhcp.Handler.Replies.{HasType, HasTime}
use rack_director.Dhcp.Handler.Confirm.{IsGranted, IsActive, handle_request-Acks}
use rack_director.Dhcp.Handler.Dora.{Granted, handle_request-handle_discover}
use rack_director.Dhcp.Handler.Renewals.{allocate-handle_release, handle_request-keeps_lease_end}
use rack_director.Dhcp.Handler.Runs.{packet, cleanup, serve_all, serve_all-IsConsistent}
use rack_director.Dhcp.Leases.{IsConsistent}
use rack_director.Dhcp.Leases.Lookup.{lease_of}
use rack_director.Examples.Dhcp.{
  server, lan, database, discovers, requests, declines, protocol, protocol-IsOptionMap,
  tables-IsConsistent,
}

serve_all-IsConsistent_example :
    IsConsistent 90
      (serve_all server
        ((20, packet (1 ∷ []) 0 (0, 68)) ∷ (21, packet (2 ∷ []) 0 (0, 68)) ∷ (90, cleanup) ∷ [])
        database).tables
serve_all-IsConsistent_example =
    serve_all-IsConsistent server 10
      ((20, packet (1 ∷ []) 0 (0, 68)) ∷ (21, packet (2 ∷ []) 0 (0, 68)) ∷ (90, cleanup) ∷ [])
      database (omega arith) tables-IsConsistent

abbrev Answered : Type 0
Answered = Db (List DeviceRow) × Result DhcpError (Option (Message (List DhcpOption)))

abbrev reply_of : Result DhcpError (Option (Message (List DhcpOption))) → Message (List DhcpOption)
reply_of (ok (some m)) = m
reply_of _ = discovers

abbrev after_offer : Answered
after_offer = handle_discover server discovers lan 167772161 20 database

abbrev offer_reply : Message (List DhcpOption)
offer_reply = reply_of after_offer.1

offered_third : (after_offer.1 ≡ ok (some offer_reply)) × (offer_reply.yiaddr ≡ 167772163)
unfolding handle_discover offer_address from_message format_mac resolve resolve_device
    find_device_by_mac find_device_by_bmc_mac device_exists is_expired get_lease_by_mac
    get_static_reservation parse_ipv4 format_ipv4 str_eq allocate_for_mac_in_network
    allocate_from_pools list_pools_for_network try_pools parse_ip_range free_in_range is_taken
    active_ips reserved_ips build_offer create_base_reply add_network_options parse_subnet
    parse_servers populate_boot_options apply_boot_options options_for method_of
    lookup_file_size_blocks from_str
offered_third = (refl, refl)

asks_for_third : requested (from_message protocol requests) ≡ some offer_reply.yiaddr
unfolding from_message
asks_for_third = ap some (sym offered_third.1)

same_mac : (from_message protocol requests).mac ≡ (from_message protocol discovers).mac
unfolding from_message format_mac
same_mac = refl

no_other_server : for_other_server (extract_server_identifier protocol requests) 167772161 ≡ false
unfolding extract_server_identifier
no_other_server = refl

enabled :
    (resolve after_offer.0.devices
      (from_message protocol requests).mac
      (from_message protocol requests).guid).is_disabled
    ≡ false
unfolding handle_discover offer_address from_message format_mac resolve resolve_device
    find_device_by_mac find_device_by_bmc_mac device_exists is_expired get_lease_by_mac
    get_static_reservation parse_ipv4 format_ipv4 str_eq allocate_for_mac_in_network
    allocate_from_pools list_pools_for_network try_pools parse_ip_range free_in_range is_taken
    active_ips reserved_ips
enabled = refl

handle_request-handle_discover_example :
    HasType protocol offer offer_reply
    × Granted server protocol-IsOptionMap offer_reply.yiaddr
        (handle_request server requests lan 167772161 25 after_offer.0)
handle_request-handle_discover_example =
    handle_request-handle_discover server protocol-IsOptionMap discovers requests lan 167772161 20
      25 database after_offer.0 offer_reply offered_third.0 refl same_mac asks_for_third
      no_other_server enabled

granted :
    Granted server protocol-IsOptionMap offer_reply.yiaddr
      (handle_request server requests lan 167772161 25 after_offer.0)
granted =
    (handle_request-handle_discover server protocol-IsOptionMap discovers requests lan 167772161 20
      25 database after_offer.0 offer_reply offered_third.0 refl same_mac asks_for_third
      no_other_server enabled).1

handle_request-Acks_example :
    (for_other_server (extract_server_identifier protocol requests) 167772161 ≡ false)
    × ((resolve after_offer.0.devices
          (from_message protocol requests).mac
          (from_message protocol requests).guid).is_disabled
        ≡ false)
    × (requested (from_message protocol requests) ≡ some granted.0.yiaddr)
    × IsGranted after_offer.0.tables 1 (from_message protocol requests).mac granted.0.yiaddr
    × IsActive
        (handle_request server requests lan 167772161 25 after_offer.0).0.tables
        (from_message protocol requests).mac
        granted.0.yiaddr
handle_request-Acks_example =
    handle_request-Acks server protocol-IsOptionMap requests lan 167772161 25 after_offer.0
      granted.0 (granted.1, granted.3)

stored_lease : Lease
stored_lease = lease_of (from_message protocol discovers).mac 167772163 none offered 60 1 20

not_reserved :
    get_static_reservation after_offer.0.tables 1 (from_message protocol requests).mac ≡ none
unfolding handle_discover offer_address from_message format_mac resolve resolve_device
    find_device_by_mac find_device_by_bmc_mac device_exists is_expired get_lease_by_mac
    get_static_reservation parse_ipv4 format_ipv4 str_eq allocate_for_mac_in_network
    allocate_from_pools list_pools_for_network try_pools parse_ip_range free_in_range is_taken
    active_ips reserved_ips create_or_update_lease_with_network
not_reserved = refl

lease_stored :
    get_lease_by_mac after_offer.0.tables (from_message protocol requests).mac ≡ some stored_lease
unfolding stored_lease handle_discover offer_address from_message format_mac resolve resolve_device
    find_device_by_mac find_device_by_bmc_mac device_exists is_expired get_lease_by_mac
    get_static_reservation parse_ipv4 format_ipv4 str_eq allocate_for_mac_in_network
    allocate_from_pools list_pools_for_network try_pools parse_ip_range free_in_range is_taken
    active_ips reserved_ips create_or_update_lease_with_network upsert_lease
lease_stored = refl

handle_request-keeps_lease_end_example :
    HasTime protocol 60 granted.0
    × (get_lease_by_mac
          (handle_request server requests lan 167772161 25 after_offer.0).0.tables
          (from_message protocol requests).mac
        ≡ some (record stored_lease { state = active }))
handle_request-keeps_lease_end_example =
    handle_request-keeps_lease_end server protocol-IsOptionMap requests lan 167772161 25
      after_offer.0 granted.0 stored_lease not_reserved lease_stored (granted.1, granted.3)

still_running : is_expired 40 stored_lease ≡ false
unfolding is_expired stored_lease
still_running = refl

stored_address :
    (stored_lease.network_id ≡ some 1) × (parse_ipv4 stored_lease.ip_address ≡ some 167772163)
unfolding stored_lease parse_ipv4 format_ipv4
stored_address = (refl, refl)

same_address : (format_mac declines.chaddr ≡ (from_message protocol requests).mac)
unfolding from_message format_mac
same_address = refl

allocate-handle_release_example :
    allocate_for_mac_in_network
      (handle_release server declines after_offer.0).0.tables
      (format_mac declines.chaddr)
      1
      40
    ≡ ok 167772163
allocate-handle_release_example =
    allocate-handle_release server declines after_offer.0 1 40 167772163 stored_lease
      (rw same_address not_reserved) (rw same_address lease_stored) still_running stored_address.0
      stored_address.1

-- A boot file of 40,000,000 bytes has 78,125 blocks.
lookup_file_size_blocks-bounds_example :
    (blocks : ℕ) × (lookup_file_size_blocks server.boot_config (codes "snponly.efi") ≡ some blocks)
    × (blocks < 2 ^ 16)
    × (40000000 ≤ 65535 * 512 → (40000000 ≤ blocks * 512) × (blocks * 512 < 40000000 + 512))
    × (65535 * 512 < 40000000 → blocks * 512 < 40000000)
lookup_file_size_blocks-bounds_example =
    lookup_file_size_blocks-bounds server.boot_config (codes "snponly.efi") 40000000 refl

determine_vendor_class_identifier-method_of_example :
    (speaks_http (some (unknown_architecture 14))
      ≡ is_http_boot (method_of (some (unknown_architecture 14))))
    ↔ ((◌≢◌ {A = Option Architecture}
          (some (unknown_architecture 14))
          (some (unknown_architecture 14)))
        × (◌≢◌ {A = Option Architecture}
            (some (unknown_architecture 14))
            (some (unknown_architecture 17))))
determine_vendor_class_identifier-method_of_example =
    determine_vendor_class_identifier-method_of (some (unknown_architecture 14))

abbrev subnet_24 : Ipv4Subnet
subnet_24 = record { addr = 167772161; subnet = 24 }

ip_in_range_iff_example :
    (ip_in_range subnet_24 167772163 ≡ true)
    ↔ (167772163 / 2 ^ (32 - 24) ≡ 167772161 / 2 ^ (32 - 24))
ip_in_range_iff_example =
    ip_in_range_iff subnet_24 (omega arith) 167772163 (omega arith) (omega arith)
