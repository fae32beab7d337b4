-- ===== src/Dhcp/Interface.antt =====
-- dhcp/interface.rs: which network a packet belongs to. The addresses of the machine's interfaces
-- are a parameter.
use rack_director.Prelude.{
  ℕ, Option, none, some, List, [], ◌∷◌, if◌then◌else◌, find, Result, ok, ◌>>=◌,
}
use rack_director.Dhcp.Store.{DhcpNetwork}
use rack_director.Dhcp.Subnet.{parse_subnet, ip_in_range}
use rack_director.Dhcp.MessageBuilder.{DhcpError, map_err}

abbrev pub matched :
    DhcpNetwork
    → Option ℕ
    → Result DhcpError (Option (DhcpNetwork × ℕ))
    → Result DhcpError (Option (DhcpNetwork × ℕ))
matched n none later = later
matched n (some ip) later = ok (some (n, ip))

unfoldable pub find_matching_l2_network :
    List ℕ → List DhcpNetwork → Result DhcpError (Option (DhcpNetwork × ℕ))
find_matching_l2_network local_ips [] = ok none
find_matching_l2_network local_ips (n ∷ ns) =
    let later = find_matching_l2_network local_ips ns in
    map_err (parse_subnet n.subnet) >>= (λ s. matched n (find (ip_in_range s) local_ips) later)

unfoldable pub find_l2_network_for_ip : ℕ → List DhcpNetwork → Result DhcpError (Option DhcpNetwork)
find_l2_network_for_ip local_ip [] = ok none
find_l2_network_for_ip local_ip (n ∷ ns) =
    let later = find_l2_network_for_ip local_ip ns in
    map_err (parse_subnet n.subnet) >>= (λ s. if ip_in_range s local_ip then ok (some n) else later)
