-- ===== src/Dhcp/Handler/Replies.antt =====
-- dhcp/message_builder.rs: what the replies say.
mod Boot
use rack_director.Prelude.{
  ℕ, ◌≡◌, ◌≢◌, Bool, true, false, not, ◌&&◌, Option, none, some, List, [], ◌∷◌, Bytes,
  if◌then◌else◌, Result, ok, err, ok_or, ◌>>=◌, >>=-eq-ok, ok-injective, refl, sym, ap, subst, ◌∙◌,
  arith, is_empty, Bool-cases, ◌==◌,
}
use rack_director.Dhcp.Ipv4.{parse_ipv4}
use rack_director.Dhcp.Store.{DhcpNetwork}
use rack_director.Dhcp.Subnet.{Ipv4Subnet, parse_subnet, netmask}
use rack_director.Dhcp.Message.{
  Message, MessageType, Dhcproto, IsOptionMap, DhcpOption, message_type, offer, ack, nak, router,
  subnet_mask, domain_name_server, add, code_of, bootfile_name, tftp_server_name, boot_file_size,
  address_lease_time, class_identifier, server_identifier,
}
use rack_director.Dhcp.Request.{RequestContext}
use rack_director.Dhcp.BootConfig.{
  BootConfigProvider, BootOptions, apply_boot_options, populate_boot_options, options_for,
  method_of, script_options, with_server_name, with_size, with_next_server, set_siaddr,
}
use rack_director.Dhcp.MessageBuilder.{
  DhcpError, map_err, add_network_options, build_offer, build_ack, build_nak, parse_servers,
  not_an_address, create_base_reply, determine_vendor_class_identifier,
}
use Boot.{Kept, populate-kept, servers-kept}

module _ {Options : Type 0} (d : Dhcproto Options) where
  -- The network's texts parse.
  abbrev pub Parses : DhcpNetwork → Type 0
  Parses network =
      (s : Ipv4Subnet) × (g : ℕ) × (map_err (parse_subnet network.subnet) ≡ ok s)
      × (ok_or (parse_ipv4 network.gateway) not_an_address ≡ ok g)

  network-Parses :
      (msg m : Message Options) (network : DhcpNetwork)
      → add_network_options d msg network ≡ ok m
      → Parses network
  unfolding add_network_options
  network-Parses msg m network h =
      let (s, p, h1) = >>=-eq-ok (map_err (parse_subnet network.subnet)) _ m h in
      let (g, q, _) = >>=-eq-ok (ok_or (parse_ipv4 network.gateway) not_an_address) _ m h1 in
      (s, g, p, q)

  network-kept :
      (msg : Message Options) (network : DhcpNetwork)
      → Parses network
      → (m : Message Options) × (add_network_options d msg network ≡ ok m)
        × ((P : Message Options → Type 0) → Kept d P → P msg → P m)
  unfolding add_network_options
  network-kept msg network (s, g, p, q) = (
    _,
    rw (p, q) refl,
    λ P k start. servers-kept d k (parse_servers network.dns_servers) _ (
        k.on_add (router (g ∷ [])) _ refl refl
          (k.on_add (subnet_mask (netmask s)) msg refl refl start)),
  )

  kept_yiaddr : (ip : ℕ) → Kept d (λ m. m.yiaddr ≡ ip)
  kept_yiaddr ip = record { on_add = λ o m c e p. p; on_siaddr = λ i m p. p }

  abbrev pub HasType : MessageType → Message Options → Type 0
  HasType type m = d.get 53 m.opts ≡ some (message_type type)

  -- The time for which a reply gives the address.
  abbrev pub HasTime : ℕ → Message Options → Type 0
  HasTime n m = d.get 51 m.opts ≡ some (address_lease_time n)

  module _ (laws : IsOptionMap d) where
    kept_type : (type : MessageType) → Kept d (HasType type)
    kept_type type = record {
      on_add = λ o m c e p. laws.get-insert 53 o m.opts ∙ rw c p;
      on_siaddr = λ i m p. p;
    }

    kept_time : (n : ℕ) → Kept d (HasTime n)
    kept_time n = record {
      on_add = λ o m c e p. laws.get-insert 51 o m.opts ∙ rw e p;
      on_siaddr = λ i m p. p;
    }

    set_type :
        (type : MessageType) (m : Message Options) → HasType type (add d (message_type type) m)
    set_type type m = laws.get-insert 53 (message_type type) m.opts

    module _ (boot : BootConfigProvider) (req : Message Options) (ip : ℕ) (network : DhcpNetwork)
        (r : RequestContext) (id : ℕ) where
      abbrev base : Message Options
      base = record (create_base_reply d req id) { yiaddr = ip }

      abbrev typed : Message Options
      typed = add d (server_identifier id) (add d (message_type offer) base)

      abbrev timed : Message Options
      timed = add d (address_lease_time network.lease_duration) typed

      abbrev classed : Message Options
      classed = add d (class_identifier (determine_vendor_class_identifier r.client_arch)) timed

      -- An offer and an acknowledgement, where the network's texts parse.
      pub build_offer-Parses :
          Parses network
          → (m : Message Options) × (build_offer d boot req ip network r id ≡ ok m)
            × (m.yiaddr ≡ ip)
            × HasType offer m
            × HasTime network.lease_duration m
      unfolding build_offer
      build_offer-Parses fine =
          let (m, e, kept) = network-kept classed network fine in
          (
            populate_boot_options d boot r m,
            rw e refl,
            populate-kept d (kept_yiaddr ip) boot r m
                (kept (λ m. m.yiaddr ≡ ip) (kept_yiaddr ip) refl),
            populate-kept d k boot r m (kept (HasType offer) k start),
            populate-kept d kt boot r m (kept (HasTime network.lease_duration) kt start_time),
          )
        where
          k : Kept d (HasType offer)
          k = kept_type offer

          kt : Kept d (HasTime network.lease_duration)
          kt = kept_time network.lease_duration

          start : HasType offer classed
          start =
              k.on_add (class_identifier (determine_vendor_class_identifier r.client_arch)) timed
                refl refl
                (laws.get-insert 53 (address_lease_time network.lease_duration) typed.opts
                  ∙ k.on_add (server_identifier id) (add d (message_type offer) base) refl refl
                      (set_type offer base))

          start_time : HasTime network.lease_duration classed
          start_time =
              kt.on_add (class_identifier (determine_vendor_class_identifier r.client_arch)) timed
                refl refl
                (laws.get-insert 51 (address_lease_time network.lease_duration) typed.opts)

      pub build_ack-Parses :
          Parses network
          → (m : Message Options) × (build_ack d boot req ip network r id ≡ ok m)
            × (m.yiaddr ≡ ip)
            × HasType ack m
            × HasTime network.lease_duration m
      unfolding build_ack
      build_ack-Parses fine =
          let (m, e, addr, _, time) = build_offer-Parses fine in
          (
            add d (message_type ack) m,
            rw e refl,
            addr,
            set_type ack m,
            laws.get-insert 51 (message_type ack) m.opts ∙ time,
          )

      offer-Parses :
          (m : Message Options) → build_offer d boot req ip network r id ≡ ok m → Parses network
      unfolding build_offer
      offer-Parses m h =
          let (m', e, _) = >>=-eq-ok (add_network_options d classed network) _ m h in
          network-Parses classed m' network e

      pub build_offer-ok :
          (m : Message Options)
          → build_offer d boot req ip network r id ≡ ok m
          → Parses network × (m.yiaddr ≡ ip) × HasType offer m × HasTime network.lease_duration m
      build_offer-ok m h =
          let fine = offer-Parses m h in
          let (m', e, addr, type, time) = build_offer-Parses fine in
          let same_message : m' ≡ m = ok-injective (sym e ∙ h) in
          (
            fine,
            subst (λ (z : Message Options). z.yiaddr ≡ ip) same_message addr,
            subst (HasType offer) same_message type,
            subst (HasTime network.lease_duration) same_message time,
          )

      pub build_ack-ok :
          (m : Message Options)
          → build_ack d boot req ip network r id ≡ ok m
          → Parses network × (m.yiaddr ≡ ip) × HasType ack m × HasTime network.lease_duration m
      unfolding build_ack
      build_ack-ok m h =
          let (m', e, _) = >>=-eq-ok (build_offer d boot req ip network r id) _ m h in
          let fine = offer-Parses m' e in
          let (m2, e2, addr, type, time) = build_ack-Parses fine in
          let same_message : m2 ≡ m = ok-injective (sym e2 ∙ h) in
          (
            fine,
            subst (λ (z : Message Options). z.yiaddr ≡ ip) same_message addr,
            subst (HasType ack) same_message type,
            subst (HasTime network.lease_duration) same_message time,
          )

    pub build_nak-HasType : (req : Message Options) (id : ℕ) → HasType nak (build_nak d req id)
    unfolding build_nak
    build_nak-HasType req id =
        (kept_type nak).on_add (server_identifier id)
          (add d (message_type nak) (create_base_reply d req id)) refl refl
          (set_type nak (create_base_reply d req id))
