-- ===== src/Dhcp/Handler/Replies/Boot.antt =====
-- dhcp/boot_config.rs: what the boot options and the name servers leave alone.
use rack_director.Prelude.{
  ℕ, ◌≡◌, Bool, true, false, not, ◌&&◌, Option, none, some, List, [], ◌∷◌, Bytes, if◌then◌else◌,
  refl, is_empty, ◌==◌,
}
use rack_director.Dhcp.Ipv4.{parse_ipv4}
use rack_director.Dhcp.Message.{
  Message, Dhcproto, DhcpOption, domain_name_server, add, code_of, bootfile_name, tftp_server_name,
  boot_file_size,
}
use rack_director.Dhcp.Request.{RequestContext}
use rack_director.Dhcp.BootConfig.{
  BootConfigProvider, BootOptions, apply_boot_options, populate_boot_options, options_for,
  method_of, script_options, with_server_name, with_size, with_next_server, set_siaddr,
}

module _ {Options : Type 0} (d : Dhcproto Options) where
  -- What only the message type and the lease time change.
  pub record Kept (P : Message Options → Type 0) : Type 0 where
    pub on_add :
        (o : DhcpOption) (msg : Message Options)
        → (code_of o == 53) ≡ false
        → (code_of o == 51) ≡ false
        → P msg
        → P (add d o msg)
    pub on_siaddr : (ip : ℕ) (msg : Message Options) → P msg → P (record msg { siaddr = ip })

  module _ {P : Message Options → Type 0} (k : Kept P) where
    named-kept :
        (a : Bool) (s : Option Bytes) (msg : Message Options)
        → P msg
        → P (with_server_name d a s msg)
    named-kept true (some s) msg p = k.on_add (tftp_server_name s) msg refl refl p
    named-kept true none msg p = p
    named-kept false s msg p = p

    size-kept : (a : Bool) (n : Option ℕ) (msg : Message Options) → P msg → P (with_size d a n msg)
    size-kept true (some n) msg p = k.on_add (boot_file_size n) msg refl refl p
    size-kept true none msg p = p
    size-kept false n msg p = p

    siaddr-kept : (ip : Option ℕ) (msg : Message Options) → P msg → P (set_siaddr d ip msg)
    siaddr-kept none msg p = p
    siaddr-kept (some ip) msg p = k.on_siaddr ip msg p

    next-kept :
        (a : Bool) (s : Option Bytes) (msg : Message Options)
        → P msg
        → P (with_next_server d a s msg)
    next-kept true (some s) msg p = siaddr-kept (parse_ipv4 s) msg p
    next-kept true none msg p = p
    next-kept false s msg p = p

    file-kept :
        (a : Bool) (name : Bytes) (msg : Message Options)
        → P msg
        → P (if a then add d (bootfile_name name) msg else msg)
    file-kept true name msg p = k.on_add (bootfile_name name) msg refl refl p
    file-kept false name msg p = p

    apply-kept :
        (b : BootOptions) (r : RequestContext) (msg : Message Options)
        → P msg
        → P (apply_boot_options d b r msg)
    unfolding apply_boot_options
    apply-kept b r msg p = next-kept r.requested_tftp_server b.next_server _ (
        size-kept r.requested_bootfile_size b.file_size_blocks _ (
          file-kept r.requested_bootfile b.filename _
            (named-kept r.requested_tftp_server b.next_server msg p)))

    pub populate-kept :
        (boot : BootConfigProvider) (r : RequestContext) (msg : Message Options)
        → P msg
        → P (populate_boot_options d boot r msg)
    unfolding populate_boot_options
    populate-kept boot r msg p =
        go (not r.requested_tftp_server && not r.requested_bootfile) r.is_ipxe
      where
        go :
            (b c : Bool)
            → P (
                if b
                then msg
                else if c
                then apply_boot_options d (script_options boot) r msg
                else apply_boot_options d (options_for boot (method_of r.client_arch)) r msg)
        go true c = p
        go false true = apply-kept (script_options boot) r msg p
        go false false = apply-kept (options_for boot (method_of r.client_arch)) r msg p

    pub servers-kept :
        (servers : List ℕ) (msg : Message Options)
        → P msg
        → P (if is_empty servers then msg else add d (domain_name_server servers) msg)
    servers-kept [] msg p = p
    servers-kept (s ∷ ss) msg p = k.on_add (domain_name_server (s ∷ ss)) msg refl refl p
