-- ===== src/Dhcp/BootConfig.antt =====
-- dhcp/boot_config.rs: the boot options of a reply. The sizes of boot files are a parameter.
pub mod Choice
use rack_director.Prelude.{
  ℕ, ◌+◌, ◌/◌, ◌%◌, ◌^◌, Bool, true, false, ◌&&◌, ◌||◌, not, Option, none, some, ◌++◌, Bytes, codes,
  ◌==◌, if◌then◌else◌,
}
use rack_director.Dhcp.Ipv4.{parse_ipv4}
use rack_director.Dhcp.Message.{
  Message, Architecture, bc, unknown_architecture, named_architecture, Dhcproto, DhcpOption,
  tftp_server_name, bootfile_name, boot_file_size, add,
}
use rack_director.Dhcp.Request.{RequestContext}

pub record BootOptions : Type 0 where
  pub next_server : Option Bytes
  pub filename : Bytes
  pub file_size_blocks : Option ℕ

-- `filesize` gives none where the provider fails.
pub record BootConfigProvider : Type 0 where
  pub tftp_server : Bytes
  pub http_server : Bytes
  pub filesize : Bytes → Option ℕ

-- `as u16` drops the high bits.
abbrev pub blocks_of : Option ℕ → Option ℕ
blocks_of none = none
blocks_of (some size_bytes) = some ((size_bytes + 511) / 512 % 2 ^ 16)

unfoldable pub lookup_file_size_blocks : BootConfigProvider → Bytes → Option ℕ
lookup_file_size_blocks p filename = blocks_of (p.filesize filename)

-- The three branches by architecture.
pub data BootMethod : Type 0 where
  http_boot uefi_tftp bios_tftp : BootMethod

abbrev is_http : ℕ → Bool
is_http n = (n == 15) || ((n == 16) || (n == 17))

unfoldable pub method_of : Option Architecture → BootMethod
method_of (some bc) = uefi_tftp
method_of (some (unknown_architecture n)) =
    if is_http n then http_boot else if n == 11 then uefi_tftp else bios_tftp
method_of (some (named_architecture n)) = bios_tftp
method_of none = bios_tftp

unfoldable pub options_for : BootConfigProvider → BootMethod → BootOptions
unfolding lookup_file_size_blocks
options_for p http_boot = record {
  next_server = none;
  filename = p.http_server ++ codes "/cnc/boot/snponly.efi";
  file_size_blocks = lookup_file_size_blocks p (codes "snponly.efi");
}
options_for p uefi_tftp = record {
  next_server = some p.tftp_server;
  filename = codes "snponly.efi";
  file_size_blocks = lookup_file_size_blocks p (codes "snponly.efi");
}
options_for p bios_tftp = record {
  next_server = some p.tftp_server;
  filename = codes "undionly.kpxe";
  file_size_blocks = lookup_file_size_blocks p (codes "undionly.kpxe");
}

unfoldable pub script_options : BootConfigProvider → BootOptions
script_options p = record {
  next_server = none;
  filename = p.http_server ++ codes "/cnc/ipxe";
  file_size_blocks = none;
}

module _ {Options : Type 0} (d : Dhcproto Options) where
  abbrev pub with_server_name : Bool → Option Bytes → Message Options → Message Options
  with_server_name true (some s) msg = add d (tftp_server_name s) msg
  with_server_name _ _ msg = msg

  abbrev pub with_size : Bool → Option ℕ → Message Options → Message Options
  with_size true (some blocks) msg = add d (boot_file_size blocks) msg
  with_size _ _ msg = msg

  abbrev pub set_siaddr : Option ℕ → Message Options → Message Options
  set_siaddr none msg = msg
  set_siaddr (some ip) msg = record msg { siaddr = ip }

  abbrev pub with_next_server : Bool → Option Bytes → Message Options → Message Options
  with_next_server true (some s) msg = set_siaddr (parse_ipv4 s) msg
  with_next_server _ _ msg = msg

  unfoldable pub apply_boot_options :
      BootOptions → RequestContext → Message Options → Message Options
  apply_boot_options b r msg = with_next_server r.requested_tftp_server b.next_server (
      with_size r.requested_bootfile_size b.file_size_blocks (
        let named = with_server_name r.requested_tftp_server b.next_server msg in
        if r.requested_bootfile then add d (bootfile_name b.filename) named else named))

  unfoldable pub populate_boot_options :
      BootConfigProvider → RequestContext → Message Options → Message Options
  unfolding method_of options_for script_options
  populate_boot_options p r msg =
      if not r.requested_tftp_server && not r.requested_bootfile
      then msg
      else if r.is_ipxe
      then apply_boot_options (script_options p) r msg
      else apply_boot_options (options_for p (method_of r.client_arch)) r msg
