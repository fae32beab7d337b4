-- ===== src/Dhcp/BootConfig/Choice.antt =====
-- dhcp/boot_config.rs: which boot file a client is sent to, and with which size.
use rack_director.Prelude.{
  ℕ, ◌+◌, ◌*◌, ◌/◌, ◌%◌, ◌^◌, ◌≤◌, ◌<◌, ◌≡◌, ◌≢◌, ◌↔◌, Bool, true, false, Option, none, some, Bytes,
  codes, str_eq, refl, ap, arith,
}
use rack_director.Dhcp.Message.{Architecture, bc, unknown_architecture, named_architecture}
use rack_director.Dhcp.BootConfig.{
  BootConfigProvider, BootMethod, http_boot, method_of, lookup_file_size_blocks,
}
use rack_director.Dhcp.MessageBuilder.{determine_vendor_class_identifier}

-- The size that a client is told is right up to 65535 blocks. The size of a larger file wraps, so
-- that the client is told too few.
pub lookup_file_size_blocks-bounds :
    (p : BootConfigProvider) (file : Bytes) (size : ℕ)
    → p.filesize file ≡ some size
    → (blocks : ℕ) × (lookup_file_size_blocks p file ≡ some blocks)
      × (blocks < 2 ^ 16)
      × (size ≤ 65535 * 512 → (size ≤ blocks * 512) × (blocks * 512 < size + 512))
      × (65535 * 512 < size → blocks * 512 < size)
unfolding lookup_file_size_blocks
lookup_file_size_blocks-bounds p file size found = (
  (size + 511) / 512 % 2 ^ 16,
  rw found refl,
  omega arith,
  (λ h. omega arith),
  (λ h. omega arith),
)

abbrev pub speaks_http : Option Architecture → Bool
speaks_http arch = str_eq (determine_vendor_class_identifier arch) (codes "HTTPClient")

abbrev pub is_http_boot : BootMethod → Bool
is_http_boot http_boot = true
is_http_boot _ = false

number-cases :
    (n : ℕ)
    → ((speaks_http (some (unknown_architecture n))
          ≡ is_http_boot (method_of (some (unknown_architecture n))))
        ↔ ((n ≢ 14) × (n ≢ 17)))
unfolding determine_vendor_class_identifier method_of str_eq
number-cases n = ground arith

-- For every architecture but 14 and 17, the vendor class is that of HTTP boot exactly if the boot
-- options chosen for the architecture, for a client that is not iPXE, are those of HTTP boot; for 14
-- and 17 the two disagree.
pub determine_vendor_class_identifier-method_of :
    (arch : Option Architecture)
    → (speaks_http arch ≡ is_http_boot (method_of arch))
      ↔ ((arch ≢ some (unknown_architecture 14)) × (arch ≢ some (unknown_architecture 17)))
unfolding determine_vendor_class_identifier method_of str_eq
determine_vendor_class_identifier-method_of none = ((λ _. (λ e. cc, λ e. cc)), λ _. refl)
determine_vendor_class_identifier-method_of (some bc) = ((λ _. (λ e. cc, λ e. cc)), λ _. refl)
determine_vendor_class_identifier-method_of (some (named_architecture n)) =
    ((λ _. (λ e. cc, λ e. cc)), λ _. refl)
determine_vendor_class_identifier-method_of (some (unknown_architecture n)) = (
  (λ agree. let (a, b) = (number-cases n).0 agree in (λ e. cc, λ e. cc)),
  λ h. (number-cases n).1 (
    (λ e. h.0 (ap (λ k. some (unknown_architecture k)) e)),
    (λ e. h.1 (ap (λ k. some (unknown_architecture k)) e)),
  ),
)
