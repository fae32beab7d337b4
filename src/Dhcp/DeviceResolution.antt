-- ===== src/Dhcp/DeviceResolution.antt =====
-- dhcp/device_resolution.rs: the device behind a MAC address, over the statements of
-- director/store.rs that it makes. Of a device's attributes only the interfaces and the management
-- controller (BMC) are kept, and of an interface what is read here.
use rack_director.Prelude.{
  ℕ, Bool, true, false, Option, none, some, List, [], ◌∷◌, Bytes, codes, str_eq, ◌==◌,
  if◌then◌else◌, any, find, map,
}

pub record NetworkInterface : Type 0 where
  pub interface_name : Bytes
  pub mac_address : Bytes
  pub ip_address : Option Bytes
  pub disabled : Bool
  pub warning_label : Option Bytes

pub record BmcInfo : Type 0 where
  pub mac_address : Bytes
  pub ip_address : Option Bytes

pub record DeviceRow : Type 0 where
  pub uuid : ℕ
  pub network_interfaces : List NetworkInterface
  pub bmc : Option BmcInfo

abbrev pub is_uuid : ℕ → DeviceRow → Bool
is_uuid uuid d = d.uuid == uuid

abbrev pub has_address : Bytes → NetworkInterface → Bool
has_address mac i = str_eq i.mac_address mac

abbrev is_bmc : Bytes → Option BmcInfo → Bool
is_bmc mac none = false
is_bmc mac (some b) = str_eq b.mac_address mac

abbrev uuid_of : Option DeviceRow → Option ℕ
uuid_of none = none
uuid_of (some d) = some d.uuid

unfoldable pub device_exists : List DeviceRow → ℕ → Bool
device_exists ds uuid = any (is_uuid uuid) ds

unfoldable pub find_device_by_mac : List DeviceRow → Bytes → Option ℕ
find_device_by_mac ds mac = uuid_of (find (λ d. any (has_address mac) d.network_interfaces) ds)

unfoldable pub find_device_by_bmc_mac : List DeviceRow → Bytes → Option ℕ
find_device_by_bmc_mac ds mac = uuid_of (find (λ d. is_bmc mac d.bmc) ds)

abbrev interfaces_of : Option DeviceRow → List NetworkInterface
interfaces_of none = []
interfaces_of (some d) = d.network_interfaces

unfoldable pub get_network_interfaces : List DeviceRow → ℕ → List NetworkInterface
get_network_interfaces ds uuid = interfaces_of (find (is_uuid uuid) ds)

-- The interface with the address is given the IP; one is added if there is none.
unfoldable pub set_interface_ip : Bytes → Bytes → List NetworkInterface → List NetworkInterface
set_interface_ip ip mac [] =
    record {
      interface_name = codes "unknown";
      mac_address = mac;
      ip_address = some ip;
      disabled = false;
      warning_label = none;
    }
    ∷ []
set_interface_ip ip mac (i ∷ is) =
    if has_address mac i
    then record i { ip_address = some ip } ∷ is
    else i ∷ set_interface_ip ip mac is

abbrev set_bmc_ip : Bytes → Option BmcInfo → Option BmcInfo
set_bmc_ip ip none = none
set_bmc_ip ip (some b) = some (record b { ip_address = some ip })

unfoldable pub set_row_ip : Bytes → Bytes → DeviceRow → DeviceRow
unfolding set_interface_ip
set_row_ip ip mac d =
    if is_bmc mac d.bmc
    then record d { bmc = set_bmc_ip ip d.bmc }
    else record d { network_interfaces = set_interface_ip ip mac d.network_interfaces }

unfoldable pub set_ip_address : List DeviceRow → ℕ → Bytes → Bytes → List DeviceRow
unfolding set_row_ip
set_ip_address ds uuid ip mac = map (λ d. if is_uuid uuid d then set_row_ip ip mac d else d) ds

pub record DeviceContext : Type 0 where
  pub device_uuid : Option ℕ
  pub is_disabled : Bool
  pub disable_reason : Option Bytes

abbrev or_else : Option ℕ → Option ℕ → Option ℕ
or_else none later = later
or_else (some uuid) later = some uuid

abbrev by_guid : List DeviceRow → Option ℕ → Option ℕ
by_guid ds none = none
by_guid ds (some guid) = if device_exists ds guid then some guid else none

unfoldable pub resolve_device : List DeviceRow → Bytes → Option ℕ → Option ℕ
unfolding device_exists find_device_by_mac find_device_by_bmc_mac
resolve_device ds mac guid =
    or_else (by_guid ds guid) (or_else (find_device_by_mac ds mac) (find_device_by_bmc_mac ds mac))

abbrev context_of : Option ℕ → Option NetworkInterface → DeviceContext
context_of uuid none = record { device_uuid = uuid; is_disabled = false; disable_reason = none }
context_of uuid (some i) =
    if i.disabled
    then record { device_uuid = uuid; is_disabled = true; disable_reason = i.warning_label }
    else record { device_uuid = uuid; is_disabled = false; disable_reason = none }

abbrev interface_for : List DeviceRow → Bytes → Option ℕ → Option NetworkInterface
interface_for ds mac none = none
interface_for ds mac (some uuid) = find (has_address mac) (get_network_interfaces ds uuid)

unfoldable pub resolve : List DeviceRow → Bytes → Option ℕ → DeviceContext
unfolding resolve_device get_network_interfaces
resolve ds mac guid =
    let uuid = resolve_device ds mac guid in context_of uuid (interface_for ds mac uuid)
