-- ===== src/Plans/Actions.antt =====
-- plans/actions/mod.rs: the actions of a plan.
use rack_director.Prelude.{Bool, true, false}

pub data Action : Type 0 where
  discover_hardware configure_bmc install_os partition_disks reboot_device console : Action

-- An action that is done once the device boots.
unfoldable pub advance_on_boot : Action → Bool
advance_on_boot reboot_device = true
advance_on_boot _ = false
