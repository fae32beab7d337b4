-- ===== src/Lib.antt =====
-- Verification of rack-director, a server that boots, discovers, provisions and retires bare-metal
-- machines: TFTP and DHCP for the network boot, plans of actions that an agent on the machine
-- reports on, a lifecycle for each device, and disk layouts for the installation.
--
-- The parts, and the files that model them (paths from the root of the repository):
--   * Tftp (rack-director/src/tftp): Options and Packet are options.rs and packet.rs, parsers and
--     printers over bytes. State is state.rs: `handle` and `handle_timeout` over the traits Handler
--     and Reader, a record of functions. Reader is the TftpReader of mod.rs, over the pieces in which
--     the operating system delivers a file. Connection is connection.rs and the loop of mod.rs, over
--     the datagrams and the timeouts that arrive. Decimal and Unicode are what Rust's text functions
--     do; what they do beyond ASCII is a parameter.
--   * BootFiles (rack-director/src/boot_files/filesystem.rs): the check of paths behind TFTP, for any
--     file system; the resolution of names is a parameter. It is a Handler of Tftp/State, and
--     BootFiles/Downloads puts the two together.
--   * Plans (rack-director/src/plans/mod.rs, plans/actions/mod.rs) and Lifecycle
--     (rack-director/src/lifecycle/mod.rs): a plan with its steps, and the states of a device.
--   * Database (plans/store.rs, lifecycle/store.rs): the tables of plans and transitions and the
--     lifecycles of devices, and the statements on them; each is a function on the tables.
--   * Director (rack-director/src/director/mod.rs): start_lifecycle_transition, on_boot,
--     mark_action_success, mark_action_failed, the completion handlers and cancel_active_transition.
--     Each is the composition of the store's statements as in the source. apply_success,
--     apply_failure and apply_boot are what follows the reading of the plan, so an interleaving of
--     reports and cancellations is a sequence of them (Director/Runs). Director/Moves is the abstract
--     view: what any of them may do to lifecycles and transitions.
--   * DiskLayout (common/src/disk_layout.rs, rack-director/src/disk_layout/validate.rs): layouts and
--     their checks, which collect errors under field paths; Validate/Spec says field by field which
--     layouts are to be accepted. DiskLayout/Resolve (disk_layout/resolve.rs, and the canonical order of
--     platforms/detection.rs): labels become the paths of the device's disks.
--   * Dhcp (rack-director/src/dhcp): Store has the tables and statements of store.rs, Allocator is
--     allocator.rs. Handler is handler.rs: each handler takes the database and gives it back with the
--     answer, so that what was written before an error stays. Request, MessageBuilder, BootConfig,
--     Interface and DeviceResolution are request.rs, message_builder.rs, boot_config.rs, interface.rs
--     and device_resolution.rs with its statements of director/store.rs; Subnet is
--     common/src/subnet.rs. Leases says who holds an address and what a packet may change; Runs puts
--     packets and removals of expired leases in sequence. The crate dhcproto, with its decoder,
--     encoder and map of options, and the addresses of the machine's interfaces are parameters.
--   * Networks (rack-director/src/http/ui): Validation is the shared part of validation.rs with
--     ValidationErrors, Requests its checks of a request that creates or changes a network, Store the
--     statements of dhcp/store.rs on networks, pools and reservations. Handlers is networks.rs: each
--     handler takes the tables and gives them back with the response and what the socket manager is
--     told. Handlers/Runs puts requests in sequence and lets the DHCP server answer after them.
--   * Agent (rack-agent/src/partition.rs): Sizes and Offsets compute where the partitions lie; the
--     arithmetic on floating-point numbers is a parameter. Commands and Layouts are the commands that
--     make a layout, as a list of steps: run_command stops at the first that fails (`execute`), and a
--     step `refuse` is an error of the agent itself. What the agent reads on the way, the sizes of
--     disks and the physical volumes, is the record Machine.
--   * Prelude holds the shared names and lemmas, Examples the concrete runs.
--
-- Bounds: u16 and u8 counters wrap as written (`% 2 ^ w`). The loop over the options of a packet runs
-- on fuel; `out_of_fuel` stands for a loop that does not end, and one more round than there are bytes
-- is enough. All other loops are structural. Plan steps and row ids are numbers, for plans of fewer
-- than 2^31 actions. `created_at` orders rows as their ids do.
--
-- A new row's id is one that the database chooses above all those before it. A DHCP packet reads the
-- clock once. Times are seconds, and a lease's end is later than the clock by comparison of numbers.
-- The sums of bytes in the agent's offsets wrap at 64 bits; the theorem asks for a disk of at most
-- 2^62 bytes, where none does.
--
-- Not modelled: sockets, SQL, HTTP and what the agent's commands do (I/O); the power control; errors
-- of the database but for the foreign key of a plan's device and the constraints on networks, pools
-- and reservations; the boot targets and the detection of platforms.
pub mod Prelude
pub mod Tftp
pub mod BootFiles
pub mod Plans
pub mod Lifecycle
pub mod Database
pub mod Director
pub mod DiskLayout
pub mod Dhcp
pub mod Networks
pub mod Agent
pub mod Examples
