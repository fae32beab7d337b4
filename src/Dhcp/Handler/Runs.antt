-- ===== src/Dhcp/Handler/Runs.antt =====
-- dhcp/handler.rs and the removal of expired leases in dhcp/mod.rs: sequences of packets.
use rack_director.Prelude.{ℕ, ◌≤◌, List, [], ◌∷◌, Bytes}
use rack_director.Dhcp.Store.{delete_expired_leases}
use rack_director.Dhcp.Leases.{
  IsConsistent, later-IsConsistent, Change, pruned, Change-IsConsistent,
}
use rack_director.Dhcp.Handler.{DhcpHandler, Db, handle_packet, handle_l2_unicast_packet}
use rack_director.Dhcp.Handler.Writes.{handle_packet-Change, handle_l2_unicast_packet-Change}

pub data Event : Type 0 where
  packet : Bytes → ℕ → ℕ × ℕ → Event
  unicast : Bytes → ℕ × ℕ → ℕ → Event
  cleanup : Event

-- The times of the events do not go back.
abbrev pub InOrder : ℕ → List (ℕ × Event) → Type 0
InOrder now [] = Unit
InOrder now ((time, _) ∷ es) = (now ≤ time) × InOrder time es

abbrev pub last_time : ℕ → List (ℕ × Event) → ℕ
last_time now [] = now
last_time now ((time, _) ∷ es) = last_time time es

module _ {D Options : Type 0} (h : DhcpHandler D Options) where
  unfoldable pub serve : ℕ → Event → Db D → Db D
  serve now (packet text if_index peer) db = (handle_packet h text if_index peer now db).0
  serve now (unicast text peer local_ip) db =
      (handle_l2_unicast_packet h text peer local_ip now db).0
  serve now cleanup db = record db { tables = delete_expired_leases now db.tables }

  unfoldable pub serve_all : List (ℕ × Event) → Db D → Db D
  unfolding serve
  serve_all [] db = db
  serve_all ((time, e) ∷ es) db = serve_all es (serve time e db)

  serve-Change : (now : ℕ) (e : Event) (db : Db D) → Change now db.tables (serve now e db).tables
  unfolding serve
  serve-Change now (packet text if_index peer) db = handle_packet-Change h text if_index peer now db
  serve-Change now (unicast text peer local_ip) db =
      handle_l2_unicast_packet-Change h text peer local_ip now db
  serve-Change now cleanup db = pruned

  -- Whatever packets arrive, whether they are answered or fail: if at first no address of a network
  -- has two running leases of different devices, a running lease of one device and a reservation
  -- for another, or reservations for two, then this is so after any sequence of packets and
  -- removals of expired leases, as long as the clock does not go back.
  pub serve_all-IsConsistent :
      (now : ℕ) (es : List (ℕ × Event)) (db : Db D)
      → InOrder now es
      → IsConsistent now db.tables
      → IsConsistent (last_time now es) (serve_all es db).tables
  unfolding serve_all
  serve_all-IsConsistent now [] db ordered c = c
  serve_all-IsConsistent now ((time, e) ∷ es) db (le, ordered) c =
      serve_all-IsConsistent time es (serve time e db) ordered (
        Change-IsConsistent time db.tables (serve time e db).tables (serve-Change time e db)
          (later-IsConsistent now time db.tables le c))
