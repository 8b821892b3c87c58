-- ===== src/Coordinator/Listing.antt =====
-- GET /nodes, and what marking a node does to it.
use torua.Base.{
  ◌≡◌, refl, Str, List, [], ◌∷◌, Option, none, some, Map, get, map, if◌then◌else◌, ◌==◌, str_eq,
  str_beq_iff, arith, ascii,
}
use torua.Cluster.{NodeInfo}
use torua.Health.{NodeHealth, status_text}
use torua.Coordinator.{
  is_eligible, unhealthy_text, listed, mark_in, Server, handle_list_nodes, get_all_node_health,
}

-- The first node with the ID, as the handlers find it.
unfoldable pub find_node : List NodeInfo → Str → Option NodeInfo
find_node [] id = none
find_node (n ∷ ns) id = let rest = find_node ns id in if n.id == id then some n else rest

-- The status that GET /nodes shows for a node.
unfoldable pub shown_status : Map Str NodeHealth → NodeInfo → Str
shown_status health n =
    if is_eligible n
    then elim (get health n.id) [ none ↦ ascii "unknown" | some h ↦ status_text h.status ]
    else unhealthy_text

abbrev pub status_at : Option NodeInfo → Option Str
status_at none = none
status_at (some n) = some n.status

find-listed :
    (health : Map Str NodeHealth) (ns : List NodeInfo) (id : Str)
    → status_at (find_node (map (listed health) ns) id)
      ≡ elim (find_node ns id) [ none ↦ none | some n ↦ some (shown_status health n) ]
unfolding find_node listed shown_status
find-listed health [] id = refl
find-listed health (n ∷ ns) id =
    ground (arith, find-listed health ns id, str_beq_iff n.status unhealthy_text)

pub find-mark_in :
    (ns : List NodeInfo) (id k : Str)
    → find_node (mark_in ns id) k ≡ elim (find_node ns k) [
      | none ↦ none
      | some n ↦ if id == k then some (record n { status = unhealthy_text }) else some n
    ]
unfolding find_node mark_in
find-mark_in [] id k = refl
find-mark_in (n ∷ ns) id k =
    ground (arith, str_beq_iff n.id id, str_beq_iff id k, str_beq_iff n.id k, find-mark_in ns id k)

-- What GET /nodes shows as the status of the node with the ID.
pub shown : Server → Str → Option Str
unfolding find_node
shown s id = status_at (find_node (handle_list_nodes s) id)

-- GET /nodes shows every registered node with the status that was set by a registration or a mark
-- if that is "unhealthy", else with the monitor's status, or "unknown" where the monitor has none.
pub shown_lem :
    (s : Server) (id : Str)
    → shown s id ≡ elim (find_node s.nodes id) [
      | none ↦ none
      | some n ↦ some (shown_status (get_all_node_health s.monitor) n)
    ]
unfolding shown handle_list_nodes
shown_lem s id = find-listed (get_all_node_health s.monitor) s.nodes id
