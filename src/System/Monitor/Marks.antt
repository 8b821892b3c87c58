-- ===== src/System/Monitor/Marks.antt =====
-- The failures of a node's checks, the callbacks of a round, and what GET /nodes makes of them.
use torua.Base.{
  ◌≡◌, ◌∙◌, ℕ, ◌<◌, leb, nat_beq, refl, Str, List, [], ◌∷◌, Option, none, some, Bool, true, false,
  ◌||◌, get, contains, map, if◌then◌else◌, ◌==◌, str_eq, str_beq_iff, arith, ascii, ap, Bool-cases,
  inl, inr, Map,
}
use torua.Cluster.{NodeInfo}
use torua.Health.{
  NodeHealth, HealthMonitor, Probe, Status, unknown, status_text, update_record, find_or_new,
}
use torua.Health.History.{failures, status_of, any_success}
use torua.Coordinator.{
  Server, node_exists, unhealthy_text, on_unhealthy, mark_in, mark_node_unhealthy,
  auto_assign_shards,
}
use torua.Coordinator.Nodes.{IsDistinct, mark_in-IsDistinct, node_exists-mark_in}
use torua.Coordinator.Listing.{find_node, status_at, shown_status}
use torua.System.Monitor.{fire}

-- Did the failures in a row reach the limit at some time of the history?
unfoldable pub has_reached : ℕ → List Probe → Bool
has_reached max [] = false
has_reached max (p ∷ ps) =
    let before = has_reached max ps in if leb max (failures (p ∷ ps)) then true else before

-- The checks of one node in the ticks.
unfoldable pub checks_of : Str → List (Str → Probe) → List Probe
checks_of k = map (λ probe. probe k)

-- The counter and the status of a record, and those that a new record has.
abbrev pub fails_of : Option NodeHealth → ℕ
fails_of none = 0
fails_of (some n) = n.consecutive_fails

abbrev pub recorded : Option NodeHealth → Status
recorded none = unknown
recorded (some n) = n.status

pub update_record_lem :
    (h : HealthMonitor) (k : Str) (o : Option NodeHealth) (p : Probe) (ps : List Probe)
    → 0 < h.max_failures
    → fails_of o ≡ failures ps
    → recorded o ≡ status_of h.max_failures ps
    → (fails_of (some (update_record h (find_or_new o k p) p).0) ≡ failures (p ∷ ps))
      × (recorded (some (update_record h (find_or_new o k p) p).0)
          ≡ status_of h.max_failures (p ∷ ps))
      × ((update_record h (find_or_new o k p) p).1
          ≡ (if h.has_callback then nat_beq (failures (p ∷ ps)) h.max_failures else false))
unfolding update_record find_or_new failures status_of any_success
update_record_lem h k none p ps m f s = ground arith
update_record_lem h k (some n) p ps m f s = ground arith

pub reached_now :
    (max : ℕ) (ps : List Probe) → 0 < max → leb max (failures ps) ≡ true → has_reached max ps ≡ true
unfolding failures has_reached
reached_now max [] m e = ground arith
reached_now max (p ∷ ps) m e = ground arith

-- The limit is reached by the check at which the counter is equal to it.
pub has_reached_lem :
    (max : ℕ) (p : Probe) (ps : List Probe)
    → 0 < max
    → has_reached max (p ∷ ps) ≡ (nat_beq (failures (p ∷ ps)) max || has_reached max ps)
unfolding has_reached failures
has_reached_lem max p ps m = ground (arith, reached_now max ps m)

status-mark_in :
    (ns : List NodeInfo) (id k : Str)
    → node_exists ns k ≡ true
    → status_at (find_node (mark_in ns id) k)
      ≡ (if id == k then some unhealthy_text else status_at (find_node ns k))
unfolding mark_in node_exists find_node
status-mark_in [] id k e = ground arith
status-mark_in (n ∷ ns) id k e =
    ground
      (arith, status-mark_in ns id k, str_beq_iff n.id id, str_beq_iff id k, str_beq_iff n.id k)

-- The callbacks of a round leave the monitor and the nodes' IDs alone, and mark the nodes of the list.
pub record IsMarked (s s' : Server) (marked : Bool) (k : Str) : Type 0 where
  pub monitor : s'.monitor ≡ s.monitor
  pub distinct : IsDistinct s'.nodes
  pub exists : node_exists s'.nodes k ≡ true
  pub status :
      status_at (find_node s'.nodes k)
      ≡ (if marked then some unhealthy_text else status_at (find_node s.nodes k))

pub fire-IsMarked :
    (ids : List Str) (s : Server) (k : Str)
    → IsDistinct s.nodes
    → node_exists s.nodes k ≡ true
    → IsMarked s (fire s ids) (contains ids k) k
unfolding fire contains on_unhealthy mark_node_unhealthy auto_assign_shards
fire-IsMarked [] s k d e = record { monitor = refl; distinct = d; exists = e; status = refl }
fire-IsMarked (id ∷ ids) s k d e =
    let rest =
      fire-IsMarked ids (on_unhealthy s id) k (mark_in-IsDistinct s.nodes id d)
        (node_exists-mark_in s.nodes id k ∙ e) in
    record {
      monitor = rest.monitor;
      distinct = rest.distinct;
      exists = rest.exists;
      status = rest.status ∙ ground (arith, status-mark_in s.nodes id k e);
    }

recorded_text :
    (o : Option NodeHealth)
    → elim o [ none ↦ ascii "unknown" | some h ↦ status_text h.status ] ≡ status_text (recorded o)
unfolding status_text
recorded_text none = refl
recorded_text (some n) = refl

shown_status_lem :
    (health : Map Str NodeHealth) (n : NodeInfo)
    → shown_status health n ≡ (
        if n.status == unhealthy_text
        then unhealthy_text
        else status_text (recorded (get health n.id)))
unfolding shown_status status_text
shown_status_lem health n = elim (Bool-cases (n.status == unhealthy_text)) [
  | inl t ↦ rw t refl
  | inr f ↦ rw f (recorded_text (get health n.id))
]

pub shown-found :
    (health : Map Str NodeHealth) (ns : List NodeInfo) (k t : Str)
    → status_at (find_node ns k) ≡ some t
    → elim (find_node ns k) [ none ↦ none | some n ↦ some (shown_status health n) ]
      ≡ some (if t == unhealthy_text then unhealthy_text else status_text (recorded (get health k)))
unfolding find_node
shown-found health [] k t e = ground arith
shown-found health (n ∷ ns) k t e =
    let named : n.id == k ≡ true → n.status ≡ t = λ q. ground arith in
    elim (Bool-cases (n.id == k)) [
      | inr f ↦ rw f (shown-found health ns k t (ground arith))
      | inl q ↦
          rw q (ap some (shown_status_lem health n ∙ rw (named q, (str_beq_iff n.id k).0 q) refl))
    ]
