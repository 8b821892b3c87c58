-- ===== src/Health/Tracking.antt =====
-- Which nodes the monitor tracks, and what a round does to each of them.
use torua.Base.{
  ◌≡◌, refl, Str, List, [], ◌∷◌, Option, none, some, Bool, true, false, ◌||◌, Map, get, get-put,
  contains, if◌then◌else◌, ◌==◌, str_eq, str_beq_iff, arith, ◌++◌, ◌∙◌, ==_refl, ap,
}
use torua.Cluster.{NodeInfo}
use torua.Health.{
  NodeHealth, HealthMonitor, Probe, update_record, find_or_new, check_node, check_each, node_ids,
  drop_missing, check_all_nodes,
}

abbrev pub is_tracked : Option NodeHealth → Bool
is_tracked none = false
is_tracked (some n) = true

pub get-check_node :
    (h : HealthMonitor) (node : NodeInfo) (p : Probe) (k : Str)
    → get (check_node h node p).0.nodes k ≡ (
        if node.id == k
        then some (update_record h (find_or_new (get h.nodes node.id) node.id p) p).0
        else get h.nodes k)
unfolding check_node
get-check_node h node p k = get-put h.nodes node.id k _

tracked-check_each :
    (nodes : List (NodeInfo × Probe)) (h : HealthMonitor) (k : Str)
    → is_tracked (get (check_each h nodes).0.nodes k)
      ≡ (contains (node_ids nodes) k || is_tracked (get h.nodes k))
unfolding check_each node_ids contains
tracked-check_each [] h k = refl
tracked-check_each ((node, p) ∷ rest) h k =
    ground (arith, get-check_node h node p k, tracked-check_each rest (check_node h node p).0 k)

pub get-drop_missing :
    (current : List Str) (m : Map Str NodeHealth) (k : Str)
    → get (drop_missing current m) k ≡ (if contains current k then get m k else none)
unfolding drop_missing get
get-drop_missing current [] k = ground arith
get-drop_missing current ((id, n) ∷ m) k =
    ground (arith, str_beq_iff id k, get-drop_missing current m k)

-- After a round, the monitor tracks exactly the nodes of the round.
pub tracked-check_all_nodes :
    (h : HealthMonitor) (nodes : List (NodeInfo × Probe)) (k : Str)
    → is_tracked (get (check_all_nodes h nodes).0.nodes k) ≡ contains (node_ids nodes) k
unfolding check_all_nodes
tracked-check_all_nodes h nodes k = ground (
  arith,
  get-drop_missing (node_ids nodes) (check_each h nodes).0.nodes k,
  tracked-check_each nodes h k,
)

-- A round leaves the settings of the monitor alone.
pub check_each_settings :
    (nodes : List (NodeInfo × Probe)) (h : HealthMonitor)
    → ((check_each h nodes).0.max_failures ≡ h.max_failures)
      × ((check_each h nodes).0.has_callback ≡ h.has_callback)
unfolding check_each check_node
check_each_settings [] h = (refl, refl)
check_each_settings ((node, p) ∷ rest) h = check_each_settings rest (check_node h node p).0

-- A node that is not in the round keeps its record in the loop.
get-check_each_absent :
    (nodes : List (NodeInfo × Probe)) (h : HealthMonitor) (k : Str)
    → contains (node_ids nodes) k ≡ false
    → get (check_each h nodes).0.nodes k ≡ get h.nodes k
unfolding check_each node_ids contains
get-check_each_absent [] h k e = refl
get-check_each_absent ((node, p) ∷ rest) h k e =
    ground (arith, get-check_node h node p k, get-check_each_absent rest (check_node h node p).0 k)

-- The update reads nothing of the monitor but its settings.
pub update_record_settings :
    (h : HealthMonitor) (nodes : Map Str NodeHealth) (n : NodeHealth) (p : Probe)
    → update_record (record h { nodes = nodes }) n p ≡ update_record h n p
unfolding update_record
update_record_settings h nodes n p = refl

-- The check of one node does not touch what the check of another will do.
check_node_apart :
    (h : HealthMonitor) (other node : NodeInfo) (q p : Probe)
    → (other.id == node.id) ≡ false
    → (update_record
        (check_node h other q).0
        (find_or_new (get (check_node h other q).0.nodes node.id) node.id p)
        p).0
      ≡ (update_record h (find_or_new (get h.nodes node.id) node.id p) p).0
unfolding check_node
check_node_apart h other node q p e =
    let same : get (check_node h other q).0.nodes node.id ≡ get h.nodes node.id =
      get-check_node h other q node.id ∙ rw e in
    rw same (
      ap (λ r. r.0)
        (update_record_settings h (check_node h other q).0.nodes
          (find_or_new (get h.nodes node.id) node.id p) p))

get-check_each :
    (before after : List (NodeInfo × Probe)) (h : HealthMonitor) (node : NodeInfo) (p : Probe)
    → contains (node_ids before) node.id ≡ false
    → contains (node_ids after) node.id ≡ false
    → get (check_each h (before ++ (node, p) ∷ after)).0.nodes node.id
      ≡ some (update_record h (find_or_new (get h.nodes node.id) node.id p) p).0
unfolding check_each node_ids contains
get-check_each [] after h node p b a =
    get-check_each_absent after (check_node h node p).0 node.id a
    ∙ get-check_node h node p node.id
    ∙ rw (==_refl node.id)
get-check_each ((node', p') ∷ rest) after h node p b a =
    get-check_each rest after (check_node h node' p').0 node p (ground arith) a
    ∙ ap some (check_node_apart h node' node p' p (ground arith))

contains-node_ids :
    (before after : List (NodeInfo × Probe)) (node : NodeInfo) (p : Probe)
    → contains (node_ids (before ++ (node, p) ∷ after)) node.id ≡ true
unfolding node_ids contains
contains-node_ids [] after node p = ground (arith, ==_refl node.id)
contains-node_ids ((node', p') ∷ rest) after node p =
    ground (arith, contains-node_ids rest after node p)

-- In a round in which a node's ID stands once, the node's record becomes the one that its own check
-- makes of the record it had, or of a new one. What the other nodes' checks return does not matter.
pub get-check_all_nodes :
    (before after : List (NodeInfo × Probe)) (h : HealthMonitor) (node : NodeInfo) (p : Probe)
    → contains (node_ids before) node.id ≡ false
    → contains (node_ids after) node.id ≡ false
    → get (check_all_nodes h (before ++ (node, p) ∷ after)).0.nodes node.id
      ≡ some (update_record h (find_or_new (get h.nodes node.id) node.id p) p).0
unfolding check_all_nodes
get-check_all_nodes before after h node p b a =
    get-drop_missing (node_ids (before ++ (node, p) ∷ after))
      (check_each h (before ++ (node, p) ∷ after)).0.nodes node.id
    ∙ rw (contains-node_ids before after node p) (get-check_each before after h node p b a)
