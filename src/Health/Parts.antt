-- ===== src/Health/Parts.antt =====
-- A round of `checkAllNodes` in its locked parts, internal/coordinator/health_monitor.go: `checkNode`
-- gives up the monitor's lock while `checkFunc` runs, and the records that are left over are deleted
-- under a lock of their own. Each part takes from outside the readings of the clock that it makes,
-- and the one behind `checkFunc` what that has returned.
use torua.Health.Tracking.{is_tracked}
use mathlib.Core.List.{append-nil, append_assoc}
use torua.Base.{
  ◌≡◌, refl, ◌∙◌, sym, ap, Str, List, [], ◌∷◌, ◌++◌, Option, none, some, get, put, map, get-put,
  ==_refl, Option-cases, inl, inr, put-put, str_eq, true,
}
use torua.Cluster.{NodeInfo}
use torua.Health.{
  HealthMonitor, NodeHealth, Probe, new_record, update_record, callback_for, drop_missing,
  check_node, check_each, node_ids, check_all_nodes, find_or_new,
}

-- What is left of a round: the nodes to visit, or the node that `checkFunc` is asking and those
-- behind it, with the keys of `currentNodes`.
pub data Round : Type 0 where
  visiting : List NodeInfo → List Str → Round
  asking : NodeInfo → List NodeInfo → List Str → Round

abbrev pub begin_round : List NodeInfo → Round
begin_round nodes = visiting nodes []

-- `checkNode` up to the call of `checkFunc`.
unfoldable pub ensure_record : HealthMonitor → NodeInfo → Probe → HealthMonitor
unfolding new_record
ensure_record h node p = elim (get h.nodes node.id) [
  | none ↦ record h { nodes = put h.nodes node.id (new_record node.id p) }
  | some n ↦ h
]

-- `checkNode` behind that call. `health` points to the record of the map, which only the monitor's
-- goroutine deletes.
unfoldable pub finish_check : HealthMonitor → NodeInfo → Probe → HealthMonitor × List Str
unfolding update_record
finish_check h node p = elim (get h.nodes node.id) [
  | none ↦ (h, [])
  | some n ↦
      let (n', started) = update_record h n p in
      (record h { nodes = put h.nodes node.id n' }, callback_for started node.id)
]

-- The next part of a round: the monitor after it, the callbacks that it starts, and what is left.
unfoldable pub check_part :
    HealthMonitor → Probe → Round → (HealthMonitor × List Str) × Option Round
unfolding ensure_record finish_check
check_part h p (visiting [] seen) = ((record h { nodes = drop_missing seen h.nodes }, []), none)
check_part h p (visiting (node ∷ rest) seen) =
    ((ensure_record h node p, []), some (asking node rest (seen ++ node.id ∷ [])))
check_part h p (asking node rest seen) = (finish_check h node p, some (visiting rest seen))

-- The parts that run, each with what it takes from outside.
pub run_parts :
    List Probe → HealthMonitor → Option Round → (HealthMonitor × List Str) × Option Round
unfolding check_part
run_parts [] h left = ((h, []), left)
run_parts (p ∷ ps) h none = ((h, []), none)
run_parts (p ∷ ps) h (some r) =
    let ((h', ids), left) = check_part h p r in
    let ((h'', more), left') = run_parts ps h' left in ((h'', ids ++ more), left')

-- Two parts for each node, and the last one.
unfoldable pub twice : List (NodeInfo × Probe) → Probe → List Probe
twice [] last = last ∷ []
twice ((node, p) ∷ rest) last = p ∷ p ∷ twice rest last

-- What a check makes of the node's record.
abbrev updated : HealthMonitor → NodeInfo → NodeHealth → Probe → HealthMonitor × List Str
updated h node n p =
    let (n', started) = update_record h n p in
    (record h { nodes = put h.nodes node.id n' }, callback_for started node.id)

pub finish_check_found :
    (h : HealthMonitor) (node : NodeInfo) (n : NodeHealth) (p : Probe)
    → get h.nodes node.id ≡ some n
    → finish_check h node p ≡ updated h node n p
unfolding finish_check
finish_check_found h node n p e = rw (e, finish_check) refl

check_node-updated :
    (h : HealthMonitor) (node : NodeInfo) (o : Option NodeHealth) (p : Probe)
    → get h.nodes node.id ≡ o
    → check_node h node p ≡ updated h node (find_or_new o node.id p) p
unfolding check_node
check_node-updated h node o p e = rw e refl

created : HealthMonitor → NodeInfo → Probe → HealthMonitor
created h node p = record h { nodes = put h.nodes node.id (new_record node.id p) }

get-created :
    (h : HealthMonitor) (node : NodeInfo) (p : Probe)
    → get (created h node p).nodes node.id ≡ some (new_record node.id p)
unfolding created
get-created h node p =
    get-put h.nodes node.id node.id (new_record node.id p) ∙ rw (==_refl node.id) refl

ensure_record-created :
    (h : HealthMonitor) (node : NodeInfo) (p : Probe)
    → get h.nodes node.id ≡ none
    → ensure_record h node p ≡ created h node p
unfolding ensure_record created
ensure_record-created h node p e = rw (e, ensure_record) refl

ensure_record-found :
    (h : HealthMonitor) (node : NodeInfo) (n : NodeHealth) (p : Probe)
    → get h.nodes node.id ≡ some n
    → ensure_record h node p ≡ h
unfolding ensure_record
ensure_record-found h node n p e = rw (e, ensure_record) refl

updated-created :
    (h : HealthMonitor) (node : NodeInfo) (n : NodeHealth) (p : Probe)
    → updated (created h node p) node n p ≡ updated h node n p
unfolding created update_record
updated-created h node n p = rw (put-put h.nodes node.id (new_record node.id p)) refl

-- With no part of another round in between, the two parts of a check are the check.
finish_check-ensure_record :
    (h : HealthMonitor) (node : NodeInfo) (p : Probe)
    → finish_check (ensure_record h node p) node p ≡ check_node h node p
unfolding find_or_new created
finish_check-ensure_record h node p = elim (Option-cases (get h.nodes node.id)) [
  | inl e ↦
      let new = new_record node.id p in
      ap (λ g. finish_check g node p) (ensure_record-created h node p e)
      ∙ finish_check_found (created h node p) node new p (get-created h node p)
      ∙ updated-created h node new p
      ∙ sym (check_node-updated h node none p e)
  | inr (n, e) ↦
      ap (λ g. finish_check g node p) (ensure_record-found h node n p e)
      ∙ finish_check_found h node n p e
      ∙ sym (check_node-updated h node (some n) p e)
]

run_parts-visiting :
    (nodes : List (NodeInfo × Probe)) (last : Probe) (h : HealthMonitor) (seen : List Str)
    → run_parts (twice nodes last) h (some (visiting (map (λ x. x.0) nodes) seen)) ≡ (
        let (h', ids) = check_each h nodes in
        ((record h' { nodes = drop_missing (seen ++ node_ids nodes) h'.nodes }, ids), none))
unfolding run_parts twice check_part check_each node_ids
run_parts-visiting [] last h seen = rw (append-nil seen) refl
run_parts-visiting ((node, p) ∷ rest) last h seen = rw (finish_check-ensure_record h node p) (
    rw (run_parts-visiting rest last (check_node h node p).0 (seen ++ node.id ∷ []))
      (rw (append_assoc seen (node.id ∷ []) (node_ids rest)) refl))

-- The parts of a round with no other round beside it, whatever each check returns: after the two
-- parts of each node and the one that deletes, nothing is left, and the records and the started
-- callbacks are those of `checkAllNodes` in one step.
pub run_parts-check_all_nodes :
    (nodes : List (NodeInfo × Probe)) (last : Probe) (h : HealthMonitor)
    → run_parts (twice nodes last) h (some (begin_round (map (λ x. x.0) nodes)))
      ≡ (check_all_nodes h nodes, none)
unfolding check_all_nodes
run_parts-check_all_nodes nodes last h = run_parts-visiting nodes last h []

-- The node that is asked has a record.
abbrev pub IsAsked : HealthMonitor → Option Round → Type 0
IsAsked h (some (asking node rest seen)) = is_tracked (get h.nodes node.id) ≡ true
IsAsked h _ = Unit

ensure_record_tracks :
    (h : HealthMonitor) (node : NodeInfo) (p : Probe)
    → is_tracked (get (ensure_record h node p).nodes node.id) ≡ true
unfolding created
ensure_record_tracks h node p = elim (Option-cases (get h.nodes node.id)) [
  | inl e ↦ rw (ensure_record-created h node p e) (ap is_tracked (get-created h node p))
  | inr (n, e) ↦ rw (ensure_record-found h node n p e) (ap is_tracked e)
]

pub check_part-IsAsked :
    (h : HealthMonitor) (p : Probe) (r : Round)
    → IsAsked (check_part h p r).0.0 (check_part h p r).1
unfolding check_part
check_part-IsAsked h p (visiting [] seen) = tt
check_part-IsAsked h p (visiting (node ∷ rest) seen) = ensure_record_tracks h node p
check_part-IsAsked h p (asking node rest seen) = tt
