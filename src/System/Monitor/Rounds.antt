-- ===== src/System/Monitor/Rounds.antt =====
-- One round of the health monitor over the coordinator's nodes, for one of them.
use torua.Base.{
  ◌≡◌, sym, refl, ap, ◌∙◌, Str, List, [], ◌∷◌, ◌++◌, some, Bool, true, false, ◌||◌, get, contains,
  if◌then◌else◌, ◌==◌, str_eq, str_beq_iff, ==_refl, arith, Bool-cases, inl, inr,
}
use torua.Cluster.{NodeInfo}
use torua.Health.{
  NodeHealth, HealthMonitor, Probe, update_record, find_or_new, check_node, check_each,
  callback_for, node_ids, check_all_nodes,
}
use torua.Health.Tracking.{get-check_node, get-drop_missing}
use torua.Coordinator.{node_exists}
use torua.Coordinator.Nodes.{IsDistinct}
use torua.System.Monitor.{paired}

pub contains-append_ids :
    (xs ys : List Str) (k : Str) → contains (xs ++ ys) k ≡ (contains xs k || contains ys k)
unfolding contains
contains-append_ids [] ys k = refl
contains-append_ids (x ∷ xs) ys k = ground (arith, contains-append_ids xs ys k)

contains-node_ids-paired :
    (probe : Str → Probe) (ns : List NodeInfo) (k : Str)
    → contains (node_ids (paired probe ns)) k ≡ node_exists ns k
unfolding contains node_ids paired node_exists
contains-node_ids-paired probe [] k = refl
contains-node_ids-paired probe (n ∷ ns) k = ground (arith, contains-node_ids-paired probe ns k)

contains-callback_for :
    (b : Bool) (id k : Str) → contains (callback_for b id) k ≡ (if id == k then b else false)
unfolding contains
contains-callback_for false id k = ground arith
contains-callback_for true id k = ground arith

module _ (probe : Str → Probe) (k : Str) where
  -- What the check of the node makes of the monitor's record of it.
  abbrev pub checked_record : HealthMonitor → NodeHealth × Bool
  checked_record h = update_record h (find_or_new (get h.nodes k) k (probe k)) (probe k)

  -- The check of another node does not touch it.
  check_node_other :
      (n : NodeInfo) (h : HealthMonitor)
      → (n.id == k) ≡ false
      → (get (check_node h n (probe n.id)).0.nodes k ≡ get h.nodes k)
        × (contains (check_node h n (probe n.id)).1 k ≡ false)
        × (checked_record (check_node h n (probe n.id)).0 ≡ checked_record h)
  unfolding check_node update_record contains
  check_node_other n h e =
      let same : get (check_node h n (probe n.id)).0.nodes k ≡ get h.nodes k =
        get-check_node h n (probe n.id) k ∙ rw e in
      (
        same,
        contains-callback_for _ n.id k ∙ rw e refl,
        ap (λ o. update_record h (find_or_new o k (probe k)) (probe k)) same,
      )

  check_node_same :
      (n : NodeInfo) (h : HealthMonitor)
      → (n.id == k) ≡ true
      → (get (check_node h n (probe n.id)).0.nodes k ≡ some (checked_record h).0)
        × (contains (check_node h n (probe n.id)).1 k ≡ (checked_record h).1)
  unfolding check_node contains
  check_node_same n h e =
      let q : n.id ≡ k = (str_beq_iff n.id k).0 e in
      rw (sym q) (
        get-check_node h n (probe n.id) n.id ∙ rw (==_refl n.id) refl,
        contains-callback_for _ n.id n.id ∙ rw (==_refl n.id) refl,
      )

  check_each_absent :
      (ns : List NodeInfo) (h : HealthMonitor)
      → node_exists ns k ≡ false
      → (get (check_each h (paired probe ns)).0.nodes k ≡ get h.nodes k)
        × (contains (check_each h (paired probe ns)).1 k ≡ false)
  unfolding check_each paired node_exists contains
  check_each_absent [] h e = (refl, refl)
  check_each_absent (n ∷ ns) h e = ground (
    arith,
    check_node_other n h,
    contains-append_ids (check_node h n (probe n.id)).1
        (check_each (check_node h n (probe n.id)).0 (paired probe ns)).1 k,
    check_each_absent ns (check_node h n (probe n.id)).0,
  )

  check_each_present :
      (ns : List NodeInfo) (h : HealthMonitor)
      → IsDistinct ns
      → node_exists ns k ≡ true
      → (get (check_each h (paired probe ns)).0.nodes k ≡ some (checked_record h).0)
        × (contains (check_each h (paired probe ns)).1 k ≡ (checked_record h).1)
  unfolding check_each paired node_exists contains
  check_each_present [] h d e = cc
  check_each_present (n ∷ ns) h d e = elim (Bool-cases (n.id == k)) [
    | inr f ↦ ground (
      arith,
      check_node_other n h f,
      contains-append_ids (check_node h n (probe n.id)).1
          (check_each (check_node h n (probe n.id)).0 (paired probe ns)).1 k,
      check_each_present ns (check_node h n (probe n.id)).0 d.1 (ground arith),
    )
    | inl t ↦ ground (
      arith,
      check_node_same n h t,
      contains-append_ids (check_node h n (probe n.id)).1
          (check_each (check_node h n (probe n.id)).0 (paired probe ns)).1 k,
      check_each_absent ns (check_node h n (probe n.id)).0
          (ap (node_exists ns) (sym ((str_beq_iff n.id k).0 t)) ∙ d.0),
    )
  ]

  -- A round checks a registered node once: its record becomes what the check makes of the one it had,
  -- and its callback is started exactly if that check starts it.
  pub check_all_nodes-registered :
      (ns : List NodeInfo) (h : HealthMonitor)
      → IsDistinct ns
      → node_exists ns k ≡ true
      → (get (check_all_nodes h (paired probe ns)).0.nodes k ≡ some (checked_record h).0)
        × (contains (check_all_nodes h (paired probe ns)).1 k ≡ (checked_record h).1)
  unfolding check_all_nodes
  check_all_nodes-registered ns h d e =
      let each = check_each_present ns h d e in
      (
        get-drop_missing (node_ids (paired probe ns)) (check_each h (paired probe ns)).0.nodes k
            ∙ rw (contains-node_ids-paired probe ns k) (rw e each.0),
        each.1,
      )
