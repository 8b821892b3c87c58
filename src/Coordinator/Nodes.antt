-- ===== src/Coordinator/Nodes.antt =====
-- The coordinator's node list: what replacing, adding and marking a node keep.
use torua.Base.{
  ==_refl, str_beq, ℕ, zero, suc, ◌≡◌, refl, Str, List, [], ◌∷◌, ◌++◌, Bool, true, false, not, ◌||◌,
  All, keep, ◌==◌, str_eq, str_beq_iff, arith,
}
use torua.Cluster.{NodeInfo}
use torua.Coordinator.{replace_node, mark_in, node_exists, id_at}

-- Every node has an ID and an address.
abbrev pub IsComplete : List NodeInfo → Type 0
IsComplete = All (λ n. (not (n.id == []) ≡ true) × (not (n.addr == []) ≡ true))

-- No two nodes have the same ID.
abbrev pub IsDistinct : List NodeInfo → Type 0
IsDistinct [] = Unit
IsDistinct (n ∷ ns) = (node_exists ns n.id ≡ false) × IsDistinct ns

pub node_exists-mark_in :
    (ns : List NodeInfo) (id k : Str) → node_exists (mark_in ns id) k ≡ node_exists ns k
unfolding node_exists mark_in
node_exists-mark_in [] id k = refl
node_exists-mark_in (n ∷ ns) id k = ground (arith, node_exists-mark_in ns id k)

pub mark_in-IsComplete :
    (ns : List NodeInfo) (id : Str) → IsComplete ns → IsComplete (mark_in ns id)
unfolding mark_in
mark_in-IsComplete [] id h = tt
mark_in-IsComplete (n ∷ ns) id h = ground (arith, mark_in-IsComplete ns id h.1)

pub mark_in-IsDistinct :
    (ns : List NodeInfo) (id : Str) → IsDistinct ns → IsDistinct (mark_in ns id)
unfolding mark_in
mark_in-IsDistinct [] id h = tt
mark_in-IsDistinct (n ∷ ns) id h =
    ground (arith, mark_in-IsDistinct ns id h.1, node_exists-mark_in ns id n.id)

pub node_exists-replace_node :
    (ns : List NodeInfo) (node : NodeInfo) (k : Str)
    → node_exists (replace_node ns node) k ≡ node_exists ns k
unfolding replace_node node_exists
node_exists-replace_node [] node k = refl
node_exists-replace_node (n ∷ ns) node k =
    ground (arith, str_beq_iff n.id node.id, node_exists-replace_node ns node k)

pub replace_node-IsComplete :
    (ns : List NodeInfo) (node : NodeInfo)
    → not (node.id == []) ≡ true
    → not (node.addr == []) ≡ true
    → IsComplete ns
    → IsComplete (replace_node ns node)
unfolding replace_node
replace_node-IsComplete [] node i a c = tt
replace_node-IsComplete (n ∷ ns) node i a c =
    ground (arith, replace_node-IsComplete ns node i a c.1)

pub replace_node-IsDistinct :
    (ns : List NodeInfo) (node : NodeInfo) → IsDistinct ns → IsDistinct (replace_node ns node)
unfolding replace_node
replace_node-IsDistinct [] node d = tt
replace_node-IsDistinct (n ∷ ns) node d = ground (
  arith,
  str_beq_iff n.id node.id,
  replace_node-IsDistinct ns node d.1,
  node_exists-replace_node ns node n.id,
)

pub node_exists-append :
    (ns : List NodeInfo) (node : NodeInfo) (k : Str)
    → node_exists (ns ++ node ∷ []) k ≡ (node_exists ns k || node.id == k)
unfolding node_exists
node_exists-append [] node k = ground arith
node_exists-append (n ∷ ns) node k = ground (arith, node_exists-append ns node k)

pub append-IsComplete :
    (ns : List NodeInfo) (node : NodeInfo)
    → not (node.id == []) ≡ true
    → not (node.addr == []) ≡ true
    → IsComplete ns
    → IsComplete (ns ++ node ∷ [])
append-IsComplete [] node i a c = ground arith
append-IsComplete (n ∷ ns) node i a c = ground (arith, append-IsComplete ns node i a c.1)

pub append-IsDistinct :
    (ns : List NodeInfo) (node : NodeInfo)
    → node_exists ns node.id ≡ false
    → IsDistinct ns
    → IsDistinct (ns ++ node ∷ [])
unfolding node_exists
append-IsDistinct [] node f d = ground arith
append-IsDistinct (n ∷ ns) node f d = ground (
  arith,
  append-IsDistinct ns node (ground arith) d.1,
  node_exists-append ns node n.id,
  str_beq_iff n.id node.id,
  str_beq_iff node.id n.id,
)

-- The eligible nodes are nodes of the list.
pub node_exists-keep :
    (p : NodeInfo → Bool) (ns : List NodeInfo) (k : Str)
    → node_exists (keep p ns) k ≡ true
    → node_exists ns k ≡ true
unfolding keep node_exists
node_exists-keep p [] k h = h
node_exists-keep p (n ∷ ns) k h = ground (arith, node_exists-keep p ns k)

pub keep-IsComplete :
    (p : NodeInfo → Bool) (ns : List NodeInfo) → IsComplete ns → IsComplete (keep p ns)
unfolding keep
keep-IsComplete p [] c = tt
keep-IsComplete p (n ∷ ns) c = ground (arith, keep-IsComplete p ns c.1)

pub node_exists-id_at :
    (ns : List NodeInfo) (i : ℕ)
    → not (id_at ns i == []) ≡ true
    → node_exists ns (id_at ns i) ≡ true
unfolding node_exists id_at str_beq
node_exists-id_at [] i h = ground arith
node_exists-id_at (n ∷ ns) zero h = ground (arith, ==_refl n.id)
node_exists-id_at (n ∷ ns) (suc i) h = ground (arith, node_exists-id_at ns i h)
