-- ===== src/Coordinator/Broadcast.antt =====
-- POST /broadcast of cmd/coordinator/main.go. `PostJSON` to one node is an argument: the error text,
-- or `none` where it succeeds.
use torua.Base.{
  ℕ, Str, List, [], ◌∷◌, ◌++◌, Option, none, some, Bool, true, not, length, nat_beq, if◌then◌else◌,
  ascii,
}
use torua.Cluster.{NodeInfo, BroadcastRequest}
use torua.Coordinator.{Server}

pub record BroadcastResult : Type 0 where
  pub node_id : Str
  pub err : Str

pub data BroadcastReply : Type 0 where
  bad_request : Str → BroadcastReply
  sent : List BroadcastResult → ℕ → BroadcastReply

-- The loop over the snapshot of the nodes.
send_each : (Str → Str → Option Str) → BroadcastRequest → List NodeInfo → List BroadcastResult
send_each post req [] = []
send_each post req (n ∷ ns) =
    let err : Str = elim (post (n.addr ++ req.path) req.payload) [ none ↦ [] | some e ↦ e ] in
    record { node_id = n.id; err = err } ∷ send_each post req ns

-- `req.Path == "" || req.Path[0] != '/'`
bad_path : Str → Bool
bad_path [] = true
bad_path (c ∷ s) = not (nat_beq c b'/')

unfoldable pub handle_broadcast :
    (Str → Str → Option Str) → Server → Option BroadcastRequest → BroadcastReply
unfolding send_each bad_path
handle_broadcast post s none = bad_request (ascii "bad json")
handle_broadcast post s (some req) =
    if bad_path req.path
    then bad_request (ascii "path must start with '/'")
    else let out = send_each post req s.nodes in sent out (length out)

-- The report of one node.
abbrev pub report : (Str → Str → Option Str) → BroadcastRequest → NodeInfo → BroadcastResult
report post req n = record {
  node_id = n.id;
  err = elim (post (n.addr ++ req.path) req.payload) [ none ↦ [] | some e ↦ e ];
}

abbrev pub report_at :
    (Str → Str → Option Str) → BroadcastRequest → Option NodeInfo → Option BroadcastResult
report_at post req none = none
report_at post req (some n) = some (report post req n)
