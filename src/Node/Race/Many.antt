-- ===== src/Node/Race/Many.antt =====
-- Any number of requests to a node at the same time (cmd/node/main.go).
use torua.Base.{ℕ, zero, suc, List, [], ◌∷◌}
use torua.Node.Race.{Heap, Phase, Call, advance}

-- The request in the place of the list goes on by one part; none does past the end.
unfoldable pub advance_at : Heap → List (Call × Phase) → ℕ → Heap × List (Call × Phase)
advance_at h [] k = (h, [])
advance_at h ((c, p) ∷ ts) zero = let (h', p') = advance h c p in (h', (c, p') ∷ ts)
advance_at h (t ∷ ts) (suc k) = let (h', ts') = advance_at h ts k in (h', t ∷ ts')

unfoldable pub run_all : Heap → List (Call × Phase) → List ℕ → Heap × List (Call × Phase)
run_all h ts [] = (h, ts)
run_all h ts (k ∷ ks) = let (h', ts') = advance_at h ts k in run_all h' ts' ks
