-- ===== src/Node/Mismatch.antt =====
-- The coordinator's URLs against the node's routes: the coordinator asks for
-- /shards/{id}/data/{key}, and the node serves /shard/{id}/store/{key}.
use torua.Base.{
  ◌≡◌, refl, Str, [], ◌++◌, ascii, ℤ, if◌then◌else◌, ◌==◌, str_eq, str_beq, Bool-cases, inl, inr,
  ◌∷◌, show_int,
}
use torua.Http.{Request}
use torua.Mux.{find_handler, clean_path}
use torua.Proxy.{target_url}
use torua.Node.{Node, plain}
use torua.Node.Serve.{node_patterns, serve, answer}

append_cancel : (a s t : Str) → a ++ s ≡ a ++ t → s ≡ t
append_cancel [] s t h = h
append_cancel (c ∷ a) s t h = append_cancel a s t (cc h)

serve_shards :
    (n : Node) (r : Request) (tail : Str)
    → answer n r (find_handler node_patterns (ascii "/shards/" ++ tail)) ≡ (
        if clean_path (ascii "/shards/" ++ tail) == (ascii "/shards/" ++ tail)
        then (n, plain 404 (ascii "404 page not found"))
        else (n, plain 301 []))
unfolding answer find_handler str_beq
serve_shards n r tail =
    elim (Bool-cases (clean_path (ascii "/shards/" ++ tail) == (ascii "/shards/" ++ tail))) [
      | inl e ↦ rw e refl
      | inr e ↦ rw e refl
    ]

serve_at :
    (n : Node) (r : Request) (p tail : Str)
    → p ≡ ascii "/shards/" ++ tail
    → answer n r (find_handler node_patterns p) ≡ (
        if clean_path p == p
        then (n, plain 404 (ascii "404 page not found"))
        else (n, plain 301 []))
serve_at n r p tail h = rw h (serve_shards n r tail)

-- No data request that the coordinator forwards reaches a shard. For every node, address, shard
-- number, key, method and body: if the path of the request follows the address in the coordinator's
-- URL, the node's router answers 404, or 301 where the path is not clean, and the node is unchanged.
pub serve_forwarded :
    (n : Node) (r : Request) (addr : Str) (i : ℤ) (key : Str)
    → addr ++ r.path ≡ target_url addr i key
    → serve n r ≡ (
        if clean_path r.path == r.path
        then (n, plain 404 (ascii "404 page not found"))
        else (n, plain 301 []))
unfolding serve target_url
serve_forwarded n r addr i key h =
    serve_at n r r.path (show_int i ++ (ascii "/data/" ++ key)) (append_cancel addr _ _ h)
