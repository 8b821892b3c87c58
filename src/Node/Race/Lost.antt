-- ===== src/Node/Race/Lost.antt =====
-- Two requests at the same time for a shard that the node lacks (cmd/node/main.go).
use torua.Base.{
  ℕ, ◌≡◌, refl, sym, ap, ◌∙◌, Str, List, [], ◌∷◌, none, some, length, get_elem?, get, get-put, ℤ,
  ==_refl, int_eq, arith, set, Bool-cases, inl, inr, str_eq, get_elem?-append_last,
}
use torua.Storage.{memory_stats, Lookup, failed, key_not_found, memory_get, new_memory_store}
use torua.Shard.{new_shard}
use torua.Node.{MemoryShard, shard_operation}
use torua.Node.Race.{
  Heap, Phase, ready, missed, holds, counted, sized, loaded_gets, loaded_puts, done, Call, advance,
  create, empty_shard, is_stats, perform, count, act, begin_operation, operate, load_gets,
  load_puts, load_deletes,
}
use torua.Node.Race.Effects.{get_elem?-set_same, perform-count, perform_stats}

-- Whose turn it is.
pub data Turn : Type 0 where
  first second : Turn

pub run_two : Call → Call → List Turn → Heap → Phase → Phase → Heap × (Phase × Phase)
unfolding advance
run_two a b [] h p q = (h, (p, q))
run_two a b (first ∷ turns) h p q = let (h', p') = advance h a p in run_two a b turns h' p' q
run_two a b (second ∷ turns) h p q = let (h', q') = advance h b q in run_two a b turns h' p q'

-- What a later GET of the key finds in the shard of the map.
pub visible : Heap → ℤ → Str → Lookup
visible h id key = elim (get h.table id) [
  | none ↦ failed key_not_found
  | some p ↦ elim (get_elem? h.cells p) [
    | none ↦ failed key_not_found
    | some s ↦ memory_get s.store key
  ]
]

visible-create :
    (h : Heap) (id : ℤ) (key : Str) → visible (create h id) id key ≡ failed key_not_found
unfolding visible create new_shard new_memory_store memory_get get
visible-create h id key = ground (
  arith,
  get-put h.table id id (length h.cells),
  ==_refl id,
  get_elem?-append_last h.cells (empty_shard id),
)

run_first :
    (a b : Call) (turns : List Turn) (h h' : Heap) (p p' q : Phase)
    → advance h a p ≡ (h', p')
    → run_two a b (first ∷ turns) h p q ≡ run_two a b turns h' p' q
unfolding run_two
run_first a b turns h h' p p' q e = ap (λ x. run_two a b turns x.0 x.1 q) e

abbrev four : List Turn → List Turn
four turns = first ∷ first ∷ first ∷ first ∷ turns

-- Four parts are enough for any operation on a shard, and its answer is that of the whole.
four_parts :
    (a b : Call) (turns : List Turn) (h : Heap) (p : ℕ) (s : MemoryShard) (q : Phase)
    → get_elem? h.cells p ≡ some s
    → (h' : Heap) × (run_two a b (four turns) h (holds p) q
        ≡ run_two a b turns h' (done (perform a s).1) q)
unfolding advance begin_operation operate load_gets load_puts load_deletes
four_parts a b turns h p s q e = elim (Bool-cases (is_stats a)) [
  | inl t ↦
      let size = memory_stats s.store in
      (
        h,
        run_first a b _ h h (holds p) (sized p size) q (rw (e, begin_operation) (rw t refl))
            ∙ run_first a b _ h h (sized p size) (loaded_gets p size s.stats.ops.gets) q
                (rw (e, load_gets) refl)
            ∙ run_first a b _ h h _ (loaded_puts p size s.stats.ops.gets s.stats.ops.puts) q
                (rw (e, load_puts) refl)
            ∙ run_first a b _ h h _ _ q (rw (e, load_deletes) refl)
            ∙ ap (λ x. run_two a b turns h (done x) q) (sym (perform_stats a s t)),
      )
  | inr t ↦
      let one = record h { cells = set h.cells p (count a s) } in
      let two = record one { cells = set one.cells p (act a (count a s)).0 } in
      let there = get_elem?-set_same h.cells p s (count a s) e in
      (
        two,
        run_first a b _ h one (holds p) (counted p) q (rw (e, begin_operation) (rw t refl))
            ∙ run_first a b _ one two (counted p) (done (act a (count a s)).1) q
                (rw (there, operate) refl)
            ∙ run_first a b _ two two _ _ q refl
            ∙ run_first a b _ two two _ _ q refl
            ∙ ap (λ x. run_two a b turns two (done x) q) (perform-count a s t),
      )
]

lost_at :
    (a b : Call) (key : Str) (id : ℤ) (h : Heap) (p : Phase)
    → b.id ≡ id
    → ((run_two a b (second ∷ []) h p missed).1.0 ≡ p)
      × (visible (run_two a b (second ∷ []) h p missed).0 id key ≡ failed key_not_found)
unfolding run_two advance
lost_at a b key id h p same =
    (refl, ap (λ i. visible (create h b.id) i key) (sym same) ∙ visible-create h b.id key)

-- Both find nothing, and the first creates the shard.
both_miss :
    (a b : Call) (turns : List Turn) (h : Heap)
    → get h.table a.id ≡ none
    → get h.table b.id ≡ none
    → run_two a b (first ∷ second ∷ first ∷ turns) h ready ready
      ≡ run_two a b turns (create h a.id) (holds (length h.cells)) missed
unfolding run_two advance
both_miss a b turns h e f = rw (e, f) refl

-- Of two requests for a shard that the node does not have, both may find none. If then the first
-- creates the shard and is answered, and the second creates the shard again, the first has its full
-- answer, and a GET of any key in the node's shard finds nothing: what the first stored is lost.
pub lost_write :
    (h : Heap) (a b : Call) (key : Str)
    → get h.table a.id ≡ none
    → b.id ≡ a.id
    → ((run_two a b (first ∷ second ∷ first ∷ four (second ∷ [])) h ready ready).1.0
        ≡ done (shard_operation (empty_shard a.id) a.path a.method a.body).1)
      × (visible
            (run_two a b (first ∷ second ∷ first ∷ four (second ∷ [])) h ready ready).0
            a.id
            key
          ≡ failed key_not_found)
unfolding create
lost_write h a b key e same =
    let (h', way) =
      four_parts a b (second ∷ []) (create h a.id) (length h.cells) (empty_shard a.id) missed
        (get_elem?-append_last h.cells (empty_shard a.id)) in
    let there = both_miss a b (four (second ∷ [])) h e (ap (get h.table) same ∙ e) ∙ way in
    let (answered, gone) = lost_at a b key a.id h' (done (perform a (empty_shard a.id)).1) same in
    (
      ap (λ x. x.1.0) there ∙ answered,
      ap (λ (x : Heap × (Phase × Phase)). visible x.0 a.id key) there ∙ gone,
    )
