-- ===== src/Node/Race/Cells/Reads.antt =====
-- What the requests that run at a node at the same time read (cmd/node/main.go), in all the shards
-- that they create.
use torua.Node.Endpoints.{shard_operation-store}
use mathlib.Core.Path.{subst}
use mathlib.Core.List.{
  Mem, Mem-prop, mem-cons_self, mem-cons_of_mem, eq-or-mem_of_mem-cons, mem-append, mem-append_left,
  mem-append_right, not-mem-nil, mem-cast,
}
use mathlib.Core.List.Perm
use mathlib.Core.Logic.Or
use torua.Base.{◌≡◌, refl, ◌∙◌, sym, ap, ℕ, Str, List, [], ◌∷◌, Option, ℤ, str_eq, get, arith}
use torua.Storage.{
  Lookup, found, failed, key_not_found, memory_get, new_memory_store, backend_error, MemoryStore,
}
use torua.Shard.{shard_get}
use torua.Http.{get_method}
use torua.Node.{NodeReply, plain, get_reply, key_operation, handle_get}
use torua.Node.Race.{Call}
use torua.Node.Race.Many.{run_all}
use torua.Node.Race.Effects.{on_store, holding}
use torua.Node.Race.Cells.{Cell, logs, AreReplayed, IsOf, Replays, none_yet, then_one}
use torua.Node.Race.Cells.Parts.{all_answered}
use torua.Node.Race.Cells.Runs.{run_all-IsRun, empty_heap, not_begun}
use torua.Node.Race.Cells.Values.{put_call, get_call, leaves, writes, deletes, on_store-Effect}

abbrev Log : Type 0
Log = List (Call × NodeReply)

-- The log has a PUT of the value, answered 204.
abbrev WasPut : ℤ → Str → Str → Log → Type 0
WasPut id k v log = Mem (put_call id k v, plain 204 []) log

nothing_held : (k : Str) → memory_get new_memory_store k ≡ failed key_not_found
unfolding new_memory_store memory_get get
nothing_held k = refl

found_is : (v w : Str) → found v ≡ found w → v ≡ w
found_is v w e = cc e

-- What a shard holds has been PUT there.
held-WasPut :
    (id : ℤ) (k v : Str) {log : Log} {m : MemoryStore}
    → Replays log m
    → IsOf id log
    → memory_get m k ≡ found v
    → WasPut id k v log
held-WasPut id k v none_yet own e = absurd (cc (nothing_held k, e))
held-WasPut id k v (then_one {order} {m} c n r) own e = elim (on_store-Effect c m k) [
  | leaves same ↦ mem-cons_of_mem _ (held-WasPut id k v r own.1 (sym same ∙ e))
  | writes w p q b a f ↦ mem-cast (cc (p, q, b, a, own.0, found_is w v (sym f ∙ e))) mem-cons_self
  | deletes f ↦ absurd (cc (f, e))
]

get_reply-found : (l : Lookup) (v : Str) → get_reply l ≡ plain 200 v → l ≡ found v
unfolding get_reply
get_reply-found (found w) v e = cc e
get_reply-found (failed key_not_found) v e = ground (arith, e)
get_reply-found (failed (backend_error t)) v e = ground (arith, e)

-- A key that is not empty.
module _ (id : ℤ) (head : ℕ) (tail v : Str) (body : Option Str) where
  abbrev key : Str
  key = head ∷ tail

  on_store-get_call :
      (m : MemoryStore) → (on_store (get_call id key body) m).1 ≡ get_reply (memory_get m key)
  unfolding on_store handle_get shard_get key_operation
  on_store-get_call m = ap (λ r. r.1) (shard_operation-store (holding m) head tail get_method body)

  -- What a shard has answered to a GET has been PUT there.
  log-WasPut :
      (own_id : ℤ) {log : Log} {m : MemoryStore}
      → Replays log m
      → IsOf own_id log
      → Mem (get_call id key body, plain 200 v) log
      → WasPut id key v log
  log-WasPut own_id none_yet own m = absurd (not-mem-nil m)
  log-WasPut own_id (then_one {order} {m = store} c n r) own w =
      Or.elim Mem-prop (eq-or-mem_of_mem-cons w)
        (λ e.
          let call : get_call id key body ≡ c = ap (λ x. x.0) e in
          let answer : get_reply (memory_get store key) ≡ plain 200 v =
            sym (on_store-get_call store)
            ∙ ap (λ d. (on_store d store).1) call
            ∙ sym (ap (λ x. x.1) e) in
          let mine : own_id ≡ id = sym own.0 ∙ sym (ap (λ (d : Call). d.id) call) in
          mem-cons_of_mem _ (
            subst (λ i. WasPut i key v order) mine
              (held-WasPut own_id key v r own.1 (get_reply-found (memory_get store key) v answer))))
        (λ later. mem-cons_of_mem _ (log-WasPut own_id r own.1 later))

  logs-WasPut :
      (xs : List Cell)
      → AreReplayed xs
      → Mem (get_call id key body, plain 200 v) (logs xs)
      → WasPut id key v (logs xs)
  logs-WasPut [] a m = absurd (not-mem-nil m)
  logs-WasPut (x ∷ xs) a m =
      Or.elim Mem-prop (mem-append.0 m)
        (λ here. mem-append_left (logs xs) (log-WasPut x.id a.0.0 a.0.1 here))
        (λ there. mem-append_right x.log (logs-WasPut xs a.1 there))

  -- Any number of requests to a new node, for any shards and with any methods and paths, in whatever
  -- way their locked parts mix. If by some time a GET of a key that is not empty has been answered 200
  -- with a value, then by that time a PUT of that value for the same key of the same shard has been
  -- answered 204.
  pub run_all-WasPut :
      (cs : List Call) (ks : List ℕ)
      → Mem
          (get_call id key body, plain 200 v)
          (all_answered (run_all empty_heap (not_begun cs) ks).1)
      → Mem
          (put_call id key v, plain 204 [])
          (all_answered (run_all empty_heap (not_begun cs) ks).1)
  run_all-WasPut cs ks m =
      let (xs, run) = run_all-IsRun cs ks in
      (Perm.mem_iff run.all).1 (logs-WasPut xs run.replayed ((Perm.mem_iff run.all).0 m))
