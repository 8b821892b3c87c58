-- ===== src/Storage/Buffers/Isolation.antt =====
-- The copies of `MemoryStore` keep its values from the caller's writes (internal/storage/store.go).
use torua.Base.{
  ℕ, ◌≡◌, ◌<◌, ◌++◌, ap, ◌∙◌, Str, List, [], ◌∷◌, Option, none, some, true, false, map, length,
  get_elem?, set, contains, get, get-put, get-remove, length-append, length-set, get_elem?-set_ne,
  get_elem?-append_left, get_elem?-append_last, ◌==◌, str_eq, nat_eq, refl, arith, Bool-cases, inl,
  inr, sym, get_elem?_in,
}
use torua.Storage.{MemoryStore, memory_put, memory_delete, memory_get, new_memory_store, lookup_of}
use torua.Storage.Refinement.{Call, Answer, finished, serve, answers}
use torua.Storage.Buffers.{
  Shared, Event, make, write, call_put, call_get, call_delete, contents, store_put, store_get,
  store_delete, get_found, happen, history, no_slices,
}

-- What the heap holds for a key.
abbrev held : Shared → Option ℕ → Option Str
held s none = none
held s (some p) = get_elem? s.cells p

held_same :
    (s t : Shared) (o : Option ℕ)
    → ((p : ℕ) → o ≡ some p → get_elem? s.cells p ≡ get_elem? t.cells p)
    → held s o ≡ held t o
held_same s t none h = refl
held_same s t (some p) h = h p refl

-- The heap holds what the store holds, in slices that the caller cannot reach.
record Holds (s : Shared) (m : MemoryStore) : Type 0 where
  agrees : (k : Str) → get m.entries k ≡ held s (get s.table k)
  inside : (k : Str) (p : ℕ) → get s.table k ≡ some p → p < length s.cells
  apart : (k : Str) (p : ℕ) → get s.table k ≡ some p → contains s.owned p ≡ false
  reached : (p : ℕ) → contains s.owned p ≡ true → p < length s.cells

-- More slices at the end, one of which the caller may reach.
grown :
    (s : Shared) (m : MemoryStore) (v : Str)
    → Holds s m
    → Holds (record s { cells = s.cells ++ v ∷ [] }) m
grown s m v h = record {
  agrees = λ k.
      h.agrees k
      ∙ held_same s (record s { cells = s.cells ++ v ∷ [] }) (get s.table k)
          (λ p e. sym (get_elem?-append_left s.cells (v ∷ []) p (h.inside k p e)));
  inside = λ k p e. omega (arith, h.inside k p e, length-append s.cells (v ∷ []));
  apart = h.apart;
  reached = λ p e. omega (arith, h.reached p e, length-append s.cells (v ∷ []));
}

handed_out :
    (s : Shared) (m : MemoryStore) (v : Str)
    → Holds s m
    → Holds (record s { cells = s.cells ++ v ∷ []; owned = length s.cells ∷ s.owned }) m
unfolding contains
handed_out s m v h = record {
  agrees = (grown s m v h).agrees;
  inside = (grown s m v h).inside;
  apart = λ k p e. ground (arith, h.apart k p e, h.inside k p e);
  reached = λ p e. ground (arith, h.reached p, length-append s.cells (v ∷ []));
}

written :
    (s : Shared) (m : MemoryStore) (p : ℕ) (v : Str)
    → contains s.owned p ≡ true
    → Holds s m
    → Holds (record s { cells = set s.cells p v }) m
written s m p v o h = record {
  agrees = λ k.
      h.agrees k
      ∙ held_same s (record s { cells = set s.cells p v }) (get s.table k)
          (λ q e. sym (get_elem?-set_ne s.cells p q v (λ same. cc (h.apart k q e))));
  inside = λ k q e. omega (arith, h.inside k q e, length-set s.cells p v);
  apart = h.apart;
  reached = λ q e. omega (arith, h.reached q e, length-set s.cells p v);
}

put-Holds :
    (s : Shared) (m : MemoryStore) (k : Str) (p : ℕ)
    → Holds s m
    → Holds (store_put s k p).0 (memory_put m k (contents (get_elem? s.cells p))).0
unfolding store_put memory_put
put-Holds s m k p h =
    let v = contents (get_elem? s.cells p) in
    let g = grown s m v h in
    record {
      agrees = λ j.
          rw (get-put m.entries k j v, get-put s.table k j (length s.cells))
            (elim (Bool-cases (k == j)) [
              | inl e ↦ rw e (sym (get_elem?-append_last s.cells v))
              | inr e ↦ rw e (g.agrees j)
            ]);
      inside = λ j q e. ground (
        arith,
        get-put s.table k j (length s.cells),
        h.inside j q,
        length-append s.cells (v ∷ []),
      );
      apart =
          λ j q e. ground (arith, get-put s.table k j (length s.cells), h.apart j q, h.reached q);
      reached = g.reached;
    }

delete-Holds :
    (s : Shared) (m : MemoryStore) (k : Str)
    → Holds s m
    → Holds (store_delete s k).0 (memory_delete m k).0
unfolding store_delete memory_delete
delete-Holds s m k h = record {
  agrees = λ j. ground (arith, get-remove m.entries k j, get-remove s.table k j, h.agrees j);
  inside = λ j q e. ground (arith, get-remove s.table k j, h.inside j q);
  apart = λ j q e. ground (arith, get-remove s.table k j, h.apart j q);
  reached = h.reached;
}

abbrev pub calls : List (Call × Answer) → List Call
calls = map (λ c. c.0)

abbrev pub replies : List (Call × Answer) → List Answer
replies = map (λ c. c.1)

-- From one state to the next: the store's calls are answered as a MemoryStore answers them.
record Goes (m : MemoryStore) (s : Shared) (log : List (Call × Answer)) : Type 0 where
  after : MemoryStore
  holds : Holds s after
  told :
      (rest : List (Call × Answer))
      → answers after (calls rest) ≡ replies rest
      → answers m (calls (log ++ rest)) ≡ replies (log ++ rest)

get-Goes :
    (s : Shared) (m : MemoryStore) (k : Str) (o : Option ℕ)
    → get s.table k ≡ o
    → Holds s m
    → Goes m (get_found s k o).0 ((get_found s k o).1 ∷ [])
unfolding get_found serve answers memory_get lookup_of
get-Goes s m k none e h = record { after = m; holds = h; told = λ rest ih. cc (h.agrees k, e, ih) }
get-Goes s m k (some p) e h =
    let (v, at) = get_elem?_in s.cells p (h.inside k p e) in
    record {
      after = m;
      holds = handed_out s m (contents (get_elem? s.cells p)) h;
      told = λ rest ih. ground (arith, h.agrees k, e, at, ih);
    }

happen-Goes :
    (s : Shared) (m : MemoryStore) (e : Event) → Holds s m → Goes m (happen s e).0 (happen s e).1
unfolding happen serve answers store_put memory_put store_delete memory_delete store_get
happen-Goes s m (make v) h = record { after = m; holds = handed_out s m v h; told = λ rest ih. ih }
happen-Goes s m (write p v) h = elim (Bool-cases (contains s.owned p)) [
  | inl o ↦ rw o (record { after = m; holds = written s m p v o h; told = λ rest ih. ih })
  | inr o ↦ rw o (record { after = m; holds = h; told = λ rest ih. ih })
]
happen-Goes s m (call_put k p) h = elim (Bool-cases (contains s.owned p)) [
  | inl o ↦ rw o (record {
    after = (memory_put m k (contents (get_elem? s.cells p))).0;
    holds = put-Holds s m k p h;
    told = λ rest ih. ap (λ l. finished none ∷ l) ih;
  })
  | inr o ↦ rw o (record { after = m; holds = h; told = λ rest ih. ih })
]
happen-Goes s m (call_get k) h = get-Goes s m k (get s.table k) refl h
happen-Goes s m (call_delete k) h = record {
  after = (memory_delete m k).0;
  holds = delete-Holds s m k h;
  told = λ rest ih. ap (λ l. finished none ∷ l) ih;
}

history-Holds :
    (s : Shared) (m : MemoryStore) (es : List Event)
    → Holds s m
    → answers m (calls (history s es)) ≡ replies (history s es)
unfolding history answers
history-Holds s m [] h = refl
history-Holds s m (e ∷ es) h =
    let g = happen-Goes s m e h in
    g.told (history (happen s e).0 es) (history-Holds (happen s e).0 g.after es g.holds)

start-Holds : Holds no_slices new_memory_store
unfolding new_memory_store get contains
start-Holds = record {
  agrees = λ k. refl;
  inside = λ k p e. cc;
  apart = λ k p e. cc;
  reached = λ p e. cc;
}

-- Whatever a caller does, with slices that it has made or has got, between its calls and after them:
-- Get, Put and Delete answer as a MemoryStore of values does to the same calls, each Put with what
-- its slice held at the time.
pub history_lem :
    (es : List Event)
    → answers new_memory_store (calls (history no_slices es)) ≡ replies (history no_slices es)
history_lem es = history-Holds no_slices new_memory_store es start-Holds
