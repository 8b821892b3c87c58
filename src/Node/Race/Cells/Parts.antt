-- ===== src/Node/Race/Cells/Parts.antt =====
-- One part of a request to a node (cmd/node/main.go), with the shards that have been created.
use mathlib.Core.List.{Perm}
use mathlib.Core.List.Perm
use torua.Base.{
  ℕ, ◌≡◌, refl, ◌∙◌, ap, sym, List, [], ◌∷◌, ◌++◌, ℤ, get, int_eq, Option, none, some, arith,
  get_elem?, length, set, get-put, get_elem?-append_left, get_elem?-append_last, lt_of_get_elem?,
  Bool-cases, inl, inr, true, false, if◌then◌else◌,
}
use torua.Node.{NodeReply}
use torua.Storage.{StoreStats}
use torua.Node.Race.{
  Heap, Phase, ready, missed, holds, counted, sized, loaded_gets, loaded_puts, done, Call, advance,
  begin_operation, operate, load_gets, load_puts, load_deletes, create, looked, empty_shard,
  is_stats, act,
}
use torua.Node.Race.Cells.{
  Cell, shards, ids, logs, last_of, AreReplayed, fresh_cell, after_part, IsKnown, cell_at, shard_at,
  with_count, with_call, change_at, shards-change_at, ids-change_at, logs-change_at, logs-with_call,
  replayed-with_count, replayed-with_call, last_of-snoc, last_of-at, ids-append, shards-append,
  length-shards, logs-append_fresh, replayed-append,
}

-- The node's map and heap are those of the shards that have been created.
pub record IsHeapOf (xs : List Cell) (h : Heap) : Type 0 where
  pub cells : h.cells ≡ shards xs
  pub table : (id : ℤ) → get h.table id ≡ last_of id (ids xs)

-- The answered requests, but for the statistics.
abbrev pub answer_of : Call → Phase → List (Call × NodeReply)
answer_of c (done a) = if is_stats c then [] else (c, a) ∷ []
answer_of c _ = []

abbrev pub all_answered : List (Call × Phase) → List (Call × NodeReply)
all_answered [] = []
all_answered ((c, p) ∷ ts) = answer_of c p ++ all_answered ts

-- The second list is the first with the new answers, and so are the logs.
pub record Adds (old now : List (Call × NodeReply)) (xs after : List Cell) : Type 0 where
  pub new : List (Call × NodeReply)
  pub now_answered : Perm now (new ++ old)
  pub now_logged : Perm (logs after) (new ++ logs xs)

pub nothing_new : (old : List (Call × NodeReply)) (xs : List Cell) → Adds old old xs xs
nothing_new old xs = record {
  new = [];
  now_answered = Perm.refl old;
  now_logged = Perm.refl (logs xs);
}

-- One part of a request.
pub record IsNext (xs : List Cell) (c : Call) (p : Phase) (h' : Heap) (p' : Phase) : Type 0 where
  pub heap : IsHeapOf (after_part xs c p) h'
  pub known : IsKnown (ids (after_part xs c p)) c p'
  pub replayed : AreReplayed (after_part xs c p)
  pub adds : Adds (answer_of c p) (answer_of c p') xs (after_part xs c p)

-- The shard that the request holds.
Held : (xs : List Cell) (h : Heap) (c : Call) (q : ℕ) → Type 0
Held xs h c q = (x : Cell) × (get_elem? xs q ≡ some x) × (get_elem? h.cells q ≡ some x.shard)

find-Held :
    (xs : List Cell) (h : Heap) (c : Call) (q : ℕ)
    → IsHeapOf xs h
    → get_elem? (ids xs) q ≡ some c.id
    → Held xs h c q
unfolding Held
find-Held xs h c q g k =
    let (x, at, same) = cell_at xs q c.id k in
    (x, at, ap (λ l. get_elem? l q) g.cells ∙ shard_at xs q x at)

-- A cell changes, and keeps its number.
changed-IsHeapOf :
    (xs : List Cell) (h : Heap) (q : ℕ) (x : Cell) (f : Cell → Cell)
    → IsHeapOf xs h
    → get_elem? xs q ≡ some x
    → ((y : Cell) → (f y).id ≡ y.id)
    → IsHeapOf (change_at f xs q) (record h { cells = set h.cells q (f x).shard })
changed-IsHeapOf xs h q x f g at keeps = record {
  cells = ap (λ l. set l q (f x).shard) g.cells ∙ sym (shards-change_at f xs q x at);
  table = λ id. g.table id ∙ ap (last_of id) (sym (ids-change_at f keeps xs q));
}

operate-IsNext :
    (xs : List Cell) (h : Heap) (c : Call) (q : ℕ)
    → IsHeapOf xs h
    → AreReplayed xs
    → get_elem? (ids xs) q ≡ some c.id
    → is_stats c ≡ false
    → IsNext xs c
        (counted q)
        (operate h q c (get_elem? h.cells q)).0
        (operate h q c (get_elem? h.cells q)).1
unfolding operate after_part Held
operate-IsNext xs h c q g r k n =
    let (x, at, found) = find-Held xs h c q g k in
    rw found (record {
      heap = changed-IsHeapOf xs h q x (with_call c) g at (λ y. refl);
      known = tt;
      replayed = replayed-with_call c xs q k n r;
      adds = record {
        new = (c, (act c x.shard).1) ∷ [];
        now_answered = rw n (Perm.refl ((c, (act c x.shard).1) ∷ []));
        now_logged = Perm.symm (logs-with_call c xs q x at);
      };
    })

begin_operation-IsNext :
    (xs : List Cell) (h : Heap) (c : Call) (q : ℕ)
    → IsHeapOf xs h
    → AreReplayed xs
    → get_elem? (ids xs) q ≡ some c.id
    → IsNext xs c
        (holds q)
        (begin_operation h q c (get_elem? h.cells q)).0
        (begin_operation h q c (get_elem? h.cells q)).1
unfolding begin_operation after_part Held
begin_operation-IsNext xs h c q g r k =
    let (x, at, found) = find-Held xs h c q g k in
    elim (Bool-cases (is_stats c)) [
      | inl t ↦
          rw (found, begin_operation)
            (rw t (record {
              heap = rw t g;
              known = (rw t k, t);
              replayed = rw t r;
              adds = rw t (nothing_new [] xs);
            }))
      | inr t ↦
          rw (found, begin_operation)
            (rw t (record {
              heap = rw t (changed-IsHeapOf xs h q x (with_count c) g at (λ y. refl));
              known = (
                rw t (ap (λ l. get_elem? l q) (ids-change_at (with_count c) (λ y. refl) xs q) ∙ k),
                t,
              );
              replayed = rw t (replayed-with_count c xs q r);
              adds = rw t (record {
                new = [];
                now_answered = Perm.refl [];
                now_logged =
                    rw (logs-change_at (with_count c) (λ y. refl) xs q) (Perm.refl (logs xs));
              });
            }))
    ]

looked-IsNext :
    (xs : List Cell) (h : Heap) (c : Call) (o : Option ℕ)
    → get h.table c.id ≡ o
    → IsHeapOf xs h
    → AreReplayed xs
    → IsNext xs c ready h (looked o)
unfolding after_part
looked-IsNext xs h c none e g r = record {
  heap = g;
  known = tt;
  replayed = r;
  adds = nothing_new [] xs;
}
looked-IsNext xs h c (some p) e g r = record {
  heap = g;
  known = last_of-at c.id (ids xs) p (sym (g.table c.id) ∙ e);
  replayed = r;
  adds = nothing_new [] xs;
}

create-IsNext :
    (xs : List Cell) (h : Heap) (c : Call)
    → IsHeapOf xs h
    → AreReplayed xs
    → IsNext xs c missed (create h c.id) (holds (length h.cells))
unfolding create after_part
create-IsNext xs h c g r =
    let count : length h.cells ≡ length (ids xs) = ap length g.cells ∙ length-shards xs in
    record {
      heap = record {
        cells =
            ap (λ l. l ++ empty_shard c.id ∷ []) g.cells ∙ sym (shards-append xs (fresh_cell c.id));
        table = λ id. ground (
          arith,
          get-put h.table c.id id (length h.cells),
          ids-append xs (fresh_cell c.id),
          last_of-snoc id c.id (ids xs),
          count,
          g.table id,
        );
      };
      known = rw (count, ids-append xs (fresh_cell c.id)) (get_elem?-append_last (ids xs) c.id);
      replayed = replayed-append xs c.id r;
      adds = record {
        new = [];
        now_answered = Perm.refl [];
        now_logged = rw (logs-append_fresh xs c.id) (Perm.refl (logs xs));
      };
    }

-- A load changes nothing, and its request goes on with the statistics.
load-IsNext :
    (xs : List Cell) (h : Heap) (c : Call) (q : ℕ) (size : StoreStats) (gets puts : ℕ)
    → IsHeapOf xs h
    → AreReplayed xs
    → (get_elem? (ids xs) q ≡ some c.id) × (is_stats c ≡ true)
    → IsNext xs c (sized q size) h (load_gets q size (get_elem? h.cells q))
      × IsNext xs c (loaded_gets q size gets) h (load_puts q size gets (get_elem? h.cells q))
      × IsNext xs c
          (loaded_puts q size gets puts)
          h
          (load_deletes q size gets puts (get_elem? h.cells q))
unfolding load_gets load_puts load_deletes after_part Held
load-IsNext xs h c q size gets puts g r k =
    let (x, at, found) = find-Held xs h c q g k.0 in
    rw found (
      record { heap = g; known = k; replayed = r; adds = nothing_new [] xs },
      record { heap = g; known = k; replayed = r; adds = nothing_new [] xs },
      record { heap = g; known = tt; replayed = r; adds = rw k.1 (nothing_new [] xs) },
    )

pub advance-IsNext :
    (xs : List Cell) (h : Heap) (c : Call) (p : Phase)
    → IsHeapOf xs h
    → AreReplayed xs
    → IsKnown (ids xs) c p
    → IsNext xs c p (advance h c p).0 (advance h c p).1
unfolding advance after_part
advance-IsNext xs h c ready g r k = looked-IsNext xs h c (get h.table c.id) refl g r
advance-IsNext xs h c missed g r k = create-IsNext xs h c g r
advance-IsNext xs h c (holds q) g r k = begin_operation-IsNext xs h c q g r k
advance-IsNext xs h c (counted q) g r k = operate-IsNext xs h c q g r k.0 k.1
advance-IsNext xs h c (sized q size) g r k = (load-IsNext xs h c q size 0 0 g r k).0
advance-IsNext xs h c (loaded_gets q size gets) g r k = (load-IsNext xs h c q size gets 0 g r k).1
advance-IsNext xs h c (loaded_puts q size gets puts) g r k =
    (load-IsNext xs h c q size gets puts g r k).2
advance-IsNext xs h c (done a) g r k = record {
  heap = g;
  known = tt;
  replayed = r;
  adds = nothing_new (answer_of c (done a)) xs;
}

ids-after_part :
    (xs : List Cell) (d : Call) (q : Phase) (p : ℕ) (i : ℤ)
    → get_elem? (ids xs) p ≡ some i
    → get_elem? (ids (after_part xs d q)) p ≡ some i
unfolding after_part
ids-after_part xs d ready p i k = k
ids-after_part xs d missed p i k =
    ap (λ l. get_elem? l p) (ids-append xs (fresh_cell d.id))
    ∙ get_elem?-append_left (ids xs) (d.id ∷ []) p (lt_of_get_elem? (ids xs) p i k)
    ∙ k
ids-after_part xs d (holds q) p i k = elim (Bool-cases (is_stats d)) [
  | inl t ↦ rw t k
  | inr t ↦ rw t (ap (λ l. get_elem? l p) (ids-change_at (with_count d) (λ y. refl) xs q) ∙ k)
]
ids-after_part xs d (counted q) p i k =
    ap (λ l. get_elem? l p) (ids-change_at (with_call d) (λ y. refl) xs q) ∙ k
ids-after_part xs d (sized q size) p i k = k
ids-after_part xs d (loaded_gets q size gets) p i k = k
ids-after_part xs d (loaded_puts q size gets puts) p i k = k
ids-after_part xs d (done a) p i k = k

pub IsKnown-after_part :
    (xs : List Cell) (d : Call) (q : Phase) (c : Call) (p : Phase)
    → IsKnown (ids xs) c p
    → IsKnown (ids (after_part xs d q)) c p
IsKnown-after_part xs d q c ready k = tt
IsKnown-after_part xs d q c missed k = tt
IsKnown-after_part xs d q c (done a) k = tt
IsKnown-after_part xs d q c (holds p) k = ids-after_part xs d q p c.id k
IsKnown-after_part xs d q c (counted p) k = (ids-after_part xs d q p c.id k.0, k.1)
IsKnown-after_part xs d q c (sized p size) k = (ids-after_part xs d q p c.id k.0, k.1)
IsKnown-after_part xs d q c (loaded_gets p size gets) k = (ids-after_part xs d q p c.id k.0, k.1)
IsKnown-after_part xs d q c (loaded_puts p size gets puts) k =
    (ids-after_part xs d q p c.id k.0, k.1)
