-- ===== src/Node/Race/Cells.antt =====
-- Every shard that the requests to a new node create (cmd/node/main.go), also those that the node's
-- map has lost: GetShard and AddShard take the lock separately, so several requests may each create
-- the same shard.
pub mod Parts
pub mod Runs
pub mod Values
pub mod Reads
use mathlib.Core.List.{Perm, perm_middle}
use mathlib.Core.List.Perm
use torua.Base.{
  ℕ, zero, suc, ◌≡◌, refl, ◌∙◌, ap, sym, List, [], ◌∷◌, ◌++◌, ℤ, get, int_eq, Option, none, some,
  Bool, true, false, if◌then◌else◌, ◌==◌, arith, get_elem?, length, set, get-put, Option-cases,
  Bool-cases, int_beq_iff, inl, inr,
}
use torua.Storage.{MemoryStore, new_memory_store}
use torua.Shard.{new_shard}
use torua.Node.{MemoryShard, NodeReply}
use torua.Node.Race.{
  Phase, ready, missed, holds, counted, sized, loaded_gets, loaded_puts, done, Call, is_stats,
  count, act, empty_shard,
}
use torua.Node.Race.Effects.{on_store, perform-on_store}

-- The store comes from an empty one by the requests of the list, one after the other, with these
-- answers. The last stands first. None of them is for the statistics.
pub data Replays : List (Call × NodeReply) → MemoryStore → Type 0 where
  none_yet : Replays [] new_memory_store
  then_one :
      {order : List (Call × NodeReply)} {m : MemoryStore} (c : Call)
      → is_stats c ≡ false
      → Replays order m
      → Replays ((c, (on_store c m).1) ∷ order) (on_store c m).0

-- A shard that has been created: its number, the requests that it has answered, the last one first,
-- and what it holds.
pub record Cell : Type 0 where
  pub id : ℤ
  pub log : List (Call × NodeReply)
  pub shard : MemoryShard

abbrev pub shards : List Cell → List MemoryShard
shards [] = []
shards (x ∷ xs) = x.shard ∷ shards xs

abbrev pub ids : List Cell → List ℤ
ids [] = []
ids (x ∷ xs) = x.id ∷ ids xs

abbrev pub logs : List Cell → List (Call × NodeReply)
logs [] = []
logs (x ∷ xs) = x.log ++ logs xs

-- The place of the last shard with the number.
pub last_of : ℤ → List ℤ → Option ℕ
last_of id [] = none
last_of id (i ∷ is) = elim (last_of id is) [
  | some p ↦ some (suc p)
  | none ↦ if i == id then some 0 else none
]

abbrev pub IsOf : ℤ → List (Call × NodeReply) → Type 0
IsOf id [] = Unit
IsOf id ((c, a) ∷ l) = (c.id ≡ id) × IsOf id l

-- Each shard has the store of a new one behind its requests, one after the other, with their answers; all of them
-- are for its number.
abbrev pub AreReplayed : List Cell → Type 0
AreReplayed [] = Unit
AreReplayed (x ∷ xs) = (Replays x.log x.shard.store × IsOf x.id x.log) × AreReplayed xs

abbrev pub fresh_cell : ℤ → Cell
fresh_cell id = record { id = id; log = []; shard = empty_shard id }

abbrev pub with_count : Call → Cell → Cell
with_count c x = record x { shard = count c x.shard }

abbrev pub with_call : Call → Cell → Cell
with_call c x = record {
  id = x.id;
  log = (c, (act c x.shard).1) ∷ x.log;
  shard = (act c x.shard).0;
}

pub change_at : (Cell → Cell) → List Cell → ℕ → List Cell
change_at f [] p = []
change_at f (x ∷ xs) zero = f x ∷ xs
change_at f (x ∷ xs) (suc p) = x ∷ change_at f xs p

-- The shards behind one part of a request.
pub after_part : List Cell → Call → Phase → List Cell
after_part xs c missed = xs ++ fresh_cell c.id ∷ []
after_part xs c (holds p) = if is_stats c then xs else change_at (with_count c) xs p
after_part xs c (counted p) = change_at (with_call c) xs p
after_part xs c _ = xs

-- A request holds a shard of its number, and goes through the parts of its operation.
abbrev pub IsKnown : List ℤ → Call → Phase → Type 0
IsKnown is c ready = Unit
IsKnown is c missed = Unit
IsKnown is c (holds p) = get_elem? is p ≡ some c.id
IsKnown is c (counted p) = (get_elem? is p ≡ some c.id) × (is_stats c ≡ false)
IsKnown is c (sized p size) = (get_elem? is p ≡ some c.id) × (is_stats c ≡ true)
IsKnown is c (loaded_gets p size gets) = (get_elem? is p ≡ some c.id) × (is_stats c ≡ true)
IsKnown is c (loaded_puts p size gets puts) = (get_elem? is p ≡ some c.id) × (is_stats c ≡ true)
IsKnown is c (done a) = Unit

pub cell_at :
    (xs : List Cell) (p : ℕ) (i : ℤ)
    → get_elem? (ids xs) p ≡ some i
    → (x : Cell) × (get_elem? xs p ≡ some x) × (x.id ≡ i)
cell_at [] p i e = cc
cell_at (x ∷ xs) zero i e = (x, refl, ground (arith, e))
cell_at (x ∷ xs) (suc p) i e = cell_at xs p i e

pub shard_at :
    (xs : List Cell) (p : ℕ) (x : Cell)
    → get_elem? xs p ≡ some x
    → get_elem? (shards xs) p ≡ some x.shard
shard_at [] p x e = cc
shard_at (y ∷ xs) zero x e = cc
shard_at (y ∷ xs) (suc p) x e = shard_at xs p x e

module _ (f : Cell → Cell) where
  pub shards-change_at :
      (xs : List Cell) (p : ℕ) (x : Cell)
      → get_elem? xs p ≡ some x
      → shards (change_at f xs p) ≡ set (shards xs) p (f x).shard
  unfolding change_at
  shards-change_at [] p x e = refl
  shards-change_at (y ∷ xs) zero x e =
      let same : y ≡ x = cc e in ap (λ (z : Cell). (f z).shard ∷ shards xs) same
  shards-change_at (y ∷ xs) (suc p) x e = ap (◌∷◌ y.shard) (shards-change_at xs p x e)

  module _ (keeps : (x : Cell) → (f x).id ≡ x.id) where
    pub ids-change_at : (xs : List Cell) (p : ℕ) → ids (change_at f xs p) ≡ ids xs
    unfolding change_at
    ids-change_at [] p = refl
    ids-change_at (y ∷ xs) zero = ap (λ i. i ∷ ids xs) (keeps y)
    ids-change_at (y ∷ xs) (suc p) = ap (◌∷◌ y.id) (ids-change_at xs p)

  module _ (keeps : (x : Cell) → (f x).log ≡ x.log) where
    pub logs-change_at : (xs : List Cell) (p : ℕ) → logs (change_at f xs p) ≡ logs xs
    unfolding change_at
    logs-change_at [] p = refl
    logs-change_at (y ∷ xs) zero = ap (λ l. l ++ logs xs) (keeps y)
    logs-change_at (y ∷ xs) (suc p) = ap (λ l. y.log ++ l) (logs-change_at xs p)

module _ (c : Call) where
  pub logs-with_call :
      (xs : List Cell) (p : ℕ) (x : Cell)
      → get_elem? xs p ≡ some x
      → Perm ((c, (act c x.shard).1) ∷ logs xs) (logs (change_at (with_call c) xs p))
  unfolding change_at
  logs-with_call [] p x e = cc
  logs-with_call (y ∷ xs) zero x e =
      let same : x ≡ y = cc e in rw same (Perm.refl ((c, (act c y.shard).1) ∷ logs (y ∷ xs)))
  logs-with_call (y ∷ xs) (suc p) x e =
      Perm.trans (Perm.symm (perm_middle y.log (logs xs)))
        (Perm.append_left y.log (logs-with_call xs p x e))

  pub replayed-with_count :
      (xs : List Cell) (p : ℕ) → AreReplayed xs → AreReplayed (change_at (with_count c) xs p)
  unfolding change_at
  replayed-with_count [] p r = r
  replayed-with_count (y ∷ xs) zero r = r
  replayed-with_count (y ∷ xs) (suc p) r = (r.0, replayed-with_count xs p r.1)

  act-Replays :
      (x : Cell)
      → is_stats c ≡ false
      → Replays x.log x.shard.store
      → Replays ((c, (act c x.shard).1) ∷ x.log) (act c x.shard).0.store
  act-Replays x n r =
      let (store, answer) = perform-on_store c x.shard n in rw (store, answer) (then_one c n r)

  pub replayed-with_call :
      (xs : List Cell) (p : ℕ)
      → get_elem? (ids xs) p ≡ some c.id
      → is_stats c ≡ false
      → AreReplayed xs
      → AreReplayed (change_at (with_call c) xs p)
  unfolding change_at
  replayed-with_call [] p e n r = r
  replayed-with_call (y ∷ xs) zero e n r = ((act-Replays y n r.0.0, (cc e, r.0.1)), r.1)
  replayed-with_call (y ∷ xs) (suc p) e n r = (r.0, replayed-with_call xs p e n r.1)

pub last_of-snoc :
    (id j : ℤ) (is : List ℤ)
    → last_of id (is ++ j ∷ []) ≡ (if j == id then some (length is) else last_of id is)
unfolding last_of
last_of-snoc id j [] = refl
last_of-snoc id j (i ∷ is) = ground (arith, last_of-snoc id j is)

pub last_of-at : (id : ℤ) (is : List ℤ) (p : ℕ) → last_of id is ≡ some p → get_elem? is p ≡ some id
unfolding last_of
last_of-at id [] p e = cc
last_of-at id (i ∷ is) p e = elim (Option-cases (last_of id is)) [
  | inr (q, at) ↦
      let same : suc q ≡ p = ground (arith, at, e) in rw (sym same) (last_of-at id is q at)
  | inl never ↦ elim (Bool-cases (i == id)) [
    | inl mine ↦
        let first : 0 ≡ p = ground (arith, never, e, mine) in
        rw (sym first) (ap some ((int_beq_iff i id).0 mine))
    | inr other ↦ absurd (ground (arith, never, e, other))
  ]
]

pub ids-append : (xs : List Cell) (x : Cell) → ids (xs ++ x ∷ []) ≡ ids xs ++ x.id ∷ []
ids-append [] x = refl
ids-append (y ∷ xs) x = ap (◌∷◌ y.id) (ids-append xs x)

pub shards-append : (xs : List Cell) (x : Cell) → shards (xs ++ x ∷ []) ≡ shards xs ++ x.shard ∷ []
shards-append [] x = refl
shards-append (y ∷ xs) x = ap (◌∷◌ y.shard) (shards-append xs x)

pub length-shards : (xs : List Cell) → length (shards xs) ≡ length (ids xs)
length-shards [] = refl
length-shards (y ∷ xs) = ap suc (length-shards xs)

pub logs-append_fresh : (xs : List Cell) (id : ℤ) → logs (xs ++ fresh_cell id ∷ []) ≡ logs xs
logs-append_fresh [] id = refl
logs-append_fresh (y ∷ xs) id = ap (λ l. y.log ++ l) (logs-append_fresh xs id)

pub replayed-append :
    (xs : List Cell) (id : ℤ) → AreReplayed xs → AreReplayed (xs ++ fresh_cell id ∷ [])
unfolding new_shard
replayed-append [] id r = ((none_yet, tt), tt)
replayed-append (y ∷ xs) id r = (r.0, replayed-append xs id r.1)
