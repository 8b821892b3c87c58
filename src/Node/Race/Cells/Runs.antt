-- ===== src/Node/Race/Cells/Runs.antt =====
-- Runs of requests to a new node (cmd/node/main.go), with the shards that they create.
use mathlib.Core.List.{Perm, perm_append_comm, append_assoc}
use mathlib.Core.Path.{subst}
use mathlib.Core.List.Perm
use torua.Base.{ℕ, zero, suc, ◌≡◌, refl, sym, List, [], ◌∷◌, ◌++◌, ℤ, get, int_eq}
use torua.Node.{NodeReply}
use torua.Node.Race.{Heap, Phase, ready, Call}
use torua.Node.Race.Many.{advance_at, run_all}
use torua.Node.Race.Cells.{Cell, ids, logs, last_of, AreReplayed, after_part, IsKnown}
use torua.Node.Race.Cells.Parts.{
  IsHeapOf, answer_of, all_answered, Adds, nothing_new, advance-IsNext, IsKnown-after_part,
}

abbrev AreKnown : List ℤ → List (Call × Phase) → Type 0
AreKnown is [] = Unit
AreKnown is ((c, p) ∷ ts) = IsKnown is c p × AreKnown is ts

-- One part of one of the requests of a list.
record IsMove (xs : List Cell) (ts : List (Call × Phase)) (h' : Heap) (ts' : List (Call × Phase))
    : Type 0 where
  after : List Cell
  heap : IsHeapOf after h'
  keeps : (c : Call) (p : Phase) → IsKnown (ids xs) c p → IsKnown (ids after) c p
  known : AreKnown (ids after) ts'
  replayed : AreReplayed after
  adds : Adds (all_answered ts) (all_answered ts') xs after

all_remain :
    (is js : List ℤ) (ts : List (Call × Phase))
    → ((c : Call) (p : Phase) → IsKnown is c p → IsKnown js c p)
    → AreKnown is ts
    → AreKnown js ts
all_remain is js [] f k = tt
all_remain is js ((c, p) ∷ ts) f k = (f c p k.0, all_remain is js ts f k.1)

front_grows :
    (old now rest : List (Call × NodeReply)) (xs after : List Cell)
    → Adds old now xs after
    → Adds (old ++ rest) (now ++ rest) xs after
front_grows old now rest xs after a = record {
  new = a.new;
  now_answered =
      subst (Perm (now ++ rest)) (append_assoc a.new old rest)
        (Perm.append_right rest a.now_answered);
  now_logged = a.now_logged;
}

back_grows :
    (first old now : List (Call × NodeReply)) (xs after : List Cell)
    → Adds old now xs after
    → Adds (first ++ old) (first ++ now) xs after
back_grows first old now xs after a = record {
  new = a.new;
  now_answered = Perm.trans (Perm.append_left first a.now_answered) (
      subst (λ l. Perm l (a.new ++ (first ++ old))) (append_assoc first a.new old)
        (subst (Perm ((first ++ a.new) ++ old)) (append_assoc a.new first old)
          (Perm.append_right old (perm_append_comm first a.new))));
  now_logged = a.now_logged;
}

advance_at-IsMove :
    (xs : List Cell) (h : Heap) (ts : List (Call × Phase)) (k : ℕ)
    → IsHeapOf xs h
    → AreReplayed xs
    → AreKnown (ids xs) ts
    → IsMove xs ts (advance_at h ts k).0 (advance_at h ts k).1
unfolding advance_at
advance_at-IsMove xs h [] k g r n = record {
  after = xs;
  heap = g;
  keeps = λ c p e. e;
  known = tt;
  replayed = r;
  adds = nothing_new [] xs;
}
advance_at-IsMove xs h ((c, p) ∷ ts) zero g r n =
    let one = advance-IsNext xs h c p g r n.0 in
    record {
      after = after_part xs c p;
      heap = one.heap;
      keeps = IsKnown-after_part xs c p;
      known = (
        one.known,
        all_remain (ids xs) (ids (after_part xs c p)) ts (IsKnown-after_part xs c p) n.1,
      );
      replayed = one.replayed;
      adds = front_grows (answer_of c p) _ (all_answered ts) xs (after_part xs c p) one.adds;
    }
advance_at-IsMove xs h ((c, p) ∷ ts) (suc k) g r n =
    let rest = advance_at-IsMove xs h ts k g r n.1 in
    record {
      after = rest.after;
      heap = rest.heap;
      keeps = rest.keeps;
      known = (rest.keeps c p n.0, rest.known);
      replayed = rest.replayed;
      adds = back_grows (answer_of c p) (all_answered ts) _ xs rest.after rest.adds;
    }

-- The shards that a run has created, and the requests that it has answered.
pub record IsRun (h : Heap) (ts : List (Call × Phase)) (xs : List Cell) : Type 0 where
  pub heap : IsHeapOf xs h
  pub known : AreKnown (ids xs) ts
  pub replayed : AreReplayed xs
  pub all : Perm (all_answered ts) (logs xs)

run_all-IsRun_from :
    (h : Heap) (ts : List (Call × Phase)) (ks : List ℕ) (xs : List Cell)
    → IsRun h ts xs
    → (after : List Cell) × IsRun (run_all h ts ks).0 (run_all h ts ks).1 after
unfolding run_all
run_all-IsRun_from h ts [] xs i = (xs, i)
run_all-IsRun_from h ts (k ∷ ks) xs i =
    let move = advance_at-IsMove xs h ts k i.heap i.replayed i.known in
    run_all-IsRun_from (advance_at h ts k).0 (advance_at h ts k).1 ks move.after (record {
      heap = move.heap;
      known = move.known;
      replayed = move.replayed;
      all =
          Perm.trans move.adds.now_answered
            (Perm.trans (Perm.append_left move.adds.new i.all) (Perm.symm move.adds.now_logged));
    })

-- Requests before their first part.
abbrev pub not_begun : List Call → List (Call × Phase)
not_begun [] = []
not_begun (c ∷ cs) = (c, ready) ∷ not_begun cs

not_begun-AreKnown : (cs : List Call) → AreKnown [] (not_begun cs)
not_begun-AreKnown [] = tt
not_begun-AreKnown (c ∷ cs) = (tt, not_begun-AreKnown cs)

none_answered : (cs : List Call) → all_answered (not_begun cs) ≡ []
none_answered [] = refl
none_answered (c ∷ cs) = none_answered cs

abbrev pub empty_heap : Heap
empty_heap = record { cells = []; table = [] }

-- Any number of requests to a new node, for any shards, in whatever way their parts mix. At every
-- time the heap has the shards that were created, several of one number perhaps, and the node's map
-- has for a number the one that was created last. Each request that is answered, but for one for the
-- statistics, has reached exactly one of them, of its own number. What each shard stores is what an
-- empty store has behind the requests that have reached the shard, one after the other, with the
-- answers that they have.
pub run_all-IsRun :
    (cs : List Call) (ks : List ℕ)
    → (xs : List Cell) × IsRun
        (run_all empty_heap (not_begun cs) ks).0
        (run_all empty_heap (not_begun cs) ks).1
        xs
unfolding get last_of
run_all-IsRun cs ks = run_all-IsRun_from empty_heap (not_begun cs) ks [] (record {
  heap = record { cells = refl; table = λ id. refl };
  known = not_begun-AreKnown cs;
  replayed = tt;
  all = subst (λ l. Perm l []) (sym (none_answered cs)) (Perm.refl []);
})
