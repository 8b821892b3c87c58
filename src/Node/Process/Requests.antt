-- ===== src/Node/Process/Requests.antt =====
-- The requests for shards that a node's process takes, and the order of their parts
-- (cmd/node/main.go).
use mathlib.Core.Path.{subst}
use torua.Base.{
  ℕ, zero, suc, ◌≡◌, refl, ◌∙◌, sym, ap, List, [], ◌∷◌, ◌++◌, length, ◌<◌, arith, length-append,
  ◌≤◌,
}
use torua.Node.Race.{Heap, Call, Phase, ready}
use torua.Node.Race.Many.{advance_at, run_all}
use torua.Node.Race.Cells.Runs.{empty_heap, not_begun}
use torua.Node.Serve.Begun.{begin_call}
use torua.Node.Process.{
  Process, Step, listens, listen_fails, arrives, goes_on, posts, gives_up, notifies, kills_early,
  kills, signals, shutdown_returns, Reach, here, next,
}

-- The requests for shards that have arrived, in order.
pub arrived : {p q : Process} → Reach p q → List Call
arrived here = []
arrived (next r (arrives p x a l)) = arrived r ++ begin_call x
arrived (next r _) = arrived r

-- Whose part each step was.
pub turns : {p q : Process} → Reach p q → List ℕ
turns here = []
turns (next r (goes_on p k a l)) = turns r ++ k ∷ []
turns (next r _) = turns r

length-advance_at :
    (h : Heap) (ts : List (Call × Phase)) (k : ℕ) → length (advance_at h ts k).1 ≡ length ts
unfolding advance_at
length-advance_at h [] k = refl
length-advance_at h (t ∷ ts) zero = refl
length-advance_at h (t ∷ ts) (suc k) = ap suc (length-advance_at h ts k)

-- A request that has not begun does not change what the others do.
advance_at-append :
    (h : Heap) (ts us : List (Call × Phase)) (k : ℕ)
    → k < length ts
    → advance_at h (ts ++ us) k ≡ ((advance_at h ts k).0, (advance_at h ts k).1 ++ us)
unfolding advance_at
advance_at-append h [] us k l = absurd (omega (arith, l))
advance_at-append h (t ∷ ts) us zero l = refl
advance_at-append h (t ∷ ts) us (suc k) l =
    ap (λ (x : Heap × List (Call × Phase)). (x.0, t ∷ x.1))
      (advance_at-append h ts us k (omega arith))

-- Every turn is one of so many requests.
abbrev AreWithin : ℕ → List ℕ → Type 0
AreWithin n [] = Unit
AreWithin n (k ∷ ks) = (k < n) × AreWithin n ks

run_all-append :
    (h : Heap) (ts us : List (Call × Phase)) (ks : List ℕ)
    → AreWithin (length ts) ks
    → run_all h (ts ++ us) ks ≡ ((run_all h ts ks).0, (run_all h ts ks).1 ++ us)
unfolding run_all
run_all-append h ts us [] w = refl
run_all-append h ts us (k ∷ ks) w =
    ap (λ (x : Heap × List (Call × Phase)). run_all x.0 x.1 ks) (advance_at-append h ts us k w.0)
    ∙ run_all-append (advance_at h ts k).0 (advance_at h ts k).1 us ks
        (subst (λ n. AreWithin n ks) (sym (length-advance_at h ts k)) w.1)

run_all-snoc :
    (h : Heap) (ts : List (Call × Phase)) (ks : List ℕ) (k : ℕ)
    → run_all h ts (ks ++ k ∷ []) ≡ advance_at (run_all h ts ks).0 (run_all h ts ks).1 k
unfolding run_all
run_all-snoc h ts [] k = refl
run_all-snoc h ts (j ∷ ks) k = run_all-snoc (advance_at h ts j).0 (advance_at h ts j).1 ks k

length-run_all :
    (h : Heap) (ts : List (Call × Phase)) (ks : List ℕ) → length (run_all h ts ks).1 ≡ length ts
unfolding run_all
length-run_all h ts [] = refl
length-run_all h ts (k ∷ ks) =
    length-run_all (advance_at h ts k).0 (advance_at h ts k).1 ks ∙ length-advance_at h ts k

AreWithin-snoc : (n k : ℕ) (ks : List ℕ) → AreWithin n ks → k < n → AreWithin n (ks ++ k ∷ [])
AreWithin-snoc n k [] w l = (l, tt)
AreWithin-snoc n k (j ∷ ks) w l = (w.0, AreWithin-snoc n k ks w.1 l)

AreWithin-mono : (n m : ℕ) (ks : List ℕ) → n ≤ m → AreWithin n ks → AreWithin m ks
AreWithin-mono n m [] u w = tt
AreWithin-mono n m (k ∷ ks) u w = (omega (arith, w.0, u), AreWithin-mono n m ks u w.1)

not_begun-append : (cs ds : List Call) → not_begun (cs ++ ds) ≡ not_begun cs ++ not_begun ds
not_begun-append [] ds = refl
not_begun-append (c ∷ cs) ds = ap (λ ts. (c, ready) ∷ ts) (not_begun-append cs ds)

length-not_begun : (cs : List Call) → length (not_begun cs) ≡ length cs
length-not_begun [] = refl
length-not_begun (c ∷ cs) = ap suc (length-not_begun cs)

record IsRunOf {p q : Process} (r : Reach p q) : Type 0 where
  same : (q.heap, q.calls) ≡ run_all empty_heap (not_begun (arrived r)) (turns r)
  within : AreWithin (length (not_begun (arrived r))) (turns r)

Step-IsRunOf : {p q u : Process} (r : Reach p q) (st : Step q u) → IsRunOf r → IsRunOf (next r st)
unfolding arrived turns
Step-IsRunOf r (listens p a) i = record { same = i.same; within = i.within }
Step-IsRunOf r (listen_fails p a) i = record { same = i.same; within = i.within }
Step-IsRunOf r (arrives p x a l) i =
    let grown = not_begun-append (arrived r) (begin_call x) in
    record {
      same =
          ap (λ (y : Heap × List (Call × Phase)). (y.0, y.1 ++ not_begun (begin_call x))) i.same
          ∙ sym (
              run_all-append empty_heap (not_begun (arrived r)) (not_begun (begin_call x)) (turns r)
                i.within)
          ∙ ap (λ ts. run_all empty_heap ts (turns r)) (sym grown);
      within =
          AreWithin-mono (length (not_begun (arrived r))) _ (turns r)
            (omega (
              arith,
              ap length grown,
              length-append (not_begun (arrived r)) (not_begun (begin_call x)),
            ))
            i.within;
    }
Step-IsRunOf r (goes_on p k a l) i = record {
  same =
      ap (λ (y : Heap × List (Call × Phase)). advance_at y.0 y.1 k) i.same
      ∙ sym (run_all-snoc empty_heap (not_begun (arrived r)) (turns r) k);
  within = AreWithin-snoc (length (not_begun (arrived r))) k (turns r) i.within (
      omega (
        arith,
        l,
        ap (λ (y : Heap × List (Call × Phase)). length y.1) i.same,
        length-run_all empty_heap (not_begun (arrived r)) (turns r),
      ));
}
Step-IsRunOf r (posts p left err e) i = record { same = i.same; within = i.within }
Step-IsRunOf r (gives_up p e) i = record { same = i.same; within = i.within }
Step-IsRunOf r (notifies p e) i = record { same = i.same; within = i.within }
Step-IsRunOf r (kills_early p left e) i = record { same = i.same; within = i.within }
Step-IsRunOf r (kills p e) i = record { same = i.same; within = i.within }
Step-IsRunOf r (signals p e) i = record { same = i.same; within = i.within }
Step-IsRunOf r (shutdown_returns p e) i = record { same = i.same; within = i.within }

run_IsRunOf : {p q : Process} → p.heap ≡ empty_heap → p.calls ≡ [] → (r : Reach p q) → IsRunOf r
unfolding arrived turns run_all
run_IsRunOf e f here = record { same = cc (e, f); within = tt }
run_IsRunOf e f (next r st) = Step-IsRunOf r st (run_IsRunOf e f r)

-- The process has run the requests that have arrived, on a new node.
pub run_arrived :
    {p q : Process}
    → p.heap ≡ empty_heap
    → p.calls ≡ []
    → (r : Reach p q) → (q.heap, q.calls) ≡ run_all empty_heap (not_begun (arrived r)) (turns r)
run_arrived e f r = (run_IsRunOf e f r).same
