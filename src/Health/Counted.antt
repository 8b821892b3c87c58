-- ===== src/Health/Counted.antt =====
-- The failures that the monitor of internal/coordinator/health_monitor.go counts, against the checks
-- that it makes in the parts of its rounds.
use torua.Health.Tracking.{get-drop_missing}
use torua.Base.{
  ℕ, ◌+◌, ◌≤◌, ◌≡◌, Str, some, true, get, if◌then◌else◌, ◌==◌, str_eq, arith, List, contains, [],
  Option-cases, inl, inr, refl, ◌∙◌, sym, Bool-cases, get-put, put, str_beq_iff, ==_refl, false,
  Bool, ◌∷◌,
}
use torua.Health.{
  HealthMonitor, NodeHealth, Probe, update_record, record_failure, record_success, drop_missing,
  NodeInfo, new_record, callback_for,
}
use torua.Health.Parts.{Round, visiting, asking, ensure_record, finish_check, check_part}

-- How many checks of each node have failed since the last that succeeded, behind a part: only the
-- one behind `checkFunc` counts.
pub failures_after : Probe → Round → (Str → ℕ) → Str → ℕ
failures_after p (visiting nodes seen) f k = f k
failures_after p (asking node rest seen) f k =
    if node.id == k then (if p.succeeds then 0 else f k + 1) else f k

-- No record counts more failures.
abbrev pub IsCounted : HealthMonitor → (Str → ℕ) → Type 0
IsCounted h f = (k : Str) (n : NodeHealth) → get h.nodes k ≡ some n → n.consecutive_fails ≤ f k

update_record-counted :
    (h : HealthMonitor) (n : NodeHealth) (p : Probe) (most : ℕ)
    → n.consecutive_fails ≤ most
    → ((update_record h n p).0.consecutive_fails ≤ (if p.succeeds then 0 else most + 1))
      × ((update_record h n p).1 ≡ true → h.max_failures ≤ (if p.succeeds then 0 else most + 1))
unfolding update_record record_failure record_success
update_record-counted h n p most e = ground (arith, e)

-- What a part does to the counts, and the callbacks that it starts.
pub record IsStruck (h h' : HealthMonitor) (ids : List Str) (f : Str → ℕ) : Type 0 where
  pub counted : IsCounted h' f
  pub struck : (k : Str) → contains ids k ≡ true → h.max_failures ≤ f k
  pub limit : h'.max_failures ≡ h.max_failures

drop_missing-IsStruck :
    (h : HealthMonitor) (seen : List Str) (f : Str → ℕ)
    → IsCounted h f
    → IsStruck h (record h { nodes = drop_missing seen h.nodes }) [] f
unfolding contains
drop_missing-IsStruck h seen f c = record {
  counted = λ k n e. ground (arith, get-drop_missing seen h.nodes k, e, c k n);
  struck = λ k e. cc;
  limit = refl;
}

-- A record is written that counts no more than it may.
put-IsCounted :
    (h : HealthMonitor) (id : Str) (n : NodeHealth) (f g : Str → ℕ)
    → n.consecutive_fails ≤ g id
    → ((k : Str) → (id == k) ≡ false → g k ≡ f k)
    → IsCounted h f
    → IsCounted (record h { nodes = put h.nodes id n }) g
put-IsCounted h id n f g few others c k n' e = elim (Bool-cases (id == k)) [
  | inl t ↦
      let same : id ≡ k = (str_beq_iff id k).0 t in
      let this : some n ≡ some n' = sym (get-put h.nodes id k n ∙ rw t refl) ∙ e in
      let wrote : n ≡ n' = cc this in rw (sym wrote, sym same) few
  | inr t ↦ rw (others k t) (c k n' (sym (get-put h.nodes id k n ∙ rw t refl) ∙ e))
]

ensure_record-IsStruck :
    (h : HealthMonitor) (node : NodeInfo) (p : Probe) (f : Str → ℕ)
    → IsCounted h f
    → IsStruck h (ensure_record h node p) [] f
unfolding ensure_record contains
ensure_record-IsStruck h node p f c = elim (Option-cases (get h.nodes node.id)) [
  | inl e ↦
      rw (e, ensure_record)
        (record {
          counted =
              put-IsCounted h node.id (new_record node.id p) f f (omega arith) (λ k t. refl) c;
          struck = λ k e. cc;
          limit = refl;
        })
  | inr (n, e) ↦ rw (e, ensure_record) (record { counted = c; struck = λ k e. cc; limit = refl })
]

callback_for-own :
    (b : Bool) (id k : Str) → contains (callback_for b id) k ≡ true → (b ≡ true) × (id ≡ k)
unfolding contains
callback_for-own true id k e = (refl, (str_beq_iff id k).0 (ground (arith, e)))
callback_for-own false id k e = cc

finish_check-IsStruck :
    (h : HealthMonitor) (node : NodeInfo) (p : Probe) (rest : List NodeInfo) (seen : List Str)
    (f : Str → ℕ)
    → IsCounted h f
    → IsStruck h
        (finish_check h node p).0
        (finish_check h node p).1
        (failures_after p (asking node rest seen) f)
unfolding finish_check failures_after contains
finish_check-IsStruck h node p rest seen f c = elim (Option-cases (get h.nodes node.id)) [
  | inl e ↦
      rw (e, finish_check)
        (record {
          counted = λ k n g. ground (arith, str_beq_iff node.id k, e, g, c k n);
          struck = λ k e. cc;
          limit = refl;
        })
  | inr (n, e) ↦
      let one = update_record-counted h n p (f node.id) (c node.id n e) in
      rw (e, finish_check)
        (record {
          counted =
              put-IsCounted h node.id (update_record h n p).0 f
                (failures_after p (asking node rest seen) f) (rw (==_refl node.id) one.0)
                (λ k t. rw t refl) c;
          struck = λ k g.
              let (t, own) = callback_for-own (update_record h n p).1 node.id k g in
              rw (sym own) (rw (==_refl node.id) (one.1 t));
          limit = refl;
        })
]

-- A part of a round keeps the counts below the failures of the checks, and starts a callback only
-- for a node whose failures have reached the limit.
pub check_part-IsStruck :
    (h : HealthMonitor) (p : Probe) (r : Round) (f : Str → ℕ)
    → IsCounted h f
    → IsStruck h (check_part h p r).0.0 (check_part h p r).0.1 (failures_after p r f)
unfolding check_part failures_after
check_part-IsStruck h p (visiting [] seen) f c = drop_missing-IsStruck h seen f c
check_part-IsStruck h p (visiting (node ∷ rest) seen) f c = ensure_record-IsStruck h node p f c
check_part-IsStruck h p (asking node rest seen) f c = finish_check-IsStruck h node p rest seen f c
