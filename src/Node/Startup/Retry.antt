-- ===== src/Node/Startup/Retry.antt =====
-- How often `register` of cmd/node/main.go tries, and how it ends.
use torua.Base.{
  ℕ, zero, suc, ◌+◌, ◌*◌, ◌≤◌, ◌≡◌, refl, Option, none, some, Bool, true, false, arith,
  if◌then◌else◌, leb, Option-cases, ◌||◌, inl, ltb, inr, ◌&&◌,
}
use torua.Cluster.{ClientError}
use torua.Node.Startup.{Outcome, joined, gave_up, Registration, register_from, register}

module _ {W : Type 0} (post : W → W × Option ClientError) where
  -- The world after k posts.
  pub after : ℕ → W → W
  after zero w = w
  after (suc k) w = after k (post w).0

  -- Does one of the first k posts succeed?
  pub succeeds : ℕ → W → Bool
  succeeds zero w = false
  succeeds (suc k) w =
      let rest = succeeds k (post w).0 in elim (post w).1 [ none ↦ true | some e ↦ rest ]

  abbrev pub has_joined : Outcome → Bool
  has_joined joined = true
  has_joined (gave_up e) = false

  -- How the loop ends, from `left` rounds on: after at most so many tries, none of which succeeds but
  -- the last, and it stops early only on a success. There is a pause of 400 ms behind each failure.
  pub record Ends (left a t : ℕ) (w : W) (r : Registration W) : Type 0 where
    pub tries : ℕ
    pub few : tries ≤ left
    pub counted : r.attempts ≡ a + tries
    pub state : r.world ≡ after tries w
    pub success : has_joined r.outcome ≡ succeeds tries w
    pub stops : (leb left tries || succeeds tries w) ≡ true
    pub first : (j : ℕ) → (ltb j tries && succeeds j w) ≡ false
    pub pauses : r.slept + (if succeeds tries w then 400 else 0) ≡ t + 400 * tries

  none_before_first : (w : W) (j : ℕ) → (ltb j 1 && succeeds j w) ≡ false
  unfolding succeeds
  none_before_first w zero = refl
  none_before_first w (suc j) = ground arith

  none_before_next :
      (w : W) (k : ℕ) (x : ClientError)
      → (post w).1 ≡ some x
      → ((j : ℕ) → (ltb j k && succeeds j (post w).0) ≡ false)
      → (j : ℕ) → (ltb j (suc k) && succeeds j w) ≡ false
  unfolding succeeds
  none_before_next w k x e h zero = ground arith
  none_before_next w k x e h (suc j) = ground (arith, e, h j)

  register_from-Ends :
      (left : ℕ) (w : W) (err : Option ClientError) (a t : ℕ)
      → Ends left a t w (register_from post left w err a t)
  unfolding register_from after succeeds
  register_from-Ends zero w err a t = record {
    tries = 0;
    few = omega arith;
    counted = omega arith;
    state = refl;
    success = refl;
    stops = refl;
    first = λ j. ground arith;
    pauses = omega arith;
  }
  register_from-Ends (suc left) w err a t = elim (Option-cases (post w).1) [
    | inl e ↦ record {
      tries = 1;
      few = omega arith;
      counted = ground (arith, e);
      state = ground (arith, e);
      success = ground (arith, e);
      stops = ground (arith, e);
      first = none_before_first w;
      pauses = ground (arith, e);
    }
    | inr (x, e) ↦
        let ih = register_from-Ends left (post w).0 (some x) (a + 1) (t + 400) in
        record {
          tries = suc ih.tries;
          few = omega (arith, ih.few);
          counted = ground (arith, e, ih.counted);
          state = ground (arith, e, ih.state);
          success = ground (arith, e, ih.success);
          stops = ground (arith, e, ih.stops);
          first = none_before_next w ih.tries x e ih.first;
          pauses = ground (arith, e, ih.pauses);
        }
  ]

  -- Whatever the coordinator answers, `register` ends after at most ten requests. It returns exactly
  -- if one of them succeeds, and then sends no more; else the program ends, after ten requests and
  -- four seconds of pauses.
  pub register-Ends : (w : W) → Ends 10 0 0 w (register post w)
  unfolding register
  register-Ends w = register_from-Ends 10 w none 0 0

  -- A first request that succeeds is the only one.
  pub register_once :
      (w w' : W)
      → post w ≡ (w', none)
      → register post w ≡ record { world = w'; outcome = joined; attempts = 1; slept = 0 }
  unfolding register register_from
  register_once w w' e = ground (arith, e)
