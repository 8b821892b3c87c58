-- ===== src/Examples/Threads.antt =====
-- Handlers and callbacks of the coordinator that mix.
use torua.Base.{◌≡◌, refl, ℕ, zero, suc, List, [], ◌∷◌, none, some, str_beq, contains, keep, str_eq}
use torua.Coordinator.{new_server, node_exists, assigned_shards}
use torua.Coordinator.Invariant.{IsValid}
use torua.Coordinator.Redistribution.{IsCovered}
use torua.Coordinator.Threads.{
  Job, Machine, Reach, here, next, register, go, looping, proceed, begin_register, with_jobs,
}
use torua.Coordinator.Threads.Safety.{Reach-IsSafe}
use torua.Coordinator.Threads.Coverage.{loop_end-IsCovered}
use torua.Registry.{get_all_assignments, values, new_shard_registry}
use torua.Examples.Data.{fresh, node_a, register_a}

abbrev idle : Machine
idle = record { server = fresh; jobs = [] }

-- The first node has come.
abbrev arrived : Machine
arrived = with_jobs (begin_register fresh (some register_a)) []

-- The first job goes on by one part.
go_on : Machine → Machine
go_on m = elim m.jobs [ [] ↦ m | j ∷ js ↦ with_jobs (proceed m.server j) js ]

go_on_times : ℕ → Machine → Machine
unfolding go_on
go_on_times zero m = m
go_on_times (suc k) m = go_on (go_on_times k m)

go_on-Reach : {u : Machine} (m : Machine) → Reach u m → Reach u (go_on m)
unfolding go_on
go_on-Reach {u} m r =
    let P : List Job → Type 0 = λ jobs.
      m.jobs ≡ jobs → Reach u (elim jobs [ [] ↦ m | j ∷ js ↦ with_jobs (proceed m.server j) js ]) in
    elim m.jobs as P [ [] ↦ λ e. r | j ∷ js ↦ λ e. next r (go m [] js j e) ] refl

go_on_times-Reach : {u : Machine} (k : ℕ) (m : Machine) → Reach u m → Reach u (go_on_times k m)
unfolding go_on_times
go_on_times-Reach zero m r = r
go_on_times-Reach (suc k) m r = go_on-Reach (go_on_times k m) (go_on_times-Reach k m r)

Reach-IsSafe_example : IsValid (begin_register fresh (some register_a)).0
Reach-IsSafe_example = Reach-IsSafe (λ d. none) [] (next here (register idle (some register_a)))

at_end : (go_on_times 6 arrived).jobs ≡ looping (node_a ∷ []) [] 0 4 0 ∷ []
unfolding go_on_times go_on proceed begin_register new_server str_beq node_exists keep
    get_all_assignments assigned_shards values new_shard_registry contains
at_end = refl

-- The loop of the first node's registration is at its end.
reached : Reach idle (go_on_times 6 arrived)
reached = go_on_times-Reach 6 arrived (next here (register idle (some register_a)))

loop_end-IsCovered_example : IsCovered (go_on_times 6 arrived).server.registry
loop_end-IsCovered_example =
    loop_end-IsCovered (λ d. none) [] reached [] [] (node_a ∷ []) [] 0 4 at_end here
