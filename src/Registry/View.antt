-- ===== src/Registry/View.antt =====
-- The registry as its clients see it, internal/coordinator/shard_registry.go: the number of shards
-- and what GetAssignment gives for each of them. The order in which Go's map ranges over its
-- entries is forgotten: a view is a class of registries that agree on these.
use mathlib.Core.Quot
use mathlib.Core.Quot.{Quot, Quot-set}
use torua.Base.{◌≡◌, ap, Option, ℤ, int_eq, str_eq}
use torua.Registry.{ShardAssignment, ShardRegistry, get_assignment}

-- The same number of shards, and the same assignment of each.
abbrev pub Same : ShardRegistry → ShardRegistry → Type 0
Same r s = (r.num_shards ≡ s.num_shards) × ((i : ℤ) → get_assignment r i ≡ get_assignment s i)

abbrev pub View : Type 0
View = Quot Same

abbrev pub view : ShardRegistry → View
view = Quot.mk

-- What a view tells: the number of its shards and the assignment of a shard.
unfoldable pub count : View → ℤ
count = Quot.lift (hlevel) (λ r. r.num_shards) λ r s h. h.0

unfoldable pub lookup : ℤ → View → Option ShardAssignment
lookup i = Quot.lift (hlevel) (λ r. get_assignment r i) λ r s h. h.1 i

pub exact : {r s : ShardRegistry} → view r ≡ view s → Same r s
unfolding count lookup
exact e = (ap count e, (λ i. ap (lookup i) e))
