-- ===== src/Storage/Refinement.antt =====
-- `MemoryStore` of internal/storage/store.go and its abstract view, a function from keys to values.
use torua.Base.{
  ◌≡◌, refl, Str, List, [], ◌∷◌, Option, none, some, get, get-put, get-remove, if◌then◌else◌, ◌==◌,
  arith, str_eq,
}
use torua.Storage.{
  MemoryStore, Lookup, found, failed, key_not_found, StoreError, memory_get, memory_put,
  memory_delete, new_memory_store, lookup_of,
}

pub data Call : Type 0 where
  get_call : Str → Call
  put_call : Str → Str → Call
  delete_call : Str → Call

-- What a caller sees of one call.
pub data Answer : Type 0 where
  looked_up : Lookup → Answer
  finished : Option StoreError → Answer

unfoldable pub serve : MemoryStore → Call → MemoryStore × Answer
serve m (get_call k) = (m, looked_up (memory_get m k))
serve m (put_call k v) = let (m', e) = memory_put m k v in (m', finished e)
serve m (delete_call k) = let (m', e) = memory_delete m k in (m', finished e)

-- The abstract store: a partial function, with the answers that the interface promises.
abbrev pub Spec : Type 0
Spec = Str → Option Str

spec_serve : Spec → Call → Spec × Answer
spec_serve f (get_call k) =
    (f, looked_up (elim (f k) [ none ↦ failed key_not_found | some v ↦ found v ]))
spec_serve f (put_call k v) = ((λ j. if k == j then some v else f j), finished none)
spec_serve f (delete_call k) = ((λ j. if k == j then none else f j), finished none)

unfoldable pub answers : MemoryStore → List Call → List Answer
answers m [] = []
answers m (c ∷ cs) = (serve m c).1 ∷ answers (serve m c).0 cs

pub spec_answers : Spec → List Call → List Answer
spec_answers f [] = []
spec_answers f (c ∷ cs) = (spec_serve f c).1 ∷ spec_answers (spec_serve f c).0 cs

abbrev Represents : MemoryStore → Spec → Type 0
Represents m f = (k : Str) → get m.entries k ≡ f k

serve-Represents :
    (m : MemoryStore) (f : Spec) (c : Call)
    → Represents m f
    → Represents (serve m c).0 (spec_serve f c).0
unfolding serve spec_serve memory_put memory_delete
serve-Represents m f (get_call k) r = r
serve-Represents m f (put_call k v) r = λ j. ground (arith, get-put m.entries k j v, r j)
serve-Represents m f (delete_call k) r = λ j. ground (arith, get-remove m.entries k j, r j)

serve_answer :
    (m : MemoryStore) (f : Spec) (c : Call) → Represents m f → (serve m c).1 ≡ (spec_serve f c).1
unfolding serve spec_serve memory_get memory_put memory_delete lookup_of
serve_answer m f (get_call k) r = ground (arith, r k)
serve_answer m f (put_call k v) r = refl
serve_answer m f (delete_call k) r = refl

answers_of :
    (m : MemoryStore) (f : Spec) (cs : List Call)
    → Represents m f
    → answers m cs ≡ spec_answers f cs
unfolding answers spec_answers
answers_of m f [] r = refl
answers_of m f (c ∷ cs) r = cc (
  serve_answer m f c r,
  answers_of (serve m c).0 (spec_serve f c).0 cs (serve-Represents m f c r),
)

-- A new MemoryStore answers every sequence of Get, Put and Delete calls as the partial function
-- that starts empty does.
pub answers-refine : (cs : List Call) → answers new_memory_store cs ≡ spec_answers (λ _. none) cs
unfolding new_memory_store get
answers-refine cs = answers_of new_memory_store (λ _. none) cs (λ k. refl)
