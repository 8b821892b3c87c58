-- ===== src/Storage/Buffers.antt =====
-- `MemoryStore` of internal/storage/store.go over a heap of byte slices. A value is a pointer to a
-- slice. Put and Get copy slices; a caller may write at any time to each slice that it has made or
-- has got from the store.
pub mod Isolation
use torua.Base.{
  ℕ, ◌≡◌, Str, List, [], ◌∷◌, ◌++◌, Option, none, some, Bool, true, false, length, get_elem?, set,
  contains, Map, get, put, remove, if◌then◌else◌, str_eq, nat_eq, refl, ascii, str_beq,
}
use torua.Storage.{found, failed, key_not_found}
use torua.Storage.Refinement.{Call, get_call, put_call, delete_call, Answer, looked_up, finished}

pub record Shared : Type 0 where
  -- the slices, by address
  pub cells : List Str
  -- `data map[string][]byte`
  pub table : Map Str ℕ
  -- the slices that the caller can reach
  pub owned : List ℕ

-- What the caller does: it makes a slice, writes to one, or calls the store.
pub data Event : Type 0 where
  make : Str → Event
  write : ℕ → Str → Event
  call_put : Str → ℕ → Event
  call_get : Str → Event
  call_delete : Str → Event

abbrev pub contents : Option Str → Str
contents none = []
contents (some v) = v

-- `make([]byte, len(value))` and `copy`
abbrev pub copied : List Str → ℕ → List Str
copied cells p = cells ++ contents (get_elem? cells p) ∷ []

-- The store's methods. A call comes with the values that the caller sees.
unfoldable pub store_put : Shared → Str → ℕ → Shared × (Call × Answer)
store_put s k p = (
  record s { cells = copied s.cells p; table = put s.table k (length s.cells) },
  (put_call k (contents (get_elem? s.cells p)), finished none),
)

get_found : Shared → Str → Option ℕ → Shared × (Call × Answer)
get_found s k none = (s, (get_call k, looked_up (failed key_not_found)))
get_found s k (some p) = (
  record s { cells = copied s.cells p; owned = length s.cells ∷ s.owned },
  (get_call k, looked_up (found (contents (get_elem? s.cells p)))),
)

unfoldable pub store_get : Shared → Str → Shared × (Call × Answer)
unfolding get_found
store_get s k = get_found s k (get s.table k)

unfoldable pub store_delete : Shared → Str → Shared × (Call × Answer)
store_delete s k = (record s { table = remove s.table k }, (delete_call k, finished none))

abbrev called : Shared × (Call × Answer) → Shared × List (Call × Answer)
called (s, c) = (s, c ∷ [])

-- A caller can name no slice that it does not reach.
unfoldable pub happen : Shared → Event → Shared × List (Call × Answer)
unfolding store_put store_get store_delete
happen s (make v) = (record s { cells = s.cells ++ v ∷ []; owned = length s.cells ∷ s.owned }, [])
happen s (write p v) =
    if contains s.owned p then (record s { cells = set s.cells p v }, []) else (s, [])
happen s (call_put k p) = if contains s.owned p then called (store_put s k p) else (s, [])
happen s (call_get k) = called (store_get s k)
happen s (call_delete k) = called (store_delete s k)

-- The calls of a run with their answers, in order.
unfoldable pub history : Shared → List Event → List (Call × Answer)
unfolding happen
history s [] = []
history s (e ∷ es) = (happen s e).1 ++ history (happen s e).0 es

abbrev pub no_slices : Shared
no_slices = record { cells = []; table = []; owned = [] }
