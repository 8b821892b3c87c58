-- ===== src/Shard/Interleaved.antt =====
-- DeleteRange of internal/shard/shard.go with other operations between its deletions: each Delete
-- of its loop takes the store's lock by itself.
use torua.Shard.Range.{listed_keys}
use torua.Base.{
  ◌≡◌, refl, Str, List, [], ◌∷◌, none, Bool, true, false, not, ◌&&◌, contains, if◌then◌else◌, ◌==◌,
  str_eq, arith, suc, ◌≤◌, ℕ, length, ◌∙◌,
}
use torua.Storage.{Store, StoreLaws, failed, key_not_found, is_found}
use torua.Shard.{
  Shard, shard_get, shard_put, shard_delete, delete_keys, delete_range, list_keys_in_range,
  key_in_range,
}

-- The next deletion of the loop, or an operation of someone else.
pub data Turn : Type 0 where
  deletes_next : Turn
  gets : Str → Turn
  puts : Str → Str → Turn
  deletes : Str → Turn

module _ {S : Type 0} (o : Store S) where
  -- What someone else does.
  pub other : Shard S → Turn → Shard S
  other s deletes_next = s
  other s (gets k) = (shard_get o s k).0
  other s (puts k v) = (shard_put o s k v).0
  other s (deletes k) = (shard_delete o s k).0

  -- `_ = s.Delete(key)`, for the next key of the loop
  pub delete_first : Shard S → List Str → Shard S × List Str
  delete_first s [] = (s, [])
  delete_first s (key ∷ keys) = ((shard_delete o s key).0, keys)

  pub take_turn : Shard S → List Str → Turn → Shard S × List Str
  unfolding delete_first other
  take_turn s keys deletes_next = delete_first s keys
  take_turn s keys (gets k) = (other s (gets k), keys)
  take_turn s keys (puts k v) = (other s (puts k v), keys)
  take_turn s keys (deletes k) = (other s (deletes k), keys)

  -- The loop over the keys, with what others do.
  pub run_range : Shard S → List Str → List Turn → Shard S × List Str
  unfolding take_turn
  run_range s keys [] = (s, keys)
  run_range s keys (turn ∷ turns) =
      let (s', keys') = take_turn s keys turn in run_range s' keys' turns

  pub others : Shard S → List Turn → Shard S
  unfolding other
  others s [] = s
  others s (turn ∷ turns) = others (other s turn) turns

-- How many turns the loop has.
abbrev pub own_turns : List Turn → ℕ
own_turns [] = 0
own_turns (deletes_next ∷ turns) = suc (own_turns turns)
own_turns (_ ∷ turns) = own_turns turns

abbrev pub only_own : List Str → List Turn
only_own [] = []
only_own (k ∷ keys) = deletes_next ∷ only_own keys

-- Does no one put the key?
abbrev pub no_put : Str → List Turn → Bool
no_put j [] = true
no_put j (puts k v ∷ turns) = not (k == j) && no_put j turns
no_put j (_ ∷ turns) = no_put j turns

module _ {S : Type 0} (o : Store S) (laws : StoreLaws S o)
    (puts_all : (s : S) (k v : Str) → (o.put s k v).1 ≡ none)
    (deletes_all : (s : S) (k : Str) → (o.delete s k).1 ≡ none) where
  get-shard_put :
      (s : Shard S) (k v j : Str)
      → o.get (shard_put o s k v).0.store j ≡ o.get (o.put s.store k v).0 j
  unfolding shard_put
  get-shard_put s k v j = refl

  get-shard_delete :
      (s : Shard S) (k j : Str)
      → o.get (shard_delete o s k).0.store j
        ≡ (if k == j then failed key_not_found else o.get s.store j)
  unfolding shard_delete
  get-shard_delete s k j = laws.get-delete s.store k j (deletes_all s.store k)

  same_other :
      (s t : Shard S) (turn : Turn) (j : Str)
      → o.get s.store j ≡ o.get t.store j
      → o.get (other o s turn).store j ≡ o.get (other o t turn).store j
  unfolding other shard_get shard_put shard_delete
  same_other s t deletes_next j h = h
  same_other s t (gets k) j h = h
  same_other s t (puts k v) j h = ground (
    arith,
    laws.get-put s.store k j v (puts_all s.store k v),
    laws.get-put t.store k j v (puts_all t.store k v),
  )
  same_other s t (deletes k) j h = ground (
    arith,
    laws.get-delete s.store k j (deletes_all s.store k),
    laws.get-delete t.store k j (deletes_all t.store k),
  )

  same_turn :
      (s t : Shard S) (keys : List Str) (turn : Turn) (j : Str)
      → contains keys j ≡ false
      → o.get s.store j ≡ o.get t.store j
      → (contains (take_turn o s keys turn).1 j ≡ false)
        × (o.get (take_turn o s keys turn).0.store j ≡ o.get (other o t turn).store j)
  unfolding take_turn delete_first contains
  same_turn s t [] deletes_next j u h = (u, unfold other in h)
  same_turn s t (k ∷ keys) deletes_next j u h =
      (ground arith, unfold other in ground (arith, get-shard_delete s k j))
  same_turn s t keys (gets k) j u h = (u, same_other s t (gets k) j h)
  same_turn s t keys (puts k v) j u h = (u, same_other s t (puts k v) j h)
  same_turn s t keys (deletes k) j u h = (u, same_other s t (deletes k) j h)

  -- A key that the loop does not have is as without it.
  run_range-unlisted :
      (s t : Shard S) (keys : List Str) (turns : List Turn) (j : Str)
      → contains keys j ≡ false
      → o.get s.store j ≡ o.get t.store j
      → o.get (run_range o s keys turns).0.store j ≡ o.get (others o t turns).store j
  unfolding run_range others
  run_range-unlisted s t keys [] j u h = h
  run_range-unlisted s t keys (turn ∷ turns) j u h =
      let (u', h') = same_turn s t keys turn j u h in
      run_range-unlisted (take_turn o s keys turn).0 (other o t turn) (take_turn o s keys turn).1
        turns j u' h'

  -- A key that no one puts is gone once the loop does not have it any more.
  gone_turn :
      (s : Shard S) (keys : List Str) (turn : Turn) (turns : List Turn) (j : Str)
      → no_put j (turn ∷ turns) ≡ true
      → (contains keys j ≡ false → o.get s.store j ≡ failed key_not_found)
      → (no_put j turns ≡ true)
        × (contains (take_turn o s keys turn).1 j ≡ false
            → o.get (take_turn o s keys turn).0.store j ≡ failed key_not_found)
  unfolding take_turn delete_first contains
  gone_turn s [] deletes_next turns j n h = (n, h)
  gone_turn s (k ∷ keys) deletes_next turns j n h =
      (n, λ u. ground (arith, get-shard_delete s k j, h))
  gone_turn s keys (gets k) turns j n h = (n, unfold other shard_get in h)
  gone_turn s keys (puts k v) turns j n h = (
    ground arith,
    λ u.
        unfold other shard_put in
        ground (arith, h u, laws.get-put s.store k j v (puts_all s.store k v)),
  )
  gone_turn s keys (deletes k) turns j n h =
      (n, λ u. unfold other in ground (arith, h u, get-shard_delete s k j))

  run_range-gone :
      (s : Shard S) (keys : List Str) (turns : List Turn) (j : Str)
      → no_put j turns ≡ true
      → (contains keys j ≡ false → o.get s.store j ≡ failed key_not_found)
      → (run_range o s keys turns).1 ≡ []
      → o.get (run_range o s keys turns).0.store j ≡ failed key_not_found
  unfolding run_range contains
  run_range-gone s keys [] j n h e = h (rw e refl)
  run_range-gone s keys (turn ∷ turns) j n h e =
      let (n', h') = gone_turn s keys turn turns j n h in
      run_range-gone (take_turn o s keys turn).0 (take_turn o s keys turn).1 turns j n' h' e

  run_range-ends :
      (s : Shard S) (keys : List Str) (turns : List Turn)
      → length keys ≤ own_turns turns
      → (run_range o s keys turns).1 ≡ []
  unfolding run_range take_turn delete_first
  run_range-ends s [] [] h = refl
  run_range-ends s (k ∷ keys) [] h = absurd (omega (arith, h))
  run_range-ends s [] (deletes_next ∷ turns) h = run_range-ends s [] turns (omega arith)
  run_range-ends s (k ∷ keys) (deletes_next ∷ turns) h =
      run_range-ends (shard_delete o s k).0 keys turns (omega (arith, h))
  run_range-ends s keys (gets k ∷ turns) h = run_range-ends (other o s (gets k)) keys turns h
  run_range-ends s keys (puts k v ∷ turns) h = run_range-ends (other o s (puts k v)) keys turns h
  run_range-ends s keys (deletes k ∷ turns) h = run_range-ends (other o s (deletes k)) keys turns h

  delete_keys-run_range :
      (s : Shard S) (keys : List Str)
      → delete_keys o s keys ≡ (run_range o s keys (only_own keys)).0
  unfolding run_range take_turn delete_first delete_keys
  delete_keys-run_range s [] = refl
  delete_keys-run_range s (k ∷ keys) = delete_keys-run_range (shard_delete o s k).0 keys

  -- If the deletions of DeleteRange's loop mix with other operations on the shard, over a backend
  -- whose writes do not fail, and the loop gets as many turns as it has keys: the keys of the range
  -- that were stored when it listed them are gone, unless someone puts them meanwhile. Every other
  -- key, one of the range that was stored too late included, is as the others leave it without
  -- DeleteRange. The number returned is that of the keys that were listed. With no other operation
  -- between its turns, the loop is that of `delete_range`.
  pub delete_range_interleaved :
      (s : Shard S) (start end : Str) (turns : List Turn)
      → length (list_keys_in_range o s start end) ≤ own_turns turns
      → ((j : Str)
          → (key_in_range start end j && is_found (o.get s.store j)) ≡ true
          → no_put j turns ≡ true
          → o.get (run_range o s (list_keys_in_range o s start end) turns).0.store j
            ≡ failed key_not_found)
        × ((j : Str)
            → (key_in_range start end j && is_found (o.get s.store j)) ≡ false
            → o.get (run_range o s (list_keys_in_range o s start end) turns).0.store j
              ≡ o.get (others o s turns).store j)
        × ((delete_range o s start end).1 ≡ length (list_keys_in_range o s start end))
        × ((delete_range o s start end).0
            ≡ (run_range o s
                (list_keys_in_range o s start end)
                (only_own (list_keys_in_range o s start end))).0)
  unfolding delete_range
  delete_range_interleaved s start end turns enough = (
    (λ j listed n.
        run_range-gone s (list_keys_in_range o s start end) turns j n
          (λ u. absurd (ground (arith, u, listed, (listed_keys o laws s start end).1 j)))
          (run_range-ends s (list_keys_in_range o s start end) turns enough)),
    (λ j unlisted.
        run_range-unlisted s s (list_keys_in_range o s start end) turns j
          ((listed_keys o laws s start end).1 j ∙ unlisted) refl),
    refl,
    delete_keys-run_range s (list_keys_in_range o s start end),
  )
