-- ===== src/Shard/Range.antt =====
-- Range queries and range deletion: `ListKeysInRange` and `DeleteRange` of internal/shard/shard.go.
use torua.Base.{
  suc, ◌≡◌, refl, ◌∙◌, ap, Str, List, [], ◌∷◌, none, Bool, true, false, ◌&&◌, ◌||◌, length, keep,
  contains, str_lt, str_beq_iff, str_eq, if◌then◌else◌, ◌==◌, arith, not,
}
use torua.Storage.{Store, StoreLaws, failed, key_not_found, is_found}
use torua.Shard.{
  Shard, key_in_range, insert_sorted, sort_strings, list_keys_in_range, shard_delete, delete_keys,
  delete_range,
}

str_lt_asymm : (a b : Str) → str_lt a b ≡ true → str_lt b a ≡ false
unfolding str_lt
str_lt_asymm [] [] h = ground arith
str_lt_asymm [] (b ∷ t) h = refl
str_lt_asymm (a ∷ s) [] h = ground arith
str_lt_asymm (a ∷ s) (b ∷ t) h = ground (arith, str_lt_asymm s t)

-- No string is less than the one before it.
abbrev pub IsSorted : List Str → Type 0
IsSorted [] = Unit
IsSorted (x ∷ []) = Unit
IsSorted (x ∷ y ∷ l) = (str_lt y x ≡ false) × IsSorted (y ∷ l)

insert_sorted-IsSorted : (k : Str) (l : List Str) → IsSorted l → IsSorted (insert_sorted k l)
unfolding insert_sorted
insert_sorted-IsSorted k [] h = tt
insert_sorted-IsSorted k (x ∷ []) h = ground (arith, str_lt_asymm x k)
insert_sorted-IsSorted k (x ∷ y ∷ l) h =
    ground (arith, str_lt_asymm x k, str_lt_asymm y k, insert_sorted-IsSorted k (y ∷ l) h.1)

sort_strings-IsSorted : (l : List Str) → IsSorted (sort_strings l)
unfolding sort_strings
sort_strings-IsSorted [] = tt
sort_strings-IsSorted (k ∷ l) = insert_sorted-IsSorted k (sort_strings l) (sort_strings-IsSorted l)

contains-insert_sorted :
    (k j : Str) (l : List Str) → contains (insert_sorted k l) j ≡ (k == j || contains l j)
unfolding insert_sorted contains
contains-insert_sorted k j [] = refl
contains-insert_sorted k j (x ∷ l) = ground (arith, contains-insert_sorted k j l)

contains-sort_strings : (j : Str) (l : List Str) → contains (sort_strings l) j ≡ contains l j
unfolding sort_strings contains
contains-sort_strings j [] = refl
contains-sort_strings j (k ∷ l) =
    contains-insert_sorted k j (sort_strings l) ∙ ap (λ b. k == j || b) (contains-sort_strings j l)

contains-keep :
    (p : Str → Bool) (j : Str) (l : List Str) → contains (keep p l) j ≡ (p j && contains l j)
unfolding keep contains
contains-keep p j [] = ground arith
contains-keep p j (k ∷ l) = ground (arith, str_beq_iff k j, contains-keep p j l)

length-insert_sorted : (k : Str) (l : List Str) → length (insert_sorted k l) ≡ suc (length l)
unfolding insert_sorted
length-insert_sorted k [] = refl
length-insert_sorted k (x ∷ l) = ground (arith, length-insert_sorted k l)

pub length-sort_strings : (l : List Str) → length (sort_strings l) ≡ length l
unfolding sort_strings
length-sort_strings [] = refl
length-sort_strings (k ∷ l) =
    length-insert_sorted k (sort_strings l) ∙ ap suc (length-sort_strings l)

keep-below_empty : (start : Str) (l : List Str) → keep (key_in_range start []) l ≡ []
unfolding keep key_in_range str_lt
keep-below_empty start [] = refl
keep-below_empty start (k ∷ l) = ground (arith, keep-below_empty start l)

module _ {S : Type 0} (o : Store S) where
  -- With an empty end no key is listed, whatever the start, the empty one included.
  pub list_keys_in_range-empty_end :
      (s : Shard S) (start : Str) → list_keys_in_range o s start [] ≡ []
  unfolding list_keys_in_range
  list_keys_in_range-empty_end s start = ap sort_strings (keep-below_empty start (o.list s.store))

module _ {S : Type 0} (o : Store S) (laws : StoreLaws S o) where
  pub listed_keys :
      (s : Shard S) (start end : Str)
      → IsSorted (list_keys_in_range o s start end)
        × ((k : Str)
            → contains (list_keys_in_range o s start end) k
              ≡ (key_in_range start end k && is_found (o.get s.store k)))
  unfolding list_keys_in_range
  listed_keys s start end = (
    sort_strings-IsSorted (keep (key_in_range start end) (o.list s.store)),
    (λ k.
        contains-sort_strings k (keep (key_in_range start end) (o.list s.store))
        ∙ contains-keep (key_in_range start end) k (o.list s.store)
        ∙ ap (λ b. key_in_range start end k && b) (laws.list-get s.store k)),
  )

  -- The keys of a range come sorted, and a key is listed exactly when it is stored, not less than
  -- start, and less than end, byte by byte.
  pub list_keys_in_range_lem :
      (s : Shard S) (start end : Str)
      → IsSorted (list_keys_in_range o s start end)
        × ((k : Str)
            → contains (list_keys_in_range o s start end) k
              ≡ (not (str_lt k start) && str_lt k end && is_found (o.get s.store k)))
  unfolding key_in_range
  list_keys_in_range_lem s start end = listed_keys s start end

  module _ (total : (s : S) (k : Str) → (o.delete s k).1 ≡ none) where
    get-delete_keys :
        (ks : List Str) (s : Shard S) (j : Str)
        → o.get (delete_keys o s ks).store j
          ≡ (if contains ks j then failed key_not_found else o.get s.store j)
    unfolding delete_keys contains
    get-delete_keys [] s j = refl
    get-delete_keys (k ∷ ks) s j =
        get-delete_keys ks (shard_delete o s k).0 j
        ∙ unfold shard_delete in ground (arith, laws.get-delete s.store k j (total s.store k))

    -- Over a backend whose deletions do not fail, DeleteRange returns the number of stored keys in
    -- the range. Afterwards a Get of such a key fails with ErrKeyNotFound, and a Get of any other key
    -- is as before.
    pub delete_range_lem :
        (s : Shard S) (start end : Str)
        → ((delete_range o s start end).1 ≡ length (keep (key_in_range start end) (o.list s.store)))
          × ((j : Str)
              → o.get (delete_range o s start end).0.store j ≡ (
                  if key_in_range start end j && is_found (o.get s.store j)
                  then failed key_not_found
                  else o.get s.store j))
    unfolding delete_range
    delete_range_lem s start end = (
      (unfold list_keys_in_range in
          length-sort_strings (keep (key_in_range start end) (o.list s.store))),
      (λ j.
          get-delete_keys (list_keys_in_range o s start end) s j
          ∙ ap (λ b. if b then failed key_not_found else o.get s.store j)
              ((listed_keys s start end).1 j)),
    )
