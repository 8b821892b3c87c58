-- ===== src/Node/Session.antt =====
-- Sequences of requests for keys to a node, cmd/node/main.go, against a table from shard numbers and
-- keys to values.
use torua.Base.{
  ℕ, ◌≤◌, ◌≡◌, refl, ◌∙◌, Str, List, [], ◌∷◌, ◌++◌, Bool, true, false, not, some, ◌&&◌, ascii, get,
  ℤ, pos, max_int, if◌then◌else◌, ◌==◌, str_eq, int_eq, arith, ==_refl, ap, Option, none, sym,
  str_beq,
}
use torua.Storage.{Lookup, found, failed, key_not_found}
use torua.Http.{get_method, put_method, delete_method, Request}
use torua.Node.{Node, NodeReply, plain, new_node, handle_shard_request, get_reply}
use torua.Node.Path.{shard_url}
use torua.Node.Endpoints.{stored, get_endpoint, put_endpoint, delete_endpoint}

-- A key of a shard; the key is not empty.
pub record Place : Type 0 where
  pub shard : ℕ
  pub head : ℕ
  pub tail : Str

pub data Op : Type 0 where
  read : Place → Op
  write : Place → Str → Op
  erase : Place → Op

abbrev pub path_of : Place → Str
path_of p = shard_url p.shard (ascii "store/" ++ p.head ∷ p.tail)

unfoldable pub request_of : Op → Request
request_of (read p) = record {
  method = get_method;
  path = path_of p;
  body = some [];
  content_type = [];
}
request_of (write p v) = record {
  method = put_method;
  path = path_of p;
  body = some v;
  content_type = [];
}
request_of (erase p) = record {
  method = delete_method;
  path = path_of p;
  body = some [];
  content_type = [];
}

abbrev place : Op → Place
place (read p) = p
place (write p v) = p
place (erase p) = p

-- The shard numbers are in the range of int.
abbrev pub IsSmall : List Op → Type 0
IsSmall [] = Unit
IsSmall (x ∷ xs) = ((place x).shard ≤ max_int) × IsSmall xs

-- The values, `none` where there is none.
abbrev pub Table : Type 0
Table = ℤ → Str → Option Str

abbrev is_at : Place → ℤ → Str → Bool
is_at p j k = pos p.shard == j && (p.head ∷ p.tail) == k

abbrev shown : Option Str → NodeReply
shown none = plain 404 (ascii "key not found")
shown (some v) = plain 200 v

pub table_step : Table → Op → Table × NodeReply
table_step f (read p) = (f, shown (f (pos p.shard) (p.head ∷ p.tail)))
table_step f (write p v) = ((λ j k. if is_at p j k then some v else f j k), plain 204 [])
table_step f (erase p) = ((λ j k. if is_at p j k then none else f j k), plain 204 [])

pub table_answers : Table → List Op → List NodeReply
table_answers f [] = []
table_answers f (x ∷ xs) = (table_step f x).1 ∷ table_answers (table_step f x).0 xs

unfoldable pub node_answers : Node → List Op → List NodeReply
node_answers n [] = []
node_answers n (x ∷ xs) =
    let (n', a) = handle_shard_request n (request_of x) in a ∷ node_answers n' xs

unfoldable pub node_after : Node → List Op → Node
node_after n [] = n
node_after n (x ∷ xs) = node_after (handle_shard_request n (request_of x)).0 xs

-- What is stored behind a request.
stored_step : (ℤ → Str → Lookup) → Op → ℤ → Str → Lookup
stored_step f (read p) = f
stored_step f (write p v) = λ j k. if is_at p j k then found v else f j k
stored_step f (erase p) = λ j k. if is_at p j k then failed key_not_found else f j k

answer : (ℤ → Str → Lookup) → Op → NodeReply
answer f (read p) = get_reply (f (pos p.shard) (p.head ∷ p.tail))
answer f (write p v) = plain 204 []
answer f (erase p) = plain 204 []

step_lem :
    (n : Node) (x : Op)
    → (place x).shard ≤ max_int
    → ((j : ℤ) (k : Str)
        → stored (handle_shard_request n (request_of x)).0 j k ≡ stored_step (stored n) x j k)
      × ((handle_shard_request n (request_of x)).1 ≡ answer (stored n) x)
unfolding stored_step answer request_of
step_lem n (read p) small =
    let one = get_endpoint n (request_of (read p)) p.shard p.head p.tail refl small in
    ((λ j k. (one j k refl).0), (one (pos p.shard) (p.head ∷ p.tail) refl).1)
step_lem n (write p v) small =
    let one = put_endpoint n (request_of (write p v)) p.shard p.head p.tail refl small in
    ((λ j k. (one j k v refl refl).0), (one (pos p.shard) (p.head ∷ p.tail) v refl refl).1)
step_lem n (erase p) small =
    let one = delete_endpoint n (request_of (erase p)) p.shard p.head p.tail refl small in
    ((λ j k. (one j k refl).0), (one (pos p.shard) (p.head ∷ p.tail) refl).1)

abbrev as_lookup : Option Str → Lookup
as_lookup none = failed key_not_found
as_lookup (some v) = found v

-- The node holds the values of the table.
abbrev Represents : Node → Table → Type 0
Represents n f = (j : ℤ) (k : Str) → stored n j k ≡ as_lookup (f j k)

get_reply-as_lookup : (o : Option Str) → get_reply (as_lookup o) ≡ shown o
unfolding get_reply str_beq
get_reply-as_lookup none = refl
get_reply-as_lookup (some v) = refl

as_lookup-if :
    (b : Bool) (o p : Option Str)
    → as_lookup (if b then o else p) ≡ (if b then as_lookup o else as_lookup p)
as_lookup-if true o p = refl
as_lookup-if false o p = refl

step-Represents :
    (n : Node) (f : Table) (x : Op)
    → (place x).shard ≤ max_int
    → Represents n f
    → Represents (handle_shard_request n (request_of x)).0 (table_step f x).0
      × ((handle_shard_request n (request_of x)).1 ≡ (table_step f x).1)
unfolding table_step stored_step answer
step-Represents n f (read p) small r =
    let (kept, said) = step_lem n (read p) small in
    (
      (λ j k. kept j k ∙ r j k),
      said
          ∙ ap get_reply (r (pos p.shard) (p.head ∷ p.tail))
          ∙ get_reply-as_lookup (f (pos p.shard) (p.head ∷ p.tail)),
    )
step-Represents n f (write p v) small r =
    let (kept, said) = step_lem n (write p v) small in
    (
      (λ j k.
          kept j k
          ∙ ap (λ l. if is_at p j k then found v else l) (r j k)
          ∙ sym (as_lookup-if (is_at p j k) (some v) (f j k))),
      said,
    )
step-Represents n f (erase p) small r =
    let (kept, said) = step_lem n (erase p) small in
    (
      (λ j k.
          kept j k
          ∙ ap (λ l. if is_at p j k then failed key_not_found else l) (r j k)
          ∙ sym (as_lookup-if (is_at p j k) none (f j k))),
      said,
    )

answers_of :
    (n : Node) (f : Table) (xs : List Op)
    → IsSmall xs
    → Represents n f
    → node_answers n xs ≡ table_answers f xs
unfolding node_answers table_answers
answers_of n f [] s r = refl
answers_of n f (x ∷ xs) s r =
    let one = step-Represents n f x s.0 r in
    cc (one.1, answers_of (handle_shard_request n (request_of x)).0 (table_step f x).0 xs s.1 one.0)

-- The handler of a new node answers every sequence of GET, PUT and DELETE requests for keys of
-- shards as an empty table from shard numbers and keys to values does: 200 with the value or 404 with
-- "key not found" to a GET, 204 with no text to the others. The keys are not empty and the shard
-- numbers are in the range of int. The requests are those that come to the handler, behind the
-- router, which sends a path that is not clean elsewhere.
pub node_answers-refine :
    (id : Str) (xs : List Op)
    → IsSmall xs
    → node_answers (new_node id) xs ≡ table_answers (λ j k. none) xs
unfolding new_node stored get
node_answers-refine id xs s = answers_of (new_node id) (λ j k. none) xs s (λ j k. refl)

-- Does no request of the list write or erase the place?
unfoldable pub is_untouched : Place → List Op → Bool
is_untouched p [] = true
is_untouched p (read q ∷ xs) = is_untouched p xs
is_untouched p (write q v ∷ xs) = not (is_at q (pos p.shard) (p.head ∷ p.tail)) && is_untouched p xs
is_untouched p (erase q ∷ xs) = not (is_at q (pos p.shard) (p.head ∷ p.tail)) && is_untouched p xs

stored-node_after :
    (n : Node) (p : Place) (xs : List Op)
    → IsSmall xs
    → is_untouched p xs ≡ true
    → stored (node_after n xs) (pos p.shard) (p.head ∷ p.tail)
      ≡ stored n (pos p.shard) (p.head ∷ p.tail)
unfolding node_after is_untouched stored_step
stored-node_after n p [] s u = refl
stored-node_after n p (read q ∷ xs) s u =
    stored-node_after (handle_shard_request n (request_of (read q))).0 p xs s.1 u
    ∙ (step_lem n (read q) s.0).0 (pos p.shard) (p.head ∷ p.tail)
stored-node_after n p (write q v ∷ xs) s u =
    let away : is_at q (pos p.shard) (p.head ∷ p.tail) ≡ false = ground arith in
    stored-node_after (handle_shard_request n (request_of (write q v))).0 p xs s.1 (ground arith)
    ∙ (step_lem n (write q v) s.0).0 (pos p.shard) (p.head ∷ p.tail)
    ∙ rw away refl
stored-node_after n p (erase q ∷ xs) s u =
    let away : is_at q (pos p.shard) (p.head ∷ p.tail) ≡ false = ground arith in
    stored-node_after (handle_shard_request n (request_of (erase q))).0 p xs s.1 (ground arith)
    ∙ (step_lem n (erase q) s.0).0 (pos p.shard) (p.head ∷ p.tail)
    ∙ rw away refl

-- A value that is PUT comes back: whatever the node held before, and whatever requests for keys
-- follow that do not PUT or DELETE the same key of the same shard, a GET then answers 200 with it.
pub read_back :
    (n : Node) (p : Place) (v : Str) (xs : List Op)
    → p.shard ≤ max_int
    → IsSmall xs
    → is_untouched p xs ≡ true
    → (handle_shard_request
        (node_after (handle_shard_request n (request_of (write p v))).0 xs)
        (request_of (read p))).1
      ≡ plain 200 v
unfolding stored_step answer get_reply
read_back n p v xs small s u =
    let n' = (handle_shard_request n (request_of (write p v))).0 in
    let held : stored (node_after n' xs) (pos p.shard) (p.head ∷ p.tail) ≡ found v =
      stored-node_after n' p xs s u
      ∙ (step_lem n (write p v) small).0 (pos p.shard) (p.head ∷ p.tail)
      ∙ rw (==_refl (pos p.shard), ==_refl (p.head ∷ p.tail)) refl in
    (step_lem (node_after n' xs) (read p) small).1 ∙ ap get_reply held
