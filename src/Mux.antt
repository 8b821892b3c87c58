-- ===== src/Mux.antt =====
-- net/http's ServeMux, as far as the two programs use it: patterns without methods, hosts or
-- wildcards. A path is cleaned first and the client is redirected where that changes it; a pattern
-- that ends in a slash matches every path below it, and the longest pattern wins. Escapes in a URL
-- are not modelled: a path is taken after decoding.
use torua.Base.{
  refl, ◌≡◌, str_beq, Str, List, [], ◌∷◌, ◌++◌, Option, none, some, Bool, true, false, not, ◌&&◌,
  ◌||◌, length, ltb, nat_beq, reverse, has_prefix, ascii, if◌then◌else◌, ◌==◌, str_eq, str_beq, ◌≡◌,
}

-- The text up to a slash, and the segments behind it.
segments : Str → List Str
segments [] = [] ∷ []
segments (c ∷ s) = elim (segments s) [
  | [] ↦ (c ∷ []) ∷ []
  | seg ∷ rest ↦ if nat_beq c b'/' then [] ∷ seg ∷ rest else (c ∷ seg) ∷ rest
]

-- `path.Clean` on the segments of a rooted path; the segments kept so far stand last first.
resolve : List Str → List Str → List Str
resolve kept [] = reverse kept
resolve kept (seg ∷ rest) =
    let step : List Str =
      if seg == ascii ".."
      then elim kept [ [] ↦ [] | k ∷ ks ↦ ks ]
      else if seg == [] || seg == ascii "."
      then kept
      else seg ∷ kept in
    resolve step rest

join : List Str → Str
join [] = []
join (seg ∷ rest) = b'/' ∷ seg ++ join rest

ends_in_slash : Str → Bool
ends_in_slash [] = false
ends_in_slash (c ∷ []) = nat_beq c b'/'
ends_in_slash (c ∷ d ∷ s) = ends_in_slash (d ∷ s)

-- `cleanPath`
unfoldable pub clean_path : Str → Str
unfolding segments resolve join ends_in_slash
clean_path p =
    let body = join (resolve [] (segments p)) in
    if body == [] then ascii "/" else if ends_in_slash p then body ++ ascii "/" else body

pub data Matched : Type 0 where
  to_pattern : Str → Matched
  redirect : Matched
  no_pattern : Matched

unfoldable pub pattern_matches : Str → Str → Bool
unfolding ends_in_slash has_prefix
pattern_matches p path = p == path || (ends_in_slash p && has_prefix path p)

longer : Str → Option Str → Option Str
longer p none = some p
longer p (some q) = if ltb (length p) (length q) then some q else some p

unfoldable pub best_match : List Str → Str → Option Str
unfolding longer pattern_matches
best_match [] path = none
best_match (p ∷ ps) path =
    let rest = best_match ps path in if pattern_matches p path then longer p rest else rest

-- Is `path` with a slash behind it a pattern?
unfoldable pub slash_missing : List Str → Str → Bool
slash_missing [] path = false
slash_missing (p ∷ ps) path =
    let rest = slash_missing ps path in if p == path ++ ascii "/" then true else rest

choose : Option Str → Matched
choose none = no_pattern
choose (some p) = to_pattern p

unfoldable pub find_handler : List Str → Str → Matched
unfolding clean_path best_match slash_missing choose
find_handler patterns path =
    if not (clean_path path == path) then redirect else elim (best_match patterns path) [
      | some p ↦ to_pattern p
      | none ↦ if slash_missing patterns path then redirect else no_pattern
    ]

clean_up : clean_path (ascii "/a//b/./c/../d/") ≡ ascii "/a/b/d/"
unfolding clean_path str_beq
clean_up = refl

clean_root : clean_path (ascii "/../") ≡ ascii "/"
unfolding clean_path str_beq
clean_root = refl
