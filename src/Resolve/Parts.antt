-- ===== src/Resolve/Parts.antt =====
-- `split` and `join` of aioros/_utils/_resolve.py, and str.split and str.join for one character.
use aioros.Common.{ℕ, List, [], ◌∷◌, ◌++◌, Str, ◌==◌, is_empty, if◌then◌else◌}

abbrev pub cons_head : ℕ → List Str → List Str
cons_head c [] = (c ∷ []) ∷ []
cons_head c (p ∷ ps) = (c ∷ p) ∷ ps

-- s.split(d): the parts between the separators, the empty ones too
unfoldable pub split_on : ℕ → Str → List Str
split_on d [] = [] ∷ []
split_on d (c ∷ s) = let rest = split_on d s in if c == d then [] ∷ rest else cons_head c rest

-- `i for i in parts if i`
unfoldable pub non_empty : List Str → List Str
non_empty [] = []
non_empty (p ∷ ps) = let rest = non_empty ps in if is_empty p then rest else p ∷ rest

-- "/".join(parts)
unfoldable pub join_parts : List Str → Str
join_parts [] = []
join_parts (p ∷ []) = p
join_parts (p ∷ q ∷ ps) = p ++ b'/' ∷ join_parts (q ∷ ps)

-- split(key)
unfoldable pub split : Str → List Str
unfolding split_on non_empty
split key = non_empty (split_on b'/' key)

unfoldable pub split_all : List Str → List Str
unfolding split
split_all [] = []
split_all (arg ∷ args) = split arg ++ split_all args

-- join(*args)
unfoldable pub join : List Str → Str
unfolding split_all join_parts
join args = join_parts (split_all args)
