-- ===== src/Resolve/Canonical.antt =====
-- Laws of split and join of aioros/_utils/_resolve.py.
use aioros.Common.{
  ℕ, ◌≡◌, refl, ap, ◌∙◌, Bool, true, false, List, [], ◌∷◌, ◌++◌, append-nil, Str, ◌==◌, is_empty,
  arith, All, All-append, Bool-cases, inl, inr, if◌then◌else◌,
}
use aioros.Resolve.{cons_head, split_on, non_empty, join_parts, split, split_all, join}

unfoldable pub has_slash : Str → Bool
has_slash [] = false
has_slash (c ∷ s) = if c == b'/' then true else has_slash s

-- a part that `split` can give: not empty, and without a slash
pub record IsPart (p : Str) : Type 0 where
  pub filled : is_empty p ≡ false
  pub whole : has_slash p ≡ false

is_empty-cons_head : (c : ℕ) (ps : List Str) → is_empty (cons_head c ps) ≡ false
is_empty-cons_head c [] = refl
is_empty-cons_head c (p ∷ ps) = refl

is_empty-split_on : (d : ℕ) (s : Str) → is_empty (split_on d s) ≡ false
unfolding split_on
is_empty-split_on d [] = refl
is_empty-split_on d (c ∷ s) = ground (arith, is_empty-cons_head c (split_on d s))

cons_head-append :
    (c : ℕ) (ps qs : List Str) → is_empty ps ≡ false → cons_head c (ps ++ qs) ≡ cons_head c ps ++ qs
cons_head-append c [] qs h = cc
cons_head-append c (p ∷ ps) qs h = refl

split_on-append_slash :
    (s t : Str) → split_on b'/' (s ++ b'/' ∷ t) ≡ split_on b'/' s ++ split_on b'/' t
unfolding split_on
split_on-append_slash [] t = refl
split_on-append_slash (c ∷ s) t = elim (Bool-cases (c == b'/')) [
  | inl here ↦ rw here (ap (◌∷◌ []) (split_on-append_slash s t))
  | inr there ↦ rw there (
      rw (split_on-append_slash s t)
        (cons_head-append c (split_on b'/' s) (split_on b'/' t) (is_empty-split_on b'/' s)))
]

split_on_whole : (s : Str) → has_slash s ≡ false → split_on b'/' s ≡ s ∷ []
unfolding split_on has_slash
split_on_whole [] h = refl
split_on_whole (c ∷ s) h = ground (arith, split_on_whole s)

non_empty-append : (ps qs : List Str) → non_empty (ps ++ qs) ≡ non_empty ps ++ non_empty qs
unfolding non_empty
non_empty-append [] qs = refl
non_empty-append (p ∷ ps) qs = ground (arith, non_empty-append ps qs)

pub split-append_slash : (s t : Str) → split (s ++ b'/' ∷ t) ≡ split s ++ split t
unfolding split
split-append_slash s t =
    rw (split_on-append_slash s t) (non_empty-append (split_on b'/' s) (split_on b'/' t))

pub split_part : (p : Str) → IsPart p → split p ≡ p ∷ []
unfolding split non_empty
split_part p h = rw (split_on_whole p h.whole) (rw h.filled)

-- split undoes join_parts on parts
pub split-join_parts : (ps : List Str) → All IsPart ps → split (join_parts ps) ≡ ps
unfolding join_parts
split-join_parts [] h = unfold split split_on non_empty in refl
split-join_parts (p ∷ []) h = split_part p h.0
split-join_parts (p ∷ q ∷ ps) h =
    split-append_slash p (join_parts (q ∷ ps))
    ∙ rw (split_part p h.0) (ap (◌∷◌ p) (split-join_parts (q ∷ ps) h.1))

abbrev IsWhole : Str → Type 0
IsWhole p = has_slash p ≡ false

cons_head-IsWhole :
    (c : ℕ) (ps : List Str) → (c == b'/') ≡ false → All IsWhole ps → All IsWhole (cons_head c ps)
unfolding has_slash
cons_head-IsWhole c [] n h = ground arith
cons_head-IsWhole c (p ∷ ps) n h = ground arith

split_on-IsWhole : (s : Str) → All IsWhole (split_on b'/' s)
unfolding split_on has_slash
split_on-IsWhole [] = (refl, tt)
split_on-IsWhole (c ∷ s) = elim (Bool-cases (c == b'/')) [
  | inl here ↦ rw here (refl, split_on-IsWhole s)
  | inr there ↦ rw there (cons_head-IsWhole c (split_on b'/' s) there (split_on-IsWhole s))
]

non_empty-IsPart : (ps : List Str) → All IsWhole ps → All IsPart (non_empty ps)
unfolding non_empty
non_empty-IsPart [] h = tt
non_empty-IsPart (p ∷ ps) h = elim (Bool-cases (is_empty p)) [
  | inl gone ↦ rw gone (non_empty-IsPart ps h.1)
  | inr kept ↦ rw kept (record { filled = kept; whole = h.0 }, non_empty-IsPart ps h.1)
]

pub split-IsPart : (s : Str) → All IsPart (split s)
unfolding split
split-IsPart s = non_empty-IsPart (split_on b'/' s) (split_on-IsWhole s)

split_all-IsPart : (args : List Str) → All IsPart (split_all args)
unfolding split_all
split_all-IsPart [] = tt
split_all-IsPart (arg ∷ args) =
    All-append IsPart (split arg) (split_all args) (split-IsPart arg) (split_all-IsPart args)

-- The parts of a joined name are the parts of the arguments, in order.
pub split-join : (args : List Str) → split (join args) ≡ split_all args
unfolding join
split-join args = split-join_parts (split_all args) (split_all-IsPart args)

pub join_one : (s : Str) → join (s ∷ []) ≡ join_parts (split s)
unfolding join split_all
join_one s = rw append-nil

-- Joining is idempotent: a canonical name stays.
pub join-join : (args : List Str) → join (join args ∷ []) ≡ join args
join-join args = join_one (join args) ∙ rw (split-join args) (unfold join in refl)

pub split-slash_append : (s : Str) → split (b'/' ∷ s) ≡ split s
split-slash_append s = split-append_slash [] s ∙ unfold split split_on non_empty in refl

pub split-append_slash_end : (s : Str) → split (s ++ b'/' ∷ []) ≡ split s
split-append_slash_end s =
    split-append_slash s [] ∙ unfold split split_on non_empty in append-nil (split s)
