-- ===== src/Resolve/Valid.antt =====
-- The names that resolve_name of aioros/_utils/_resolve.py lets pass, and VALID_NAME.
use aioros.Common.{
  ℕ, ◌≤◌, ◌≡◌, refl, sym, ap, ◌∙◌, true, false, List, [], ◌∷◌, ◌++◌, Str, arith, All, Bool-cases,
  inl, inr, ◌⊎◌, Result, ok, err, value_error, ==_iff,
}
use aioros.Resolve.{
  is_letter, is_word, word_end, is_valid_name, split, check_parts, resolve_unchecked, resolve_name,
}

abbrev pub IsLetter : ℕ → Type 0
IsLetter c = ((97 ≤ c) × (c ≤ 122)) ⊎ ((65 ≤ c) × (c ≤ 90))

abbrev pub IsWordChar : ℕ → Type 0
IsWordChar c = IsLetter c ⊎ (((48 ≤ c) × (c ≤ 57)) ⊎ (c ≡ 95))

-- a letter and word characters, and then nothing or one newline
abbrev pub IsEnded : Str → Str → Type 0
IsEnded w s = (s ≡ w) ⊎ (s ≡ w ++ 10 ∷ [])

abbrev pub IsResourceName : Str → Type 0
IsResourceName p = (c : ℕ) × (w : Str) × IsLetter c × All IsWordChar w × IsEnded (c ∷ w) p

is_letter-IsLetter : (c : ℕ) → is_letter c ≡ true → IsLetter c
is_letter-IsLetter c h = ground arith

IsLetter-is_letter : (c : ℕ) → IsLetter c → is_letter c ≡ true
IsLetter-is_letter c h = ground arith

is_word-IsWordChar : (c : ℕ) → is_word c ≡ true → IsWordChar c
is_word-IsWordChar c h = ground arith

IsWordChar-is_word : (c : ℕ) → IsWordChar c → is_word c ≡ true
IsWordChar-is_word c h = ground arith

cons-IsEnded : (c : ℕ) (w s : Str) → IsEnded w s → IsEnded (c ∷ w) (c ∷ s)
cons-IsEnded c w s (inl whole) = inl (ap (◌∷◌ c) whole)
cons-IsEnded c w s (inr newline) = inr (ap (◌∷◌ c) newline)

newline_last : (c : ℕ) (s : Str) → is_word c ≡ false → word_end (c ∷ s) ≡ true → c ∷ s ≡ 10 ∷ []
unfolding word_end
newline_last c [] out h = ground (arith, ==_iff c 10)
newline_last c (d ∷ s) out h = ground arith

word_end_sound : (s : Str) → word_end s ≡ true → (w : Str) × All IsWordChar w × IsEnded w s
word_end_sound [] h = ([], tt, inl refl)
word_end_sound (c ∷ s) h = elim (Bool-cases (is_word c)) [
  | inr out ↦ ([], tt, inr (newline_last c s out h))
  | inl word ↦
      let (w, all, ended) = word_end_sound s (unfold word_end in ground arith) in
      (c ∷ w, (is_word-IsWordChar c word, all), cons-IsEnded c w s ended)
]

word_end-All : (w : Str) → All IsWordChar w → word_end w ≡ true
unfolding word_end
word_end-All [] h = refl
word_end-All (c ∷ w) h = rw (IsWordChar-is_word c h.0) (word_end-All w h.1)

word_end-newline : (w : Str) → All IsWordChar w → word_end (w ++ 10 ∷ []) ≡ true
unfolding word_end
word_end-newline [] h = refl
word_end-newline (c ∷ w) h = rw (IsWordChar-is_word c h.0) (word_end-newline w h.1)

is_valid_name_sound : (p : Str) → is_valid_name p ≡ true → IsResourceName p
unfolding is_valid_name
is_valid_name_sound [] h = cc
is_valid_name_sound (c ∷ s) h =
    let (w, all, ended) = word_end_sound s (ground arith) in
    (c, w, is_letter-IsLetter c (ground arith), all, cons-IsEnded c w s ended)

is_valid_name_complete : (p : Str) → IsResourceName p → is_valid_name p ≡ true
unfolding is_valid_name
is_valid_name_complete p (c, w, letter, all, inl whole) =
    rw whole (rw (IsLetter-is_letter c letter) (word_end-All w all))
is_valid_name_complete p (c, w, letter, all, inr newline) =
    rw newline (rw (IsLetter-is_letter c letter) (word_end-newline w all))

-- what a check of parts comes to
abbrev IsChecked : List Str → Result (Unit {0}) → Type 0
IsChecked ps o =
    ((o ≡ ok tt) × All IsResourceName ps) ⊎ ((o ≡ err value_error) × ¬ All IsResourceName ps)

check_parts-IsChecked : (ps : List Str) → IsChecked ps (check_parts ps)
unfolding check_parts
check_parts-IsChecked [] = inl (refl, tt)
check_parts-IsChecked (p ∷ ps) = elim (Bool-cases (is_valid_name p)) [
  | inr bad ↦ rw bad (inr (refl, λ h. cc (sym bad ∙ is_valid_name_complete p h.0)))
  | inl good ↦ rw good (elim (check_parts-IsChecked ps) [
    | inl (passed, all) ↦ inl (passed, (is_valid_name_sound p good, all))
    | inr (raised, not_all) ↦ inr (raised, λ h. not_all h.1)
  ])
]

-- resolve_name gives the name that _resolve_name makes if every part of that begins with an ASCII
-- letter, goes on with ASCII letters, digits and underscores, and ends there or with one newline; it
-- raises a ValueError if a part is anything else.
pub resolve_name-IsResourceName :
    (name node_name namespace : Str)
    → let resolved = resolve_unchecked name node_name namespace in
      ((resolve_name name node_name namespace ≡ ok resolved) × All IsResourceName (split resolved))
      ⊎ ((resolve_name name node_name namespace ≡ err value_error)
          × ¬ All IsResourceName (split resolved))
unfolding resolve_name
resolve_name-IsResourceName name node_name namespace =
    let resolved = resolve_unchecked name node_name namespace in
    elim (check_parts-IsChecked (split resolved)) [
      | inl (passed, all) ↦ inl (rw passed refl, all)
      | inr (raised, not_all) ↦ inr (rw raised refl, not_all)
    ]
