-- ===== src/Master/Node/Sets.antt =====
-- Laws of the sets of names and of registrations, aioros/master/_registry.py.
use aioros.Common.{
  ◌≡◌, ◌↔◌, refl, true, false, ◌||◌, List, [], ◌∷◌, ◌++◌, Str, str_eq, str_eq_iff, contains,
  is_empty, arith, Bool-cases, inl, inr, if◌then◌else◌,
}
use aioros.Master.Node.{
  Registration, add, discard, same_registration, is_registered, add_registration,
  discard_registration,
}

contains-append_one :
    (s : List Str) (n m : Str) → contains (s ++ n ∷ []) m ≡ (contains s m || str_eq n m)
unfolding contains
contains-append_one [] n m = ground arith
contains-append_one (j ∷ s) n m = ground (arith, contains-append_one s n m)

pub contains-add : (n m : Str) (s : List Str) → contains (add n s) m ≡ (contains s m || str_eq n m)
unfolding add
contains-add n m s = elim (Bool-cases (contains s n)) [
  | inl old ↦ rw old (ground (arith, str_eq_iff n m))
  | inr new ↦ rw new (contains-append_one s n m)
]

pub contains-discard :
    (n m : Str) (s : List Str)
    → contains (discard n s) m ≡ (if str_eq n m then false else contains s m)
unfolding contains discard
contains-discard n m [] = ground arith
contains-discard n m (j ∷ s) =
    ground (arith, contains-discard n m s, str_eq_iff j n, str_eq_iff j m, str_eq_iff n m)

pub same_registration_iff : (a b : Registration) → (same_registration a b ≡ true) ↔ (a ≡ b)
unfolding same_registration
same_registration_iff a b =
    ground (arith, str_eq_iff a.caller_id b.caller_id, str_eq_iff a.api b.api)

is_registered-append_one :
    (regs : List Registration) (a b : Registration)
    → is_registered (regs ++ a ∷ []) b ≡ (is_registered regs b || same_registration a b)
unfolding is_registered
is_registered-append_one [] a b = ground arith
is_registered-append_one (c ∷ regs) a b = ground (arith, is_registered-append_one regs a b)

pub is_registered-add :
    (a b : Registration) (regs : List Registration)
    → is_registered (add_registration a regs) b ≡ (is_registered regs b || same_registration a b)
unfolding add_registration
is_registered-add a b regs = elim (Bool-cases (is_registered regs a)) [
  | inl old ↦ rw old (ground (arith, same_registration_iff a b))
  | inr new ↦ rw new (is_registered-append_one regs a b)
]

pub is_registered-discard :
    (a b : Registration) (regs : List Registration)
    → is_registered (discard_registration a regs) b
      ≡ (if same_registration a b then false else is_registered regs b)
unfolding is_registered discard_registration
is_registered-discard a b [] = ground arith
is_registered-discard a b (c ∷ regs) = ground (
  arith,
  is_registered-discard a b regs,
  same_registration_iff c a,
  same_registration_iff c b,
  same_registration_iff a b,
)

-- a set without members has no member
pub is_registered_of_empty :
    (regs : List Registration) (a : Registration)
    → is_empty regs ≡ true
    → is_registered regs a ≡ false
unfolding is_registered
is_registered_of_empty [] a h = refl
is_registered_of_empty (c ∷ regs) a h = cc
