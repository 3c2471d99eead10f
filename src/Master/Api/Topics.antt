-- ===== src/Master/Api/Topics.antt =====
-- getPublishedTopics of MasterApiHandle, aioros/master/_api.py: what it lists, and when it raises.
use aioros.Common.{
  ◌≡◌, refl, ap, ◌⊎◌, inl, inr, true, false, List, [], ◌∷◌, map, filter_by, none, some, Str,
  str_eq_refl, contains, starts_with, ◌>>=◌, All, key_error, Result, ok, err, Option-cases,
  Bool-cases, arith,
}
use aioros.Dict.{Dict, get, keys}
use aioros.Master.Node.{Registration}
use aioros.Master.Api.{Master}
use aioros.Master.Api.Graph.{published_topics, success_of, get_published_topics}

-- The topics of the list and their types: the keys that begin so, in order, each with its type.
pub record IsListing (subgraph : Str) (types : Dict Str) (d : Dict (List Registration))
    (l : List (Str × Str)) : Type 0 where
  pub topics : map (λ e. e.0) l ≡ filter_by (λ t. starts_with t subgraph) (keys d)
  pub typed : All (λ e. get types e.0 ≡ some e.1) l

-- a key of the publications that is asked for and has no type
pub record IsUntyped (subgraph : Str) (types : Dict Str) (d : Dict (List Registration)) (t : Str)
    : Type 0 where
  pub published : contains (keys d) t ≡ true
  pub asked : starts_with t subgraph ≡ true
  pub untyped : get types t ≡ none

abbrev pub Listed : Str → Dict Str → Dict (List Registration) → Result (List (Str × Str)) → Type 0
Listed subgraph types d o =
    ((l : List (Str × Str)) × (o ≡ ok l) × IsListing subgraph types d l)
    ⊎ ((t : Str) × (o ≡ err (key_error t)) × IsUntyped subgraph types d t)

module _ (subgraph : Str) (types : Dict Str) where
  contains-keys-cons :
      (t : Str) (regs : List Registration) (d : Dict (List Registration)) (u : Str)
      → contains (keys d) u ≡ true
      → contains (keys ((t, regs) ∷ d)) u ≡ true
  unfolding contains keys
  contains-keys-cons t regs d u h = ground arith

  -- a topic that is not asked for changes nothing
  Listed-skip :
      (t : Str) (regs : List Registration) (d : Dict (List Registration))
      (o : Result (List (Str × Str)))
      → starts_with t subgraph ≡ false
      → Listed subgraph types d o
      → Listed subgraph types ((t, regs) ∷ d) o
  unfolding keys
  Listed-skip t regs d o out (inl (l, e, h)) =
      inl (l, e, record { topics = rw out h.topics; typed = h.typed })
  Listed-skip t regs d o out (inr (u, e, h)) = inr (
    u,
    e,
    record {
      published = contains-keys-cons t regs d u h.published;
      asked = h.asked;
      untyped = h.untyped;
    },
  )

  -- a topic that is asked for and has a type comes first
  Listed-cons :
      (t ty : Str) (regs : List Registration) (d : Dict (List Registration))
      (o : Result (List (Str × Str)))
      → starts_with t subgraph ≡ true
      → get types t ≡ some ty
      → Listed subgraph types d o
      → Listed subgraph types ((t, regs) ∷ d) (o >>= λ pairs. ok ((t, ty) ∷ pairs))
  unfolding keys
  Listed-cons t ty regs d o asked known (inl (l, e, h)) = inl (
    (t, ty) ∷ l,
    rw e refl,
    record { topics = rw asked (ap (◌∷◌ t) h.topics); typed = (known, h.typed) },
  )
  Listed-cons t ty regs d o asked known (inr (u, e, h)) = inr (
    u,
    rw e refl,
    record {
      published = contains-keys-cons t regs d u h.published;
      asked = h.asked;
      untyped = h.untyped;
    },
  )

  published_topics-Listed :
      (d : Dict (List Registration)) → Listed subgraph types d (published_topics subgraph types d)
  unfolding published_topics keys contains
  published_topics-Listed [] = inl ([], refl, record { topics = refl; typed = tt })
  published_topics-Listed ((t, regs) ∷ d) = elim (Bool-cases (starts_with t subgraph)) [
    | inr out ↦
        rw out
          (Listed-skip t regs d (published_topics subgraph types d) out (published_topics-Listed d))
    | inl asked ↦ rw asked (elim (Option-cases (get types t)) [
      | inl e ↦ rw e (
          inr (t, refl, record { published = rw (str_eq_refl t) refl; asked = asked; untyped = e }))
      | inr (ty, e) ↦ rw e (
          Listed-cons t ty regs d (published_topics subgraph types d) asked e
            (published_topics-Listed d))
    ])
  ]

-- getPublishedTopics lists the keys of the registry's publications that begin as asked, in order and
-- each with its type, also the topics whose set of publishers is empty; or it raises a KeyError, for a
-- key that begins so and has no type.
pub get_published_topics-Listed :
    (subgraph : Str) (m : Master)
    → let (m', reply) = get_published_topics subgraph m in
      (m' ≡ m)
      × ((o : Result (List (Str × Str))) × (reply ≡ success_of o)
          × Listed subgraph m.registry.topic_types m.registry.publications o)
unfolding get_published_topics
get_published_topics-Listed subgraph m = (
  refl,
  (
    published_topics subgraph m.registry.topic_types m.registry.publications,
    refl,
    published_topics-Listed subgraph m.registry.topic_types m.registry.publications,
  ),
)
