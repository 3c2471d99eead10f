-- ===== src/Node/Creation/Reuse.antt =====
-- Names that a node has used before: create_publication, create_subscription and create_server of
-- aioros/_node/_node.py.
use aioros.Common.{
  ◌≡◌, refl, ◌∙◌, inl, inr, Bool, true, false, Option, none, some, Str, str_eq_iff, Result, ok, err,
  value_error, Bool-cases, if◌then◌else◌,
}
use aioros.Dict
use aioros.Dict.{get-put, has, is_some}
use aioros.Node.Client.{full_name}
use aioros.Node.Publisher.{Publication, TopicType, unlatched, latched, new_publication}
use aioros.Node.State.{Node, resolve_name}
use aioros.Node.Creation.{is_latched, same_class, publication_of, publish_on, create_publication}

-- what a second call of create_publication gives, for the publication that the first one gave
abbrev pub Again : Bool → Bool → Publication → Result Publication → Type 0
Again first second p r = r ≡ (if same_class first second then ok p else err value_error)

resolve_name-publish_on :
    (topic name : Str) (t : TopicType) (latch : Bool) (o : Option Publication) (node : Node)
    → resolve_name topic (publish_on name t latch o node).0 ≡ resolve_name topic node
unfolding resolve_name
resolve_name-publish_on topic name t latch none node = refl
resolve_name-publish_on topic name t latch (some p) node = refl

same_class-is_latched :
    (first second : Bool) (p : Publication)
    → publication_of first p ≡ ok p
    → publication_of second p ≡ (if same_class first second then ok p else err value_error)
same_class-is_latched true true p h = h
same_class-is_latched false false p h = h
same_class-is_latched true false p h = elim (Bool-cases (is_latched p.latch)) [
  | inl held ↦ rw held refl
  | inr plain ↦ absurd (cc (rw plain at h))
]
same_class-is_latched false true p h = elim (Bool-cases (is_latched p.latch)) [
  | inl held ↦ absurd (cc (rw held at h))
  | inr plain ↦ rw plain refl
]

-- the publication that the node has for a topic after one was made
publish_on-get :
    (name : Str) (t : TopicType) (latch : Bool) (node : Node) (p : Publication)
    → (publish_on name t latch (Dict.get node.registry.publications name) node).1 ≡ ok p
    → (Dict.get
          (publish_on name t latch
            (Dict.get node.registry.publications name)
            node).0.registry.publications
          name
        ≡ some p)
      × (publication_of latch p ≡ ok p)
publish_on-get name t latch node p h = by_entry (Dict.get node.registry.publications name) refl h
  where
    of_class :
        (q : Publication)
        → publication_of latch q ≡ ok p
        → (q ≡ p) × (publication_of latch p ≡ ok p)
    of_class q e = elim (Bool-cases (same_class latch (is_latched q.latch))) [
      | inl same ↦ let one : q ≡ p = cc (rw same at e) in (one, rw (← one) (rw same refl))
      | inr other ↦ absurd (cc (rw other at e))
    ]

    by_entry :
        (o : Option Publication)
        → Dict.get node.registry.publications name ≡ o
        → (publish_on name t latch o node).1 ≡ ok p
        → (Dict.get (publish_on name t latch o node).0.registry.publications name ≡ some p)
          × (publication_of latch p ≡ ok p)
    by_entry (some q) there e = let (one, class) = of_class q e in (rw (there, one) refl, class)
    by_entry none there e =
        let q =
          new_publication name t (full_name node.info)
            (if latch then latched none else unlatched) in
        let (one, class) = of_class q e in
        (
          rw (get-put node.registry.publications name name q)
              (rw ((str_eq_iff name name).1 refl) (rw one refl)),
          class,
        )

create_resolved :
    (topic name : Str) (t : TopicType) (latch : Bool) (node : Node)
    → resolve_name topic node ≡ ok name
    → create_publication topic t latch node
      ≡ publish_on name t latch (Dict.get node.registry.publications name) node
unfolding create_publication
create_resolved topic name t latch node h = rw (h, create_publication) refl

-- When create_publication gave a publication, calling it again for the topic gives the same one if
-- `latched` is the same, whatever the type of the messages, and raises a ValueError if it is not.
pub create_publication-Again :
    (topic name : Str) (t u : TopicType) (first second : Bool) (node : Node) (p : Publication)
    → resolve_name topic node ≡ ok name
    → (create_publication topic t first node).1 ≡ ok p
    → Again first second p
        (create_publication topic u second (create_publication topic t first node).0).1
create_publication-Again topic name t u first second node p hr h =
    let o = Dict.get node.registry.publications name in
    let made = create_resolved topic name t first node hr in
    let (there, class) = publish_on-get name t first node p (rw made at h) in
    let again = resolve_name-publish_on topic name t first o node ∙ hr in
    rw made (
      rw (create_resolved topic name u second (publish_on name t first o node).0 again)
        (rw there (same_class-is_latched first second p class)))
