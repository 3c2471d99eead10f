-- ===== src/Master/Registry/Dropping.antt =====
-- `_unregister_all` of Registry, aioros/master/_registry.py, and the tables after it.
use aioros.Common.{
  ◌≡◌, ◌∙◌, true, false, ◌&&◌, List, [], ◌∷◌, Str, str_eq, str_eq_iff, arith, if◌then◌else◌,
}
use aioros.Dict.{Dict, get, put}
use aioros.Master.Node.{Registration, same_registration, is_registered, discard_registration}
use aioros.Master.Node.Sets.{same_registration_iff, is_registered-discard}
use aioros.Master.Registry.{
  Registry, members_of, update_subscribers, drop_publishers, drop_publications, drop_services,
  unregister_all,
}
use aioros.Master.Registry.Updates.{update_subscribers-SameTables}
use aioros.Master.Registry.Members.{registered, registered-put, registered-drop_subscriptions}

-- the state after one round of the inner loop, for a registration of the caller
abbrev drop_one : Str → Registration → Registry → Registry
drop_one topic reg r = update_subscribers topic (record r {
  publications =
      put r.publications topic (discard_registration reg (members_of r.publications topic));
})

publications-drop_one :
    (t : Str) (a : Registration) (r : Registry) (j : Str) (b : Registration)
    → registered (drop_one t a r).publications j b
      ≡ (if str_eq t j && same_registration a b then false else registered r.publications j b)
publications-drop_one t a r j b =
    let r' : Registry = record r {
      publications = put r.publications t (discard_registration a (members_of r.publications t));
    } in
    rw ((update_subscribers-SameTables t r').publications) (
      rw
        (registered-put r.publications t j (discard_registration a (members_of r.publications t)) b)
        (ground (arith, str_eq_iff t j, is_registered-discard a b (members_of r.publications t))))

-- the registrations of others stay, and those of the caller that the loop walks over go
publications-drop_publishers :
    (c t : Str) (regs : List Registration) (r : Registry) (j : Str) (b : Registration)
    → registered (drop_publishers c t regs r).publications j b ≡ (
        if str_eq b.caller_id c && str_eq t j && is_registered regs b
        then false
        else registered r.publications j b)
unfolding drop_publishers is_registered
publications-drop_publishers c t [] r j b = ground arith
publications-drop_publishers c t (a ∷ regs) r j b =
    publications-drop_publishers c t regs (if str_eq a.caller_id c then drop_one t a r else r) j b
    ∙ ground (arith, publications-drop_one t a r j b, same_registration_iff a b)

registered-cons :
    (t : Str) (regs : List Registration) (d : Dict (List Registration)) (j : Str) (b : Registration)
    → registered ((t, regs) ∷ d) j b
      ≡ (if str_eq t j then is_registered regs b else registered d j b)
unfolding get
registered-cons t regs d j b = ground arith

publications-drop_publications :
    (c : Str) (d : Dict (List Registration)) (r : Registry) (j : Str) (b : Registration)
    → (registered r.publications j b ≡ true → str_eq b.caller_id c ≡ true → registered d j b ≡ true)
    → registered (drop_publications c d r).publications j b
      ≡ (if str_eq b.caller_id c then false else registered r.publications j b)
unfolding drop_publications
publications-drop_publications c [] r j b h = unfold is_registered get in ground arith
publications-drop_publications c ((t, regs) ∷ d) r j b h =
    publications-drop_publications c d (drop_publishers c t regs r) j b (λ here mine.
      ground (arith, h, publications-drop_publishers c t regs r j b, registered-cons t regs d j b))
    ∙ ground (arith, publications-drop_publishers c t regs r j b)

-- `_unregister_all` takes the registrations of the caller off the publications, and keeps exactly
-- those of others.
pub publications-unregister_all :
    (c : Str) (r : Registry) (j : Str) (b : Registration)
    → registered (unregister_all c r).publications j b
      ≡ (if str_eq b.caller_id c then false else registered r.publications j b)
unfolding unregister_all
publications-unregister_all c r j b =
    publications-drop_publications c r.publications
      (record r { services = drop_services c r.services }) j b (λ here mine. here)

-- what the loop over the publications leaves alone
pub record SameButPublications (r r' : Registry) : Type 0 where
  pub services : r'.services ≡ r.services
  pub subscriptions : r'.subscriptions ≡ r.subscriptions
  pub param_subscribers : r'.param_subscribers ≡ r.param_subscribers
  pub topic_types : r'.topic_types ≡ r.topic_types
  pub retired : r'.retired ≡ r.retired

drop_publishers-Same :
    (c t : Str) (regs : List Registration) (r : Registry)
    → SameButPublications r (drop_publishers c t regs r)
unfolding drop_publishers
drop_publishers-Same c t [] r = ground arith
drop_publishers-Same c t (a ∷ regs) r = ground (
  arith,
  drop_publishers-Same c t regs (if str_eq a.caller_id c then drop_one t a r else r),
  update_subscribers-SameTables t (record r {
    publications = put r.publications t (discard_registration a (members_of r.publications t));
  }),
)

pub drop_publications-Same :
    (c : Str) (d : Dict (List Registration)) (r : Registry)
    → SameButPublications r (drop_publications c d r)
unfolding drop_publications
drop_publications-Same c [] r = ground arith
drop_publications-Same c ((t, regs) ∷ d) r = ground (
  arith,
  drop_publishers-Same c t regs r,
  drop_publications-Same c d (drop_publishers c t regs r),
)

pub subscriptions-unregister_all :
    (c : Str) (r : Registry) (j : Str) (b : Registration)
    → registered (unregister_all c r).subscriptions j b
      ≡ (if str_eq b.caller_id c then false else registered r.subscriptions j b)
unfolding unregister_all
subscriptions-unregister_all c r j b =
    let r0 : Registry = record r { services = drop_services c r.services } in
    rw ((drop_publications-Same c r.publications r0).subscriptions)
      (registered-drop_subscriptions c r.subscriptions j b)
