-- ===== src/Node/Subscriber/Membership.antt =====
-- The publishers that update_publishers of aioros/_node/_tcpros/_topic_subscriber.py leaves connected.
use aioros.Common.{
  ℕ, ◌≤◌, ◌≡◌, refl, ◌∙◌, inl, inr, Bool, true, false, not, ◌&&◌, List, [], ◌∷◌, Option, none, some,
  Str, str_eq, str_eq_iff, contains, filter_by, if◌then◌else◌, Bool-cases, Option-cases, arith,
}
use aioros.Dict.{Dict, get, keys, is_some, get-put, get-remove}
use aioros.Node.Subscriber.{
  SubscriptionManager, discard_publisher, discard_all, connect_publisher, connect_all, elements,
  difference, update_publishers,
}

pub get-discard_publisher :
    (uri u : Str) (m : SubscriptionManager)
    → get (discard_publisher uri m).connected_publishers u
      ≡ (if str_eq uri u then none else get m.connected_publishers u)
unfolding discard_publisher
get-discard_publisher uri u m = elim (Option-cases (get m.connected_publishers uri)) [
  | inl e ↦ rw e (ground (arith, str_eq_iff uri u, e))
  | inr (id, e) ↦ rw e (get-remove m.connected_publishers uri u)
]

get-discard_all :
    (l : List Str) (u : Str) (m : SubscriptionManager)
    → get (discard_all l m).connected_publishers u
      ≡ (if contains l u then none else get m.connected_publishers u)
unfolding discard_all contains
get-discard_all [] u m = refl
get-discard_all (x ∷ l) u m =
    ground (arith, get-discard_all l u (discard_publisher x m), get-discard_publisher x u m)

next_id-discard_publisher :
    (x : Str) (m : SubscriptionManager) → (discard_publisher x m).next_id ≡ m.next_id
unfolding discard_publisher
next_id-discard_publisher x m = elim (Option-cases (get m.connected_publishers x)) [
  | inl e ↦ rw e refl
  | inr (id, e) ↦ rw e refl
]

next_id-discard_all :
    (l : List Str) (m : SubscriptionManager) → (discard_all l m).next_id ≡ m.next_id
unfolding discard_all
next_id-discard_all [] m = refl
next_id-discard_all (x ∷ l) m =
    next_id-discard_all l (discard_publisher x m) ∙ next_id-discard_publisher x m

-- what connecting does to the entry of a publisher
abbrev Connected : Bool → ℕ → Option ℕ → Option ℕ → Type 0
Connected true next before after = (id : ℕ) × (after ≡ some id) × (next ≤ id)
Connected false next before after = after ≡ before

get-connect_publisher :
    (x u : Str) (m : SubscriptionManager)
    → get (connect_publisher x m).connected_publishers u
      ≡ (if str_eq x u then some m.next_id else get m.connected_publishers u)
unfolding connect_publisher
get-connect_publisher x u m = get-put m.connected_publishers x u m.next_id

connect_all-Connected :
    (l : List Str) (u : Str) (m : SubscriptionManager)
    → Connected
        (contains l u)
        m.next_id
        (get m.connected_publishers u)
        (get (connect_all l m).connected_publishers u)
unfolding connect_all contains connect_publisher
connect_all-Connected [] u m = refl
connect_all-Connected (x ∷ l) u m =
    later (contains l u) (connect_all-Connected l u (connect_publisher x m))
  where
    later :
        (listed : Bool)
        → Connected listed
            (connect_publisher x m).next_id
            (get (connect_publisher x m).connected_publishers u)
            (get (connect_all l (connect_publisher x m)).connected_publishers u)
        → Connected
            (if str_eq x u then true else listed)
            m.next_id
            (get m.connected_publishers u)
            (get (connect_all l (connect_publisher x m)).connected_publishers u)
    later true (id, e, le) = elim (Bool-cases (str_eq x u)) [
      | inl same ↦ rw same (id, e, omega arith)
      | inr differ ↦ rw differ (id, e, omega arith)
    ]
    later false e = elim (Bool-cases (str_eq x u)) [
      | inl same ↦ rw same (m.next_id, e ∙ get-connect_publisher x u m ∙ rw same refl, omega arith)
      | inr differ ↦ rw differ (e ∙ get-connect_publisher x u m ∙ rw differ refl)
    ]

pub contains-filter_by :
    (p : Str → Bool) (a : List Str) (u : Str) → contains (filter_by p a) u ≡ (contains a u && p u)
unfolding contains
contains-filter_by p [] u = refl
contains-filter_by p (x ∷ a) u = ground (arith, contains-filter_by p a u, str_eq_iff x u)

pub contains-elements : (l : List Str) (u : Str) → contains (elements l) u ≡ contains l u
unfolding contains elements
contains-elements [] u = refl
contains-elements (x ∷ l) u = ground (arith, contains-elements l u, str_eq_iff x u)

contains-keys : (d : Dict ℕ) (u : Str) → contains (keys d) u ≡ is_some (get d u)
unfolding contains keys get
contains-keys [] u = refl
contains-keys ((k, v) ∷ d) u = ground (arith, contains-keys d u)

-- the entry of a publisher before and after an update, and whether the update lists it
abbrev pub Updated : Bool → ℕ → Option ℕ → Option ℕ → Type 0
Updated false next before after = after ≡ none
Updated true next (some id) after = after ≡ some id
Updated true next none after = (id : ℕ) × (after ≡ some id) × (next ≤ id)

pub get-discarded :
    (uris : List Str) (u : Str) (m : SubscriptionManager)
    → get
        (discard_all
          (difference (keys m.connected_publishers) (elements uris))
          m).connected_publishers
        u
      ≡ (if contains uris u then get m.connected_publishers u else none)
get-discarded uris u m =
    let current = keys m.connected_publishers in
    get-discard_all (difference current (elements uris)) u m
    ∙ ground (
      arith,
      contains-filter_by (λ x. not (contains (elements uris) x)) current u,
      contains-elements uris u,
      contains-keys m.connected_publishers u,
      Option-cases (get m.connected_publishers u),
    )

pub contains-to_connect :
    (uris : List Str) (u : Str) (d : Dict ℕ)
    → contains (difference (elements uris) (keys d)) u
      ≡ (contains uris u && not (is_some (get d u)))
contains-to_connect uris u d =
    contains-filter_by (λ x. not (contains (keys d) x)) (elements uris) u
    ∙ rw (contains-elements uris u, contains-keys d u) refl

-- After update_publishers the connected publishers are those of the list: one that was connected
-- keeps its connection, and one that was not gets a connection with a new id.
pub update_publishers-Updated :
    (uris : List Str) (u : Str) (m : SubscriptionManager)
    → Updated
        (contains uris u)
        m.next_id
        (get m.connected_publishers u)
        (get (update_publishers uris m).connected_publishers u)
unfolding update_publishers
update_publishers-Updated uris u m =
    let l = difference (elements uris) (keys m.connected_publishers) in
    let m' = discard_all (difference (keys m.connected_publishers) (elements uris)) m in
    updated (contains uris u) (get m.connected_publishers u)
      (get (update_publishers uris m).connected_publishers u)
      (rw
        (
          contains-to_connect uris u m.connected_publishers,
          get-discarded uris u m,
          next_id-discard_all (difference (keys m.connected_publishers) (elements uris)) m,
        )
        at (connect_all-Connected l u m'))
  where
    updated :
        (listed : Bool) (before after : Option ℕ)
        → Connected
            (listed && not (is_some before))
            m.next_id
            (if listed then before else none)
            after
        → Updated listed m.next_id before after
    updated false before after e = e
    updated true (some id) after e = e
    updated true none after e = e
