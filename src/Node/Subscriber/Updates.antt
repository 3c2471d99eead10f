-- ===== src/Node/Subscriber/Updates.antt =====
-- What update_publishers of aioros/_node/_tcpros/_topic_subscriber.py does to the publishers that a
-- manager keeps track of.
use aioros.Common.{
  ℕ, ◌≡◌, refl, ◌∙◌, ◌⊎◌, inl, inr, Bool, true, false, not, List, [], ◌∷◌, map, none, some, Str,
  str_eq, str_eq_iff, contains, filter_by, any_by, Bool-cases, Option-cases, arith, ◌==◌, ==_iff,
  All, All-append,
}
use aioros.Dict.{Dict, get, put, keys, get-put, get-remove, remove}
use aioros.Node.Subscriber.{
  ConnectedPublisher, SubscriptionManager, new_publisher, change_at, cancel, discard_publisher,
  discard_all, connect_publisher, connect_all, elements, difference, update_publishers,
}
use aioros.Node.Subscriber.Membership.{
  contains-filter_by, contains-elements, get-discarded, contains-to_connect,
}

abbrev pub listed : List ℕ → ℕ → Bool
listed ids id = any_by (λ j. j == id) ids

-- A publisher is cancelled, its task has ended, or the dict holds it under its uri.
abbrev pub IsTracked : List ℕ → Dict ℕ → ConnectedPublisher → Type 0
IsTracked ended d p =
    (p.cancelled ≡ true) ⊎ (listed ended p.id ≡ true) ⊎ (get d p.xmlrpc_uri ≡ some p.id)

abbrev pub AllTracked : List ℕ → SubscriptionManager → Type 0
AllTracked ended m = All (IsTracked ended m.connected_publishers) m.publishers

pub some_path : {a b : ℕ} → some a ≡ some b → a ≡ b
some_path h = cc

IsTracked-cancel :
    (ended : List ℕ) (d : Dict ℕ) (uri : Str) (id : ℕ) (p : ConnectedPublisher)
    → get d uri ≡ some id
    → IsTracked ended d p
    → IsTracked ended (remove d uri) (change_at id cancel p)
IsTracked-cancel ended d uri id p e h = elim (Bool-cases (p.id == id)) [
  | inl same ↦ rw same (inl refl)
  | inr differ ↦ rw differ (elim h [
    | inl c ↦ inl c
    | inr (inl over) ↦ inr (inl over)
    | inr (inr there) ↦ inr (
        inr (
          get-remove d uri p.xmlrpc_uri
          ∙ ground (arith, str_eq_iff uri p.xmlrpc_uri, e, there, ==_iff p.id id)))
  ])
]

All-cancel :
    (ended : List ℕ) (d : Dict ℕ) (uri : Str) (id : ℕ) (l : List ConnectedPublisher)
    → get d uri ≡ some id
    → All (IsTracked ended d) l
    → All (IsTracked ended (remove d uri)) (map (change_at id cancel) l)
All-cancel ended d uri id [] e h = tt
All-cancel ended d uri id (p ∷ l) e h =
    (IsTracked-cancel ended d uri id p e h.0, All-cancel ended d uri id l e h.1)

AllTracked-discard_publisher :
    (ended : List ℕ) (uri : Str) (m : SubscriptionManager)
    → AllTracked ended m
    → AllTracked ended (discard_publisher uri m)
unfolding discard_publisher
AllTracked-discard_publisher ended uri m h = elim (Option-cases (get m.connected_publishers uri)) [
  | inl e ↦ rw e h
  | inr (id, e) ↦ rw e (All-cancel ended m.connected_publishers uri id m.publishers e h)
]

AllTracked-discard_all :
    (ended : List ℕ) (l : List Str) (m : SubscriptionManager)
    → AllTracked ended m
    → AllTracked ended (discard_all l m)
unfolding discard_all
AllTracked-discard_all ended [] m h = h
AllTracked-discard_all ended (x ∷ l) m h =
    AllTracked-discard_all ended l (discard_publisher x m)
      (AllTracked-discard_publisher ended x m h)

-- uris that differ and are not connected
abbrev Ready : Dict ℕ → List Str → Type 0
Ready d [] = Unit
Ready d (x ∷ l) = (get d x ≡ none) × (contains l x ≡ false) × Ready d l

Ready-put :
    (d : Dict ℕ) (x : Str) (id : ℕ) (l : List Str)
    → contains l x ≡ false
    → Ready d l
    → Ready (put d x id) l
unfolding contains
Ready-put d x id [] h r = tt
Ready-put d x id (y ∷ l) h r =
    let differ : str_eq x y ≡ false = ground (arith, str_eq_iff x y, str_eq_iff y x) in
    (get-put d x y id ∙ rw differ r.0, r.1, Ready-put d x id l (ground (arith, h)) r.2)

IsTracked-put :
    (ended : List ℕ) (d : Dict ℕ) (uri : Str) (id : ℕ) (p : ConnectedPublisher)
    → get d uri ≡ none
    → IsTracked ended d p
    → IsTracked ended (put d uri id) p
IsTracked-put ended d uri id p e (inl c) = inl c
IsTracked-put ended d uri id p e (inr (inl over)) = inr (inl over)
IsTracked-put ended d uri id p e (inr (inr there)) =
    inr
      (inr (get-put d uri p.xmlrpc_uri id ∙ ground (arith, str_eq_iff uri p.xmlrpc_uri, e, there)))

All-put :
    (ended : List ℕ) (d : Dict ℕ) (uri : Str) (id : ℕ) (l : List ConnectedPublisher)
    → get d uri ≡ none
    → All (IsTracked ended d) l
    → All (IsTracked ended (put d uri id)) l
All-put ended d uri id [] e h = tt
All-put ended d uri id (p ∷ l) e h =
    (IsTracked-put ended d uri id p e h.0, All-put ended d uri id l e h.1)

AllTracked-connect_publisher :
    (ended : List ℕ) (uri : Str) (m : SubscriptionManager)
    → get m.connected_publishers uri ≡ none
    → AllTracked ended m
    → AllTracked ended (connect_publisher uri m)
unfolding connect_publisher
AllTracked-connect_publisher ended uri m e h =
    let d = m.connected_publishers in
    All-append (IsTracked ended (put d uri m.next_id)) m.publishers
      (new_publisher m.next_id uri ∷ []) (All-put ended d uri m.next_id m.publishers e h)
      (inr (inr (get-put d uri uri m.next_id ∙ ground (arith, str_eq_iff uri uri))), tt)

AllTracked-connect_all :
    (ended : List ℕ) (l : List Str) (m : SubscriptionManager)
    → Ready m.connected_publishers l
    → AllTracked ended m
    → AllTracked ended (connect_all l m)
unfolding connect_all connect_publisher
AllTracked-connect_all ended [] m r h = h
AllTracked-connect_all ended (x ∷ l) m r h =
    AllTracked-connect_all ended l (connect_publisher x m)
      (Ready-put m.connected_publishers x m.next_id l r.1 r.2)
      (AllTracked-connect_publisher ended x m r.0 h)

abbrev Differ : List Str → Type 0
Differ [] = Unit
Differ (x ∷ l) = (contains l x ≡ false) × Differ l

Differ-filter_by : (p : Str → Bool) (l : List Str) → Differ l → Differ (filter_by p l)
Differ-filter_by p [] h = tt
Differ-filter_by p (x ∷ l) h = elim (Bool-cases (p x)) [
  | inl keep ↦ rw keep (contains-filter_by p l x ∙ rw (h.0) refl, Differ-filter_by p l h.1)
  | inr drop ↦ rw drop (Differ-filter_by p l h.1)
]

Differ-elements : (l : List Str) → Differ (elements l)
unfolding elements
Differ-elements [] = tt
Differ-elements (x ∷ l) = elim (Bool-cases (contains l x)) [
  | inl again ↦ rw again (Differ-elements l)
  | inr new ↦ rw new (contains-elements l x ∙ new, Differ-elements l)
]

Ready-Differ :
    (d : Dict ℕ) (l : List Str)
    → ((x : Str) → contains l x ≡ true → get d x ≡ none)
    → Differ l
    → Ready d l
unfolding contains
Ready-Differ d [] out h = tt
Ready-Differ d (x ∷ l) out h = (
  out x (ground (arith, str_eq_iff x x)),
  h.0,
  Ready-Differ d l (λ y e. out y (ground (arith, e))) h.1,
)

pub AllTracked-update_publishers :
    (ended : List ℕ) (uris : List Str) (m : SubscriptionManager)
    → AllTracked ended m
    → AllTracked ended (update_publishers uris m)
unfolding update_publishers
AllTracked-update_publishers ended uris m h =
    let current = keys m.connected_publishers in
    let m' = discard_all (difference current (elements uris)) m in
    AllTracked-connect_all ended (difference (elements uris) current) m'
      (Ready-Differ m'.connected_publishers (difference (elements uris) current)
        (λ x e.
          get-discarded uris x m
          ∙ ground (
            arith,
            e,
            contains-to_connect uris x m.connected_publishers,
            Option-cases (get m.connected_publishers x),
          ))
        (Differ-filter_by (λ x. not (contains current x)) (elements uris) (Differ-elements uris)))
      (AllTracked-discard_all ended (difference current (elements uris)) m h)
