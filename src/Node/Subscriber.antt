-- ===== src/Node/Subscriber.antt =====
-- The subscriptions of a node to one topic: SubscriptionManager of
-- aioros/_node/_tcpros/_topic_subscriber.py. A ConnectedPublisher is shared by the dict
-- `connected_publishers` and its task: `publishers` is the store of all that were made, and the dict
-- holds their ids. A set is gone through in the order of the list that made it.
pub mod Tracking
pub mod Membership
pub mod Updates
pub mod Connecting
use aioros.Common.{
  ℕ, suc, Bool, true, false, not, List, [], ◌∷◌, ◌++◌, map, Option, none, some, Str, str, contains,
  filter_by, is_empty, Exc, Result, ok, err, unbound_local_error, if◌then◌else◌, ◌==◌,
}
use aioros.Dict.{Dict, get, put, has, keys, remove}
use aioros.Value.{Value}

pub record ConnectedPublisher : Type 0 where
  pub id : ℕ
  pub xmlrpc_uri : Str
  pub cancelled : Bool
  pub connected : Bool
  pub protocol : Str
  pub connection_parameter : List Value

-- `subscriptions` holds the numbers of the streams; `next_id` is what `next(id_generator)` gives.
pub record SubscriptionManager : Type 0 where
  pub subscriptions : List ℕ
  pub connected_publishers : Dict ℕ
  pub publishers : List ConnectedPublisher
  pub registered : Bool
  pub next_id : ℕ

abbrev pub new_manager : SubscriptionManager
new_manager = record {
  subscriptions = [];
  connected_publishers = [];
  publishers = [];
  registered = false;
  next_id = 0;
}

abbrev pub new_publisher : ℕ → Str → ConnectedPublisher
new_publisher id uri = record {
  id = id;
  xmlrpc_uri = uri;
  cancelled = false;
  connected = false;
  protocol = [];
  connection_parameter = [];
}

-- the publisher with an id, changed
abbrev pub change_at :
    ℕ → (ConnectedPublisher → ConnectedPublisher) → ConnectedPublisher → ConnectedPublisher
change_at id change p = if p.id == id then change p else p

abbrev pub cancel : ConnectedPublisher → ConnectedPublisher
cancel p = record p { cancelled = true }

-- self.connected_publishers.pop(publisher_uri).cancel_scope.cancel()
abbrev pub discarded : Str → Option ℕ → SubscriptionManager → SubscriptionManager
discarded uri none m = m
discarded uri (some id) m = record m {
  connected_publishers = remove m.connected_publishers uri;
  publishers = map (change_at id cancel) m.publishers;
}

unfoldable pub discard_publisher : Str → SubscriptionManager → SubscriptionManager
discard_publisher uri m = discarded uri (get m.connected_publishers uri) m

unfoldable pub discard_all : List Str → SubscriptionManager → SubscriptionManager
unfolding discard_publisher
discard_all [] m = m
discard_all (uri ∷ uris) m = discard_all uris (discard_publisher uri m)

-- The task is started with the publisher.
unfoldable pub connect_publisher : Str → SubscriptionManager → SubscriptionManager
connect_publisher uri m = record m {
  connected_publishers = put m.connected_publishers uri m.next_id;
  publishers = m.publishers ++ new_publisher m.next_id uri ∷ [];
  next_id = suc m.next_id;
}

unfoldable pub connect_all : List Str → SubscriptionManager → SubscriptionManager
unfolding connect_publisher
connect_all [] m = m
connect_all (uri ∷ uris) m = connect_all uris (connect_publisher uri m)

-- the elements of set(l), and a - b
unfoldable pub elements : List Str → List Str
elements [] = []
elements (x ∷ l) = let rest = elements l in if contains l x then rest else x ∷ rest

abbrev pub difference : List Str → List Str → List Str
difference a b = filter_by (λ x. not (contains b x)) a

unfoldable pub update_publishers : List Str → SubscriptionManager → SubscriptionManager
unfolding discard_all connect_all elements
update_publishers publisher_uris m =
    let current_publishers = keys m.connected_publishers in
    let new_publishers = elements publisher_uris in
    let to_discard = difference current_publishers new_publishers in
    let to_connect = difference new_publishers current_publishers in
    connect_all to_connect (discard_all to_discard m)

-- self.subscriptions.add and discard
unfoldable pub add_stream : ℕ → List ℕ → List ℕ
add_stream stream [] = stream ∷ []
add_stream stream (s ∷ l) =
    let rest = add_stream stream l in if s == stream then s ∷ l else s ∷ rest

unfoldable pub discard_stream : ℕ → List ℕ → List ℕ
discard_stream stream [] = []
discard_stream stream (s ∷ l) =
    let rest = discard_stream stream l in if s == stream then rest else s ∷ rest

-- What the call of the master came to: `none` where it took longer than a second, so that
-- move_on_after ended it.
abbrev pub Reply : Type 0 → Type 0
Reply A = Option (Result A)

abbrev pub Outcome : Type 0
Outcome = SubscriptionManager × Result (Unit {0})

abbrev pub with_stream : ℕ → SubscriptionManager → Outcome
with_stream stream m = (record m { subscriptions = add_stream stream m.subscriptions }, ok tt)

-- without a reply there is no `publisher_uris` to update from
abbrev pub register_with : ℕ → Reply (List Str) → SubscriptionManager → Outcome
register_with stream none m = (record m { registered = true }, err unbound_local_error)
register_with stream (some (err e)) m = (m, err e)
register_with stream (some (ok publisher_uris)) m =
    with_stream stream (update_publishers publisher_uris (record m { registered = true }))

unfoldable pub register : ℕ → Reply (List Str) → SubscriptionManager → Outcome
unfolding add_stream update_publishers
register stream reply m =
    if m.registered then with_stream stream m else register_with stream reply m

-- The call of the master in `unregister` gives a number, or raises; a ConnectError is passed over.
pub data UnregisterReply : Type 0 where
  done connect_failed : UnregisterReply
  raised : Exc → UnregisterReply

abbrev pub unregistered : SubscriptionManager → Outcome
unregistered m = (update_publishers [] (record m { registered = false }), ok tt)

abbrev pub unregister_with : UnregisterReply → SubscriptionManager → Outcome
unregister_with done m = unregistered m
unregister_with connect_failed m = unregistered m
unregister_with (raised e) m = (m, err e)

unfoldable pub unregister : ℕ → UnregisterReply → SubscriptionManager → Outcome
unfolding discard_stream update_publishers
unregister stream reply m =
    let m' = record m { subscriptions = discard_stream stream m.subscriptions } in
    if is_empty m'.subscriptions then unregister_with reply m' else (m', ok tt)

-- `finally` of _subscribe_task
unfoldable pub end_task : ConnectedPublisher → SubscriptionManager → SubscriptionManager
end_task publisher m = record m {
  connected_publishers = remove m.connected_publishers publisher.xmlrpc_uri;
}
