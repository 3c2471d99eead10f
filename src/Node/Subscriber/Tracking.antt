-- ===== src/Node/Subscriber/Tracking.antt =====
-- The publishers that a manager has not lost sight of: aioros/_node/_tcpros/_topic_subscriber.py.
use aioros.Common.{
  ℕ, ◌≡◌, sym, ◌∙◌, ◌⊎◌, inl, inr, Bool, true, false, List, [], ◌∷◌, none, some, Str, str_eq,
  str_eq_iff, if◌then◌else◌, Bool-cases, arith, ==_iff, All, ok, err, is_empty,
}
use aioros.Dict.{Dict, get, get-remove, remove}
use aioros.Node.Subscriber.{
  ConnectedPublisher, SubscriptionManager, new_manager, update_publishers, Reply, register,
  UnregisterReply, done, connect_failed, raised, unregister, end_task, register_with,
  unregister_with, with_stream, discard_stream,
}
use aioros.Node.Subscriber.Updates.{IsTracked, AllTracked, some_path, AllTracked-update_publishers}

-- no other publisher is connected under the uri of this one
abbrev pub IsOwn : ConnectedPublisher → Dict ℕ → Type 0
IsOwn p d = (get d p.xmlrpc_uri ≡ none) ⊎ (get d p.xmlrpc_uri ≡ some p.id)

-- What happens to a manager, with the ids of the publishers whose tasks have ended: a task ends
-- before another publisher is connected under its uri.
pub data Reached : List ℕ → SubscriptionManager → Type 0 where
  start : Reached [] new_manager
  registering :
      {ended : List ℕ} {m : SubscriptionManager} (stream : ℕ) (reply : Reply (List Str))
      → Reached ended m
      → Reached ended (register stream reply m).0
  unregistering :
      {ended : List ℕ} {m : SubscriptionManager} (stream : ℕ) (reply : UnregisterReply)
      → Reached ended m
      → Reached ended (unregister stream reply m).0
  updating :
      {ended : List ℕ} {m : SubscriptionManager} (uris : List Str)
      → Reached ended m
      → Reached ended (update_publishers uris m)
  ending :
      {ended : List ℕ} {m : SubscriptionManager} (p : ConnectedPublisher)
      → IsOwn p m.connected_publishers
      → Reached ended m
      → Reached (p.id ∷ ended) (end_task p m)

AllTracked-register :
    (ended : List ℕ) (stream : ℕ) (reply : Reply (List Str)) (m : SubscriptionManager)
    → AllTracked ended m
    → AllTracked ended (register stream reply m).0
unfolding register
AllTracked-register ended stream reply m h = by_flag m.registered
  where
    with_reply : (reply : Reply (List Str)) → AllTracked ended (register_with stream reply m).0
    with_reply none = h
    with_reply (some (err e)) = h
    with_reply (some (ok uris)) =
        AllTracked-update_publishers ended uris (record m { registered = true }) h

    by_flag :
        (b : Bool)
        → AllTracked ended (if b then with_stream stream m else register_with stream reply m).0
    by_flag true = h
    by_flag false = with_reply reply

AllTracked-unregister :
    (ended : List ℕ) (stream : ℕ) (reply : UnregisterReply) (m : SubscriptionManager)
    → AllTracked ended m
    → AllTracked ended (unregister stream reply m).0
unfolding unregister
AllTracked-unregister ended stream reply m h =
    elim (Bool-cases (is_empty (discard_stream stream m.subscriptions))) [
      | inl last ↦ rw last (with_reply reply)
      | inr others ↦ rw others h
    ]
  where
    m' : SubscriptionManager
    m' = record m { subscriptions = discard_stream stream m.subscriptions }

    with_reply : (reply : UnregisterReply) → AllTracked ended (unregister_with reply m').0
    with_reply done = AllTracked-update_publishers ended [] (record m' { registered = false }) h
    with_reply connect_failed =
        AllTracked-update_publishers ended [] (record m' { registered = false }) h
    with_reply (raised e) = h

IsTracked-end_task :
    (ended : List ℕ) (d : Dict ℕ) (p q : ConnectedPublisher)
    → IsOwn p d
    → IsTracked ended d q
    → IsTracked (p.id ∷ ended) (remove d p.xmlrpc_uri) q
IsTracked-end_task ended d p q own (inl c) = inl c
IsTracked-end_task ended d p q own (inr (inl over)) = inr (inl (rw over (ground arith)))
IsTracked-end_task ended d p q own (inr (inr there)) =
    elim (Bool-cases (str_eq p.xmlrpc_uri q.xmlrpc_uri)) [
      | inr differ ↦ inr (inr (get-remove d p.xmlrpc_uri q.xmlrpc_uri ∙ rw differ there))
      | inl same ↦
          let uri : p.xmlrpc_uri ≡ q.xmlrpc_uri = (str_eq_iff p.xmlrpc_uri q.xmlrpc_uri).0 same in
          elim own [
            | inl none_there ↦ absurd cc
            | inr its ↦
                let ids : p.id ≡ q.id = some_path (sym its ∙ rw uri there) in
                inr (inl (ground (arith, ids, ==_iff p.id q.id)))
          ]
    ]

All-end_task :
    (ended : List ℕ) (d : Dict ℕ) (p : ConnectedPublisher) (l : List ConnectedPublisher)
    → IsOwn p d
    → All (IsTracked ended d) l
    → All (IsTracked (p.id ∷ ended) (remove d p.xmlrpc_uri)) l
All-end_task ended d p [] own h = tt
All-end_task ended d p (q ∷ l) own h =
    (IsTracked-end_task ended d p q own h.0, All-end_task ended d p l own h.1)

-- However a manager was reached, every publisher that it ever made is cancelled, has ended, or is
-- connected under its uri; if no task ends after another publisher was connected under its uri.
pub Reached-AllTracked :
    (ended : List ℕ) (m : SubscriptionManager) → Reached ended m → AllTracked ended m
unfolding end_task
Reached-AllTracked ended m start = tt
Reached-AllTracked ended m (registering {m = m0} stream reply r) =
    AllTracked-register ended stream reply m0 (Reached-AllTracked ended m0 r)
Reached-AllTracked ended m (unregistering {m = m0} stream reply r) =
    AllTracked-unregister ended stream reply m0 (Reached-AllTracked ended m0 r)
Reached-AllTracked ended m (updating {m = m0} uris r) =
    AllTracked-update_publishers ended uris m0 (Reached-AllTracked ended m0 r)
Reached-AllTracked ended m (ending {ended = before} {m = m0} p own r) =
    All-end_task before m0.connected_publishers p m0.publishers own (Reached-AllTracked before m0 r)
