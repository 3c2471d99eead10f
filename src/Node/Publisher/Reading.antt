-- ===== src/Node/Publisher/Reading.antt =====
-- From publish of aioros/_node/_tcpros/_topic_publisher.py to the loop of _subscribe_task,
-- aioros/_node/_tcpros/_topic_subscriber.py.
use aioros.Common.{◌≡◌, true, List, [], ◌∷◌, ◌++◌, map, some, Result, ok, ok_path, >>=-eq-ok, All}
use aioros.Tcpros.Words.{Bytes}
use aioros.Tcpros.Data
use aioros.Tcpros.Data.Stream.{
  serialize_all, receive_messages, AreRead, receive_messages-serialize_all,
}
use aioros.Node.Publisher.{
  ConnectedSubscriber, Publication, MessageClass, message_serialization_needed,
}
use aioros.Node.Publisher.Delivery.{extend, numbered, bytes_of, publish_all, publish_all-bytes_of}

-- what is sent of a queue of data
abbrev pub concat : List Bytes → Bytes
concat [] = []
concat (bytes ∷ more) = bytes ++ concat more

module _ {M : Type 0} (class : MessageClass M) (body : M → Bytes)
    (deserialize : Bytes → Result M) where
  -- The subscriber's class reads what the message's `serialize` writes.
  abbrev pub IsRead : M → Type 0
  IsRead message =
      (class.serialize message ≡ Data.serialize (body message))
      × (deserialize (body message) ≡ ok message)

  concat-bytes_of :
      (messages : List M) (stream : Bytes)
      → All IsRead messages
      → serialize_all (map body messages) ≡ ok stream
      → concat (bytes_of class messages) ≡ stream
  unfolding serialize_all
  concat-bytes_of [] stream h e = ok_path e
  concat-bytes_of (message ∷ messages) stream h e =
      let (bytes, e1, h1) = >>=-eq-ok (Data.serialize (body message)) _ e in
      let (rest, e2, h2) = >>=-eq-ok (serialize_all (map body messages)) _ h1 in
      rw (h.0.0, e1, concat-bytes_of messages rest h.1 e2) (ok_path h2)

  all-AreRead :
      (messages : List M) → All IsRead messages → AreRead deserialize (map body messages) messages
  all-AreRead [] h = tt
  all-AreRead (message ∷ messages) h = (h.0.1, all-AreRead messages h.1)

  -- the messages that a subscriber with this queue hands on
  abbrev pub Receives : List M → ConnectedSubscriber → Type 0
  Receives messages s = receive_messages deserialize (concat s.stream) ≡ some (messages, ok tt)

  all_receive :
      (messages : List M) (stream : Bytes) (l : List ConnectedSubscriber)
      → All IsRead messages
      → serialize_all (map body messages) ≡ ok stream
      → All (λ s. s.stream ≡ []) l
      → All (Receives messages) (map (extend (bytes_of class messages)) l)
  all_receive messages stream [] h e fresh = tt
  all_receive messages stream (s ∷ l) h e fresh = (
    rw (fresh.0, concat-bytes_of messages stream h e)
        (receive_messages-serialize_all deserialize (map body messages) messages stream e
          (all-AreRead messages h)),
    all_receive messages stream l h e fresh.1,
  )

  -- Subscribers that had nothing in their queues receive all messages that are published from then
  -- on, in their order and with their numbers; if a subscriber reads what the messages write and
  -- none is longer than its size can say.
  pub publish_all-Receives :
      (messages : List M) (stream : Bytes) (p : Publication)
      → message_serialization_needed p ≡ true
      → All (λ s. s.stream ≡ []) p.subscribers
      → All IsRead (numbered class p.seq messages)
      → serialize_all (map body (numbered class p.seq messages)) ≡ ok stream
      → All (Receives (numbered class p.seq messages)) (publish_all class messages p).subscribers
  publish_all-Receives messages stream p needed fresh h e =
      rw (publish_all-bytes_of class messages p needed)
        (all_receive (numbered class p.seq messages) stream p.subscribers h e fresh)
