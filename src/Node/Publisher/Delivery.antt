-- ===== src/Node/Publisher/Delivery.antt =====
-- What the subscribers of a publication receive: publish of
-- aioros/_node/_tcpros/_topic_publisher.py, and with it the loop of
-- aioros/_node/_tcpros/_topic_subscriber.py.
use aioros.Common.{
  ℕ, ◌≡◌, refl, sym, ap, ap₂, ◌∙◌, true, false, List, [], ◌∷◌, ◌++◌, append_assoc, append-nil, map,
  is_empty, Result, ok, err,
}
use aioros.Tcpros.Words.{Bytes}
use aioros.Node.Publisher.{
  ConnectedSubscriber, Publication, Latch, unlatched, latched, MessageClass, number, push, hold,
  internal_publish, published, publish, message_serialization_needed,
}

abbrev pub extend : List Bytes → ConnectedSubscriber → ConnectedSubscriber
extend more s = record s { stream = s.stream ++ more }

extend_nothing : (l : List ConnectedSubscriber) → map (extend []) l ≡ l
extend_nothing [] = refl
extend_nothing (s ∷ l) =
    ap₂ ◌∷◌ (ap (λ (t : List Bytes). record s { stream = t }) (append-nil s.stream))
      (extend_nothing l)

extend_further :
    (bytes : Bytes) (more : List Bytes) (l : List ConnectedSubscriber)
    → map (extend more) (map (push bytes) l) ≡ map (extend (bytes ∷ more)) l
extend_further bytes more [] = refl
extend_further bytes more (s ∷ l) =
    ap₂ ◌∷◌
      (ap (λ (t : List Bytes). record s { stream = t }) (append_assoc s.stream (bytes ∷ []) more))
      (extend_further bytes more l)

module _ {M : Type 0} (class : MessageClass M) where
  -- The messages as they are numbered one after another, from `seq` on.
  abbrev pub numbered : ℕ → List M → List M
  numbered seq [] = []
  numbered seq (message ∷ messages) =
      let (message', seq') = number class seq message in message' ∷ numbered seq' messages

  -- the bytes of those that can be serialized
  abbrev pub if_serialized : Result Bytes → List Bytes → List Bytes
  if_serialized (ok bytes) more = bytes ∷ more
  if_serialized (err e) more = more

  abbrev pub bytes_of : List M → List Bytes
  bytes_of [] = []
  bytes_of (message ∷ messages) = if_serialized (class.serialize message) (bytes_of messages)

  -- publish for one message after another, whatever it raises
  abbrev pub publish_all : List M → Publication → Publication
  publish_all [] p = p
  publish_all (message ∷ messages) p = publish_all messages (publish class message p).0

  -- what one message does, where someone is to get it
  record Step (message : M) (p p' : Publication) : Type 0 where
    seq : p'.seq ≡ (number class p.seq message).1
    needed : message_serialization_needed p' ≡ true
    subscribers :
        (more : List Bytes)
        → map (extend more) p'.subscribers
          ≡ map
              (extend (if_serialized (class.serialize (number class p.seq message).0) more))
              p.subscribers

  needed-push :
      (bytes : Bytes) (l : List ConnectedSubscriber) → is_empty (map (push bytes) l) ≡ is_empty l
  needed-push bytes [] = refl
  needed-push bytes (s ∷ l) = refl

  needed-internal_publish :
      (bytes : Bytes) (seq : ℕ) (p : Publication)
      → message_serialization_needed p ≡ true
      → message_serialization_needed (internal_publish bytes (record p { seq = seq })) ≡ true
  unfolding message_serialization_needed internal_publish
  needed-internal_publish bytes seq p h = by_latch p.latch h
    where
      by_latch :
          (latch : Latch)
          → message_serialization_needed (record p { latch = latch }) ≡ true
          → message_serialization_needed (record p {
            subscribers = map (push bytes) p.subscribers;
            latch = hold bytes latch;
            seq = seq;
          })
            ≡ true
      by_latch unlatched h = rw (needed-push bytes p.subscribers) h
      by_latch (latched held) h = refl

  needed_seq :
      (seq : ℕ) (p : Publication)
      → message_serialization_needed p ≡ true
      → message_serialization_needed (record p { seq = seq }) ≡ true
  unfolding message_serialization_needed
  needed_seq seq p h = h

  publish-Step :
      (message : M) (p : Publication)
      → message_serialization_needed p ≡ true
      → Step message p (publish class message p).0
  unfolding publish internal_publish
  publish-Step message p h = rw h (step (class.serialize (number class p.seq message).0) refl)
    where
      step :
          (r : Result Bytes)
          → class.serialize (number class p.seq message).0 ≡ r
          → Step message p (published class r (record p { seq = (number class p.seq message).1 })).0
      step (err e) same = record {
        seq = refl;
        needed = needed_seq (number class p.seq message).1 p h;
        subscribers = λ more. rw same refl;
      }
      step (ok bytes) same = record {
        seq = refl;
        needed = needed-internal_publish bytes (number class p.seq message).1 p h;
        subscribers = λ more. rw same (extend_further bytes more p.subscribers);
      }

  -- While a publication has subscribers or is latched, each of its subscribers gets the bytes of all
  -- messages that can be serialized, in the order in which they are published and with the numbers
  -- that the publication gives them.
  pub publish_all-bytes_of :
      (messages : List M) (p : Publication)
      → message_serialization_needed p ≡ true
      → (publish_all messages p).subscribers
        ≡ map (extend (bytes_of (numbered p.seq messages))) p.subscribers
  publish_all-bytes_of [] p h = sym (extend_nothing p.subscribers)
  publish_all-bytes_of (message ∷ messages) p h =
      let s = publish-Step message p h in
      publish_all-bytes_of messages (publish class message p).0 s.needed
      ∙ rw (s.seq) (s.subscribers (bytes_of (numbered (number class p.seq message).1 messages)))

  publish_all_unheard :
      (messages : List M) (p : Publication)
      → message_serialization_needed p ≡ false
      → publish_all messages p ≡ p
  unfolding publish
  publish_all_unheard [] p h = refl
  publish_all_unheard (message ∷ messages) p h = rw h (publish_all_unheard messages p h)
