-- ===== src/Node/Publisher.antt =====
-- The publication of a node on one topic: Publication and LatchedPublication of
-- aioros/_node/_tcpros/_topic_publisher.py. A subscriber's stream is a queue without a bound; what
-- its task has sent is gone from it. `latch` is `none` for a Publication. A message is of the type
-- M of the parameters: its header's number, and the bytes that `serialize` makes of it.
pub mod Instances
pub mod Delivery
pub mod Reading
use aioros.Common.{
  ℕ, suc, ◌-◌, Bool, true, false, List, [], ◌∷◌, ◌++◌, map, Option, none, some, Str, str, is_empty,
  Exc, Result, ok, err, key_error, runtime_error, if◌then◌else◌, ◌>>=◌, ◌>>◌, ◌==◌,
}
use aioros.Dict.{Dict, get, put}
use aioros.Tcpros.{encode_header}
use aioros.Tcpros.Words.{Bytes}
use aioros.Tcpros.Checks.{require_fields, read_value, check_md5sum}

-- `id` tells two subscribers apart.
pub record ConnectedSubscriber : Type 0 where
  pub id : ℕ
  pub protocol : Str
  pub node_name : Str
  pub stream : List Bytes

-- what is used of a message's class
pub record TopicType : Type 0 where
  pub md5sum : Str
  pub full_text : Str
  pub type_name : Str

-- Publication, or LatchedPublication with the data that it holds
pub data Latch : Type 0 where
  unlatched : Latch
  latched : Option Bytes → Latch

-- `seq` is what `next(self._seq)` gives; a subscriber that is no more in the set is in no list.
pub record Publication : Type 0 where
  pub topic_name : Str
  pub topic_type : TopicType
  pub node_name : Str
  pub instances : ℕ
  pub seq : ℕ
  pub subscribers : List ConnectedSubscriber
  pub latch : Latch

abbrev pub new_publication : Str → TopicType → Str → Latch → Publication
new_publication topic_name topic_type node_name latch = record {
  topic_name = topic_name;
  topic_type = topic_type;
  node_name = node_name;
  instances = 0;
  seq = 1;
  subscribers = [];
  latch = latch;
}

-- a call of the master
pub data MasterCall : Type 0 where
  register_publisher : Str → Str → MasterCall
  unregister_publisher : Str → MasterCall

-- the call of the master and what it raises, if it does
abbrev pub Entered : Type 0
Entered = Publication × List MasterCall × Result (Unit {0})

abbrev pub outcome_of : Option Exc → Result (Unit {0})
outcome_of none = ok tt
outcome_of (some e) = err e

-- __aenter__
unfoldable pub enter : Option Exc → Publication → Entered
enter raised p =
    if p.instances == 0
    then (
      record p { instances = 1 },
      register_publisher p.topic_name p.topic_type.type_name ∷ [],
      outcome_of raised,
    )
    else (record p { instances = suc p.instances }, [], ok tt)

-- The subscribers are closed one after another, and the set is cleared. `changed` is the set as
-- another task left it, with another size, while a stream was being closed: the loop over the set
-- raises a RuntimeError then.
abbrev pub cleared :
    Option (List ConnectedSubscriber) → Publication → Publication × Result (Unit {0})
cleared none p = (record p { subscribers = [] }, ok tt)
cleared (some changed) p = (record p { subscribers = changed }, err runtime_error)

-- `raised` is what the call of the master raises
abbrev pub closed :
    Option Exc → Option (List ConnectedSubscriber) → Publication → Publication × Result (Unit {0})
closed none changed p = cleared changed p
closed (some e) changed p = (p, err e)

unfoldable pub aclose : Option Exc → Option (List ConnectedSubscriber) → Publication → Entered
aclose raised changed p =
    let (p', outcome) = closed raised changed (record p { instances = p.instances - 1 }) in
    if p.instances == 1
    then (p', unregister_publisher p.topic_name ∷ [], outcome)
    else (p, [], ok tt)

abbrev pub latching : Latch → Str
latching unlatched = str "0"
latching (latched data_held) = str "1"

unfoldable pub header : Publication → Dict Str
header p =
    (str "callerid", p.node_name)
    ∷ (str "latching", latching p.latch)
    ∷ (str "md5sum", p.topic_type.md5sum)
    ∷ (str "message_definition", p.topic_type.full_text)
    ∷ (str "topic", p.topic_name)
    ∷ (str "type", p.topic_type.type_name)
    ∷ []

unfoldable pub message_serialization_needed : Publication → Bool
message_serialization_needed p = elim p.latch [
  | unlatched ↦ if is_empty p.subscribers then false else true
  | latched held ↦ true
]

abbrev pub push : Bytes → ConnectedSubscriber → ConnectedSubscriber
push bytes s = record s { stream = s.stream ++ bytes ∷ [] }

abbrev pub hold : Bytes → Latch → Latch
hold bytes unlatched = unlatched
hold bytes (latched held) = latched (some bytes)

-- _internal_publish of both classes
unfoldable pub internal_publish : Bytes → Publication → Publication
internal_publish bytes p = record p {
  subscribers = map (push bytes) p.subscribers;
  latch = hold bytes p.latch;
}

-- What is used of messages: the number in the header where a message has one, and `serialize`.
pub record MessageClass (M : Type 0) : Type 0 where
  pub has_header : M → Bool
  pub seq_of : M → Option ℕ
  pub with_seq : ℕ → M → M
  pub serialize : M → Result Bytes

module _ {M : Type 0} (class : MessageClass M) where
  -- the message with a number, if it needs one, and what `next(self._seq)` gives then
  abbrev pub number : ℕ → M → M × ℕ
  number seq message =
      if class.has_header message
      then elim (class.seq_of message) [
        | none ↦ (class.with_seq seq message, suc seq)
        | some n ↦ (message, seq)
      ]
      else (message, seq)

  abbrev pub published : Result Bytes → Publication → Publication × Result (Unit {0})
  published (err e) p = (p, err e)
  published (ok bytes) p = (internal_publish bytes p, ok tt)

  abbrev pub publish_numbered : M × ℕ → Publication → Publication × Result (Unit {0})
  publish_numbered (message, seq) p = published (class.serialize message) (record p { seq = seq })

  unfoldable pub publish : M → Publication → Publication × Result (Unit {0})
  unfolding message_serialization_needed internal_publish
  publish message p =
      if message_serialization_needed p
      then publish_numbered (number p.seq message) p
      else (p, ok tt)

-- on_new_subscriber: what a new subscriber finds in its stream
abbrev pub first_data : Latch → List Bytes
first_data unlatched = []
first_data (latched none) = []
first_data (latched (some bytes)) = bytes ∷ []

module _ (encode : Str → Bytes) where
  -- The start of handle_tcpros, up to the loop: the publication with the subscriber, and the bytes
  -- that are sent to it.
  abbrev pub accept : ℕ → Str → Dict Str → Publication → Result (Publication × Bytes)
  accept id protocol received p = do
    bytes ← encode_header encode (header p)
    callerid ← read_value (str "callerid") (get received (str "callerid"))
    let subscriber : ConnectedSubscriber = record {
      id = id;
      protocol = protocol;
      node_name = callerid;
      stream = first_data p.latch;
    }
    ok (record p { subscribers = p.subscribers ++ subscriber ∷ [] }, bytes)

  unfoldable pub handle_tcpros : ℕ → Str → Dict Str → Publication → Result (Publication × Bytes)
  unfolding header
  handle_tcpros id protocol received p = do
    require_fields received (str "topic" ∷ str "md5sum" ∷ str "callerid" ∷ [])
    check_md5sum received p.topic_type.md5sum
    accept id protocol received p

-- A subscriber whose connection broke, or whose stream was closed, leaves the set.
unfoldable pub leave : ℕ → List ConnectedSubscriber → List ConnectedSubscriber
leave id [] = []
leave id (s ∷ l) = let rest = leave id l in if s.id == id then rest else s ∷ rest
