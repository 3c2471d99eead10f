-- ===== src/Node/Examples/Topics.antt =====
-- Small topics and services: aioros/_node/_tcpros.
use aioros.Common.{
  ℕ, suc, ◌≤◌, ◌≡◌, ◌⊎◌, refl, true, false, [], ◌∷◌, none, some, Str, str, starts_with, contains,
  Result, ok, err, value_error, All, arith,
}
use aioros.Dict.{get}
use aioros.Value.{ℤ, pos, Value, int}
use aioros.Tcpros.Words.{Bytes, pack_u32}
use aioros.Tcpros.Data.{serialize}
use aioros.Tcpros.Data.Stream.{serialize_all}
use aioros.Resolve
use aioros.Resolve.{check_parts, split, resolve_unchecked, join, is_valid_name}
use aioros.Node.Client.{NodeInfo}
use aioros.Node.Subscriber.{SubscriptionManager, new_manager, update_publishers, register}
use aioros.Node.Subscriber.Membership.{Updated, update_publishers-Updated}
use aioros.Node.Subscriber.Updates.{AllTracked}
use aioros.Node.Subscriber.Tracking.{start, registering, updating, Reached-AllTracked}
use aioros.Node.Publisher.{
  ConnectedSubscriber, Publication, TopicType, MessageClass, unlatched, latched, new_publication,
  register_publisher, unregister_publisher, message_serialization_needed,
}
use aioros.Node.Publisher.Instances.{enter_times, close_times, close_times-enter_times}
use aioros.Node.Publisher.Delivery.{publish_all}
use aioros.Node.Publisher.Reading.{Receives, publish_all-Receives}
use aioros.Node.Service.{ServiceClass}
use aioros.Node.Service.Calls.{call, delivered, call-handler}
use aioros.Node.Registry
use aioros.Node.Registry.{Registry}
use aioros.Node.State.{Node, resolve_name}
use aioros.Node.Creation.{create_publication}
use aioros.Node.Creation.Reuse.{Again, create_publication-Again}
use aioros.Node.Handle.{Running}
use aioros.Node.Handle.Methods

abbrev one_publisher : SubscriptionManager
one_publisher = update_publishers (str "http://a:1" ∷ []) new_manager

update_publishers-Updated_example :
    Updated
      (contains (str "http://b:1" ∷ []) (str "http://a:1"))
      one_publisher.next_id
      (get one_publisher.connected_publishers (str "http://a:1"))
      (get
        (update_publishers (str "http://b:1" ∷ []) one_publisher).connected_publishers
        (str "http://a:1"))
update_publishers-Updated_example =
    update_publishers-Updated (str "http://b:1" ∷ []) (str "http://a:1") one_publisher

abbrev registered_once : SubscriptionManager
registered_once = (register 3 (some (ok (str "http://a:1" ∷ []))) new_manager).0

Reached-AllTracked_example :
    AllTracked [] (update_publishers (str "http://b:1" ∷ []) registered_once)
Reached-AllTracked_example =
    Reached-AllTracked [] (update_publishers (str "http://b:1" ∷ []) registered_once)
      (updating (str "http://b:1" ∷ []) (registering 3 (some (ok (str "http://a:1" ∷ []))) start))

abbrev chatter : TopicType
chatter = record {
  md5sum = str "abc";
  full_text = str "string data";
  type_name = str "std_msgs/String";
}

abbrev chatter_publication : Publication
chatter_publication = new_publication (str "/chatter") chatter (str "/talker") unlatched

abbrev two : ℕ
two = 2

close_times-enter_times_example :
    let (p', calls) = enter_times two chatter_publication in
    let (p'', more) = close_times 3 p' in
    (calls ≡ register_publisher (str "/chatter") (str "std_msgs/String") ∷ [])
    × (((two ≡ 1) × (p''.instances ≡ 0) × (more ≡ unregister_publisher (str "/chatter") ∷ []))
        ⊎ ((2 ≤ two) × (p'' ≡ p') × (more ≡ [])))
close_times-enter_times_example =
    close_times-enter_times two 2 chatter_publication refl (omega arith)

-- messages that are one byte, without a header
abbrev byte_class : MessageClass ℕ
byte_class = record {
  has_header = λ m. false;
  seq_of = λ m. none;
  with_seq = λ n m. m;
  serialize = λ m. serialize (m ∷ []);
}

abbrev byte_of : Bytes → Result ℕ
byte_of (b ∷ []) = ok b
byte_of _ = err value_error

abbrev listener : ConnectedSubscriber
listener = record { id = 0; protocol = str "TCPROS"; node_name = str "/listener"; stream = [] }

abbrev heard : Publication
heard = record chatter_publication { subscribers = listener ∷ [] }

heard_needed : message_serialization_needed heard ≡ true
unfolding message_serialization_needed
heard_needed = refl

heard_bytes :
    serialize_all ((7 ∷ []) ∷ (8 ∷ []) ∷ []) ≡ ok (1 ∷ 0 ∷ 0 ∷ 0 ∷ 7 ∷ 1 ∷ 0 ∷ 0 ∷ 0 ∷ 8 ∷ [])
unfolding serialize_all serialize pack_u32
heard_bytes = refl

publish_all-Receives_example :
    All
      (Receives byte_class (λ m. m ∷ []) byte_of (7 ∷ 8 ∷ []))
      (publish_all byte_class (7 ∷ 8 ∷ []) heard).subscribers
publish_all-Receives_example =
    publish_all-Receives byte_class (λ m. m ∷ []) byte_of (7 ∷ 8 ∷ [])
      (1 ∷ 0 ∷ 0 ∷ 0 ∷ 7 ∷ 1 ∷ 0 ∷ 0 ∷ 0 ∷ 8 ∷ []) heard heard_needed (refl, tt)
      ((refl, refl), ((refl, refl), tt)) heard_bytes

abbrev byte_service : ServiceClass ℕ ℕ
byte_service = record {
  md5sum = str "abc";
  type_name = str "test/Byte";
  serialize_request = λ m. serialize (m ∷ []);
  deserialize_request = byte_of;
  serialize_response = λ m. serialize (m ∷ []);
  deserialize_response = byte_of;
}

-- it counts its calls, and gives back what it got
abbrev echo : ℕ → ℕ → ℕ × Result ℕ
echo request n = (suc n, ok request)

byte_written : serialize (5 ∷ []) ≡ ok (1 ∷ 0 ∷ 0 ∷ 0 ∷ 5 ∷ [])
unfolding serialize pack_u32
byte_written = refl

call-handler_example :
    call byte_service (λ s. s) echo 5 2 ≡ some ((echo 5 2).0, delivered (echo 5 2).1)
call-handler_example =
    call-handler byte_service (λ s. s) echo (5 ∷ []) (1 ∷ 0 ∷ 0 ∷ 0 ∷ 5 ∷ []) (λ m. m ∷ []) 5 2 refl
      byte_written byte_written refl ((1 ∷ 0 ∷ 0 ∷ 0 ∷ 5 ∷ []), byte_written, byte_written, refl)

abbrev talker_info : NodeInfo
talker_info = record {
  name = str "talker";
  namespace = str "/";
  xmlrpc_uri = str "http://t:1/";
  tcpros_uri = str "rosrpc://t:2";
  udsros_uri = str "udsros://t/run/talker";
  master_uri = str "http://m:11311/";
}

abbrev empty_talker : Node
empty_talker = record {
  info = talker_info;
  registry = Registry.new_registry;
  param_cache = [];
  remapping = [];
}

chatter_resolved : resolve_name (str "chatter") empty_talker ≡ ok (str "/chatter")
unfolding resolve_name Resolve.resolve_name check_parts split resolve_unchecked join is_valid_name
    get starts_with
chatter_resolved = refl

abbrev chatter_made : Publication
chatter_made = new_publication (str "/chatter") chatter (str "/talker") (latched none)

chatter_created : (create_publication (str "chatter") chatter true empty_talker).1 ≡ ok chatter_made
unfolding create_publication resolve_name Resolve.resolve_name check_parts split resolve_unchecked
    join is_valid_name get starts_with
chatter_created = refl

create_publication-Again_example :
    Again true false chatter_made
      (create_publication
        (str "chatter")
        chatter
        false
        (create_publication (str "chatter") chatter true empty_talker).0).1
create_publication-Again_example =
    create_publication-Again (str "chatter") (str "/chatter") chatter chatter true false
      empty_talker chatter_made chatter_resolved chatter_created

abbrev publishing : Running
publishing = record {
  node = record empty_talker {
    registry = record Registry.new_registry { publications = (str "/chatter", chatter_made) ∷ [] };
  };
  shutdowns = 0;
}

abbrev digit : Str → Result ℤ
digit (c ∷ []) = ok (pos 2)
digit _ = err value_error

abbrev int_of_int : Value → Result ℤ
int_of_int (int n) = ok n
int_of_int _ = err value_error

abbrev refuse_call : Methods.Handler
refuse_call name args r = (r, err value_error)
