-- ===== src/Node/Registry.antt =====
-- What a node has made: Registry of aioros/_node/_node.py.
use aioros.Common.{
  ℕ, Bool, true, false, List, [], ◌∷◌, ◌++◌, map, filter_by, Option, none, some, Str, str, ◌==◌,
}
use aioros.Dict
use aioros.Dict.{Dict, has, is_some}
use aioros.Node.Subscriber.{ConnectedPublisher, SubscriptionManager, update_publishers}
use aioros.Node.Publisher.{ConnectedSubscriber, Publication, TopicType}

-- a ServiceServer: its service's name and type
pub record ServiceServer : Type 0 where
  pub service_name : Str
  pub service_type : TopicType

-- a SubscriptionManager with the topic that it was made for
pub record TopicSubscription : Type 0 where
  pub topic_name : Str
  pub topic_type : TopicType
  pub manager : SubscriptionManager

pub record Registry : Type 0 where
  pub services : Dict ServiceServer
  pub publications : Dict Publication
  pub subscriptions : Dict TopicSubscription

abbrev pub new_registry : Registry
new_registry = record { services = []; publications = []; subscriptions = [] }

unfoldable pub published_topics : Dict Publication → Dict TopicType
published_topics [] = []
published_topics ((topic_name, publication) ∷ d) =
    (topic_name, publication.topic_type) ∷ published_topics d

unfoldable pub subscribed_topics : Dict TopicSubscription → Dict TopicType
subscribed_topics [] = []
subscribed_topics ((topic_name, subscription) ∷ d) =
    (topic_name, subscription.topic_type) ∷ subscribed_topics d

-- id, uri or name of the peer, direction, protocol, topic, whether it is connected, and ""
abbrev pub ConnectionInfo : Type 0
ConnectionInfo = ℕ × Str × Str × Str × Str × Bool × Str

abbrev pub publisher_info : Str → ConnectedPublisher → ConnectionInfo
publisher_info topic p = (p.id, p.xmlrpc_uri, str "i", p.protocol, topic, p.connected, [])

-- the publishers that the dict of the manager holds, in the order of the store
unfoldable pub publisher_infos : Dict TopicSubscription → List ConnectionInfo
publisher_infos [] = []
publisher_infos ((topic, s) ∷ d) =
    map (publisher_info s.topic_name) (
      filter_by
        (λ p. elim (Dict.get s.manager.connected_publishers p.xmlrpc_uri) [
          | none ↦ false
          | some id ↦ id == p.id
        ])
        s.manager.publishers)
    ++ publisher_infos d

abbrev pub subscriber_info : Str → ConnectedSubscriber → ConnectionInfo
subscriber_info topic s = (1, s.node_name, str "o", s.protocol, topic, true, [])

unfoldable pub subscriber_infos : Dict Publication → List ConnectionInfo
subscriber_infos [] = []
subscriber_infos ((topic, p) ∷ d) =
    map (subscriber_info p.topic_name) p.subscribers ++ subscriber_infos d

unfoldable pub connection_infos : Registry → List ConnectionInfo
unfolding publisher_infos subscriber_infos
connection_infos r = publisher_infos r.subscriptions ++ subscriber_infos r.publications

abbrev pub with_update : Str → List Str → Option TopicSubscription → Registry → Registry
with_update topic publishers none r = r
with_update topic publishers (some s) r =
    let updated = record s { manager = update_publishers publishers s.manager } in
    record r { subscriptions = Dict.put r.subscriptions topic updated }

unfoldable pub publisher_update : Str → List Str → Registry → Registry
publisher_update topic publishers r =
    with_update topic publishers (Dict.get r.subscriptions topic) r
