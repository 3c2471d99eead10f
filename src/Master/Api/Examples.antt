-- ===== src/Master/Api/Examples.antt =====
-- The methods of the master on small states: aioros/master/_api.py.
use aioros.Common.{
  ◌≡◌, refl, ◌⊎◌, List, [], ◌++◌, none, some, Str, str, str_eq, Exc, value_error, index_error,
  key_error, Result, ok, err, if◌then◌else◌, starts_with, contains,
}
use aioros.Dict.{get, has, put}
use aioros.Value.{int, pos, end, field}
use aioros.Master.Node.{is_registered, add_registration, add}
use aioros.Master.Registry.{
  new_registry, register_topic, register_node, with_node, notify, update_subscribers,
}
use aioros.Master.Registry.Topics.{register_publisher, join_topic}
use aioros.Master.Registry.Consistency.{GivesOwnApi}
use aioros.Master.Api.{Master, success, failure, not_set, get_param, set_param, delete_param}
use aioros.Master.Api.Graph.{
  lookup_service, api_register_service, api_unregister_service, api_register_publisher,
  get_published_topics, published_topics, success_of,
}
use aioros.Master.Api.Parameters.{get_param-set_param, get_param-delete_param}
use aioros.Master.Api.Services.{lookup-api_unregister_service}
use aioros.Master.Api.Topics.{Listed, get_published_topics-Listed}

abbrev fresh : Master
fresh = record {
  param_cache = field (str "rate") (int (pos 5)) end;
  registry = new_registry;
  xmlrpc_uri = str "http://m:11311";
  shutdowns = [];
}

-- a topic of which only a publisher that does not tell a type is known
abbrev untyped : Master
untyped = (api_register_publisher (str "/echo") (str "/any") (str "*") (str "http://e:1") fresh).0

untyped_raises : (get_published_topics [] untyped).1 ≡ err (key_error (str "/any"))
unfolding get_published_topics published_topics api_register_publisher register_publisher
    register_topic register_node with_node notify update_subscribers join_topic add_registration
    is_registered add contains get put has str_eq starts_with
untyped_raises = refl

get_param-set_param_example :
    let (m', reply) = set_param (str "/echo") (str "/arm/len") (int (pos 2)) fresh in
    ((get_param (str "/arm/len") m').1 ≡ ok (success (some (int (pos 2)))))
    ⊎ ((m' ≡ fresh) × ((reply ≡ err value_error) ⊎ (reply ≡ err index_error)))
get_param-set_param_example = get_param-set_param (str "/echo") (str "/arm/len") (int (pos 2)) fresh

get_param-delete_param_example :
    let (m', reply) = delete_param (str "/echo") (str "/rate") fresh in
    ((get_param (str "/rate") m').1 ≡ ok (failure (not_set (str "/rate")) none))
    ⊎ ((m' ≡ fresh) × ((e : Exc) × (reply ≡ err e)))
get_param-delete_param_example = get_param-delete_param (str "/echo") (str "/rate") fresh

fresh-GivesOwnApi : GivesOwnApi (str "/adder") (str "http://a:1") fresh.registry
unfolding get
fresh-GivesOwnApi = λ node p. absurd (cc p)

abbrev serving : Master
serving =
    (api_register_service (str "/adder") (str "/add") (str "rosrpc://a:2") (str "http://a:1")
      fresh).0

lookup-api_unregister_service_example :
    (lookup_service
      (str "/add")
      (api_unregister_service (str "/stranger") (str "/add") (str "rosrpc://s:1") serving).0).1
    ≡ (if str_eq (str "/add") (str "/add")
        then ok (failure [] (str "unknown service " ++ str "/add"))
        else (lookup_service (str "/add") serving).1)
lookup-api_unregister_service_example =
    lookup-api_unregister_service (str "/stranger") (str "/add") (str "rosrpc://s:1") (str "/add")
      serving

get_published_topics-Listed_example :
    let (m', reply) = get_published_topics (str "/a") untyped in
    (m' ≡ untyped)
    × ((o : Result (List (Str × Str))) × (reply ≡ success_of o)
        × Listed (str "/a") untyped.registry.topic_types untyped.registry.publications o)
get_published_topics-Listed_example = get_published_topics-Listed (str "/a") untyped
