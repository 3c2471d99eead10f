-- ===== src/Node/Handle.antt =====
-- The XML-RPC methods of a node: NodeApiHandle of aioros/_node/_api.py. `shutdowns` of the state counts
-- the shutdowns that were signalled, whose task is not run; logging is left out.
pub mod Methods
use aioros.Common.{
  ℕ, suc, Bool, true, false, not, List, [], ◌∷◌, Option, none, some, Str, str, str_eq, Result, ok,
  err, value_error, ◌>>=◌, if◌then◌else◌,
}
use aioros.Dict.{Dict, has}
use aioros.Value.{ℤ, pos, Value, int, text}
use aioros.Node.Client.{NodeInfo, full_name}
use aioros.Node.ParamCache.{ParamCache, update}
use aioros.Node.Publisher.{TopicType}
use aioros.Node.Registry
use aioros.Node.Registry.{published_topics, subscribed_topics, ConnectionInfo, connection_infos}
use aioros.Node.State.{Node}
use aioros.Node.Uris.{split_tcpros_uri, split_udsros_uri}

-- a node, and how often its shutdown was signalled
pub record Running : Type 0 where
  pub node : Node
  pub shutdowns : ℕ

abbrev pub Reply : Type 0 → Type 0
Reply A = ℤ × Str × A

abbrev pub Outcome : Type 0 → Type 0
Outcome A = Running × Result (Reply A)

-- a method that only reads
abbrev pub answer : {A : Type 0} → Running → Str → A → Outcome A
answer r msg a = (r, ok (pos 1, msg, a))

unfoldable pub get_name : Running → Outcome Str
get_name r = answer r [] (full_name r.node.info)

unfoldable pub get_uri : Running → Outcome Str
get_uri r = answer r [] r.node.info.xmlrpc_uri

-- three empty lists
unfoldable pub get_bus_stats : Running → Outcome (List Str × List Str × List Str)
get_bus_stats r = answer r [] ([], [], [])

unfoldable pub get_bus_info : Running → Outcome (List ConnectionInfo)
get_bus_info r = answer r (str "bus info") (connection_infos r.node.registry)

unfoldable pub get_master_uri : Running → Outcome Str
get_master_uri r = answer r r.node.info.master_uri r.node.info.master_uri

unfoldable pub shutdown : Str → Running → Outcome ℕ
shutdown msg r = answer (record r { shutdowns = suc r.shutdowns }) (str "shutdown") 0

unfoldable pub get_pid : ℕ → Running → Outcome ℕ
get_pid pid r = answer r [] pid

-- each topic with the name of its type
unfoldable pub topic_infos : Dict TopicType → List (Str × Str)
topic_infos [] = []
topic_infos ((topic_name, topic_type) ∷ d) = (topic_name, topic_type.type_name) ∷ topic_infos d

unfoldable pub get_subscriptions : Running → Outcome (List (Str × Str))
unfolding topic_infos
get_subscriptions r =
    answer r (str "subscriptions") (topic_infos (subscribed_topics r.node.registry.subscriptions))

unfoldable pub get_publications : Running → Outcome (List (Str × Str))
unfolding topic_infos
get_publications r =
    answer r (str "publications") (topic_infos (published_topics r.node.registry.publications))

abbrev pub zero_reply : Result (Unit {0}) → Result (Reply ℕ)
zero_reply (ok done) = ok (pos 1, [], 0)
zero_reply (err e) = err e

abbrev pub with_params : ParamCache → Running → Running
with_params params r = record r { node = record r.node { param_cache = params } }

-- What an update that raises has changed stays.
unfoldable pub param_update : Str → Value → Running → Outcome ℕ
param_update parameter_key parameter_value r =
    let (params, done) = update parameter_key parameter_value r.node.param_cache in
    (with_params params r, zero_reply done)

unfoldable pub publisher_update : Str → List Str → Running → Outcome ℕ
publisher_update topic publishers r =
    let registry = Registry.publisher_update topic publishers r.node.registry in
    answer (record r { node = record r.node { registry = registry } }) [] 0

abbrev pub Protocol : Type 0
Protocol = Result (Reply (List Value))

abbrev pub tcp_protocol : Str → Result (Str × ℤ) → Protocol
tcp_protocol protocol (err e) = err e
tcp_protocol protocol (ok (host, port)) = ok (pos 1, [], text protocol ∷ text host ∷ int port ∷ [])

abbrev pub uds_protocol : Str → Str × Str → Protocol
uds_protocol protocol (host, path) = ok (pos 1, [], text protocol ∷ text host ∷ text path ∷ [])

-- the loop over the protocols, each with its name first
unfoldable pub select_protocol : (Str → Result ℤ) → NodeInfo → List (List Str) → Protocol
select_protocol int_of info [] = ok (pos 0, str "no supported protocol implementations", [])
select_protocol int_of info ([] ∷ protocols) = err value_error
select_protocol int_of info ((protocol ∷ options) ∷ protocols) =
    let rest = select_protocol int_of info protocols in
    if str_eq protocol (str "TCPROS")
    then tcp_protocol protocol (split_tcpros_uri int_of info.tcpros_uri)
    else if str_eq protocol (str "UDSROS")
    then uds_protocol protocol (split_udsros_uri info.udsros_uri)
    else rest

unfoldable pub request_topic :
    (Str → Result ℤ) → Str → List (List Str) → Running → Outcome (List Value)
unfolding select_protocol
request_topic int_of topic protocols r =
    if has (published_topics r.node.registry.publications) topic
    then (r, select_protocol int_of r.node.info protocols)
    else (r, ok (pos 0, str "topic not published", []))
