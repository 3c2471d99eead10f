-- ===== src/Node/Examples.antt =====
-- A small node, its parameters, subscriptions, publications and services: aioros/_node.
mod Topics
mod Routing
use aioros.Common.{
  ℕ, zero, suc, ◌≡◌, ◌⊎◌, refl, true, false, assertion_error, List, [], ◌∷◌, ◌++◌, str_eq,
  starts_with, none, some, Str, str, Exc, Result, ok, err, value_error,
}
use aioros.Resolve
use aioros.Resolve.{check_parts, split, resolve_unchecked, join, is_valid_name}
use aioros.Dict.{get, put, has}
use aioros.Tcpros.{strip, left_strip, right_strip}
use aioros.Xmlrpc.Sendable.{IsSendable}
use aioros.Xmlrpc.Schema.{validate_schema, are_name_chars}
use aioros.Xmlrpc.{inner, py2xml, is_i4, to_items}
use aioros.Xmlrpc.Remote.{remote_call}
use aioros.Master.Api
use aioros.Master.ParamCache.{set_item}
use aioros.Master.Registry.Params.{on_param_update}
use aioros.Node.Client
use aioros.Value.{pos, Value, int, text, struct, end, field}
use aioros.Xmlrpc.Samples.{short, short-IsPython}
use aioros.Master.Api.{Master}
use aioros.Master.Registry.{new_registry}
use aioros.Master.Api.Calls
use aioros.Node.ParamCache.{ParamCache, update, has_item, get_item}
use aioros.Node.ParamCache.Update.{get_item-update}
use aioros.Node.Client.{NodeInfo, full_name}
use aioros.Master.Node.{Task, publisher_update, param_update}
use aioros.Node.Handle.{Running}
use aioros.Node.Handle.Methods
use aioros.Node.Notices.{serve, node_proxy, do_tasks, AreSendableTasks, serve-do_tasks}
use aioros.Node.Client.Services.{lookup_service-register_service}
use aioros.Master.Registry.Consistency.{GivesOwnApi}
use aioros.Node.Client.Parameters.{proxy, get_param-set_param_remote}
use aioros.Node.Registry
use aioros.Node.State.{Node, resolve_name, set_param, get_param}
use aioros.Node.State.Params.{get_param-set_param_node}

abbrev arm : ParamCache
arm = (str "arm", struct (field (str "len") (int (pos 2)) end)) ∷ []

arm_updated : (update (str "/arm/len") (int (pos 5)) arm).1 ≡ ok tt
unfolding update split join has get str_eq put
arm_updated = refl

abbrev talker : NodeInfo
talker = record {
  name = str "talker";
  namespace = str "/";
  xmlrpc_uri = str "http://t:1/";
  tcpros_uri = str "rosrpc://t:2";
  udsros_uri = str "udsros://t/run/talker";
  master_uri = str "http://m:11311/";
}

abbrev fresh_node : Node
fresh_node = record {
  info = talker;
  registry = Registry.new_registry;
  param_cache = arm;
  remapping = [];
}

abbrev fresh_master : Master
fresh_master = record {
  param_cache = end;
  registry = new_registry;
  xmlrpc_uri = str "http://m:11311/";
  shutdowns = [];
}

abbrev refuse_call : Calls.Handler
refuse_call name args m = (m, err value_error)

arm_resolved : resolve_name (str "/arm/len") fresh_node ≡ ok (str "/arm/len")
unfolding resolve_name Resolve.resolve_name check_parts split resolve_unchecked starts_with join
    is_valid_name get
arm_resolved = refl

arm_set :
    (set_param (proxy short refuse_call 7) (str "/arm/len") (int (pos 5)) fresh_node fresh_master).2
    ≡ ok tt
unfolding set_param resolve_name Resolve.resolve_name check_parts split resolve_unchecked
    starts_with join is_valid_name Client.set_param remote_call str_eq inner py2xml is_i4
    validate_schema are_name_chars Calls.master_method Api.set_param set_item get put has update
    on_param_update left_strip right_strip to_items Client.is_minus_one Client.is_one
arm_set = refl

five-IsSendable : IsSendable short (int (pos 5))
unfolding IsSendable is_i4
five-IsSendable = refl

talker-IsSendable : IsSendable short (text (full_name talker))
unfolding IsSendable left_strip right_strip
talker-IsSendable = (refl, refl)

arm-IsSendable : IsSendable short (text (str "/arm/len"))
unfolding IsSendable left_strip right_strip
arm-IsSendable = (refl, refl)

get_param-set_param_node_example :
    let master = proxy short refuse_call 7 in
    let (node', m', done) =
      set_param master (str "/arm/len") (int (pos 5)) fresh_node fresh_master in
    (get_param master (str "/arm/len") node' m').2 ≡ ok (int (pos 5))
get_param-set_param_node_example =
    get_param-set_param_node short refuse_call 7 (str "/arm/len") (str "/arm/len") (int (pos 5))
      fresh_node fresh_master short-IsPython talker-IsSendable arm_resolved arm-IsSendable
      five-IsSendable arm_set

get_item-update_example :
    let params' = (update (str "/arm/len") (int (pos 5)) arm).0 in
    ((has_item arm (str "/arm/len") ≡ true)
      × (has_item params' (str "/arm/len") ≡ true)
      × (get_item params' (str "/arm/len") ≡ ok (int (pos 5))))
    ⊎ ((has_item arm (str "/arm/len") ≡ false) × (params' ≡ arm))
get_item-update_example = get_item-update (str "/arm/len") (int (pos 5)) arm arm_updated

add-IsSendable : IsSendable short (text (str "/add"))
unfolding IsSendable left_strip right_strip
add-IsSendable = (refl, refl)

tcpros-IsSendable : IsSendable short (text (talker.tcpros_uri))
unfolding IsSendable left_strip right_strip
tcpros-IsSendable = (refl, refl)

xmlrpc-IsSendable : IsSendable short (text (talker.xmlrpc_uri))
unfolding IsSendable left_strip right_strip
xmlrpc-IsSendable = (refl, refl)

talker-GivesOwnApi : GivesOwnApi (full_name talker) talker.xmlrpc_uri fresh_master.registry
unfolding get
talker-GivesOwnApi = λ node p. absurd (cc p)

lookup_service-register_service_example :
    let master = proxy short refuse_call 7 in
    let (m', done) = Client.register_service master talker (str "/add") fresh_master in
    (done ≡ ok tt)
    × ((Client.lookup_service master talker (str "/add") m').1 ≡ ok (text (str "rosrpc://t:2")))
lookup_service-register_service_example =
    lookup_service-register_service short refuse_call 7 talker talker (str "/add") fresh_master
      short-IsPython talker-IsSendable talker-IsSendable add-IsSendable tcpros-IsSendable
      xmlrpc-IsSendable talker-GivesOwnApi

abbrev told : List Task
told =
    publisher_update (str "/chatter") (str "http://t:1/" ∷ [])
    ∷ param_update (str "/arm/len") (int (pos 5))
    ∷ []

abbrev running : Running
running = record { node = fresh_node; shutdowns = 0 }

abbrev refuse : Methods.Handler
refuse name args r = (r, err value_error)

told-AreSendableTasks : AreSendableTasks short told
unfolding left_strip right_strip IsSendable is_i4
told-AreSendableTasks = (((refl, refl), ((refl, refl), tt)), (((refl, refl), refl), tt))

serve-do_tasks_example :
    serve (node_proxy short (λ s. err value_error) refuse 7) told running ≡ do_tasks told running
serve-do_tasks_example =
    serve-do_tasks short (λ s. err value_error) refuse 7 told running short-IsPython
      told-AreSendableTasks
