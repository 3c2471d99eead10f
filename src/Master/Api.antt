-- ===== src/Master/Api.antt =====
-- The XML-RPC methods of the master: MasterApiHandle of aioros/master/_api.py over Master of
-- aioros/master/_master.py. A method gives the new state with its reply, or with the exception that
-- the server turns into a fault. The wrapper `log` passes results and exceptions on.
pub mod Graph
pub mod Parameters
pub mod Services
pub mod Topics
pub mod Calls
mod Examples
use aioros.Common.{
  ℕ, Bool, true, false, not, List, [], ◌∷◌, ◌++◌, map, filter_by, Option, none, some, Str, str,
  starts_with, is_empty, Exc, key_error, stop_iteration, runtime_error, Result, ok, err,
  if◌then◌else◌, ◌>>=◌,
}
use aioros.Dict.{Dict, get, keys}
use aioros.Value.{ℤ, pos, negsuc, Value, null, text, struct, end}
use aioros.Master.ParamCache.{ParamCache, get_item, has_item, set_item, delete_item}
use aioros.Master.ParamCache.Search.{search}
use aioros.Master.ParamCache.Listing
use aioros.Master.Node.{Registration, Node}
use aioros.Master.Registry.{Registry, new_registry, members_of, apis}
use aioros.Master.Registry.Topics.{
  register_service, unregister_service, register_subscriber, unregister_subscriber,
  register_publisher, unregister_publisher,
}
use aioros.Master.Registry.Params.{
  on_param_update, register_param_subscriber, unregister_param_subscriber,
}

-- `shutdowns` holds the messages of the shutdown tasks that were started.
pub record Master : Type 0 where
  pub param_cache : ParamCache
  pub registry : Registry
  pub xmlrpc_uri : Str
  pub shutdowns : List Str

-- the code, the status message and the value of a reply
abbrev pub Reply {ℓ} : Type ℓ → Type ℓ
Reply A = ℤ × Str × A

abbrev pub Outcome {ℓ} : Type ℓ → Type ℓ
Outcome A = Master × Result (Reply A)

module _ {ℓ} {A : Type ℓ} where
  abbrev pub success : A → Reply A
  success a = (pos 1, [], a)

  abbrev pub failure : Str → A → Reply A
  failure msg a = (negsuc 0, msg, a)

  -- a method that only reads
  abbrev pub answer : Master → Reply A → Outcome A
  answer m reply = (m, ok reply)

abbrev pub with_registry : Registry → Master → Master
with_registry registry m = record m { registry = registry }

abbrev pub not_set : Str → Str
not_set key = str "Parameter [" ++ key ++ str "] is not set"

abbrev pub get_pid : ℕ → Master → Outcome ℕ
get_pid pid m = answer m (success pid)

abbrev pub get_uri : Master → Outcome Str
get_uri m = answer m (success m.xmlrpc_uri)

unfoldable pub shutdown : Str → Master → Outcome ℕ
shutdown msg m = (record m { shutdowns = m.shutdowns ++ msg ∷ [] }, ok (pos 1, str "shutdown", 0))

-- the value, or 0
abbrev pub Param : Type 0
Param = Option Value

abbrev pub param_reply : Str → Result Value → Result (Reply Param)
param_reply key (ok v) = ok (success (some v))
param_reply key (err (key_error _)) = ok (failure (not_set key) none)
param_reply key (err e) = err e

unfoldable pub get_param : Str → Master → Outcome Param
get_param key m = (m, param_reply key (get_item m.param_cache key))

-- the reply 0 of a call that did not raise
abbrev pub zero_reply : Result (Unit {0}) → Result (Reply ℕ)
zero_reply (ok _) = ok (success 0)
zero_reply (err e) = err e

-- on_param_update, then the reply
abbrev pub announce : Str → Value → Str → Master → Outcome ℕ
announce key value caller_id m =
    let (registry, r) = on_param_update key value caller_id m.registry in
    (with_registry registry m, zero_reply r)

abbrev pub stored : Str → Str → Value → Result ParamCache → Master → Outcome ℕ
stored caller_id key value (err e) m = (m, err e)
stored caller_id key value (ok params) m =
    announce key value caller_id (record m { param_cache = params })

unfoldable pub set_param : Str → Str → Value → Master → Outcome ℕ
set_param caller_id key value m = stored caller_id key value (set_item m.param_cache key value) m

abbrev pub deleted : Str → Str → Result ParamCache → Master → Outcome ℕ
deleted caller_id key (err (key_error _)) m = (m, ok (failure (not_set key) 0))
deleted caller_id key (err e) m = (m, err e)
deleted caller_id key (ok params) m =
    announce key (struct end) caller_id (record m { param_cache = params })

unfoldable pub delete_param : Str → Str → Master → Outcome ℕ
delete_param caller_id key m = deleted caller_id key (delete_item m.param_cache key) m

-- `search` raises no KeyError, and Python turns a StopIteration that leaves a coroutine into a
-- RuntimeError
abbrev pub search_reply : Result (Option Str) → Result (Reply (Option Str))
search_reply (ok o) = ok (success o)
search_reply (err (key_error _)) = ok (failure [] none)
search_reply (err stop_iteration) = err runtime_error
search_reply (err e) = err e

unfoldable pub search_param : Str → Str → Master → Outcome (Option Str)
search_param caller_id key m = (m, search_reply (search m.param_cache key caller_id))

unfoldable pub has_param : Str → Master → Outcome Bool
has_param key m = answer m (success (has_item m.param_cache key))

-- `none` stands for a loop that did not end
unfoldable pub get_param_names : Master → Outcome (Option (List Str))
get_param_names m = answer m (success (Listing.keys m.param_cache))
