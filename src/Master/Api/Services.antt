-- ===== src/Master/Api/Services.antt =====
-- lookupService of MasterApiHandle, aioros/master/_api.py, after registerService and
-- unregisterService.
use aioros.Common.{
  ◌≡◌, refl, ◌∙◌, inl, inr, Str, [], str, str_eq, str_eq_iff, str_eq_refl, ok, ◌++◌, Option-cases,
  arith, if◌then◌else◌,
}
use aioros.Dict.{get, put, remove, get-put, get-remove}
use aioros.Master.Registry.{Registry, with_node, register_node, check_node}
use aioros.Master.Registry.Topics.{
  registration, add_service, discard_service, register_service, unregister_service,
}
use aioros.Master.Registry.Updates.{with_node-SameTables}
use aioros.Master.Registry.Consistency.{GivesOwnApi}
use aioros.Master.Api.{Master, success, failure}
use aioros.Master.Api.Graph.{lookup_service, api_register_service, api_unregister_service}

services-check_node : (c : Str) (r : Registry) → (check_node c r).services ≡ r.services
unfolding check_node
services-check_node c r = ground arith

services-register_node :
    (c api : Str) (r : Registry)
    → GivesOwnApi c api r
    → (register_node c api r).services ≡ r.services
unfolding register_node
services-register_node c api r own = elim (Option-cases (get r.nodes c)) [
  | inl e ↦ rw (e, register_node) refl
  | inr (node, e) ↦ rw (e, register_node) (rw (own node e, str_eq_refl api) refl)
]

services-unregister_service :
    (n c : Str) (r : Registry) → (unregister_service n c r).services ≡ remove r.services n
unfolding unregister_service
services-unregister_service n c r =
    let r1 : Registry = record r { services = remove r.services n } in
    services-check_node c (with_node c (discard_service n) r1)
    ∙ (with_node-SameTables c (discard_service n) r1).services

services-register_service :
    (n c api service_api : Str) (r : Registry)
    → GivesOwnApi c api r
    → (register_service n c api service_api r).services
      ≡ put r.services n (registration c service_api)
unfolding register_service
services-register_service n c api service_api r own =
    rw
      (
        (with_node-SameTables c (add_service n) (register_node c api r)).services,
        services-register_node c api r own,
      )
      refl

-- After unregisterService, whoever called it and whatever api was given, lookupService does not know
-- the service, and replies for every other service as before.
pub lookup-api_unregister_service :
    (c n service_api j : Str) (m : Master)
    → (lookup_service j (api_unregister_service c n service_api m).0).1 ≡ (
        if str_eq n j
        then ok (failure [] (str "unknown service " ++ j))
        else (lookup_service j m).1)
unfolding lookup_service api_unregister_service
lookup-api_unregister_service c n service_api j m =
    rw (services-unregister_service n c m.registry)
      (rw (get-remove m.registry.services n j) (ground (arith, str_eq_iff n j)))

-- After registerService by a caller that is new or known by the api that it gives, lookupService
-- replies with the service's api, and for every other service as before.
pub lookup-api_register_service :
    (c n service_api api j : Str) (m : Master)
    → GivesOwnApi c api m.registry
    → (lookup_service j (api_register_service c n service_api api m).0).1
      ≡ (if str_eq n j then ok (success service_api) else (lookup_service j m).1)
unfolding lookup_service api_register_service
lookup-api_register_service c n service_api api j m own =
    rw (services-register_service n c api service_api m.registry own) (
      rw (get-put m.registry.services n j (registration c service_api))
        (ground (arith, str_eq_iff n j)))
