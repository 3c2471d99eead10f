-- ===== src/Node/Client/Services.antt =====
-- register_service and lookup_service of MasterApiClient, aioros/_node/_api.py, over XML-RPC against
-- the methods of aioros/master/_api.py.
use aioros.Common.{ℕ, ◌≡◌, refl, ◌∙◌, [], ◌∷◌, Str, str, str_eq, str_eq_refl, starts_with, ok}
use aioros.Value.{text}
use aioros.Tcpros.{left_strip, right_strip}
use aioros.Xmlrpc.{Python, is_i4}
use aioros.Xmlrpc.Sendable.{IsPython, IsSendable, is_plain}
use aioros.Xmlrpc.Schema.{are_name_chars}
use aioros.Xmlrpc.Calls.{seen, IsSendableResult, remote_call-method}
use aioros.Master.Api.{Master, success}
use aioros.Master.Api.Graph
use aioros.Master.Api.Services.{lookup-api_register_service}
use aioros.Master.Api.Calls.{Handler, master_method, register_method, encoded, number}
use aioros.Master.Registry.Consistency.{GivesOwnApi}
use aioros.Node.Client.{NodeInfo, full_name, register_service, lookup_service, check_code, is_one}
use aioros.Node.Client.Parameters.{proxy}

module _ (python : Python) (other : Handler) (pid : ℕ) where
  proxy-register_service :
      (c service api caller : Str) (m : Master)
      → IsPython python
      → IsSendable python (text c)
      → IsSendable python (text service)
      → IsSendable python (text api)
      → IsSendable python (text caller)
      → proxy python other pid
          (str "registerService")
          (text c ∷ text service ∷ text api ∷ text caller ∷ [])
          m
        ≡ (
          (Graph.api_register_service c service api caller m).0,
          seen (encoded number (ok (success 1))),
        )
  unfolding master_method register_method str_eq starts_with IsSendable Graph.api_register_service
      is_i4 left_strip right_strip is_plain are_name_chars
  proxy-register_service c service api caller m laws hc hs ha hk =
      remote_call-method python (master_method other pid) (str "registerService")
        (text c ∷ text service ∷ text api ∷ text caller ∷ []) m laws refl refl
        (hc, (hs, (ha, (hk, tt)))) (refl, ((refl, laws.xml_plain [] refl), (refl, tt)))

  reply_sendable :
      (service api : Str) (m : Master)
      → (Graph.lookup_service service m).1 ≡ ok (success api)
      → IsSendable python (text api)
      → IsPython python
      → IsSendableResult python (encoded text (Graph.lookup_service service m).1)
  unfolding IsSendable is_i4 left_strip right_strip is_plain
  reply_sendable service api m e h laws = rw e (refl, ((refl, laws.xml_plain [] refl), (h, tt)))

  proxy-lookup_service :
      (c service api : Str) (m : Master)
      → IsPython python
      → IsSendable python (text c)
      → IsSendable python (text service)
      → IsSendable python (text api)
      → (Graph.lookup_service service m).1 ≡ ok (success api)
      → proxy python other pid (str "lookupService") (text c ∷ text service ∷ []) m ≡ (
        (Graph.lookup_service service m).0,
        seen (encoded text (Graph.lookup_service service m).1),
      )
  unfolding master_method str_eq starts_with are_name_chars
  proxy-lookup_service c service api m laws hc hs ha e =
      remote_call-method python (master_method other pid) (str "lookupService")
        (text c ∷ text service ∷ []) m laws refl refl (hc, (hs, tt))
        (reply_sendable service api m e ha laws)

  -- When a node registers a service over XML-RPC, under the api that the master knows of it if it knows
  -- one, the call returns, and a look-up of the service by any node gives the first node's TCPROS
  -- address; for names and addresses that survive the way.
  pub lookup_service-register_service :
      (server client : NodeInfo) (service : Str) (m : Master)
      → IsPython python
      → IsSendable python (text (full_name server))
      → IsSendable python (text (full_name client))
      → IsSendable python (text service)
      → IsSendable python (text server.tcpros_uri)
      → IsSendable python (text server.xmlrpc_uri)
      → GivesOwnApi (full_name server) server.xmlrpc_uri m.registry
      → let (m', done) = register_service (proxy python other pid) server service m in
        (done ≡ ok tt)
        × ((lookup_service (proxy python other pid) client service m').1
            ≡ ok (text server.tcpros_uri))
  unfolding register_service lookup_service check_code is_one
  lookup_service-register_service server client service m laws hn hc hs ht hx own =
      let m' =
        (Graph.api_register_service (full_name server) service server.tcpros_uri server.xmlrpc_uri
          m).0 in
      let found : (Graph.lookup_service service m').1 ≡ ok (success server.tcpros_uri) =
        lookup-api_register_service (full_name server) service server.tcpros_uri server.xmlrpc_uri
          service m own
        ∙ rw (str_eq_refl service) refl in
      rw
        (proxy-register_service (full_name server) service server.tcpros_uri server.xmlrpc_uri m
          laws hn hs ht hx)
        (
          refl,
          rw
              (proxy-lookup_service (full_name client) service server.tcpros_uri m' laws hc hs ht
                found)
              (rw found refl),
        )
