-- ===== src/Node/Client/Parameters.antt =====
-- set_param and get_param of MasterApiClient, aioros/_node/_api.py, over XML-RPC against the methods
-- of aioros/master/_api.py.
use aioros.Common.{
  ℕ, ◌≡◌, refl, ◌⊎◌, inl, inr, List, [], ◌∷◌, some, Str, str, str_eq, starts_with, Exc, Result, ok,
  err, assertion_error, Result-cases,
}
use aioros.Value.{Value, text}
use aioros.Tcpros.{left_strip, right_strip}
use aioros.Xmlrpc.{Python, is_i4}
use aioros.Xmlrpc.Sendable.{IsPython, IsSendable, is_plain}
use aioros.Xmlrpc.Schema.{are_name_chars}
use aioros.Xmlrpc.Remote.{remote_call}
use aioros.Xmlrpc.Calls.{seen, IsSendableResult, remote_call-method}
use aioros.Master.ParamCache.{set_item}
use aioros.Master.Registry.Params.{on_param_update}
use aioros.Master.Api
use aioros.Master.Api.{Master, success}
use aioros.Master.Api.Parameters
use aioros.Master.Api.Calls.{
  Handler, master_method, register_method, param_method, encoded, number, value_or_zero,
}
use aioros.Node.Client.{
  NodeInfo, full_name, set_param, get_param, validate, check_code, is_one, is_minus_one,
}

module _ (python : Python) (other : Handler) (pid : ℕ) where
  -- the proxy of the master
  abbrev pub proxy : Str → List Value → Master → Master × Result Value
  proxy = remote_call python (master_method other pid)

  set_param-Shape :
      (c key : Str) (v : Value) (m : Master)
      → ((Api.set_param c key v m).1 ≡ ok (success 0))
        ⊎ ((e : Exc) × ((Api.set_param c key v m).1 ≡ err e))
  unfolding Api.set_param
  set_param-Shape c key v m = elim (Result-cases (set_item m.param_cache key v)) [
    | inl (e, raised) ↦ rw raised (inr (e, refl))
    | inr (params, stored) ↦ rw stored (elim (Result-cases (on_param_update key v c m.registry).1) [
      | inl (e, raised) ↦ rw raised (inr (e, refl))
      | inr (done, told) ↦ rw told (inl refl)
    ])
  ]

  set_reply_sendable :
      (c key : Str) (v : Value) (m : Master)
      → IsPython python
      → IsSendableResult python (encoded number (Api.set_param c key v m).1)
  unfolding IsSendable is_i4 left_strip right_strip is_plain
  set_reply_sendable c key v m laws = elim (set_param-Shape c key v m) [
    | inl e ↦ rw e (refl, ((refl, laws.xml_plain [] refl), (refl, tt)))
    | inr (e, raised) ↦ rw raised tt
  ]

  proxy-set_param :
      (c key : Str) (v : Value) (m : Master)
      → IsPython python
      → IsSendable python (text c)
      → IsSendable python (text key)
      → IsSendable python v
      → proxy (str "setParam") (text c ∷ text key ∷ v ∷ []) m
        ≡ ((Api.set_param c key v m).0, seen (encoded number (Api.set_param c key v m).1))
  unfolding master_method register_method param_method str_eq starts_with are_name_chars
  proxy-set_param c key v m laws hc hk hv =
      remote_call-method python (master_method other pid) (str "setParam")
        (text c ∷ text key ∷ v ∷ []) m laws refl refl (hc, (hk, (hv, tt)))
        (set_reply_sendable c key v m laws)

  get_reply_sendable :
      (key : Str) (v : Value) (m : Master)
      → (Api.get_param key m).1 ≡ ok (success (some v))
      → IsSendable python v
      → IsPython python
      → IsSendableResult python (encoded value_or_zero (Api.get_param key m).1)
  unfolding IsSendable is_i4 left_strip right_strip is_plain
  get_reply_sendable key v m e h laws = rw e (refl, ((refl, laws.xml_plain [] refl), (h, tt)))

  proxy-get_param :
      (c key : Str) (v : Value) (m : Master)
      → IsPython python
      → IsSendable python (text c)
      → IsSendable python (text key)
      → (Api.get_param key m).1 ≡ ok (success (some v))
      → IsSendable python v
      → proxy (str "getParam") (text c ∷ text key ∷ []) m
        ≡ ((Api.get_param key m).0, seen (encoded value_or_zero (Api.get_param key m).1))
  unfolding master_method register_method param_method str_eq starts_with are_name_chars
  proxy-get_param c key v m laws hc hk e hv =
      remote_call-method python (master_method other pid) (str "getParam") (text c ∷ text key ∷ [])
        m laws refl refl (hc, (hk, tt)) (get_reply_sendable key v m e hv laws)

  -- After a client has set a parameter on the master over XML-RPC, get_param of the same key gives
  -- the value; or else set_param raised an AssertionError and the master is as before. The names and
  -- the value are such that they survive the way.
  pub get_param-set_param_remote :
      (node : NodeInfo) (key : Str) (v : Value) (m : Master)
      → IsPython python
      → IsSendable python (text (full_name node))
      → IsSendable python (text key)
      → IsSendable python v
      → let (m', done) = set_param proxy node key v m in
        ((get_param proxy node key m').1 ≡ ok v) ⊎ ((m' ≡ m) × (done ≡ err assertion_error))
  unfolding set_param get_param validate check_code is_one is_minus_one
  get_param-set_param_remote node key v m laws hc hk hv =
      rw (proxy-set_param (full_name node) key v m laws hc hk hv)
        (elim (Parameters.get_param-set_param (full_name node) key v m) [
          | inl e ↦ inl (
              rw
                (proxy-get_param (full_name node) key v (Api.set_param (full_name node) key v m).0
                  laws hc hk e hv)
                (rw e refl))
          | inr (same, inl raised) ↦ inr (same, rw raised refl)
          | inr (same, inr raised) ↦ inr (same, rw raised refl)
        ])
