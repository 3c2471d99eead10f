-- ===== src/Node/State/Params.antt =====
-- set_param and then get_param of Node, aioros/_node/_node.py: over the node's cache and over XML-RPC
-- to the master.
use aioros.Common.{ℕ, ◌≡◌, refl, ◌⊎◌, inl, inr, Str, Exc, Result, ok, err}
use aioros.Value.{Value, text}
use aioros.Xmlrpc.{Python}
use aioros.Xmlrpc.Sendable.{IsPython, IsSendable}
use aioros.Master.Api.{Master}
use aioros.Master.Api.Calls.{Handler}
use aioros.Node.ParamCache.{ParamCache, update}
use aioros.Node.ParamCache.Update.{get_item-update}
use aioros.Node.Client
use aioros.Node.Client.{full_name}
use aioros.Node.Client.Parameters
use aioros.Node.Client.Parameters.{proxy}
use aioros.Node.State.{Node, resolve_name, read, changed, get_param, set_param}

module _ (python : Python) (other : Handler) (pid : ℕ) where
  -- a node whose key `k` its own cache or the master has set to `v`
  read_set :
      (k : Str) (v : Value) (node : Node) (m m' : Master)
      → Client.set_param (proxy python other pid) node.info k v m ≡ (m', ok tt)
      → ((Client.get_param (proxy python other pid) node.info k m').1 ≡ ok v)
      → (update k v node.param_cache).1 ≡ ok tt
      → (read
          (proxy python other pid)
          k
          (record node { param_cache = (update k v node.param_cache).0 })
          m').2
        ≡ ok v
  read_set k v node m m' sent there told = elim (get_item-update k v node.param_cache told) [
    | inl (was, is, value) ↦ rw is value
    | inr (missing, same) ↦ rw (same, missing) there
  ]

  after_set :
      (k : Str) (v : Value) (node : Node) (m : Master) (c : Master × Result (Unit {0}))
      → Client.set_param (proxy python other pid) node.info k v m ≡ c
      → ((Client.get_param (proxy python other pid) node.info k c.0).1 ≡ ok v)
        ⊎ ((e : Exc) × (c.1 ≡ err e))
      → (changed (proxy python other pid) (update k v) node c).2 ≡ ok tt
      → let (node', m', done) = changed (proxy python other pid) (update k v) node c in
        (read (proxy python other pid) k node' m').2 ≡ ok v
  after_set k v node m (m', err e) sent there told = cc
  after_set k v node m (m', ok tt) sent (inr (e, raised)) told = cc
  after_set k v node m (m', ok tt) sent (inl there) told = read_set k v node m m' sent there told

  resolve_name-changed :
      (key : Str) (change : ParamCache → ParamCache × Result (Unit {0})) (node : Node)
      (c : Master × Result (Unit {0}))
      → resolve_name key (changed (proxy python other pid) change node c).0 ≡ resolve_name key node
  unfolding resolve_name
  resolve_name-changed key change node (m, err e) = refl
  resolve_name-changed key change node (m, ok done) = refl

  client_set :
      (node : Node) (k : Str) (v : Value) (m : Master)
      → IsPython python
      → IsSendable python (text (full_name node.info))
      → IsSendable python (text k)
      → IsSendable python v
      → let (m', done) = Client.set_param (proxy python other pid) node.info k v m in
        ((Client.get_param (proxy python other pid) node.info k m').1 ≡ ok v)
        ⊎ ((e : Exc) × (done ≡ err e))
  client_set node k v m laws hn hk hv =
      elim (Parameters.get_param-set_param_remote python other pid node.info k v m laws hn hk hv) [
        | inl there ↦ inl there
        | inr (same, raised) ↦ inr (_, raised)
      ]

  -- When a node's set_param returns, its next get_param of the same name gives the value, from its
  -- cache if it holds the parameter and from the master if not; for names and values that survive the
  -- way over XML-RPC.
  pub get_param-set_param_node :
      (key k : Str) (v : Value) (node : Node) (m : Master)
      → IsPython python
      → IsSendable python (text (full_name node.info))
      → resolve_name key node ≡ ok k
      → IsSendable python (text k)
      → IsSendable python v
      → (set_param (proxy python other pid) key v node m).2 ≡ ok tt
      → let (node', m', done) = set_param (proxy python other pid) key v node m in
        (get_param (proxy python other pid) key node' m').2 ≡ ok v
  unfolding set_param get_param
  get_param-set_param_node key k v node m laws hn hr hk hv told =
      let c = Client.set_param (proxy python other pid) node.info k v m in
      rw (hr, resolve_name-changed key (update k v) node c, hr)
        (after_set k v node m c refl (client_set node k v m laws hn hk hv) (rw hr at told))
