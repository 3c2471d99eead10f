-- ===== src/Node/Client.antt =====
-- The clients of the XML-RPC methods of the master and of a node: MasterApiClient and NodeApiClient
-- of aioros/_node/_api.py. `call` is the proxy's call of a method by name: W is the state of what is
-- at the other end. A `cast` does nothing, and logging is left out. Of the module's own XMLRPCError,
-- like of the one in aioros/xmlrpc, the text is kept.
pub mod Parameters
pub mod Services
use aioros.Common.{
  ℕ, Bool, true, false, List, [], ◌∷◌, ◌++◌, map, Str, str, str_eq, Exc, Result, ok, err, key_error,
  type_error, value_error, xmlrpc_error, ◌>>=◌, ◌>>◌, if◌then◌else◌, ◌==◌,
}
use aioros.Value.{
  ℤ, pos, negsuc, Value, Items, Fields, null, bool, int, double, text, binary, date, array, struct,
  nil, cons, end, field,
}

-- what a client reads of its node
pub record NodeInfo : Type 0 where
  pub name : Str
  pub namespace : Str
  pub xmlrpc_uri : Str
  pub tcpros_uri : Str
  pub udsros_uri : Str
  pub master_uri : Str

-- what iteration over a value gives
abbrev of_items : Items → List Value
of_items nil = []
of_items (cons v l) = v ∷ of_items l

abbrev of_keys : Fields → List Value
of_keys end = []
of_keys (field k v d) = text k ∷ of_keys d

abbrev pub iterated : Value → Result (List Value)
iterated (array l) = ok (of_items l)
iterated (struct d) = ok (of_keys d)
iterated (text s) = ok (map (λ c. text (c ∷ [])) s)
iterated (binary bytes) = ok (map (λ b. int (pos b)) bytes)
iterated _ = err type_error

-- a, b, c = values
abbrev pub three : List Value → Result (Value × Value × Value)
three (a ∷ b ∷ c ∷ []) = ok (a, b, c)
three _ = err value_error

-- code == -1 and code == 1, where True is 1
unfoldable pub is_minus_one : Value → Bool
is_minus_one (int (negsuc n)) = n == 0
is_minus_one (double s) = str_eq s (str "-1.0")
is_minus_one _ = false

unfoldable pub is_one : Value → Bool
is_one (int (pos n)) = n == 1
is_one (bool b) = b
is_one (double s) = str_eq s (str "1.0")
is_one _ = false

-- the text of an XMLRPCError(msg)
abbrev pub error_text : Value → Str
error_text (text s) = s
error_text _ = []

-- `if code != 1: raise XMLRPCError(msg)`
unfoldable pub check_code : Value → Value → Result (Unit {0})
check_code code msg = if is_one code then ok tt else err (xmlrpc_error (error_text msg))

unfoldable pub validate : Value → Str → Value → Result (Unit {0})
unfolding check_code
validate code key msg = if is_minus_one code then err (key_error key) else check_code code msg

-- the value of a reply about a key, and of any other reply
abbrev pub validated : Str → Value → Result Value
validated key reply = do
  values ← iterated reply
  (code, msg, value) ← three values
  validate code key msg
  ok value

abbrev pub checked : Value → Result Value
checked reply = do
  values ← iterated reply
  (code, msg, value) ← three values
  check_code code msg
  ok value

abbrev pub ignore_value : Value → Result (Unit {0})
ignore_value value = ok tt

-- node.full_name
abbrev pub full_name : NodeInfo → Str
full_name node = node.namespace ++ node.name

module _ {W : Type 0} where
  -- what follows a call, with the state after it
  abbrev pub after {ℓ κ} : {A : Type ℓ} {B : Type κ} → W × Result A → (A → Result B) → W × Result B
  after (w, r) next = (w, r >>= next)

module _ {W : Type 0} (call : Str → List Value → W → W × Result Value) where
  module _ (node : NodeInfo) where
    unfoldable pub delete_param : Str → W → W × Result (Unit {0})
    unfolding validate
    delete_param key w =
        after (call (str "deleteParam") (text (full_name node) ∷ text key ∷ []) w)
          λ reply. validated key reply >>= ignore_value

    unfoldable pub set_param : Str → Value → W → W × Result (Unit {0})
    unfolding validate
    set_param key value w =
        after (call (str "setParam") (text (full_name node) ∷ text key ∷ value ∷ []) w)
          λ reply. validated key reply >>= ignore_value

    unfoldable pub get_param : Str → W → W × Result Value
    unfolding validate
    get_param key w =
        after (call (str "getParam") (text (full_name node) ∷ text key ∷ []) w) (validated key)

    unfoldable pub has_param : Str → W → W × Result Value
    unfolding validate
    has_param key w =
        after (call (str "hasParam") (text (full_name node) ∷ text key ∷ []) w) (validated key)

    unfoldable pub search_param : Str → W → W × Result Value
    unfolding validate
    search_param key w =
        after (call (str "searchParam") (text (full_name node) ∷ text key ∷ []) w) (validated key)

    unfoldable pub get_param_names : W → W × Result Value
    unfolding check_code
    get_param_names w = after (call (str "getParamNames") (text (full_name node) ∷ []) w) checked

    unfoldable pub subscribe_param : Str → W → W × Result Value
    unfolding check_code
    subscribe_param key w =
        after
          (call (str "subscribeParam")
            (text (full_name node) ∷ text node.xmlrpc_uri ∷ text key ∷ []) w)
          checked

    unfoldable pub unsubscribe_param : Str → W → W × Result Value
    unfolding check_code
    unsubscribe_param key w =
        after
          (call (str "unsubscribeParam")
            (text (full_name node) ∷ text node.xmlrpc_uri ∷ text key ∷ []) w)
          checked

    unfoldable pub lookup_node : Str → W → W × Result Value
    unfolding check_code
    lookup_node node_name w =
        after (call (str "lookupNode") (text (full_name node) ∷ text node_name ∷ []) w) checked

    unfoldable pub lookup_service : Str → W → W × Result Value
    unfolding check_code
    lookup_service service w =
        after (call (str "lookupService") (text (full_name node) ∷ text service ∷ []) w) checked

    unfoldable pub get_published_topics : Str → W → W × Result Value
    unfolding check_code
    get_published_topics subgraph w =
        after (call (str "getPublishedTopics") (text (full_name node) ∷ text subgraph ∷ []) w)
          checked

    unfoldable pub register_service : Str → W → W × Result (Unit {0})
    unfolding check_code
    register_service service w =
        after
          (call (str "registerService")
            (text (full_name node)
              ∷ text service
              ∷ text node.tcpros_uri
              ∷ text node.xmlrpc_uri
              ∷ [])
            w)
          λ reply. checked reply >>= ignore_value

    unfoldable pub unregister_service : Str → W → W × Result Value
    unfolding check_code
    unregister_service service w =
        after
          (call (str "unregisterService")
            (text (full_name node) ∷ text service ∷ text node.tcpros_uri ∷ []) w)
          checked

    unfoldable pub register_subscriber : Str → Str → W → W × Result Value
    unfolding check_code
    register_subscriber topic topic_type w =
        after
          (call (str "registerSubscriber")
            (text (full_name node) ∷ text topic ∷ text topic_type ∷ text node.xmlrpc_uri ∷ []) w)
          checked

    unfoldable pub unregister_subscriber : Str → W → W × Result Value
    unfolding check_code
    unregister_subscriber topic w =
        after
          (call (str "unregisterSubscriber")
            (text (full_name node) ∷ text topic ∷ text node.xmlrpc_uri ∷ []) w)
          checked

    unfoldable pub register_publisher : Str → Str → W → W × Result Value
    unfolding check_code
    register_publisher topic topic_type w =
        after
          (call (str "registerPublisher")
            (text (full_name node) ∷ text topic ∷ text topic_type ∷ text node.xmlrpc_uri ∷ []) w)
          checked

    unfoldable pub unregister_publisher : Str → W → W × Result Value
    unfolding check_code
    unregister_publisher topic w =
        after
          (call (str "unregisterPublisher")
            (text (full_name node) ∷ text topic ∷ text node.xmlrpc_uri ∷ []) w)
          checked

    unfoldable pub get_system_state : W → W × Result Value
    unfolding check_code
    get_system_state w = after (call (str "getSystemState") (text (full_name node) ∷ []) w) checked

    unfoldable pub get_topic_types : W → W × Result Value
    unfolding check_code
    get_topic_types w = after (call (str "getTopicTypes") (text (full_name node) ∷ []) w) checked

  -- NodeApiClient
  module _ (node_name : Str) where
    unfoldable pub request_topic : Str → Value → W → W × Result Value
    unfolding check_code
    request_topic resolved_topic protocols w =
        after (call (str "requestTopic") (text node_name ∷ text resolved_topic ∷ protocols ∷ []) w)
          checked

    unfoldable pub shutdown : Str → W → W × Result (Unit {0})
    unfolding check_code
    shutdown msg w =
        after (call (str "shutdown") (text node_name ∷ text msg ∷ []) w)
          λ reply. checked reply >>= ignore_value

    unfoldable pub param_update : Str → Value → W → W × Result (Unit {0})
    unfolding check_code
    param_update key value w =
        after (call (str "paramUpdate") (text node_name ∷ text key ∷ value ∷ []) w)
          λ reply. checked reply >>= ignore_value

    unfoldable pub publisher_update : Str → Value → W → W × Result (Unit {0})
    unfolding check_code
    publisher_update topic publishers w =
        after (call (str "publisherUpdate") (text node_name ∷ text topic ∷ publishers ∷ []) w)
          λ reply. checked reply >>= ignore_value
