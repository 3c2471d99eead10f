-- ===== src/Master/Api/Calls.antt =====
-- The methods of MasterApiHandle, aioros/master/_api.py, called by name with the values of a request:
-- what getattr finds and the call. `other` stands for a name that is not here, for `multicall`, and
-- for arguments that are not of the annotated types or number.
use aioros.Common.{
  ℕ, List, [], ◌∷◌, Option, none, some, Str, str, str_eq, Result, ok, err, if◌then◌else◌,
}
use aioros.Value.{pos, Value, Items, null, bool, int, text, array, nil, cons}
use aioros.Master.Api.{
  Master, Reply, Outcome, get_pid, get_uri, shutdown, Param, get_param, set_param, delete_param,
  search_param, has_param, get_param_names,
}
use aioros.Master.Api.Graph.{
  SystemState, lookup_node, lookup_service, api_register_service, api_unregister_service,
  api_register_subscriber, api_unregister_subscriber, api_register_publisher,
  api_unregister_publisher, get_published_topics, subscribe_param, unsubscribe_param,
  get_topic_types, get_system_state,
}

abbrev pub Answer : Type 0
Answer = Master × Result Value

abbrev pub Handler : Type 0
Handler = Str → List Value → Master → Answer

-- a reply as a value: a tuple is sent as an array
abbrev pub reply_value {ℓ} : {A : Type ℓ} → (A → Value) → Reply A → Value
reply_value encode (code, msg, a) = array (cons (int code) (cons (text msg) (cons (encode a) nil)))

abbrev pub encoded {ℓ} : {A : Type ℓ} → (A → Value) → Result (Reply A) → Result Value
encoded encode (ok reply) = ok (reply_value encode reply)
encoded encode (err e) = err e

abbrev pub sent {ℓ} : {A : Type ℓ} → (A → Value) → Outcome A → Answer
sent encode (m, r) = (m, encoded encode r)

abbrev pub number : ℕ → Value
number n = int (pos n)

abbrev pub value_or_zero : Param → Value
value_or_zero none = int (pos 0)
value_or_zero (some v) = v

abbrev pub text_or_none : Option Str → Value
text_or_none none = null
text_or_none (some s) = text s

-- a list of texts
abbrev text_items : List Str → Items
text_items [] = nil
text_items (s ∷ l) = cons (text s) (text_items l)

abbrev pub texts : List Str → Value
texts l = array (text_items l)

abbrev pair_items : List (Str × Str) → Items
pair_items [] = nil
pair_items ((a, b) ∷ l) = cons (texts (a ∷ b ∷ [])) (pair_items l)

abbrev pub pairs : List (Str × Str) → Value
pairs l = array (pair_items l)

abbrev group_items : List (Str × List Str) → Items
group_items [] = nil
group_items ((a, members) ∷ l) =
    cons (array (cons (text a) (cons (texts members) nil))) (group_items l)

abbrev groups : List (Str × List Str) → Value
groups l = array (group_items l)

abbrev system_state : SystemState → Value
system_state (publications, subscriptions, services) =
    array (cons (groups publications) (cons (groups subscriptions) (cons (groups services) nil)))

module _ (other : Handler) (pid : ℕ) where
  -- a method with one to four texts as arguments
  abbrev with_1 : (Str → Master → Answer) → Handler
  with_1 f name (text a ∷ []) m = f a m
  with_1 f name args m = other name args m

  abbrev with_2 : (Str → Str → Master → Answer) → Handler
  with_2 f name (text a ∷ text b ∷ []) m = f a b m
  with_2 f name args m = other name args m

  abbrev with_3 : (Str → Str → Str → Master → Answer) → Handler
  with_3 f name (text a ∷ text b ∷ text c ∷ []) m = f a b c m
  with_3 f name args m = other name args m

  abbrev with_4 : (Str → Str → Str → Str → Master → Answer) → Handler
  with_4 f name (text a ∷ text b ∷ text c ∷ text d ∷ []) m = f a b c d m
  with_4 f name args m = other name args m

  abbrev with_value : (Str → Str → Value → Master → Answer) → Handler
  with_value f name (text a ∷ text b ∷ v ∷ []) m = f a b v m
  with_value f name args m = other name args m

  -- the last argument of two is "" where it is missing
  abbrev with_default : (Str → Str → Master → Answer) → Handler
  with_default f name (text a ∷ []) m = f a [] m
  with_default f name args m = with_2 f name args m

  abbrev names_reply : Outcome (Option (List Str)) → Handler
  names_reply (m', ok (code, msg, some names)) name args m =
      (m', ok (reply_value texts (code, msg, names)))
  names_reply _ name args m = other name args m

  -- the methods about parameters
  unfoldable pub param_method : Handler
  param_method name args m =
      if str_eq name (str "getParam")
      then with_2 (λ caller_id key m. sent value_or_zero (get_param key m)) name args m
      else if str_eq name (str "setParam")
      then with_value (λ caller_id key value m. sent number (set_param caller_id key value m)) name
          args m
      else if str_eq name (str "deleteParam")
      then with_2 (λ caller_id key m. sent number (delete_param caller_id key m)) name args m
      else if str_eq name (str "searchParam")
      then with_2 (λ caller_id key m. sent text_or_none (search_param caller_id key m)) name args m
      else if str_eq name (str "hasParam")
      then with_2 (λ caller_id key m. sent bool (has_param key m)) name args m
      else if str_eq name (str "getParamNames")
      then with_1 (λ caller_id m. names_reply (get_param_names m) name args m) name args m
      else if str_eq name (str "subscribeParam")
      then with_3 (λ caller_id api key m. sent (λ v. v) (subscribe_param caller_id api key m)) name
          args m
      else if str_eq name (str "unsubscribeParam")
      then with_3 (λ caller_id api key m. sent number (unsubscribe_param caller_id api key m)) name
          args m
      else other name args m

  -- the methods that register and unregister
  unfoldable pub register_method : Handler
  unfolding param_method
  register_method name args m =
      if str_eq name (str "registerService")
      then with_4
          (λ c service api caller m. sent number (api_register_service c service api caller m)) name
          args m
      else if str_eq name (str "unregisterService")
      then with_3 (λ c service api m. sent number (api_unregister_service c service api m)) name
          args m
      else if str_eq name (str "registerSubscriber")
      then with_4 (λ c topic type api m. sent texts (api_register_subscriber c topic type api m))
          name args m
      else if str_eq name (str "unregisterSubscriber")
      then with_3 (λ c topic api m. sent number (api_unregister_subscriber c topic api m)) name args
          m
      else if str_eq name (str "registerPublisher")
      then with_4 (λ c topic type api m. sent texts (api_register_publisher c topic type api m))
          name args m
      else if str_eq name (str "unregisterPublisher")
      then with_3 (λ c topic api m. sent number (api_unregister_publisher c topic api m)) name args
          m
      else param_method name args m

  unfoldable pub master_method : Handler
  unfolding register_method
  master_method name args m =
      if str_eq name (str "getPid")
      then with_1 (λ caller_id m. sent number (get_pid pid m)) name args m
      else if str_eq name (str "getUri")
      then with_1 (λ caller_id m. sent text (get_uri m)) name args m
      else if str_eq name (str "shutdown")
      then with_default (λ caller_id msg m. sent number (shutdown msg m)) name args m
      else if str_eq name (str "lookupNode")
      then with_2 (λ caller_id node_name m. sent text (lookup_node node_name m)) name args m
      else if str_eq name (str "lookupService")
      then with_2 (λ caller_id service m. sent text (lookup_service service m)) name args m
      else if str_eq name (str "getPublishedTopics")
      then with_2 (λ caller_id subgraph m. sent pairs (get_published_topics subgraph m)) name args m
      else if str_eq name (str "getTopicTypes")
      then with_1 (λ caller_id m. sent pairs (get_topic_types m)) name args m
      else if str_eq name (str "getSystemState")
      then with_1 (λ caller_id m. sent system_state (get_system_state m)) name args m
      else register_method name args m
