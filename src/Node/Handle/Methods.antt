-- ===== src/Node/Handle/Methods.antt =====
-- The methods of NodeApiHandle, aioros/_node/_api.py, called by name with the values of a request.
-- `other` stands for a name that is not here, for `multicall`, and for arguments that are not of the
-- annotated types or number.
use aioros.Common.{
  ℕ, List, [], ◌∷◌, Option, none, some, Str, str, str_eq, Result, ok, err, if◌then◌else◌,
}
use aioros.Value.{ℤ, pos, Value, Items, bool, int, text, array, nil, cons}
use aioros.Node.Registry.{ConnectionInfo}
use aioros.Node.Handle.{
  Running, Reply, Outcome, get_name, get_uri, get_bus_stats, get_bus_info, get_master_uri, shutdown,
  get_pid, get_subscriptions, get_publications, param_update, publisher_update, request_topic,
}

abbrev pub Answer : Type 0
Answer = Running × Result Value

abbrev pub Handler : Type 0
Handler = Str → List Value → Running → Answer

abbrev pub values_items : List Value → Items
values_items [] = nil
values_items (v ∷ l) = cons v (values_items l)

abbrev pub values : List Value → Value
values l = array (values_items l)

abbrev pub reply_value : {A : Type 0} → (A → Value) → Result (Reply A) → Result Value
reply_value encode (ok (code, msg, a)) =
    ok (array (cons (int code) (cons (text msg) (cons (encode a) nil))))
reply_value encode (err e) = err e

abbrev pub sent : {A : Type 0} → (A → Value) → Outcome A → Answer
sent encode (r, reply) = (r, reply_value encode reply)

abbrev pub number : ℕ → Value
number n = int (pos n)

abbrev texts : List Str → List Value
texts [] = []
texts (s ∷ l) = text s ∷ texts l

abbrev pairs : List (Str × Str) → List Value
pairs [] = []
pairs ((a, b) ∷ l) = values (text a ∷ text b ∷ []) ∷ pairs l

abbrev infos : List ConnectionInfo → List Value
infos [] = []
infos ((id, peer, direction, protocol, topic, connected, note) ∷ l) =
    values (
      number id
      ∷ text peer
      ∷ text direction
      ∷ text protocol
      ∷ text topic
      ∷ bool connected
      ∷ text note
      ∷ [])
    ∷ infos l

abbrev stats : List Str × List Str × List Str → Value
stats (a, b, c) = values (values (texts a) ∷ values (texts b) ∷ values (texts c) ∷ [])

-- a list of texts, and a list of such lists
abbrev pub as_texts : Items → Option (List Str)
as_texts nil = some []
as_texts (cons (text s) l) = elim (as_texts l) [ none ↦ none | some ss ↦ some (s ∷ ss) ]
as_texts (cons _ l) = none

abbrev as_lists : Items → Option (List (List Str))
as_lists nil = some []
as_lists (cons (array ss) l) = elim (as_texts ss) [
  | none ↦ none
  | some here ↦ elim (as_lists l) [ none ↦ none | some more ↦ some (here ∷ more) ]
]
as_lists (cons _ l) = none

module _ (int_of : Str → Result ℤ) (other : Handler) (pid : ℕ) where
  abbrev with_caller : (Running → Answer) → Handler
  with_caller f name (text caller_id ∷ []) r = f r
  with_caller f name args r = other name args r

  abbrev call_shutdown : Handler
  call_shutdown name (text caller_id ∷ []) r = sent number (shutdown [] r)
  call_shutdown name (text caller_id ∷ text msg ∷ []) r = sent number (shutdown msg r)
  call_shutdown name args r = other name args r

  abbrev call_param_update : Handler
  call_param_update name (text caller_id ∷ text key ∷ value ∷ []) r =
      sent number (param_update key value r)
  call_param_update name args r = other name args r

  abbrev pub update_from : Str → List Value → Str → Option (List Str) → Running → Answer
  update_from name args topic none r = other name args r
  update_from name args topic (some publishers) r =
      sent number (publisher_update topic publishers r)

  abbrev call_publisher_update : Handler
  call_publisher_update name (text caller_id ∷ text topic ∷ array publishers ∷ []) r =
      update_from name (text caller_id ∷ text topic ∷ array publishers ∷ []) topic
        (as_texts publishers) r
  call_publisher_update name args r = other name args r

  abbrev call_request_topic : Handler
  call_request_topic name (text caller_id ∷ text topic ∷ array protocols ∷ []) r =
      elim (as_lists protocols) [
        | none ↦ other name (text caller_id ∷ text topic ∷ array protocols ∷ []) r
        | some lists ↦ sent values (request_topic int_of topic lists r)
      ]
  call_request_topic name args r = other name args r

  unfoldable pub node_method : Handler
  node_method name args r =
      if str_eq name (str "requestTopic")
      then call_request_topic name args r
      else if str_eq name (str "publisherUpdate")
      then call_publisher_update name args r
      else if str_eq name (str "paramUpdate")
      then call_param_update name args r
      else if str_eq name (str "shutdown")
      then call_shutdown name args r
      else if str_eq name (str "getName")
      then with_caller (λ r. sent text (get_name r)) name args r
      else if str_eq name (str "getUri")
      then with_caller (λ r. sent text (get_uri r)) name args r
      else if str_eq name (str "getMasterUri")
      then with_caller (λ r. sent text (get_master_uri r)) name args r
      else if str_eq name (str "getPid")
      then with_caller (λ r. sent number (get_pid pid r)) name args r
      else if str_eq name (str "getBusStats")
      then with_caller (λ r. sent stats (get_bus_stats r)) name args r
      else if str_eq name (str "getBusInfo")
      then with_caller (λ r. sent (λ l. values (infos l)) (get_bus_info r)) name args r
      else if str_eq name (str "getSubscriptions")
      then with_caller (λ r. sent (λ l. values (pairs l)) (get_subscriptions r)) name args r
      else if str_eq name (str "getPublications")
      then with_caller (λ r. sent (λ l. values (pairs l)) (get_publications r)) name args r
      else other name args r
