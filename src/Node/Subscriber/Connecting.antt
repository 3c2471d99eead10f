-- ===== src/Node/Subscriber/Connecting.antt =====
-- How a subscriber chooses its connection to a publisher: the start of _subscribe_task and
-- _get_publisher_connection_params of aioros/_node/_tcpros/_topic_subscriber.py, and their answers by
-- requestTopic of aioros/_node/_api.py. `int_of_value` stands for `int` of a value.
use aioros.Common.{
  ℕ, Bool, false, List, [], ◌∷◌, Str, str, str_eq, Result, ok, err, key_error, index_error, ◌>>=◌,
  if◌then◌else◌,
}
use aioros.Value.{ℤ, Value, Items, int, text, array, struct, nil, cons}
use aioros.Node.Client
use aioros.Node.Client.{after, iterated, full_name}
use aioros.Node.Handle.{Running, request_topic}
use aioros.Node.Handle.Methods.{Handler, node_method}

-- topic[0] and topic[1:]
abbrev pub head_of : List Value → Result (Value × List Value)
head_of [] = err index_error
head_of (v ∷ vs) = ok (v, vs)

abbrev pub first_of : Value → Result (Value × List Value)
first_of (struct d) = err (key_error (str "0"))
first_of v = iterated v >>= head_of

-- [[protocol] for protocol in protocols]
abbrev pub protocol_items : List Str → Items
protocol_items [] = nil
protocol_items (protocol ∷ protocols) =
    cons (array (cons (text protocol) nil)) (protocol_items protocols)

-- connect_unix(path), or connect_tcp(host, port)
pub data Endpoint : Type 0 where
  unix : Value → Endpoint
  tcp : Value → ℤ → Endpoint

pub record Connection : Type 0 where
  pub protocol : Value
  pub connection_parameter : List Value
  pub endpoint : Endpoint

-- v == s for a text s
abbrev pub is_text : Value → Str → Bool
is_text (text t) s = str_eq t s
is_text _ s = false

-- params[i]
abbrev pub parameter_0 : List Value → Result Value
parameter_0 [] = err index_error
parameter_0 (v ∷ vs) = ok v

abbrev pub parameter_1 : List Value → Result Value
parameter_1 (v ∷ w ∷ vs) = ok w
parameter_1 _ = err index_error

abbrev pub unix_connection : Value → List Value → Result Connection
unix_connection protocol params = do
  path ← parameter_1 params
  ok record { protocol = protocol; connection_parameter = params; endpoint = unix path }

module _ (int_of_value : Value → Result ℤ) where
  abbrev pub tcp_connection : Value × List Value → Result Connection
  tcp_connection (protocol, params) = do
    host ← parameter_0 params
    port ← parameter_1 params
    number ← int_of_value port
    ok record { protocol = protocol; connection_parameter = params; endpoint = tcp host number }

  module _ {W : Type 0} (call : Str → List Value → W → W × Result Value)
      (node_name topic_name local : Str) where
    unfoldable pub get_publisher_connection_params : List Str → W → W × Result (Value × List Value)
    get_publisher_connection_params protocols w =
        after (Client.request_topic call node_name topic_name (array (protocol_items protocols)) w)
          first_of

    -- the second choice, where the publisher is not on this machine
    abbrev pub switch_to_tcpros : W → W × Result Connection
    switch_to_tcpros w =
        after (get_publisher_connection_params (str "TCPROS" ∷ []) w) tcp_connection

    abbrev pub choose : Value → List Value → Result Value → W → W × Result Connection
    choose protocol params (err e) w = (w, err e)
    choose protocol params (ok host) w =
        if is_text host local then (w, unix_connection protocol params) else switch_to_tcpros w

    abbrev pub chosen : W × Result (Value × List Value) → W × Result Connection
    chosen (w, err e) = (w, err e)
    chosen (w, ok (protocol, params)) =
        if is_text protocol (str "UDSROS")
        then choose protocol params (parameter_0 params) w
        else (w, tcp_connection (protocol, params))

    unfoldable pub connect : W → W × Result Connection
    connect w = chosen (get_publisher_connection_params (str "UDSROS" ∷ str "TCPROS" ∷ []) w)

-- the connection to a publisher with these addresses
abbrev pub expected : Str → Str × Str → Str → ℤ → Connection
expected local (uds_host, path) host port =
    if str_eq uds_host local
    then record {
      protocol = text (str "UDSROS");
      connection_parameter = text uds_host ∷ text path ∷ [];
      endpoint = unix (text path);
    }
    else record {
      protocol = text (str "TCPROS");
      connection_parameter = text host ∷ int port ∷ [];
      endpoint = tcp (text host) port;
    }

module _ (int_of_value : Value → Result ℤ) (int_of : Str → Result ℤ) (other : Handler) (pid : ℕ)
    (node_name topic_name local : Str) where
  abbrev params : List Str → Running → Running × Result (Value × List Value)
  params =
      get_publisher_connection_params int_of_value (node_method int_of other pid) node_name
        topic_name local
