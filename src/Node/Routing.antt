-- ===== src/Node/Routing.antt =====
-- Who takes a TCPROS connection: handle_tcpros of aioros/_node/_node.py, and the refusal as the client
-- of a service reads it, aioros/_node/_tcpros/_service_client.py.
use aioros.Common.{
  ◌≡◌, refl, ap, ◌∙◌, Bool, true, false, [], ◌∷◌, ◌++◌, Option, none, some, Str, str, str_eq, Exc,
  Result, ok, err, end_of_stream, protocol_error, service_client_error, All,
}
use aioros.Dict.{Dict, get, put}
use aioros.Tcpros.{encode_header, read_header, left_strip, right_strip}
use aioros.Tcpros.Words.{Bytes}
use aioros.Tcpros.Fields.{IsCodec, IsKey, has_equals}
use aioros.Tcpros.Sorted.{IsDistinct}
use aioros.Tcpros.RoundTrip.{read_header-encode_header}
use aioros.Node.Publisher.{Publication}
use aioros.Node.Service.{check_header, refusal, client_header}
use aioros.Node.Registry.{Registry, ServiceServer}

pub data Route : Type 0 where
  to_service : ServiceServer → Route
  to_publication : Publication → Route
  refused : Str → Route

abbrev pub not_provided : Str → Str → Str
not_provided key name = key ++ str " " ++ name ++ str " is not provided by this node"

abbrev pub service_route : Str → Option ServiceServer → Route
service_route name none = refused (not_provided (str "service") name)
service_route name (some server) = to_service server

abbrev pub topic_route : Str → Option Publication → Route
topic_route name none = refused (not_provided (str "topic") name)
topic_route name (some publication) = to_publication publication

abbrev pub route_topic : Registry → Option Str → Route
route_topic r none = refused (str "no topic or service name detected")
route_topic r (some name) = topic_route name (get r.publications name)

abbrev pub route_service : Registry → Option Str → Option Str → Route
route_service r none topic = route_topic r topic
route_service r (some name) topic = service_route name (get r.services name)

unfoldable pub route : Registry → Dict Str → Route
route r header = route_service r (get header (str "service")) (get header (str "topic"))

abbrev pub error_header : Str → Dict Str
error_header text = (str "error", text) ∷ []

module _ (encode : Str → Bytes) (text_of : Exc → Str) where
  -- what a handler comes to: a ProtocolError is sent as an error, and the end of the stream is passed
  -- over
  abbrev pub finish : Result Bytes → Result Bytes
  finish (ok bytes) = ok bytes
  finish (err protocol_error) = encode_header encode (error_header (text_of protocol_error))
  finish (err end_of_stream) = ok []
  finish (err e) = err e

  -- The handlers of a service and of a publication: what they send.
  -- They get the client itself, and not the receiver that read the header: of what comes after the
  -- header, `unread` is what the receiver of anyio has not taken from the client.
  module _ (unread : Bytes → Bytes) (serve : ServiceServer → Dict Str → Bytes → Result Bytes)
      (publish : Publication → Dict Str → Bytes → Result Bytes) where
    abbrev pub take : Route → Dict Str → Bytes → Result Bytes
    take (to_service server) header stream = finish (serve server header (unread stream))
    take (to_publication publication) header stream =
        finish (publish publication header (unread stream))
    take (refused text) header stream = encode_header encode (error_header text)

    abbrev pub take_header : Registry → Option (Result (Dict Str × Bytes)) → Option (Result Bytes)
    take_header r none = none
    take_header r (some (err e)) = some (finish (err e))
    take_header r (some (ok (header, stream))) = some (take (route r header) header stream)

    -- handle_tcpros: what is sent over a connection on which `stream` comes; `none` means that the fuel
    -- of read_header ran out
    unfoldable pub handle_tcpros : (Bytes → Result Str) → Registry → Bytes → Option (Result Bytes)
    unfolding route
    handle_tcpros decode r stream = take_header r (read_header decode stream)

error-IsKey : IsKey (str "error")
unfolding has_equals left_strip right_strip
error-IsKey = record { filled = refl; plain = refl; stripped = refl }

-- what a client of a service makes of the header that it reads
abbrev pub opened : Option (Result (Dict Str × Bytes)) → Option (Result (Unit {0}))
opened none = none
opened (some (err e)) = some (err e)
opened (some (ok (header, stream))) = some (check_header header)

get-error_header : (text : Str) → get (error_header text) (str "error") ≡ some text
unfolding get str_eq
get-error_header text = refl

no_error_twice : get {V = Str} [] (str "error") ≡ none
unfolding get
no_error_twice = refl

opened_error :
    (header : Dict Str) (stream : Bytes) (text : Str)
    → get header (str "error") ≡ some text
    → opened (some (ok (header, stream))) ≡ some (err (service_client_error text))
opened_error header stream text e = ap (λ (o : Option Str). some (refusal o)) e

client_header-IsDistinct :
    (persistent : Bool) (node_name md5sum name : Str)
    → IsDistinct (client_header persistent node_name md5sum name)
unfolding client_header get put str_eq
client_header-IsDistinct true node_name md5sum name = (refl, (refl, (refl, (refl, tt))))
client_header-IsDistinct false node_name md5sum name = (refl, (refl, (refl, tt)))

client_header-IsKey :
    (persistent : Bool) (node_name md5sum name : Str)
    → All (λ e. IsKey e.0) (client_header persistent node_name md5sum name)
unfolding client_header put str_eq has_equals left_strip right_strip
client_header-IsKey true node_name md5sum name = (
  record { filled = refl; plain = refl; stripped = refl },
  (
    record { filled = refl; plain = refl; stripped = refl },
    (
      record { filled = refl; plain = refl; stripped = refl },
      (record { filled = refl; plain = refl; stripped = refl }, tt),
    ),
  ),
)
client_header-IsKey false node_name md5sum name = (
  record { filled = refl; plain = refl; stripped = refl },
  (
    record { filled = refl; plain = refl; stripped = refl },
    (record { filled = refl; plain = refl; stripped = refl }, tt),
  ),
)

get-client_header :
    (persistent : Bool) (node_name md5sum name : Str)
    → get (client_header persistent node_name md5sum name) (str "service") ≡ some name
unfolding client_header get put str_eq
get-client_header true node_name md5sum name = refl
get-client_header false node_name md5sum name = refl

module _ (encode : Str → Bytes) (decode : Bytes → Result Str) where
  error_read :
      (text : Str) (bytes rest : Bytes)
      → IsCodec encode decode
      → encode_header encode (error_header text) ≡ ok bytes
      → opened (read_header decode (bytes ++ rest)) ≡ some (err (service_client_error text))
  error_read text bytes rest codec e =
      let (header, read, same) =
        read_header-encode_header encode decode (error_header text) bytes rest codec
          (no_error_twice, tt) (error-IsKey, tt) e in
      rw read (opened_error header rest text (same (str "error") ∙ get-error_header text))

  -- A client that asks a node for a service that it does not provide is refused, and gets a
  -- ServiceClientError with the text of the refusal, whatever handlers the node has.
  pub handle_tcpros-opened :
      (text_of : Exc → Str) (unread : Bytes → Bytes)
      (serve : ServiceServer → Dict Str → Bytes → Result Bytes)
      (publish : Publication → Dict Str → Bytes → Result Bytes) (r : Registry) (persistent : Bool)
      (node_name md5sum name : Str) (asked bytes rest more : Bytes)
      → IsCodec encode decode
      → get r.services name ≡ none
      → encode_header encode (client_header persistent node_name md5sum name) ≡ ok asked
      → encode_header encode (error_header (not_provided (str "service") name)) ≡ ok bytes
      → (handle_tcpros encode text_of unread serve publish decode r (asked ++ rest)
          ≡ some (ok bytes))
        × (opened (read_header decode (bytes ++ more))
            ≡ some (err (service_client_error (not_provided (str "service") name))))
  unfolding handle_tcpros route
  handle_tcpros-opened text_of unread serve publish r persistent node_name md5sum name asked bytes
        rest more codec unknown e e1 =
      let (header, read, same) =
        read_header-encode_header encode decode (client_header persistent node_name md5sum name)
          asked rest codec (client_header-IsDistinct persistent node_name md5sum name)
          (client_header-IsKey persistent node_name md5sum name) e in
      let named = same (str "service") ∙ get-client_header persistent node_name md5sum name in
      (
        rw read (rw named (rw unknown (rw e1 refl))),
        error_read (not_provided (str "service") name) bytes more codec e1,
      )
