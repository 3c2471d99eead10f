-- ===== src/Node/Service.antt =====
-- A service call over a connection: handle_tcpros of
-- aioros/_node/_tcpros/_service_server.py and the call of
-- aioros/_node/_tcpros/_service_client.py. The classes of requests and responses are the parameter
-- `service`: what `serialize` and `deserialize` make of them.
pub mod Calls
use aioros.Common.{
  ℕ, zero, suc, Bool, true, false, ◌||◌, List, [], ◌∷◌, ◌++◌, Option, none, some, Str, str, str_eq,
  length, Result, ok, err, service_client_error, ◌>>=◌, ◌>>◌, if◌then◌else◌, ◌==◌,
}
use aioros.Dict.{Dict, get, put, has}
use aioros.Tcpros.{encode_header, read_header}
use aioros.Tcpros.Words.{Bytes}
use aioros.Tcpros.Checks.{require_fields, check_md5sum, read_value}
use aioros.Tcpros.Data.{read_data, read_byte, read_error, encode_byte, encode_str}

pub record ServiceClass (Req Resp : Type 0) : Type 0 where
  pub md5sum : Str
  pub type_name : Str
  pub serialize_request : Req → Result Bytes
  pub deserialize_request : Bytes → Result Req
  pub serialize_response : Resp → Result Bytes
  pub deserialize_response : Bytes → Result Resp

-- the headers of a server and of a client
unfoldable pub server_header : Str → Str → Str → Str → Dict Str
server_header node_name md5sum service_name type_name =
    (str "callerid", node_name)
    ∷ (str "md5sum", md5sum)
    ∷ (str "service", service_name)
    ∷ (str "type", type_name)
    ∷ []

-- whether the client is persistent
unfoldable pub client_header : Bool → Str → Str → Str → Dict Str
client_header persistent node_name md5sum service_name =
    let fields : Dict Str =
      (str "callerid", node_name) ∷ (str "md5sum", md5sum) ∷ (str "service", service_name) ∷ [] in
    if persistent then put fields (str "persistent") (str "1") else fields

module _ {Req Resp S : Type 0} (service : ServiceClass Req Resp) (encode : Str → Bytes)
    (handler : Req → S → S × Result Resp) where
  -- the answer to what the handler gave: its state, and the bytes to send
  abbrev pub answer : S × Result Resp → S × Result Bytes
  answer (s, err e) =
      (s, encode_byte 0 >>= λ flag. ok (flag ++ encode_str encode (str "error processing request")))
  answer (s, ok result) =
      (s, do bytes ← service.serialize_response result; flag ← encode_byte 1; ok (flag ++ bytes))

  abbrev pub answer_request : Result (Req × Bytes) → S → S × Result (Bytes × Bytes)
  answer_request (err e) s = (s, err e)
  answer_request (ok (request, rest)) s =
      let (s', sent) = answer (handler request s) in (s', sent >>= λ bytes. ok (bytes, rest))

  -- one round of the loop: the bytes that are sent, and the stream after the request
  unfoldable pub serve_request : Bytes → S → S × Result (Bytes × Bytes)
  unfolding read_data encode_byte
  serve_request stream s =
      answer_request
        (do
          (bytes, rest) ← read_data stream
          request ← service.deserialize_request bytes
          ok (request, rest))
        s

  abbrev pub sent_before :
      Bytes → Option (S × Bytes × Result (Unit {0})) → Option (S × Bytes × Result (Unit {0}))
  sent_before bytes none = none
  sent_before bytes (some (s, more, done)) = some (s, bytes ++ more, done)

  -- The loop: the state of the handler, all that is sent, and how it ends; `none` means that the fuel
  -- ran out.
  unfoldable pub serve_requests : ℕ → Bool → Bytes → S → Option (S × Bytes × Result (Unit {0}))
  unfolding serve_request
  serve_requests zero persistent stream s = none
  serve_requests (suc fuel) persistent stream s =
      let (s', round) = serve_request stream s in
      elim round [
        | err e ↦ some (s', [], err e)
        | ok (bytes, rest) ↦ elim persistent [
          | true ↦ sent_before bytes (serve_requests fuel true rest s')
          | false ↦ some (s', bytes, ok tt)
        ]
      ]

  -- header.get("persistent", "").lower() in ("1", "true"), with `lower` of Python's `str`
  abbrev pub is_persistent : (Str → Str) → Option Str → Bool
  is_persistent lower none = false
  is_persistent lower (some value) =
      str_eq (lower value) (str "1") || str_eq (lower value) (str "true")

  abbrev pub is_probe : Option Str → Bool
  is_probe none = false
  is_probe (some value) = str_eq value (str "1")

  abbrev pub serve_after :
      (Str → Str) → Dict Str → Bytes → S → Result Bytes → Option (S × Bytes × Result (Unit {0}))
  serve_after lower received stream s (err e) = some (s, [], err e)
  serve_after lower received stream s (ok bytes) =
      let rounds =
        serve_requests (suc (length stream)) (is_persistent lower (get received (str "persistent")))
          stream s in
      if is_probe (get received (str "probe"))
      then some (s, bytes, ok tt)
      else sent_before bytes rounds

  -- handle_tcpros, for a connection on which `stream` is still to come
  unfoldable pub handle_tcpros :
      (Str → Str) → Str → Str → Dict Str → Bytes → S → Option (S × Bytes × Result (Unit {0}))
  unfolding serve_requests server_header
  handle_tcpros lower node_name service_name received stream s =
      serve_after lower received stream s (do
        require_fields received (str "service" ∷ str "md5sum" ∷ str "callerid" ∷ [])
        check_md5sum received service.md5sum
        encode_header encode
            (server_header node_name service.md5sum service_name service.type_name))

module _ {Req Resp : Type 0} (service : ServiceClass Req Resp) where
  abbrev pub read_answer : ℕ × Bytes → Result (Resp × Bytes)
  read_answer (zero, stream) = do
    (error, rest) ← read_error stream
    err (service_client_error error)
  read_answer (suc flag, stream) = do
    (bytes, rest) ← read_data stream
    msg ← service.deserialize_response bytes
    ok (msg, rest)

  -- what _call reads after it has sent the request: the response, and the stream after it
  unfoldable pub read_response : Bytes → Result (Resp × Bytes)
  unfolding read_byte read_error read_data
  read_response stream = read_byte stream >>= read_answer

-- The handshake of a client: what it sends, and what it makes of the header that it reads.
abbrev pub refusal : Option Str → Result (Unit {0})
refusal none = ok tt
refusal (some error) = err (service_client_error error)

abbrev pub check_header : Dict Str → Result (Unit {0})
check_header received = refusal (get received (str "error"))
