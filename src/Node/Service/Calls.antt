-- ===== src/Node/Service/Calls.antt =====
-- One call of a service: _call of aioros/_node/_tcpros/_service_client.py with the loop of
-- aioros/_node/_tcpros/_service_server.py at the other end.
use aioros.Common.{
  ◌≡◌, refl, subst, false, [], ◌∷◌, append-nil, some, Option, none, Str, str, Result, ok, err,
  end_of_stream,
}
use aioros.Tcpros.Words.{Bytes}
use aioros.Tcpros.Data.{serialize, read_data, encode_byte, read_data-serialize, read_byte-cons}
use aioros.Node.Service.{ServiceClass, serve_request, serve_requests, read_response, answer_request}

-- what the caller gets of what the handler gave
abbrev pub delivered {ℓ} : {A : Type ℓ} → Result A → Result (A × Bytes)
delivered (ok response) = ok (response, [])
delivered (err e) = err end_of_stream

-- the answer to a request for which the handler raised
abbrev error_answer : Bytes
error_answer = 0 ∷ str "error processing request"

module _ {Req Resp S : Type 0} (service : ServiceClass Req Resp) (encode : Str → Bytes)
    (handler : Req → S → S × Result Resp) where
  abbrev pub Served : Type 0
  Served = Option (S × Bytes × Result (Unit {0}))

  -- the state of the server after a call, and what the caller reads
  abbrev pub read_served : Served → Option (S × Result (Resp × Bytes))
  read_served none = none
  read_served (some (s, bytes, done)) = some (s, read_response service bytes)

  -- a call over a new connection that is not persistent
  unfoldable pub call : Req → S → Option (S × Result (Resp × Bytes))
  unfolding serve_requests read_response
  call request s = elim (service.serialize_request request) [
    | err e ↦ some (s, err e)
    | ok bytes ↦ read_served (serve_requests service encode handler 1 false bytes s)
  ]

  -- The classes of the service read what they write, and the handler's response can be written.
  abbrev pub IsWritten : (Resp → Bytes) → Result Resp → Type 0
  IsWritten body (err e) = Unit
  IsWritten body (ok response) =
      (bytes : Bytes) × (service.serialize_response response ≡ ok bytes)
      × (serialize (body response) ≡ ok bytes)
      × (service.deserialize_response (body response) ≡ ok response)

  read_written : (body bytes : Bytes) → serialize body ≡ ok bytes → read_data bytes ≡ ok (body, [])
  read_written body bytes e =
      subst (λ (b : Bytes). read_data b ≡ ok (body, [])) (append-nil bytes)
        (read_data-serialize body bytes [] e)

  -- the round of the server for a request whose handler gives `r`
  round :
      (body bytes : Bytes) (request : Req) (s : S) (r : S × Result Resp)
      → serialize body ≡ ok bytes
      → service.deserialize_request body ≡ ok request
      → handler request s ≡ r
      → serve_request service encode handler bytes s
        ≡ answer_request service encode handler (ok (request, [])) s
  unfolding serve_request
  round body bytes request s r e d same = rw (read_written body bytes e, d) refl

  call_handler :
      (body bytes : Bytes) (write : Resp → Bytes) (request : Req) (s : S) (r : S × Result Resp)
      → encode (str "error processing request") ≡ str "error processing request"
      → service.serialize_request request ≡ ok bytes
      → serialize body ≡ ok bytes
      → service.deserialize_request body ≡ ok request
      → IsWritten write r.1
      → handler request s ≡ r
      → call request s ≡ some (r.0, delivered r.1)
  unfolding call serve_requests read_response encode_byte
  call_handler body bytes write request s (s', err e) ascii sent e1 d w same =
      rw
        (
          sent,
          round body bytes request s (s', err e) e1 d same,
          same,
          ascii,
          call,
          serve_requests,
          read_response,
        )
        (rw (round body bytes request s (s', err e) e1 d same, same) refl)
  call_handler body bytes write request s (s', ok response) ascii sent e1 d w same =
      rw
        (
          sent,
          round body bytes request s (s', ok response) e1 d same,
          same,
          w.1,
          read_byte-cons 1 w.0,
          read_written (write response) w.0 w.2,
          w.3,
          call,
          serve_requests,
          read_response,
        )
        (rw (round body bytes request s (s', ok response) e1 d same, same) refl)

  -- One call over a new connection that is not persistent, for a service whose classes read what they
  -- write: the server's state changes as the handler changes it, and the caller gets the handler's
  -- response. If the handler raises, whatever it is, the caller does not get the error that the server
  -- sends: the server closes the connection after the one request, and reading the error runs into the
  -- end of the stream.
  pub call-handler :
      (body bytes : Bytes) (write : Resp → Bytes) (request : Req) (s : S)
      → encode (str "error processing request") ≡ str "error processing request"
      → service.serialize_request request ≡ ok bytes
      → serialize body ≡ ok bytes
      → service.deserialize_request body ≡ ok request
      → IsWritten write (handler request s).1
      → call request s ≡ some ((handler request s).0, delivered (handler request s).1)
  call-handler body bytes write request s ascii sent e d w =
      call_handler body bytes write request s (handler request s) ascii sent e d w refl
