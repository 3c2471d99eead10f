-- ===== src/Node/Examples/Routing.antt =====
-- A connection that a small node refuses: aioros/_node/_node.py.
use aioros.Common.{
  ◌≡◌, refl, true, [], none, some, str, str_eq, ◌++◌, str_lt, service_client_error, Result, ok, err,
}
use aioros.Dict.{get, put}
use aioros.Tcpros.Words.{Bytes, pack_u32}
use aioros.Node.Service.{client_header}
use aioros.Node.Routing.{error_header, not_provided, handle_tcpros, opened, handle_tcpros-opened}
use aioros.Tcpros.{
  encode_header, encode_fields, encode_field, sort_fields, insert_field, read_header,
}
use aioros.Tcpros.Fields.{IsCodec}
use aioros.Node.Registry
use aioros.Node.Registry.{Registry, published_topics}

-- text that is encoded character by character
plain-IsCodec : IsCodec (λ s. s) ok
plain-IsCodec = record { append = λ s t. refl; equals = refl; decoded = λ s. refl }

abbrev bytes_or_none : Result Bytes → Bytes
bytes_or_none (ok bytes) = bytes
bytes_or_none (err e) = []

abbrev asked : Bytes
asked =
    bytes_or_none (encode_header (λ s. s) (client_header true (str "/c") (str "abc") (str "/add")))

asked_sent :
    encode_header (λ s. s) (client_header true (str "/c") (str "abc") (str "/add")) ≡ ok asked
unfolding encode_header encode_fields encode_field sort_fields insert_field client_header put
    pack_u32 str_eq str_lt
asked_sent = refl

abbrev answered : Bytes
answered =
    bytes_or_none
      (encode_header (λ s. s) (error_header (not_provided (str "service") (str "/add"))))

answered_sent :
    encode_header (λ s. s) (error_header (not_provided (str "service") (str "/add"))) ≡ ok answered
unfolding encode_header encode_fields encode_field sort_fields insert_field pack_u32
answered_sent = refl

no_service : get Registry.new_registry.services (str "/add") ≡ none
unfolding get
no_service = refl

handle_tcpros-opened_example :
    (handle_tcpros
        (λ s. s)
        (λ e. [])
        (λ b. b)
        (λ s h b. ok [])
        (λ p h b. ok [])
        ok
        Registry.new_registry
        (asked ++ [])
      ≡ some (ok answered))
    × (opened (read_header ok (answered ++ []))
        ≡ some (err (service_client_error (not_provided (str "service") (str "/add")))))
handle_tcpros-opened_example =
    handle_tcpros-opened (λ s. s) ok (λ e. []) (λ b. b) (λ s h b. ok []) (λ p h b. ok [])
      Registry.new_registry true (str "/c") (str "abc") (str "/add") asked answered [] []
      plain-IsCodec no_service asked_sent answered_sent
