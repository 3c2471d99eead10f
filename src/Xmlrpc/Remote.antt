-- ===== src/Xmlrpc/Remote.antt =====
-- A method call over XML-RPC: build_xml and parse_xml of aioros/xmlrpc/_protocol/_client.py,
-- parse_request, format_success and format_error of aioros/xmlrpc/_protocol/_server.py, and the
-- request and the call of aioros/xmlrpc/_server.py and aioros/xmlrpc/_client.py. The bodies are the
-- trees that lxml writes and parses; a body that the schema admits has `params` below its root only.
use aioros.Common.{
  ℕ, List, [], ◌∷◌, Option, none, some, Str, str, str_eq, starts_with, ◌==◌, Exc, Result, ok, err,
  ◌>>◌, value_error, index_error, assertion_error, end_of_stream, xmlrpc_error, type_error, ◌>>=◌,
  if◌then◌else◌,
}
use aioros.Value.{ℤ, Value, int, text, array, struct, end, field, get}
use aioros.Xmlrpc.{
  Element, Elements, node, empty, child, only, value_element, leaf, Python, py2xml, inner, joined,
  texts_of, to_items,
}
use aioros.Xmlrpc.Schema.{validate_schema}
use aioros.Xmlrpc.Faults.{minus}

abbrev with_param : Result Element → Result Elements → Result Elements
with_param value rest = do
  e ← value
  es ← rest
  ok (child (node (str "param") [] (only (value_element e))) es)

module _ (python : Python) where
  unfoldable pub params_xml : List Value → Result Elements
  params_xml [] = ok empty
  params_xml (arg ∷ args) = with_param (py2xml python arg) (params_xml args)

  -- build_xml of the client; a text that XML cannot hold is a ValueError
  unfoldable pub build_request : Str → List Value → Result Element
  unfolding params_xml
  build_request method_name args = do
    name ← leaf python (str "methodName") method_name
    params ← params_xml args
    ok (node (str "methodCall") [] (child name (only (node (str "params") [] params))))

  -- xml2py of each of root.xpath("//params/param/value")
  unfoldable pub params_of : Elements → Result (List Value)
  params_of empty = ok []
  params_of (child (node tag content kids) rest) =
      let here = inner python (str "param") kids in
      let others = params_of rest in
      if str_eq tag (str "params") then joined here others else others

  abbrev pub first_text : List Str → Result Str
  first_text [] = err index_error
  first_text (s ∷ texts) = ok s

  -- the check of parse_xml on either side: "Invalid body"
  abbrev pub guard_body : Element → Result (Unit {0})
  guard_body body = if validate_schema python body then ok tt else err value_error

  -- what parse_request reads of a body that the schema admits
  abbrev pub read_request : Element → Result (Str × List Value)
  read_request (node tag content kids) = do
    method_name ← first_text (texts_of (str "methodName") kids)
    args ← params_of kids
    ok (method_name, args)

  -- parse_request, for a body with the right content type
  unfoldable pub parse_request : Element → Result (Str × List Value)
  unfolding params_of texts_of
  parse_request body = guard_body body >> read_request body

  unfoldable pub format_success : Value → Result Element
  format_success result = do
    e ← py2xml python result
    ok (
        node (str "methodResponse") []
          (only (node (str "params") [] (only (node (str "param") [] (only (value_element e)))))))

  -- format_error, for the code and the text of an exception
  unfoldable pub format_error : ℤ → Str → Result Element
  format_error code reason = do
    e ←
        py2xml python (
          struct (field (str "faultCode") (int code) (field (str "faultString") (text reason) end)))
    ok (node (str "methodResponse") [] (only (node (str "fault") [] (only (value_element e)))))

  -- The exception of a fault; of it the text is kept here, and its class in Faults.
  abbrev pub fault_text : Option Value → Str
  fault_text none = str "Unknown error"
  fault_text (some (text s)) = s
  fault_text (some _) = []

  abbrev pub raise_fault : List Value → Result Value
  raise_fault [] = err (xmlrpc_error (str "no response"))
  raise_fault (struct d ∷ vs) = err (xmlrpc_error (fault_text (get d (str "faultString"))))
  raise_fault (_ ∷ vs) = err type_error

  -- the values of a response: one, or a list of more
  abbrev pub result_of : Elements → List Value → Result Value
  result_of kids [] = inner python (str "fault") kids >>= raise_fault
  result_of kids (v ∷ []) = ok v
  result_of kids (v ∷ w ∷ vs) = ok (array (to_items (v ∷ w ∷ vs)))

  abbrev pub read_response : Element → Result Value
  read_response (node tag content kids) = params_of kids >>= result_of kids

  -- parse_xml of the client
  unfoldable pub parse_response : Element → Result Value
  unfolding params_of
  parse_response body = guard_body body >> read_response body

  module _ {S : Type 0} (method : Str → List Value → S → S × Result Value) where
    -- lookup_method and the call; a method that is not there is an exception of `method`
    abbrev pub call_method : Str → List Value → S → S × Result Value
    call_method method_name args s =
        if starts_with method_name (str "_")
        then (s, err value_error)
        else method method_name args s

    -- the response of a status and a body; what format_error raises ends the connection
    abbrev pub response : ℕ → Result Element → Option (ℕ × Element)
    response status_code (ok root) = some (status_code, root)
    response status_code (err e) = none

    -- -32000 is the code of Exception: of the classes in Faults no method raises one
    abbrev pub fault_response : Exc → Option (ℕ × Element)
    fault_response e = response 500 (format_error (minus 32000) (python.repr e))

    -- the result stands in the `try`: what format_success raises is a fault too
    abbrev pub success_response : Result Element → Option (ℕ × Element)
    success_response (ok root) = some (200, root)
    success_response (err e) = fault_response e

    abbrev pub respond : S × Result Value → S × Option (ℕ × Element)
    respond (s, ok result) = (s, success_response (format_success result))
    respond (s, err e) = (s, fault_response e)

    abbrev pub handle_parsed : Result (Str × List Value) → S → S × Option (ℕ × Element)
    handle_parsed (err e) s = (s, none)
    handle_parsed (ok (method_name, args)) s = respond (call_method method_name args s)

    -- handle_request: the status and the body of the response. What parse_request raises, as for a
    -- body that the schema does not admit, ends the connection, with no response.
    unfoldable pub handle_request : Element → S → S × Option (ℕ × Element)
    unfolding parse_request format_success format_error
    handle_request request s = handle_parsed (parse_request request) s

    abbrev pub receive : Option (ℕ × Element) → Result Value
    receive none = err end_of_stream
    receive (some (status_code, root)) =
        if status_code == 200 then parse_response root else err assertion_error

    abbrev pub received : S × Option (ℕ × Element) → S × Result Value
    received (s, response) = (s, receive response)

    abbrev pub send : Result Element → S → S × Result Value
    send (err e) s = (s, err e)
    send (ok request) s = received (handle_request request s)

    -- ServerProxy.__remote_call, with the server at the other end
    unfoldable pub remote_call : Str → List Value → S → S × Result Value
    unfolding build_request handle_request parse_response
    remote_call method_name args s = send (build_request method_name args) s
