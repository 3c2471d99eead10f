-- ===== src/Xmlrpc/Calls.antt =====
-- A remote call against the method that it calls: aioros/xmlrpc/_client.py and
-- aioros/xmlrpc/_server.py.
use aioros.Common.{
  ◌≡◌, refl, true, false, List, Str, str, starts_with, All, Exc, Result, ok, err, assertion_error,
}
use aioros.Value.{Value}
use aioros.Xmlrpc.{Python}
use aioros.Xmlrpc.Sendable.{IsPython, IsSendable}
use aioros.Xmlrpc.Schema.{is_method_name}
use aioros.Xmlrpc.Remote.{remote_call, handle_request, respond, received, receive, fault_response}
use aioros.Xmlrpc.Bodies.{
  build_request-tree, parse_request-tree, format_success-tree, parse_response-tree,
  format_error-eq-ok,
}

-- what the caller of a method gets when the method is at the other end of a connection
abbrev pub seen : Result Value → Result Value
seen (ok v) = ok v
seen (err e) = err assertion_error

module _ (python : Python) where
  abbrev pub IsSendableResult : Result Value → Type 0
  IsSendableResult (ok v) = IsSendable python v
  IsSendableResult (err e) = Unit

  module _ {S : Type 0} (method : Str → List Value → S → S × Result Value) where
    fault-receive :
        (e : Exc)
        → IsPython python
        → receive python method (fault_response python method e) ≡ err assertion_error
    fault-receive e laws = rw ((format_error-eq-ok python e laws).1) refl

    -- A remote call of a method whose name the schema admits and does not begin with an underscore, on
    -- arguments that survive the way, changes the state of the server as the method does and gives
    -- what the method gives, if that survives the way too; but whatever exception the method raises,
    -- the caller sees an AssertionError.
    pub remote_call-method :
        (name : Str) (args : List Value) (s : S)
        → IsPython python
        → is_method_name name ≡ true
        → starts_with name (str "_") ≡ false
        → All (IsSendable python) args
        → IsSendableResult (method name args s).1
        → remote_call python method name args s
          ≡ ((method name args s).0, seen (method name args s).1)
    unfolding remote_call handle_request
    remote_call-method name args s laws named visible h sent =
        rw
          (
            build_request-tree python name args laws named h,
            parse_request-tree python name args laws named h,
            visible,
          )
          (delivered (method name args s) sent)
      where
        delivered :
            (r : S × Result Value)
            → IsSendableResult r.1
            → received python method (respond python method r) ≡ (r.0, seen r.1)
        delivered (s', ok v) sent =
            rw (format_success-tree python v laws sent)
              (rw (parse_response-tree python v laws sent) refl)
        delivered (s', err e) sent = rw (fault-receive e laws) refl
