-- ===== src/Xmlrpc/Faults.antt =====
-- Exceptions and fault codes: aioros/xmlrpc/_protocol/_exceptions.py.
use aioros.Common.{
  ℕ, zero, suc, ◌≡◌, refl, Bool, false, List, [], ◌∷◌, Option, none, some, ◌==◌, if◌then◌else◌,
}
use aioros.Value.{ℤ, pos, negsuc}

-- the classes of the module, and Exception
pub data FaultClass : Type 0 where
  exception xmlrpc_error parse_error unsupported_encoding_error invalid_character_error : FaultClass
  server_error invalid_data method_not_found invalid_arguments : FaultClass
  application_error xmlrpc_system_error transport_error : FaultClass

-- -n
abbrev pub minus : ℕ → ℤ
minus zero = pos 0
minus (suc n) = negsuc n

abbrev eq_code : ℤ → ℤ → Bool
eq_code (pos a) (pos b) = a == b
eq_code (negsuc a) (negsuc b) = a == b
eq_code _ _ = false

-- a number for each class, to compare two
abbrev index : FaultClass → ℕ
index exception = 0
index xmlrpc_error = 1
index parse_error = 2
index unsupported_encoding_error = 3
index invalid_character_error = 4
index server_error = 5
index invalid_data = 6
index method_not_found = 7
index invalid_arguments = 8
index application_error = 9
index xmlrpc_system_error = 10
index transport_error = 11

-- d[k] = v on the items of a dict
unfoldable set_code : ℤ → FaultClass → List (ℤ × FaultClass) → List (ℤ × FaultClass)
set_code k v [] = (k, v) ∷ []
set_code k v ((j, w) ∷ d) = if eq_code j k then (j, v) ∷ d else (j, w) ∷ set_code k v d

unfoldable dict_of : List (ℤ × FaultClass) → List (ℤ × FaultClass) → List (ℤ × FaultClass)
unfolding set_code
dict_of d [] = d
dict_of d ((k, v) ∷ l) = dict_of (set_code k v d) l

-- __EXCEPTION_CODES: the class attributes `code` with their classes. A later item takes the place of
-- an earlier one with its key.
unfoldable pub exception_codes : List (ℤ × FaultClass)
unfolding dict_of
exception_codes = dict_of [] (
    (minus 32000, exception)
    ∷ (minus 32500, xmlrpc_error)
    ∷ (minus 32700, parse_error)
    ∷ (minus 32701, unsupported_encoding_error)
    ∷ (minus 32702, invalid_character_error)
    ∷ (minus 32603, server_error)
    ∷ (minus 32600, invalid_data)
    ∷ (minus 32601, method_not_found)
    ∷ (minus 32602, invalid_arguments)
    ∷ (minus 32500, application_error)
    ∷ (minus 32400, xmlrpc_system_error)
    ∷ (minus 32300, transport_error)
    ∷ [])

-- value.__class__.__mro__, down to Exception
unfoldable pub mro : FaultClass → List FaultClass
mro exception = exception ∷ []
mro xmlrpc_error = xmlrpc_error ∷ exception ∷ []
mro parse_error = parse_error ∷ xmlrpc_error ∷ exception ∷ []
mro unsupported_encoding_error =
    unsupported_encoding_error ∷ parse_error ∷ xmlrpc_error ∷ exception ∷ []
mro invalid_character_error = invalid_character_error ∷ parse_error ∷ xmlrpc_error ∷ exception ∷ []
mro server_error = server_error ∷ xmlrpc_error ∷ exception ∷ []
mro invalid_data = invalid_data ∷ server_error ∷ xmlrpc_error ∷ exception ∷ []
mro method_not_found = method_not_found ∷ server_error ∷ xmlrpc_error ∷ exception ∷ []
mro invalid_arguments = invalid_arguments ∷ server_error ∷ xmlrpc_error ∷ exception ∷ []
mro application_error = application_error ∷ xmlrpc_error ∷ exception ∷ []
mro xmlrpc_system_error = xmlrpc_system_error ∷ xmlrpc_error ∷ exception ∷ []
mro transport_error = transport_error ∷ xmlrpc_error ∷ exception ∷ []

-- __EXCEPTION_TYPES.get(klass), the dict with keys and values changed over
unfoldable code_in : FaultClass → List (ℤ × FaultClass) → Option ℤ
code_in c [] = none
code_in c ((k, v) ∷ d) = if index v == index c then some k else code_in c d

unfoldable first_code : List FaultClass → ℤ
unfolding code_in exception_codes
first_code [] = minus 32000
first_code (c ∷ cs) = elim (code_in c exception_codes) [ some k ↦ k | none ↦ first_code cs ]

-- the fault code of an exception, as py2xml writes it
unfoldable pub fault_code : FaultClass → ℤ
unfolding first_code mro
fault_code c = first_code (mro c)

unfoldable class_in : ℤ → FaultClass → List (ℤ × FaultClass) → FaultClass
class_in k default [] = default
class_in k default ((j, v) ∷ d) = if eq_code j k then v else class_in k default d

-- the class of the exception that xml2py_exception makes
unfoldable pub xml2py_exception : ℤ → FaultClass → FaultClass
unfolding class_in exception_codes
xml2py_exception k default = class_in k default exception_codes

-- what becomes of a class on the way through its fault code
abbrev pub Arrives : FaultClass → FaultClass → Type 0
Arrives xmlrpc_error c = c ≡ exception
Arrives sent c = c ≡ sent

-- An exception that was written as a fault is read as one of the same class, whatever the default
-- class; but an XMLRPCError itself is read as an Exception.
pub xml2py_exception-fault_code :
    (sent default : FaultClass) → Arrives sent (xml2py_exception (fault_code sent) default)
unfolding xml2py_exception fault_code
xml2py_exception-fault_code exception default = refl
xml2py_exception-fault_code xmlrpc_error default = refl
xml2py_exception-fault_code parse_error default = refl
xml2py_exception-fault_code unsupported_encoding_error default = refl
xml2py_exception-fault_code invalid_character_error default = refl
xml2py_exception-fault_code server_error default = refl
xml2py_exception-fault_code invalid_data default = refl
xml2py_exception-fault_code method_not_found default = refl
xml2py_exception-fault_code invalid_arguments default = refl
xml2py_exception-fault_code application_error default = refl
xml2py_exception-fault_code xmlrpc_system_error default = refl
xml2py_exception-fault_code transport_error default = refl
