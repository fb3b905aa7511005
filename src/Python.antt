-- ===== src/Python.antt =====
-- The Python bindings, src/python.rs: what the methods do around the calls of the client. The event
-- loop, the conversions of PyO3 and the serialization are arguments; a dictionary is the list of
-- its entries.
pub mod Batches
pub mod Records
pub mod Start
pub mod Clients
pub mod Mocks
pub mod Layout
use blastdns.Prelude.{
  ℕ, Bool, true, false, ◌==◌, Option, none, some, List, [], ◌∷◌, map, is_empty, if◌then◌else◌,
}
use blastdns.Config.{BlastDnsConfig, BlastDnsConfigWire, default, from}
use blastdns.Error.{
  Result, ok, err, BlastDnsError, no_resolvers, invalid_resolver, invalid_hostname, queue_closed,
  worker_dropped, resolver_setup_failed, resolver_request_failed, query_timed_out, configuration,
}
use blastdns.Float.{Float}
use blastdns.Mock.{Backend, MockBlastDnsClient, Responses}
use blastdns.Mock
use blastdns.Mock.Maps.{Map, insert}
use blastdns.Net.{Text, IpAddr}
use blastdns.Strings.{trim, to_ascii_uppercase, text_eq}
use blastdns.ZoneTransfer.{ZoneTransferResult}

-- The classes of blastdns/exceptions.py.
pub data ExceptionType : Type 0 where
  configuration_error : ExceptionType
  no_resolvers_error : ExceptionType
  resolver_error : ExceptionType

pub data PyErr : Type 0 where
  value_error : PyErr
  stop_async_iteration : PyErr
  exception : ExceptionType → BlastDnsError → PyErr
  -- with the message of the error
  runtime_error : BlastDnsError → PyErr
  outstanding_references : PyErr
  -- what Python code or a conversion raised
  raised : PyErr

pub data PyResult (A : Type 0) : Type 0 where
  returns : A → PyResult A
  raises : PyErr → PyResult A

infixl 5 ◌>>=◌
abbrev pub ◌>>=◌ : {A B : Type 0} → PyResult A → (A → PyResult B) → PyResult B
returns a >>= f = f a
raises e >>= f = raises e

unfoldable pub exception_type : BlastDnsError → ExceptionType
exception_type no_resolvers = no_resolvers_error
exception_type (invalid_resolver _) = configuration_error
exception_type (invalid_hostname _) = configuration_error
exception_type (configuration _) = configuration_error
exception_type (resolver_request_failed _ _) = resolver_error
exception_type (query_timed_out _ _) = resolver_error
exception_type (resolver_setup_failed _) = resolver_error
exception_type worker_dropped = resolver_error
exception_type queue_closed = resolver_error

-- A type that could not be imported leaves a plain `RuntimeError`.
unfoldable pub blastdns_error_to_pyerr : (ExceptionType → Bool) → BlastDnsError → PyErr
unfolding exception_type
blastdns_error_to_pyerr imported e =
    if imported (exception_type e) then exception (exception_type e) e else runtime_error e

abbrev pub serialized : {A : Type 0} → Option A → PyResult A
serialized none = raises value_error
serialized (some bytes) = returns bytes

-- The configuration that `new` is given as JSON, if it is.
module _ {F : Type 0} (from_json : Text → Option (BlastDnsConfigWire F))
    (convert : BlastDnsConfigWire F → BlastDnsConfig F) where
  abbrev pub converted : Option (BlastDnsConfigWire F) → PyResult (BlastDnsConfig F)
  converted none = raises value_error
  converted (some wire) = returns (convert wire)

  abbrev pub config_of : Option Text → PyResult (BlastDnsConfig F)
  config_of none = returns default
  config_of (some json) = converted (from_json json)

module _ {RecordType : Type 0} (a : RecordType) (from_str : Text → Option RecordType) where
  -- No type, or blank text, is type A.
  unfoldable pub parse_record_type : Option Text → PyResult RecordType
  parse_record_type none = returns a
  parse_record_type (some value) =
      if is_empty (trim value)
      then returns a
      else serialized (from_str (to_ascii_uppercase (trim value)))

  unfoldable pub parse_types : List Text → PyResult (List RecordType)
  unfolding parse_record_type
  parse_types [] = returns []
  parse_types (rt ∷ rts) = do
    t ← parse_record_type (some rt)
    ts ← parse_types rts
    returns (t ∷ ts)

-- `set_item` of every entry, under the name of its type.
abbrev pub dict_of : {T A : Type 0} → (T → Text) → List (T × A) → Map Text A → Map Text A
dict_of to_string [] dict = dict
dict_of to_string ((t, x) ∷ results) dict =
    dict_of to_string results (insert text_eq (to_string t) x dict)

module _ {Response Bytes : Type 0} (to_vec : Response → Option Bytes)
    (error_to_vec : BlastDnsError → Option Bytes) where
  -- `dns_response_to_bytes` and `error_to_bytes`
  abbrev pub payload : Result Response → PyResult Bytes
  payload (ok response) = serialized (to_vec response)
  payload (err e) = serialized (error_to_vec e)

  abbrev pub payloads : {T : Type 0} → List (T × Result Response) → PyResult (List (T × Bytes))
  payloads [] = returns []
  payloads ((t, result) ∷ results) = do
    value ← payload result
    rest ← payloads results
    returns ((t, value) ∷ rest)

module _ (imported : ExceptionType → Bool) where
  -- `map_err(PyErr::from)`
  abbrev pub into_py : {A : Type 0} → Result A → PyResult A
  into_py (ok a) = returns a
  into_py (err e) = raises (blastdns_error_to_pyerr imported e)

  module _ {RecordType : Type 0} (a : RecordType) (from_str : Text → Option RecordType) where
    unfoldable pub resolve :
        {A : Type 0} → (Text → RecordType → Result A) → Text → Option Text → PyResult A
    unfolding parse_record_type
    resolve call host record_type = do
      t ← parse_record_type a from_str record_type
      into_py (call host t)

    unfoldable pub resolve_multi :
        {A : Type 0}
        → (RecordType → Text)
        → (Text → List RecordType → Result (List (RecordType × A)))
        → Text
        → List Text
        → PyResult (Map Text A)
    unfolding parse_types
    resolve_multi to_string call host record_types = do
      ts ← parse_types a from_str record_types
      results ← into_py (call host ts)
      returns (dict_of to_string results [])

    module _ {Response Bytes : Type 0} (to_vec : Response → Option Bytes)
        (error_to_vec : BlastDnsError → Option Bytes) where
      unfoldable pub resolve_full :
          (Text → RecordType → Result Response) → Text → Option Text → PyResult Bytes
      unfolding parse_record_type
      resolve_full call host record_type = do
        t ← parse_record_type a from_str record_type
        response ← into_py (call host t)
        payload to_vec error_to_vec (ok response)

      unfoldable pub resolve_multi_full :
          (RecordType → Text)
          → (Text → List RecordType → Result (List (RecordType × Result Response)))
          → Text
          → List Text
          → PyResult (Map Text Bytes)
      unfolding parse_types
      resolve_multi_full to_string call host record_types = do
        ts ← parse_types a from_str record_types
        results ← into_py (call host ts)
        entries ← payloads to_vec error_to_vec results
        returns (dict_of to_string entries [])
