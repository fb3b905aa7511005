-- ===== src/Python/Mocks.antt =====
-- The mock client of src/python.rs over that of src/mock.rs: the table it is given, and the same
-- calls as of the client.
use blastdns.Prelude.{ℕ, Bool, true, false, Option, none, some, List, [], ◌∷◌, if◌then◌else◌}
use blastdns.Dns.{Dns, ResponseCode}
use blastdns.Error.{Result, BlastDnsError}
use blastdns.Mock
use blastdns.Mock.{Backend, Message, MockBlastDnsClient, Responses}
use blastdns.Mock.Maps.{Map, insert}
use blastdns.Net.{Text}
use blastdns.Python
use blastdns.Python.{
  ExceptionType, PyResult, returns, raises, raised, value_error, outstanding_references, ◌>>=◌,
}
use blastdns.Python.Clients
use blastdns.Python.Clients.{PyItem}
use blastdns.Resolver
use blastdns.Strings.{text_eq}

-- `PyMockBlastDNSClient::new`
unfoldable pub new : (b : Backend) → MockBlastDnsClient b
new b = Mock.new b

-- A value of the dictionary that `mock_dns` is given, as it is extracted where it stands: as the
-- list of hosts, or as the records of a host.
pub record Value : Type 0 where
  pub as_hosts : Option (List Text)
  pub as_records : Option (List (Text × List Text))

abbrev pub extracted : {A : Type 0} → Option A → PyResult A
extracted none = raises raised
extracted (some x) = returns x

-- "_NXDOMAIN"
abbrev pub nxdomain_key : Text
nxdomain_key = 95 ∷ 78 ∷ 88 ∷ 68 ∷ 79 ∷ 77 ∷ 65 ∷ 73 ∷ 78 ∷ []

abbrev pub read_item : Text → Value → Responses × List Text → PyResult (Responses × List Text)
read_item key value (responses, nxdomains) =
    if text_eq key nxdomain_key
    then (extracted value.as_hosts >>= λ hosts. returns (responses, hosts))
    else extracted value.as_records >>= λ records.
        returns (insert text_eq key records responses, nxdomains)

-- The loop over the dictionary; a key that is no text is `none`.
unfoldable pub read_items :
    List (Option Text × Value) → Responses × List Text → PyResult (Responses × List Text)
read_items [] found = returns found
read_items ((key, value) ∷ items) found = do
  k ← extracted key
  found' ← read_item k value found
  read_items items found'

-- `sole` says that no other reference to the client is left, and `items` is the dictionary, if the
-- argument is one.
unfoldable pub mock_dns :
    (b : Backend)
    → Bool
    → Option (List (Option Text × Value))
    → MockBlastDnsClient b
    → MockBlastDnsClient b × PyResult (Unit {0})
unfolding read_items Mock.mock_dns
mock_dns b false items c = (c, raises outstanding_references)
mock_dns b true none c = (c, raises value_error)
mock_dns b true (some items) c = elim (read_items items ([], [])) [
  | raises e ↦ (c, raises e)
  | returns (responses, nxdomains) ↦ (Mock.mock_dns b c responses nxdomains, returns tt)
]

-- What a response of the mock client has to show.
pub record Shown (Record Response : Type 0) : Type 0 where
  pub answers : Response → List Record
  pub ttl : Record → ℕ
  pub response_code : Response → ResponseCode
  pub truncated : Response → Bool
  pub data_to_string : Record → Text

-- The mock client's types, as the default methods of the resolver see them.
abbrev pub types : {Record Response : Type 0} → Backend → Shown Record Response → Dns
types {Record} {Response} b shown = record {
  Name = b.Name;
  RecordType = b.RecordType;
  Record = Record;
  Response = Response;
  from_str = b.name_of_str;
  from_ascii = b.name_of_str;
  is_ptr = b.is_ptr;
  answers = shown.answers;
  ttl = shown.ttl;
  response_code = shown.response_code;
  truncated = shown.truncated;
}

-- `format_ptr_query` is that of src/utils.rs, `a` the record type A, and `to_string` the name of a
-- type.
module _ (b : Backend) {Record Response : Type 0} (shown : Shown Record Response)
    (from_message : Message b.Name b.RecordType b.RData → Option Response)
    (format_ptr_query : Text → Text) (imported : ExceptionType → Bool) (a : b.RecordType)
    (to_string : b.RecordType → Text) where
  open b use {RecordType}

  -- What the mock client itself returns.
  abbrev pub inner : MockBlastDnsClient b → Text → RecordType → Result Response
  inner c host t = Mock.resolve_full b from_message format_ptr_query c host t

  unfoldable pub resolve : MockBlastDnsClient b → Text → Option Text → PyResult (List Text)
  unfolding Python.resolve Mock.resolve_full Resolver.resolve
  resolve c host record_type =
      Python.resolve imported a b.type_of_str
        (λ h t. Resolver.resolve (types b shown) shown.data_to_string (inner c h t)) host
        record_type

  -- `resolve_multi_full` of the inner client
  abbrev pub inner_multi :
      MockBlastDnsClient b → Text → List RecordType → Result (List (RecordType × Result Response))
  inner_multi c host ts =
      Resolver.resolve_multi_full (types b shown) shown.data_to_string format_ptr_query (inner c)
        host ts

  unfoldable pub resolve_multi :
      MockBlastDnsClient b → Text → List Text → PyResult (Map Text (List Text))
  unfolding Python.resolve_multi Mock.resolve_full Resolver.resolve_multi
      Resolver.resolve_multi_full
  resolve_multi c host record_types =
      Python.resolve_multi imported a b.type_of_str to_string
        (λ h ts. Resolver.resolve_multi (types b shown) shown.data_to_string (inner_multi c h ts))
        host record_types

  module _ {Bytes : Type 0} (to_vec : Response → Option Bytes)
      (error_to_vec : BlastDnsError → Option Bytes) where
    unfoldable pub resolve_full : MockBlastDnsClient b → Text → Option Text → PyResult Bytes
    unfolding Python.resolve_full Mock.resolve_full
    resolve_full c host record_type =
        Python.resolve_full imported a b.type_of_str to_vec error_to_vec (inner c) host record_type

    unfoldable pub resolve_multi_full :
        MockBlastDnsClient b → Text → List Text → PyResult (Map Text Bytes)
    unfolding Python.resolve_multi_full Mock.resolve_full Resolver.resolve_multi_full
    resolve_multi_full c host record_types =
        Python.resolve_multi_full imported a b.type_of_str to_vec error_to_vec to_string
          (inner_multi c) host record_types

  -- The batches, whose results come in the order `unordered`.
  module _ (unordered : List (Text × Result Response) → List (Text × Result Response)) where
    unfoldable pub resolve_batch :
        MockBlastDnsClient b
        → Option (List PyItem)
        → Option Text
        → PyResult (List (Text × Text × List Text))
    unfolding Clients.resolve_batch Mock.resolve_full
    resolve_batch c hosts record_type =
        Clients.resolve_batch (types b shown) shown.data_to_string a b.type_of_str (inner c)
          unordered to_string hosts record_type

    unfoldable pub resolve_batch_full :
        MockBlastDnsClient b
        → Option (List PyItem)
        → Option Text
        → Bool
        → Bool
        → PyResult (List (Text × Result Response))
    unfolding Clients.resolve_batch_full Mock.resolve_full
    resolve_batch_full c hosts record_type skip_empty skip_errors =
        Clients.resolve_batch_full (types b shown) shown.data_to_string a b.type_of_str (inner c)
          unordered hosts record_type skip_empty skip_errors
