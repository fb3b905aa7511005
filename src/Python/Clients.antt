-- ===== src/Python/Clients.antt =====
-- The batch methods of the client of src/python.rs, and the functions of the module.
use blastdns.Prelude.{ℕ, Bool, Option, none, some, List, map}
use blastdns.Dns.{Dns}
use blastdns.Error.{Result, ok, err}
use blastdns.Net.{Text, IpAddr}
use blastdns.Python.{
  ExceptionType, PyResult, returns, raises, raised, runtime_error, blastdns_error_to_pyerr, ◌>>=◌,
  parse_record_type,
}
use blastdns.Python.Batches.{anext}
use blastdns.Resolver
use blastdns.ZoneTransfer.{ZoneTransferResult}

-- What a Python iterator gives: a text, something else, or an exception.
pub data PyItem : Type 0 where
  text : Text → PyItem
  other_object : PyItem
  failed : PyItem

-- `PythonHostIterator::next`; `none` is an error.
abbrev pub next_host : PyItem → Option Text
next_host (text t) = some t
next_host other_object = none
next_host failed = none

-- `try_iter` of what Python passed, if it can be iterated over.
abbrev pub iterated : Option (List PyItem) → PyResult (List (Option Text))
iterated none = raises raised
iterated (some items) = returns (map next_host items)

-- `PyBatchBasicIterator::__anext__`
unfoldable pub basic_anext : {A : Type 0} → ℕ → List (ℕ × A) → List (ℕ × A) × PyResult (List A)
unfolding anext
basic_anext start stream = anext returns start stream

-- `unordered` is the order in which results come, and `a` the record type A.
module _ (dns : Dns) (data_to_string : dns.Record → Text) (a : dns.RecordType)
    (from_str : Text → Option dns.RecordType) where
  open dns use {Response, RecordType}

  module _ (client : Text → RecordType → Result Response)
      (unordered : List (Text × Result Response) → List (Text × Result Response)) where
    -- The results that the iterator will go through.
    unfoldable pub resolve_batch_full :
        Option (List PyItem) → Option Text → Bool → Bool → PyResult (List (Text × Result Response))
    unfolding parse_record_type Resolver.resolve_hosts
    resolve_batch_full hosts record_type skip_empty skip_errors = do
      t ← parse_record_type a from_str record_type
      items ← iterated hosts
      returns (
          Resolver.resolve_hosts dns data_to_string (λ host. client host t) unordered skip_empty
            skip_errors items)

    unfoldable pub resolve_batch :
        (RecordType → Text)
        → Option (List PyItem)
        → Option Text
        → PyResult (List (Text × Text × List Text))
    unfolding parse_record_type Resolver.resolve_hosts Resolver.resolve_batch
    resolve_batch to_string hosts record_type = do
      t ← parse_record_type a from_str record_type
      items ← iterated hosts
      returns (
          Resolver.resolve_batch dns data_to_string (to_string t) (
            unordered
              (map (λ host. (host, client host t)) (Resolver.hosts_of dns data_to_string items))))

abbrev pub system_resolvers : (IpAddr → Text) → Result (List IpAddr) → PyResult (List Text)
system_resolvers to_string (ok ips) = returns (map to_string ips)
system_resolvers to_string (err e) = raises (runtime_error e)

-- `zone_transfer_py`, on the records of the transfer: the texts of the name, the type and the data.
abbrev pub transferred_records :
    {Record : Type 0}
    → (Record → Text × Text × Text)
    → (ExceptionType → Bool)
    → Result (ZoneTransferResult Record)
    → PyResult (List (Text × Text × Text))
transferred_records texts imported (ok result) = returns (map texts result.records)
transferred_records texts imported (err e) = raises (blastdns_error_to_pyerr imported e)
