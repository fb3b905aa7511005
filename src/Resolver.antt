-- ===== src/Resolver.antt =====
-- The default methods of the trait `DnsResolver` (src/resolver.rs) on what `resolve_full` returned.
-- A batch is the list of its hosts with their results, in the order in which `buffer_unordered`
-- delivers them.
pub mod Batch
pub mod Iterator
use blastdns.Prelude.{
  Bool, true, false, not, ◌&&◌, Option, none, some, List, [], ◌∷◌, map, is_empty, if◌then◌else◌,
}
use mathlib.Core.List.{filter_map}
use blastdns.Dns.{Dns}
use blastdns.Error.{Result, ok, err, is_err, configuration, no_record_types}
use blastdns.Net.{Text}

module _ (dns : Dns) (data_to_string : dns.Record → Text) where
  open dns use {Response, RecordType}

  abbrev pub rdata : Response → List Text
  rdata r = map data_to_string (dns.answers r)

  unfoldable pub resolve : Result Response → Result (List Text)
  resolve (ok r) = ok (rdata r)
  resolve (err e) = err e

  -- `response.answers().is_empty()` of a response
  abbrev pub has_no_answers : Result Response → Bool
  has_no_answers (ok r) = is_empty (dns.answers r)
  has_no_answers (err e) = false

  -- The last `filter_map` of `resolve_batch_full`.
  unfoldable pub keep : Bool → Bool → Text × Result Response → Option (Text × Result Response)
  keep skip_empty skip_errors (host, result) =
      if skip_empty && has_no_answers result
      then none
      else if skip_errors && is_err result
      then none
      else some (host, result)

  unfoldable pub resolve_batch_full :
      Bool → Bool → List (Text × Result Response) → List (Text × Result Response)
  unfolding keep filter_map
  resolve_batch_full skip_empty skip_errors done = filter_map (keep skip_empty skip_errors) done

  -- The items of the iterator that are hosts; an error is reported and left out.
  abbrev pub hosts_of : List (Option Text) → List Text
  hosts_of [] = []
  hosts_of (none ∷ hosts) = hosts_of hosts
  hosts_of (some host ∷ hosts) = host ∷ hosts_of hosts

  -- The whole pipeline, over the items that the iterator yields; `unordered` is the order in which
  -- `buffer_unordered` delivers.
  unfoldable pub resolve_hosts :
      (Text → Result Response)
      → (List (Text × Result Response) → List (Text × Result Response))
      → Bool
      → Bool
      → List (Option Text)
      → List (Text × Result Response)
  unfolding resolve_batch_full
  resolve_hosts resolve_full unordered skip_empty skip_errors hosts =
      resolve_batch_full skip_empty skip_errors
        (unordered (map (λ host. (host, resolve_full host)) (hosts_of hosts)))

  -- The `filter_map` of `resolve_batch`; `record_type` is the name of the type.
  unfoldable pub simplify : Text → Text × Result Response → Option (Text × Text × List Text)
  simplify record_type (host, ok r) =
      if is_empty (rdata r) then none else some (host, record_type, rdata r)
  simplify record_type (host, err e) = none

  unfoldable pub resolve_batch :
      Text → List (Text × Result Response) → List (Text × Text × List Text)
  unfolding resolve_batch_full simplify filter_map
  resolve_batch record_type done =
      filter_map (simplify record_type) (resolve_batch_full true true done)

  -- The `HashMap` that `resolve_multi_full` collects, as the list of its entries in the order of
  -- the record types; the types are distinct.
  unfoldable pub resolve_multi_full :
      (Text → Text)
      → (Text → RecordType → Result Response)
      → Text
      → List RecordType
      → Result (List (RecordType × Result Response))
  resolve_multi_full format_ptr_query resolve_full host [] = err (configuration no_record_types)
  resolve_multi_full format_ptr_query resolve_full host (t ∷ ts) = ok (
      map (λ t. (t, resolve_full (if dns.is_ptr t then format_ptr_query host else host) t))
        (t ∷ ts))

  abbrev pub multi_entry : RecordType × Result Response → Option (RecordType × List Text)
  multi_entry (t, ok r) = if is_empty (rdata r) then none else some (t, rdata r)
  multi_entry (t, err e) = none

  unfoldable pub resolve_multi :
      Result (List (RecordType × Result Response)) → Result (List (RecordType × List Text))
  unfolding filter_map
  resolve_multi (ok full) = ok (filter_map multi_entry full)
  resolve_multi (err e) = err e
