-- ===== src/Mock.antt =====
-- The mock client, src/mock.rs: a table of canned responses. A `HashMap` is an association list, in
-- the order of its iteration; the regular expressions, the record types and the zone-file parser
-- are a parameter, and a response is the message it is made of.
pub mod Maps
pub mod Table
pub mod Answers
use blastdns.Prelude.{
  ℕ, Bool, true, false, ◌≡◌, ◌↔◌, ◌++◌, Option, none, some, List, [], ◌∷◌, if◌then◌else◌, ◌&&◌,
}
use blastdns.Dns.{ResponseCode, no_error, nx_domain}
use blastdns.Error.{
  Result, ok, err, ◌>>=◌, configuration, invalid_name, invalid_mock_record, response_not_built,
}
use blastdns.Mock.Maps.{Map, get, insert, entry_insert, first_some}
use blastdns.Net.{Text}
use blastdns.Strings.{strip_prefix, fqdn, text_eq}

-- What the client uses of `regex` and of hickory.
pub record Backend : Type 1 where
  pub Regex : Type 0
  pub compile : Text → Option Regex
  pub is_match : Regex → Text → Bool
  pub RecordType : Type 0
  pub type_eq : RecordType → RecordType → Bool
  pub type_of_str : Text → Option RecordType
  pub is_ptr : RecordType → Bool
  pub Name : Type 0
  pub name_of_str : Text → Option Name
  pub RData : Type 0
  pub try_from_str : RecordType → Text → Option RData

-- What `DnsResponse::from_message` is given, apart from the fixed id and flags.
pub record Message (Name RecordType RData : Type 0) : Type 0 where
  pub query_name : Name
  pub query_type : RecordType
  pub code : ResponseCode
  -- each with the name, and a time to live of 300 seconds
  pub answers : List RData

-- "regex:"
abbrev pub regex_prefix : Text
regex_prefix = 114 ∷ 101 ∷ 103 ∷ 101 ∷ 120 ∷ 58 ∷ []

-- What `mock_dns` is told: for each host, for each record type, the answers.
abbrev pub Responses : Type 0
Responses = List (Text × List (Text × List Text))

module _ (b : Backend) where
  open b use {Regex, RecordType, Name, RData}

  abbrev pub Records : Type 0
  Records = Map RecordType (List Text)

  pub record MockBlastDnsClient : Type 0 where
    pub mock_data : Map Text Records
    pub regex_patterns : List (Regex × Records)
    pub nxdomain_hosts : List Text
    pub nxdomain_patterns : List Regex

  abbrev pub new : MockBlastDnsClient
  new = record { mock_data = []; regex_patterns = []; nxdomain_hosts = []; nxdomain_patterns = [] }

  abbrev pub clear : MockBlastDnsClient → MockBlastDnsClient
  clear c = record c {
    mock_data = [];
    regex_patterns = [];
    nxdomain_hosts = [];
    nxdomain_patterns = [];
  }

  abbrev pub insert_record : Option RecordType → List Text → Records → Records
  insert_record none answers m = m
  insert_record (some t) answers m = insert b.type_eq t answers m

  -- The records of a pattern, one at a time.
  abbrev pub record_map : List (Text × List Text) → Records → Records
  record_map [] m = m
  record_map ((s, answers) ∷ records) m =
      record_map records (insert_record (b.type_of_str s) answers m)

  abbrev pub insert_exact :
      Text → Option RecordType → List Text → Map Text Records → Map Text Records
  insert_exact host none answers m = m
  insert_exact host (some t) answers m = entry_insert text_eq b.type_eq host t answers m

  -- The records of an exact host, one at a time.
  abbrev pub insert_all : Text → List (Text × List Text) → Map Text Records → Map Text Records
  insert_all host [] m = m
  insert_all host ((s, answers) ∷ records) m =
      insert_all host records (insert_exact host (b.type_of_str s) answers m)

  abbrev pub push_pattern :
      Option Regex → List (Text × List Text) → MockBlastDnsClient → MockBlastDnsClient
  push_pattern none records c = c
  push_pattern (some regex) records c = record c {
    regex_patterns = c.regex_patterns ++ (regex, record_map records []) ∷ [];
  }

  abbrev pub add_to :
      Option Text → Text → List (Text × List Text) → MockBlastDnsClient → MockBlastDnsClient
  add_to none host records c = record c { mock_data = insert_all host records c.mock_data }
  add_to (some pattern) host records c = push_pattern (b.compile pattern) records c

  unfoldable pub add_responses : Responses → MockBlastDnsClient → MockBlastDnsClient
  add_responses [] c = c
  add_responses ((host, records) ∷ responses) c =
      add_responses responses (add_to (strip_prefix regex_prefix host) host records c)

  abbrev pub push_nxdomain : Option Regex → MockBlastDnsClient → MockBlastDnsClient
  push_nxdomain none c = c
  push_nxdomain (some regex) c = record c { nxdomain_patterns = c.nxdomain_patterns ++ regex ∷ [] }

  abbrev pub nxdomain_to : Option Text → Text → MockBlastDnsClient → MockBlastDnsClient
  nxdomain_to none host c = record c { nxdomain_hosts = host ∷ c.nxdomain_hosts }
  nxdomain_to (some pattern) host c = push_nxdomain (b.compile pattern) c

  unfoldable pub add_nxdomains : List Text → MockBlastDnsClient → MockBlastDnsClient
  add_nxdomains [] c = c
  add_nxdomains (host ∷ hosts) c =
      add_nxdomains hosts (nxdomain_to (strip_prefix regex_prefix host) host c)

  unfoldable pub mock_dns : MockBlastDnsClient → Responses → List Text → MockBlastDnsClient
  unfolding add_responses add_nxdomains
  mock_dns c responses nxdomains = add_nxdomains nxdomains (add_responses responses (clear c))

  abbrev pub contains : List Text → Text → Bool
  contains [] host = false
  contains (h ∷ hs) host = if text_eq h host then true else contains hs host

  abbrev pub any_match : List Regex → Text → Bool
  any_match [] host = false
  any_match (r ∷ rs) host = if b.is_match r host then true else any_match rs host

  -- `get`, and `get` in what it gives
  abbrev pub get_in : Option Records → RecordType → Option (List Text)
  get_in none t = none
  get_in (some m) t = get b.type_eq t m

  abbrev pub first_match : List (Regex × Records) → Text → RecordType → Option (List Text)
  first_match [] host t = none
  first_match ((r, m) ∷ rest) host t =
      first_some (if b.is_match r host then get b.type_eq t m else none) (first_match rest host t)

  abbrev pub parse_rdata : RecordType → Text → Option RData → Result RData
  parse_rdata t s none = err (configuration (invalid_mock_record s))
  parse_rdata t s (some rdata) = ok rdata

  -- Every answer is parsed, and the first that cannot be ends it.
  unfoldable pub parse_all : RecordType → List Text → Result (List RData)
  parse_all t [] = ok []
  parse_all t (s ∷ ss) = do
    rdata ← parse_rdata t s (b.try_from_str t s)
    rest ← parse_all t ss
    ok (rdata ∷ rest)

  abbrev pub named : Text → Option Name → Result Name
  named host none = err (configuration (invalid_name host))
  named host (some name) = ok name

  module _ {Response : Type 0}
      (from_message : Message Name RecordType RData → Option Response) where
    abbrev pub built : Option Response → Result Response
    built none = err (configuration response_not_built)
    built (some response) = ok response

    unfoldable pub fabricate_response_with_code :
        Text → RecordType → List Text → ResponseCode → Result Response
    unfolding parse_all
    fabricate_response_with_code host t answers_data code = do
      name ← named host (b.name_of_str (fqdn host))
      answers ← parse_all t answers_data
      built (
          from_message
            (record { query_name = name; query_type = t; code = code; answers = answers }))

    abbrev pub fabricate_found : Text → RecordType → Option (List Text) → Result Response
    fabricate_found host t none = fabricate_response_with_code host t [] no_error
    fabricate_found host t (some answers) = fabricate_response_with_code host t answers no_error

    unfoldable pub resolve_full_impl : MockBlastDnsClient → Text → RecordType → Result Response
    resolve_full_impl c host t =
        if contains c.nxdomain_hosts host
        then fabricate_response_with_code host t [] nx_domain
        else if any_match c.nxdomain_patterns host
        then fabricate_response_with_code host t [] nx_domain
        else fabricate_found host t (
            first_some (get_in (get text_eq host c.mock_data) t)
              (first_match c.regex_patterns host t))

    -- `format_ptr_query` of src/utils.rs
    unfoldable pub resolve_full :
        (Text → Text) → MockBlastDnsClient → Text → RecordType → Result Response
    unfolding resolve_full_impl
    resolve_full format_ptr_query c host t =
        resolve_full_impl c (if b.is_ptr t then format_ptr_query host else host) t
