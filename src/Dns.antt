-- ===== src/Dns.antt =====
-- What the program uses of hickory's DNS types: names and their parsers, record types, and the
-- parts of a response that it looks at. An interface; a response is opaque beyond it.
use blastdns.Prelude.{ℕ, Bool, Option, List}
use blastdns.Net.{Text}

-- `ResponseCode`, as far as the program tells the codes apart.
pub data ResponseCode : Type 0 where
  no_error : ResponseCode
  nx_domain : ResponseCode
  other : ℕ → ResponseCode

pub record Dns : Type 1 where
  pub Name : Type 0
  pub RecordType : Type 0
  pub Record : Type 0
  pub Response : Type 0
  -- `Name::from_str` (also `str::parse`) and `Name::from_ascii`
  pub from_str : Text → Option Name
  pub from_ascii : Text → Option Name
  -- `record_type == RecordType::PTR`
  pub is_ptr : RecordType → Bool
  pub answers : Response → List Record
  pub ttl : Record → ℕ
  pub response_code : Response → ResponseCode
  pub truncated : Response → Bool
