-- ===== src/Python/Layout.antt =====
-- The JSON that src/python.rs makes of a response: `message_to_extended_value` and
-- `record_to_extended_value`. What serde makes of hickory's types is an argument, and so is the
-- writing of the value as bytes.
use blastdns.Prelude.{ℕ, Option, none, some, List, [], ◌∷◌}
use blastdns.Net.{Text}
use blastdns.Python.{PyResult, serialized}
use blastdns.Python.Records.{RData, targets_for_rdata}

-- The keys of the objects.
pub data Key : Type 0 where
  header : Key
  queries : Key
  answers : Key
  name_servers : Key
  additionals : Key
  signature : Key
  edns : Key
  name_labels : Key
  ttl : Key
  dns_class : Key
  rdata : Key
  text : Key
  targets : Key

-- `serde_json::Value`, as far as it is made here; `J` is what serde makes by itself.
mutual
  pub data Value (J : Type 0) : Type 0 where
    null : Value J
    opaque : J → Value J
    string : Text → Value J
    number : ℕ → Value J
    array : Values J → Value J
    object : Fields J → Value J

  pub data Values (J : Type 0) : Type 0 where
    end : Values J
    item : Value J → Values J → Values J

  pub data Fields (J : Type 0) : Type 0 where
    close : Fields J
    field : Key → Value J → Fields J → Fields J

-- A record, by what hickory prints or serializes of it.
pub record Record (J : Type 0) : Type 0 where
  pub name : Text
  pub ttl : ℕ
  pub dns_class : Text
  pub rdata : Option J
  pub text : Text
  pub record_type : Text
  pub kind : RData

pub record Message (J : Type 0) : Type 0 where
  pub header : Option J
  pub queries : Option J
  pub answers : List (Record J)
  pub name_servers : List (Record J)
  pub additionals : List (Record J)
  pub signature : Option J
  pub edns : Option J

module _ {J : Type 0} where
  -- `serde_json::to_value(..).unwrap_or(Value::Null)`
  abbrev pub value_or_null : Option J → Value J
  value_or_null none = null
  value_or_null (some j) = opaque j

  abbrev pub pairs : List (Text × Text) → Values J
  pairs [] = end
  pairs ((rdtype, host) ∷ rest) =
      item (array (item (string rdtype) (item (string host) end))) (pairs rest)

  unfoldable pub record_to_extended_value : Record J → Value J
  unfolding targets_for_rdata
  record_to_extended_value r = object (
      field name_labels (string r.name) (
        field ttl (number r.ttl) (
          field dns_class (string r.dns_class) (
            field rdata (value_or_null r.rdata) (
              field text (string r.text)
                (field targets (array (pairs (targets_for_rdata r.record_type r.kind))) close))))))

  abbrev pub to_records : List (Record J) → Values J
  to_records [] = end
  to_records (r ∷ rs) = item (record_to_extended_value r) (to_records rs)

  unfoldable pub message_to_extended_value : Message J → Value J
  unfolding record_to_extended_value
  message_to_extended_value m = object (
      field header (value_or_null m.header) (
        field queries (value_or_null m.queries) (
          field answers (array (to_records m.answers)) (
            field name_servers (array (to_records m.name_servers)) (
              field additionals (array (to_records m.additionals)) (
                field signature (value_or_null m.signature)
                  (field edns (value_or_null m.edns) close)))))))

  -- `dns_response_to_bytes`, with the serializer of values
  unfoldable pub dns_response_to_bytes :
      {Bytes : Type 0} → (Value J → Option Bytes) → Message J → PyResult Bytes
  unfolding message_to_extended_value
  dns_response_to_bytes to_vec m = serialized (to_vec (message_to_extended_value m))
