-- ===== src/Mock/Table.antt =====
-- What the mock client of src/mock.rs answers, read off the table that `mock_dns` was given.
use blastdns.Prelude.{
  Bool, true, false, ◌≡◌, refl, sym, ap, ◌∙◌, ◌++◌, ◌&&◌, ◌||◌, Option, none, some, List, [], ◌∷◌,
  if◌then◌else◌, arith,
}
use blastdns.Mock.{
  Backend, Responses, MockBlastDnsClient, Records, regex_prefix, insert_record, insert_exact,
  record_map, insert_all, push_pattern, add_to, get_in, first_match,
}
use blastdns.Mock.Maps.{
  Map, get, entry_insert, IsEquality, get-insert, text_eq-IsEquality, first_some, first_some_assoc,
  first_some-none,
}
use blastdns.Net.{Text}
use blastdns.Strings.{strip_prefix, text_eq}

module _ (b : Backend) where
  open b use {Regex, RecordType, Name, RData}

  abbrev pub type_is : RecordType → Option RecordType → Bool
  type_is t none = false
  type_is t (some u) = b.type_eq u t

  -- The answers under the last key that names the type.
  abbrev pub answers_of : RecordType → List (Text × List Text) → Option (List Text)
  answers_of t [] = none
  answers_of t ((s, answers) ∷ records) =
      first_some (answers_of t records) (if type_is t (b.type_of_str s) then some answers else none)

  -- The host is a pattern's text, and the pattern fits.
  abbrev pub fits : Option Text → Text → Bool
  fits none host = false
  fits (some pattern) host = elim (b.compile pattern) [
    | none ↦ false
    | some regex ↦ b.is_match regex host
  ]

  abbrev pub is_literal : Option Text → Bool
  is_literal none = true
  is_literal (some pattern) = false

  -- Of the entries for exactly this host, the last that has the type.
  abbrev pub exact_answers : Text → RecordType → Responses → Option (List Text)
  exact_answers host t [] = none
  exact_answers host t ((h, records) ∷ rest) = first_some (exact_answers host t rest) (
      if is_literal (strip_prefix regex_prefix h) && text_eq h host
      then answers_of t records
      else none)

  -- Of the entries with a pattern that fits, the first that has the type.
  abbrev pub pattern_answers : Text → RecordType → Responses → Option (List Text)
  pattern_answers host t [] = none
  pattern_answers host t ((h, records) ∷ rest) =
      first_some (if fits (strip_prefix regex_prefix h) host then answers_of t records else none)
        (pattern_answers host t rest)

  -- The host is listed, or a pattern that is listed fits.
  abbrev pub is_denied : Text → List Text → Bool
  is_denied host [] = false
  is_denied host (h ∷ rest) =
      (is_literal (strip_prefix regex_prefix h) && text_eq h host)
      || fits (strip_prefix regex_prefix h) host
      || is_denied host rest

  module _ (law : IsEquality b.type_eq) where
    get-insert_record :
        (t : RecordType) (o : Option RecordType) (answers : List Text) (m : Records b)
        → get b.type_eq t (insert_record b o answers m)
          ≡ first_some (if type_is t o then some answers else none) (get b.type_eq t m)
    get-insert_record t none answers m = refl
    get-insert_record t (some u) answers m = get-insert b.type_eq law t u answers m ∙ ground arith

    get-record_map :
        (t : RecordType) (records : List (Text × List Text)) (m : Records b)
        → get b.type_eq t (record_map b records m)
          ≡ first_some (answers_of t records) (get b.type_eq t m)
    get-record_map t [] m = refl
    get-record_map t ((s, answers) ∷ records) m =
        get-record_map t records (insert_record b (b.type_of_str s) answers m)
        ∙ ap (first_some (answers_of t records)) (get-insert_record t (b.type_of_str s) answers m)
        ∙ first_some_assoc (answers_of t records)
            (if type_is t (b.type_of_str s) then some answers else none) (get b.type_eq t m)

    get-entry_insert :
        (host h : Text) (t u : RecordType) (answers : List Text) (m : Map Text (Records b))
        → get_in b (get text_eq host (entry_insert text_eq b.type_eq h u answers m)) t ≡ (
            if text_eq h host && b.type_eq u t
            then some answers
            else get_in b (get text_eq host m) t)
    get-entry_insert host h t u answers [] = ground arith
    get-entry_insert host h t u answers ((j, n) ∷ m) = ground (
      arith,
      get-insert b.type_eq law t u answers n,
      text_eq-IsEquality j h,
      text_eq-IsEquality j host,
      text_eq-IsEquality h host,
      get-entry_insert host h t u answers m,
    )

    get-insert_exact :
        (host h : Text) (t : RecordType) (o : Option RecordType) (answers : List Text)
        (m : Map Text (Records b))
        → get_in b (get text_eq host (insert_exact b h o answers m)) t
          ≡ first_some
              (if text_eq h host then (if type_is t o then some answers else none) else none)
              (get_in b (get text_eq host m) t)
    get-insert_exact host h t none answers m = ground arith
    get-insert_exact host h t (some u) answers m =
        get-entry_insert host h t u answers m ∙ ground arith

    get-insert_all :
        (host h : Text) (t : RecordType) (records : List (Text × List Text))
        (m : Map Text (Records b))
        → get_in b (get text_eq host (insert_all b h records m)) t
          ≡ first_some
              (if text_eq h host then answers_of t records else none)
              (get_in b (get text_eq host m) t)
    get-insert_all host h t [] m = ground arith
    get-insert_all host h t ((s, answers) ∷ records) m =
        get-insert_all host h t records (insert_exact b h (b.type_of_str s) answers m)
        ∙ ap (first_some (if text_eq h host then answers_of t records else none))
            (get-insert_exact host h t (b.type_of_str s) answers m)
        ∙ first_some_assoc (if text_eq h host then answers_of t records else none)
            (if text_eq h host
              then (if type_is t (b.type_of_str s) then some answers else none)
              else none)
            (get_in b (get text_eq host m) t)
        ∙ ap (λ o. first_some o (get_in b (get text_eq host m) t)) (ground arith)

    first_match-append :
        (host : Text) (t : RecordType) (ps : List (Regex × Records b)) (p : Regex × Records b)
        → first_match b (ps ++ p ∷ []) host t
          ≡ first_some
              (first_match b ps host t)
              (if b.is_match p.0 host then get b.type_eq t p.1 else none)
    first_match-append host t [] p = first_some-none _
    first_match-append host t ((r, m) ∷ ps) p =
        ap (first_some (if b.is_match r host then get b.type_eq t m else none))
          (first_match-append host t ps p)
        ∙ first_some_assoc (if b.is_match r host then get b.type_eq t m else none)
            (first_match b ps host t) (if b.is_match p.0 host then get b.type_eq t p.1 else none)

    -- What one entry of the table adds.
    pub record IsAdded (o : Option Text) (h : Text) (records : List (Text × List Text))
        (c c' : MockBlastDnsClient b) : Type 0 where
      pub data_of :
          (host : Text) (t : RecordType)
          → get_in b (get text_eq host c'.mock_data) t
            ≡ first_some
                (if is_literal o && text_eq h host then answers_of t records else none)
                (get_in b (get text_eq host c.mock_data) t)
      pub patterns_of :
          (host : Text) (t : RecordType)
          → first_match b c'.regex_patterns host t
            ≡ first_some
                (first_match b c.regex_patterns host t)
                (if fits o host then answers_of t records else none)
      pub hosts_of : c'.nxdomain_hosts ≡ c.nxdomain_hosts
      pub denied_of : c'.nxdomain_patterns ≡ c.nxdomain_patterns

    push_pattern-first_match :
        (r : Option Regex) (records : List (Text × List Text)) (c : MockBlastDnsClient b)
        (host : Text) (t : RecordType)
        → first_match b (push_pattern b r records c).regex_patterns host t
          ≡ first_some (first_match b c.regex_patterns host t) (
              if elim r [ none ↦ false | some regex ↦ b.is_match regex host ]
              then answers_of t records
              else none)
    push_pattern-first_match none records c host t = sym (first_some-none _)
    push_pattern-first_match (some r) records c host t =
        first_match-append host t c.regex_patterns (r, record_map b records [])
        ∙ rw (get-record_map t records [], first_some-none (answers_of t records)) refl

    push_pattern_keeps :
        (r : Option Regex) (records : List (Text × List Text)) (c : MockBlastDnsClient b)
        → ((push_pattern b r records c).mock_data ≡ c.mock_data)
          × ((push_pattern b r records c).nxdomain_hosts ≡ c.nxdomain_hosts)
          × ((push_pattern b r records c).nxdomain_patterns ≡ c.nxdomain_patterns)
    push_pattern_keeps none records c = (refl, refl, refl)
    push_pattern_keeps (some r) records c = (refl, refl, refl)

    pub add_to-IsAdded :
        (o : Option Text) (h : Text) (records : List (Text × List Text)) (c : MockBlastDnsClient b)
        → IsAdded o h records c (add_to b o h records c)
    add_to-IsAdded none h records c = record {
      data_of = λ host t. get-insert_all host h t records c.mock_data;
      patterns_of = λ host t. sym (first_some-none _);
      hosts_of = refl;
      denied_of = refl;
    }
    add_to-IsAdded (some pattern) h records c =
        let kept = push_pattern_keeps (b.compile pattern) records c in
        record {
          data_of = λ host t. ap (λ m. get_in b (get text_eq host m) t) kept.0;
          patterns_of = λ host t. push_pattern-first_match (b.compile pattern) records c host t;
          hosts_of = kept.1;
          denied_of = kept.2;
        }
