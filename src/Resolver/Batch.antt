-- ===== src/Resolver/Batch.antt =====
-- What a batch (src/resolver.rs) delivers.
use blastdns.Prelude.{
  inl, inr, ◌≡◌, ◌∙◌, suc, refl, ap, true, false, List, [], ◌∷◌, map, is_empty, if◌then◌else◌,
  length, Bool-cases,
}
use blastdns.Dns.{Dns}
use blastdns.Error.{Result, ok, err}
use blastdns.Net.{Text}
use blastdns.Resolver.{rdata, resolve_batch_full, resolve_batch}

module _ (dns : Dns) (data_to_string : dns.Record → Text) where
  open dns use {Response, RecordType}

  -- The hosts of a batch that were answered, with their answers.
  abbrev pub answered : Text → List (Text × Result Response) → List (Text × Text × List Text)
  answered record_type [] = []
  answered record_type ((host, err e) ∷ done) = answered record_type done
  answered record_type ((host, ok r) ∷ done) =
      if is_empty (dns.answers r)
      then answered record_type done
      else (host, record_type, rdata dns data_to_string r) ∷ answered record_type done

  map_empty : (xs : List dns.Record) → is_empty (map data_to_string xs) ≡ is_empty xs
  map_empty [] = refl
  map_empty (x ∷ xs) = refl

  -- A batch delivers exactly the hosts that were answered with at least one record, in the order in
  -- which they were, each with all its answers; and it delivers an item for every item of the full
  -- batch that skips empty responses and errors.
  pub resolve_batch_lem :
      (record_type : Text) (done : List (Text × Result Response))
      → (resolve_batch dns data_to_string record_type done ≡ answered record_type done)
        × (length (resolve_batch dns data_to_string record_type done)
            ≡ length (resolve_batch_full dns data_to_string true true done))
  unfolding resolve_batch
  resolve_batch_lem record_type [] = (refl, refl)
  resolve_batch_lem record_type ((host, err e) ∷ done) = resolve_batch_lem record_type done
  resolve_batch_lem record_type ((host, ok r) ∷ done) =
      let (same, as_long) = resolve_batch_lem record_type done in
      elim (Bool-cases (is_empty (dns.answers r))) [
        | inl e ↦ rw e (same, as_long)
        | inr e ↦
            let q : is_empty (rdata dns data_to_string r) ≡ false = map_empty (dns.answers r) ∙ e in
            rw (e, q)
              (
                ap (λ rest. (host, record_type, rdata dns data_to_string r) ∷ rest) same,
                ap suc as_long,
              )
      ]
