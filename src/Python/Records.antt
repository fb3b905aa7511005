-- ===== src/Python/Records.antt =====
-- The hosts that a record points to, as src/python.rs reports them. Addresses and names are the
-- texts that hickory prints for them.
use blastdns.Prelude.{List, [], ◌∷◌, ◌==◌}
use blastdns.Net.{Text}
use blastdns.Strings.{trim_end_matches, to_ascii_lowercase}

pub data RData : Type 0 where
  a : Text → RData
  aaaa : Text → RData
  cname : Text → RData
  ns : Text → RData
  ptr : Text → RData
  aname : Text → RData
  -- the exchange
  mx : Text → RData
  -- the target
  srv : Text → RData
  -- the primary server
  soa : Text → RData
  -- the replacement
  naptr : Text → RData
  other : RData

abbrev pub normalize : Text → Text
normalize n = to_ascii_lowercase (trim_end_matches (λ c. c == 46) n)

-- `rdtype` is the name of the record's type.
unfoldable pub targets_for_rdata : Text → RData → List (Text × Text)
targets_for_rdata rdtype (a addr) = (rdtype, addr) ∷ []
targets_for_rdata rdtype (aaaa addr) = (rdtype, addr) ∷ []
targets_for_rdata rdtype (cname n) = (rdtype, normalize n) ∷ []
targets_for_rdata rdtype (ns n) = (rdtype, normalize n) ∷ []
targets_for_rdata rdtype (ptr n) = (rdtype, normalize n) ∷ []
targets_for_rdata rdtype (aname n) = (rdtype, normalize n) ∷ []
targets_for_rdata rdtype (mx n) = (rdtype, normalize n) ∷ []
targets_for_rdata rdtype (srv n) = (rdtype, normalize n) ∷ []
targets_for_rdata rdtype (soa n) = (rdtype, normalize n) ∷ []
targets_for_rdata rdtype (naptr n) = (rdtype, normalize n) ∷ []
targets_for_rdata rdtype other = []
