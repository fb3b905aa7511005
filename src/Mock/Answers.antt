-- ===== src/Mock/Answers.antt =====
-- What the mock client of src/mock.rs answers, over a whole table.
use blastdns.Prelude.{Bool, ◌||◌}
use blastdns.Mock.{Backend, MockBlastDnsClient, contains, any_match}
use blastdns.Net.{Text}

module _ (b : Backend) where
  open b use {Regex, RecordType, Name, RData}

  -- The client says NXDOMAIN of the host.
  abbrev pub denies : MockBlastDnsClient b → Text → Bool
  denies c host = contains b c.nxdomain_hosts host || any_match b c.nxdomain_patterns host
