-- ===== src/Tests/Net.antt =====
-- A certificate with thirty days left, and a query that expects one of two addresses.
use ip_montior.Base.{String, List, [], ◌∷◌, none, some, ℤ, pos}
use ip_montior.Config.Kinds.{DnsMonitor}

abbrev printed : ℤ → String
printed n = "n"

abbrev month : ℤ
month = pos 2592000000000

abbrev lacks : List String → List String → String
lacks got names = "missing"

abbrev joined : List String → String
joined names = "names"

abbrev query : DnsMonitor
query = record {
  query = "nas.lan";
  dns_record = "A";
  nameserver = none;
  expect = some ("10.0.0.2." ∷ []);
}
