-- ===== src/Tests/Web.antt =====
-- A label with every special character, a request with the right pair, and two exit codes.
use ip_montior.Base.{
  String, true, false, Option, none, some, ◌≡◌, ◌↔◌, ◌⊎◌, refl, str_eq, truthy, lower, cut_first,
  if◌then◌else◌,
}
use ip_montior.Check.{Result, CheckResult}
use ip_montior.Config.Types.{Monitor}
use ip_montior.Scheduler.{enabled_monitors}
use ip_montior.Web.{label, auth}
use ip_montior.Web.Access.{Presents, auth_lem}
use ip_montior.Cli.{once}
use ip_montior.Tests.Sample.{lab, answer}

escaped : label "a\"b\\c\n" ≡ "a\\\"b\\\\c\\n"
unfolding label
escaped = refl

abbrev decode : String → Option String
decode s = if str_eq s "Zm9vOmJhcg==" then some "foo:bar" else none

let_in : auth decode (some "foo") (some "bar") (some "Basic Zm9vOmJhcg==") ≡ true
unfolding auth lower cut_first
let_in = refl

auth_lem_example :
    ((truthy "foo" ≡ true)
      × ((auth decode (some "foo") (some "bar") (some "Basic Zm9vOmJhcg==") ≡ true)
          ↔ Presents decode (some "Basic Zm9vOmJhcg==") "foo" "bar"))
    ⊎ ((truthy "foo" ≡ false)
        × (auth decode (some "foo") (some "bar") (some "Basic Zm9vOmJhcg==") ≡ true)
        × (auth decode none (some "bar") (some "Basic Zm9vOmJhcg==") ≡ true))
auth_lem_example = auth_lem decode "foo" "bar" (some "Basic Zm9vOmJhcg==")

abbrev polled : Monitor → CheckResult
polled m = if str_eq m.slug "probe" then answer Result.warn else answer Result.ok

warned : once lab polled none ≡ 1
unfolding once enabled_monitors
warned = refl
