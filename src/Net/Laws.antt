-- ===== src/Net/Laws.antt =====
-- What watchpost/checks/net.py promises of certificates and of DNS answers.
use ip_montior.Base.{
  suc, length, ap, String, true, false, ◌||◌, if◌then◌else◌, List, [], ◌∷◌, Option, none, some,
  str_eq, ℤ, pos, ◌≤ℤ◌, leb_ℤ, map, ◌<>◌, contains, All, done, ◌≡◌, ◌↔◌, ◌⊎◌, inl, inr, refl, arith,
  Bool-cases, Option-cases, ◌∙◌,
}
use ip_montior.Check.{Result, CheckResult, Thresholds, passed, failed, finish_run, crossed}
use ip_montior.Check.Laws.{verdict, worse, apply_thresholds-worse}
use ip_montior.Config.Kinds.{DnsMonitor}
use ip_montior.Net.{
  Handshake, tls_cert, tls_thresholds, dns, sorted, sort_in, undotted, missing, unless_missing,
  timed,
}
use ip_montior.Snmp.Modes.{round_ℤ, times}

worse_fail : (r : Result) → worse Result.fail r ≡ Result.fail
worse_fail r = ground arith

worse_ok : (r : Result) → worse Result.ok r ≡ r
worse_ok r = ground arith

module _ (fmt text : ℤ → String) (elapsed left : ℤ) where
  abbrev pub run_of : Option Thresholds → CheckResult
  run_of th = finish_run fmt (tls_cert text (Handshake.presented left)) elapsed (tls_thresholds th)

  abbrev pub days_of : ℤ
  days_of = round_ℤ (times left 100) 86400000000

  finish_run-worse :
      (res : CheckResult) (th : Option Thresholds)
      → (finish_run fmt res elapsed th).result ≡ worse res.result (verdict res.value th)
  unfolding finish_run
  finish_run-worse res th = elim (Option-cases res.latency_ms) [
    | inl unmeasured ↦
        rw unmeasured (apply_thresholds-worse fmt (record res { latency_ms = some elapsed }) th).0
    | inr (ms, measured) ↦
        rw measured (apply_thresholds-worse fmt (record res { latency_ms = some ms }) th).0
  ]

  graded :
      (th : Option Thresholds)
      → (run_of th).result
        ≡ (if leb_ℤ left (pos 0) then Result.fail else verdict (some days_of) (tls_thresholds th))
  unfolding tls_cert passed
  graded th =
      finish_run-worse (tls_cert text (Handshake.presented left)) (tls_thresholds th)
      ∙ elim (Bool-cases (leb_ℤ left (pos 0))) [
        | inl expired ↦ rw expired (worse_fail (verdict (some days_of) (tls_thresholds th)))
        | inr valid ↦ rw valid (worse_ok (verdict (some days_of) (tls_thresholds th)))
      ]

  -- A certificate that has expired fails the check whatever the thresholds; of one that has not, the
  -- thresholds judge the days, rounded to hundredths of a day. With none configured the check fails
  -- exactly for an expired certificate or one with at most 7 days left, and passes exactly for one with
  -- more than 21.
  pub tls_cert_lem :
      (th : Option Thresholds)
      → ((run_of th).result ≡ (
          if leb_ℤ left (pos 0) then Result.fail else verdict (some days_of) (tls_thresholds th)))
        × (((run_of none).result ≡ Result.fail) ↔ ((left ≤ℤ pos 0) ⊎ (days_of ≤ℤ pos 700)))
        × (((run_of none).result ≡ Result.ok)
            ↔ ((leb_ℤ left (pos 0) ≡ false) × (leb_ℤ days_of (pos 2100) ≡ false)))
  unfolding tls_cert tls_thresholds crossed passed
  tls_cert_lem th = (graded th, ground (arith, graded none), ground (arith, graded none))

module _ (lacks : List String → List String → String) (text : List String → String) (m : DnsMonitor)
    (ms : ℤ) where
  contains-sort_in :
      (s x : String) (ss : List String) → contains s (sort_in x ss) ≡ (str_eq x s || contains s ss)
  contains-sort_in s x [] = refl
  contains-sort_in s x (t ∷ ss) = let rest = contains-sort_in s x ss in ground (arith, rest)

  contains-sorted : (s : String) (ss : List String) → contains s (sorted ss) ≡ contains s ss
  unfolding sorted
  contains-sorted s [] = refl
  contains-sorted s (x ∷ ss) = rw (contains-sort_in s x (sorted ss), contains-sorted s ss) refl

  missing-All :
      (expect got names : List String)
      → ((s : String) → contains s got ≡ contains s names)
      → (missing expect got ≡ []) ↔ All (λ e. contains (undotted e) names ≡ true) expect
  unfolding missing
  missing-All [] got names same = (λ _. tt, λ _. refl)
  missing-All (e ∷ es) got names same =
      let rest = missing-All es got names same in
      let here = same (undotted e) in
      elim (Bool-cases (contains (undotted e) got)) [
        | inl there ↦ ground (arith, there, here, rest)
        | inr absent ↦ ground (arith, absent, here)
      ]

  unless_missing_lem :
      (tell : List String → String) (res : CheckResult) (names : List String)
      → res.result ≡ Result.ok
      → ((unless_missing tell ms res names).result ≡ Result.ok) ↔ (names ≡ [])
  unfolding unless_missing failed
  unless_missing_lem tell res [] fine = (λ _. refl, λ _. fine)
  unless_missing_lem tell res (e ∷ es) fine = ground (arith, fine)

  ok_missing :
      (answer expect : List String)
      → m.expect ≡ some expect
      → ((dns lacks text m ms (done answer)).result ≡ Result.ok)
        ↔ (missing expect (sorted (map undotted answer)) ≡ [])
  unfolding dns passed failed
  ok_missing answer expect asked =
      let got = sorted (map undotted answer) in
      rw asked (
        unless_missing_lem (lacks got)
          (timed ms (passed (m.dns_record <> " " <> text got) (some ms) " ms")) (missing expect got)
          refl)

  -- With names to expect, an answered query passes exactly when each of them is among the answers, the
  -- dots at the end aside and in whatever order the answers come.
  pub dns_lem :
      (answer expect : List String)
      → m.expect ≡ some expect
      → ((dns lacks text m ms (done answer)).result ≡ Result.ok)
        ↔ All (λ e. contains (undotted e) (map undotted answer) ≡ true) expect
  dns_lem answer expect asked =
      let (to, from) = ok_missing answer expect asked in
      let (all, none_missing) =
        missing-All expect (sorted (map undotted answer)) (map undotted answer)
          (λ s. contains-sorted s (map undotted answer)) in
      (λ h. all (to h), λ h. from (none_missing h))

length-sort_in : (s : String) (ss : List String) → length (sort_in s ss) ≡ suc (length ss)
length-sort_in s [] = refl
length-sort_in s (t ∷ ts) = let rest = length-sort_in s ts in ground (arith, rest)

pub length-sorted : (ss : List String) → length (sorted ss) ≡ length ss
unfolding sorted
length-sorted [] = refl
length-sorted (s ∷ ss) = length-sort_in s (sorted ss) ∙ ap suc (length-sorted ss)
