-- ===== src/Snmp/Secrets.antt =====
-- watchpost/checks/snmp.py: what the redaction of `SnmpCheck._run` leaves of a text.
use Prim.Native.Char.{Char}
use ip_montior.Snmp.{redact, outcome, Exit, SnmpError, last_or}
use ip_montior.Base.{ℤ, ◌≢◌, raised}
use ip_montior.Base.{
  [], ◌∷◌, ◌∷◌, All, List, zero, suc, replace, suc, occurs, inr, inl, ℕ, String, Bool, true, false,
  not, ◌≡◌, refl, subst, ap, ◌∙◌, arith, begins, characters, scan, ◌-◌, Bool-cases, has_char, ◌<>◌,
}
use text.Mathlib.TextLemmas.{cons-append, nil-append}

-- Not empty, and without the character that the redaction writes
abbrev pub is_plain : String → Bool
is_plain String.[] = false
is_plain (String.◌∷◌ c s) = not (has_char b'*' (String.◌∷◌ c s))

abbrev Starless : String → Type 0
Starless s = has_char b'*' s ≡ false

stars : (s : String) → "***" <> s ≡ String.◌∷◌ "*" (String.◌∷◌ "*" (String.◌∷◌ "*" s))
stars s =
    cons-append "*" "**" s
    ∙ ap (String.◌∷◌ "*") (
        cons-append "*" "*" s
        ∙ ap (String.◌∷◌ "*") (cons-append "*" "" s ∙ ap (String.◌∷◌ "*") (nil-append s)))

-- No text without stars begins at a star.
begins_star : (p s : String) → is_plain p ≡ true → begins p (String.◌∷◌ "*" s) ≡ false
unfolding begins has_char
begins_star String.[] s plain = absurd (ground (arith, plain))
begins_star (String.◌∷◌ c p) s plain = ground (arith, plain)

occurs_star :
    (p s : String) → is_plain p ≡ true → occurs p s ≡ false → occurs p (String.◌∷◌ "*" s) ≡ false
unfolding occurs
occurs_star p s plain h = rw (begins_star p s plain) h

occurs_stars :
    (p s : String) → is_plain p ≡ true → occurs p s ≡ false → occurs p ("***" <> s) ≡ false
occurs_stars p s plain h =
    rw (stars s) (occurs_star p _ plain (occurs_star p _ plain (occurs_star p s plain h)))

scan-found :
    (old s : String) (d : Char)
    → begins old (String.◌∷◌ d s) ≡ true
    → (k : ℕ) × (scan old "***" 0 (String.◌∷◌ d s) ≡ "***" <> scan old "***" k s)
unfolding scan
scan-found old s d found = (characters old - 1, rw found refl)

scan-other :
    (old s : String) (d : Char)
    → begins old (String.◌∷◌ d s) ≡ false
    → scan old "***" 0 (String.◌∷◌ d s) ≡ String.◌∷◌ d (scan old "***" 0 s)
unfolding scan
scan-other old s d other = rw other refl

-- What a scan begins with, of a text without stars, the scanned text began with.
begins-scan :
    (p old s : String) → Starless p → begins p (scan old "***" 0 s) ≡ true → begins p s ≡ true
unfolding begins scan has_char
begins-scan String.[] old s plain h = refl
begins-scan (String.◌∷◌ c p) old String.[] plain h = ground (arith, h)
begins-scan (String.◌∷◌ c p) old (String.◌∷◌ d s) plain h =
    elim (Bool-cases (begins old (String.◌∷◌ d s))) [
      | inl found ↦
          let (k, at) = scan-found old s d found in
          let none_there : begins (String.◌∷◌ c p) ("***" <> scan old "***" k s) ≡ false =
            rw (stars (scan old "***" k s))
              (begins_star (String.◌∷◌ c p) _ (ground (arith, plain))) in
          absurd (ground (arith, at, h, none_there))
      | inr other ↦
          let rest = begins-scan p old s in ground (arith, scan-other old s d other, h, plain, rest)
    ]

plain-Starless : (p : String) → is_plain p ≡ true → Starless p
plain-Starless String.[] plain = absurd (ground (arith, plain))
plain-Starless (String.◌∷◌ c p) plain = ground (arith, plain)

-- A scan does not put a text without stars where it was not.
begins-scan-false :
    (p old s : String)
    → is_plain p ≡ true
    → begins p s ≡ false
    → begins p (scan old "***" 0 s) ≡ false
begins-scan-false p old s plain h = elim (Bool-cases (begins p (scan old "***" 0 s))) [
  | inl there ↦ absurd (ground (arith, begins-scan p old s (plain-Starless p plain) there, h))
  | inr absent ↦ absent
]

occurs-cons :
    (p s : String) (c : Char)
    → begins p (String.◌∷◌ c s) ≡ false
    → occurs p s ≡ false
    → occurs p (String.◌∷◌ c s) ≡ false
unfolding occurs
occurs-cons p s c head tail = rw head tail

occurs-split :
    (p s : String) (c : Char)
    → occurs p (String.◌∷◌ c s) ≡ false
    → (begins p (String.◌∷◌ c s) ≡ false) × (occurs p s ≡ false)
unfolding occurs
occurs-split p s c h = ground (arith, h)

plain_empty : (p : String) → is_plain p ≡ true → occurs p "" ≡ false
unfolding occurs begins
plain_empty String.[] plain = absurd (ground (arith, plain))
plain_empty (String.◌∷◌ c p) plain = refl

-- A scan brings up no text without stars that was not there before.
occurs-scan :
    (p old s : String) (n : ℕ)
    → is_plain p ≡ true
    → occurs p s ≡ false
    → occurs p (scan old "***" n s) ≡ false
unfolding scan
occurs-scan p old String.[] n plain h = h
occurs-scan p old (String.◌∷◌ d s) (suc n) plain h =
    occurs-scan p old s n plain (occurs-split p s d h).1
occurs-scan p old (String.◌∷◌ d s) zero plain h =
    let tail = (occurs-split p s d h).1 in
    elim (Bool-cases (begins old (String.◌∷◌ d s))) [
      | inl found ↦ rw found (occurs_stars p _ plain (occurs-scan p old s _ plain tail))
      | inr other ↦ rw other (
          occurs-cons p _ d
            (subst (λ x. begins p x ≡ false) (scan-other old s d other)
              (begins-scan-false p old (String.◌∷◌ d s) plain (occurs-split p s d h).0))
            (occurs-scan p old s 0 plain tail))
    ]

-- A scan for a text without stars leaves none of it.
occurs-scan_self :
    (old s : String) (n : ℕ) → is_plain old ≡ true → occurs old (scan old "***" n s) ≡ false
unfolding scan
occurs-scan_self old String.[] n plain = plain_empty old plain
occurs-scan_self old (String.◌∷◌ d s) (suc n) plain = occurs-scan_self old s n plain
occurs-scan_self old (String.◌∷◌ d s) zero plain = elim (Bool-cases (begins old (String.◌∷◌ d s))) [
  | inl found ↦ rw found (occurs_stars old _ plain (occurs-scan_self old s _ plain))
  | inr other ↦ rw other (
      occurs-cons old _ d
        (subst (λ x. begins old x ≡ false) (scan-other old s d other)
          (begins-scan-false old old (String.◌∷◌ d s) plain other))
        (occurs-scan_self old s 0 plain))
]

replace-scan : (old s : String) → is_plain old ≡ true → replace old "***" s ≡ scan old "***" 0 s
unfolding replace
replace-scan String.[] s plain = absurd (ground (arith, plain))
replace-scan (String.◌∷◌ c old) s plain = refl

-- Redaction brings up no text without stars either.
occurs-redact :
    (p : String) (secrets : List String) (reason : String)
    → is_plain p ≡ true
    → All (λ s. is_plain s ≡ true) secrets
    → occurs p reason ≡ false
    → occurs p (redact secrets reason) ≡ false
unfolding redact
occurs-redact p [] reason plain all h = h
occurs-redact p (s ∷ secrets) reason plain all h =
    occurs-redact p secrets _ plain all.1
      (rw (replace-scan s reason all.0) (occurs-scan p s reason 0 plain h))

-- With secrets that are not empty and have no star, none of them is left of a redacted text.
pub redact_hides :
    (secrets : List String) (reason : String)
    → All (λ s. is_plain s ≡ true) secrets
    → All (λ s. occurs s (redact secrets reason) ≡ false) secrets
unfolding redact
redact_hides [] reason all = tt
redact_hides (s ∷ secrets) reason all = (
  occurs-redact s secrets _ all.0 all.1
      (rw (replace-scan s reason all.0) (occurs-scan_self s reason 0 all.0)),
  redact_hides secrets _ all.1,
)

pub outcome_hides :
    (str : ℤ → String) (secrets : List String) (tool : String) (exit : Exit) (text : String)
    → All (λ s. is_plain s ≡ true) secrets
    → exit ≢ Exit.hung
    → outcome str secrets tool exit ≡ raised (SnmpError.snmp text)
    → All (λ s. occurs s text ≡ false) secrets
unfolding outcome
outcome_hides str secrets tool Exit.hung text plain ended h = absurd (ended refl)
outcome_hides str secrets tool (Exit.exited rc out err) text plain ended h =
    let shown = redact secrets (last_or (tool <> " exited " <> str rc) err) in
    let same : shown ≡ text = ground (arith, h) in
    subst (λ x. All (λ s. occurs s x ≡ false) secrets) same
      (redact_hides secrets (last_or (tool <> " exited " <> str rc) err) plain)
