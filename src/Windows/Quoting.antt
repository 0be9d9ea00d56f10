-- ===== src/Windows/Quoting.antt =====
-- What PowerShell reads of a text that `ps_quote` of watchpost/checks/windows.py wrote.
use Prim.Native.Char.{Char, code}
use text.Mathlib.TextEquality.{Char-path}
use text.Mathlib.TextLemmas.{cons-append, nil-append, append_assoc}
use ip_montior.Base.{
  String, Bool, true, false, ◌&&◌, ◌||◌, not, if◌then◌else◌, Option, none, some, leb, ◌==◌, ◌<>◌,
  scan, begins, inl, inr, ◌≡◌, refl, arith, ap, ◌∙◌, Bool-cases,
}
use ip_montior.Windows.{ps_quote}

-- The characters that PowerShell takes for a single quotation mark: the typographic ones too.
abbrev pub is_smart : Char → Bool
is_smart c = leb 8216 (code c) && leb (code c) 8219

abbrev is_quote : Char → Bool
is_quote c = (code c == 39) || is_smart c

abbrev push : Char → Option (String × String) → Option (String × String)
push c none = none
push c (some (s, rest)) = some (String.◌∷◌ c s, rest)

-- The rest of a literal: its text and what follows it. Of two quotation marks the first is part of the
-- text, and one alone ends it; `none` when nothing ends it.
unfoldable pub read_literal : Option Char → String → Option (String × String)
read_literal none String.[] = none
read_literal none (String.◌∷◌ c s) =
    let quoted = read_literal (some c) s in
    let plain = read_literal none s in if is_quote c then quoted else push c plain
read_literal (some q) String.[] = some ("", "")
read_literal (some q) (String.◌∷◌ c s) =
    let more = read_literal none s in if is_quote c then push q more else some ("", String.◌∷◌ c s)

-- No typographic quotation mark
unfoldable pub is_straight : String → Bool
is_straight String.[] = true
is_straight (String.◌∷◌ c s) = not (is_smart c) && is_straight s

abbrev pub starts_quoted : String → Bool
starts_quoted String.[] = false
starts_quoted (String.◌∷◌ c s) = is_quote c

closing :
    (rest : String)
    → starts_quoted rest ≡ false
    → read_literal none (String.◌∷◌ "'" rest) ≡ some ("", rest)
unfolding read_literal
closing String.[] h = refl
closing (String.◌∷◌ c s) h = ground (arith, h)

mark_is : (c : Char) → (code c == 39) ≡ true → "'" ≡ c
mark_is c h = Char-path "'" c (ground (arith, h))

found : (c : Char) (s : String) → begins "'" (String.◌∷◌ c s) ≡ (39 == code c)
unfolding begins
found c s = ground arith

doubled :
    (c : Char) (s : String)
    → (39 == code c) ≡ true
    → scan "'" "''" 0 (String.◌∷◌ c s) ≡ String.◌∷◌ "'" (String.◌∷◌ "'" (scan "'" "''" 0 s))
unfolding scan
doubled c s h =
    rw (found c s, h)
      (cons-append "'" "'" (scan "'" "''" 0 s)
        ∙ ap (String.◌∷◌ "'") (
            cons-append "'" "" (scan "'" "''" 0 s)
            ∙ ap (String.◌∷◌ "'") (nil-append (scan "'" "''" 0 s))))

kept :
    (c : Char) (s : String)
    → (39 == code c) ≡ false
    → scan "'" "''" 0 (String.◌∷◌ c s) ≡ String.◌∷◌ c (scan "'" "''" 0 s)
unfolding scan
kept c s h = rw (found c s, h) refl

one_mark : (rest : String) → "'" <> rest ≡ String.◌∷◌ "'" rest
one_mark rest = cons-append "'" "" rest ∙ ap (String.◌∷◌ "'") (nil-append rest)

scan_end : scan "'" "''" 0 "" ≡ ""
unfolding scan
scan_end = refl

read_pair :
    (x rest s : String)
    → read_literal none x ≡ some (s, rest)
    → read_literal none (String.◌∷◌ "'" (String.◌∷◌ "'" x)) ≡ some (String.◌∷◌ "'" s, rest)
unfolding read_literal
read_pair x rest s h = ap (push "'") h

read_plain :
    (c : Char) (x rest s : String)
    → is_quote c ≡ false
    → read_literal none x ≡ some (s, rest)
    → read_literal none (String.◌∷◌ c x) ≡ some (String.◌∷◌ c s, rest)
unfolding read_literal
read_plain c x rest s plain h = rw plain (ap (push c) h)

read_literal-scan :
    (s rest : String)
    → is_straight s ≡ true
    → starts_quoted rest ≡ false
    → read_literal none (scan "'" "''" 0 s <> String.◌∷◌ "'" rest) ≡ some (s, rest)
unfolding is_straight
read_literal-scan String.[] rest straight h =
    ap (λ x. read_literal none (x <> String.◌∷◌ "'" rest)) scan_end
    ∙ ap (read_literal none) (nil-append (String.◌∷◌ "'" rest))
    ∙ closing rest h
read_literal-scan (String.◌∷◌ c s) rest straight h =
    let end = String.◌∷◌ "'" rest in
    let quoted = scan "'" "''" 0 s in
    let tail = read_literal-scan s rest (ground (arith, straight)) h in
    elim (Bool-cases (39 == code c)) [
      | inl mark ↦
          ap (λ x. read_literal none (x <> end)) (doubled c s mark)
          ∙ ap (read_literal none) (
              cons-append "'" (String.◌∷◌ "'" quoted) end
              ∙ ap (String.◌∷◌ "'") (cons-append "'" quoted end))
          ∙ read_pair (quoted <> end) rest s tail
          ∙ ap (λ d. some (String.◌∷◌ d s, rest)) (mark_is c (ground (arith, mark)))
      | inr other ↦
          ap (λ x. read_literal none (x <> end)) (kept c s other)
          ∙ ap (read_literal none) (cons-append c quoted end)
          ∙ read_plain c (quoted <> end) rest s (ground (arith, other, straight)) tail
    ]

-- After the opening mark of a quoted text without typographic marks, PowerShell reads the text itself,
-- and the literal ends where the quoting ends, whatever follows it but another mark.
pub read_literal-ps_quote :
    (value rest : String)
    → is_straight value ≡ true
    → starts_quoted rest ≡ false
    → (body : String) × (ps_quote value <> rest ≡ String.◌∷◌ "'" body)
      × (read_literal none body ≡ some (value, rest))
unfolding ps_quote
read_literal-ps_quote value rest straight h =
    let quoted = scan "'" "''" 0 value in
    (
      quoted <> String.◌∷◌ "'" rest,
      ap (λ x. x <> rest) (one_mark (quoted <> "'"))
          ∙ cons-append "'" (quoted <> "'") rest
          ∙ ap (String.◌∷◌ "'")
              (append_assoc quoted "'" rest ∙ ap (λ x. quoted <> x) (one_mark rest)),
      read_literal-scan value rest straight h,
    )
