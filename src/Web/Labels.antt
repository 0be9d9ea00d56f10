-- ===== src/Web/Labels.antt =====
-- The label of a metric can be read back.
use Prim.Native.Char.{Char, code}
use text.Mathlib.TextEquality.{Char-path}
use ip_montior.Base.{
  String, Bool, true, false, if◌then◌else◌, ◌==◌, ◌≡◌, refl, arith, ap, Bool-cases, inl, inr,
}
use ip_montior.Web.{label, double}

-- How the exposition format reads a quoted label: a backslash before n is a line end, and before
-- any other character that character.
abbrev pub unlabel : Bool → String → String
unlabel escaped String.[] = String.[]
unlabel true (String.◌∷◌ c s) =
    let rest = unlabel false s in String.◌∷◌ (if code c == b'n' then "\n" else c) rest
unlabel false (String.◌∷◌ c s) =
    let inside = unlabel true s in
    let rest = unlabel false s in if code c == b'\\' then inside else String.◌∷◌ c rest

-- `_label` loses nothing: reading a label back gives the text.
pub unlabel-label : (s : String) → unlabel false (label s) ≡ s
unfolding label double
unlabel-label String.[] = refl
unlabel-label (String.◌∷◌ c s) =
    let rest : unlabel false (label s) ≡ s = unlabel-label s in
    elim (Bool-cases (code c == b'\\')) [
      | inl slash ↦
          let same : "\\" ≡ c = Char-path "\\" c (ground (arith, slash)) in
          rw slash (rw rest (ap (λ (d : Char). String.◌∷◌ d s) same))
      | inr no_slash ↦ elim (Bool-cases (code c == b'"')) [
        | inl quote ↦
            let same : "\"" ≡ c = Char-path "\"" c (ground (arith, quote)) in
            rw (no_slash, quote) (rw rest (ap (λ (d : Char). String.◌∷◌ d s) same))
        | inr no_quote ↦ elim (Bool-cases (code c == b'\n')) [
          | inl line ↦
              let same : "\n" ≡ c = Char-path "\n" c (ground (arith, line)) in
              rw (no_slash, no_quote, line) (rw rest (ap (λ (d : Char). String.◌∷◌ d s) same))
          | inr no_line ↦ rw (no_slash, no_quote, no_line) (rw no_slash (ap (String.◌∷◌ c) rest))
        ]
      ]
    ]
