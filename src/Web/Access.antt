-- ===== src/Web/Access.antt =====
-- With a user and a password set, only that pair gets in.
use Prim.Native.String.{slice, len}
use text.Mathlib.Text.{starts_with}
use ip_montior.Base.{
  String, true, false, Option, none, some, eq_iff, ◌≡◌, ◌↔◌, ◌⊎◌, inl, inr, arith, ap, sym, ◌∙◌,
  lower, truthy, Option-cases, Bool-cases,
}
use ip_montior.Web.{auth, or_empty, credentials_of}

-- A request carries the pair in a basic authorization header.
abbrev pub Presents : (String → Option String) → Option String → String → String → Type 0
Presents decode authorization user pw =
    (text : String) × (starts_with (lower (or_empty authorization)) "basic " ≡ true)
    × (decode (slice (or_empty authorization) 6 (len (or_empty authorization))) ≡ some text)
    × ((credentials_of text).0 ≡ user)
    × ((credentials_of text).1 ≡ pw)

let_in :
    (decode : String → Option String) (user pw : String) (authorization : Option String)
    → truthy user ≡ true
    → (auth decode (some user) (some pw) authorization ≡ true)
      ↔ Presents decode authorization user pw
unfolding auth
let_in decode user pw authorization there =
    elim (Option-cases (decode (slice (or_empty authorization) 6 (len (or_empty authorization))))) [
      | inl missing ↦ (
        λ e. absurd (ground (arith, there, missing, e)),
        λ (text, basic, found, u, p). absurd (ground (arith, missing, found)),
      )
      | inr (text, found) ↦ (
        λ e.
            let u_eq = eq_iff (credentials_of text).0 user in
            let p_eq = eq_iff (credentials_of text).1 pw in
            (
              text,
              ground (arith, there, found, e),
              found,
              u_eq.0 (ground (arith, there, found, e)),
              p_eq.0 (ground (arith, there, found, e)),
            ),
        λ (other, basic, found', u, p).
            let same : other ≡ text = ground (arith, found, found') in
            let u_same =
              (eq_iff (credentials_of text).0 user).1
                (ap (λ x. (credentials_of x).0) (sym same) ∙ u) in
            let p_same =
              (eq_iff (credentials_of text).1 pw).1
                (ap (λ x. (credentials_of x).1) (sym same) ∙ p) in
            ground (arith, there, found, basic, u_same, p_same),
      )
    ]

-- With a user that is not empty and a password, a request is let in exactly when it presents both;
-- with no user or an empty one, every request is.
pub auth_lem :
    (decode : String → Option String) (user pw : String) (authorization : Option String)
    → ((truthy user ≡ true)
        × ((auth decode (some user) (some pw) authorization ≡ true)
            ↔ Presents decode authorization user pw))
      ⊎ ((truthy user ≡ false)
          × (auth decode (some user) (some pw) authorization ≡ true)
          × (auth decode none (some pw) authorization ≡ true))
unfolding auth
auth_lem decode user pw authorization = elim (Bool-cases (truthy user)) [
  | inl there ↦ inl (there, let_in decode user pw authorization there)
  | inr empty ↦ inr (empty, ground (arith, empty), ground arith)
]
