-- ===== src/Discovery/Lockout/Safety.antt =====
-- How often a credential can be rejected, however the scans of the hosts interleave.
use ip_montior.Base.{
  ℕ, ◌+◌, ◌≤◌, ◌<◌, String, Bool, false, if◌then◌else◌, List, [], ◌∷◌, ◌++◌, str_eq, ◌≡◌, refl,
  arith, subst, sym, eq_iff,
}
use ip_montior.Discovery.Lockout.{
  Account, Accounts, Seeker, Outcome, seek, note, after, Scan, ScanStep, Reachable, fresh,
}

-- An attempt with a credential that holds its lock, and one that does not.
abbrev locking : String → Seeker → ℕ
locking cred (Seeker.trying c locked rest) = if str_eq c cred then (if locked then 1 else 0) else 0
locking cred _ = 0

abbrev loose : String → Seeker → ℕ
loose cred (Seeker.trying c locked rest) = if str_eq c cred then (if locked then 0 else 1) else 0
loose cred _ = 0

abbrev total : (Seeker → ℕ) → List Seeker → ℕ
total f [] = 0
total f (t ∷ ts) = f t + total f ts

-- How many attempts with a credential are under way.
abbrev pub in_flight : String → List Seeker → ℕ
in_flight cred ts = total (locking cred) ts + total (loose cred) ts

total-middle :
    (f : Seeker → ℕ) (xs : List Seeker) (t : Seeker) (ys : List Seeker)
    → total f (xs ++ t ∷ ys) ≡ f t + total f (xs ++ ys)
total-middle f [] t ys = refl
total-middle f (x ∷ xs) t ys = ground (arith, total-middle f xs t ys)

-- Of one credential: the account, its attempts under way with the lock, and those without.
record Guarded (max : ℕ) (a : Account) (locks free : ℕ) : Type 0 where
  lock : locks ≡ (if a.held then 1 else 0)
  serial : a.proven ≡ false → free ≡ 0
  bounded : a.proven ≡ false → a.failures + locks ≤ max

seek-Guarded :
    (max : ℕ) (o : Outcome) (accounts : Accounts) (t : Seeker) (cred : String) (locks free : ℕ)
    → Guarded max (accounts cred) (locking cred t + locks) (loose cred t + free)
    → let (accounts', t') = seek max o accounts t in
      Guarded max (accounts' cred) (locking cred t' + locks) (loose cred t' + free)
unfolding seek note after
seek-Guarded max o accounts (Seeker.choosing []) cred locks free h = h
seek-Guarded max o accounts (Seeker.choosing (c ∷ rest)) cred locks free h =
    ground (arith, eq_iff c cred, h.lock, h.serial, h.bounded)
seek-Guarded max o accounts (Seeker.waiting c rest) cred locks free h =
    ground (arith, eq_iff c cred, h.lock, h.serial, h.bounded)
seek-Guarded max Outcome.rejected accounts (Seeker.trying c locked rest) cred locks free h =
    ground (arith, eq_iff c cred, h.lock, h.serial, h.bounded)
seek-Guarded max Outcome.failed accounts (Seeker.trying c locked rest) cred locks free h =
    ground (arith, eq_iff c cred, h.lock, h.serial, h.bounded)
seek-Guarded max Outcome.accepted accounts (Seeker.trying c locked rest) cred locks free h =
    ground (arith, eq_iff c cred, h.lock, h.serial, h.bounded)
seek-Guarded max Outcome.mismatch accounts (Seeker.trying c locked rest) cred locks free h =
    ground (arith, eq_iff c cred, h.lock, h.serial, h.bounded)
seek-Guarded max o accounts Seeker.finished cred locks free h = h

-- Every credential's account fits the attempts under way.
IsGuarded : ℕ → Scan → Type 0
IsGuarded max s =
    (cred : String)
    → Guarded max (s.accounts cred) (total (locking cred) s.seekers) (total (loose cred) s.seekers)

advance-IsGuarded :
    (max : ℕ) (o : Outcome) (accounts : Accounts) (xs : List Seeker) (t : Seeker) (ys : List Seeker)
    → IsGuarded max (record { accounts = accounts; seekers = xs ++ t ∷ ys })
    → let (accounts', t') = seek max o accounts t in
      IsGuarded max (record { accounts = accounts'; seekers = xs ++ t' ∷ ys })
unfolding IsGuarded
advance-IsGuarded max o accounts xs t ys h cred =
    let t' = (seek max o accounts t).1 in
    rw (total-middle (locking cred) xs t' ys, total-middle (loose cred) xs t' ys)
      (seek-Guarded max o accounts t cred (total (locking cred) (xs ++ ys))
        (total (loose cred) (xs ++ ys))
        (rw (sym (total-middle (locking cred) xs t ys), sym (total-middle (loose cred) xs t ys))
          (h cred)))

ScanStep-IsGuarded : (max : ℕ) (s u : Scan) → ScanStep max s u → IsGuarded max s → IsGuarded max u
unfolding IsGuarded
ScanStep-IsGuarded max s u (ScanStep.advance xs t ys o split e) h = subst (IsGuarded max) (sym e) (
    advance-IsGuarded max o s.accounts xs t ys
      (subst (λ ts. IsGuarded max (record { accounts = s.accounts; seekers = ts })) split h))
ScanStep-IsGuarded max s u (ScanStep.arrive creds e) h =
    subst (IsGuarded max) (sym e)
      (λ cred. ground (arith, (h cred).lock, (h cred).serial, (h cred).bounded))

Reachable-IsGuarded : (max : ℕ) (s : Scan) → Reachable max fresh s → IsGuarded max s
unfolding IsGuarded fresh
Reachable-IsGuarded max s Reachable.here =
    λ cred. record { lock = refl; serial = λ e. refl; bounded = λ e. omega arith }
Reachable-IsGuarded max s (Reachable.next {t} r st) =
    ScanStep-IsGuarded max t s st (Reachable-IsGuarded max t r)

-- Whatever the hosts answer and however their scans interleave: a credential that has not succeeded
-- yet has at most one attempt under way, and its authentication errors, that attempt counted as one
-- more, are at most `max_auth_failures`.
pub unproven_bounded :
    (max : ℕ) (s : Scan) (cred : String)
    → Reachable max fresh s
    → (s.accounts cred).proven ≡ false
    → (in_flight cred s.seekers ≤ 1) × ((s.accounts cred).failures + in_flight cred s.seekers ≤ max)
unfolding IsGuarded
unproven_bounded max s cred r unproven =
    let h = Reachable-IsGuarded max s r cred in
    ground (arith, h.lock, h.serial unproven, h.bounded unproven)

-- An attempt with a credential is begun only while its authentication errors are below
-- `max_auth_failures`, also when it has succeeded before.
pub seek-begins :
    (max : ℕ) (o : Outcome) (accounts : Accounts) (t : Seeker) (cred : String) (locked : Bool)
    (rest : List String)
    → (seek max o accounts t).1 ≡ Seeker.trying cred locked rest
    → (accounts cred).failures < max
unfolding seek after
seek-begins max o accounts (Seeker.choosing []) cred locked rest h = cc
seek-begins max o accounts (Seeker.choosing (c ∷ more)) cred locked rest h = ground (arith, h)
seek-begins max o accounts (Seeker.waiting c more) cred locked rest h = ground (arith, h)
seek-begins max Outcome.rejected accounts (Seeker.trying c l more) cred locked rest h = cc
seek-begins max Outcome.failed accounts (Seeker.trying c l more) cred locked rest h = cc
seek-begins max Outcome.accepted accounts (Seeker.trying c l more) cred locked rest h = cc
seek-begins max Outcome.mismatch accounts (Seeker.trying c l more) cred locked rest h = cc
seek-begins max o accounts Seeker.finished cred locked rest h = cc
