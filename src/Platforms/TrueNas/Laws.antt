-- ===== src/Platforms/TrueNas/Laws.antt =====
-- What TrueNASClient and TrueNASCheck promise.
use ip_montior.Base.{
  ℕ, String, Bool, true, false, not, ◌&&◌, ◌||◌, List, [], ◌∷◌, ◌++◌, Option, none, some,
  if◌then◌else◌, leb, ℤ, any, All, filter, map, Try, done, raised, ◌≡◌, ◌≢◌, ◌↔◌, ◌⊎◌, inl, inr,
  refl, sym, ◌∙◌, arith,
}
use ip_montior.Check.{Result, failed, passed}
use ip_montior.Config.Kinds.{AlertLevel}
use ip_montior.Platforms.{or_zero}
use ip_montior.Platforms.TrueNas.{
  Event, Login, Socket, Message, TrueNasError, Pool, NasAlert, has_id, reply, call, pool_state,
  rank_of, worst_of, reaches, level_of, floor_of, is_active, worst_level, judge_active, pools_check,
  alerts_check,
}

-- A call answers with the reply of its own number: messages of another number, or of none, before it
-- and whatever comes after it do not count.
pub call_lem :
    {A : Type 0} (method : String) (n : ℕ) (before : List (Message A)) (msg : Message A)
    (after : List (Event A))
    → All (λ m. has_id n m.id ≡ false) before
    → has_id n msg.id ≡ true
    → call method n (map Event.message before ++ Event.message msg ∷ after) ≡ reply method msg
unfolding call
call_lem method n [] msg after skipped own = rw own refl
call_lem method n (m ∷ before) msg after skipped own =
    rw skipped.0 (call_lem method n before msg after skipped.1 own)

worst_of-rank :
    (k : ℕ) (r : Result) (ss : List Result)
    → leb k (rank_of (worst_of r ss)) ≡ (leb k (rank_of r) || any (λ s. leb k (rank_of s)) ss)
unfolding worst_of
worst_of-rank k r [] = ground arith
worst_of-rank k r (s ∷ ss) =
    let next : Result = if leb (rank_of s) (rank_of r) then r else s in
    let rest = worst_of-rank k next ss in ground (arith, rest)

module _ (test : Pool → Bool) (k : ℕ)
    (same : (p : Pool) → leb k (rank_of (pool_state p).0) ≡ test p) where
  any_states :
      (ps : List Pool)
      → any (λ s. leb k (rank_of s)) (map (λ s. s.0) (map pool_state ps)) ≡ any test ps
  any_states [] = refl
  any_states (p ∷ ps) = rw (same p, any_states ps) refl

  worst_pool :
      (p : Pool) (ps : List Pool)
      → leb k (rank_of (worst_of (pool_state p).0 (map (λ s. s.0) (map pool_state ps))))
        ≡ any test (p ∷ ps)
  worst_pool p ps =
      worst_of-rank k (pool_state p).0 (map (λ s. s.0) (map pool_state ps))
      ∙ rw (same p, any_states ps) refl

abbrev pub unhealthy : Pool → Bool
unhealthy p = not p.healthy

abbrev pub troubled : Pool → Bool
troubled p = not p.healthy || p.warning

unhealthy_rank : (p : Pool) → leb 2 (rank_of (pool_state p).0) ≡ unhealthy p
unfolding pool_state
unhealthy_rank p = ground arith

troubled_rank : (p : Pool) → leb 1 (rank_of (pool_state p).0) ≡ troubled p
unfolding pool_state
troubled_rank p = ground arith

of_rank :
    (r : Result)
    → ((r ≡ Result.fail) ↔ (leb 2 (rank_of r) ≡ true))
      × ((r ≡ Result.ok) ↔ (leb 1 (rank_of r) ≡ false))
of_rank r = ground arith

abbrev pub undismissed : ℕ → NasAlert → Bool
undismissed n a = not a.dismissed && reaches n (level_of a)

active_eq : (floor : ℕ) (a : NasAlert) → is_active floor a ≡ undismissed floor a
unfolding is_active
active_eq floor a = refl

-- Each level that can be configured is at most CRITICAL.
floor_reached :
    (min : AlertLevel) (level : Option ℕ)
    → (reaches (floor_of min) level && reaches 4 level) ≡ reaches 4 level
floor_reached min none = refl
floor_reached min (some n) = elim min [
  | AlertLevel.info ↦ ground arith
  | AlertLevel.notice ↦ ground arith
  | AlertLevel.warning ↦ ground arith
  | AlertLevel.error ↦ ground arith
  | AlertLevel.critical ↦ ground arith
]

active_critical :
    (min : AlertLevel) (a : NasAlert)
    → (is_active (floor_of min) a && reaches 4 (level_of a)) ≡ undismissed 4 a
active_critical min a =
    let same = floor_reached min (level_of a) in
    let test = active_eq (floor_of min) a in ground (arith, same, test)

any_same :
    (p q : NasAlert → Bool)
    → ((a : NasAlert) → p a ≡ q a)
    → (alerts : List NasAlert) → any p alerts ≡ any q alerts
any_same p q same [] = refl
any_same p q same (a ∷ alerts) = rw (same a, any_same p q same alerts) refl

-- The login ends without an answer that `__aenter__` can judge: its call raises, or its result is
-- neither empty nor an object.
abbrev pub cut_short : Try TrueNasError Login → Bool
cut_short (raised e) = true
cut_short (done Login.other) = true
cut_short (done Login.empty) = false
cut_short (done (Login.object kind)) = false

-- Whether there is a socket, and it is open
abbrev pub left_open : Option Socket → Bool
left_open none = false
left_open (some ws) = ws.is_open

module _ (digits : ℕ → String) (text : ℤ → String) (tail : ℕ → String)
    (excerpt : String → String) where
  -- A check of all pools fails exactly when there is none or one is not healthy, and passes exactly when
  -- there are some and each is healthy and without a warning.
  pub pools_check_lem :
      (pools : List Pool)
      → (((pools_check digits text tail excerpt pools).result ≡ Result.fail)
          ↔ ((pools ≡ []) ⊎ (any unhealthy pools ≡ true)))
        × (((pools_check digits text tail excerpt pools).result ≡ Result.ok)
            ↔ ((pools ≢ []) × (any troubled pools ≡ false)))
  unfolding pools_check failed passed
  pools_check_lem [] = ground arith
  pools_check_lem (p ∷ ps) =
      let bad = worst_pool unhealthy 2 unhealthy_rank p ps in
      let not_fine = worst_pool troubled 1 troubled_rank p ps in
      let (fails, fine) =
        of_rank (worst_of (pool_state p).0 (map (λ s. s.0) (map pool_state ps))) in
      let more : p ∷ ps ≢ [] = λ e. ground (arith, e) in
      (
        (
          λ h. inr (sym bad ∙ fails.0 h),
          λ d. fails.1 (elim d [ inl e ↦ absurd (more e) | inr one ↦ bad ∙ one ]),
        ),
        (λ h. (more, sym not_fine ∙ fine.0 h), λ d. fine.1 (not_fine ∙ d.1)),
      )

  higher :
      (rest : ℕ) (own : Option ℕ)
      → leb 4 (if leb rest (or_zero own) then or_zero own else rest) ≡ (reaches 4 own || leb 4 rest)
  higher rest none = ground arith
  higher rest (some n) = ground arith

  worst_level_lem :
      (alerts : List NasAlert)
      → leb 4 (worst_level alerts) ≡ any (λ a. reaches 4 (level_of a)) alerts
  unfolding worst_level
  worst_level_lem [] = refl
  worst_level_lem (a ∷ alerts) =
      higher (worst_level alerts) (level_of a) ∙ rw (worst_level_lem alerts) refl

  any-filter :
      (p q : NasAlert → Bool) (alerts : List NasAlert)
      → any q (filter p alerts) ≡ any (λ a. p a && q a) alerts
  any-filter p q [] = refl
  any-filter p q (a ∷ alerts) = let rest = any-filter p q alerts in ground (arith, rest)

  filter_none :
      (p : NasAlert → Bool) (alerts : List NasAlert)
      → (filter p alerts ≡ []) ↔ (any p alerts ≡ false)
  filter_none p [] = (λ _. refl, λ _. refl)
  filter_none p (a ∷ alerts) = let rest = filter_none p alerts in ground (arith, rest)

  judge_active_lem :
      (min : AlertLevel) (active : List NasAlert)
      → (((judge_active digits text tail excerpt min active).result ≡ Result.fail)
          ↔ (any (λ a. reaches 4 (level_of a)) active ≡ true))
        × (((judge_active digits text tail excerpt min active).result ≡ Result.ok) ↔ (active ≡ []))
  unfolding judge_active passed
  judge_active_lem min [] = ground arith
  judge_active_lem min (a ∷ more) = let worst = worst_level_lem (a ∷ more) in ground (arith, worst)

  -- A check of the alerts fails exactly when one that is not dismissed is at CRITICAL or above, whatever
  -- level is configured, and passes exactly when none that is not dismissed is at the configured level or
  -- above. An alert of an unknown level does not count.
  pub alerts_check_lem :
      (min : AlertLevel) (alerts : List NasAlert)
      → (((alerts_check digits text tail excerpt min alerts).result ≡ Result.fail)
          ↔ (any (undismissed 4) alerts ≡ true))
        × (((alerts_check digits text tail excerpt min alerts).result ≡ Result.ok)
            ↔ (any (undismissed (floor_of min)) alerts ≡ false))
  unfolding alerts_check
  alerts_check_lem min alerts =
      let (fails, fine) = judge_active_lem min (filter (is_active (floor_of min)) alerts) in
      let critical =
        any-filter (is_active (floor_of min)) (λ a. reaches 4 (level_of a)) alerts
        ∙ any_same (λ a. is_active (floor_of min) a && reaches 4 (level_of a)) (undismissed 4)
            (active_critical min) alerts in
      let empty = filter_none (is_active (floor_of min)) alerts in
      let test =
        any_same (is_active (floor_of min)) (undismissed (floor_of min)) (active_eq (floor_of min))
          alerts in
      (
        (λ h. sym critical ∙ fails.0 h, λ h. fails.1 (critical ∙ h)),
        (λ h. sym test ∙ empty.0 (fine.0 h), λ h. fine.1 (empty.1 (test ∙ h))),
      )
