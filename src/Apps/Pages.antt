-- ===== src/Apps/Pages.antt =====
-- watchpost/checks/apps.py: unifi_list_all. A server answers the request for an offset.
pub mod Laws
use ip_montior.Base.{
  ℕ, zero, suc, ◌+◌, String, Bool, true, false, ◌||◌, List, [], ◌∷◌, ◌++◌, Option, none, some,
  if◌then◌else◌, leb, length, Try, done, raised,
}
use ip_montior.Apps.{ApiError}

-- A bare array, or an envelope with `data` and `totalCount`
pub data Body (A : Type 0) : Type 0 where
  bare : List A → Body A
  page : List A → Option ℕ → Body A

abbrev is_empty : {A : Type 0} → List A → Bool
is_empty [] = true
is_empty (x ∷ xs) = false

abbrev pub all_read : ℕ → Option ℕ → Bool
all_read n none = true
all_read n (some total) = leb total n

module _ {A : Type 0} (server : ℕ → Try ApiError (Body A)) where
  -- The loop, for a number of rounds; `none` when they are over. `offset` is the length of `out`.
  unfoldable pub list_from : ℕ → List A → ℕ → Option (Try ApiError (List A))
  list_from zero out offset = none
  list_from (suc rounds) out offset = elim (server offset) [
    | raised e ↦ some (raised e)
    | done body ↦ elim body [
      | bare items ↦ some (done items)
      | page items total ↦
          if is_empty items || all_read (length (out ++ items)) total
          then some (done (out ++ items))
          else list_from rounds (out ++ items) (offset + length items)
    ]
  ]

  unfoldable pub list_all : ℕ → Option (Try ApiError (List A))
  unfolding list_from
  list_all rounds = list_from rounds [] 0
