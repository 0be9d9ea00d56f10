-- ===== src/Config/Parents.antt =====
-- What a reference resolves to.
use ip_montior.Config.Types.{Monitor, Config}
use ip_montior.Config.Graph.{find_monitor, resolve_monitor, resolve_all, parents}
use ip_montior.Base.{
  String, some, List, [], ◌∷◌, str_eq, ◌≡◌, arith, All, Memᴰ, Bool-cases, Option-cases, inl, inr,
  ◌||◌,
}

-- What resolves is a monitor of the configuration.
find_monitor-mem :
    (ref : String) (ms : List Monitor) (m : Monitor) → find_monitor ref ms ≡ some m → Memᴰ m ms
unfolding find_monitor
find_monitor-mem ref [] m e = cc
find_monitor-mem ref (x ∷ ms) m e = elim (Bool-cases (str_eq ref x.name || str_eq ref x.slug)) [
  | inl here ↦ let same : some x ≡ some m = ground arith in Memᴰ.head (cc)
  | inr on ↦ Memᴰ.tail (find_monitor-mem ref ms m (ground arith))
]

resolve_all-mem :
    (c : Config) (refs : List String) → All (λ p. Memᴰ p c.monitors) (resolve_all c refs)
unfolding resolve_all resolve_monitor
resolve_all-mem c [] = tt
resolve_all-mem c (ref ∷ refs) = elim (Option-cases (find_monitor ref c.monitors)) [
  | inl missing ↦ rw (missing, resolve_all) (resolve_all-mem c refs)
  | inr (p, found) ↦
      rw (found, resolve_all) (find_monitor-mem ref c.monitors p found, resolve_all-mem c refs)
]

-- Every parent is a monitor of the configuration.
pub parents-mem : (c : Config) (m : Monitor) → All (λ p. Memᴰ p c.monitors) (parents c m)
unfolding parents
parents-mem c m = resolve_all-mem c m.depends_on
