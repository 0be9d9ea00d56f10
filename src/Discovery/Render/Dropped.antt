-- ===== src/Discovery/Render/Dropped.antt =====
-- What the identity of `_key` leaves out.
use ip_montior.Base.{
  ℕ, suc, String, true, List, [], ◌∷◌, none, some, ◌≡◌, ◌≢◌, refl, arith, subst, eq_refl, Memᴰ,
  Option-cases, inl, inr, insert,
}
use ip_montior.Config.Kinds.{Kind, LinuxMode, SshTarget}
use ip_montior.Config.Types.{Monitor}
use ip_montior.Discovery.Render.{Key, Sifted, existing, key, same_key, sift}

abbrev pub disk_of : SshTarget → String → Kind
disk_of target mount = Kind.linux (record {
  target = target;
  mode = LinuxMode.disk;
  mount = mount;
  service = none;
  command = none;
})

same_key-disk :
    (target : SshTarget) (mount other : String)
    → same_key (key (disk_of target mount)) (key (disk_of target other)) ≡ true
unfolding key
same_key-disk target mount other = ground (arith, eq_refl target.host)

existing-found :
    (k : Key) (m : Monitor) (ms : List Monitor)
    → Memᴰ m ms
    → same_key (key m.kind) k ≡ true
    → existing k ms ≢ none
unfolding existing
existing-found k m (x ∷ ms) (Memᴰ.head e) same h =
    let here = subst (λ (y : Monitor). same_key (key y.kind) k ≡ true) e same in
    ground (arith, here, h)
existing-found k m (x ∷ ms) (Memᴰ.tail at) same h =
    let later = existing-found k m ms at same in ground (arith, later, h)
existing-found k m [] at same h = elim at [ ]

-- Once one disk of a Linux host is configured, a proposal for any other mount point of it counts as
-- configured: nothing is kept, and the proposal's name is taken to be some configured monitor's.
pub sift-disk :
    (digits : ℕ → String) (address : String) (configured : List Monitor) (m p : Monitor)
    (target : SshTarget) (mount other : String) (s : Sifted)
    → Memᴰ m configured
    → m.kind ≡ disk_of target mount
    → p.kind ≡ disk_of target other
    → (name : String) × (existing (key p.kind) configured ≡ some name)
      × (sift digits address configured (p ∷ []) s
          ≡ some (record s { renamed = insert p.name name s.renamed; skipped = suc s.skipped }))
unfolding sift
sift-disk digits address configured m p target mount other s at disk other_disk =
    let one_key : same_key (key m.kind) (key p.kind) ≡ true =
      rw (disk, other_disk) (same_key-disk target mount other) in
    elim (Option-cases (existing (key p.kind) configured)) [
      | inl new ↦ absurd (existing-found (key p.kind) m configured at one_key new)
      | inr (name, old) ↦ (name, old, rw (old, sift) refl)
    ]
