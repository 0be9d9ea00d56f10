-- ===== src/Discovery/Gates.antt =====
-- watchpost/discovery.py: over what a credential may be sent. `_tls_probe` and the file of known hosts
-- are read as their answers.
use ip_montior.Base.{
  ◌↔◌, ◌≢◌, String, Bool, true, false, ◌&&◌, not, if◌then◌else◌, List, [], ◌∷◌, Option, none, some,
  filter, All, ◌≡◌, ◌⊎◌, refl, arith,
}

-- What a port says when it is asked for TLS: `none` is a port without TLS; else whether the
-- certificate validates for the host's name.
abbrev pub Listener : Type 0
Listener = Option Bool

-- How a credential travels. `unchecked` is TLS without validation.
pub data Channel : Type 0 where
  validated : Channel
  unchecked : Channel
  cleartext : Channel

-- `_winrm`, up to its loop
unfoldable pub winrm_channel : Bool → Listener → Option Channel
winrm_channel require_valid none = none
winrm_channel require_valid (some valid) =
    if require_valid && not valid
    then none
    else if require_valid
    then some Channel.validated
    else some Channel.unchecked

-- `_tls_gate`: the channel, and whether the certificate goes to `unverified_certs`
unfoldable pub tls_gate : Bool → Listener → Option Channel × Bool
tls_gate require_valid none = (none, false)
tls_gate require_valid (some true) = (some Channel.validated, false)
tls_gate require_valid (some false) =
    if not require_valid then (some Channel.unchecked, false) else (none, true)

-- `_http_gate`
unfoldable pub http_gate : Bool → Listener → Option Channel × Bool
unfolding tls_gate
http_gate require_valid (some valid) = tls_gate require_valid (some valid)
http_gate require_valid none =
    if not require_valid then (some Channel.cleartext, false) else (none, false)

-- `_host_key_state`
pub data HostKey : Type 0 where
  known : HostKey
  unusable : HostKey
  unlisted : HostKey

-- `_host_key_state`: whether the parsed file has a key for the host, and whether a line names it.
unfoldable pub host_key_state : Bool → Bool → HostKey
host_key_state parsed named =
    if parsed then HostKey.known else if named then HostKey.unusable else HostKey.unlisted

-- The credentials that `_ssh` goes through: `has_key` is `bool(cred.private_key)`.
unfoldable pub ssh_offers : Bool → HostKey → (String → Bool) → List String → List String
ssh_offers trust_on_first_use HostKey.known has_key creds = creds
ssh_offers trust_on_first_use HostKey.unusable has_key creds = []
ssh_offers trust_on_first_use HostKey.unlisted has_key creds =
    if trust_on_first_use then filter has_key creds else []

-- With `require_valid` on, WinRM, TLS and HTTP credentials travel only over TLS with a certificate
-- that validates; and whatever the setting, a WinRM credential or one behind the TLS gate never
-- travels in clear text. A certificate is reported exactly when it is what stops a credential.
pub gates_lem :
    (require_valid : Bool) (listener : Listener) (channel : Channel)
    → ((winrm_channel require_valid listener ≡ some channel)
          ⊎ ((tls_gate require_valid listener).0 ≡ some channel)
          ⊎ ((http_gate require_valid listener).0 ≡ some channel)
        → require_valid ≡ true
        → (channel ≡ Channel.validated) × (listener ≡ some true))
      × ((winrm_channel require_valid listener ≡ some channel)
            ⊎ ((tls_gate require_valid listener).0 ≡ some channel)
          → channel ≢ Channel.cleartext)
      × (((tls_gate require_valid listener).1 ≡ true)
          ↔ ((require_valid ≡ true) × (listener ≡ some false)))
unfolding winrm_channel tls_gate http_gate
gates_lem true none channel = ground arith
gates_lem true (some true) channel = ground arith
gates_lem true (some false) channel = ground arith
gates_lem false none channel = ground arith
gates_lem false (some true) channel = ground arith
gates_lem false (some false) channel = ground arith

filter-All : (test : String → Bool) (xs : List String) → All (λ x. test x ≡ true) (filter test xs)
filter-All test [] = tt
filter-All test (x ∷ xs) = ground (arith, filter-All test xs)

-- A password is never offered to a host whose key is not trusted: if the parsed file has no key for
-- the host, every credential that is tried has a private key, and none is tried unless trust on
-- first use is on and no line of the file names the host.
pub ssh_offers-All :
    (trust_on_first_use named : Bool) (has_key : String → Bool) (creds : List String)
    → let offers = ssh_offers trust_on_first_use (host_key_state false named) has_key creds in
      All (λ cred. has_key cred ≡ true) offers
      × ((trust_on_first_use ≡ false) ⊎ (named ≡ true) → offers ≡ [])
unfolding ssh_offers host_key_state
ssh_offers-All true true has_key creds = (tt, λ e. refl)
ssh_offers-All true false has_key creds = (filter-All has_key creds, λ e. ground (arith, e))
ssh_offers-All false true has_key creds = (tt, λ e. refl)
ssh_offers-All false false has_key creds = (tt, λ e. refl)
