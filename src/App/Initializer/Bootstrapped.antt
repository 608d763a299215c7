-- ===== src/App/Initializer/Bootstrapped.antt =====
-- What the initialization of the app leaves on a compromised device, and on any other.
use vesper_platform.Base.{String, ◌≡◌, ◌⊎◌, Bool, true, false, not, str_eq, Option, none, some}
use vesper_platform.Dpop.Keys.{CryptoProvider}
use vesper_platform.Dpop.Signer.{DpopSigner, create, get_public_key_jwk}
use vesper_platform.App.Store.{set_frozen}
use vesper_platform.App.Initializer.{Initializer}

-- There is a stored token, which is not empty.
abbrev pub has_token : Option String → Bool
has_token none = false
has_token (some token) = not (str_eq token "")

module _ {Key : Type 0} where
  -- The device was refused: no session was restored and the client has no other keys than before.
  abbrev pub IsRefused : Initializer Key → Initializer Key → Type 0
  IsRefused s t =
      (t.app ≡ set_frozen false s.app)
      × (t.signer ≡ s.signer)
      × (t.dpop_public_key ≡ s.dpop_public_key)

  -- The app was started: the stored token tells whether the user is signed in, and the public key is
  -- that of the client's signer, one it had or a new one. Where the token store throws, nothing is
  -- changed; where no signer can be made, the keys are as they were.
  abbrev pub IsKeyed : CryptoProvider Key → Initializer Key → Initializer Key → Type 0
  IsKeyed provider s t =
      ((s.signer ≡ none)
        × (create provider none ≡ none)
        × (t.signer ≡ none)
        × (t.dpop_public_key ≡ s.dpop_public_key))
      ⊎ ((g : DpopSigner Key) × ((s.signer ≡ some g)
            ⊎ ((s.signer ≡ none) × (create provider none ≡ some g)))
          × (t.signer ≡ some g)
          × (t.dpop_public_key ≡ some (get_public_key_jwk g)))

  abbrev pub IsStarted :
      CryptoProvider Key → Option (Option String) → Initializer Key → Initializer Key → Type 0
  IsStarted provider none s t = t ≡ record s { is_bootstrapped = true }
  IsStarted provider (some token) s t =
      (t.app ≡ record s.app { is_authenticated = has_token token }) × IsKeyed provider s t
