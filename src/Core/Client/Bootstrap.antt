-- ===== src/Core/Client/Bootstrap.antt =====
-- packages/ghost-ledger/src/core/client.ts: overlapping calls of `bootstrapAutoDPoP`, each cut at the
-- await of `DPoPSigner.create`. The constructor makes one of the calls, `bootstrap` the others.
use vesper_platform.Base.{
  ℕ, zero, suc, ◌≡◌, refl, Bool, true, false, Option, none, some, List, [], ◌∷◌, ◌++◌, All,
  Bool-cases, inl, inr,
}

-- `waiting` counts the calls that wait for their signer; `given` logs the public keys that calls
-- have answered.
pub record Boot (Signer Jwk : Type 0) : Type 0 where
  pub dpop_signer : Option Signer
  pub waiting : ℕ
  pub given : List Jwk

pub data BootStep (Signer : Type 0) : Type 0 where
  called : BootStep Signer
  created : Signer → BootStep Signer
  not_created : BootStep Signer

module _ {Signer Jwk : Type 0} (get_public_key_jwk : Signer → Jwk) (is_configured : Bool) where
  unfoldable pub give : Signer → Boot Signer Jwk → Boot Signer Jwk
  give g b = record b { given = b.given ++ get_public_key_jwk g ∷ [] }

  -- The call, to its await or its end.
  unfoldable pub begin_bootstrap : Option Signer → Boot Signer Jwk → Boot Signer Jwk
  unfolding give
  begin_bootstrap (some g) b = give g b
  begin_bootstrap none b = elim is_configured [
    | true ↦ record b { waiting = suc b.waiting }
    | false ↦ b
  ]

  -- A signer is there for one of the calls that wait, or an error.
  unfoldable pub end_bootstrap : ℕ → Option Signer → Boot Signer Jwk → Boot Signer Jwk
  unfolding give
  end_bootstrap zero r b = b
  end_bootstrap (suc n) none b = record b { waiting = n }
  end_bootstrap (suc n) (some g) b = give g (record b { dpop_signer = some g; waiting = n })

  unfoldable pub boot_step : Boot Signer Jwk → BootStep Signer → Boot Signer Jwk
  unfolding begin_bootstrap end_bootstrap
  boot_step b called = begin_bootstrap b.dpop_signer b
  boot_step b (created g) = end_bootstrap b.waiting (some g) b
  boot_step b not_created = end_bootstrap b.waiting none b

  unfoldable pub boot_run : Boot Signer Jwk → List (BootStep Signer) → Boot Signer Jwk
  unfolding boot_step
  boot_run b [] = b
  boot_run b (c ∷ cs) = boot_run (boot_step b c) cs

  -- No call is made while another waits.
  abbrev pub AreSerial : Boot Signer Jwk → List (BootStep Signer) → Type 0
  AreSerial b [] = Unit
  AreSerial b (called ∷ cs) = (b.waiting ≡ 0) × AreSerial (boot_step b called) cs
  AreSerial b (created g ∷ cs) = AreSerial (boot_step b (created g)) cs
  AreSerial b (not_created ∷ cs) = AreSerial (boot_step b not_created) cs

  -- The keys are those of the signer that is there.
  abbrev pub AreCurrent : Option Signer → List Jwk → Type 0
  AreCurrent none ks = ks ≡ []
  AreCurrent (some g) ks = All (λ k. k ≡ get_public_key_jwk g) ks

  -- At most one call waits, and only while there is no signer.
  abbrev pub IsAwaited : ℕ → Option Signer → Type 0
  IsAwaited zero o = Unit
  IsAwaited (suc zero) o = o ≡ none
  IsAwaited (suc (suc n)) o = ⊥

  abbrev IsConsistent : Boot Signer Jwk → Type 0
  IsConsistent b = IsAwaited b.waiting b.dpop_signer × AreCurrent b.dpop_signer b.given

  All-snoc :
      (g : Signer) (ks : List Jwk)
      → All (λ k. k ≡ get_public_key_jwk g) ks
      → All (λ k. k ≡ get_public_key_jwk g) (ks ++ get_public_key_jwk g ∷ [])
  All-snoc g [] h = (refl, tt)
  All-snoc g (k ∷ ks) h = (h.0, All-snoc g ks h.1)

  begin-IsConsistent :
      (o : Option Signer) (w : ℕ) (ks : List Jwk)
      → w ≡ 0
      → AreCurrent o ks
      → IsConsistent (begin_bootstrap o (record { dpop_signer = o; waiting = w; given = ks }))
  unfolding begin_bootstrap give
  begin-IsConsistent o (suc w) ks e h = absurd cc
  begin-IsConsistent (some g) zero ks e h = (tt, All-snoc g ks h)
  begin-IsConsistent none zero ks e h = elim (Bool-cases is_configured) [
    | inl c ↦ rw c (refl, h)
    | inr c ↦ rw c (tt, h)
  ]

  end-IsConsistent :
      (w : ℕ) (r o : Option Signer) (ks : List Jwk)
      → IsAwaited w o
      → AreCurrent o ks
      → IsConsistent (end_bootstrap w r (record { dpop_signer = o; waiting = w; given = ks }))
  unfolding end_bootstrap give
  end-IsConsistent zero r o ks a h = (tt, h)
  end-IsConsistent (suc zero) none o ks a h = (tt, h)
  end-IsConsistent (suc zero) (some g) none ks a h = (tt, rw h (refl, tt))
  end-IsConsistent (suc zero) (some g) (some f) ks a h = absurd cc
  end-IsConsistent (suc (suc n)) r o ks a h = absurd a

  boot_run-IsConsistent :
      (b : Boot Signer Jwk) (cs : List (BootStep Signer))
      → AreSerial b cs
      → IsConsistent b
      → IsConsistent (boot_run b cs)
  unfolding boot_run boot_step
  boot_run-IsConsistent b [] s h = h
  boot_run-IsConsistent b (called ∷ cs) s h =
      boot_run-IsConsistent (boot_step b called) cs s.1
        (begin-IsConsistent b.dpop_signer b.waiting b.given s.0 h.1)
  boot_run-IsConsistent b (created g ∷ cs) s h =
      boot_run-IsConsistent (boot_step b (created g)) cs s
        (end-IsConsistent b.waiting (some g) b.dpop_signer b.given h.0 h.1)
  boot_run-IsConsistent b (not_created ∷ cs) s h =
      boot_run-IsConsistent (boot_step b not_created) cs s
        (end-IsConsistent b.waiting none b.dpop_signer b.given h.0 h.1)

  abbrev pub new_boot : Boot Signer Jwk
  new_boot = record { dpop_signer = none; waiting = 0; given = [] }

  -- Where no call of the bootstrap is made while another waits for its signer, every public key that
  -- a call has answered is the key of the client's signer.
  pub boot_run-AreCurrent :
      (cs : List (BootStep Signer))
      → AreSerial new_boot cs
      → AreCurrent (boot_run new_boot cs).dpop_signer (boot_run new_boot cs).given
  boot_run-AreCurrent cs s = (boot_run-IsConsistent new_boot cs s (tt, refl)).1
