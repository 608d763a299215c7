-- ===== src/Core/ErrorMatrix/Decision.antt =====
-- The statuses that freeze the session, as a predicate.
use vesper_platform.Base.{ℕ, ◌≡◌, ◌↔◌, ◌⊎◌, true, List, [], ◌∷◌, arith}
use vesper_platform.Core.ErrorMatrix.{ResolvedTrappingConfig, has, freezes_on}

abbrev pub IsListed : ℕ → List ℕ → Type 0
IsListed n [] = ⊥
IsListed n (m ∷ ms) = (m ≡ n) ⊎ IsListed n ms

-- An answer whose status the configuration says to freeze on.
abbrev pub IsFreezable : ResolvedTrappingConfig → ℕ → Type 0
IsFreezable trapping status =
    (((status ≡ 503) ⊎ (status ≡ 504)) × (trapping.freeze_on_503_504 ≡ true))
    ⊎ (((status ≡ 401) × (trapping.freeze_on_401 ≡ true))
        ⊎ IsListed status trapping.additional_freezable_statuses)

has_iff : (n : ℕ) (ms : List ℕ) → (has n ms ≡ true) ↔ IsListed n ms
unfolding has
has_iff n [] = ground arith
has_iff n (m ∷ ms) = ground (arith, has_iff n ms)

pub freezes_on_iff :
    (trapping : ResolvedTrappingConfig) (status : ℕ)
    → (freezes_on trapping status ≡ true) ↔ IsFreezable trapping status
unfolding freezes_on
freezes_on_iff trapping status =
    ground (arith, has_iff status trapping.additional_freezable_statuses)
