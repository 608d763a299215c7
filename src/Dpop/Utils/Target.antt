-- ===== src/Dpop/Utils/Target.antt =====
-- What is left of a URL in the `htu` claim.
use vesper_platform.Base.{
  ◌≡◌, ◌≢◌, ◌⊎◌, inl, inr, refl, ap, Option, none, some, [], ◌∷◌, ◌++◌, ◌==◌, All, All-append,
  arith, Bool-cases, ==_iff,
}
use vesper_platform.Binary.Utf8.{Text}
use vesper_platform.Dpop.Utils.{Url, before_first, parsed, htu_of, normalize_htu}

-- No query and no fragment.
abbrev pub IsTarget : Text → Type 0
IsTarget t = All (λ c. (c ≢ b'?') × (c ≢ b'#')) t

-- What the documentation of URL promises of the parts that are read: `?` begins the query and `#`
-- the fragment, so neither stands in a part before them.
abbrev pub HasTarget : Url → Type 0
HasTarget u = IsTarget u.protocol × (IsTarget u.host × IsTarget u.pathname)

before_first-IsTarget : (url : Text) → IsTarget (before_first b'?' (before_first b'#' url))
unfolding before_first
before_first-IsTarget [] = tt
before_first-IsTarget (c ∷ url) = ground (arith, before_first-IsTarget url)

-- What was cut off begins with the separator.
abbrev pub IsCut : Text → Type 0
IsCut [] = Unit
IsCut (c ∷ cs) = (c ≡ b'?') ⊎ (c ≡ b'#')

before_first-IsCut :
    (url : Text)
    → (rest : Text) × (url ≡ before_first b'?' (before_first b'#' url) ++ rest) × IsCut rest
unfolding before_first
before_first-IsCut [] = ([], refl, tt)
before_first-IsCut (c ∷ url) = elim (Bool-cases (c == b'#')) [
  | inl e ↦ (c ∷ url, rw e refl, inr ((==_iff c b'#').0 e))
  | inr e ↦ elim (Bool-cases (c == b'?')) [
    | inl f ↦ (c ∷ url, rw (e, f) refl, inl ((==_iff c b'?').0 f))
    | inr f ↦ let (rest, eq, cut) = before_first-IsCut url in (rest, rw (e, f) (ap (◌∷◌ c) eq), cut)
  ]
]

htu_of-IsTarget :
    (u : Option Url) (url : Text)
    → ((v : Url) → u ≡ some v → HasTarget v)
    → IsTarget (htu_of u url)
      × (((v : Url) × (u ≡ some v)) ⊎ ((rest : Text) × (url ≡ htu_of u url ++ rest) × IsCut rest))
unfolding htu_of
htu_of-IsTarget none url h = (before_first-IsTarget url, inr (before_first-IsCut url))
htu_of-IsTarget (some v) url h =
    let (protocol, (host, pathname)) = h v refl in
    (
      All-append _ v.protocol _ protocol
          (ground arith, (ground arith, All-append _ v.host v.pathname host pathname)),
      inl (v, refl),
    )

-- The `htu` claim has no query and no fragment, and unless a parser took the URL apart it is the
-- start of the URL up to the first `?` or `#`, or the whole URL. The hypothesis is that the parser's
-- parts have neither of the two separators.
pub normalize_htu-IsTarget :
    (parser : Option (Text → Option Url)) (url : Text)
    → ((u : Url) → parsed parser url ≡ some u → HasTarget u)
    → IsTarget (normalize_htu parser url)
      × (((u : Url) × (parsed parser url ≡ some u))
          ⊎ ((rest : Text) × (url ≡ normalize_htu parser url ++ rest) × IsCut rest))
unfolding normalize_htu
normalize_htu-IsTarget parser url h = htu_of-IsTarget (parsed parser url) url h
