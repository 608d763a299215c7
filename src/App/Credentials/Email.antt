-- ===== src/App/Credentials/Email.antt =====
-- The matcher of the two forms against the pattern that it stands for.
use vesper_platform.Base.{
  ℕ, ◌≡◌, ◌≢◌, ◌↔◌, ◌⊎◌, inl, inr, refl, ap, ap₂, sym, ◌∙◌, Bool, true, false, ◌&&◌, ◌||◌, [], ◌∷◌,
  ◌++◌, ◌==◌, if◌then◌else◌, All, arith, Bool-cases, ==_iff,
}
use vesper_platform.Binary.Utf8.{Text}
use vesper_platform.App.Credentials.{is_part, are_parts, is_label, is_domain, is_address, is_email}
use vesper_platform.Core.Context.{is_space}

abbrev pub AreParts : Text → Type 0
AreParts t = All (λ c. is_part c ≡ true) t

-- A local part, `@`, a domain with a dot that is not at either end; no white space and no second `@`.
abbrev pub IsEmail : Text → Type 0
IsEmail t =
    (local : Text) × (domain : Text) × (top : Text) × (t ≡ local ++ b'@' ∷ (domain ++ b'.' ∷ top))
    × (local ≢ [])
    × (domain ≢ [])
    × (top ≢ [])
    × AreParts local
    × AreParts domain
    × AreParts top

are_parts_iff : (t : Text) → (are_parts t ≡ true) ↔ AreParts t
unfolding are_parts
are_parts_iff [] = ground arith
are_parts_iff (c ∷ cs) = ground (arith, are_parts_iff cs)

is_label_iff : (t : Text) → (is_label t ≡ true) ↔ ((t ≢ []) × AreParts t)
unfolding is_label
is_label_iff [] = ground arith
is_label_iff (c ∷ cs) =
    (λ e. ((λ f. cc), (are_parts_iff (c ∷ cs)).0 e), λ h. (are_parts_iff (c ∷ cs)).1 h.1)

-- What follows a first character of the domain.
abbrev IsTail : Text → Type 0
IsTail t =
    (domain : Text) × (top : Text) × (t ≡ domain ++ b'.' ∷ top)
    × (top ≢ [])
    × AreParts domain
    × AreParts top

or_cases : (a b : Bool) → (a || b) ≡ true → (a ≡ true) ⊎ (b ≡ true)
or_cases true b e = inl refl
or_cases false b e = inr e

or_true : (a : Bool) → (a || true) ≡ true
or_true true = refl
or_true false = refl

apart : (false ≡ true) → ⊥
apart e = cc

and_cases : (a b : Bool) → (a && b) ≡ true → (a ≡ true) × (b ≡ true)
and_cases true b e = (refl, e)
and_cases false b e = absurd cc

is_domain-IsTail : (t : Text) → is_domain true t ≡ true → IsTail t
unfolding is_domain
is_domain-IsTail [] e = absurd cc
is_domain-IsTail (c ∷ cs) e =
    let (part, tail) = and_cases (is_part c) _ e in
    elim (or_cases (c == b'.' && is_label cs) (is_domain true cs) tail) [
      | inl h ↦
          let (dot, label) = and_cases (c == b'.') _ h in
          let (some_top, parts) = (is_label_iff cs).0 label in
          ([], cs, ap (λ x. x ∷ cs) ((==_iff c b'.').0 dot), some_top, tt, parts)
      | inr h ↦
          let (domain, top, e₁, some_top, parts, tops) = is_domain-IsTail cs h in
          (c ∷ domain, top, ap (◌∷◌ c) e₁, some_top, (part, parts), tops)
    ]

IsTail-is_domain :
    (domain top : Text)
    → top ≢ []
    → AreParts domain
    → AreParts top
    → is_domain true (domain ++ b'.' ∷ top) ≡ true
unfolding is_domain is_part is_space
IsTail-is_domain [] top n h k = rw ((is_label_iff top).1 (n, k)) refl
IsTail-is_domain (c ∷ domain) top n h k =
    rw (h.0, IsTail-is_domain domain top n h.1 k)
      (or_true (c == b'.' && is_label (domain ++ b'.' ∷ top)))

-- The rest of an address behind a first character of the local part.
abbrev IsRest : Text → Type 0
IsRest t =
    (local : Text) × (domain : Text) × (top : Text) × (t ≡ local ++ b'@' ∷ (domain ++ b'.' ∷ top))
    × (domain ≢ [])
    × (top ≢ [])
    × AreParts local
    × AreParts domain
    × AreParts top

is_domain-first :
    (t : Text)
    → is_domain false t ≡ true
    → (domain : Text) × (top : Text) × (t ≡ domain ++ b'.' ∷ top)
      × (domain ≢ [])
      × (top ≢ [])
      × AreParts domain
      × AreParts top
unfolding is_domain
is_domain-first [] e = absurd cc
is_domain-first (c ∷ cs) e =
    let (part, tail) = and_cases (is_part c) _ e in
    let (domain, top, e₁, some_top, parts, tops) = is_domain-IsTail cs tail in
    (c ∷ domain, top, ap (◌∷◌ c) e₁, (λ f. cc), some_top, (part, parts), tops)

is_address-at :
    (seen : Bool) (c : ℕ) (cs : Text)
    → (c == b'@') ≡ true
    → is_address seen (c ∷ cs) ≡ (seen && is_domain false cs)
unfolding is_address
is_address-at seen c cs h =
    ap (λ b. if b then seen && is_domain false cs else is_part c && is_address true cs) h

is_address-part :
    (seen : Bool) (c : ℕ) (cs : Text)
    → (c == b'@') ≡ false
    → is_address seen (c ∷ cs) ≡ (is_part c && is_address true cs)
unfolding is_address
is_address-part seen c cs h =
    ap (λ b. if b then seen && is_domain false cs else is_part c && is_address true cs) h

is_address-IsRest : (t : Text) → is_address true t ≡ true → IsRest t
unfolding is_address
is_address-IsRest [] e = absurd cc
is_address-IsRest (c ∷ cs) e = elim (Bool-cases (c == b'@')) [
  | inl h ↦
      let found : is_domain false cs ≡ true = sym (is_address-at true c cs h) ∙ e in
      let (domain, top, e₁, some_domain, some_top, parts, tops) = is_domain-first cs found in
      (
        [],
        domain,
        top,
        ap₂ (λ x y. x ∷ y) ((==_iff c b'@').0 h) e₁,
        some_domain,
        some_top,
        tt,
        parts,
        tops,
      )
  | inr h ↦
      let more : (is_part c && is_address true cs) ≡ true = sym (is_address-part true c cs h) ∙ e in
      let (part, rest) = and_cases (is_part c) _ more in
      let (local, domain, top, e₁, some_domain, some_top, locals, parts, tops) =
        is_address-IsRest cs rest in
      (c ∷ local, domain, top, ap (◌∷◌ c) e₁, some_domain, some_top, (part, locals), parts, tops)
]

is_email-IsEmail : (t : Text) → is_email t ≡ true → IsEmail t
unfolding is_email
is_email-IsEmail [] e = absurd (unfold is_address in apart e)
is_email-IsEmail (c ∷ cs) e = elim (Bool-cases (c == b'@')) [
  | inl h ↦
      let refused : false ≡ true = sym (is_address-at false c cs h) ∙ e in absurd (apart refused)
  | inr h ↦
      let more : (is_part c && is_address true cs) ≡ true =
        sym (is_address-part false c cs h) ∙ e in
      let (part, rest) = and_cases (is_part c) _ more in
      let (local, domain, top, e₁, some_domain, some_top, locals, parts, tops) =
        is_address-IsRest cs rest in
      (
        c ∷ local,
        domain,
        top,
        ap (◌∷◌ c) e₁,
        (λ f. cc),
        some_domain,
        some_top,
        (part, locals),
        parts,
        tops,
      )
]

part-at : (c : ℕ) → is_part c ≡ true → (c == b'@') ≡ false
unfolding is_part
part-at c h = ground arith

is_domain-start :
    (domain top : Text)
    → domain ≢ []
    → top ≢ []
    → AreParts domain
    → AreParts top
    → is_domain false (domain ++ b'.' ∷ top) ≡ true
unfolding is_domain
is_domain-start [] top m n h k = absurd (m refl)
is_domain-start (c ∷ domain) top m n h k = rw (h.0, IsTail-is_domain domain top n h.1 k) refl

IsRest-is_address :
    (local domain top : Text)
    → domain ≢ []
    → top ≢ []
    → AreParts local
    → AreParts domain
    → AreParts top
    → is_address true (local ++ b'@' ∷ (domain ++ b'.' ∷ top)) ≡ true
unfolding is_address
IsRest-is_address [] domain top m n l h k = is_domain-start domain top m n h k
IsRest-is_address (c ∷ local) domain top m n l h k =
    is_address-part true c _ (part-at c l.0)
    ∙ ap₂ (λ a b. a && b) l.0 (IsRest-is_address local domain top m n l.1 h k)

IsEmail-is_email : (t : Text) → IsEmail t → is_email t ≡ true
unfolding is_email
IsEmail-is_email t ([], domain, top, e, some_local, m, n, l, h, k) = absurd (some_local refl)
IsEmail-is_email t (c ∷ local, domain, top, e, some_local, m, n, l, h, k) =
    ap (is_address false) e
    ∙ is_address-part false c _ (part-at c l.0)
    ∙ ap₂ (λ a b. a && b) l.0 (IsRest-is_address local domain top m n l.1 h k)

-- The two forms accept an address exactly when it is a local part, an `@` and a domain with a dot
-- inside it, none of them empty or with white space or another `@`.
pub is_email_iff : (t : Text) → (is_email t ≡ true) ↔ IsEmail t
is_email_iff t = (is_email-IsEmail t, IsEmail-is_email t)
