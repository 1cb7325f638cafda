-- ===== src/Http/Origins.antt =====
-- api/http/cors.go: `SetAcceptedOrigins` chooses the function that tests the origin of a websocket.
use deviceconnect.Prelude.{
  String, Bool, true, false, List, [], ◌∷◌, Option, none, some, str_eq, str_eq_iff, if◌then◌else◌,
  ◌≡◌, refl, ◌↔◌, ◌⊎◌, inl, inr, arith, sym, Bool-cases,
}

-- `r.Header[HdrKeyOrigin]`: `none` where the key is missing.
abbrev pub Origin : Type 0
Origin = Option (List String)

-- `map[string]struct{}`, by what a lookup gives.
abbrev pub OriginSet : Type 0
OriginSet = String → Bool

abbrev pub empty_set : OriginSet
empty_set x = false

abbrev pub add : String → OriginSet → OriginSet
add origin m x = if str_eq x origin then true else m x

-- The loop over `origins`.
abbrev pub origin_set : List String → OriginSet → OriginSet
origin_set [] m = m
origin_set (origin ∷ origins) m = origin_set origins (add origin m)

-- The function for one origin: `len(actual) > 0 && origin == actual[0]`.
abbrev pub is_origin : String → Origin → Bool
is_origin origin none = true
is_origin origin (some []) = false
is_origin origin (some (actual ∷ _)) = str_eq origin actual

-- The function for several origins.
abbrev pub is_in_set : OriginSet → Origin → Bool
is_in_set m none = true
is_in_set m (some []) = false
is_in_set m (some (actual ∷ _)) = m actual

-- `SetAcceptedOrigins`, and the function that it sets.
unfoldable pub check_origin : List String → Origin → Bool
check_origin [] header = true
check_origin (origin ∷ []) header = is_origin origin header
check_origin (origin ∷ other ∷ origins) header =
    is_in_set (origin_set (origin ∷ other ∷ origins) empty_set) header

-- The origin stands in the list.
abbrev pub IsListed : String → List String → Type 0
IsListed x [] = ⊥
IsListed x (origin ∷ origins) = (x ≡ origin) ⊎ IsListed x origins

-- Every origin is accepted, the request names none, or the first that it names is in the list.
abbrev pub IsAccepted : List String → Origin → Type 0
IsAccepted [] header = Unit {0}
IsAccepted (origin ∷ origins) none = Unit {0}
IsAccepted (origin ∷ origins) (some []) = ⊥
IsAccepted (origin ∷ origins) (some (actual ∷ _)) = IsListed actual (origin ∷ origins)

origin_set-IsListed :
    (x : String) (origins : List String) (m : OriginSet)
    → (origin_set origins m x ≡ true) ↔ (IsListed x origins ⊎ (m x ≡ true))
origin_set-IsListed x [] m = (inr, λ s. elim s [ inl a ↦ absurd a | inr h ↦ h ])
origin_set-IsListed x (origin ∷ origins) m =
    let (there, back) = origin_set-IsListed x origins (add origin m) in
    (λ h. from (there h), λ s. back (to s))
  where
    from :
        IsListed x origins ⊎ (add origin m x ≡ true) → IsListed x (origin ∷ origins) ⊎ (m x ≡ true)
    from (inl a) = inl (inr a)
    from (inr h) = elim (Bool-cases (str_eq x origin)) [
      | inl e ↦ inl (inl ((str_eq_iff x origin).0 e))
      | inr n ↦ inr (ground arith)
    ]

    to : IsListed x (origin ∷ origins) ⊎ (m x ≡ true) → IsListed x origins ⊎ (add origin m x ≡ true)
    to (inl (inl e)) = inr (ground (arith, str_eq_iff x origin))
    to (inl (inr a)) = inl a
    to (inr h) = inr (ground (arith, str_eq_iff x origin))

-- Whether the function for no origin, that for one, or that for several is chosen: a websocket is
-- accepted exactly where the list of accepted origins is empty, the request has no `Origin`, or the
-- first value of its `Origin` stands in the list.
pub check_origin-IsAccepted :
    (origins : List String) (header : Origin)
    → (check_origin origins header ≡ true) ↔ IsAccepted origins header
unfolding check_origin
check_origin-IsAccepted [] header = (λ h. tt, λ u. refl)
check_origin-IsAccepted (origin ∷ []) none = (λ h. tt, λ u. refl)
check_origin-IsAccepted (origin ∷ other ∷ origins) none = (λ h. tt, λ u. refl)
check_origin-IsAccepted (origin ∷ []) (some []) = (λ h. absurd cc, λ u. absurd u)
check_origin-IsAccepted (origin ∷ other ∷ origins) (some []) = (λ h. absurd cc, λ u. absurd u)
check_origin-IsAccepted (origin ∷ []) (some (actual ∷ rest)) = (
  λ h. inl (sym ((str_eq_iff origin actual).0 h)),
  λ a. elim a [ inl e ↦ (str_eq_iff origin actual).1 (sym e) | inr n ↦ absurd n ],
)
check_origin-IsAccepted (origin ∷ other ∷ origins) (some (actual ∷ rest)) =
    let (there, back) = origin_set-IsListed actual (origin ∷ other ∷ origins) empty_set in
    (λ h. elim (there h) [ inl a ↦ a | inr e ↦ absurd cc ], λ a. back (inl a))
