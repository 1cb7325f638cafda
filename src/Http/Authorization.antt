-- ===== src/Http/Authorization.antt =====
-- api/http/identity.go: the identity of a request. `split` is `strings.Split(_, " ")`, and `extract`
-- is `identity.ExtractIdentity` of go-lib-micro. The router uses the middleware of that library.
use deviceconnect.Prelude.{
  String, Bool, true, false, List, [], ◌∷◌, Option, none, some, str_eq, str_eq_iff, if◌then◌else◌,
  if_elim, ◌≡◌, ◌≢◌, ◌⊎◌, inl, inr, refl, ap, ◌∙◌, arith,
}
use deviceconnect.Errors.{Result, ok, err, panic}
use deviceconnect.FileTransfer.Requests.{Identity}

-- A request: the value of `jwt` in its query and that of its `Authorization`.
pub record Request : Type 0 where
  pub jwt : String
  pub authorization : String

abbrev pub bearer : List String → String
bearer (scheme ∷ token ∷ []) = if str_eq scheme "Bearer" then token else ""
bearer _ = ""

abbrev pub no_identity : Identity
no_identity = record { subject = ""; tenant = ""; is_user = false }

module _ (split : String → List String) (extract : String → Result Identity) where
  -- `extractTokenFromRequest`
  unfoldable pub extract_token_from_request : Request → String
  extract_token_from_request r = if str_eq r.jwt "" then bearer (split r.authorization) else r.jwt

  -- The identity that the context gets: without an error the one that was extracted.
  abbrev pub with_identity : Result Identity → Option Identity
  with_identity (ok i) = some i
  with_identity _ = none

  -- `IdentityMiddleware`; a request without a token gets the empty identity.
  unfoldable pub identity_middleware : Request → Option Identity
  unfolding extract_token_from_request
  identity_middleware r =
      let token = extract_token_from_request r in
      if str_eq token "" then some no_identity else with_identity (extract token)

  bearer-token : (parts : List String) → bearer parts ≢ "" → parts ≡ "Bearer" ∷ bearer parts ∷ []
  bearer-token [] = λ h. absurd (h refl)
  bearer-token (a ∷ []) = λ h. absurd (h refl)
  bearer-token (a ∷ b ∷ []) =
      if_elim (λ t. t ≢ "" → (a ∷ b ∷ []) ≡ "Bearer" ∷ t ∷ []) (str_eq a "Bearer") b ""
        (λ e h. ap (λ x. x ∷ b ∷ []) ((str_eq_iff a "Bearer").0 e)) (λ _ h. absurd (h refl))
  bearer-token (a ∷ b ∷ c ∷ parts) = λ h. absurd (h refl)

  extract_token_from_request-source :
      (r : Request)
      → extract_token_from_request r ≢ ""
      → (r.jwt ≡ extract_token_from_request r)
        ⊎ ((r.jwt ≡ "") × (split r.authorization ≡ "Bearer" ∷ extract_token_from_request r ∷ []))
  unfolding extract_token_from_request
  extract_token_from_request-source r =
      if_elim
        (λ t. t ≢ "" → (r.jwt ≡ t) ⊎ ((r.jwt ≡ "") × (split r.authorization ≡ "Bearer" ∷ t ∷ [])))
        (str_eq r.jwt "") (bearer (split r.authorization)) r.jwt
        (λ e h. inr ((str_eq_iff r.jwt "").0 e, bearer-token (split r.authorization) h))
        (λ _ h. inl refl)

  with_identity-ok : (x : Result Identity) (i : Identity) → with_identity x ≡ some i → x ≡ ok i
  with_identity-ok (ok j) i h = cc
  with_identity-ok (err e) i h = absurd cc
  with_identity-ok panic i h = absurd cc

  -- A request is a user's only by a token: it is not empty, it is the one of the query or, where the query has
  -- none, the second word of an `Authorization` of two words whose first is "Bearer", and the
  -- identity is the one that was extracted from it without an error.
  pub identity_middleware-user :
      (r : Request) (i : Identity)
      → identity_middleware r ≡ some i
      → i.is_user ≡ true
      → (token : String) × (token ≢ "")
        × (extract token ≡ ok i)
        × ((r.jwt ≡ token) ⊎ ((r.jwt ≡ "") × (split r.authorization ≡ "Bearer" ∷ token ∷ [])))
  unfolding identity_middleware extract_token_from_request
  identity_middleware-user r i h user =
      if_elim P (str_eq token "") (some no_identity) (with_identity (extract token))
        (λ _ h. absurd (not_user (ap is_user_of h ∙ user)))
        (λ n h.
          let nonempty : token ≢ "" = ground (arith, str_eq_iff token "") in
          (
            token,
            nonempty,
            with_identity-ok (extract token) i h,
            extract_token_from_request-source r nonempty,
          ))
        h
    where
      token : String
      token = extract_token_from_request r

      is_user_of : Option Identity → Bool
      is_user_of none = false
      is_user_of (some j) = j.is_user

      not_user : false ≡ true → ⊥
      not_user e = cc

      P : Option Identity → Type 0
      P x =
          x ≡ some i
          → (token : String) × (token ≢ "")
            × (extract token ≡ ok i)
            × ((r.jwt ≡ token) ⊎ ((r.jwt ≡ "") × (split r.authorization ≡ "Bearer" ∷ token ∷ [])))
