-- ===== src/Middleware/Bearer.antt =====
-- A token of GenerateToken opens the requests of its user.
use go_hermes.Base.{
  String, true, false, some, [], ◌∷◌, ◌≡◌, ◌≢◌, refl, ap, ◌∙◌, ◌+◌, ◌≤◌, str_eq, str_eq_iff,
  Bool-cases, inl, inr, arith, Bool, not, if◌then◌else◌,
}
use go_hermes.AppError.{Result, ok}
use go_hermes.AuthUsecase.{
  Claims, JwtManager, AuthLib, AuthDraws, generate_token, token_claims, token_expiry,
}
use go_hermes.Entity.{Time, User}
use go_hermes.Types.{role_text}
use go_hermes.UuidLib.{UuidLib}
use go_hermes.Middleware.{
  JwtLib, TextLib, Ctx, hs256, key_of, checked_token, parse_token, set_claims, bearer_token,
  invalid_header, with_token, auth,
}

-- A token signed with a key is valid under that key, for its issuer and up to the second of its
-- expiry; numeric dates have whole seconds, so of the claims the user and the role come back.
pub record IsJwt (l : JwtLib) (a : AuthLib) : Type 0 where
  pub signed :
      (key : String) (claims : Claims) (token : String) (keys : String → Result String) (now : Time)
      → a.sign key claims ≡ ok token
      → keys hs256 ≡ ok key
      → now + 1000000000 ≤ claims.expires_at
      → (c : Claims) × (l.parse_with_claims (hs256 ∷ []) claims.issuer keys now token
          ≡ ok (record { claims = some c; valid = true }))
        × (c.user_id ≡ claims.user_id)
        × (c.role ≡ claims.role)

otherwise {ℓ} : {A : Type ℓ} (b : Bool) (x y : A) → b ≡ false → (if b then x else y) ≡ y
otherwise true x y h = absurd (ground arith)
otherwise false x y h = refl

not_empty : (s : String) → s ≢ "" → str_eq s "" ≡ false
not_empty s h = elim (Bool-cases (str_eq s "")) [
  | inl same ↦ absurd (h ((str_eq_iff s "").0 same))
  | inr differ ↦ differ
]

module _ (t : TextLib) (l : JwtLib) (u : UuidLib) (a : AuthLib) (h : IsJwt l a) where
  parse_token-generate_token :
      (j : JwtManager) (d : AuthDraws) (x : User) (token : String) (now : Time)
      → generate_token u a j d x ≡ ok token
      → now + 1000000000 ≤ token_expiry j d.token_at
      → (c : Claims) × (parse_token l j now token ≡ ok c)
        × (c.user_id ≡ u.text x.id)
        × (c.role ≡ role_text x.role)
  unfolding generate_token parse_token
  parse_token-generate_token j d x token now made fresh =
      let (c, parsed, user_id, role) =
        h.signed j.secret_key (token_claims u j (token_expiry j d.token_at) d.issued_at x) token
          (key_of j) now made refl fresh in
      (c, ap checked_token parsed, user_id, role)

  -- If GenerateToken has signed a token for a user, and a request carries it after the word Bearer
  -- more than a second before the token expires, then Auth lets the request pass, with the user's id
  -- and role as its locals and nothing else changed.
  pub auth-generate_token :
      (j : JwtManager) (d : AuthDraws) (x : User) (token scheme : String) (now : Time) (c : Ctx)
      → generate_token u a j d x ≡ ok token
      → now + 1000000000 ≤ token_expiry j d.token_at
      → c.header "Authorization" ≢ ""
      → t.split_n (c.header "Authorization") " " 2 ≡ scheme ∷ token ∷ []
      → t.equal_fold scheme "Bearer" ≡ true
      → auth t l j now c
        ≡ ok (record c { user_id = some (u.text x.id); role = some (role_text x.role) })
  unfolding auth
  auth-generate_token j d x token scheme now c made fresh given parts bearer =
      let (claims, parsed, user_id, role) = parse_token-generate_token j d x token now made fresh in
      otherwise (str_eq (c.header "Authorization") "") _ _ (not_empty _ given)
      ∙ (ap (λ ps. with_token t l j now (bearer_token t ps) c) parts
          ∙ (ap (λ b. with_token t l j now (if not b then invalid_header t else ok token) c) bearer
              ∙ (ap (λ r. set_claims r c) parsed
                  ∙ (ap (λ i. ok (record c { user_id = some i; role = some claims.role })) user_id
                      ∙ ap (λ k. ok (record c { user_id = some (u.text x.id); role = some k }))
                          role))))
