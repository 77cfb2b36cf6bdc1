-- ===== src/Admission/Authorizer.antt =====
-- The markers of authorizer_types.go.
use agentic_platform.Prelude.{
  String, Bool, true, ◌≡◌, ◌&&◌, ◌≤◌, some, length, leb, str_eq, str_eq_iff, Option-cases, inl, inr,
  sized, all, arith,
}
use agentic_platform.Memory.{Ref}
use agentic_platform.Api.Authorizer.{
  authorizer_type_jwt, JwtAuthorizerConfig, MyceliumAuthorizerSpec,
}
use agentic_platform.Admission.Format.{has, optional, items}
use agentic_platform.Admission.Tool.{set_when}
use agentic_platform.Admission.CredentialProvider.{admits_url}

module _ (is_uri : String → Bool) where
  unfoldable pub admits_jwt : JwtAuthorizerConfig → Bool
  admits_jwt j =
      admits_url is_uri j.issuer
      && leb 1 (length (items j.audiences))
      && leb (length (items j.audiences)) 16
      && all (sized 1 256) (items j.audiences)
      && leb (length (items j.allowed_clients)) 64
      && all (sized 1 256) (items j.allowed_clients)
      && leb (length (items j.allowed_scopes)) 64
      && all (sized 1 256) (items j.allowed_scopes)
      && admits_url is_uri j.jwks_endpoint

  unfoldable pub admits_authorizer_spec : MyceliumAuthorizerSpec → Bool
  admits_authorizer_spec s =
      str_eq s.type authorizer_type_jwt
      && set_when s.type authorizer_type_jwt (has s.jwt)
      && optional admits_jwt s.jwt

  -- An admitted authorizer has a JWT configuration with an issuer, a JWKS endpoint and at least
  -- one audience.
  pub admits_authorizer_spec-jwt :
      (s : MyceliumAuthorizerSpec)
      → admits_authorizer_spec s ≡ true
      → (r : Ref JwtAuthorizerConfig) × (s.jwt ≡ some r)
        × (is_uri r.content.issuer ≡ true)
        × (is_uri r.content.jwks_endpoint ≡ true)
        × (1 ≤ length (items r.content.audiences))
  unfolding admits_authorizer_spec admits_jwt
  admits_authorizer_spec-jwt s h =
      let iff = str_eq_iff s.type authorizer_type_jwt in
      elim (Option-cases s.jwt) [
        | inl missing ↦ absurd (ground (arith, iff))
        | inr (r, e) ↦ (r, e, ground arith, ground arith, ground arith)
      ]
