-- ===== src/Endpoint/Laws.antt =====
-- Which replies make a userinfo endpoint.
use Prim.Native.String
use go_mcp_oauth_sdk.Prelude.{
  ◌<◌, String, ◌≡◌, ◌≢◌, ◌↔◌, inl, inr, refl, sym, arith, leb, Bool-cases, eq-cases,
}
use go_mcp_oauth_sdk.Text.{trim_space, trim_slashes}
use go_mcp_oauth_sdk.Errors.{ok}
use go_mcp_oauth_sdk.Endpoint.{
  unreadable, malformed, advertises, EndpointReply, bad_request, unreachable, response,
  read_document, read_endpoint, resolve_user_info_endpoint,
}

-- A reply of a status below 300, with a document that advertises the endpoint, perhaps with white
-- space around it.
abbrev pub Advertises : EndpointReply → String → Type 0
Advertises (bad_request e) endpoint = ⊥
Advertises (unreachable e) endpoint = ⊥
Advertises (response status (unreadable e)) endpoint = ⊥
Advertises (response status (malformed e)) endpoint = ⊥
Advertises (response status (advertises raw)) endpoint =
    (status < 300) × (trim_space raw ≡ endpoint)

same : {a b : String} → ok a ≡ ok b → a ≡ b
same h = cc

read_endpoint_iff :
    (reply : EndpointReply) (endpoint : String)
    → endpoint ≢ ""
    → (read_endpoint reply ≡ ok endpoint) ↔ Advertises reply endpoint
unfolding read_endpoint read_document
read_endpoint_iff (bad_request e) endpoint ne = ((λ h. cc), λ h. absurd h)
read_endpoint_iff (unreachable e) endpoint ne = ((λ h. cc), λ h. absurd h)
read_endpoint_iff (response status (unreadable e)) endpoint ne = ground arith
read_endpoint_iff (response status (malformed e)) endpoint ne = ground arith
read_endpoint_iff (response status (advertises raw)) endpoint ne =
    elim (Bool-cases (leb 300 status)) [
      | inl high ↦
          rw (read_endpoint, high) ((λ h. absurd (ne (sym (same h)))), λ h. absurd (ground arith))
      | inr low ↦ rw (read_endpoint, low) ((λ h. (ground arith, same h)), λ h. rw h.1 refl)
    ]

-- `ResolveUserInfoEndpoint` returns an endpoint that is not empty exactly if the issuer, trimmed, is
-- not empty and the reply to the GET of its configuration document advertises that endpoint.
pub resolve_user_info_endpoint_iff :
    (get : String → EndpointReply) (issuer endpoint : String)
    → endpoint ≢ ""
    → (resolve_user_info_endpoint get issuer ≡ ok endpoint) ↔ (
        (trim_slashes (trim_space issuer) ≢ "")
        × Advertises
            (get
              (String.◌++◌ (trim_slashes (trim_space issuer)) "/.well-known/openid-configuration"))
            endpoint)
unfolding resolve_user_info_endpoint
resolve_user_info_endpoint_iff get issuer endpoint ne =
    elim (eq-cases (trim_slashes (trim_space issuer)) "") [
      | inl (t, e) ↦ rw (t, resolve_user_info_endpoint) ((λ h. cc), λ h. absurd (h.0 e))
      | inr (t, some_issuer) ↦
          let inner =
            read_endpoint_iff
              (get (
                String.◌++◌ (trim_slashes (trim_space issuer)) "/.well-known/openid-configuration"))
              endpoint ne in
          rw (t, resolve_user_info_endpoint) ((λ h. (some_issuer, inner.0 h)), λ h. inner.1 h.1)
    ]
