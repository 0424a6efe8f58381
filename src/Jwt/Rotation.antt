-- ===== src/Jwt/Rotation.antt =====
-- The keys that a token is verified with, across a rotation of the signing keys.
use mathlib.Core.Bool.{false≢true}
use go_mcp_oauth_sdk.Prelude.{
  ℕ, ◌+◌, String, ◌≡◌, refl, sym, ◌∙◌, false, List, arith, if◌then◌else◌, is_empty,
}
use go_mcp_oauth_sdk.Errors
use go_mcp_oauth_sdk.Errors.{Failure, Result, ok, err, kid_not_found, plain, header_parse, wrap}
use go_mcp_oauth_sdk.Config.{OauthConfig}
use go_mcp_oauth_sdk.Env.{Env, IsRandom}
use go_mcp_oauth_sdk.Verifier.{System, log, ◌>>=◌}
use go_mcp_oauth_sdk.Verifier.Keeps.{Keeps}
use go_mcp_oauth_sdk.Jwks.{is_cached, decode_reply, invalidate_jwks_cache}
use go_mcp_oauth_sdk.Jwks.Steps.{from_cache, downloaded, failed, ending}
use go_mcp_oauth_sdk.Jwks.Cache.{TtlFits, IsCoherent}
use go_mcp_oauth_sdk.Jwt.Kept.{IsCoherent-IsKept, Keeps-parse_and_fetch}
use go_mcp_oauth_sdk.Jwt.{found_after_refetch, refetch_for, parse_and_fetch_keys}

module _ {Key Token : Type 0} (env : Env Key Token) (cfg : OauthConfig) where
  module _ (random : IsRandom env) (fits : TtlFits cfg) where
    pub parse_and_fetch_keys-IsCoherent :
        (token : String) → Keeps (IsCoherent env cfg) (parse_and_fetch_keys env token)
    parse_and_fetch_keys-IsCoherent token =
        Keeps-parse_and_fetch env (IsCoherent-IsKept env cfg random fits) token

-- A key set that was invalidated is not answered from the cache.
stale-after_invalidate :
    {Key : Type 0} (uri : String) (now : ℕ) (s : System Key)
    → is_cached (invalidate_jwks_cache s).1.verifier uri now ≡ false
unfolding is_cached invalidate_jwks_cache
stale-after_invalidate uri now s = ground arith

module _ {Key Token : Type 0} (env : Env Key Token) (parsed : Token) where
  -- What a key set gives for a key id.
  abbrev pub selection : String → List Key → Result (Token × List Key)
  selection key_id set =
      if is_empty (env.jose.find_keys set key_id)
      then err kid_not_found
      else ok (parsed, env.jose.find_keys set key_id)

  found_after_refetch-result :
      (keys : List Key) (s : System Key)
      → (found_after_refetch env parsed keys s).0
        ≡ (if is_empty keys then err kid_not_found else ok (parsed, keys))
  unfolding found_after_refetch ◌>>=◌ log
  found_after_refetch-result keys s = ground arith

  -- Where the key id is missing in the key set at hand, the answer is that of a new download: the
  -- cache is not asked again, and `kidNotFoundError` means that the new key set lacks the id too.
  pub refetch_for_lem :
      (uri key_id : String) (s : System Key)
      → (refetch_for env uri parsed key_id s).0
        ≡ (Errors.◌>>=◌ (decode_reply (env.get_jwks (s.calls + 1) uri)) (selection key_id))
  unfolding refetch_for ◌>>=◌ invalidate_jwks_cache
  refetch_for_lem uri key_id s = elim (ending env uri (invalidate_jwks_cache s).1) [
    | from_cache hit e ↦ absurd (false≢true (sym (stale-after_invalidate uri _ s) ∙ hit))
    | downloaded set _ reply e ↦
        rw (e, reply) (found_after_refetch-result (env.jose.find_keys set key_id) _)
    | failed x _ reply e ↦ rw (e, reply) refl
  ]
