-- ===== src/Parallel/Masking.antt =====
-- The errors of the strict validation while other goroutines run.
use go_mcp_oauth_sdk.Prelude.{String, ◌≡◌, none, Bool, true, false, refl, if◌then◌else◌}
use go_mcp_oauth_sdk.Errors.{Sentinel, detail, as_header_parse, is_kid_not_found, Result, ok, err}
use go_mcp_oauth_sdk.Env.{Env}
use go_mcp_oauth_sdk.Verifier.{System}
use go_mcp_oauth_sdk.Jwks.{time_now}
use go_mcp_oauth_sdk.Strict.{StrictJwtPolicy, strict_error}
use go_mcp_oauth_sdk.Strict.Masking.{IsPublic, strict_with_keys-IsPublic, strict_error-IsPublic}
use go_mcp_oauth_sdk.Program.{Program, finished, section, atomic, after, ◌>>=◌}
use go_mcp_oauth_sdk.Parallel.{
  map_error, parse_and_fetch_program, strict_parsed_program, strict_program,
}

-- The program fails with such errors only, whatever states its sections meet.
abbrev pub Masks : {Key A : Type 0} → Program Key A → Type 0
Masks (finished r) = IsPublic r
Masks {Key} (section act next) = (s : System Key) → Masks (next s)

module _ {Key A B : Type 0} where
  Masks-after :
      (p : Program Key A) (f : Result A → Program Key B)
      → ((r : Result A) → Masks (f r))
      → Masks (after p f)
  unfolding after
  Masks-after (finished r) f h = h r
  Masks-after (section act next) f h = λ s. Masks-after (next s) f h

  pub Masks-bind :
      (p : Program Key A) (f : A → Program Key B)
      → Masks p
      → ((a : A) → Masks (f a))
      → Masks (p >>= f)
  unfolding ◌>>=◌ after
  Masks-bind (finished (ok a)) f h k = k a
  Masks-bind (finished (err e)) f h k = h
  Masks-bind (section act next) f h k = λ s. Masks-bind (next s) f (h s) k

module _ {Key A : Type 0} where
  Masks-if : (b : Bool) (p q : Program Key A) → Masks p → Masks q → Masks (if b then p else q)
  Masks-if true p q h k = h
  Masks-if false p q h k = k

detail-IsPublic :
    (c : Sentinel) (t : String)
    → (as_header_parse (detail c t) ≡ none) × (is_kid_not_found (detail c t) ≡ false)
unfolding as_header_parse is_kid_not_found
detail-IsPublic c t = (refl, refl)

module _ {Key Token : Type 0} (env : Env Key Token) where
  strict_error-Masks :
      {A : Type 0} (r : Result A) → Masks {Key = Key} (finished (map_error (strict_error env) r))
  strict_error-Masks (ok a) = tt
  strict_error-Masks (err e) = strict_error-IsPublic env e

  time_now-Masks : Masks (atomic (time_now env))
  unfolding atomic time_now
  time_now-Masks = λ s. tt

  strict_parsed-Masks :
      (token : String) (policy : StrictJwtPolicy) → Masks (strict_parsed_program env token policy)
  unfolding strict_parsed_program
  strict_parsed-Masks token policy =
      Masks-bind _ _ (Masks-after (parse_and_fetch_program env token) _ strict_error-Masks)
        (λ (parsed, keys).
          Masks-bind _ _ time_now-Masks (λ now. strict_with_keys-IsPublic env policy _ parsed keys))

  pub strict-Masks :
      (token : String) (policy : StrictJwtPolicy) → Masks (strict_program env token policy)
  unfolding strict_program
  strict-Masks token policy = search (Masks-if, detail-IsPublic, strict_parsed-Masks)
