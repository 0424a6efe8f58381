-- ===== src/Lib.antt =====
-- go-mcp-oauth-sdk: the OAuth token validation of the package `oauth`, the JWE tokens of the package
-- `jwe_auth` and the helpers and stateless artifacts of the package `broker`.
--
-- The program. A host service holds a `Verifier` (oauth/jwks.go). It takes a bearer token from a
-- request (oauth/validator.go), finds the JWKS URI by configuration or by discovery
-- (oauth/discovery.go), fetches and caches the key set, parses the token and chooses keys by its
-- key id, with one fresh download if the id is unknown (oauth/jwt.go), and verifies it: by the
-- legacy path, which compares issuer and audience without trailing slashes and lets some bearers
-- through unvalidated (oauth/validator.go), or by the strict path, which compares byte for byte
-- (oauth/strict_jwt.go). The claims (oauth/claims.go) are put on the request's context
-- (oauth/context.go), resolved to an email identity (oauth/email_identity.go), checked against an
-- identity policy (oauth/identity_policy.go), and mapped to roles (oauth/roles.go) and user names
-- (oauth/forward.go).
-- Beside it, jwe_auth/jwe_auth.go seals claims in encrypted tokens, signed inside or plain, and
-- opens them. The OAuth broker (broker/helpers.go) keeps no state on the server: it seals a
-- pending authorization and an authorization code in such tokens, under a key by label, and has
-- helpers for URLs, scopes, upstream errors and userinfo documents.
--
-- The files. Each parent holds definitions, and its children what is proved of them.
--   Prelude, Prelude/*  shared names; signed integers and the wrap-around of int64; lists that
--                       collect without repetition; reorderings
--   Text, Text/*        Go's `strings` and `strconv` as the packages use them, the UTF-8 length, and
--                       strings that are not valid UTF-8
--   Json, Json/*        decoded JSON with type assertions and map lookups
--   Platform            Unicode case tables, float conversion and `%q`, as parameters
--   Errors, Errors/*    oauth/errors.go, the error types of oauth/jwt.go and the errors of
--                       jwe_auth/jwe_auth.go, with errors.Is and errors.As
--   Config, Claims, Policy, Policy/*, Identity, Identity/*, Email, Email/*, Roles,
--   Roles/*, Forward, Forward/*, Context, Context/*   oauth/config.go, claims.go, policy.go,
--                       identity_policy.go, email_identity.go, roles.go, forward.go and context.go,
--                       function by function
--   Env                 go-jose, HTTP, discovery, the clock and random numbers, as parameters
--   Verifier, Verifier/* the state and the actions on it: a result or an error with the state after
--                       it, so that a failed call keeps what it stored
--   Jwks, Jwks/*        oauth/jwks.go and oauth/discovery.go
--   Concurrent, Concurrent/*   `fetchJWKSet` and `invalidateJWKSCache` of oauth/jwks.go, run by any
--                       number of goroutines: a run is a list of events, each one section of a call
--   Endpoint, Endpoint/* `ResolveUserInfoEndpoint` of oauth/discovery.go
--   Jwt, Jwt/*          oauth/jwt.go
--   Strict, Strict/*    oauth/strict_jwt.go
--   Validator, Validator/*  oauth/validator.go
--   Api, Api/*          sequences of calls of the exported methods of `Verifier`
--   Program, Program/*  a method as a program of sections, between which other goroutines may run
--   Parallel, Parallel/* the exported methods of `Verifier` and what they call, as such programs
--   Goroutines, Goroutines/* any number of goroutines that run these programs on one `Verifier`: a
--                       run is a list of turns, each the begin of a call or one section of it
--   Jwe, Jwe/*          jwe_auth/jwe_auth.go, with SHA-256, HKDF, go-jose and encoding/json as
--                       parameters; Jwe/Documented holds what is relied on of them
--   Artifact, Artifact/* the JWE artifacts of broker/helpers.go and the readers of their claims
--   Broker, Broker/*    the constants, types, URLs, paths, lifetimes and scopes of broker/helpers.go
--   Upstream, Upstream/* its PKCE values, error texts, error response and userinfo claims
--   Tests, Tests/*      a small concrete world and the theorems applied to it
--
-- Conventions. Times count nanoseconds since Go's zero time, and token times are seconds since
-- 1970. Sums of int64 wrap around. Each call of the outside world has a number, and the world is a
-- function of it, so that the theorems hold for a network and a clock of any behaviour. A Go map is
-- an association list whose order is that of a range loop. All loops recur on lists or texts, so that
-- no fuel is needed. Where goroutines interleave, a section is what a method does between two points
-- at which it holds no lock: a reading of the clock, a locked block, a request, a log entry.
--
-- Not modelled: a context that is cancelled, but for the errors of requests that it causes; a
-- GET and the reading of its reply are one step. The clock and the random numbers that a locked
-- block reads belong to its section. JSON decoding, URL parsing, base64 and cryptography are
-- parameters. Texts are valid UTF-8, as decoders give them; only the error descriptions of
-- broker/helpers.go are Go strings of any bytes (Text/Bytes). The closing of a response body only
-- writes to the log. The tests are not modelled.
pub mod Prelude
pub mod Text
pub mod Json
pub mod Platform
pub mod Errors
pub mod Config
pub mod Claims
pub mod Policy
pub mod Identity
pub mod Email
pub mod Roles
pub mod Forward
pub mod Env
pub mod Verifier
pub mod Jwks
pub mod Concurrent
pub mod Jwt
pub mod Strict
pub mod Validator
pub mod Api
pub mod Program
pub mod Parallel
pub mod Goroutines
pub mod Context
pub mod Endpoint
pub mod Jwe
pub mod Artifact
pub mod Broker
pub mod Upstream
pub mod Tests
