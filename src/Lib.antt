-- ===== src/Lib.antt =====
-- A model of oidc-token, a command that obtains an OpenID Connect token, keeps it in a store and
-- prints it, and the theorems that make it correct.
--
-- The program resolves its configuration from flags, a config file, the environment and defaults
-- (internal/flagbinding, internal/config). It then asks a runner (internal/runner) for tokens, which
-- takes them from a store (internal/cache), refreshes them under a lock, or logs in. Refresh and
-- login go through a source (internal/authflow) that discovers the issuer and negotiates a grant,
-- over the requests of internal/oidc. A token exchange (internal/grant/tokenexchange,
-- internal/subjecttoken) passes by the runner and the store. The tokens are rendered
-- (internal/output) and written (cmd/oidc-token).
--
-- Files, and the code they model:
--   Base           what the files share: texts, association lists, Go's errors, results, JSON values
--   Output         internal/output/output.go
--   Cache          internal/cache/store.go (Entry, Store); Cache.Noop: noop.go; Cache.Chain: chain.go;
--                  Cache.File: cache.go; Cache.Keychain: keychain.go; Cache.Lawful: the contract of a
--                  store, as laws over a view of its entries
--   Flagbinding    internal/flagbinding/binding.go: the precedence stack of each type of field, and
--                  (Flagbinding.Registration) the flag that each registers
--   Config         internal/config/config.go: Config.Validate (validate), Config.Fields (the table of
--                  fields and the registration of all flags), Config.Arguments (the loop of Go's
--                  flag package over the arguments, which has no lines in the repository), Config.Fields.Help (the flags as the help
--                  text sees them), Config.Resolve (the precedence stack for every
--                  field), Config.Parse (the rest of Parse, resolvePrivateKey; DefaultDir of
--                  internal/cache/cache.go), Config.Extra (extraFieldsFlag); Config.Usage: usage.go
--   Subjecttoken   internal/subjecttoken: source.go, githubactions.go
--   Grant          internal/grant/grant.go (ConfigBridge); Grant.TokenExchange: tokenexchange/
--                  tokenexchange.go; Grant.Kinds: the interface Grant and the three grants behind it
--   Runner         internal/runner/runner.go; Runner.Process: a run, one operation at a time;
--                  Runner.Concurrent: runs that share a profile, in any interleaving, each with the
--                  lock of its store
--   Oidc           internal/oidc: Oidc.Discovery (discovery.go), Oidc.Token (token.go), Oidc.Request
--                  (clientauth.go, refresh.go), Oidc.Exchange (tokenexchange.go, refresh.go), Oidc.Client
--                  (what the oauth2 package is given: httpclient.go, oauth2Config, applyClientAuth,
--                  Refresh), Oidc.Callback (callback.go), Oidc.Authcode (authcode.go), Oidc.Device
--                  (device.go: deviceAssertionLifetime) and Oidc.Device.Login (DeviceLogin)
--   Authflow       internal/authflow/select.go and environment.go; Authflow.Source: Source;
--                  Authflow.Flows: the operations of internal/oidc behind its interface;
--                  Authflow.Browser: browser.go
--   Oidctest       internal/oidctest/mockissuer.go: the issuer of the tests; Oidctest.Token: its
--                  token endpoint
--   Main           cmd/oidc-token/main.go and source.go; Main.Program: with the stores of internal/cache
--   Tests          examples
-- The children Laws, Failure, Reuse, Secret, Plan, Fallback, Stored, Kept, Atomic, Whole,
-- Contract, Closed, Termination, Spelling, Values, Exclusion, Lasting, Invariant, Once, Tokens,
-- Rotation, Verified, Client and
-- (of Oidctest) Device of a module hold its proofs.
--
-- How code is translated. A function that returns an error and acts on files, the network, the clock
-- or a writer is a function from a world `W` to a result and a world, written in do blocks; what the
-- world is stays open. An early return is the bind of `M`; where one function of the code has
-- several, what follows one is a definition of its own, named for what it does. A call of another package is
-- a parameter: the HTTP client, `url.Parse`, JSON, the id_token verifier, the signer. Go's flag package
-- and the basic authentication of net/http are written out.
-- Standard output has a world of its own in Main, which only `write_result` is given. `Process.parse`
-- stands for Parse, whose model is `Config.Parse.parse`. Errors keep the structure that `errors.Is`
-- and `errors.As` see, while their texts are shortened. Times are nanoseconds since Go's zero time;
-- the one product that can overflow, `expires_in` seconds as a duration, is written out modulo 2^64.
-- What happens at once, the requests that reach the server of a login and the end of its time, is a
-- list of events in any order. What the stores rely on, of files and of the keychain, is a record of
-- laws (IsFileSystem, IsKeyring) that a directory in memory satisfies. Runs that share a
-- profile are a step relation: a step is one operation of one process, with whatever answer. A run
-- takes the lock that `lock_of` names: one for all over the file store and the chain, one for each
-- process of the operating system over the keychain alone.
-- Loops go over lists, but for the one over the arguments, which uses up one or two of them in a
-- round: it gets one round for each argument and one more, and never needs more.
--
-- Not modelled: the texts of most messages, the polling inside the oauth2 package, the support of the
-- end-to-end tests, and what writes to standard error beyond its place among the steps. Parse is
-- modelled with its three grants one by one, as it is only ever called with them.
pub mod Base
pub mod Output
pub mod Cache
pub mod Config
pub mod Flagbinding
pub mod Subjecttoken
pub mod Grant
pub mod Runner
pub mod Oidc
pub mod Oidctest
pub mod Authflow
pub mod Main
mod Tests
