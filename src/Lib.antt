-- ===== src/Lib.antt =====
-- NormGate decides requests by policies. Contributions of layered rules are composed into one
-- result, and a manager activates, refreshes, rolls back and recovers the policy bundles that a
-- decision is taken under. This library models that core of the Go code and proves what makes it
-- correct.
--
-- The parts, and the files that model them:
--   * internal/policy/composition.go: Policy/Composition.antt. `Compose` sorts the contributions by
--     their JSON, checks each one, gathers flags, reason codes and obligations, refuses conflicting
--     obligations and decides by precedence: `compose`, with `add_part` for one round of the loop
--     and `finish` for what follows it. A return inside the loop is a `stop`. A dereference of a
--     missing destination is a panic. Its proofs are in Policy/Composition/.
--     `ExplainResult` is in Policy/Explained.antt, over Decision and Compose.
--   * internal/policy/manager.go: Policy/Manager.antt with the state, Activation.antt (activate,
--     validate, persist), Lifecycle.antt (Rollback, Refresh, Status, Evaluate) and Startup.antt
--     (NewManager, recover) below it. The disk is state.json and a map of archives by file name. A
--     call is a function of the manager; the mutex orders the calls. The `World` of a call says
--     which of its system calls fail, whether its context is cancelled and what the clock shows,
--     so a theorem for all worlds is one for all failures. Health is not ready where the context
--     is cancelled by then. A nil engine or source is `none`; the longest staleness is a field of the
--     manager that NewManager starts from. Retry.antt is Run, over a list of rounds
--     that says what happens in each; a loop that goes on has used up the rounds. The other files
--     of Policy/Manager are proofs.
--   * internal/policy/bundle.go: Policy/Bundle/Version.antt (version, compatible),
--     Dependencies.antt (ValidateDependencies), Files.antt (safePath, checkFiles), Inspect.antt
--     (ParseManifest, Inspect), Seal.antt (seal, fileDigest), Archive.antt (ReadArchive, Build) and
--     Diff.antt beside it; Directory.antt is LoadDir and Load over what a walk of a directory visits.
--     A Go map is a list of entries, in Dependencies.antt the latest first, and
--     the order of a range over it is a parameter where the result depends on it; only the error
--     that checkFiles picks among several depends on the order of the list that stands for the map.
--     fs.ValidPath, path.Clean, the two regular expressions and strings.TrimSpace are written out.
--     The decoders of JSON with their schemas, SHA-256, gzip and tar are parameters: `Decoders`, a
--     function on bytes and `Packages`. File names are valid UTF-8.
--   * internal/policy/opa/engine.go: Policy/Opa/. Syntax.antt is boundedSyntax, Lint.antt the walks
--     over a parsed module, Rules.antt `depth` and `visit` with the loops around them, Compile.antt the
--     part of Compile between its locks and Revisions.antt the engine: New, the two locked sections
--     of Compile, Health and Close. Compile gets the state that it reads and the one that it finds at
--     its second lock, so other calls may interleave. What the third-party packages ast, rego and
--     inmem give is the parameter `Rego`.
--   * The manager with that engine: Policy/Managed.antt fills the interface `Engine` with the
--     definitions of bundle.go, scenarios.go and opa/engine.go.
--   * internal/policy/source.go: Policy/Sources.antt (FileSource, ReadEvent) with Http.antt and Oci.antt
--     below it (HTTPSource, OCISource). A Fetch is a function of the source, of the ETag that is held
--     and of what the file system or the network answers; url.Parse is a parameter. A source is the
--     `Source` of a call of Refresh, and Policy/Managed/Refreshed.antt composes the two.
--   * internal/policy/engine.go: the errors, contributions and results of Policy.antt; the interface
--     Engine, with ReadArchive, Inspect and RunTests, is the parameter `Engine` of the manager.
--     FactsPresent is in Policy/Facts.antt, over a parameter for time.Parse. CanonicalEvent,
--     DigestValue and Decision are in Policy/Decisions.antt, over the parameter `Events`, which stands
--     for the generated type of events with its JSON.
--   * internal/policy/scenarios.go: Policy/Scenarios.antt (RunTests, where ParseScenario and Explain
--     are parameters) and Policy/Scenarios/Parse.antt (ParseScenario, safeYAML, and strictJSON of
--     bundle.go), over a parameter for the third-party package yaml, whose nodes are in Yaml.antt.
--   * internal/contracts/validate.go: Contracts/Validation.antt (compileBundle, Validate, Decode). The
--     compiler of schemas is a parameter, and a schema is a test on values.
--   * internal/config/config.go: Config.antt (Load, resolve, inspectYAML, Validate, String). The
--     environment, the files, net, net/url and package yaml are the parameter `System`.
--   * internal/contracts/v1/types.gen.go: Contracts.antt. The schema validator, a third-party
--     package, is the interface `Schemas`, whose laws are what the embedded schemas require: one of
--     four outcomes, and a destination where the kind needs one.
--   * internal/normalization/normalization.go: Normalization/Normalize.antt (normalize, with its
--     timestamps, sets and omitted paths), Normalization/Encode.antt (encode, quote),
--     Normalization/Decode.antt (Decode, readValue, checkString, validSurrogates) and
--     Normalization/Canonicalize.antt. The tokens of json.Decoder and the packages norm and time are
--     parameters.
--   * internal/errors/errors.go and internal/api/errors.go: Api.antt, the category of an error and
--     the response that a client gets.
--   * encoding/json as the code uses it: Json.antt writes values as Marshal does, with its escapes.
--   * Text.antt, Sort.antt and Prelude.antt are shared: texts are lists of code points, and sorting
--     is insertion sort, which agrees with slices.Sort on orders where equal means identical.
--
-- Fuel: the decimal digits of a number n run on n + 1, which is more than the number of its
-- digits, and a visit of ValidateDependencies on one more than the number of manifests, since a
-- visit begins at each manifest once at most.
--
-- The walks of Compile over the rules run on one more than the number of rules, which is enough
-- where no rule depends on itself, as the compiler of Rego makes sure: a chain of dependencies then
-- has at most as many rules as there are.
--
-- Decode runs on twice the number of tokens and one, since each token is met by at most two calls;
-- the loop of validSurrogates runs on the number of bytes, of which each round takes one at least.
--
-- Not modelled: the compiler and evaluator of Rego, which are third-party, and Explain, which calls
-- them on an event; the parsers of YAML, URLs and addresses and the encoders of the generated types,
-- which are parameters; the command line, which only calls the other parts; the web console, the
-- SDKs, the scripts and the deployments. Times are natural numbers.
pub mod Api
pub mod Config
pub mod Contracts
pub mod Json
pub mod Normalization
pub mod Policy
pub mod Prelude
pub mod Sort
pub mod Tests
pub mod Text
pub mod Yaml
