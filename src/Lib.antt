-- ===== src/Lib.antt =====
-- A verification library for the backend of a download gate: a proxy asks it, for each request, whether
-- to allow it. A request carries a token, which is a proof of work, and a sign; a rule engine may decide
-- from the request and the status of the token; a blocker bounds the requests of an address that run at
-- once; a store counts the uses of a token, and another the requests that rules count. The configuration
-- is kept in revisions, and edited without its secrets.
--
-- How the parts interact: Verify of internal/auth/service.go enters the pending blocker, extracts the
-- token, classifies it with internal/pow, evaluates the rule chains of internal/risk, and then either
-- follows their verdict or checks the token itself. A verdict that honours a token, and the check
-- itself, charge the usage store of internal/storage. At the end the slot of the blocker is released.
--
-- Which file models which part:
-- - Base and its children: tests on numbers and texts, results with an error value, Go's integers.
-- - Platform/Strings: the parts of strings and netip that the program calls. Case mapping, regular
--   expressions, addresses and networks are fields of the record Platform.
-- - Risk/Target, Risk/Types: internal/risk/target.go, types.go, chain.go and the types of matcher.go.
-- - Risk/Matcher, Risk/Compile: internal/risk/matcher.go and config.go; Risk/Compile/Meaning reads a
--   match condition field by field.
-- - Risk/Engine: internal/risk/engine.go. evalState is EvalState, passed from call to call; evalChain is
--   eval_chain over enter_chain, guard_chain and walk_rules. Its children hold the reference reading
--   (Verdict), acyclic chains (Acyclic), Termination and Terminal targets.
-- - Risk/Pending: internal/risk/pending.go. IPPendingBlocker is IpPendingBlocker; its children are on
--   the slots of an address (Slots) and on blocks (Blocking).
-- - Storage/Types, Storage/Usage: internal/storage/store.go and errors.go, and the memory store of
--   internal/storage/memory/usage.go; Storage/Usage/Quota is on sequences of its operations.
-- - Pow/Token, Pow/Difficulty, Pow/Canonical, Pow/Sign: internal/pow. SHA-256, hexadecimal and the
--   decoding of base64 and JSON are fields of the record Crypto; Pow/Sign/Identity is on sign ids.
-- - Auth/Result, Auth/Rate: internal/auth/result.go, request.go, reasons.go, decision.go.
-- - Auth/Service: the construction of the service; Auth/Check and Auth/Usage: internal/auth/pow_verify.go;
--   Auth/Verdict and Auth/Verify: the rest of internal/auth/service.go. The usage store, the counters
--   and the blocker are one state, World, which Verify passes on.
-- - Storage/Counter and Risk/Counter: internal/storage/memory/counter.go and internal/risk/counter.go;
--   Storage/Counter/Count is on sequences of Incr, Risk/Counter/Requests on requests that are counted.
-- - Protection/Normalize, Protection/Matchers: internal/matcher; Decorated is on the forms of one file
--   name, Extensions on the extension matcher.
-- - Config/Files, Config/Store, Config/Revisions: internal/configstore/atomic.go and store.go, over the
--   calls of package os as the record FileOps, with AreFiles of Config/Files/Atomic as what the code
--   relies on. Store is the state in memory; an operation on files takes and returns a state of them.
-- - Config/Yaml, Config/Secret: internal/configctl/secret.go, on node trees; Config/Manager:
--   internal/configctl/manager.go, on decoded values. Apply of the manager goes through Apply of the
--   store, and the redaction and the merge stand at either end of an edit. Config/Secret/Below is on the
--   sections at any depth.
-- - Config/Settings, Config/Defaults, Config/Validate: internal/config/config.go, defaults.go and
--   validate.go. detectCycles is Config/Validate/Cycles, Validate itself Config/Validate/Everything;
--   Compiles and Fuel hold what is proved of them.
-- - Transport/Answer: writeAuthResult, formatRiskTrace and limitRateBytes of
--   internal/transport/echo/handlers.go, which put the result of Verify into headers; `first_bytes` is the slice
--   s[:n]. Headers, Trace and Rate are on one part of an answer each.
-- - Fixtures and Tests: concrete inputs, and the theorems at them.
--
-- Conventions: a Go int64 or int is an integer of Base/Int without bounds, except for rates, which wrap
-- around at 64 bits in Auth/Rate. A pointer that may be nil is an Option. A
-- mutex makes an operation one step. Each reading of the clock is an argument.
--
-- Fuel: eval_chain takes fuel for its recursion; eval_fuel gives nine visits to each name that a rule
-- jumps to and to the entry, since the guard turns away the tenth. decimal takes the number itself, which
-- has no more digits, and so does itoa. detect_cycles takes two more than the number of chains at each
-- root: a visit goes on only from a chain that was white.
--
-- Parameters: package os, the encodings JSON and YAML, url.PathUnescape, regular expressions, sorting,
-- float64 and reflect.DeepEqual are arguments or fields of records, since their code is not the
-- repository's.
--
-- Not modelled: logging and metrics, Echo's routes, middleware and probes, the loading of a configuration, and the stores on Redis and PostgreSQL. Of the manager, PlanRollback and the printing of YAML are left.
pub mod Base
pub mod Platform
pub mod Risk
pub mod Storage
pub mod Pow
pub mod Auth
pub mod Protection
pub mod Config
pub mod Transport
pub mod Fixtures
pub mod Tests
