-- ===== src/Lib.antt =====
-- Verification library of agentwrap, a Go SDK that runs agent runtimes behind one contract and wraps
-- them with a resilience policy, output validation and observation.
--
-- The parts and the files that model them (paths from the repository's root):
-- - errors.go: Errors. A category is a constructor for each constant and `other` for any other text.
-- - permissions.go: Permissions/Types, Permissions/Validate.
-- - runtime.go, metadata.go, lifecycle.go, the data of validation.go and cache.go: Contract and its
--   children; Contract/Zero has Go's zero values.
-- - events.go, lifecycle_events.go: Events/Envelope, Events/Lifecycle; a value of type `any` is
--   `Any` of Dynamic.
-- - policy.go: Policy. Types has the contexts and decisions, Backoff the two backoffs, Basic the
--   BasicPolicy with its laws, Requests the overlay of requests, Summary what is read off a result.
--   Policy/Runner is PolicyRunner: State has policyRun and its environment, Stream the sending of
--   events, Targets the fallbacks, Attempt one attempt, Finish the end of a run, and Execute the loop
--   of `execute`; its children hold the loop's invariants and its termination.
-- - redact.go, with WithMetadata and WithResponse of errors.go: Redact, and Redact/Paths for what is
--   left of each text. The answers of the three regular expressions are the record Patterns, a
--   parameter.
-- - validation.go: Validation/Checks makes and normalises single checks, Validation/Aggregate is
--   aggregateValidation, Validation/Headings is missingInOrder, Validation/Markdown finds headings and
--   open slots, Validation/Expectations has the checks of each kind and ValidateRun.
--   Validation/Runner is ValidatingRuntime: State has validationRun and its environment, Stream the
--   sending of events, Results what is written into results, Repair the parts of a round, and Execute
--   the loop of `execute`, with what a finished run is like; Execute/Ledger reads off the calls which
--   validations were made. A text is a list of code points; a
--   byte of a character that is cut in two reads as U+FFFD.
-- - config.go, with SecretFromEnv of redact.go: Config; Config/Merge and Config/Entries are
--   about MergeEffectiveConfig, Config/Valid about ValidateEffectiveConfig.
-- - health.go: Health is OverallHealthStatus and Health/Required is RequiredHealthFailure; the order
--   in which Go ranges over the keys of a map is an argument.
-- - observability.go: Observe/Records has the records, Observe/Store is MemoryRunStore, with Store/Calls
--   for sequences of its calls, Store/Trim for the loop of AppendEvent, Store/History for the events it
--   holds, Store/Completed for the completed runs and Completed/Evicting for what an eviction does to a
--   run. A Go map is a list of entries, Prelude/Tables.
--   Observe/Run is observedRun: Run/Record makes records of events and notes failures, Run/Artifacts and
--   Run/Merge merge a result into the record, Run/State has the run, its environment and appendRecord,
--   and Run/Forward has StartRun, forward and Wait; Forward/Delivered follows each event that is read.
-- - pricing.go: Pricing/Rates has rate tables, the catalog and prices, Pricing/Store is RateTableStore.
-- - cache.go: Cache has the validation of a prompt cache directive, Cache/Exact what it accepts.
-- The library modules that all share are passed on by Prelude; Examples has tests and instances.
--
-- How the code is read. A method returns the new record beside its result, and what it takes from
-- outside is an argument. What a policy, a validating or an observed run asks
-- of runtimes, clock, context, channel readers, files, hooks, sinks and policy is a record
-- Environment over an arbitrary world, so theorems hold for all of them and for
-- all orders in which a cancellation, a full channel or a failure may come. The goroutine that
-- forwards an attempt's events is waited for before the attempt is summed up, so it is a step of the
-- attempt. Numbers that count entries of slices held in memory are unbounded; a difference of two
-- instants saturates as time.Time's does; an index out of range is `none`, a panic. Interface and
-- function values are identities. Floats are parameters where they are computed with and bit patterns
-- where they are carried along.
-- The loop of `execute` takes fuel; a theorem below says how much is enough under BasicPolicy, and
-- under another policy the loop may not end in the program either. The loop of a validating run has
-- a bound of its own, max(0, MaxAttempts) + 1 rounds. A store in memory is followed through any
-- sequence of its calls.
--
-- Not modelled: process control, HTTP and files, the text of a duration, mutexes (each guarded
-- section is one step), the forwarding of Capabilities, ListModels and the like by the wrappers, the
-- OpenCode adapter (opencode) and the test kit (internal/testkit).
pub mod Prelude
pub mod Errors
pub mod Observe
pub mod Permissions
pub mod Pricing
pub mod Dynamic
pub mod Contract
pub mod Events
pub mod Policy
pub mod Redact
pub mod Cache
pub mod Config
pub mod Health
pub mod Validation
mod Examples
