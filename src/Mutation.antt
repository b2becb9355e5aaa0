-- ===== src/Mutation.antt =====
-- The mutation of workloads (controller/src/mutation/mutate.go and matchers.go): Mutator has the
-- mutators' settings, PodSpecs the changes of a pod spec, Workloads those of a whole object, and
-- Matchers the recognisers. The other children prove what these do.
pub mod Names
pub mod Mutator
pub mod PodSpecs
pub mod Matchers
pub mod Workloads
pub mod Replace
pub mod Env
pub mod Idempotent
pub mod RoundTrip
pub mod Removal
pub mod Instrumented
pub mod Recognised
pub mod Guards
pub mod Panics
pub mod VersionLabel
