-- ===== src/Enricher.antt =====
-- The processor of the telemetry proxy that enriches telemetry with what Kubernetes knows
-- (telemetryproxy/src/processor/k8sdataenricherprocessor): the objects that it looks at (Objects,
-- Raw), the packages and the cluster that it calls (External), its caches (Caches), the retries
-- (Retry), its client of the Kubernetes API (Client, Creation, Owners, Watching), and the enrichment
-- of resources, metrics and logs (Attributes, Metrics, Logs). Keys, Faithful, Roots and Processing
-- are about them.
pub mod Objects
pub mod Raw
pub mod External
pub mod Caches
pub mod Retry
pub mod Client
pub mod Creation
pub mod Owners
pub mod Watching
pub mod Attributes
pub mod Metrics
pub mod Logs
pub mod Keys
pub mod Faithful
pub mod Roots
pub mod Processing
