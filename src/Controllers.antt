-- ===== src/Controllers.antt =====
-- The controller that reconciles Lumigo instances (controller/src/controllers): its access to the
-- cluster (Cluster), retries (Retry), the injection into and the removal from the existing objects of
-- a namespace (Resources) with what these write (Writes, Injecting, Removing) and how the webhook
-- takes it (Skipping), what a reconciliation reads and answers (Requests), the file of monitored
-- namespaces (NamespaceConfigs), and the reconciliation itself (Reconciler).
pub mod Cluster
pub mod Retry
pub mod Resources
pub mod Writes
pub mod Injecting
pub mod Removing
pub mod Skipping
pub mod Requests
pub mod NamespaceConfigs
pub mod Reconciler
