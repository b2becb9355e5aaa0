-- ===== src/Lib.antt =====
-- Lumigo Kubernetes operator.
--
-- The operator injects the Lumigo instrumentation into the workloads of Kubernetes namespaces. Its
-- parts, under controller/src unless another directory is named, and the modules that model them:
--   * mutation/mutate.go, what is done to an object: Mutation, with its constants (Mutation/Names),
--     the two mutators and how they are made (Mutation/Mutator), injectLumigoIntoPodSpec and
--     removeLumigoFromPodSpec (Mutation/PodSpecs), and the methods for the six kinds of objects with
--     their type switch (Mutation/Workloads). Env, Replace, RoundTrip, Removal, Idempotent, Guards,
--     Panics and VersionLabel in Mutation are about them.
--   * mutation/matchers.go, the recogniser of instrumented objects: Mutation/Matchers (the injector's
--     init container and volume) and Mutation/Instrumented; Mutation/Recognised is about them.
--   * webhooks/injector/injector_webhook.go, the webhook that injects objects as they are created or
--     updated: Injector, about which Injector/Gates is.
--   * webhooks/defaulter/defaulter_webhook.go, the webhook that validates and completes Lumigo
--     instances: Defaulter, with Defaulter/Laws and Denials. Both webhooks share Admission.
--   * controllers/conditions/conditions.go, the conditions of a Lumigo instance: Conditions, with
--     Conditions/Meaning and Conditions/Uniqueness.
--   * api/v1alpha1/lumigo_types.go, api/v1alpha1/lumigo_events.go and types/autotrace.go: Api and
--     Api/Events.
--   * controllers/lumigo_controller.go: Reconcile (Controllers/Reconciler, its steps in the child
--     Steps) with the references to objects and the orders of controllers/internal/sorting, the
--     retries (Controllers/Retry), injectLumigoIntoResources (Controllers/Resources), and the check
--     of the token, the requests that changes of other objects cause and updateStatusIfNeeded
--     (Controllers/Requests). Consistency, Keeping, Statuses and Precedence in Controllers/Reconciler
--     and Controllers/Requests/Answers are about them.
--   * controllers/lumigo_resource_manager.go: Controllers/Resources, too. Controllers/Writes,
--     Removing, Injecting and Skipping are about what both files write to the cluster.
--   * controllers/telemetryproxyconfigs/namespace_monitoring_configs.go, the file of the namespaces
--     that the telemetry proxy monitors: Controllers/NamespaceConfigs and its child Entries.
--   * main.go, the quickstart mode: Quickstart and its child Writes.
--   * The telemetry proxy's processor, all under telemetryproxy/src/processor/
--     k8sdataenricherprocessor: internal/kube.go and internal/relevant_gvk.go, the client of the
--     Kubernetes API with its caches (Enricher/Objects, Caches, Retry, Client, Creation, Watching and
--     Owners); processor.go, the enrichment of resources (Enricher/Attributes), of metrics
--     (Enricher/Metrics) and of logs (Enricher/Logs and its child Scopes). Enricher/Keys and Faithful
--     are about what the caches may answer, Roots about root owners, Attributes/Puts and Kept about
--     attributes, and Processing about the telemetry as a whole and the states that are reached.
-- The controller and the webhook meet in the label lumigo.auto-trace: an object that the controller
-- cleans is marked with it, and where the webhook would inject it, it takes the mark off instead
-- (Controllers/Skipping). Both use the mutators, and the webhook asks Conditions whether an instance
-- is active.
--
-- A Go function that changes an object through a pointer returns the changed object. Errors are
-- values (Prelude/Errors): a format with its arguments and the wrapped error; a nil dereference and
-- a write to a nil map are the outcome `panicked`. A slice may be nil, which reflect.DeepEqual
-- tells from an empty one. K8s has the Kubernetes objects with the fields that the operator reads
-- or writes; what it never touches is one opaque field, so that equality of objects is equality of
-- all fields. Versions and label values are byte strings whose lengths are counted in bytes; a
-- character that a cut goes through is left out, where Go keeps its first bytes.
--
-- Outside the repository, and so parameters: the decoders and encoders of the webhooks, the clients
-- of the Kubernetes API, the event recorder and try.Do (Controllers/Cluster), the file system,
-- encoding/json and sort.Slice (Controllers/NamespaceConfigs), the reads of secrets and instances
-- and the regular expression of tokens (Controllers/Requests), controllerutil,
-- reference.GetReference, sort.Sort and strings.ToLower (Controllers/Reconciler),
-- schema.ParseGroupVersion and resource.NewScaledQuantity (K8s), the Gomega matcher of labels, and
-- for the enricher the LRU caches, the informers' stores, the converters and the cluster
-- (Enricher/External). Some of them are assumed to behave in some way, as it is documented. try.Do
-- calls the function until it needs no retry, within its limit of ten; the controller gives up
-- after five attempts, so the limit is never met. An LRU cache answers an entry as it was last
-- added under its key, or not at all. The cluster answers the object that it is asked for, by kind,
-- namespace and name. The sorts permute their elements into the order asked for, without a promise
-- on equal ones. The parser of API versions does not panic. The search for a root owner runs on
-- fuel, and enough of it is a number above the lengths of all chains of owners (IsAcyclic in
-- Enricher/Roots); no other definition runs on fuel, all other loops being over lists or counting
-- down.
--
-- The enricher runs on several goroutines over caches that lock themselves: an operation of the
-- model is one of them in any order with the others. What was handed to a goroutine to be sent
-- downstream is a list, of which a parameter says how much has arrived (`receive` in
-- Enricher/External).
--
-- Not modelled: the rest of main.go and the set-up of the controller and the webhooks, logging,
-- deep copies (generated), the configuration of the telemetry proxy's processor and its receivers,
-- the watchdog and the Helm charts.
--
-- Examples and its children apply the theorems of the list below to concrete objects, a concrete
-- cluster whose world is the list of its writes, and concrete services.
pub mod Prelude
pub mod K8s
pub mod Api
pub mod Mutation
pub mod Admission
pub mod Conditions
pub mod Defaulter
pub mod Injector
pub mod Controllers
pub mod Enricher
pub mod Quickstart
pub mod Examples
