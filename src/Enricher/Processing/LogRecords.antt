-- ===== src/Enricher/Processing/LogRecords.antt =====
-- The processing of logs ends, and keeps the caches of the enricher faithful.
use mathlib.Core.List.{Memᴰ}
use lumigo_kubernetes_operat.Prelude.{
  ℕ, ◌<◌, List, [], ◌∷◌, ◌≡◌, refl, inl, inr, some, none, Option, Bool-cases, Fallible, Error,
  wrapf,
}
use lumigo_kubernetes_operat.Enricher.Objects.{
  Kind, pod, daemon_set, deployment, replica_set, stateful_set, cron_job, job, KubeObject,
  Namespace, ObjectReference, kind_of_gvk, same_gvk, v1_namespace, GroupVersionKind,
}
use lumigo_kubernetes_operat.Enricher.Raw.{Fields}
use lumigo_kubernetes_operat.Enricher.External.{Libraries, Cluster, IsCache}
use lumigo_kubernetes_operat.Enricher.Client.{KubeClient, cache_of}
use lumigo_kubernetes_operat.Enricher.Logs.{
  Body, map_body, other_body, LogRecord, ScopeLogs, EventPlace, in_body, in_object, nowhere,
  event_place, event_at, after_root, with_event, process_event_body,
  process_kubernetes_event_log_record, then_records, process_kubernetes_event_scope_logs,
}
use lumigo_kubernetes_operat.Enricher.Logs.Scopes.{
  register_parsed, register_parsed_namespace, register_of_kind, register_body,
  process_kubernetes_object_log_record, process_kubernetes_object_scope_logs, piggyback,
}
use lumigo_kubernetes_operat.Enricher.Keys.{IsName}
use lumigo_kubernetes_operat.Enricher.Faithful.{IsFaithful, IsHonest}
use lumigo_kubernetes_operat.Enricher.Faithful.Caches.{register-IsFaithful}
use lumigo_kubernetes_operat.Enricher.Faithful.Keeping.{
  Keeps-register_namespace, Keeps-ensure_object_reference_is_known,
}
use lumigo_kubernetes_operat.Enricher.Roots.{IsAcyclic}
use lumigo_kubernetes_operat.Enricher.Roots.Walks.{
  IsRootAnswer, root_found, refused, get_root_owner_reference-ends,
}

-- What the program relies on of the objects in logs: they were seen by the cluster that sent them, and
-- events involve objects with names of the usual form; and of the channel: it makes no objects up.
pub record IsLogged (libs : Libraries) (Seen : KubeObject → Type 0) : Type 0 where
  pub parsed :
      (kind : Kind) (body : Fields) (o : KubeObject)
      → libs.object_from_unstructured kind body ≡ inr o
      → Seen o × (o.kind ≡ kind)
  pub involved :
      (body : Fields) (r : ObjectReference)
      → libs.involved_object_from_unstructured body ≡ inr r
      → IsName r.name × IsName r.namespace
  pub remaining :
      (sent : List KubeObject) (o : KubeObject) → Memᴰ o (libs.receive sent).1 → Memᴰ o sent

module _ (libs : Libraries) {W : Type 0} (cluster : Cluster W) (Seen : KubeObject → Type 0)
    (is_cache : IsCache libs) (honest : IsHonest Seen cluster) (logged : IsLogged libs Seen) where
  abbrev pub Faithful : W × KubeClient libs → Type 0
  Faithful s = IsFaithful libs Seen s.1

  Faithful-register_parsed :
      (kind : Kind) (o : Fallible KubeObject) (s : W × KubeClient libs)
      → ((p : KubeObject) → o ≡ inr p → Seen p × (p.kind ≡ kind))
      → Faithful s
      → Faithful (register_parsed libs cluster kind o s).0
  Faithful-register_parsed kind (inl e) s h f = f
  Faithful-register_parsed kind (inr o) (w, c) h f =
      let (seen, k) = h o refl in register-IsFaithful libs Seen is_cache kind o c seen k f

  Faithful-register_parsed_namespace :
      (n : Fallible Namespace) (s : W × KubeClient libs)
      → Faithful s
      → Faithful (register_parsed_namespace libs cluster n s).0
  Faithful-register_parsed_namespace (inl e) s f = f
  Faithful-register_parsed_namespace (inr n) (w, c) f =
      Keeps-register_namespace libs cluster Seen is_cache honest n c f

  Faithful-register_of_kind :
      (gvk : GroupVersionKind) (kind : Option Kind) (body : Fields) (s : W × KubeClient libs)
      → Faithful s
      → Faithful (register_of_kind libs cluster gvk kind body s).0
  Faithful-register_of_kind gvk (some kind) body s f =
      Faithful-register_parsed kind (libs.object_from_unstructured kind body) s
        (logged.parsed kind body) f
  Faithful-register_of_kind gvk none body s f = elim (Bool-cases (same_gvk gvk v1_namespace)) [
    | inl h ↦ rw h (Faithful-register_parsed_namespace (libs.namespace_from_unstructured body) s f)
    | inr h ↦ rw h f
  ]

  Faithful-register_body :
      (body : Body) (s : W × KubeClient libs)
      → Faithful s
      → Faithful (register_body libs cluster body s).0
  Faithful-register_body (other_body text) s f = f
  Faithful-register_body (map_body body) s f =
      Faithful-register_of_kind (libs.unstructured_gvk body)
        (kind_of_gvk (libs.unstructured_gvk body)) body s f

  pub Faithful-process_kubernetes_object_scope_logs :
      (records : List LogRecord) (s : W × KubeClient libs)
      → Faithful s
      → Faithful (process_kubernetes_object_scope_logs libs cluster records s)
  unfolding process_kubernetes_object_scope_logs process_kubernetes_object_log_record
  Faithful-process_kubernetes_object_scope_logs [] s f = f
  Faithful-process_kubernetes_object_scope_logs (r ∷ rest) s f =
      Faithful-process_kubernetes_object_scope_logs rest _ (Faithful-register_body r.body s f)

  cache_of-with_sent :
      (k : Kind) (sent : List KubeObject) (c : KubeClient libs)
      → cache_of libs k (record c { object_resource_versions = sent }) ≡ cache_of libs k c
  cache_of-with_sent pod sent c = refl
  cache_of-with_sent daemon_set sent c = refl
  cache_of-with_sent deployment sent c = refl
  cache_of-with_sent replica_set sent c = refl
  cache_of-with_sent stateful_set sent c = refl
  cache_of-with_sent cron_job sent c = refl
  cache_of-with_sent job sent c = refl

  pub Faithful-piggyback :
      (scopes : List ScopeLogs) (s : W × KubeClient libs)
      → Faithful s
      → Faithful (piggyback libs cluster scopes s).0
  unfolding piggyback
  Faithful-piggyback scopes (w, c) f = record {
    caches =
        λ k. rw (cache_of-with_sent k (libs.receive c.object_resource_versions).1 c) (f.caches k);
    pods = f.pods;
    sent = λ o m. f.sent o (logged.remaining c.object_resource_versions o m);
  }

  parsed-named :
      (wrap : Error → Error) (x : Fallible ObjectReference) (body : Fields)
      → libs.involved_object_from_unstructured body ≡ x
      → (q : ObjectReference)
      → elim x as (λ _. Fallible ObjectReference) [ inl e ↦ inl (wrap e) | inr r ↦ inr r ] ≡ inr q
      → IsName q.name × IsName q.namespace
  parsed-named wrap (inl e) body h q p = absurd (cc p)
  parsed-named wrap (inr r) body h q p = logged.involved body q (cc (h, p))

  event_at-named :
      (place : EventPlace) (q : ObjectReference)
      → event_at libs cluster place ≡ inr q
      → IsName q.name × IsName q.namespace
  unfolding event_at
  event_at-named nowhere q p = absurd (cc p)
  event_at-named (in_body body) q p =
      parsed-named (λ e. wrapf "cannot parse log-record body as v1.Event: %w" [] e)
        (libs.involved_object_from_unstructured body) body refl q p
  event_at-named (in_object body) q p =
      parsed-named
        (λ e. wrapf "cannot parse log-record body as watch event containing a v1.Event: %w" [] e)
        (libs.involved_object_from_unstructured body) body refl q p

  -- A processing that ends, in a faithful state.
  pub data Ends {A : Type 0} : Option ((W × KubeClient libs) × A) → Type 0 where
    ends : {s : W × KubeClient libs} {a : A} → Faithful s → Ends (some (s, a))

  module _ (fuel : ℕ) (rank : ObjectReference → ℕ) (acyclic : IsAcyclic libs Seen rank)
      (bounded : (r : ObjectReference) → rank r < fuel) where
    Ends-after_root :
        (r : LogRecord) (body : Fields) (place : EventPlace) (involved : ObjectReference)
        (s : W × KubeClient libs) (o : Option (Fallible Fields))
        → IsRootAnswer libs cluster Seen involved o
        → Faithful s
        → Ends (after_root libs cluster fuel r body place involved (s, o))
    Ends-after_root r body place involved s _ (refused chain stuck) f = ends f
    Ends-after_root r body place involved s _ (root_found {s = t} chain root) f =
        of_fields (libs.reference_to_unstructured t)
      where
        of_fields :
            (x : Fallible Fields)
            → Ends (after_root libs cluster fuel r body place involved (s, some x))
        of_fields (inl e) = ends f
        of_fields (inr fields) =
            ends (
              Keeps-ensure_object_reference_is_known libs cluster Seen is_cache honest involved s f)

    Ends-with_event :
        (r : LogRecord) (body : Fields) (place : EventPlace) (e : Fallible ObjectReference)
        (s : W × KubeClient libs)
        → ((q : ObjectReference) → e ≡ inr q → IsName q.name × IsName q.namespace)
        → Faithful s
        → Ends (with_event libs cluster fuel r body place e s)
    Ends-with_event r body place (inl e) s h f = ends f
    Ends-with_event r body place (inr involved) s h f =
        let (f', answer) =
          get_root_owner_reference-ends libs cluster Seen is_cache honest rank acyclic fuel involved
            s (bounded involved) (h involved refl) f in
        Ends-after_root r body place involved _ _ answer f'

    Ends-process_event_body :
        (r : LogRecord) (body : Body) (s : W × KubeClient libs)
        → Faithful s
        → Ends (process_event_body libs cluster fuel r body s)
    unfolding event_at
    Ends-process_event_body r (other_body text) s f = ends f
    Ends-process_event_body r (map_body body) s f =
        Ends-with_event r body (event_place libs cluster body)
          (event_at libs cluster (event_place libs cluster body)) s
          (event_at-named (event_place libs cluster body)) f

    Ends-then_records :
        (rest : W × KubeClient libs → Option ((W × KubeClient libs) × List LogRecord))
        (o : Option ((W × KubeClient libs) × (LogRecord × Option Error)))
        → ((s : W × KubeClient libs) → Faithful s → Ends (rest s))
        → Ends o
        → Ends (then_records libs cluster fuel rest o)
    Ends-then_records rest _ h (ends {s = s} {a = a} f) = of_rest (rest s) (h s f)
      where
        of_rest :
            (t : Option ((W × KubeClient libs) × List LogRecord))
            → Ends t
            → Ends {A = List LogRecord}
                (elim t [ none ↦ none | some result ↦ some (result.0, a.0 ∷ result.1) ])
        of_rest _ (ends g) = ends g

    pub Ends-process_kubernetes_event_scope_logs :
        (records : List LogRecord) (s : W × KubeClient libs)
        → Faithful s
        → Ends (process_kubernetes_event_scope_logs libs cluster fuel records s)
    unfolding process_kubernetes_event_scope_logs process_kubernetes_event_log_record
    Ends-process_kubernetes_event_scope_logs [] s f = ends f
    Ends-process_kubernetes_event_scope_logs (r ∷ rest) s f =
        Ends-then_records (process_kubernetes_event_scope_logs libs cluster fuel rest)
          (process_event_body libs cluster fuel r r.body s)
          (Ends-process_kubernetes_event_scope_logs rest) (Ends-process_event_body r r.body s f)
