-- ===== src/Enricher/Processing/Notices.antt =====
-- The notices of the informers keep the caches of the enricher faithful.
use lumigo_kubernetes_operat.Prelude.{
  String, true, ◌≡◌, refl, inl, inr, arith, Bool-cases, Fallible,
}
use lumigo_kubernetes_operat.Enricher.Objects.{Kind, pod, KubeObject}
use lumigo_kubernetes_operat.Enricher.External.{Libraries, IsCache}
use lumigo_kubernetes_operat.Enricher.Caches.{
  Untyped, typed, untyped, is_kind, assert_kind, wrong_type, add_untyped, added,
}
use lumigo_kubernetes_operat.Enricher.Client.{KubeClient, with_sending, sending_of, add_to_cache}
use lumigo_kubernetes_operat.Enricher.Watching.{
  Notice, on_add, on_update, on_delete, add_watched, cached_event_handler, add_asserted,
  pod_uid_handler,
}
use lumigo_kubernetes_operat.Enricher.Faithful.{IsFaithful}
use lumigo_kubernetes_operat.Enricher.Faithful.Caches.{
  add_to_cache-IsFaithful, add_pod_uid-IsFaithful, with_sending-IsFaithful,
}

-- The object of a notice, if it is of a type that is cached, was seen.
pub data IsReported (Seen : KubeObject → Type 0) : Notice → Type 0 where
  added_object : {o : KubeObject} → Seen o → IsReported Seen (on_add (typed o))
  updated_object : {o : KubeObject} → Seen o → IsReported Seen (on_update (typed o))
  added_other : {t : String} → IsReported Seen (on_add (untyped t))
  updated_other : {t : String} → IsReported Seen (on_update (untyped t))
  deleted : {u : Untyped} → IsReported Seen (on_delete u)

is_kind-eq : (a b : Kind) → is_kind a b ≡ true → a ≡ b
is_kind-eq a b h = ground arith

asserted :
    (libs : Libraries) (kind : Kind) (u : Untyped) (o : KubeObject)
    → assert_kind libs kind u ≡ inr o
    → (u ≡ typed o) × (o.kind ≡ kind)
unfolding assert_kind wrong_type
asserted libs kind (untyped t) o h = absurd (cc h)
asserted libs kind (typed p) o h = elim (Bool-cases (is_kind p.kind kind)) [
  | inl k ↦ let same : p ≡ o = cc (h, k) in (cc same, cc (same, is_kind-eq p.kind kind k))
  | inr k ↦ absurd (cc (h, k))
]

module _ (libs : Libraries) (Seen : KubeObject → Type 0) (is_cache : IsCache libs) where
  -- what a notice says of an object that is asserted to be of a kind
  abbrev AssertedSeen : Kind → Untyped → Type 0
  AssertedSeen kind u =
      (o : KubeObject) → assert_kind libs kind u ≡ inr o → Seen o × (o.kind ≡ kind)

  AssertedSeen-typed : (kind : Kind) (o : KubeObject) → Seen o → AssertedSeen kind (typed o)
  AssertedSeen-typed kind o seen p h =
      let (same, k) = asserted libs kind (typed o) p h in
      let same' : p ≡ o = cc same in (rw same' seen, k)

  AssertedSeen-untyped : (kind : Kind) (t : String) → AssertedSeen kind (untyped t)
  unfolding assert_kind wrong_type
  AssertedSeen-untyped kind t p h = absurd (cc h)

  added-IsFaithful :
      (kind : Kind) (r : Fallible KubeObject) (c : KubeClient libs)
      → ((o : KubeObject) → r ≡ inr o → Seen o × (o.kind ≡ kind))
      → IsFaithful libs Seen c
      → IsFaithful libs Seen (with_sending libs kind (added libs (sending_of libs kind c) r).0 c)
  unfolding add_to_cache
  added-IsFaithful kind (inl e) c a f =
      with_sending-IsFaithful libs Seen is_cache kind (sending_of libs kind c) c (f.caches kind)
        f.sent f
  added-IsFaithful kind (inr o) c a f =
      let (seen, k) = a o refl in add_to_cache-IsFaithful libs Seen is_cache kind o c seen k f

  add_watched-IsFaithful :
      (kind : Kind) (u : Untyped) (c : KubeClient libs)
      → AssertedSeen kind u
      → IsFaithful libs Seen c
      → IsFaithful libs Seen (add_watched libs kind u c)
  unfolding add_watched add_untyped
  add_watched-IsFaithful kind u c a f = added-IsFaithful kind (assert_kind libs kind u) c a f

  add_asserted-IsFaithful :
      (r : Fallible KubeObject) (c : KubeClient libs)
      → ((o : KubeObject) → r ≡ inr o → Seen o × (o.kind ≡ pod))
      → IsFaithful libs Seen c
      → IsFaithful libs Seen (add_asserted libs r c)
  add_asserted-IsFaithful (inl e) c a f = f
  add_asserted-IsFaithful (inr o) c a f =
      let (seen, k) = a o refl in add_pod_uid-IsFaithful libs Seen is_cache o c seen k f

  pub cached_event_handler-IsFaithful :
      (kind : Kind) (n : Notice) (c : KubeClient libs)
      → IsReported Seen n
      → IsFaithful libs Seen c
      → IsFaithful libs Seen (cached_event_handler libs kind n c)
  unfolding cached_event_handler
  cached_event_handler-IsFaithful kind _ c (added_object {o = o} seen) f =
      add_watched-IsFaithful kind (typed o) c (AssertedSeen-typed kind o seen) f
  cached_event_handler-IsFaithful kind _ c (updated_object {o = o} seen) f =
      add_watched-IsFaithful kind (typed o) c (AssertedSeen-typed kind o seen) f
  cached_event_handler-IsFaithful kind _ c (added_other {t = t}) f =
      add_watched-IsFaithful kind (untyped t) c (AssertedSeen-untyped kind t) f
  cached_event_handler-IsFaithful kind _ c (updated_other {t = t}) f =
      add_watched-IsFaithful kind (untyped t) c (AssertedSeen-untyped kind t) f
  cached_event_handler-IsFaithful kind _ c deleted f = f

  pub pod_uid_handler-IsFaithful :
      (n : Notice) (c : KubeClient libs)
      → IsReported Seen n
      → IsFaithful libs Seen c
      → IsFaithful libs Seen (pod_uid_handler libs n c)
  unfolding pod_uid_handler
  pod_uid_handler-IsFaithful _ c (added_object {o = o} seen) f =
      add_asserted-IsFaithful (assert_kind libs pod (typed o)) c (AssertedSeen-typed pod o seen) f
  pod_uid_handler-IsFaithful _ c (updated_object {o = o} seen) f =
      add_asserted-IsFaithful (assert_kind libs pod (typed o)) c (AssertedSeen-typed pod o seen) f
  pod_uid_handler-IsFaithful _ c (added_other {t = t}) f =
      add_asserted-IsFaithful (assert_kind libs pod (untyped t)) c (AssertedSeen-untyped pod t) f
  pod_uid_handler-IsFaithful _ c (updated_other {t = t}) f =
      add_asserted-IsFaithful (assert_kind libs pod (untyped t)) c (AssertedSeen-untyped pod t) f
  pod_uid_handler-IsFaithful _ c deleted f = f
