-- ===== src/Enricher/Faithful/Beginning.antt =====
-- A new client of the enricher is faithful.
use mathlib.Core.List.{Memᴰ}
use lumigo_kubernetes_operat.Prelude.{String, [], ◌≡◌, inl, inr, none, Fallible, refl, ◌*◌}
use lumigo_kubernetes_operat.Enricher.Objects.{
  Kind, pod, daemon_set, deployment, replica_set, stateful_set, cron_job, job, KubeObject,
}
use lumigo_kubernetes_operat.Enricher.External.{Libraries, IsCache}
use lumigo_kubernetes_operat.Enricher.Client.{KubeClient, cache_of}
use lumigo_kubernetes_operat.Enricher.Creation.{
  new_kube_client, client_with, default_cache_max_entries,
}
use lumigo_kubernetes_operat.Enricher.Faithful.{IsFaithful, IsFaithfulCache}

not_in_nil : {A : Type 0} (a : A) → ¬ Memᴰ a []
not_in_nil a = elim [ ]

module _ (libs : Libraries) (Seen : KubeObject → Type 0) (is_cache : IsCache libs) where
  -- a cache, if there is one, that answers nothing
  abbrev AnswersNothing : Fallible libs.Cache → Type 0
  AnswersNothing r = (k : String) (x : libs.Cache) → r ≡ inr x → (libs.get k x).1 ≡ none

  IsFaithfulCache-nothing :
      (kind : Kind) (x : libs.Cache)
      → ((k : String) → (libs.get k x).1 ≡ none)
      → IsFaithfulCache libs Seen kind x
  unfolding IsFaithfulCache
  IsFaithfulCache-nothing kind x h key e p = absurd (cc (h key, p))

  abbrev Caches : KubeClient libs → Type 0
  Caches c = (kind : Kind) (k : String) → (libs.get k (cache_of libs kind c)).1 ≡ none

  IsFaithful-nothing :
      (c : KubeClient libs)
      → Caches c
      → ((k : String) → (libs.get k c.pod_uid_cache).1 ≡ none)
      → c.object_resource_versions ≡ []
      → IsFaithful libs Seen c
  IsFaithful-nothing c h u s = record {
    caches = λ kind. IsFaithfulCache-nothing kind (cache_of libs kind c) (h kind);
    pods = λ uid o p. absurd (cc (u uid, p));
    sent = λ o m. absurd (not_in_nil o (rw (← s) m));
  }

  client_with-IsFaithful :
      (u p ds d rs ss cj j : Fallible libs.Cache) (c : KubeClient libs)
      → AnswersNothing u
      → AnswersNothing p
      → AnswersNothing ds
      → AnswersNothing d
      → AnswersNothing rs
      → AnswersNothing ss
      → AnswersNothing cj
      → AnswersNothing j
      → client_with libs u p ds d rs ss cj j ≡ inr c
      → IsFaithful libs Seen c
  client_with-IsFaithful (inl e) p ds d rs ss cj j c _ _ _ _ _ _ _ _ h = absurd (cc h)
  client_with-IsFaithful (inr a) (inl e) ds d rs ss cj j c _ _ _ _ _ _ _ _ h = absurd (cc h)
  client_with-IsFaithful (inr a) (inr b) (inl e) d rs ss cj j c _ _ _ _ _ _ _ _ h = absurd (cc h)
  client_with-IsFaithful (inr a) (inr b) (inr k) (inl e) rs ss cj j c _ _ _ _ _ _ _ _ h =
      absurd (cc h)
  client_with-IsFaithful (inr a) (inr b) (inr k) (inr l) (inl e) ss cj j c _ _ _ _ _ _ _ _ h =
      absurd (cc h)
  client_with-IsFaithful (inr a) (inr b) (inr k) (inr l) (inr m) (inl e) cj j c _ _ _ _ _ _ _ _ h =
      absurd (cc h)
  client_with-IsFaithful (inr a) (inr b) (inr k) (inr l) (inr m) (inr n) (inl e) j c _ _ _ _ _ _ _ _
        h =
      absurd (cc h)
  client_with-IsFaithful (inr a) (inr b) (inr k) (inr l) (inr m) (inr n) (inr o) (inl e) c _ _ _ _ _
        _ _ _ h =
      absurd (cc h)
  client_with-IsFaithful (inr a) (inr b) (inr k) (inr l) (inr m) (inr n) (inr o) (inr q) c hu hp hds
        hd hrs hss hcj hj h =
      IsFaithful-nothing c caches (λ i. cc (hu i a refl, h)) (cc h)
    where
      caches : (kind : Kind) (i : String) → (libs.get i (cache_of libs kind c)).1 ≡ none
      caches pod i = cc (hp i b refl, h)
      caches daemon_set i = cc (hds i k refl, h)
      caches deployment i = cc (hd i l refl, h)
      caches replica_set i = cc (hrs i m refl, h)
      caches stateful_set i = cc (hss i n refl, h)
      caches cron_job i = cc (hcj i o refl, h)
      caches job i = cc (hj i q refl, h)

  -- Whatever counts as seen, a client that was just created answers nothing and sends nothing.
  pub new_kube_client-IsFaithful :
      (c : KubeClient libs) → new_kube_client libs ≡ inr c → IsFaithful libs Seen c
  unfolding new_kube_client
  new_kube_client-IsFaithful c h =
      client_with-IsFaithful (libs.new_cache (default_cache_max_entries * 15))
        (libs.new_cache (default_cache_max_entries * 10)) (libs.new_cache default_cache_max_entries)
        (libs.new_cache default_cache_max_entries) (libs.new_cache default_cache_max_entries)
        (libs.new_cache default_cache_max_entries) (libs.new_cache default_cache_max_entries)
        (libs.new_cache default_cache_max_entries) c
        (is_cache.new_is_empty (default_cache_max_entries * 15))
        (is_cache.new_is_empty (default_cache_max_entries * 10))
        (is_cache.new_is_empty default_cache_max_entries)
        (is_cache.new_is_empty default_cache_max_entries)
        (is_cache.new_is_empty default_cache_max_entries)
        (is_cache.new_is_empty default_cache_max_entries)
        (is_cache.new_is_empty default_cache_max_entries)
        (is_cache.new_is_empty default_cache_max_entries) h
