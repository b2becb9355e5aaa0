-- ===== src/Controllers/NamespaceConfigs/Entries.antt =====
-- What an update leaves in the file of monitored namespaces
-- (controllers/telemetryproxyconfigs/namespace_monitoring_configs.go:32-82).
use mathlib.Core.List.{append_assoc, append-nil, Permᴰ}
use mathlib.Core.List.Permᴰ.{nil, cons, swap, trans}
use mathlib.Core.List.Permᴰ
use lumigo_kubernetes_operat.Prelude.{
  String, Bool, true, false, not, ◌&&◌, none, some, List, [], ◌∷◌, ◌++◌, Slice, items, ◌≡◌, ◌↔◌,
  refl, inl, inr, Fallible, ◌==◌, eq_iff, if◌then◌else◌, arith,
}
use lumigo_kubernetes_operat.Controllers.NamespaceConfigs.{
  NamespaceMonitoringConfig, Files, ReadResult, content, not_exist, unreadable, before,
  sorted_slice, append_one, keep_others, is_upsert, updated_namespaces, read_namespaces,
  write_if_changed, update_read, update_telemetry_proxy_monitoring_of_namespace,
}

-- The entries of a name, in order.
unfoldable pub entries_of : String → List NamespaceMonitoringConfig → List NamespaceMonitoringConfig
entries_of n [] = []
entries_of n (c ∷ cs) = let rest = entries_of n cs in if c.name == n then c ∷ rest else rest

-- No entry comes before its predecessor.
unfoldable pub is_sorted_after : String → List NamespaceMonitoringConfig → Bool
is_sorted_after s [] = true
is_sorted_after s (c ∷ cs) = not (before c.name s) && is_sorted_after c.name cs

unfoldable pub is_sorted : List NamespaceMonitoringConfig → Bool
is_sorted [] = true
is_sorted (c ∷ cs) = is_sorted_after c.name cs

-- What sort.Slice is documented to do with the order of the names: the entries are permuted, so that
-- none comes before its predecessor.
pub record IsNameSort (sort : List NamespaceMonitoringConfig → List NamespaceMonitoringConfig)
    : Type 0 where
  pub permutes : (cs : List NamespaceMonitoringConfig) → Permᴰ (sort cs) cs
  pub sorts : (cs : List NamespaceMonitoringConfig) → is_sorted (sort cs) ≡ true

entries_of-append :
    (n : String) (l r : List NamespaceMonitoringConfig)
    → entries_of n (l ++ r) ≡ entries_of n l ++ entries_of n r
unfolding entries_of
entries_of-append n [] r = refl
entries_of-append n (c ∷ cs) r = ground (arith, entries_of-append n cs r)

Permᴰ-kept :
    (b : Bool) {c d : NamespaceMonitoringConfig} {l r : List NamespaceMonitoringConfig}
    → c ≡ d
    → Permᴰ l r
    → Permᴰ (if b then c ∷ l else l) (if b then d ∷ r else r)
Permᴰ-kept true e p = cons e p
Permᴰ-kept false e p = p

Permᴰ-kept_both :
    (a b : Bool) (c d : NamespaceMonitoringConfig) (l : List NamespaceMonitoringConfig)
    → Permᴰ
        (if a then c ∷ (if b then d ∷ l else l) else if b then d ∷ l else l)
        (if b then d ∷ (if a then c ∷ l else l) else if a then c ∷ l else l)
Permᴰ-kept_both true true c d l = swap refl refl
Permᴰ-kept_both true false c d l = Permᴰ.refl (c ∷ l)
Permᴰ-kept_both false true c d l = Permᴰ.refl (d ∷ l)
Permᴰ-kept_both false false c d l = Permᴰ.refl l

Permᴰ-entries_of :
    (n : String) {l r : List NamespaceMonitoringConfig}
    → Permᴰ l r
    → Permᴰ (entries_of n l) (entries_of n r)
unfolding entries_of
Permᴰ-entries_of n nil = nil
Permᴰ-entries_of n (cons {a = a} {b = b} e p) =
    rw e (Permᴰ-kept (b.name == n) refl (Permᴰ-entries_of n p))
Permᴰ-entries_of n (swap {a = a} {b = b} {a' = a'} {b' = b'} {l = l} e f) =
    rw (← e, ← f) (Permᴰ-kept_both (a.name == n) (b.name == n) a b (entries_of n l))
Permᴰ-entries_of n (trans p q) = trans (Permᴰ-entries_of n p) (Permᴰ-entries_of n q)

entries_of-append_one :
    (n : String) (c : NamespaceMonitoringConfig) (kept : Slice NamespaceMonitoringConfig)
    (cs : List NamespaceMonitoringConfig)
    → entries_of n (items (append_one kept c)) ++ cs
      ≡ entries_of n (items kept) ++ (if c.name == n then c ∷ cs else cs)
unfolding entries_of
entries_of-append_one n c kept cs = ground (
  arith,
  entries_of-append n (items kept) (c ∷ []),
  append-nil (entries_of n (items kept)),
  append_assoc (entries_of n (items kept)) (c ∷ []) cs,
)

entries_of-keep_others :
    (n name : String) (kept : Slice NamespaceMonitoringConfig) (cs : List NamespaceMonitoringConfig)
    → entries_of n (items (keep_others name kept cs))
      ≡ entries_of n (items kept)
        ++ (if not (n == name) && not (name == "") then entries_of n cs else [])
unfolding keep_others entries_of
entries_of-keep_others n name kept [] = ground (arith, append-nil (entries_of n (items kept)))
entries_of-keep_others n name kept (c ∷ cs) = ground (
  arith,
  eq_iff c.name name,
  eq_iff n name,
  eq_iff c.name n,
  entries_of-keep_others n name (append_one kept c) cs,
  entries_of-keep_others n name kept cs,
  append-nil (entries_of n (items kept)),
  entries_of-append_one n c kept [],
  entries_of-append_one n c kept (entries_of n cs),
)

Permᴰ-sorted_slice :
    {sort : List NamespaceMonitoringConfig → List NamespaceMonitoringConfig}
    → IsNameSort sort
    → (n : String) (s : Slice NamespaceMonitoringConfig)
    → Permᴰ (entries_of n (items (sorted_slice sort s))) (entries_of n (items s))
unfolding entries_of
Permᴰ-sorted_slice h n none = nil
Permᴰ-sorted_slice h n (some cs) = Permᴰ-entries_of n (h.permutes cs)

is_sorted-sorted_slice :
    {sort : List NamespaceMonitoringConfig → List NamespaceMonitoringConfig}
    → IsNameSort sort
    → (s : Slice NamespaceMonitoringConfig) → is_sorted (items (sorted_slice sort s)) ≡ true
unfolding is_sorted
is_sorted-sorted_slice h none = refl
is_sorted-sorted_slice h (some cs) = h.sorts cs

-- the entries before they are sorted
abbrev unsorted :
    NamespaceMonitoringConfig → List NamespaceMonitoringConfig → Slice NamespaceMonitoringConfig
unsorted c namespaces =
    let others = keep_others c.name none namespaces in
    if is_upsert c then append_one others c else others

unsorted_entries :
    (c : NamespaceMonitoringConfig) (namespaces : List NamespaceMonitoringConfig) (n : String)
    → entries_of n (items (unsorted c namespaces)) ≡ (
        if c.name == n
        then (if is_upsert c then c ∷ [] else [])
        else (if c.name == "" then [] else entries_of n namespaces))
unfolding entries_of
unsorted_entries c namespaces n = ground (
  arith,
  eq_iff c.name n,
  eq_iff n c.name,
  entries_of-keep_others n c.name none namespaces,
  entries_of-append_one n c (keep_others c.name none namespaces) [],
  append-nil (entries_of n (items (keep_others c.name none namespaces))),
  append-nil (entries_of n (items (append_one (keep_others c.name none namespaces) c))),
)

-- Where the sort permutes and sorts: after an update, the namespace of the update has the one entry
-- that is asked for, whatever entries it had before, or none if the update has no uid, and every
-- other namespace has the entries that it had, in some order. Where the update names no namespace,
-- those are dropped. The entries are sorted by the names of the namespaces.
pub updated_entries :
    (sort : List NamespaceMonitoringConfig → List NamespaceMonitoringConfig)
    → IsNameSort sort
    → (c : NamespaceMonitoringConfig) (namespaces : List NamespaceMonitoringConfig)
    → ((n : String)
        → Permᴰ (entries_of n (items (updated_namespaces sort c namespaces))) (
            if c.name == n
            then (if is_upsert c then c ∷ [] else [])
            else (if c.name == "" then [] else entries_of n namespaces)))
      × (is_sorted (items (updated_namespaces sort c namespaces)) ≡ true)
unfolding updated_namespaces
updated_entries sort h c namespaces = (
  λ n. rw (← unsorted_entries c namespaces n) (Permᴰ-sorted_slice h n (unsorted c namespaces)),
  is_sorted-sorted_slice h (unsorted c namespaces),
)

-- The file has the bytes, which encode the entries, or it does not exist.
pub data IsRead {W : Type 0} (files : Files W) (world : W)
    : String → Slice NamespaceMonitoringConfig → Type 0 where
  parsed :
      {bytes : String} {namespaces : Slice NamespaceMonitoringConfig}
      → files.read_file world ≡ content bytes
      → files.unmarshal bytes ≡ inr namespaces
      → IsRead files world bytes namespaces
  missing : files.read_file world ≡ not_exist → IsRead files world "" none

module _ {W : Type 0} (files : Files W) (path : String) where
  written :
      (c : NamespaceMonitoringConfig) (world world' : W) (bytes : String)
      (namespaces : Slice NamespaceMonitoringConfig) (marshalled : Fallible String)
      → files.marshal (updated_namespaces files.sort_by_name c (items namespaces)) ≡ marshalled
      → write_if_changed files path bytes marshalled world ≡ (world', inr true)
      → (out : String) × (marshalled ≡ inr out)
        × ((bytes == out) ≡ false)
        × (files.write_file out world ≡ (world', none))
  unfolding write_if_changed
  written c world world' bytes namespaces (inl e) m h = ground arith
  written c world world' bytes namespaces (inr out) m h = (out, refl, ground arith, ground arith)

  update_read-true :
      (c : NamespaceMonitoringConfig) (world world' : W)
      (r : Fallible (String × Slice NamespaceMonitoringConfig))
      → update_read files path c r world ≡ (world', inr true)
      → (bytes out : String) × (namespaces : Slice NamespaceMonitoringConfig) × (r
          ≡ inr (bytes, namespaces))
        × (files.marshal (updated_namespaces files.sort_by_name c (items namespaces)) ≡ inr out)
        × ((bytes == out) ≡ false)
        × (files.write_file out world ≡ (world', none))
  update_read-true c world world' (inl e) h = ground arith
  update_read-true c world world' (inr (bytes, namespaces)) h =
      let (out, m, d, w) =
        written c world world' bytes namespaces
          (files.marshal (updated_namespaces files.sort_by_name c (items namespaces))) refl h in
      (bytes, out, namespaces, refl, m, d, w)

  read_parsed :
      (world : W) (bytes found : String) (namespaces : Slice NamespaceMonitoringConfig)
      (u : Fallible (Slice NamespaceMonitoringConfig))
      → files.read_file world ≡ content found
      → files.unmarshal found ≡ u
      → read_namespaces files path world ≡ inr (bytes, namespaces)
      → IsRead files world bytes namespaces
  unfolding read_namespaces
  read_parsed world bytes found namespaces (inl e) f u h =
      absurd (cc (rw (read_namespaces, f, u) at h))
  read_parsed world bytes found namespaces (inr entries) f u h =
      let same = rw (read_namespaces, f, u) at h in
      let same_bytes : found ≡ bytes = cc same in
      let same_entries : entries ≡ namespaces = cc same in
      rw (← same_bytes, ← same_entries) (parsed f u)

  read_content :
      (world : W) (bytes : String) (namespaces : Slice NamespaceMonitoringConfig) (r : ReadResult)
      → files.read_file world ≡ r
      → read_namespaces files path world ≡ inr (bytes, namespaces)
      → IsRead files world bytes namespaces
  unfolding read_namespaces
  read_content world bytes namespaces (content found) f h =
      read_parsed world bytes found namespaces _ f refl h
  read_content world bytes namespaces not_exist f h =
      let same = rw (read_namespaces, f) at h in
      let same_bytes : "" ≡ bytes = cc same in
      let same_entries : none ≡ namespaces = cc same in
      rw (← same_bytes, ← same_entries) (missing f)
  read_content world bytes namespaces (unreadable e) f h =
      absurd (cc (rw (read_namespaces, f) at h))

  read_namespaces_lem :
      (world : W) (bytes : String) (namespaces : Slice NamespaceMonitoringConfig)
      → IsRead files world bytes namespaces
      → read_namespaces files path world ≡ inr (bytes, namespaces)
  unfolding read_namespaces
  read_namespaces_lem world bytes namespaces (parsed f u) = rw (read_namespaces, f, u) refl
  read_namespaces_lem world _ _ (missing f) = rw (read_namespaces, f) refl

  -- The update answers that something changed exactly if the file holds bytes that encode entries,
  -- or does not exist, which counts as no bytes and no entries, the new entries are encoded by other
  -- bytes than these, and those have been written to the file.
  pub update_true_iff :
      (c : NamespaceMonitoringConfig) (world world' : W)
      → (update_telemetry_proxy_monitoring_of_namespace files path c world ≡ (world', inr true)) ↔ (
          (bytes out : String) × (namespaces : Slice NamespaceMonitoringConfig) × IsRead files world
            bytes namespaces
          × (files.marshal (updated_namespaces files.sort_by_name c (items namespaces)) ≡ inr out)
          × ((bytes == out) ≡ false)
          × (files.write_file out world ≡ (world', none)))
  unfolding update_telemetry_proxy_monitoring_of_namespace write_if_changed
  update_true_iff c world world' = (
    λ h.
        let (bytes, out, namespaces, r, m, d, w) =
          update_read-true c world world' (read_namespaces files path world) h in
        (bytes, out, namespaces, read_content world bytes namespaces _ refl r, m, d, w),
    λ (bytes, out, namespaces, r, m, d, w).
        rw (read_namespaces_lem world bytes namespaces r, m, d, w) refl,
  )
