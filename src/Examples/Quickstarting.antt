-- ===== src/Examples/Quickstarting.antt =====
-- The theorem on the quickstart mode, for all namespaces of a cluster that has an instance everywhere;
-- its world is the list of the namespaces that were written to.
use mathlib.Core.List.{Memᴰ}
use mathlib.Core.List.Memᴰ
use lumigo_kubernetes_operat.Prelude.{
  String, true, false, none, some, List, [], ◌∷◌, inl, inr, ◌≡◌, errorf,
}
use lumigo_kubernetes_operat.Api.{Lumigo}
use lumigo_kubernetes_operat.Quickstart.{
  QuickstartSetting, Services, is_ignored, create_quickstart_objects,
}
use lumigo_kubernetes_operat.Quickstart.Writes.{
  IsAskedFor, by_name, as_one_of_all, IsUpdated, AllowsQuickstart,
  create_quickstart_objects_writes_only,
}
use lumigo_kubernetes_operat.Examples.{new_lumigo}

abbrev lumigo_in : String → Lumigo
lumigo_in namespace = record new_lumigo { meta = record new_lumigo.meta { namespace = namespace } }

abbrev services : Services (List String)
services = record {
  list_namespaces = λ w. (w, inr ("kube-system" ∷ "shop" ∷ []));
  create_secret = λ namespace name key token w. (namespace ∷ w, none);
  create_lumigo = λ l w. (w, some (errorf "There is already an instance" []));
  get_lumigo = λ namespace name w. (w, inr (lumigo_in namespace));
  update_lumigo = λ l w. (l.meta.namespace ∷ w, none);
  sleep = λ n w. w;
  unmarshal = λ s. inl (errorf "invalid character" []);
  is_already_exists = λ e. false;
  contains_text = λ e s. true;
}

-- No namespace that is ignored was written to.
abbrev Spared : List String → Type 0
Spared w = (name : String) → Memᴰ name w → is_ignored "lumigo-system" name ≡ false

Spared-cons :
    (name : String) (w : List String)
    → is_ignored "lumigo-system" name ≡ false
    → Spared w
    → Spared (name ∷ w)
Spared-cons name w h p other m = elim (Memᴰ.cases_cons m) [
  | inl here ↦ rw here h
  | inr there ↦ p other there
]

not_ignored :
    (s : QuickstartSetting)
    → IsAskedFor services "all" "lumigo-system" s
    → is_ignored "lumigo-system" s.namespace ≡ false
not_ignored s (by_name h m) = absurd (cc h)
not_ignored _ (as_one_of_all e h) = h

updated-Spared :
    (s : QuickstartSetting) (l l' : Lumigo) (v w : List String)
    → IsAskedFor services "all" "lumigo-system" s
    → (services.get_lumigo s.namespace "lumigo" v).1 ≡ inr l
    → IsUpdated s l l'
    → Spared w
    → Spared (l'.meta.namespace ∷ w)
updated-Spared s l l' v w a h u p =
    let same : l ≡ lumigo_in s.namespace = cc h in
    let there : l'.meta.namespace ≡ s.namespace = cc (u.meta, same) in
    Spared-cons l'.meta.namespace w (rw there (not_ignored s a)) p

allows : AllowsQuickstart services "all" "t_0" "lumigo-system" Spared
allows = record {
  listed = λ w p. p;
  read = λ namespace name w p. p;
  slept = λ n w p. p;
  secret = λ s w a p. Spared-cons s.namespace w (not_ignored s a) p;
  instance_created = λ s w a p. p;
  updated = updated-Spared;
}

nothing : Spared []
nothing name = elim [ ]

create_quickstart_objects_writes_only_example :
    Spared (create_quickstart_objects services "all" "t_0" "lumigo-system" []).0
create_quickstart_objects_writes_only_example =
    create_quickstart_objects_writes_only services "all" "t_0" "lumigo-system" Spared allows []
      nothing
