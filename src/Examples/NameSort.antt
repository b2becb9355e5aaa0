-- ===== src/Examples/NameSort.antt =====
-- A sort of the entries by name: the insertion sort that sort.Slice is on short slices.
use mathlib.Core.List.{Permᴰ}
use mathlib.Core.List.Permᴰ.{nil, cons, swap, trans}
use mathlib.Core.List.Permᴰ
use lumigo_kubernetes_operat.Prelude.{
  codes, ℕ, String, Bool, true, false, List, [], ◌∷◌, ◌≡◌, refl, arith, if◌then◌else◌,
}
use lumigo_kubernetes_operat.Controllers.NamespaceConfigs.{
  NamespaceMonitoringConfig, codes_before, before,
}
use lumigo_kubernetes_operat.Controllers.NamespaceConfigs.Entries.{
  is_sorted_after, is_sorted, IsNameSort,
}

insert_by_name :
    NamespaceMonitoringConfig → List NamespaceMonitoringConfig → List NamespaceMonitoringConfig
insert_by_name c [] = c ∷ []
insert_by_name c (d ∷ ds) = if before d.name c.name then d ∷ insert_by_name c ds else c ∷ d ∷ ds

pub insertion_sort : List NamespaceMonitoringConfig → List NamespaceMonitoringConfig
insertion_sort [] = []
insertion_sort (c ∷ cs) = insert_by_name c (insertion_sort cs)

codes_before_asym : (s t : List ℕ) → codes_before s t ≡ true → codes_before t s ≡ false
codes_before_asym [] [] h = refl
codes_before_asym [] (d ∷ t) h = refl
codes_before_asym (c ∷ s) [] h = cc h
codes_before_asym (c ∷ s) (d ∷ t) h = ground (arith, codes_before_asym s t)

before_asym : (s t : String) → before s t ≡ true → before t s ≡ false
unfolding before
before_asym s t h = codes_before_asym (codes s) (codes t) h

insert-is_sorted_after :
    (s : String) (c : NamespaceMonitoringConfig) (cs : List NamespaceMonitoringConfig)
    → before c.name s ≡ false
    → is_sorted_after s cs ≡ true
    → is_sorted_after s (insert_by_name c cs) ≡ true
unfolding is_sorted_after insert_by_name
insert-is_sorted_after s c [] b h = ground arith
insert-is_sorted_after s c (d ∷ ds) b h =
    ground (arith, insert-is_sorted_after d.name c ds, before_asym d.name c.name)

insert-is_sorted :
    (c : NamespaceMonitoringConfig) (cs : List NamespaceMonitoringConfig)
    → is_sorted cs ≡ true
    → is_sorted (insert_by_name c cs) ≡ true
unfolding is_sorted is_sorted_after insert_by_name
insert-is_sorted c [] h = refl
insert-is_sorted c (d ∷ ds) h =
    ground (arith, insert-is_sorted_after d.name c ds, before_asym d.name c.name)

insertion_sort-is_sorted :
    (cs : List NamespaceMonitoringConfig) → is_sorted (insertion_sort cs) ≡ true
unfolding is_sorted insertion_sort
insertion_sort-is_sorted [] = refl
insertion_sort-is_sorted (c ∷ cs) =
    insert-is_sorted c (insertion_sort cs) (insertion_sort-is_sorted cs)

Permᴰ-insert :
    (c : NamespaceMonitoringConfig) (cs : List NamespaceMonitoringConfig)
    → Permᴰ (insert_by_name c cs) (c ∷ cs)
unfolding insert_by_name
Permᴰ-insert c [] = Permᴰ.refl (c ∷ [])
Permᴰ-insert c (d ∷ ds) = Permᴰ-inserted c d ds (before d.name c.name) (Permᴰ-insert c ds)
  where
    Permᴰ-inserted :
        (x y : NamespaceMonitoringConfig) (ys : List NamespaceMonitoringConfig) (b : Bool)
        → Permᴰ (insert_by_name x ys) (x ∷ ys)
        → Permᴰ (if b then y ∷ insert_by_name x ys else x ∷ y ∷ ys) (x ∷ y ∷ ys)
    Permᴰ-inserted x y ys true p = trans (cons refl p) (swap refl refl)
    Permᴰ-inserted x y ys false p = Permᴰ.refl (x ∷ y ∷ ys)

Permᴰ-insertion_sort : (cs : List NamespaceMonitoringConfig) → Permᴰ (insertion_sort cs) cs
unfolding insertion_sort
Permᴰ-insertion_sort [] = nil
Permᴰ-insertion_sort (c ∷ cs) =
    trans (Permᴰ-insert c (insertion_sort cs)) (cons refl (Permᴰ-insertion_sort cs))

pub insertion_sort-IsNameSort : IsNameSort insertion_sort
insertion_sort-IsNameSort = record {
  permutes = Permᴰ-insertion_sort;
  sorts = insertion_sort-is_sorted;
}
