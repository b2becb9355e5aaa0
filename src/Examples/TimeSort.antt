-- ===== src/Examples/TimeSort.antt =====
-- A sort of instances by a `Less`: the insertion sort that sort.Sort is on short slices.
use mathlib.Core.List.{Permᴰ}
use mathlib.Core.List.Permᴰ.{nil, cons, swap, trans}
use mathlib.Core.List.Permᴰ
use lumigo_kubernetes_operat.Prelude.{
  Bool, true, false, List, [], ◌∷◌, ◌≡◌, inl, inr, refl, arith, Bool-cases, if◌then◌else◌,
}
use lumigo_kubernetes_operat.Api.{Lumigo}
use lumigo_kubernetes_operat.Controllers.Reconciler.{created_before}
use lumigo_kubernetes_operat.Controllers.Reconciler.Precedence.{
  AreByTime, none_listed, one_listed, one_before, IsTimeSort,
}

abbrev insert_by {ℓ} : {A : Type ℓ} → (A → A → Bool) → A → List A → List A
insert_by less x [] = x ∷ []
insert_by less x (y ∷ ys) = if less y x then y ∷ insert_by less x ys else x ∷ y ∷ ys

abbrev pub sort_by {ℓ} : {A : Type ℓ} → (A → A → Bool) → List A → List A
sort_by less [] = []
sort_by less (x ∷ xs) = insert_by less x (sort_by less xs)

Permᴰ-step :
    (x y : Lumigo) (ys zs : List Lumigo) (b : Bool)
    → Permᴰ zs (x ∷ ys)
    → Permᴰ (if b then y ∷ zs else x ∷ y ∷ ys) (x ∷ y ∷ ys)
Permᴰ-step x y ys zs true p = trans (cons refl p) (swap refl refl)
Permᴰ-step x y ys zs false p = Permᴰ.refl (x ∷ y ∷ ys)

Permᴰ-insert_by :
    (less : Lumigo → Lumigo → Bool) (x : Lumigo) (ls : List Lumigo)
    → Permᴰ (insert_by less x ls) (x ∷ ls)
Permᴰ-insert_by less x [] = Permᴰ.refl (x ∷ [])
Permᴰ-insert_by less x (y ∷ ys) =
    Permᴰ-step x y ys (insert_by less x ys) (less y x) (Permᴰ-insert_by less x ys)

Permᴰ-sort_by : (less : Lumigo → Lumigo → Bool) (ls : List Lumigo) → Permᴰ (sort_by less ls) ls
Permᴰ-sort_by less [] = nil
Permᴰ-sort_by less (x ∷ ls) =
    trans (Permᴰ-insert_by less x (sort_by less ls)) (cons refl (Permᴰ-sort_by less ls))

created_before-asym : (x y : Lumigo) → created_before y x ≡ true → created_before x y ≡ false
created_before-asym x y h = ground arith

-- An instance that is not before `x` goes in after it.
AreByTime-insert_after :
    (x z : Lumigo) (ls : List Lumigo)
    → created_before z x ≡ false
    → AreByTime (x ∷ ls)
    → AreByTime (x ∷ insert_by created_before z ls)
AreByTime-insert_after x z _ n one_listed = one_before n one_listed
AreByTime-insert_after x z _ n (one_before {y = y} {ls = ls} e s) =
    elim (Bool-cases (created_before y z)) [
      | inl b ↦ rw b (one_before e (AreByTime-insert_after y z ls (created_before-asym z y b) s))
      | inr b ↦ rw b (one_before n (one_before b s))
    ]

AreByTime-insert_by :
    (z : Lumigo) (ls : List Lumigo) → AreByTime ls → AreByTime (insert_by created_before z ls)
AreByTime-insert_by z _ none_listed = one_listed
AreByTime-insert_by z _ (one_listed {x = x}) = elim (Bool-cases (created_before x z)) [
  | inl b ↦ rw b (one_before (created_before-asym z x b) one_listed)
  | inr b ↦ rw b (one_before b one_listed)
]
AreByTime-insert_by z _ (one_before {x = x} {y = y} {ls = ls} e s) =
    elim (Bool-cases (created_before x z)) [
      | inl b ↦
          rw b (AreByTime-insert_after x z (y ∷ ls) (created_before-asym z x b) (one_before e s))
      | inr b ↦ rw b (one_before b (one_before e s))
    ]

AreByTime-sort_by : (ls : List Lumigo) → AreByTime (sort_by created_before ls)
AreByTime-sort_by [] = none_listed
AreByTime-sort_by (x ∷ ls) =
    AreByTime-insert_by x (sort_by created_before ls) (AreByTime-sort_by ls)

pub sort_by-IsTimeSort : IsTimeSort sort_by
sort_by-IsTimeSort = record { permutes = Permᴰ-sort_by created_before; sorts = AreByTime-sort_by }
