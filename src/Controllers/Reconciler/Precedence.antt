-- ===== src/Controllers/Reconciler/Precedence.antt =====
-- Which instance of a namespace a reconciliation goes on with
-- (controllers/lumigo_controller.go:235-261).
use mathlib.Core.List.{Memᴰ, Permᴰ}
use mathlib.Core.List.Permᴰ.{nil, cons, swap, trans}
use mathlib.Core.List.Permᴰ
use mathlib.Core.List.Memᴰ.{head, tail}
use lumigo_kubernetes_operat.Prelude.{
  ℕ, Bool, true, false, not, ◌&&◌, List, [], ◌∷◌, ◌≡◌, refl, sym, ◌∙◌, arith, eq_iff, ltb,
}
use lumigo_kubernetes_operat.Api.{Lumigo}
use lumigo_kubernetes_operat.Controllers.Reconciler.{
  created_before, is_first_uid, has_other, is_superseded,
}

-- No instance of the list was created before that time.
unfoldable pub none_before : ℕ → List Lumigo → Bool
none_before time [] = true
none_before time (lumigo ∷ lumigoes) =
    not (ltb lumigo.meta.creation_timestamp time) && none_before time lumigoes

none_before_earlier :
    (a b : ℕ) (ls : List Lumigo)
    → ltb b a ≡ false
    → none_before b ls ≡ true
    → none_before a ls ≡ true
unfolding none_before
none_before_earlier a b [] h n = refl
none_before_earlier a b (l ∷ ls) h n = ground (arith, none_before_earlier a b ls)

ltb_self : (a : ℕ) → ltb a a ≡ false
ltb_self a = ground arith

-- No instance was created before its predecessor.
pub data AreByTime : List Lumigo → Type 0 where
  none_listed : AreByTime []
  one_listed : {x : Lumigo} → AreByTime (x ∷ [])
  one_before :
      {x y : Lumigo} {ls : List Lumigo}
      → created_before y x ≡ false
      → AreByTime (y ∷ ls)
      → AreByTime (x ∷ y ∷ ls)

-- What sort.Sort is documented to do with the order of the creation times: the instances are
-- permuted, so that none was created before its predecessor.
pub record IsTimeSort (sort : (Lumigo → Lumigo → Bool) → List Lumigo → List Lumigo) : Type 0 where
  pub permutes : (ls : List Lumigo) → Permᴰ (sort created_before ls) ls
  pub sorts : (ls : List Lumigo) → AreByTime (sort created_before ls)

none_before-AreByTime :
    (x : Lumigo) (ls : List Lumigo)
    → AreByTime (x ∷ ls)
    → none_before x.meta.creation_timestamp (x ∷ ls) ≡ true
unfolding none_before
none_before-AreByTime x _ one_listed = rw (ltb_self x.meta.creation_timestamp) refl
none_before-AreByTime x _ (one_before {y = y} {ls = ls} e s) = ground (
  arith,
  e,
  ltb_self x.meta.creation_timestamp,
  none_before-AreByTime y ls s,
  none_before_earlier x.meta.creation_timestamp y.meta.creation_timestamp ls,
)

none_before-Permᴰ :
    (time : ℕ) {l r : List Lumigo} → Permᴰ l r → none_before time l ≡ none_before time r
unfolding none_before
none_before-Permᴰ time nil = refl
none_before-Permᴰ time (cons e p) = rw (e, none_before-Permᴰ time p) refl
none_before-Permᴰ time (swap {a = a} {b = b} {l = l} e f) = rw (← e, ← f) (ground arith)
none_before-Permᴰ time (trans p q) = none_before-Permᴰ time p ∙ none_before-Permᴰ time q

Mem-Permᴰ : {a : Lumigo} {l r : List Lumigo} → Permᴰ l r → Memᴰ a l → Memᴰ a r
Mem-Permᴰ nil m = m
Mem-Permᴰ (cons e p) (head h) = head (h ∙ e)
Mem-Permᴰ (cons e p) (tail m) = tail (Mem-Permᴰ p m)
Mem-Permᴰ (swap e f) (head h) = tail (head (h ∙ e))
Mem-Permᴰ (swap e f) (tail (head h)) = head (h ∙ f)
Mem-Permᴰ (swap e f) (tail (tail m)) = tail (tail m)
Mem-Permᴰ (trans p q) m = Mem-Permᴰ q (Mem-Permᴰ p m)

first_is_oldest :
    (lumigo : Lumigo) (sorted lumigoes : List Lumigo)
    → has_other lumigo.meta.name lumigoes ≡ true
    → is_first_uid lumigo.meta.uid sorted ≡ true
    → Permᴰ sorted lumigoes
    → AreByTime sorted
    → (first : Lumigo) × Memᴰ first lumigoes
      × (first.meta.uid ≡ lumigo.meta.uid)
      × (none_before first.meta.creation_timestamp lumigoes ≡ true)
unfolding has_other
first_is_oldest lumigo [] [] o u p s = absurd (cc o)
first_is_oldest lumigo [] (y ∷ ys) o u p s = elim (Mem-Permᴰ (Permᴰ.symm p) (head refl)) [ ]
first_is_oldest lumigo (x ∷ xs) lumigoes o u p s = (
  x,
  Mem-Permᴰ p (head refl),
  (eq_iff x.meta.uid lumigo.meta.uid).0 u,
  sym (none_before-Permᴰ x.meta.creation_timestamp p) ∙ none_before-AreByTime x xs s,
)

first_of_superseded :
    (sort : (Lumigo → Lumigo → Bool) → List Lumigo → List Lumigo) (lumigo : Lumigo)
    (ls : List Lumigo)
    → has_other lumigo.meta.name ls ≡ true
    → is_superseded sort lumigo ls ≡ false
    → is_first_uid lumigo.meta.uid (sort created_before ls) ≡ true
unfolding is_superseded
first_of_superseded sort lumigo ls o h = ground arith

-- Where the sort permutes and sorts: among several instances of a namespace, the one that a
-- reconciliation goes on with has the uid of a listed instance before which no listed one was
-- created.
pub only_oldest_proceeds :
    (sort : (Lumigo → Lumigo → Bool) → List Lumigo → List Lumigo)
    → IsTimeSort sort
    → (lumigo : Lumigo) (lumigoes : List Lumigo) → has_other lumigo.meta.name lumigoes ≡ true
    → is_superseded sort lumigo lumigoes ≡ false
    → (first : Lumigo) × Memᴰ first lumigoes
      × (first.meta.uid ≡ lumigo.meta.uid)
      × (none_before first.meta.creation_timestamp lumigoes ≡ true)
only_oldest_proceeds sort t lumigo lumigoes o h =
    first_is_oldest lumigo (sort created_before lumigoes) lumigoes o
      (first_of_superseded sort lumigo lumigoes o h) (t.permutes lumigoes) (t.sorts lumigoes)
