-- ===== src/Mutation/Replace.antt =====
-- Lemmas on the two list loops of the mutation: replace or append, and keep what fails a test.
use lumigo_kubernetes_operat.Prelude.{Bool, true, false, List, [], ◌∷◌, ◌++◌, ◌≡◌, refl, arith}
use lumigo_kubernetes_operat.Mutation.PodSpecs.{replace_or_append, remove_where}

-- Every element fails the test.
abbrev pub NoneOf {ℓ} : {A : Type ℓ} → (A → Bool) → List A → Type 0
NoneOf test [] = Unit
NoneOf test (x ∷ xs) = (test x ≡ false) × NoneOf test xs

module _ {ℓ} {A : Type ℓ} where
  pub replace_or_append_idem :
      (test : A → Bool) (v : A) (xs : List A)
      → test v ≡ true
      → replace_or_append test v (replace_or_append test v xs) ≡ replace_or_append test v xs
  unfolding replace_or_append
  replace_or_append_idem test v [] h = ground arith
  replace_or_append_idem test v (x ∷ xs) h = ground (arith, replace_or_append_idem test v xs)

  pub replace_or_append-NoneOf :
      (test : A → Bool) (v : A) (xs : List A)
      → NoneOf test xs
      → replace_or_append test v xs ≡ xs ++ v ∷ []
  unfolding replace_or_append
  replace_or_append-NoneOf test v [] h = refl
  replace_or_append-NoneOf test v (x ∷ xs) h =
      ground (arith, replace_or_append-NoneOf test v xs, h.0)

  pub remove_where-NoneOf :
      (test : A → Bool) (xs : List A) → NoneOf test xs → remove_where test xs ≡ xs
  unfolding remove_where
  remove_where-NoneOf test [] h = refl
  remove_where-NoneOf test (x ∷ xs) h = ground (arith, remove_where-NoneOf test xs, h.0)

  NoneOf-remove_where : (test : A → Bool) (xs : List A) → NoneOf test (remove_where test xs)
  unfolding remove_where
  NoneOf-remove_where test [] = tt
  NoneOf-remove_where test (x ∷ xs) = ground (arith, NoneOf-remove_where test xs)

  remove_where_idem :
      (test : A → Bool) (xs : List A)
      → remove_where test (remove_where test xs) ≡ remove_where test xs
  remove_where_idem test xs =
      remove_where-NoneOf test (remove_where test xs) (NoneOf-remove_where test xs)

  remove_where-append :
      (test : A → Bool) (xs ys : List A)
      → remove_where test (xs ++ ys) ≡ remove_where test xs ++ remove_where test ys
  unfolding remove_where
  remove_where-append test [] ys = refl
  remove_where-append test (x ∷ xs) ys = ground (arith, remove_where-append test xs ys)

  -- What was put at the end of a list free of its like is taken out again.
  pub remove_where-append_one :
      (test : A → Bool) (xs : List A) (v : A)
      → NoneOf test xs
      → test v ≡ true
      → remove_where test (xs ++ v ∷ []) ≡ xs
  unfolding remove_where
  remove_where-append_one test [] v h t = ground arith
  remove_where-append_one test (x ∷ xs) v h t =
      ground (arith, remove_where-append_one test xs v, h.0)

  -- Replacing or appending an element that will be removed does not show after the removal, where
  -- all that it can replace will be removed too.
  pub remove_where-replace_or_append :
      (test p : A → Bool) (v : A) (xs : List A)
      → ((x : A) → test x ≡ true → p x ≡ true)
      → p v ≡ true
      → remove_where p (replace_or_append test v xs) ≡ remove_where p xs
  unfolding remove_where replace_or_append
  remove_where-replace_or_append test p v [] h e = ground arith
  remove_where-replace_or_append test p v (x ∷ xs) h e =
      ground (arith, remove_where-replace_or_append test p v xs h e, h x)

  pub NoneOf-of_imp :
      (test p : A → Bool) (xs : List A)
      → ((x : A) → test x ≡ true → p x ≡ true)
      → NoneOf p xs
      → NoneOf test xs
  NoneOf-of_imp test p [] h n = tt
  NoneOf-of_imp test p (x ∷ xs) h n = (ground (arith, h x, n.0), NoneOf-of_imp test p xs h n.1)
