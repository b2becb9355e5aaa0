-- ===== src/Enricher/Keys.antt =====
-- Why the keys of the caches tell objects apart: names and namespaces have neither "/" nor "@".
use Prim.Native.Nat.{compare, Ordering}
use Prim.Native.Char.{Char, code}
use Prim.Native.String.{String, ◌++◌ as ◌⧺◌}
use text.Mathlib.TextLemmas.{nil-append, cons-append}
use lumigo_kubernetes_operat.Prelude.{Bool, true, false, ◌≡◌, ◌≢◌, refl, arith}
use lumigo_kubernetes_operat.Enricher.Caches.{object_key, resource_version_key}

abbrev same_code : Char → Char → Bool
same_code c d = elim (compare (code c) (code d)) [ Ordering.eq ↦ true | _ ↦ false ]

unfoldable pub lacks : Char → String → Bool
lacks d String.[] = true
lacks d (String.◌∷◌ c s) = elim (same_code c d) [ true ↦ false | false ↦ lacks d s ]

same_code_self : (c : Char) → same_code c c ≡ true
same_code_self c = ground arith

lacks-tail : (d c : Char) (s : String) → lacks d (String.◌∷◌ c s) ≡ true → lacks d s ≡ true
unfolding lacks
lacks-tail d c s h = ground (arith, h)

cons_parts : {c d : Char} {s t : String} → String.◌∷◌ c s ≡ String.◌∷◌ d t → (c ≡ d) × (s ≡ t)
cons_parts e = (cc e, cc e)

append_lacking_inj :
    (d : Char) (s t s' t' : String)
    → lacks d s ≡ true
    → lacks d s' ≡ true
    → s ⧺ String.◌∷◌ d t ≡ s' ⧺ String.◌∷◌ d t'
    → (s ≡ s') × (t ≡ t')
unfolding lacks
append_lacking_inj d String.[] t String.[] t' h h' e =
    (refl, cc (e, nil-append (String.◌∷◌ d t), nil-append (String.◌∷◌ d t')))
append_lacking_inj d String.[] t (String.◌∷◌ c s') t' h h' e =
    absurd (
      cc (same_code_self d, e, h', nil-append (String.◌∷◌ d t), cons-append c s' (String.◌∷◌ d t')))
append_lacking_inj d (String.◌∷◌ c s) t String.[] t' h h' e =
    absurd
      (cc (same_code_self d, e, h, nil-append (String.◌∷◌ d t'), cons-append c s (String.◌∷◌ d t)))
append_lacking_inj d (String.◌∷◌ c s) t (String.◌∷◌ c' s') t' h h' e =
    let (first, rest) = cons_parts e' in
    let (heads, tails) =
      append_lacking_inj d s t s' t' (lacks-tail d c s h) (lacks-tail d c' s' h') rest in
    (cc (first, heads), tails)
  where
    e' : String.◌∷◌ c (s ⧺ String.◌∷◌ d t) ≡ String.◌∷◌ c' (s' ⧺ String.◌∷◌ d t')
    e' = cc (e, cons-append c s (String.◌∷◌ d t), cons-append c' s' (String.◌∷◌ d t'))

abbrev slash : Char
slash = "/"

abbrev at_sign : Char
at_sign = "@"

slash-append : (s : String) → "/" ⧺ s ≡ String.◌∷◌ slash s
slash-append s = cc (cons-append slash "" s, nil-append s)

at_sign-append : (s : String) → "@" ⧺ s ≡ String.◌∷◌ at_sign s
at_sign-append s = cc (cons-append at_sign "" s, nil-append s)

-- A name of an object or a namespace: neither "/" nor "@" is in it.
unfoldable pub IsName : String → Type 0
IsName s = (lacks slash s ≡ true) × (lacks at_sign s ≡ true)

pub object_key_inj :
    (ns name ns' name' : String)
    → IsName ns
    → IsName ns'
    → object_key ns name ≡ object_key ns' name'
    → (ns ≡ ns') × (name ≡ name')
unfolding IsName
object_key_inj ns name ns' name' h h' e =
    append_lacking_inj slash ns name ns' name' h.0 h'.0
      (cc (e, slash-append name, slash-append name'))

pub resource_version_key_inj :
    (ns name rv ns' name' rv' : String)
    → IsName ns
    → IsName ns'
    → IsName name
    → IsName name'
    → resource_version_key ns name rv ≡ resource_version_key ns' name' rv'
    → (ns ≡ ns') × ((name ≡ name') × (rv ≡ rv'))
unfolding IsName
resource_version_key_inj ns name rv ns' name' rv' h h' k k' e =
    let (p, q) = object_key_inj ns (name ⧺ ("@" ⧺ rv)) ns' (name' ⧺ ("@" ⧺ rv')) h h' e in
    (
      p,
      append_lacking_inj at_sign name rv name' rv' k.1 k'.1
          (cc (q, at_sign-append rv, at_sign-append rv')),
    )

lacks-append_self : (d : Char) (s t : String) → lacks d (s ⧺ String.◌∷◌ d t) ≡ false
unfolding lacks
lacks-append_self d String.[] t = cc (nil-append (String.◌∷◌ d t), same_code_self d)
lacks-append_self d (String.◌∷◌ c s) t =
    ground (arith, cons-append c s (String.◌∷◌ d t), lacks-append_self d s t)

pub object_key-not_version_key :
    (ns name ns' name' rv' : String)
    → IsName ns
    → IsName ns'
    → IsName name
    → object_key ns name ≢ resource_version_key ns' name' rv'
unfolding IsName
object_key-not_version_key ns name ns' name' rv' h h' k e =
    let (p, q) = object_key_inj ns name ns' (name' ⧺ ("@" ⧺ rv')) h h' e in
    cc (q, k.1, at_sign-append rv', lacks-append_self at_sign name' rv')
