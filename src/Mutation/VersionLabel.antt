-- ===== src/Mutation/VersionLabel.antt =====
-- The length of the label that the operator writes (mutation/mutate.go:113-117, 128-137).
use Prim.Native.Char.{Char, len_utf8}
use Prim.Native.Nat.{compare, Ordering}
use Prim.Native.String.len
use Prim.Native.String.slice
use Prim.Native.String.{len, slice, fits}
use text.Mathlib.TextPositions.{len-append}
use lumigo_kubernetes_operat.Prelude.{ℕ, ◌-◌, ◌≤◌, String, ◌≡◌, refl, arith}
use lumigo_kubernetes_operat.Mutation.Names.{label_version_prefix_value}
use lumigo_kubernetes_operat.Mutation.Mutator.{truncate_version, version_label_value}

len_nil : len String.[] ≡ 0
len_nil = len.nil

len-slice_cons :
    (c : Char) (s : String) (b : ℕ)
    → slice (String.◌∷◌ c s) 0 b ≡ fits (compare (len_utf8 c) b) c (slice s 0 (b - len_utf8 c))
len-slice_cons c s b = slice.cons-zero c s b

len-fits :
    (o : Ordering) (n b : ℕ) (c : Char) (t : String)
    → compare n b ≡ o
    → n ≡ len_utf8 c
    → len t ≤ b - n
    → len (fits o c t) ≤ b
len-fits Ordering.lt n b c t o e h = ground (arith, len.cons c t)
len-fits Ordering.eq n b c t o e h = ground (arith, len.cons c t)
len-fits Ordering.gt n b c t o e h = omega (arith, len_nil)

len-slice-le : (s : String) (b : ℕ) → len (slice s 0 b) ≤ b
len-slice-le String.[] b = rw (slice.nil 0 b) (omega (arith, len_nil))
len-slice-le (String.◌∷◌ c s) b = rw (len-slice_cons c s b) (
    len-fits (compare (len_utf8 c) b) (len_utf8 c) b c (slice s 0 (b - len_utf8 c)) refl refl
      (len-slice-le s (b - len_utf8 c)))

len-truncate_version : (v : String) → len (truncate_version v) ≤ 8
unfolding truncate_version
len-truncate_version v = ground (arith, len-slice-le v 7)

-- The label's value has at most 25 bytes, whatever the version: within the 63 of a label's value.
pub len-version_label_value : (v : String) → len (version_label_value v) ≤ 25
unfolding version_label_value
len-version_label_value v =
    rw (len-append label_version_prefix_value (truncate_version v))
      (omega (arith, len-truncate_version v))
