-- ===== src/Common/Prefix.antt =====
-- Texts that are not empty, and cutting a prefix off a text.
use Prim.Native.String.{String, [], ◌∷◌, ◌++◌}
use mathlib.Core.Path.{◌≡◌}
use mathlib.Core.Option.{some}
use mathlib.Core.Logic.{◌≢◌}
use mathlib.Core.Bool.{false}
use text.Mathlib.Text.{◌==◌}
use native.Mathlib.Omega.{arith}
use text.Mathlib.TextLemmas.{nil-append, cons-append}
use text.Mathlib.TextEquality.{eq_iff, Char-path}
use cloud_agent.Common.Text.{cut_prefix}

pub ne_empty : (t : String) → (t == "") ≡ false → t ≢ ""
ne_empty t e = ground (arith, eq_iff t "")

pub cut_prefix-append : (p r : String) → cut_prefix (p ++ r) p ≡ some r
unfolding cut_prefix
cut_prefix-append [] r = rw nil-append
cut_prefix-append (c ∷ p) r = rw (cons-append c p r) (ground (arith, cut_prefix-append p r))

pub append-cut_prefix : (s p : String) {r : String} → cut_prefix s p ≡ some r → s ≡ p ++ r
unfolding cut_prefix
append-cut_prefix s [] {r} e = cc (nil-append r)
append-cut_prefix [] (d ∷ p) e = cc
append-cut_prefix (c ∷ s) (d ∷ p) {r} e =
    cc (
      cons-append d p r,
      append-cut_prefix s p {r = r} (ground arith),
      Char-path c d (ground arith),
    )
