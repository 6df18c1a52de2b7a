-- ===== src/Sandbox/Warmpool.antt =====
-- The name of the warm pool for a template (`CreateSandbox` of pkg/sandbox/client.go).
use Prim.Native.Char.{Char}
use Prim.Native.String
use Prim.Native.String.{◌++◌, [], ◌∷◌}
use text.Mathlib.TextLemmas.{cons-append, nil-append, length-append, length-cons}
use cloud_agent.Common.{String, ◌≡◌, refl, ◌≢◌, arith, eq_iff, eq_refl, trim_suffix, ap}
use cloud_agent.Sandbox.Client.{warmpool_of}

not-eq-cons-append : (c : Char) (s p : String) → (c ∷ (s ++ p)) ≢ p
not-eq-cons-append c s p e =
    omega (arith, ap String.count e, length-append s p, length-cons c (s ++ p))

trim_suffix-append : (s : String) (c : Char) (p : String) → trim_suffix (s ++ (c ∷ p)) (c ∷ p) ≡ s
unfolding trim_suffix
trim_suffix-append [] c p = rw (nil-append (c ∷ p)) (rw (eq_refl (c ∷ p), trim_suffix) refl)
trim_suffix-append (d ∷ s) c p = rw (cons-append d s (c ∷ p)) (
    ground (
      arith,
      eq_iff (d ∷ (s ++ (c ∷ p))) (c ∷ p),
      not-eq-cons-append d s (c ∷ p),
      trim_suffix-append s c p,
    ))

-- A template that is named with the suffix "-template" has the warm pool of the same stem, with the
-- suffix "-warmpool".
warmpool_of-template : (stem : String) → warmpool_of (stem ++ "-template") ≡ stem ++ "-warmpool"
unfolding warmpool_of
warmpool_of-template stem = rw (trim_suffix-append stem _ _)
