-- ===== src/Common/Replace.antt =====
-- What `strings.ReplaceAll` leaves of the text that it replaces.
use Prim.Native.Nat.{ℕ, zero, suc, ◌-◌}
use Prim.Native.Char.{Char, code}
use Prim.Native.String.{String, [], ◌∷◌, ◌++◌, count}
use mathlib.Core.Path.{◌≡◌, refl, ap}
use mathlib.Core.Logic.{◌≢◌, inl, inr}
use mathlib.Core.Bool.{Bool, true, false, ◌||◌}
use native.Mathlib.Omega.{arith}
use text.Mathlib.TextLemmas.{nil-append, cons-append, length-cons}
use text.Mathlib.TextEquality.{eq_iff}
use cloud_agent.Common.Logic.{nat_eq, if◌then◌else◌, Bool-cases}
use cloud_agent.Common.Text.{cut_prefix, has_prefix, contains, replaced, replace_all}

-- The text does not have the character "*".
unfoldable pub starless : String → Bool
starless [] = true
starless (c ∷ s) = let rest = starless s in if nat_eq (code c) b'*' then false else rest

starless-tail : (d : Char) (q : String) → starless (d ∷ q) ≡ true → starless q ≡ true
unfolding starless
starless-tail d q h = ground arith

has_prefix-nil : (s : String) → has_prefix s "" ≡ true
unfolding has_prefix cut_prefix
has_prefix-nil [] = refl
has_prefix-nil (c ∷ s) = refl

stars-append : (s : String) → "***" ++ s ≡ "*" ∷ "*" ∷ "*" ∷ s
stars-append s =
    rw (cons-append "*" "**" s, cons-append "*" "*" s, cons-append "*" "" s, nil-append s) refl

-- A text that starts with "*" does not start with a text that has none.
has_prefix-star : (s q : String) → starless q ≡ true → q ≢ "" → has_prefix ("*" ∷ s) q ≡ false
unfolding has_prefix cut_prefix starless
has_prefix-star s [] free given = absurd (given refl)
has_prefix-star s (d ∷ q) free given = ground arith

has_prefix-cons :
    (c : Char) (s t : String) (d : Char) (q : String)
    → (has_prefix s q ≡ true → has_prefix t q ≡ true)
    → has_prefix (c ∷ s) (d ∷ q) ≡ true
    → has_prefix (c ∷ t) (d ∷ q) ≡ true
unfolding has_prefix cut_prefix
has_prefix-cons c s t d q k h = ground arith

cons_given : (d : Char) (q : String) → (d ∷ q) ≢ ""
cons_given d q e = omega (arith, ap count e, length-cons d q)

replaced-nil : (old : String) (skip : ℕ) → replaced old "***" skip "" ≡ ""
unfolding replaced
replaced-nil old skip = refl

replaced-suc :
    (old : String) (skip : ℕ) (c : Char) (s : String)
    → replaced old "***" (suc skip) (c ∷ s) ≡ replaced old "***" skip s
unfolding replaced
replaced-suc old skip c s = refl

-- what `replaced` does at a match, and at no match
module _ (old : String) (c : Char) (s : String) where
  replaced-matched :
      has_prefix (c ∷ s) old ≡ true
      → replaced old "***" zero (c ∷ s) ≡ "*" ∷ "*" ∷ "*" ∷ replaced old "***" (count old - 1) s
  unfolding replaced
  replaced-matched matched = rw (matched, if◌then◌else◌) (stars-append _)

  replaced-kept :
      has_prefix (c ∷ s) old ≡ false
      → replaced old "***" zero (c ∷ s) ≡ c ∷ replaced old "***" zero s
  unfolding replaced
  replaced-kept kept = rw (kept, if◌then◌else◌) refl

has_prefix-replaced :
    (old s q : String)
    → starless q ≡ true
    → has_prefix (replaced old "***" zero s) q ≡ true
    → has_prefix s q ≡ true
has_prefix-replaced old s [] free h = has_prefix-nil s
has_prefix-replaced old [] (d ∷ q) free h = (unfold replaced in h)
has_prefix-replaced old (c ∷ s) (d ∷ q) free h = elim (Bool-cases (has_prefix (c ∷ s) old)) [
  | inl matched ↦
      let stars = rw (replaced-matched old c s matched) at h in
      absurd (
        ground (
          arith,
          has_prefix-star ("*" ∷ "*" ∷ replaced old "***" (count old - 1) s) (d ∷ q) free
              (cons_given d q),
        ))
  | inr kept ↦
      has_prefix-cons c (replaced old "***" zero s) s d q
        (has_prefix-replaced old s q (starless-tail d q free))
        (rw (replaced-kept old c s kept) at h)
]

contains-cons :
    (c : Char) (s p : String) → contains (c ∷ s) p ≡ (has_prefix (c ∷ s) p || contains s p)
unfolding contains
contains-cons c s p = refl

contains-nil : (p : String) → p ≢ "" → contains "" p ≡ false
unfolding contains
contains-nil p given = ground (arith, eq_iff p "")

contains-star :
    (s p : String)
    → starless p ≡ true
    → p ≢ ""
    → contains s p ≡ false
    → contains ("*" ∷ s) p ≡ false
contains-star s p free given h = rw (contains-cons "*" s p, has_prefix-star s p free given) h

-- where there was no match, none comes about
unmatched :
    (old : String) (c : Char) (s : String)
    → starless old ≡ true
    → has_prefix (c ∷ s) old ≡ false
    → has_prefix (c ∷ replaced old "***" zero s) old ≡ false
unmatched old c s free kept = elim (Bool-cases (has_prefix (c ∷ replaced old "***" zero s) old)) [
  | inr none ↦ none
  | inl some ↦
      let before =
        has_prefix-replaced old (c ∷ s) old free (rw (replaced-kept old c s kept) some) in
      absurd (ground arith)
]

contains-replaced :
    (old s : String) (skip : ℕ)
    → starless old ≡ true
    → old ≢ ""
    → contains (replaced old "***" skip s) old ≡ false
contains-replaced old [] skip free given = rw (replaced-nil old skip) (contains-nil old given)
contains-replaced old (c ∷ s) (suc skip) free given =
    rw (replaced-suc old skip c s) (contains-replaced old s skip free given)
contains-replaced old (c ∷ s) zero free given = elim (Bool-cases (has_prefix (c ∷ s) old)) [
  | inl matched ↦
      let rest = contains-replaced old s (count old - 1) free given in
      rw (replaced-matched old c s matched) (
        contains-star _ old free given
          (contains-star _ old free given (contains-star _ old free given rest)))
  | inr kept ↦
      let rest = contains-replaced old s zero free given in
      rw (replaced-kept old c s kept, contains-cons c (replaced old "***" zero s) old)
        (ground (arith, rest, kept, unmatched old c s free kept))
]

-- Once a text that is not empty and has no "*" is replaced by "***", nothing of it is left.
pub contains-replace_all :
    (s old : String)
    → starless old ≡ true
    → old ≢ ""
    → contains (replace_all s old "***") old ≡ false
unfolding replace_all
contains-replace_all s old free given = contains-replaced old s zero free given
