-- ===== src/Base/Replace.antt =====
-- What `str.replace` leaves of the texts that it replaces, when the replacement is bracketed.
use policyengine_observabili.Base.Tests.{nat_eq, nat_eq_iff, Bool-cases}
use policyengine_observabili.Base.Lists.{length, any, take}
use policyengine_observabili.Base.Texts.{Text, starts_with, contains, replace_from, replace}
use Prim.Native.Nat.{ℕ, zero, suc, ◌-◌}
use mathlib.Core.Path.{◌≡◌, refl, sym, subst}
use mathlib.Core.Logic.{◌⊎◌, inl, inr}
use mathlib.Core.Bool.{true, false, ◌||◌}
use mathlib.Core.List.{[], ◌∷◌, ◌++◌, append_assoc}
use native.Mathlib.Omega.{arith}

-- A bracket cannot stand in `u`: a match of `u` ends before it.
starts_with-bracket :
    (b : ℕ) (u w t : Text) → any (nat_eq b) u ≡ false → starts_with u (w ++ b ∷ t) ≡ starts_with u w
starts_with-bracket b [] w t h = refl
starts_with-bracket b (c ∷ u) [] t h = ground (arith, nat_eq_iff b c, nat_eq_iff c b)
starts_with-bracket b (c ∷ u) (d ∷ w) t h = ground (arith, starts_with-bracket b u w t)

contains-bracket :
    (b c : ℕ) (u w t : Text)
    → any (nat_eq b) (c ∷ u) ≡ false
    → contains (c ∷ u) (w ++ b ∷ t) ≡ (contains (c ∷ u) w || contains (c ∷ u) t)
contains-bracket b c u [] t h = ground (arith, nat_eq_iff b c, nat_eq_iff c b)
contains-bracket b c u (d ∷ w) t h =
    ground (arith, starts_with-bracket b (c ∷ u) (d ∷ w) t h, contains-bracket b c u w t h)

-- A text that a replacement may not bring in: nonempty, with no bracket, and not within `w`.
pub record IsForeign (w u : Text) : Type 0 where
  pub no_open : any (nat_eq b'[') u ≡ false
  pub no_close : any (nat_eq b']') u ≡ false
  pub outside : contains u w ≡ false

pub contains-nil : (w : Text) → contains [] w ≡ true
contains-nil [] = refl
contains-nil (c ∷ w) = refl

abbrev pub bracketed : Text → Text
bracketed w = b'[' ∷ w ++ b']' ∷ []

module _ (w s : Text) where
  -- A match in the result, at a place where nothing was being replaced, was a match before.
  starts_with-replace :
      (u t : Text)
      → any (nat_eq b'[') u ≡ false
      → starts_with u (replace s (bracketed w) t) ≡ true
      → starts_with u t ≡ true
  unfolding replace_from
  starts_with-replace [] t h k = refl
  starts_with-replace (c ∷ u) [] h k = k
  starts_with-replace (c ∷ u) (d ∷ t) h k = elim (Bool-cases (starts_with s (d ∷ t))) [
    | inl matched ↦ ground (arith, nat_eq_iff b'[' c, nat_eq_iff c b'[')
    | inr kept ↦ ground (arith, starts_with-replace u t)
  ]

  contains-bracketed :
      (c : ℕ) (u t : Text)
      → IsForeign w (c ∷ u)
      → contains (c ∷ u) t ≡ false
      → contains (c ∷ u) (bracketed w ++ t) ≡ false
  contains-bracketed c u t f h = rw (append_assoc w (b']' ∷ []) t) (
      ground (
        arith,
        f,
        h,
        nat_eq_iff b'[' c,
        nat_eq_iff c b'[',
        contains-bracket b']' c u w t f.no_close,
      ))

  still :
      (c : ℕ) (u : Text) (d : ℕ) (t : Text)
      → ((c ∷ u) ≡ s) ⊎ (contains (c ∷ u) (d ∷ t) ≡ false)
      → ((c ∷ u) ≡ s) ⊎ (contains (c ∷ u) t ≡ false)
  still c u d t (inl e) = inl e
  still c u d t (inr n) = inr (ground arith)

  unmatched :
      (c : ℕ) (u : Text) (d : ℕ) (t : Text)
      → ((c ∷ u) ≡ s) ⊎ (contains (c ∷ u) (d ∷ t) ≡ false)
      → starts_with s (d ∷ t) ≡ false
      → starts_with (c ∷ u) (d ∷ t) ≡ false
  unmatched c u d t (inl e) k = subst (λ (x : Text). starts_with x (d ∷ t) ≡ false) (sym e) k
  unmatched c u d t (inr n) k = ground arith

  -- A foreign text that is the one replaced, or that was not there, is not in the result.
  contains-replace_from :
      (k : ℕ) (c : ℕ) (u t : Text)
      → IsForeign w (c ∷ u)
      → ((c ∷ u) ≡ s) ⊎ (contains (c ∷ u) t ≡ false)
      → contains (c ∷ u) (replace_from k s (bracketed w) t) ≡ false
  unfolding replace_from
  contains-replace_from k c u [] f h = refl
  contains-replace_from (suc k) c u (d ∷ t) f h = contains-replace_from k c u t f (still c u d t h)
  contains-replace_from zero c u (d ∷ t) f h = elim (Bool-cases (starts_with s (d ∷ t))) [
    | inl matched ↦ rw matched (
        contains-bracketed c u (replace_from (length s - 1) s (bracketed w) t) f
          (contains-replace_from (length s - 1) c u t f (still c u d t h)))
    | inr kept ↦ rw kept (
        ground (
          arith,
          unmatched c u d t h kept,
          starts_with-replace u t,
          contains-replace_from zero c u t f (still c u d t h),
        ))
  ]

  pub contains-replace :
      (u t : Text)
      → IsForeign w u
      → (u ≡ s) ⊎ (contains u t ≡ false)
      → contains u (replace s (bracketed w) t) ≡ false
  contains-replace [] t f h = absurd (ground (arith, f, contains-nil w))
  contains-replace (c ∷ u) t f h = contains-replace_from zero c u t f h

-- What does not stand in a text does not stand in a beginning of it.
starts_with-take : (n : ℕ) (u t : Text) → starts_with u (take n t) ≡ true → starts_with u t ≡ true
starts_with-take n [] t h = refl
starts_with-take zero (c ∷ u) t h = ground arith
starts_with-take (suc n) (c ∷ u) [] h = h
starts_with-take (suc n) (c ∷ u) (d ∷ t) h = ground (arith, starts_with-take n u t)

pub contains-take : (n : ℕ) (u t : Text) → contains u t ≡ false → contains u (take n t) ≡ false
contains-take zero [] [] h = h
contains-take zero [] (d ∷ t) h = h
contains-take zero (c ∷ u) t h = refl
contains-take (suc n) u [] h = h
contains-take (suc n) u (d ∷ t) h =
    ground (arith, contains-take n u t, starts_with-take (suc n) u (d ∷ t))
