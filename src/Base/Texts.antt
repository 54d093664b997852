-- ===== src/Base/Texts.antt =====
-- Python's `str` as the list of its code points, with the methods that the program calls.
-- `str.lower` needs the Unicode tables, and is a parameter of the functions that call it.
use Prim.Native.Nat.{ℕ, zero, suc, ◌-◌}
use Prim.Native.Char.{code}
use Prim.Native.String.{String}
use mathlib.Core.Path.{◌≡◌, refl, sym, ◌∙◌}
use mathlib.Core.Logic.{◌↔◌, inl, inr}
use mathlib.Core.Bool.{Bool, true, false, ◌&&◌, ◌||◌}
use mathlib.Core.List.{List, [], ◌∷◌, ◌++◌, reverse, reverse-cons}
use native.Mathlib.Omega.{arith}
use policyengine_observabili.Base.Tests.{leb, nat_eq, nat_eq_iff, Bool-cases, if◌then◌else◌}
use policyengine_observabili.Base.Lists.{length, any, all, is_empty}

abbrev pub Text : Type 0
Text = List ℕ

-- The code points of a literal.
abbrev pub text : String → Text
text String.[] = []
text (String.◌∷◌ c s) = code c ∷ text s

infix 50 ◌==◌
abbrev pub ◌==◌ : Text → Text → Bool
[] == [] = true
[] == (d ∷ t) = false
(c ∷ s) == [] = false
(c ∷ s) == (d ∷ t) = nat_eq c d && s == t

pub ==_iff : (s t : Text) → ((s == t) ≡ true) ↔ (s ≡ t)
==_iff [] [] = ground arith
==_iff [] (d ∷ t) = ground arith
==_iff (c ∷ s) [] = ground arith
==_iff (c ∷ s) (d ∷ t) = ground (arith, nat_eq_iff c d, ==_iff s t)

pub ==_refl : (s : Text) → (s == s) ≡ true
==_refl s = (==_iff s s).1 refl

-- `key in keys`
abbrev pub member : Text → List Text → Bool
member k ks = any (λ j. j == k) ks

-- `t.startswith(p)`
abbrev pub starts_with : Text → Text → Bool
starts_with [] t = true
starts_with (c ∷ p) [] = false
starts_with (c ∷ p) (d ∷ t) = nat_eq c d && starts_with p t

-- `t.endswith(p)`
abbrev pub ends_with : Text → Text → Bool
ends_with p t = starts_with (reverse p) (reverse t)

-- `p in t`
abbrev pub contains : Text → Text → Bool
contains p [] = starts_with p []
contains p (c ∷ t) = starts_with p (c ∷ t) || contains p t

-- `str.isspace` of one character: the white space of Unicode and four separators of ASCII.
abbrev pub is_space : ℕ → Bool
is_space c =
    (leb 9 c && leb c 13)
    || ((leb 28 c && leb c 32)
        || (any (nat_eq c) (133 ∷ 160 ∷ 5760 ∷ 8232 ∷ 8233 ∷ 8239 ∷ 8287 ∷ 12288 ∷ [])
            || (leb 8192 c && leb c 8202)))

abbrev pub lstrip : (ℕ → Bool) → Text → Text
lstrip p [] = []
lstrip p (c ∷ t) = let rest = lstrip p t in if p c then rest else c ∷ t

abbrev pub rstrip : (ℕ → Bool) → Text → Text
rstrip p t = reverse (lstrip p (reverse t))

-- `t.strip()`
unfoldable pub strip : Text → Text
strip t = rstrip is_space (lstrip is_space t)

-- `t.replace(s, r)` for a nonempty `s`: left to right, without overlap. `skip` counts what is left
-- of an occurrence that is being replaced.
unfoldable pub replace_from : ℕ → Text → Text → Text → Text
replace_from skip s r [] = []
replace_from (suc k) s r (c ∷ t) = replace_from k s r t
replace_from zero s r (c ∷ t) =
    let replaced = r ++ replace_from (length s - 1) s r t in
    let kept = c ∷ replace_from zero s r t in if starts_with s (c ∷ t) then replaced else kept

abbrev pub replace : Text → Text → Text → Text
replace s r t = replace_from 0 s r t

abbrev split_step : ℕ → ℕ → List Text → List Text
split_step sep c [] = []
split_step sep c (x ∷ xs) = if nat_eq c sep then [] ∷ x ∷ xs else (c ∷ x) ∷ xs

-- `t.split(sep)` for one character.
unfoldable pub split_on : ℕ → Text → List Text
split_on sep [] = [] ∷ []
split_on sep (c ∷ t) = split_step sep c (split_on sep t)

split_on-cons : (sep : ℕ) (t : Text) → (x : Text) × (xs : List Text) × (split_on sep t ≡ x ∷ xs)
unfolding split_on
split_on-cons sep [] = ([], [], refl)
split_on-cons sep (c ∷ t) =
    let (x, xs, e) = split_on-cons sep t in
    elim (Bool-cases (nat_eq c sep)) [
      | inl same ↦ ([], x ∷ xs, rw (e, same))
      | inr other ↦ (c ∷ x, xs, rw (e, other))
    ]

pub split_on-append :
    (sep : ℕ) (x rest : Text)
    → any (nat_eq sep) x ≡ false
    → split_on sep (x ++ (sep ∷ rest)) ≡ x ∷ split_on sep rest
unfolding split_on
split_on-append sep [] rest h =
    let (x, xs, e) = split_on-cons sep rest in rw (e, (nat_eq_iff sep sep).1 refl)
split_on-append sep (c ∷ x) rest h =
    rw (split_on-append sep x rest (ground (arith, h)))
      (ground (arith, h, nat_eq_iff c sep, nat_eq_iff sep c))

pub split_on-none : (sep : ℕ) (x : Text) → any (nat_eq sep) x ≡ false → split_on sep x ≡ x ∷ []
unfolding split_on
split_on-none sep [] h = refl
split_on-none sep (c ∷ x) h =
    rw (split_on-none sep x (ground (arith, h)))
      (ground (arith, h, nat_eq_iff c sep, nat_eq_iff sep c))

pub all-append : (p : ℕ → Bool) (xs ys : Text) → all p (xs ++ ys) ≡ (all p xs && all p ys)
all-append p [] ys = refl
all-append p (x ∷ xs) ys = ground (arith, all-append p xs ys)

pub all-reverse : (p : ℕ → Bool) (xs : Text) → all p (reverse xs) ≡ all p xs
all-reverse p [] = refl
all-reverse p (x ∷ xs) =
    rw (reverse-cons x xs) (ground (arith, all-append p (reverse xs) (x ∷ []), all-reverse p xs))

pub is_empty-all : (xs : Text) → is_empty xs ≡ all (λ _. false) xs
is_empty-all [] = refl
is_empty-all (x ∷ xs) = refl

pub is_empty-reverse : (xs : Text) → is_empty (reverse xs) ≡ is_empty xs
is_empty-reverse xs =
    is_empty-all (reverse xs) ∙ all-reverse (λ _. false) xs ∙ sym (is_empty-all xs)
