-- ===== src/Tests/Releases.antt =====
-- A release on a small repository, with ASCII digits.
use mathlib.Core.List.{reverse, reverse-append, reverse-reverse}
use policyengine_observabili.Base
use policyengine_observabili.Base.{
  All, ℕ, zero, suc, leb, nat_eq, ◌+◌, ◌-◌, ◌*◌, Text, text, ◌++◌, lstrip, is_empty, all, Bool,
  true, false, not, ◌&&◌, if◌then◌else◌, Option, none, some, List, [], ◌∷◌, all-reverse,
  is_empty-reverse, ◌≡◌, refl, ap, ◌∙◌, arith,
}
use policyengine_observabili.Release.{
  Version, Repository, done, is_number, parse_version, next_version, get_current_version,
  infer_bump, bump_version, newest, get_git_tag_versions, semver_match, ◌>>=◌,
}
use policyengine_observabili.Release.Newer.{IsVersion, IsBelow, next_version-newest}

abbrev is_digit : ℕ → Bool
is_digit c = leb b'0' c && leb c b'9'

-- The digits of the next number, the least one first.
abbrev next_digits : Text → Text
next_digits [] = b'1' ∷ []
next_digits (d ∷ ds) =
    let carried = next_digits ds in if nat_eq d b'9' then b'0' ∷ carried else suc d ∷ ds

abbrev digits : ℕ → Text
digits zero = b'0' ∷ []
digits (suc n) = next_digits (digits n)

abbrev number : Text → ℕ
number [] = 0
number (d ∷ ds) = (d - b'0') + 10 * number ds

abbrev decimal : ℕ → Text
decimal n = reverse (digits n)

abbrev int : Text → Option ℕ
int t =
    let ds = lstrip (nat_eq 10) (reverse t) in
    if not (is_empty ds) && all is_digit ds then some (number ds) else none

next_digits-digits : (ds : Text) → all is_digit ds ≡ true → all is_digit (next_digits ds) ≡ true
next_digits-digits [] h = refl
next_digits-digits (d ∷ ds) h = ground (arith, h, next_digits-digits ds)

number-next_digits :
    (ds : Text) → all is_digit ds ≡ true → number (next_digits ds) ≡ suc (number ds)
number-next_digits [] h = refl
number-next_digits (d ∷ ds) h = ground (arith, h, number-next_digits ds)

next_digits-some : (ds : Text) → is_empty (next_digits ds) ≡ false
next_digits-some [] = refl
next_digits-some (d ∷ ds) = ground arith

all-digits : (n : ℕ) → all is_digit (digits n) ≡ true
all-digits zero = refl
all-digits (suc n) = next_digits-digits (digits n) (all-digits n)

digits-some : (n : ℕ) → is_empty (digits n) ≡ false
digits-some zero = refl
digits-some (suc n) = next_digits-some (digits n)

number-digits : (n : ℕ) → number (digits n) ≡ n
number-digits zero = refl
number-digits (suc n) =
    number-next_digits (digits n) (all-digits n) ∙ ap (λ m. suc m) (number-digits n)

lstrip-digits : (ds : Text) → all is_digit ds ≡ true → lstrip (nat_eq 10) ds ≡ ds
lstrip-digits [] h = refl
lstrip-digits (d ∷ ds) h = ground (arith, h)

decimal-IsNumber : (n : ℕ) → is_number is_digit (decimal n) ≡ true
decimal-IsNumber n = ground (
  arith,
  all-reverse is_digit (digits n),
  is_empty-reverse (digits n),
  all-digits n,
  digits-some n,
)

int-line_feed : (t : Text) → int (t ++ (10 ∷ [])) ≡ int t
int-line_feed t = rw (reverse-append t (10 ∷ [])) refl

int-decimal : (n : ℕ) → int (decimal n) ≡ some n
int-decimal n =
    rw (reverse-reverse (digits n), int)
      (rw (lstrip-digits (digits n) (all-digits n))
        (rw (all-digits n) (rw (digits-some n) (ap some (number-digits n)))))

abbrev repository : Repository
repository = record {
  pyproject_version = some (text "0.9.3");
  changelog_versions = some (text "0.10.1" ∷ []);
  tags = some (text "v0.10.0" ∷ text "nightly" ∷ []);
  fragments =
      (record {
        name = text "7.added.md";
        suffix = text ".md";
        stem = text "7.added";
        is_file = true;
      })
      ∷ [];
}

abbrev version : ℕ → ℕ → ℕ → Version
version a b c = record { major = a; minor = b; patch = c }

-- The version in CHANGELOG.md is the newest.
next_version_of_repository : next_version is_digit int decimal repository ≡ done (text "0.11.0")
unfolding next_version get_current_version infer_bump bump_version parse_version semver_match newest
    get_git_tag_versions Base.split_on Base.strip ◌>>=◌
next_version_of_repository = refl

abbrev found : List Text
found = text "0.9.3" ∷ text "0.10.1" ∷ text "0.10.0" ∷ []

found-IsVersion : All (IsVersion is_digit int) found
unfolding parse_version semver_match Base.split_on
found-IsVersion = ((version 0 9 3, refl), ((version 0 10 1, refl), ((version 0 10 0, refl), tt)))

next_version-newest_example :
    (new : Text) × (k : Version) × (next_version is_digit int decimal repository ≡ done new)
    × (parse_version is_digit int new ≡ done k)
    × All (IsBelow is_digit int k) found
unfolding get_git_tag_versions semver_match Base.split_on Base.strip
next_version-newest_example =
    next_version-newest is_digit int decimal refl refl decimal-IsNumber int-decimal repository
      (text "0.9.3") int-line_feed refl found-IsVersion refl
