-- ===== src/Release.antt =====
-- .github/bump_version.py and fetch_version.py: the next version of the package. `is_digit` is the
-- class `\d` of the regular expressions, `int` reads a number (none where Python's raises) and
-- `decimal` prints one. What the searches in files, `pathlib` and git return is in a `Repository`.
pub mod Newer
use policyengine_observabili.Base.{
  ℕ, ltb, nat_eq, ◌+◌, Text, text, ◌==◌, ◌++◌, member, strip, lstrip, split_on, is_empty, is_some,
  all, keep, Bool, true, false, not, ◌&&◌, ◌||◌, if◌then◌else◌, Option, none, some, List, [], ◌∷◌,
  map,
}

pub record Version : Type 0 where
  pub major : ℕ
  pub minor : ℕ
  pub patch : ℕ

-- A path of changelog.d with its `name`, `suffix`, `stem` and `is_file()`.
pub record Fragment : Type 0 where
  pub name : Text
  pub suffix : Text
  pub stem : Text
  pub is_file : Bool

-- The first match in pyproject.toml, the matches in CHANGELOG.md (none without the file), and the
-- lines of `git tag` (none where it fails).
pub record Repository : Type 0 where
  pub pyproject_version : Option Text
  pub changelog_versions : Option (List Text)
  pub tags : Option (List Text)
  pub fragments : List Fragment

-- A result, `sys.exit(1)` with what was printed, or `ValueError`.
pub data Ending {ℓ} (A : Type ℓ) : Type ℓ where
  done : A → Ending A
  exited : Text → Ending A
  value_error : Ending A

infixr 20 ◌>>=◌
unfoldable pub ◌>>=◌ {ℓ κ} : {A : Type ℓ} {B : Type κ} → Ending A → (A → Ending B) → Ending B
done a >>= f = f a
exited message >>= f = exited message
value_error >>= f = value_error

-- The order of tuples.
abbrev pub is_before : Version → Version → Bool
is_before v w =
    ltb v.major w.major
    || (nat_eq v.major w.major
        && (ltb v.minor w.minor || (nat_eq v.minor w.minor && ltb v.patch w.patch)))

abbrev last_part : Text → List Text → Text
last_part part [] = part
last_part part (next ∷ parts) = last_part next parts

-- `parts[-1]` where the stem has two parts or more.
abbrev stem_category : List Text → List Text
stem_category (first ∷ part ∷ parts) = last_part part parts ∷ []
stem_category _ = []

abbrev pub stem_categories : List Fragment → List Text
stem_categories [] = []
stem_categories (f ∷ fragments) = stem_category (split_on b'.' f.stem) ++ stem_categories fragments

abbrev pub categories : List Fragment → List Text
categories fragments =
    map (λ f. lstrip (nat_eq b'.') f.suffix) fragments ++ stem_categories fragments

abbrev pub is_fragment : Fragment → Bool
is_fragment f = f.is_file && not (f.name == text ".gitkeep")

abbrev pub bump_of : List Text → Text
bump_of names =
    if member (text "breaking") names
    then text "major"
    else if member (text "added") names || member (text "removed") names
    then text "minor"
    else text "patch"

unfoldable pub infer_bump : List Fragment → Ending Text
infer_bump paths =
    let fragments = keep is_fragment paths in
    if is_empty fragments
    then exited (text "No changelog fragments found")
    else done (bump_of (categories fragments))

-- `$` also stands before a last line feed.
abbrev pub drop_newline : Text → Text
drop_newline [] = []
drop_newline (c ∷ []) = if nat_eq c 10 then [] else c ∷ []
drop_newline (c ∷ d ∷ t) = c ∷ drop_newline (d ∷ t)

-- `tag.removeprefix("v").strip()`
abbrev pub normalized_tag : Text → Text
normalized_tag [] = strip []
normalized_tag (c ∷ t) = if nat_eq c b'v' then strip t else strip (c ∷ t)

abbrev pub get_changelog_versions : Option (List Text) → List Text
get_changelog_versions none = []
get_changelog_versions (some versions) = versions

-- fetch_version.py reads the same version.
abbrev pub get_pyproject_version : Option Text → Ending Text
get_pyproject_version none = exited (text "Could not find version in pyproject.toml")
get_pyproject_version (some version) = done version

abbrev pub bumped : Text → Version → Version
bumped bump v =
    if bump == text "major"
    then record { major = v.major + 1; minor = 0; patch = 0 }
    else if bump == text "minor"
    then record { major = v.major; minor = v.minor + 1; patch = 0 }
    else record { major = v.major; minor = v.minor; patch = v.patch + 1 }

module _ (is_digit : ℕ → Bool) where
  abbrev pub is_number : Text → Bool
  is_number part = not (is_empty part) && all is_digit part

  -- The groups of `SEMVER_PATTERN.match`.
  abbrev pub match_parts : List Text → Option (Text × Text × Text)
  match_parts (a ∷ b ∷ c ∷ []) =
      let d = drop_newline c in
      if is_number a && (is_number b && is_number d) then some (a, b, d) else none
  match_parts _ = none

  unfoldable pub semver_match : Text → Option (Text × Text × Text)
  semver_match version = match_parts (split_on b'.' version)

  unfoldable pub get_git_tag_versions : Option (List Text) → List Text
  get_git_tag_versions none = []
  get_git_tag_versions (some tags) = keep (λ t. is_some (semver_match t)) (map normalized_tag tags)

  abbrev pub others : Repository → List Text
  others r = get_changelog_versions r.changelog_versions ++ get_git_tag_versions r.tags

abbrev pub three_numbers : Option ℕ → Option ℕ → Option ℕ → Ending Version
three_numbers (some major) (some minor) (some patch) =
    done (record { major = major; minor = minor; patch = patch })
three_numbers _ _ _ = value_error

module _ (int : Text → Option ℕ) where
  -- `tuple(int(part) for part in parts)`
  abbrev pub version_of : Text → Text → Text → Ending Version
  version_of a b c = three_numbers (int a) (int b) (int c)

  -- `version.split(".")` is unpacked into three names.
  abbrev pub split_version : List Text → Ending Version
  split_version (a ∷ b ∷ c ∷ []) = version_of a b c
  split_version _ = value_error

module _ (is_digit : ℕ → Bool) (int : Text → Option ℕ) where
  unfoldable pub parse_version : Text → Ending Version
  parse_version version = elim (semver_match is_digit version) [
    | none ↦ value_error
    | some (a, b, c) ↦ version_of int a b c
  ]

  -- The rest of `max(candidates, key=parse_version)`, where `best` is the first of the largest.
  unfoldable pub newest : Text → Version → List Text → Ending Text
  newest best key [] = done best
  newest best key (t ∷ ts) =
      parse_version t
      >>= (λ k. elim (is_before key k) [ true ↦ newest t k ts | false ↦ newest best key ts ])

  unfoldable pub get_current_version : Repository → Ending Text
  get_current_version r =
      get_pyproject_version r.pyproject_version
      >>= (λ version. parse_version version >>= (λ key. newest version key (others is_digit r)))

module _ (decimal : ℕ → Text) where
  abbrev pub format_version : Version → Text
  format_version v = decimal v.major ++ (b'.' ∷ (decimal v.minor ++ (b'.' ∷ decimal v.patch)))

module _ (int : Text → Option ℕ) (decimal : ℕ → Text) where
  unfoldable pub bump_version : Text → Text → Ending Text
  bump_version version bump =
      split_version int (split_on b'.' version)
      >>= (λ v. done (format_version decimal (bumped bump v)))

module _ (is_digit : ℕ → Bool) (int : Text → Option ℕ) (decimal : ℕ → Text) where
  -- `main`, up to the version that it writes.
  unfoldable pub next_version : Repository → Ending Text
  next_version r =
      get_current_version is_digit int r
      >>= (λ current. infer_bump r.fragments >>= (λ bump. bump_version int decimal current bump))
