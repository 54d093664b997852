-- ===== src/Release/Newer.antt =====
-- The version that .github/bump_version.py writes is above every version that it found.
use policyengine_observabili.Base.{
  ℕ, nat_eq, nat_eq_iff, Text, text, ◌==◌, ◌++◌, split_on, split_on-append, split_on-none, is_empty,
  any, all, keep, Bool, true, false, Bool-cases, ◌&&◌, Option, none, some, List, [], ◌∷◌, All, ◌≡◌,
  refl, sym, ap, ◌∙◌, inl, inr, arith, ◌⊎◌,
}
use policyengine_observabili.Release.{
  three_numbers, Version, Repository, Ending, done, value_error, ◌>>=◌, is_before, is_fragment,
  bump_of, is_number, categories, infer_bump, drop_newline, match_parts, semver_match, version_of,
  parse_version, newest, others, get_current_version, bumped, format_version, split_version,
  bump_version, next_version,
}

-- What is not above `v` is below each of its bumps.
is_before-bumped :
    (bump : Text) (j v : Version) → is_before v j ≡ false → is_before j (bumped bump v) ≡ true
is_before-bumped bump j v h = elim (Bool-cases (bump == text "major")) [
  | inl e ↦ rw e (ground (arith, h))
  | inr e ↦ elim (Bool-cases (bump == text "minor")) [
    | inl f ↦ rw e (rw f (ground (arith, h)))
    | inr f ↦ rw e (rw f (ground (arith, h)))
  ]
]

any-digit :
    (is_digit : ℕ → Bool) (sep : ℕ) (t : Text)
    → is_digit sep ≡ false
    → all is_digit t ≡ true
    → any (nat_eq sep) t ≡ false
any-digit is_digit sep [] out h = refl
any-digit is_digit sep (c ∷ t) out h =
    ground (arith, h, out, any-digit is_digit sep t out (ground (arith, h)), nat_eq_iff sep c)

drop_newline_digit :
    (is_digit : ℕ → Bool) (t : Text)
    → is_digit 10 ≡ false
    → all is_digit t ≡ true
    → drop_newline t ≡ t
drop_newline_digit is_digit [] out h = refl
drop_newline_digit is_digit (c ∷ []) out h = ground (arith, h, out, nat_eq_iff c 10)
drop_newline_digit is_digit (c ∷ d ∷ t) out h =
    ap (λ s. c ∷ s) (drop_newline_digit is_digit (d ∷ t) out (ground (arith, h)))

not_before-rise :
    (v j k : Version) → is_before v j ≡ true → is_before k j ≡ false → is_before k v ≡ false
not_before-rise v j k up h = ground (arith, h, up)

not_before_trans :
    (v j k : Version) → is_before v j ≡ false → is_before k v ≡ false → is_before k j ≡ false
not_before_trans v j k down h = ground (arith, h, down)

not_before_refl : (v : Version) → is_before v v ≡ false
not_before_refl v = ground arith

drop_newline-cases :
    (t : Text) → (drop_newline t ≡ t) ⊎ ((s : Text) × (drop_newline t ≡ s) × (t ≡ s ++ (10 ∷ [])))
drop_newline-cases [] = inl refl
drop_newline-cases (c ∷ []) = elim (Bool-cases (nat_eq c 10)) [
  | inl e ↦ inr ([], rw e refl, ap (λ d. d ∷ []) ((nat_eq_iff c 10).0 e))
  | inr e ↦ inl (rw e refl)
]
drop_newline-cases (c ∷ d ∷ t) = elim (drop_newline-cases (d ∷ t)) [
  | inl e ↦ inl (ap (λ s. c ∷ s) e)
  | inr (s, e, f) ↦ inr (c ∷ s, ap (λ s. c ∷ s) e, ap (λ s. c ∷ s) f)
]

match-three :
    (is_digit : ℕ → Bool) (a b c : Text)
    → (match_parts is_digit (a ∷ b ∷ c ∷ []) ≡ none)
      ⊎ (match_parts is_digit (a ∷ b ∷ c ∷ []) ≡ some (a, b, drop_newline c))
match-three is_digit a b c =
    elim (Bool-cases
      (is_number is_digit a && (is_number is_digit b && is_number is_digit (drop_newline c)))) [
        | inl e ↦ inr (rw e refl)
        | inr e ↦ inl (rw e refl)
      ]

module _ (is_digit : ℕ → Bool) (int : Text → Option ℕ) where
  int-drop_newline :
      (t : Text) → ((s : Text) → int (s ++ (10 ∷ [])) ≡ int s) → int (drop_newline t) ≡ int t
  int-drop_newline t trailing = elim (drop_newline-cases t) [
    | inl e ↦ ap int e
    | inr (s, e, f) ↦ ap int e ∙ sym (trailing s) ∙ ap int (sym f)
  ]

  -- Of a version that is parsed, `split` finds what the regular expression finds.
  split-parse :
      (version : Text) (v : Version)
      → ((t : Text) → int (t ++ (10 ∷ [])) ≡ int t)
      → parse_version is_digit int version ≡ done v
      → split_version int (split_on b'.' version) ≡ done v
  unfolding parse_version semver_match
  split-parse version v trailing h = parts (split_on b'.' version) h
    where
      read : Option (Text × Text × Text) → Ending Version
      read none = value_error
      read (some (a, b, c)) = version_of int a b c

      parts :
          (ps : List Text) → read (match_parts is_digit ps) ≡ done v → split_version int ps ≡ done v
      parts [] p = absurd (cc p)
      parts (a ∷ []) p = absurd (cc p)
      parts (a ∷ b ∷ []) p = absurd (cc p)
      parts (a ∷ b ∷ c ∷ []) p = elim (match-three is_digit a b c) [
        | inl e ↦ absurd (cc (p, ap read e))
        | inr e ↦
            ap (three_numbers (int a) (int b)) (sym (int-drop_newline c trailing))
            ∙ (sym (ap read e) ∙ p)
      ]
      parts (a ∷ b ∷ c ∷ d ∷ ps) p = absurd (cc p)

  -- The version that `max` finds is above no other.
  abbrev IsAtMost : Version → Text → Type 0
  IsAtMost v t = (k : Version) × (parse_version is_digit int t ≡ done k) × (is_before v k ≡ false)

  abbrev pub IsBelow : Version → Text → Type 0
  IsBelow v t = (k : Version) × (parse_version is_digit int t ≡ done k) × (is_before k v ≡ true)

  IsBelow-bumped :
      (bump : Text) (v : Version) (ts : List Text)
      → All (IsAtMost v) ts
      → All (IsBelow (bumped bump v)) ts
  IsBelow-bumped bump v [] h = tt
  IsBelow-bumped bump v (t ∷ ts) ((k, e, f), h) =
      ((k, e, is_before-bumped bump k v f), IsBelow-bumped bump v ts h)

  abbrev pub IsVersion : Text → Type 0
  IsVersion t = (k : Version) × (parse_version is_digit int t ≡ done k)

  newest-IsAtMost :
      (best : Text) (key : Version) (ts : List Text)
      → parse_version is_digit int best ≡ done key
      → All IsVersion ts
      → (t : Text) × (k : Version) × (newest is_digit int best key ts ≡ done t)
        × (parse_version is_digit int t ≡ done k)
        × (is_before k key ≡ false)
        × All (IsAtMost k) ts
  unfolding newest ◌>>=◌
  newest-IsAtMost best key [] e h = (best, key, refl, e, not_before_refl key, tt)
  newest-IsAtMost best key (t ∷ ts) e ((j, f), h) = elim (Bool-cases (is_before key j)) [
    | inl up ↦
        let (u, k, g, p, q, r) = newest-IsAtMost t j ts f h in
        (u, k, rw f (rw (up, ◌>>=◌) g), p, not_before-rise key j k up q, ((j, f, q), r))
    | inr down ↦
        let (u, k, g, p, q, r) = newest-IsAtMost best key ts e h in
        (u, k, rw f (rw (down, ◌>>=◌) g), p, q, ((j, f, not_before_trans key j k down q), r))
  ]

module _ (is_digit : ℕ → Bool) (int : Text → Option ℕ) (decimal : ℕ → Text)
    (dot : is_digit b'.' ≡ false) (line_feed : is_digit 10 ≡ false)
    (digits : (n : ℕ) → is_number is_digit (decimal n) ≡ true)
    (int-decimal : (n : ℕ) → int (decimal n) ≡ some n) where
  all-decimal : (n : ℕ) → all is_digit (decimal n) ≡ true
  all-decimal n = ground (arith, digits n)

  no_dot : (n : ℕ) → any (nat_eq b'.') (decimal n) ≡ false
  no_dot n = any-digit is_digit b'.' (decimal n) dot (all-decimal n)

  split-format :
      (v : Version)
      → split_on b'.' (format_version decimal v)
        ≡ decimal v.major ∷ decimal v.minor ∷ decimal v.patch ∷ []
  split-format v =
      split_on-append b'.' (decimal v.major) (decimal v.minor ++ (b'.' ∷ decimal v.patch))
        (no_dot v.major)
      ∙ ap (λ ts. decimal v.major ∷ ts)
          (split_on-append b'.' (decimal v.minor) (decimal v.patch) (no_dot v.minor)
            ∙ ap (λ ts. decimal v.minor ∷ ts)
                (split_on-none b'.' (decimal v.patch) (no_dot v.patch)))

  parse-format : (v : Version) → parse_version is_digit int (format_version decimal v) ≡ done v
  unfolding parse_version semver_match
  parse-format v =
      rw (split-format v, parse_version, semver_match)
        (rw (drop_newline_digit is_digit (decimal v.patch) line_feed (all-decimal v.patch)) (
          rw (digits v.major) (
            rw (digits v.minor) (
              rw (digits v.patch) (
                rw (int-decimal v.major)
                  (rw (int-decimal v.minor) (rw (int-decimal v.patch) refl)))))))

  -- Where pyproject.toml has a version, every version that is found is one, and there is a fragment
  -- of the changelog, the release has a next version, which is above all that were found, if neither
  -- a dot nor a line feed is a digit, a number is printed in digits that `int` reads back, and `int`
  -- ignores a line feed behind a text.
  pub next_version-newest :
      (r : Repository) (version : Text)
      → ((t : Text) → int (t ++ (10 ∷ [])) ≡ int t)
      → r.pyproject_version ≡ some version
      → All (IsVersion is_digit int) (version ∷ others is_digit r)
      → is_empty (keep is_fragment r.fragments) ≡ false
      → (new : Text) × (k : Version) × (next_version is_digit int decimal r ≡ done new)
        × (parse_version is_digit int new ≡ done k)
        × All (IsBelow is_digit int k) (version ∷ others is_digit r)
  unfolding next_version get_current_version infer_bump bump_version ◌>>=◌
  next_version-newest r version trailing found ((key, e), h) some_fragment =
      let (t, k, g, p, q, all) = newest-IsAtMost is_digit int version key (others is_digit r) e h in
      let bump = bump_of (categories (keep is_fragment r.fragments)) in
      (
        format_version decimal (bumped bump k),
        bumped bump k,
        rw (found, get_current_version)
            (rw (e, ◌>>=◌)
              (rw (g, ◌>>=◌)
                (rw (some_fragment, infer_bump)
                  (rw (split-parse is_digit int t k trailing p, bump_version) refl)))),
        parse-format (bumped bump k),
        IsBelow-bumped is_digit int bump k (version ∷ others is_digit r) ((key, e, q), all),
      )
