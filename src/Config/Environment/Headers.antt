-- ===== src/Config/Environment/Headers.antt =====
-- The header list of `OTEL_EXPORTER_OTLP_HEADERS`: what is written as k=v,k=v is read back.
use mathlib.Core.List.{reverse}
use policyengine_observabili.Base.{
  ℕ, nat_eq, nat_eq_iff, Text, strip, lstrip, is_space, is_empty, split_on, split_on-append,
  split_on-none, all-append, all-reverse, is_empty-reverse, any, all, ◌≡◌, refl, sym, ap, ◌∙◌, Bool,
  true, false, ◌||◌, subst, List, [], ◌∷◌, ◌++◌, arith, All, Bool-cases, inl, inr, map,
}
use policyengine_observabili.Config.Environment.{
  Result, ok, err, ◌>>=◌, split_once, parse_items, parse_headers,
}

all-lstrip : (p : ℕ → Bool) (xs : Text) → all p (lstrip p xs) ≡ true → all p xs ≡ true
all-lstrip p [] h = refl
all-lstrip p (x ∷ xs) h = ground (arith, all-lstrip p xs)

all_of_empty : (p : ℕ → Bool) (xs : Text) → is_empty xs ≡ true → all p xs ≡ true
all_of_empty p [] h = refl
all_of_empty p (x ∷ xs) h = absurd (cc h)

-- A text that strips to nothing is white space.
blank_lem : (t : Text) → is_empty (strip t) ≡ true → all is_space t ≡ true
unfolding strip
blank_lem t h =
    let left = lstrip is_space t in
    let inner = lstrip is_space (reverse left) in
    let gone : is_empty inner ≡ true = sym (is_empty-reverse inner) ∙ h in
    all-lstrip is_space t (
      sym (all-reverse is_space left)
      ∙ all-lstrip is_space (reverse left) (all_of_empty is_space inner gone))

split_once_lem :
    (sep : ℕ) (k v : Text) → any (nat_eq sep) k ≡ false → split_once sep (k ++ (sep ∷ v)) ≡ (k, v)
unfolding split_once
split_once_lem sep [] v h = ground (arith, nat_eq_iff sep sep)
split_once_lem sep (c ∷ k) v h =
    ground (arith, h, nat_eq_iff c sep, nat_eq_iff sep c, split_once_lem sep k v)

-- A header as a client writes it: a name that is not empty, no white space around the name or the
-- value, no comma, and no `=` in the name.
pub record IsPlain (header : Text × Text) : Type 0 where
  pub named : is_empty header.0 ≡ false
  pub name_stripped : strip header.0 ≡ header.0
  pub value_stripped : strip header.1 ≡ header.1
  pub no_equals : any (nat_eq b'=') header.0 ≡ false
  pub no_comma : any (nat_eq b',') (header.0 ++ (b'=' ∷ header.1)) ≡ false

abbrev pub format_header : Text × Text → Text
format_header (key, value) = key ++ (b'=' ∷ value)

abbrev pub format_headers : List (Text × Text) → Text
format_headers [] = []
format_headers (h ∷ []) = format_header h
format_headers (h ∷ g ∷ rest) = format_header h ++ (b',' ∷ format_headers (g ∷ rest))

split-format :
    (h : Text × Text) (rest : List (Text × Text))
    → All IsPlain (h ∷ rest)
    → split_on b',' (format_headers (h ∷ rest)) ≡ map format_header (h ∷ rest)
split-format h [] p = split_on-none b',' (format_header h) p.0.no_comma
split-format h (g ∷ rest) p =
    split_on-append b',' (format_header h) (format_headers (g ∷ rest)) p.0.no_comma
    ∙ ap (λ xs. format_header h ∷ xs) (split-format g rest p.1)

any-append : (p : ℕ → Bool) (xs ys : Text) → any p (xs ++ ys) ≡ (any p xs || any p ys)
any-append p [] ys = refl
any-append p (x ∷ xs) ys = ground (arith, any-append p xs ys)

not_blank : (h : Text × Text) → is_empty (strip (format_header h)) ≡ false
not_blank (k, v) = elim (Bool-cases (is_empty (strip (format_header (k, v))))) [
  | inl e ↦
      absurd (ground (arith, blank_lem (format_header (k, v)) e, all-append is_space k (b'=' ∷ v)))
  | inr e ↦ e
]

parse_items-format :
    (name : Text) (headers : List (Text × Text))
    → All IsPlain headers
    → parse_items name (map format_header headers) ≡ ok headers
unfolding parse_items ◌>>=◌
parse_items-format name [] p = refl
parse_items-format name ((k, v) ∷ rest) p =
    let q = p.0 in
    rw (
      not_blank (k, v),
      any-append (nat_eq b'=') k (b'=' ∷ v),
      q.no_equals,
      split_once_lem b'=' k v q.no_equals,
      q.name_stripped,
      q.named,
      q.value_stripped,
      parse_items-format name rest p.1,
    )

-- Headers that are written as name=value and joined by commas are read back, in order.
pub parse-format :
    (name : Text) (headers : List (Text × Text))
    → All IsPlain headers
    → parse_headers name (format_headers headers) ≡ ok headers
unfolding parse_headers
parse-format name [] p = unfold parse_items split_on strip split_once in refl
parse-format name (h ∷ rest) p = rw (split-format h rest p) (parse_items-format name (h ∷ rest) p)

abbrev AreNamed : Result (List (Text × Text)) → Type 0
AreNamed (ok headers) = All (λ h. is_empty h.0 ≡ false) headers
AreNamed (err e) = Unit

cons-AreNamed :
    (k v : Text) (r : Result (List (Text × Text)))
    → is_empty k ≡ false
    → AreNamed r
    → AreNamed (r >>= λ headers. ok ((k, v) ∷ headers))
unfolding ◌>>=◌
cons-AreNamed k v (ok headers) e h = (e, h)
cons-AreNamed k v (err x) e h = tt

parse_items-AreNamed : (name : Text) (items : List Text) → AreNamed (parse_items name items)
unfolding parse_items
parse_items-AreNamed name [] = tt
parse_items-AreNamed name (item ∷ items) =
    let rest = parse_items-AreNamed name items in
    let (key, value) = split_once b'=' item in
    elim (Bool-cases (is_empty (strip item))) [
      | inl e ↦ rw e rest
      | inr e ↦ elim (Bool-cases (any (nat_eq b'=') item)) [
        | inl q ↦ elim (Bool-cases (is_empty (strip key))) [
          | inl k ↦ rw (e, q, k) tt
          | inr k ↦
              rw (e, q, k) (cons-AreNamed (strip key) (strip value) (parse_items name items) k rest)
        ]
        | inr q ↦ rw (e, q) tt
      ]
    ]

-- Whatever the variable holds, every header that is accepted has a name that is not empty.
parse_headers-named :
    (name value : Text) (headers : List (Text × Text))
    → parse_headers name value ≡ ok headers
    → All (λ h. is_empty h.0 ≡ false) headers
unfolding parse_headers
parse_headers-named name value headers h =
    subst AreNamed h (parse_items-AreNamed name (split_on b',' value))
