-- ===== src/Delivery/Manager/Failures.antt =====
-- Which inline destinations are left after `emit`, and that it leaves none at the failure limit.
use policyengine_observabili.Base.{
  ℕ, ◌≤◌, ◌<◌, nat_eq, nat_eq_iff, ◌≡◌, refl, subst, All-append, ap, text, sym, ◌∙◌, Bool, true,
  false, not, ◌&&◌, ◌||◌, List, [], ◌∷◌, ◌++◌, arith, any, keep, All, Bool-cases, inl, inr,
}
use policyengine_observabili.Delivery.Queued.{reported}
use policyengine_observabili.Delivery.Manager.{
  Strategy, Inline, Manager, note, is_other, is_disabled, start_writer_cleanup, fall_back,
  is_silent, disable_inline, disable_each, emit, write_inlines, destination_failure_limit,
}

module _ {R E : Type 0} where
  abbrev pub has_ident : ℕ → Inline R E → Bool
  has_ident i x = nat_eq x.ident i

  any-keep_other :
      (i : ℕ) (d : Inline R E) (xs : List (Inline R E))
      → any (has_ident i) (keep (is_other d) xs) ≡ (any (has_ident i) xs && not (nat_eq d.ident i))
  any-keep_other i d [] = refl
  any-keep_other i d (x ∷ xs) = ground (arith, any-keep_other i d xs)

  any-append :
      (p : Inline R E → Bool) (xs : List (Inline R E)) (x : Inline R E)
      → any p (xs ++ (x ∷ [])) ≡ (any p xs || p x)
  any-append p [] x = ground arith
  any-append p (y ∷ xs) x = ground (arith, any-append p xs x)

  absent :
      (i : ℕ) (d : Inline R E) (xs : List (Inline R E))
      → any (has_ident d.ident) xs ≡ false
      → any (has_ident i) xs ≡ (any (has_ident i) xs && not (nat_eq d.ident i))
  absent i d xs h = elim (Bool-cases (nat_eq d.ident i)) [
    | inl e ↦ rw (e, ← (nat_eq_iff d.ident i).0 e, h)
    | inr e ↦ rw e (ground arith)
  ]

  module _ (stdout : Strategy R E) (starts : E → Bool) where
    start-inline :
        (d : Inline R E) (m : Manager R E)
        → ((start_writer_cleanup starts d m).inline ≡ m.inline)
          × ((start_writer_cleanup starts d m).next ≡ m.next)
          × ((start_writer_cleanup starts d m).queued ≡ m.queued)
    unfolding start_writer_cleanup
    start-inline d m = (ground arith, ground arith, ground arith)

    fall_back-inline :
        (i : ℕ) (m : Manager R E)
        → i < m.next
        → (any (has_ident i) (fall_back stdout m).inline ≡ any (has_ident i) m.inline)
          × (m.next ≤ (fall_back stdout m).next)
    unfolding fall_back is_silent
    fall_back-inline i m h = ground (arith, any-append (has_ident i) m.inline)

    disable_inline-inline :
        (i : ℕ) (d : Inline R E) (m : Manager R E)
        → i < m.next
        → (any (has_ident i) (disable_inline stdout starts d m).inline
            ≡ (any (has_ident i) m.inline && not (nat_eq d.ident i)))
          × (m.next ≤ (disable_inline stdout starts d m).next)
    unfolding disable_inline
    disable_inline-inline i d m h = elim (Bool-cases (any (has_ident d.ident) m.inline)) [
      | inl here ↦
          (let less = record m { inline = keep (is_other d) m.inline } in
            let started = start-inline d less in
            let m1 =
              note (reported (text "logging.destination_disabled") ∷ [])
                (start_writer_cleanup starts d less) in
            let fallen = fall_back-inline i m1 (rw (started.1) h) in
            rw here (
              fallen.0 ∙ ap (any (has_ident i)) started.0 ∙ any-keep_other i d m.inline,
              omega (arith, started.1, fallen.1),
            ))
      | inr gone ↦ rw gone (absent i d m.inline gone, omega arith)
    ]

    disable_each-inline :
        (i : ℕ) (ds : List (Inline R E)) (m : Manager R E)
        → i < m.next
        → any (has_ident i) (disable_each stdout starts ds m).inline
          ≡ (any (has_ident i) m.inline && not (any (has_ident i) ds))
    unfolding disable_each
    disable_each-inline i [] m h = ground arith
    disable_each-inline i (d ∷ ds) m h =
        let one = disable_inline-inline i d m h in
        let more =
          disable_each-inline i ds (disable_inline stdout starts d m) (omega (arith, one.1)) in
        ground (arith, one.0, more)

    -- An inline destination that was known before `emit` is there after it exactly if it was there
    -- and its write did not bring its count to the limit.
    pub inline-emit :
        (i : ℕ) (r : R) (m : Manager R E)
        → i < m.next
        → let written = (write_inlines r m.inline m.world).0 in
          any (has_ident i) (emit stdout starts r m).inline
          ≡ (any (has_ident i) written && not (any (has_ident i) (keep is_disabled written)))
    unfolding emit
    inline-emit i r m h =
        disable_each-inline i _
          (record m { inline = (write_inlines r m.inline m.world).0; world = _; notes = _ }) h

    -- Below the limit, or still to be disabled.
    abbrev IsPassed : List (Inline R E) → Inline R E → Type 0
    IsPassed ds x = is_disabled x ≡ true → any (has_ident x.ident) ds ≡ true

    keep-IsPassed :
        (d : Inline R E) (ds xs : List (Inline R E))
        → All (IsPassed (d ∷ ds)) xs
        → All (IsPassed ds) (keep (is_other d) xs)
    keep-IsPassed d ds [] h = tt
    keep-IsPassed d ds (x ∷ xs) h = elim (Bool-cases (is_other d x)) [
      | inl other ↦ rw other ((λ e. ground (arith, other, h.0 e)), keep-IsPassed d ds xs h.1)
      | inr same ↦ rw same (keep-IsPassed d ds xs h.1)
    ]

    gone-IsPassed :
        (d : Inline R E) (ds xs : List (Inline R E))
        → any (has_ident d.ident) xs ≡ false
        → All (IsPassed (d ∷ ds)) xs
        → All (IsPassed ds) xs
    gone-IsPassed d ds [] g h = tt
    gone-IsPassed d ds (x ∷ xs) g h =
        ((λ e. ground (arith, g, h.0 e)), gone-IsPassed d ds xs (ground (arith, g)) h.1)

    fall_back-IsPassed :
        (ds : List (Inline R E)) (m : Manager R E)
        → All (IsPassed ds) m.inline
        → All (IsPassed ds) (fall_back stdout m).inline
    unfolding fall_back
    fall_back-IsPassed ds m h = elim (Bool-cases (is_silent m)) [
      | inl silent ↦ elim (Bool-cases (stdout.writer.build m.world).0) [
        | inl made ↦
            rw (silent, made)
              (All-append (IsPassed ds) m.inline _ h ((λ e. absurd (ground (arith, e))), tt))
        | inr failed ↦ rw (silent, failed) h
      ]
      | inr loud ↦ rw loud h
    ]

    disable_inline-IsPassed :
        (d : Inline R E) (ds : List (Inline R E)) (m : Manager R E)
        → All (IsPassed (d ∷ ds)) m.inline
        → All (IsPassed ds) (disable_inline stdout starts d m).inline
    unfolding disable_inline
    disable_inline-IsPassed d ds m h = elim (Bool-cases (any (has_ident d.ident) m.inline)) [
      | inl here ↦ rw here (
          fall_back-IsPassed ds _ (
            subst (All (IsPassed ds))
              (sym (start-inline d (record m { inline = keep (is_other d) m.inline })).0)
              (keep-IsPassed d ds m.inline h)))
      | inr gone ↦ rw gone (gone-IsPassed d ds m.inline gone h)
    ]

    disable_each-IsPassed :
        (ds : List (Inline R E)) (m : Manager R E)
        → All (IsPassed ds) m.inline
        → All (IsPassed []) (disable_each stdout starts ds m).inline
    unfolding disable_each
    disable_each-IsPassed [] m h = h
    disable_each-IsPassed (d ∷ ds) m h =
        disable_each-IsPassed ds (disable_inline stdout starts d m)
          (disable_inline-IsPassed d ds m h)

    collected_each :
        (ds xs : List (Inline R E))
        → ((i : ℕ) → any (has_ident i) (keep is_disabled xs) ≡ true → any (has_ident i) ds ≡ true)
        → All (IsPassed ds) xs
    collected_each ds [] f = tt
    collected_each ds (x ∷ xs) f = (
      (λ e. f x.ident (ground (arith, e))),
      collected_each ds xs (λ i e. f i (ground (arith, e))),
    )

    below_limit :
        (xs : List (Inline R E))
        → All (IsPassed []) xs
        → All (λ x. x.failures < destination_failure_limit) xs
    below_limit [] h = tt
    below_limit (x ∷ xs) h = (
      elim (Bool-cases (is_disabled x)) [
        | inl e ↦ absurd (ground (arith, h.0 e))
        | inr e ↦ ground (arith, e)
      ],
      below_limit xs h.1,
    )

    -- After `emit` every inline destination has fewer consecutive failures than the limit.
    pub failures-emit :
        (r : R) (m : Manager R E)
        → All (λ x. x.failures < destination_failure_limit) (emit stdout starts r m).inline
    unfolding emit
    failures-emit r m =
        let written = (write_inlines r m.inline m.world).0 in
        below_limit _ (
          disable_each-IsPassed (keep is_disabled written) _
            (collected_each (keep is_disabled written) written (λ i e. e)))
