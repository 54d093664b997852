-- ===== src/Delivery/Formatting/Equal.antt =====
-- Writing through a formatting writer is writing the formatted records.
use policyengine_observabili.Base.{
  ◌≡◌, ◌⊎◌, refl, Option-cases, inl, inr, Option, none, some, List, [], ◌∷◌, false,
}
use policyengine_observabili.Delivery.Writer.{Writer, write_batch, close_writer}
use policyengine_observabili.Delivery.Formatting.{format, format_each, formatting_writer}

-- The records with what the formatter makes of each.
abbrev pub Formats : {R : Type 0} → Option (R → Option R) → List R → List R → Type 0
Formats formatter [] [] = Unit
Formats formatter (r ∷ rs) (x ∷ xs) = (format formatter r ≡ some x) × Formats formatter rs xs
Formats formatter _ _ = ⊥

-- A record that the formatter raises on.
abbrev pub HasFailure : {R : Type 0} → Option (R → Option R) → List R → Type 0
HasFailure formatter [] = ⊥
HasFailure formatter (r ∷ rs) = (format formatter r ≡ none) ⊎ HasFailure formatter rs

module _ {R E : Type 0} (formatter : Option (R → Option R)) (w : Writer R E) where
  format_each-cases :
      (rs : List R)
      → ((xs : List R) × Formats formatter rs xs × (format_each formatter rs ≡ some xs))
        ⊎ (HasFailure formatter rs × (format_each formatter rs ≡ none))
  unfolding format_each
  format_each-cases [] = inl ([], tt, refl)
  format_each-cases (r ∷ rs) = elim (Option-cases (format formatter r)) [
    | inl e ↦ inr (inl e, rw (e, format_each) refl)
    | inr (x, e) ↦ elim (format_each-cases rs) [
      | inl (xs, h, f) ↦ inl (x ∷ xs, (e, h), rw (e, format_each) (rw f refl))
      | inr (h, f) ↦ inr (inr h, rw (e, format_each) (rw f refl))
    ]
  ]

  -- A batch given to the formatting writer is written as the batch of its formatted records, in
  -- their order, by the writer's own method or record by record; if the formatter raises on any
  -- record, the writer gets none of them. Closing it closes the writer.
  pub write_batch-formatting_writer :
      (rs : List R) (e : E)
      → (((xs : List R) × Formats formatter rs xs
            × (write_batch (formatting_writer formatter w) rs e ≡ write_batch w xs e))
          ⊎ (HasFailure formatter rs
              × (write_batch (formatting_writer formatter w) rs e ≡ (false, e))))
        × (close_writer (formatting_writer formatter w) e ≡ close_writer w e)
  unfolding formatting_writer write_batch close_writer
  write_batch-formatting_writer rs e = (
    elim (format_each-cases rs) [
      | inl (xs, h, f) ↦ inl (xs, h, rw f refl)
      | inr (h, f) ↦ inr (h, rw f refl)
    ],
    refl,
  )
