-- ===== src/Diagnostics/Redaction.antt =====
-- No sensitive value reaches standard error by way of the error or the fields of a report.
use policyengine_observabili.Base.{
  Text, text, contains, member, Dict, update, insert, All, All-insert, ◌≡◌, refl, Option, none,
  some, List, [], ◌∷◌, true, false, inl,
}
use policyengine_observabili.Base.Replace.{contains-take}
use policyengine_observabili.Value.{Value}
use policyengine_observabili.Schema.{redact_each}
use policyengine_observabili.Schema.Redaction.{IsMaskable, IsCleanValue, contains-redact_each}
use policyengine_observabili.Diagnostics.{
  Report, mask_each, safe_text, safe_scalar, safe_fields, line_body,
}

-- The two loops over the sensitive values, of `_safe_text` and of `_redact`, agree.
mask_each-eq-redact_each :
    (values : List Text) (t : Text) → mask_each values t ≡ redact_each values t
unfolding mask_each redact_each
mask_each-eq-redact_each [] t = refl
mask_each-eq-redact_each (s ∷ rest) t = mask_each-eq-redact_each rest _

update-All :
    (P : Text × Value → Type 0) (d e : Dict Value)
    → ((k j : Text) (v : Value) → P (k, v) → P (j, v))
    → All P d
    → All P e
    → All P (update d e)
unfolding update
update-All P d [] m h k = h
update-All P d ((j, v) ∷ e) m h k =
    update-All P (insert j v d) e m (All-insert P j v d (λ i _. m j i v k.0) h) k.1

module _ (u : Text) (values : List Text) (f : IsMaskable u) (h : member u values ≡ true)
    (g : contains u (text "<unprintable>") ≡ false) where
  safe_text-clean : (o : Option Text) → contains u (safe_text o values) ≡ false
  unfolding safe_text
  safe_text-clean none = g
  safe_text-clean (some t) =
      contains-take 2048 u (mask_each values t)
        (rw mask_each-eq-redact_each (contains-redact_each u values t f (inl h)))

  safe_scalar-clean :
      (printed : Value → Option Text) (v : Value) → IsCleanValue u (safe_scalar printed v values)
  unfolding safe_scalar
  safe_scalar-clean printed (Value.str t) = safe_text-clean (some t)
  safe_scalar-clean printed Value.null = tt
  safe_scalar-clean printed (Value.bool b) = tt
  safe_scalar-clean printed (Value.int n) = tt
  safe_scalar-clean printed (Value.float x) = tt
  safe_scalar-clean printed v = safe_text-clean (printed v)

  safe_fields-clean :
      (printed : Value → Option Text) (fields : Dict Value)
      → All (λ p. IsCleanValue u p.1) (safe_fields printed fields values)
  unfolding safe_fields
  safe_fields-clean printed [] = tt
  safe_fields-clean printed ((k, v) ∷ fields) =
      (safe_scalar-clean printed v, safe_fields-clean printed fields)

  -- Whatever the error and the fields of a report hold, no text that is a value of its line has an
  -- occurrence of a sensitive value that can be told from the mark, if the timestamp, the operation,
  -- the error's type name and the fixed texts of a line have none. Keys and numbers are not redacted,
  -- nor covered.
  pub line_body-clean :
      (printed : Value → Option Text) (r : Report) (timestamp : Text)
      → contains u timestamp ≡ false
      → contains u r.operation ≡ false
      → contains u r.error_type ≡ false
      → contains u (text "policyengine.observability.internal.v1") ≡ false
      → contains u (text "ERROR") ≡ false
      → contains u (text "observability.internal_failure") ≡ false
      → All (λ p. IsCleanValue u p.1) (line_body printed r timestamp values)
  unfolding line_body
  line_body-clean printed r timestamp a b c v1 v2 v3 =
      update-All (λ p. IsCleanValue u p.1) _ (safe_fields printed r.fields values) (λ k j v x. x)
        (v1, (a, (v2, (v3, (b, (c, (safe_text-clean r.error_message, tt)))))))
        (safe_fields-clean printed r.fields)
