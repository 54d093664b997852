-- ===== src/Delivery/GoogleCloud/Correlated.antt =====
-- A record that is formatted keeps all that it had.
use policyengine_observabili.Base.{
  Text, text, lookup, insert, lookup-insert, ◌==◌, false, ◌&&◌, not, is_empty, strip, Bool-cases,
  inl, inr, ◌≡◌, refl, ◌∙◌, Option,
}
use policyengine_observabili.Schema.{Entry, Record}
use policyengine_observabili.Delivery.GoogleCloud.{
  google_trace_key, google_span_id_key, google_trace_sampled_key, format_record, is_true_entry,
}

module _ (printed : Option Entry → Text) where
  insert-other :
      (key k : Text) (v : Entry) (record_ : Record)
      → (key == k) ≡ false
      → lookup k (insert key v record_) ≡ lookup k record_
  insert-other key k v record_ h = lookup-insert key k v record_ ∙ rw h refl

  -- The formatter changes no field of a record but those of Cloud Logging.
  pub lookup-format_record :
      (project_id k : Text) (record_ : Record)
      → (google_trace_key == k) ≡ false
      → (google_span_id_key == k) ≡ false
      → (google_trace_sampled_key == k) ≡ false
      → lookup k (format_record printed project_id record_) ≡ lookup k record_
  unfolding format_record
  lookup-format_record project_id k record_ a b c =
      elim (Bool-cases (is_true_entry (lookup (text "span_id") record_))) [
        | inl e ↦
            elim (Bool-cases (
              is_true_entry (lookup (text "trace_id") record_)
              && not (is_empty (strip project_id)))) [
                | inl f ↦
                    rw (e, f)
                      (insert-other google_span_id_key k _ _ b
                        ∙ insert-other google_trace_sampled_key k _ _ c
                        ∙ insert-other google_trace_key k _ _ a)
                | inr f ↦ rw (e, f) (insert-other google_span_id_key k _ _ b)
              ]
        | inr e ↦
            elim (Bool-cases (
              is_true_entry (lookup (text "trace_id") record_)
              && not (is_empty (strip project_id)))) [
                | inl f ↦
                    rw (e, f)
                      (insert-other google_trace_sampled_key k _ _ c
                        ∙ insert-other google_trace_key k _ _ a)
                | inr f ↦ rw (e, f) refl
              ]
      ]
