-- ===== src/Schema/Records.antt =====
-- No sensitive value reaches a record by way of the message, the attributes or the error.
use policyengine_observabili.Base.{
  ℕ, pos, Text, text, contains, member, nat_eq, Dict, insert, All, All-insert, true, false, ◌≡◌,
  refl, Option, none, some, [], ◌∷◌, inl, inr, Bool-cases,
}
use policyengine_observabili.Base.Replace.{contains-take}
use policyengine_observabili.Value.{Value, Failure}
use policyengine_observabili.Config.{ObservabilityConfig, local_attribute_keys}
use policyengine_observabili.Schema.{
  Scalar, Entry, Record, RecordInput, limit, put_nonempty, put_value, put_context, put_attributes,
  put_fields, put_error, identity_record, error_fields, build_record, schema_version,
}
use policyengine_observabili.Schema.Redaction.{
  IsMaskable, IsCleanEntry, IsCleanValue, IsCleanScalar, contains-take-redact,
  normalize_attributes-clean,
}

-- What a caller states of the rest of a record: `u` does not stand there.
pub record IsCleanInput (config : ObservabilityConfig) (upper : Text → Text) (timestamp u : Text)
    (input : RecordInput) : Type 0 where
  pub version : contains u schema_version ≡ false
  pub time : contains u timestamp ≡ false
  pub severity : contains u (upper input.severity) ≡ false
  pub name : contains u config.service.name ≡ false
  pub namespace : contains u config.service.namespace ≡ false
  pub service_version : contains u config.service.version ≡ false
  pub role : contains u config.service.role ≡ false
  pub environment : contains u config.deployment.environment ≡ false
  pub platform : contains u config.deployment.platform ≡ false
  pub region : (t : Text) → config.deployment.region ≡ some t → contains u t ≡ false
  pub instance_id : (t : Text) → config.deployment.instance_id ≡ some t → contains u t ≡ false
  pub event_name : (t : Text) → input.event_name ≡ some t → contains u t ≡ false
  pub context : All (λ p. IsCleanValue u p.1) input.context
  pub error_type : (e : Failure) → input.error ≡ some e → contains u e.type_name ≡ false

module _ (u : Text) where
  insert-clean :
      (k : Text) (e : Entry) (r : Record)
      → IsCleanEntry u (k, e)
      → All (IsCleanEntry u) r
      → All (IsCleanEntry u) (insert k e r)
  insert-clean k (Entry.one v) r c h = All-insert (IsCleanEntry u) k (Entry.one v) r (λ j _. c) h
  insert-clean k (Entry.attributes d) r c h =
      All-insert (IsCleanEntry u) k (Entry.attributes d) r (λ j _. c) h

  put_nonempty-clean :
      (k : Text) (f : Text → Text) (o : Option Text) (r : Record)
      → ((t : Text) → o ≡ some t → contains u (f t) ≡ false)
      → All (IsCleanEntry u) r
      → All (IsCleanEntry u) (put_nonempty k f o r)
  unfolding put_nonempty
  put_nonempty-clean k f none r c h = h
  put_nonempty-clean k f (some []) r c h = h
  put_nonempty-clean k f (some (x ∷ t)) r c h = insert-clean k _ r (c (x ∷ t) refl) h

  put_value-clean :
      (k : Text) (v : Value) (r : Record)
      → IsCleanValue u v
      → All (IsCleanEntry u) r
      → All (IsCleanEntry u) (put_value k v r)
  unfolding put_value
  put_value-clean k Value.null r c h = h
  put_value-clean k v r c h = insert-clean k (Entry.one v) r c h

  put_context-clean :
      (context : Dict Value) (r : Record)
      → All (λ p. IsCleanValue u p.1) context
      → All (IsCleanEntry u) r
      → All (IsCleanEntry u) (put_context context r)
  unfolding put_context
  put_context-clean [] r c h = h
  put_context-clean ((k, v) ∷ rest) r c h =
      put_context-clean rest (put_value k v r) c.1 (put_value-clean k v r c.0 h)

  put_fields-clean :
      (fields : Dict Value) (r : Record)
      → All (λ p. IsCleanValue u p.1) fields
      → All (IsCleanEntry u) r
      → All (IsCleanEntry u) (put_fields fields r)
  unfolding put_fields
  put_fields-clean [] r c h = h
  put_fields-clean ((k, v) ∷ rest) r c h =
      put_fields-clean rest _ c.1 (insert-clean k (Entry.one v) r c.0 h)

  put_attributes-clean :
      (d : Dict Scalar) (n : ℕ) (r : Record)
      → All (λ p. IsCleanScalar u p.1) d
      → All (IsCleanEntry u) r
      → All (IsCleanEntry u) (put_attributes (d, n) r)
  unfolding put_attributes
  put_attributes-clean [] n r c h = elim (Bool-cases (nat_eq n 0)) [
    | inl e ↦ rw e h
    | inr e ↦ rw e (insert-clean _ (Entry.one (Value.int (pos n))) r tt h)
  ]
  put_attributes-clean (p ∷ d) n r c h = elim (Bool-cases (nat_eq n 0)) [
    | inl e ↦ rw e (insert-clean _ (Entry.attributes (p ∷ d)) r c h)
    | inr e ↦ rw e (
        insert-clean _ (Entry.one (Value.int (pos n))) _ tt
          (insert-clean _ (Entry.attributes (p ∷ d)) r c h))
  ]

module _ (config : ObservabilityConfig) (u : Text) (f : IsMaskable u)
    (h : member u config.sensitive_values ≡ true) where
  -- The message and the stack of an error are redacted, also where `str` raised.
  pub error_fields-clean :
      (e : Failure)
      → contains u e.type_name ≡ false
      → All (λ p. IsCleanValue u p.1) (error_fields e config)
  unfolding error_fields
  error_fields-clean e c =
      (c, (contains-take-redact config u f h _ _, (contains-take-redact config u f h _ _, tt)))

  put_error-clean :
      (o : Option Failure) (r : Record)
      → ((e : Failure) → o ≡ some e → contains u e.type_name ≡ false)
      → All (IsCleanEntry u) r
      → All (IsCleanEntry u) (put_error o config r)
  unfolding put_error
  put_error-clean none r c k = k
  put_error-clean (some e) r c k =
      put_fields-clean u (error_fields e config) r (error_fields-clean e (c e refl)) k

  limit-clean : (t : Text) → contains u t ≡ false → contains u (limit t config) ≡ false
  unfolding limit
  limit-clean t c = contains-take config.limits.max_string_length u t c

  identity_record-clean :
      (upper : Text → Text) (timestamp : Text) (input : RecordInput)
      → IsCleanInput config upper timestamp u input
      → All (IsCleanEntry u) (identity_record upper config timestamp input.severity)
  unfolding identity_record
  identity_record-clean upper timestamp input c = (
    c.version,
    (
      c.time,
      (
        c.severity,
        (
          limit-clean _ c.name,
          (
            limit-clean _ c.namespace,
            (
              limit-clean _ c.service_version,
              (limit-clean _ c.role, (limit-clean _ c.environment, (c.platform, tt))),
            ),
          ),
        ),
      ),
    ),
  )

  -- Whatever the message, the attributes and the error hold, no text that is a value of a record, of
  -- its attributes or of its error has an occurrence of a sensitive value that can be told from the
  -- mark, if the schema version, the timestamp, the severity, the identity, the event name, the
  -- context and the error's type name have none. Keys and numbers are not redacted, nor covered.
  pub build_record-clean :
      (lower upper : Text → Text) (timestamp : Text) (input : RecordInput)
      → IsCleanInput config upper timestamp u input
      → All (IsCleanEntry u) (build_record lower upper config timestamp input)
  unfolding build_record
  build_record-clean lower upper timestamp input c = put_error-clean input.error _ c.error_type (
      put_attributes-clean u _ _ _
        (normalize_attributes-clean config u f h lower input.attributes
          (local_attribute_keys config))
        (put_context-clean u input.context _ c.context (
          put_nonempty-clean u (text "message") _ input.message _
            (λ t _. contains-take-redact config u f h _ t)
            (put_nonempty-clean u (text "event.name") _ input.event_name _
              (λ t e. limit-clean t (c.event_name t e))
              (put_nonempty-clean u (text "service.instance.id") _ config.deployment.instance_id _
                (λ t e. limit-clean t (c.instance_id t e))
                (put_nonempty-clean u (text "cloud.region") _ config.deployment.region _
                  (λ t e. limit-clean t (c.region t e))
                  (identity_record-clean upper timestamp input c)))))))
