-- ===== src/Identity.antt =====
-- policyengine_observability/identity.py: the identities of processes, kept in a table that a
-- process and its threads share. `decimal` is `str` of a process identifier, and `uuid` the
-- hexadecimal digits of a new UUID.
pub mod Stable
use policyengine_observabili.Base.{
  ℕ, nat_eq, Text, text, ◌==◌, strip, is_empty, ◌++◌, Bool, ◌&&◌, if◌then◌else◌, Option, none, some,
  List, [], ◌∷◌,
}

pub record Key : Type 0 where
  pub process_id : ℕ
  pub service : Text
  pub platform_id : Text

abbrev pub Table : Type 0
Table = List (Key × Text)

abbrev pub same_key : Key → Key → Bool
same_key j k =
    nat_eq j.process_id k.process_id && (j.service == k.service && j.platform_id == k.platform_id)

-- `_PROCESS_IDENTITIES.get(key)`
unfoldable pub find : Key → Table → Option Text
find k [] = none
find k ((j, v) ∷ table) = if same_key j k then some v else find k table

-- `_PROCESS_IDENTITIES.setdefault(key, value)`
unfoldable pub set_default : Key → Text → Table → Text × Table
set_default k v table = elim (find k table) [
  | none ↦ (v, table ++ (k, v) ∷ [])
  | some existing ↦ (existing, table)
]

-- `(platform_instance_id or "unassigned").strip()`, and "unassigned" where nothing is left.
unfoldable pub platform_of : Option Text → Text
platform_of none = text "unassigned"
platform_of (some t) =
    if is_empty t
    then text "unassigned"
    else if is_empty (strip t)
    then text "unassigned"
    else strip t

module _ (decimal : ℕ → Text) where
  abbrev pub generated : Key → Text → Text
  generated k uuid = k.platform_id ++ text ":" ++ decimal k.process_id ++ text ":" ++ uuid

  -- From the look-up on; `setdefault` is reached where it found nothing.
  unfoldable pub identify : Key → Text → Table → Text × Table
  identify k uuid table = elim (find k table) [
    | none ↦ set_default k (generated k uuid) table
    | some existing ↦ (existing, table)
  ]

  -- `none` is the `ValueError`.
  unfoldable pub process_instance_id : ℕ → Text → Text → Option Text → Table → Option (Text × Table)
  process_instance_id process_id uuid service_name platform table =
      if is_empty (strip service_name)
      then none
      else some (
          identify
            (record {
              process_id = process_id;
              service = strip service_name;
              platform_id = platform_of platform;
            })
            uuid table)

-- One call by some process, with its new UUID.
pub record Call : Type 0 where
  pub process_id : ℕ
  pub uuid : Text
  pub service_name : Text
  pub platform_instance_id : Option Text

abbrev pub table_after : Option (Text × Table) → Table → Table
table_after none table = table
table_after (some result) table = result.1

module _ (decimal : ℕ → Text) where
  unfoldable pub run : List Call → Table → Table
  run [] table = table
  run (c ∷ calls) table = run calls (
      table_after
        (process_instance_id decimal c.process_id c.uuid c.service_name c.platform_instance_id
          table)
        table)
