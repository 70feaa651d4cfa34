-- ===== src/ReadModel/Tables/Client.antt =====
-- The documented behaviour of an Azure table, as the task storage relies on it.
use prism_plan.Shared.{◌≡◌, Option, none, some, false, Str, is_empty, ok, if◌then◌else◌}
use prism_plan.ReadModel.Tasks.Refinement.{same_keys}
use prism_plan.ReadModel.Tables.{Columns, GetReply, found, accepted, TablesClient}

abbrev pub or_else {ℓ} : {A : Type ℓ} → Option A → Option A → Option A
or_else none old = old
or_else (some new) old = some new

-- A merge: the columns of the body, and the stored ones where the body has none.
abbrev pub merge_columns : Columns → Columns → Columns
merge_columns old new = record {
  partition_key = or_else new.partition_key old.partition_key;
  row_key = or_else new.row_key old.row_key;
  title = or_else new.title old.title;
  notes = or_else new.notes old.notes;
  category = or_else new.category old.category;
  order = or_else new.order old.order;
  done = or_else new.done old.done;
  event_timestamp = or_else new.event_timestamp old.event_timestamp;
}

abbrev pub get_reply : Str → Option (Columns × Str) → GetReply Columns
get_reply missing none = GetReply.response_error 404 missing
get_reply missing (some (c, etag)) = found (ok c) etag

abbrev pub stored_columns : Option (Columns × Str) → Option Columns
stored_columns none = none
stored_columns (some (c, etag)) = some c

-- The body is for the row under the two keys.
abbrev pub Keyed : Columns → Str → Str → Type 0
Keyed c pk rk = (c.partition_key ≡ some pk) × (c.row_key ≡ some rk)

-- The documented behaviour of a table that nobody else writes to and whose requests succeed. A row has
-- columns and an etag; a write under the etag of the row merges the columns of the body.
pub record ClientLaws {W : Type 0} (client : TablesClient W) : Type 0 where
  pub row : W → Str → Str → Option (Columns × Str)
  pub missing : Str
  pub get_reads :
      (pk rk : Str) (w : W) → client.get_entity pk rk w ≡ (get_reply missing (row w pk rk), w)
  pub row_keyed :
      (pk rk : Str) (w : W) (c : Columns) (etag : Str)
      → row w pk rk ≡ some (c, etag)
      → Keyed c pk rk
  pub etag_not_empty :
      (pk rk : Str) (w : W) (c : Columns) (etag : Str)
      → row w pk rk ≡ some (c, etag)
      → is_empty etag ≡ false
  pub add_accepts :
      (c : Columns) (pk rk : Str) (w : W)
      → Keyed c pk rk
      → row w pk rk ≡ none
      → (client.add_entity c w).0 ≡ accepted
  pub add_adds :
      (c : Columns) (pk rk pk' rk' : Str) (w : W)
      → Keyed c pk rk
      → row w pk rk ≡ none
      → stored_columns (row (client.add_entity c w).1 pk' rk')
        ≡ (if same_keys pk rk pk' rk' then some c else stored_columns (row w pk' rk'))
  pub update_accepts :
      (c old : Columns) (etag pk rk : Str) (w : W)
      → Keyed c pk rk
      → row w pk rk ≡ some (old, etag)
      → (client.update_entity c etag w).0 ≡ accepted
  pub update_merges :
      (c old : Columns) (etag pk rk pk' rk' : Str) (w : W)
      → Keyed c pk rk
      → row w pk rk ≡ some (old, etag)
      → stored_columns (row (client.update_entity c etag w).1 pk' rk') ≡ (
          if same_keys pk rk pk' rk'
          then some (merge_columns old c)
          else stored_columns (row w pk' rk'))
