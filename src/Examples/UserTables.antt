-- ===== src/Examples/UserTables.antt =====
-- The user storage over tables in memory.
use prism_plan.Shared.{
  ◌≡◌, refl, sym, ap, ◌∙◌, subst, inl, inr, [], Option, none, some, true, false, Str, lit,
  str_eq_iff, err, arith, Bool-cases, if◌then◌else◌,
}
use mathlib.Core.Option.{some-injective}
use mathlib.Core.Path.{ap₂}
use prism_plan.ReadModel.Tasks.Project.{or_kept}
use prism_plan.ReadModel.Tasks.Refinement.{same_keys}
use prism_plan.ReadModel.Users.{apply_user}
use prism_plan.ReadModel.Users.Refinement.{RefinesRows, project_user}
use prism_plan.ReadModel.Tables.{
  TimeParser, UserColumns, SettingsColumns, GetReply, WriteReply, accepted, TablesClient,
}
use prism_plan.ReadModel.Tables.Methods.{user_storage}
use prism_plan.ReadModel.Tables.UserRows.{
  merge_settings_columns, written_over, user_written_over, settings_reply, SettingsKeyed,
  UserClientLaws,
}
use prism_plan.ReadModel.Tables.UserTable.{user_tables, apply_user-user_storage-RefinesRows}
use prism_plan.Examples.Process.{settings_event}

abbrev SettingsMemory : Type 0
SettingsMemory = Str → Str → Option SettingsColumns

abbrev UsersMemory : Type 0
UsersMemory = Str → Str → Option UserColumns

abbrev Both : Type 0
Both = SettingsMemory × UsersMemory

-- A row is stored under its keys.
abbrev keyed_by : Str → Str → SettingsColumns → SettingsColumns
keyed_by pk rk c = record c { partition_key = some pk; row_key = some rk }

abbrev settings_row : Str → Str → Option SettingsColumns → Option SettingsColumns
settings_row pk rk none = none
settings_row pk rk (some c) = some (keyed_by pk rk c)

abbrev pk_of : SettingsColumns → Str
pk_of c = or_kept c.partition_key []

abbrev rk_of : SettingsColumns → Str
rk_of c = or_kept c.row_key []

abbrev put_settings_row : SettingsColumns → SettingsColumns → SettingsMemory → SettingsMemory
put_settings_row keys c w pk rk =
    if same_keys (pk_of keys) (rk_of keys) pk rk then some c else w pk rk

abbrev row_at : SettingsMemory → Str → Str → Option SettingsColumns
row_at w pk rk = settings_row pk rk (w pk rk)

abbrev update_row : SettingsColumns → Option SettingsColumns → Both → WriteReply × Both
update_row c none w = (WriteReply.response_error 404 (lit "ResourceNotFound"), w)
update_row c (some old) w = (accepted, (put_settings_row c (merge_settings_columns old c) w.0, w.1))

abbrev put_user : Str → Str → UserColumns → UsersMemory → UsersMemory
put_user pk rk c w pk' rk' =
    if same_keys pk rk pk' rk' then some (user_written_over (w pk rk) c) else w pk' rk'

abbrev users_client : TablesClient Both
users_client = record {
  get_entity = λ pk rk w. (GetReply.no_response (lit "no tasks"), w);
  add_entity = λ c w. (WriteReply.no_response (lit "no tasks"), w);
  update_entity = λ c etag w. (WriteReply.no_response (lit "no tasks"), w);
  more = λ query w. false;
  next_page = λ query w. err (lit "no listing");
  get_settings = λ pk rk w. (settings_reply (lit "missing") (lit "v") (row_at w.0 pk rk), w);
  upsert_settings = λ c w.
      (accepted, (put_settings_row c (written_over (row_at w.0 (pk_of c) (rk_of c)) c) w.0, w.1));
  update_settings = λ c etag w. update_row c (row_at w.0 (pk_of c) (rk_of c)) w;
  upsert_user =
      λ c w. (accepted, (w.0, put_user (or_kept c.partition_key []) (or_kept c.row_key []) c w.1));
}

settings_row-SettingsKeyed :
    (pk rk : Str) (r : Option SettingsColumns) (c : SettingsColumns)
    → settings_row pk rk r ≡ some c
    → SettingsKeyed c pk rk
settings_row-SettingsKeyed pk rk none c e = cc
settings_row-SettingsKeyed pk rk (some x) c e =
    subst (λ (y : SettingsColumns). SettingsKeyed y pk rk) (some-injective (keyed_by pk rk x) c e)
      (refl, refl)

same_keys-both : (pk rk pk' rk' : Str) → same_keys pk rk pk' rk' ≡ true → (pk ≡ pk') × (rk ≡ rk')
same_keys-both pk rk pk' rk' h = ground (arith, str_eq_iff pk pk', str_eq_iff rk rk')

keyed_by_self :
    (pk rk pk' rk' : Str) (c : SettingsColumns)
    → SettingsKeyed c pk rk
    → same_keys pk rk pk' rk' ≡ true
    → keyed_by pk' rk' c ≡ c
keyed_by_self pk rk pk' rk' c keyed h =
    let same = same_keys-both pk rk pk' rk' h in rw (← same.0, ← same.1, ← keyed.0, ← keyed.1) refl

put_settings_row-at :
    (keys c : SettingsColumns) (pk rk pk' rk' : Str) (w : SettingsMemory)
    → SettingsKeyed keys pk rk
    → SettingsKeyed c pk rk
    → row_at (put_settings_row keys c w) pk' rk'
      ≡ (if same_keys pk rk pk' rk' then some c else row_at w pk' rk')
put_settings_row-at keys c pk rk pk' rk' w keyed own =
    rw (keyed.0, keyed.1)
      (elim (Bool-cases (same_keys pk rk pk' rk')) [
        | inl h ↦ rw h (ap (λ x. some x) (keyed_by_self pk rk pk' rk' c own h))
        | inr h ↦ rw h refl
      ])

written_over-SettingsKeyed :
    (pk rk : Str) (o : Option SettingsColumns) (c : SettingsColumns)
    → SettingsKeyed c pk rk
    → SettingsKeyed (written_over o c) pk rk
written_over-SettingsKeyed pk rk none c keyed = keyed
written_over-SettingsKeyed pk rk (some old) c keyed = rw (keyed.0, keyed.1) (refl, refl)

upsert_at :
    (c : SettingsColumns) (pk rk pk' rk' : Str) (w : SettingsMemory)
    → SettingsKeyed c pk rk
    → row_at (put_settings_row c (written_over (row_at w (pk_of c) (rk_of c)) c) w) pk' rk' ≡ (
        if same_keys pk rk pk' rk'
        then some (written_over (row_at w pk rk) c)
        else row_at w pk' rk')
upsert_at c pk rk pk' rk' w keyed =
    put_settings_row-at c _ pk rk pk' rk' w keyed
      (written_over-SettingsKeyed pk rk (row_at w (pk_of c) (rk_of c)) c keyed)
    ∙ ap₂
        (λ (a b : Option Str).
          if same_keys pk rk pk' rk'
          then some (written_over (row_at w (or_kept a []) (or_kept b [])) c)
          else row_at w pk' rk')
        keyed.0 keyed.1

update_row-eq :
    (c old : SettingsColumns) (pk rk : Str) (w : Both)
    → SettingsKeyed c pk rk
    → row_at w.0 pk rk ≡ some old
    → update_row c (row_at w.0 (pk_of c) (rk_of c)) w ≡ update_row c (some old) w
update_row-eq c old pk rk w keyed e =
    ap (λ o. update_row c o w)
      (ap₂ (λ (a b : Option Str). row_at w.0 (or_kept a []) (or_kept b [])) keyed.0 keyed.1 ∙ e)

update_at :
    (c old : SettingsColumns) (pk rk pk' rk' : Str) (w : Both)
    → SettingsKeyed c pk rk
    → ((update_row c (some old) w).1.1 pk' rk' ≡ w.1 pk' rk')
      × (row_at (update_row c (some old) w).1.0 pk' rk' ≡ (
          if same_keys pk rk pk' rk'
          then some (merge_settings_columns old c)
          else row_at w.0 pk' rk'))
update_at c old pk rk pk' rk' w keyed = (
  refl,
  put_settings_row-at c (merge_settings_columns old c) pk rk pk' rk' w.0 keyed
      (written_over-SettingsKeyed pk rk (some old) c keyed),
)

abbrev users_laws : UserClientLaws users_client
users_laws = record {
  row = λ w. row_at w.0;
  user_row = λ w. w.1;
  etag = λ w pk rk. lit "v";
  missing = lit "missing";
  get_reads = λ pk rk w. refl;
  row_keyed = λ pk rk w c e. settings_row-SettingsKeyed pk rk (w.0 pk rk) c e;
  upsert_accepts = λ c pk rk w keyed. refl;
  upsert_merges = λ c pk rk pk' rk' w keyed. (refl, upsert_at c pk rk pk' rk' w.0 keyed);
  update_accepts = λ c old pk rk w keyed e.
      ap (λ (r : WriteReply × Both). r.0) (update_row-eq c old pk rk w keyed e);
  update_merges = λ c old pk rk pk' rk' w keyed e.
      subst
        (λ (r : WriteReply × Both).
          (r.1.1 pk' rk' ≡ w.1 pk' rk')
          × (row_at r.1.0 pk' rk' ≡ (
              if same_keys pk rk pk' rk'
              then some (merge_settings_columns old c)
              else row_at w.0 pk' rk')))
        (sym (update_row-eq c old pk rk w keyed e)) (update_at c old pk rk pk' rk' w keyed);
  user_accepts = λ c pk rk w keyed. refl;
  user_merges = λ c pk rk pk' rk' w keyed. (
    ap₂ (λ (a b : Option Str). put_user (or_kept a []) (or_kept b []) c w.1 pk' rk') keyed.0
        keyed.1,
    refl,
  );
}

abbrev no_time : TimeParser
no_time s = none

abbrev nobody : Both
nobody = (λ pk rk. none, λ pk rk. none)

apply_user-user_storage-RefinesRows_example :
    RefinesRows
      (user_storage no_time users_client)
      (user_tables no_time (λ t. refl) users_client users_laws)
      settings_event
      nobody
      (apply_user (user_storage no_time users_client) settings_event nobody)
      (project_user settings_event (record { user = none; settings = none }))
apply_user-user_storage-RefinesRows_example =
    apply_user-user_storage-RefinesRows no_time (λ t. refl) users_client users_laws settings_event
      nobody (omega arith)
