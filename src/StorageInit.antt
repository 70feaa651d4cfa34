-- ===== src/StorageInit.antt =====
-- storage-init/main.go, which makes the tables and queues that the services use. The Azure clients are
-- parameters: a call on them takes a state `W` of the storage account to another.
pub mod Idempotence
use prism_plan.Shared.{
  List, [], ◌∷◌, ◌++◌, Option, none, some, Bool, true, false, Str, lit, str_eq, is_empty,
  if◌then◌else◌,
}
use prism_plan.Api.Pool.{Env}

-- An error of an Azure client; it has a code where it is an `azcore.ResponseError`.
pub record Failure : Type 0 where
  pub code : Option Str
  pub message : Str

-- The clients that are made from a connection string, and what they are asked to make.
pub record Account (W : Type 0) : Type 0 where
  -- `aztables.NewServiceClientFromConnectionString`
  pub tables_client : Str → Option Failure
  -- `azqueue.NewQueueClientFromConnectionString`, with the name of the queue
  pub queue_client : Str → Str → Option Failure
  -- `CreateTable`
  pub create_table : Str → W → Option Failure × W
  -- `Create`
  pub create_queue : Str → W → Option Failure × W

abbrev pub has_code : Str → Option Str → Bool
has_code code none = false
has_code code (some c) = str_eq c code

-- The error that is returned: none where the name exists already.
abbrev pub settled : {W : Type 0} → Str → Option Failure × W → Option Failure × W
settled already (none, w) = (none, w)
settled already (some e, w) = (if has_code already e.code then none else some e, w)

abbrev pub or_rest :
    {W : Type 0} → (W → Option Failure × W) → Option Failure × W → Option Failure × W
or_rest rest (some e, w) = (some e, w)
or_rest rest (none, w) = rest w

-- The loop over the names: an empty one is passed over, and the first error ends it.
unfoldable pub create_each :
    {W : Type 0} → (Str → W → Option Failure × W) → List Str → W → Option Failure × W
create_each create [] w = (none, w)
create_each create (name ∷ names) w =
    if is_empty name
    then create_each create names w
    else or_rest (create_each create names) (create name w)

abbrev pub table_exists : Str
table_exists = lit "TableAlreadyExists"

abbrev pub queue_exists : Str
queue_exists = lit "QueueAlreadyExists"

abbrev pub with_client :
    {W : Type 0} → Option Failure → (W → Option Failure × W) → W → Option Failure × W
with_client none use_it w = use_it w
with_client (some e) use_it w = (some e, w)

abbrev pub make_table : {W : Type 0} → Account W → Str → W → Option Failure × W
make_table account name w = settled table_exists (account.create_table name w)

abbrev pub make_queue : {W : Type 0} → Account W → Str → Str → W → Option Failure × W
make_queue account conn name w =
    with_client (account.queue_client conn name)
      (λ w. settled queue_exists (account.create_queue name w)) w

-- `createTables`
unfoldable pub create_tables : {W : Type 0} → Account W → Str → List Str → W → Option Failure × W
create_tables account conn names w =
    with_client (account.tables_client conn) (create_each (make_table account) names) w

-- `createQueues`
unfoldable pub create_queues : {W : Type 0} → Account W → Str → List Str → W → Option Failure × W
create_queues account conn names w = create_each (make_queue account conn) names w

abbrev pub table_names : Env → List Str
table_names env =
    env (lit "TASK_EVENTS_TABLE")
    ∷ env (lit "USER_EVENTS_TABLE")
    ∷ env (lit "TASKS_TABLE")
    ∷ env (lit "USERS_TABLE")
    ∷ env (lit "SETTINGS_TABLE")
    ∷ []

abbrev pub queue_names : Env → List Str
queue_names env = env (lit "COMMAND_QUEUE") ∷ env (lit "DOMAIN_EVENTS_QUEUE") ∷ []

abbrev pub fatal : Str → Failure → Str
fatal what e = what ++ (lit ": " ++ e.message)

abbrev pub queues_end : {W : Type 0} → Option Failure × W → Option Str × W
queues_end (none, w) = (none, w)
queues_end (some e, w) = (some (fatal (lit "create queues") e), w)

abbrev pub tables_end :
    {W : Type 0} → (W → Option Failure × W) → Option Failure × W → Option Str × W
tables_end queues (none, w) = queues_end (queues w)
tables_end queues (some e, w) = (some (fatal (lit "create tables") e), w)

-- `main`, with the message that ends it early, if one does.
unfoldable pub init_storage : {W : Type 0} → Account W → Env → W → Option Str × W
unfolding create_tables create_queues create_each
init_storage account env w =
    let conn = env (lit "STORAGE_CONNECTION_STRING") in
    if is_empty conn
    then (some (lit "missing STORAGE_CONNECTION_STRING"), w)
    else tables_end (create_queues account conn (queue_names env))
        (create_tables account conn (table_names env) w)
