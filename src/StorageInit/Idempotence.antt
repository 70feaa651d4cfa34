-- ===== src/StorageInit/Idempotence.antt =====
-- A run of storage-init makes what is missing, and a second run changes nothing.
use prism_plan.Shared.{
  ◌≡◌, refl, sym, ap, ◌∙◌, subst, ◌⊎◌, inl, inr, List, [], ◌∷◌, Option, none, some, Bool, true,
  false, Str, lit, is_empty, Bool-cases, if_cases, if◌then◌else◌, All,
}
use mathlib.Core.Option.{some-injective}
use prism_plan.Api.Pool.{Env}
use prism_plan.StorageInit.{
  Failure, Account, has_code, settled, or_rest, create_each, table_exists, queue_exists,
  with_client, make_table, make_queue, create_tables, create_queues, table_names, queue_names,
  queues_end, tables_end, init_storage,
}

pub data Resource : Type 0 where
  table : Str → Resource
  queue : Str → Resource

abbrev pub code_of : Resource → Str
code_of (table name) = table_exists
code_of (queue name) = queue_exists

abbrev pub create : {W : Type 0} → Account W → Resource → W → Option Failure × W
create account (table name) w = account.create_table name w
create account (queue name) w = account.create_queue name w

-- What the account promises: a call that succeeds has made its table or queue; one for what is there
-- already changes nothing, and either succeeds, as the service answers for a queue with the same
-- metadata, or has the error with the code that says so; and no call takes anything away.
pub record AccountLaws {W : Type 0} (account : Account W) (made : Resource → W → Type 0)
    : Type 0 where
  pub makes : (r : Resource) (w : W) → (create account r w).0 ≡ none → made r (create account r w).1
  pub finds :
      (r : Resource) (w : W) (e : Failure)
      → (create account r w).0 ≡ some e
      → has_code (code_of r) e.code ≡ true
      → made r (create account r w).1
  pub reports :
      (r : Resource) (w : W)
      → made r w
      → ((create account r w).1 ≡ w)
        × (((create account r w).0 ≡ none)
            ⊎ ((e : Failure) × ((create account r w).0 ≡ some e)
                × (has_code (code_of r) e.code ≡ true)))
  pub keeps : (r s : Resource) (w : W) → made s w → made s (create account r w).1

-- What a settled call leaves of the state.
settled_state : {W : Type 0} (already : Str) (p : Option Failure × W) → (settled already p).1 ≡ p.1
settled_state already (none, w) = refl
settled_state already (some e, w) = refl

-- A settled call without an error: there was none, or it said that the name exists.
settled-cases :
    {W : Type 0} (already : Str) (p : Option Failure × W)
    → (settled already p).0 ≡ none
    → (p.0 ≡ none) ⊎ ((e : Failure) × (p.0 ≡ some e) × (has_code already e.code ≡ true))
settled-cases already (none, w) h = inl refl
settled-cases already (some e, w) h = elim (Bool-cases (has_code already e.code)) [
  | inl c ↦ inr (e, refl, c)
  | inr c ↦ cc (ap (λ (b : Bool). if b then none else some e) (sym c) ∙ h)
]

-- A way to make what the names stand for, which says nothing where it finds it.
record Maker {W : Type 0} (made : Resource → W → Type 0) (kind : Str → Resource)
    (step : Str → W → Option Failure × W) : Type 0 where
  makes : (name : Str) (w : W) → (step name w).0 ≡ none → made (kind name) (step name w).1
  keeps : (name : Str) (s : Resource) (w : W) → made s w → made s (step name w).1
  again :
      (name : Str) (w v : W) → (step name w).0 ≡ none → made (kind name) v → step name v ≡ (none, v)

module _ {W : Type 0} (made : Resource → W → Type 0) (kind : Str → Resource)
    (step : Str → W → Option Failure × W) where
  -- The name is empty, or stands for something that is there and is found from now on.
  Ready : W → Str → Type 0
  Ready w name =
      (is_empty name ≡ true)
      ⊎ (made (kind name) w × ((v : W) → made (kind name) v → step name v ≡ (none, v)))

  or_rest-keeps :
      (names : List Str) (s : Resource) (p : Option Failure × W)
      → ((w : W) → made s w → made s (create_each step names w).1)
      → made s p.1
      → made s (or_rest (create_each step names) p).1
  or_rest-keeps names s (none, w) rest h = rest w h
  or_rest-keeps names s (some e, w) rest h = h

  create_each-keeps :
      Maker made kind step
      → (names : List Str) (s : Resource) (w : W) → made s w
      → made s (create_each step names w).1
  unfolding create_each
  create_each-keeps m [] s w h = h
  create_each-keeps m (name ∷ names) s w h =
      if_cases (λ (p : Option Failure × W). made s p.1) (is_empty name) _ _
        (λ e. create_each-keeps m names s w h)
        (λ e.
          or_rest-keeps names s (step name w) (λ v k. create_each-keeps m names s v k)
            (m.keeps name s w h))

  or_rest-first :
      (names : List Str) (p : Option Failure × W)
      → (or_rest (create_each step names) p).0 ≡ none
      → (p.0 ≡ none) × (or_rest (create_each step names) p ≡ create_each step names p.1)
  or_rest-first names (none, w) h = (refl, refl)
  or_rest-first names (some e, w) h = cc

  -- After a loop without an error, every name is ready.
  AllReady : List Str → Option Failure × W → Type 0
  AllReady names p = p.0 ≡ none → All (Ready p.1) names

  create_each-AllReady :
      Maker made kind step → (names : List Str) (w : W) → AllReady names (create_each step names w)
  unfolding create_each AllReady Ready
  create_each-AllReady m [] w = λ h. tt
  create_each-AllReady m (name ∷ names) w =
      if_cases (AllReady (name ∷ names)) (is_empty name) _ _
        (λ e h. (inl e, create_each-AllReady m names w h))
        (λ e h.
          let (first, rest) = or_rest-first names (step name w) h in
          let h' = sym (ap (λ p. p.0) rest) ∙ h in
          let all = create_each-AllReady m names (step name w).1 h' in
          let there =
            create_each-keeps m names (kind name) (step name w).1 (m.makes name w first) in
          subst (λ (p : Option Failure × W). All (Ready p.1) (name ∷ names)) (sym rest)
            (inr (there, λ v k. m.again name w v first k), all))

  create_each-again :
      (names : List Str) (w : W) → All (Ready w) names → create_each step names w ≡ (none, w)
  unfolding create_each Ready
  create_each-again [] w all = refl
  create_each-again (name ∷ names) w (inl e, all) = rw e (create_each-again names w all)
  create_each-again (name ∷ names) w (inr (there, found), all) =
      if_cases (λ p. p ≡ (none, w)) (is_empty name) _ _ (λ e. create_each-again names w all)
        (λ e. ap (or_rest (create_each step names)) (found w there) ∙ create_each-again names w all)

abbrev error_in : {W : Type 0} → Option Failure → W → Option Failure × W
error_in e w = (e, w)

-- A settled call that changed nothing and had no error, or the one that is looked for.
settled-found :
    {W : Type 0} (already : Str) (p : Option Failure × W) (w : W)
    → p.1 ≡ w
    → (p.0 ≡ none) ⊎ ((e : Failure) × (p.0 ≡ some e) × (has_code already e.code ≡ true))
    → settled already p ≡ (none, w)
settled-found already (none, v) w s h = ap (error_in none) s
settled-found already (some x, v) w s (inl h) = cc
settled-found already (some x, v) w s (inr (e, h, c)) =
    ap (λ (b : Bool). error_in (if b then none else some x) v)
      (ap (λ (y : Failure). has_code already y.code) (some-injective x e h) ∙ c)
    ∙ ap (error_in none) s

module _ {W : Type 0} (account : Account W) (made : Resource → W → Type 0)
    (laws : AccountLaws account made) where
  call : Resource → W → Option Failure × W
  call r w = settled (code_of r) (create account r w)

  call-makes : (r : Resource) (w : W) → (call r w).0 ≡ none → made r (call r w).1
  unfolding call
  call-makes r w h =
      subst (made r) (sym (settled_state (code_of r) (create account r w)))
        (elim (settled-cases (code_of r) (create account r w) h) [
          | inl e ↦ laws.makes r w e
          | inr (e, there, c) ↦ laws.finds r w e there c
        ])

  call-keeps : (r s : Resource) (w : W) → made s w → made s (call r w).1
  unfolding call
  call-keeps r s w h =
      subst (made s) (sym (settled_state (code_of r) (create account r w))) (laws.keeps r s w h)

  call-again : (r : Resource) (w : W) → made r w → call r w ≡ (none, w)
  unfolding call
  call-again r w h =
      let (same, found) = laws.reports r w h in
      settled-found (code_of r) (create account r w) w same found

  tables_Maker : Maker made (λ name. table name) (make_table account)
  unfolding call
  tables_Maker = record {
    makes = λ name w h. call-makes (table name) w h;
    keeps = λ name s w h. call-keeps (table name) s w h;
    again = λ name w v e h. call-again (table name) v h;
  }

  with_client-makes :
      (name : Str) (w : W) (o : Option Failure)
      → (with_client o (call (queue name)) w).0 ≡ none
      → made (queue name) (with_client o (call (queue name)) w).1
  with_client-makes name w none h = call-makes (queue name) w h
  with_client-makes name w (some e) h = cc

  with_client-keeps :
      (name : Str) (s : Resource) (w : W) (o : Option Failure)
      → made s w
      → made s (with_client o (call (queue name)) w).1
  with_client-keeps name s w none h = call-keeps (queue name) s w h
  with_client-keeps name s w (some e) h = h

  with_client-again :
      (name : Str) (w v : W) (o : Option Failure)
      → (with_client o (call (queue name)) w).0 ≡ none
      → made (queue name) v
      → with_client o (call (queue name)) v ≡ (none, v)
  with_client-again name w v none e h = call-again (queue name) v h
  with_client-again name w v (some x) e h = cc

  queues_Maker : (conn : Str) → Maker made (λ name. queue name) (make_queue account conn)
  unfolding call
  queues_Maker conn = record {
    makes = λ name w. with_client-makes name w (account.queue_client conn name);
    keeps = λ name s w. with_client-keeps name s w (account.queue_client conn name);
    again = λ name w v. with_client-again name w v (account.queue_client conn name);
  }

  -- The names that are not empty are there.
  Present : (Str → Resource) → W → Str → Type 0
  Present kind w name = (is_empty name ≡ true) ⊎ made (kind name) w

  AllReady-Present :
      (kind : Str → Resource) (step : Str → W → Option Failure × W) (w : W) (names : List Str)
      → All (Ready made kind step w) names
      → All (Present kind w) names
  unfolding Ready Present
  AllReady-Present kind step w [] all = tt
  AllReady-Present kind step w (name ∷ names) (inl e, all) =
      (inl e, AllReady-Present kind step w names all)
  AllReady-Present kind step w (name ∷ names) (inr (there, found), all) =
      (inr there, AllReady-Present kind step w names all)

  AllReady-later :
      (kind : Str → Resource) (step : Str → W → Option Failure × W) (w v : W) (names : List Str)
      → ((s : Resource) → made s w → made s v)
      → All (Ready made kind step w) names
      → All (Ready made kind step v) names
  unfolding Ready
  AllReady-later kind step w v [] later all = tt
  AllReady-later kind step w v (name ∷ names) later (inl e, all) =
      (inl e, AllReady-later kind step w v names later all)
  AllReady-later kind step w v (name ∷ names) later (inr (there, found), all) =
      (inr (later (kind name) there, found), AllReady-later kind step w v names later all)

  queues_end-first :
      (p : Option Failure × W) → (queues_end p).0 ≡ none → (p.0 ≡ none) × ((queues_end p).1 ≡ p.1)
  queues_end-first (none, w) h = (refl, refl)
  queues_end-first (some e, w) h = cc

  tables_end-first :
      (queues : W → Option Failure × W) (p : Option Failure × W)
      → (tables_end queues p).0 ≡ none
      → (p.0 ≡ none) × (tables_end queues p ≡ queues_end (queues p.1))
  tables_end-first queues (none, w) h = (refl, refl)
  tables_end-first queues (some e, w) h = cc

  with_client-first :
      (o : Option Failure) (use_it : W → Option Failure × W) (w : W)
      → (with_client o use_it w).0 ≡ none
      → (o ≡ none) × ((use_it w).0 ≡ none) × (with_client o use_it w ≡ use_it w)
  with_client-first none use_it w h = (refl, h, refl)
  with_client-first (some e) use_it w h = cc

  -- Every name that is set is there, and a further run changes nothing and has no error.
  abbrev Initialised : Env → W → Type 0
  Initialised env w =
      All (Present (λ name. table name) w) (table_names env)
      × All (Present (λ name. queue name) w) (queue_names env)
      × (init_storage account env w ≡ (none, w))

  Repeatable : Env → Option Str × W → Type 0
  Repeatable env p = p.0 ≡ none → Initialised env p.1

  -- The two loops of a run without an error, from `w` by `v` to the state they leave.
  module _ (env : Env) (w : W) where
    abbrev conn : Str
    conn = env (lit "STORAGE_CONNECTION_STRING")

    abbrev v : W
    v = (create_each (make_table account) (table_names env) w).1

    abbrev end : W
    end = (create_each (make_queue account conn) (queue_names env) v).1

    rerun :
        is_empty conn ≡ false
        → account.tables_client conn ≡ none
        → (create_each (make_table account) (table_names env) w).0 ≡ none
        → (create_each (make_queue account conn) (queue_names env) v).0 ≡ none
        → Initialised env end
    unfolding init_storage create_tables create_queues AllReady
    rerun ne client ht hq =
        let mq = queues_Maker conn in
        let ready_tables =
          AllReady-later (λ name. table name) (make_table account) v end (table_names env)
            (λ s h.
              create_each-keeps made (λ name. queue name) (make_queue account conn) mq
                (queue_names env) s v h)
            (create_each-AllReady made (λ name. table name) (make_table account) tables_Maker
              (table_names env) w ht) in
        let ready_queues =
          create_each-AllReady made (λ name. queue name) (make_queue account conn) mq
            (queue_names env) v hq in
        (
          AllReady-Present (λ name. table name) (make_table account) end (table_names env)
              ready_tables,
          AllReady-Present (λ name. queue name) (make_queue account conn) end (queue_names env)
              ready_queues,
          rw (ne, client)
              (ap (tables_end (create_each (make_queue account conn) (queue_names env))) (
                  create_each-again made (λ name. table name) (make_table account) (table_names env)
                    end ready_tables)
                ∙ ap queues_end (
                    create_each-again made (λ name. queue name) (make_queue account conn)
                      (queue_names env) end ready_queues)),
        )

  init_storage-Repeatable : (env : Env) (w : W) → Repeatable env (init_storage account env w)
  unfolding init_storage create_tables create_queues Repeatable
  init_storage-Repeatable env w =
      if_cases (Repeatable env) (is_empty (conn env w)) _ _ (λ e h. cc)
        (λ e h.
          let queues = create_queues account (conn env w) (queue_names env) in
          let (no_error, es) = tables_end-first queues _ h in
          let (client, ht, ew) =
            with_client-first (account.tables_client (conn env w))
              (create_each (make_table account) (table_names env)) w no_error in
          let to_queues : tables_end queues (create_tables account (conn env w) (table_names env) w)
              ≡ queues_end (queues (v env w)) =
            es ∙ ap (λ (p : Option Failure × W). queues_end (queues p.1)) ew in
          let (hq, eq) = queues_end-first (queues (v env w)) (sym (ap (λ p. p.0) to_queues) ∙ h) in
          subst (Initialised env) (sym (ap (λ p. p.1) to_queues ∙ eq)) (rerun env w e client ht hq))

-- After a run without an error, every table and queue that the environment names is there, and a
-- further run ends without an error and changes nothing. The account makes what it says it has made,
-- leaves what is there already as it is, with success or with the code that the service documents, and
-- takes nothing away.
pub init_storage-again :
    {W : Type 0} (account : Account W) (made : Resource → W → Type 0) (env : Env) (w : W)
    → AccountLaws account made
    → (init_storage account env w).0 ≡ none
    → All
        (λ name. (is_empty name ≡ true) ⊎ made (table name) (init_storage account env w).1)
        (table_names env)
      × All
          (λ name. (is_empty name ≡ true) ⊎ made (queue name) (init_storage account env w).1)
          (queue_names env)
      × (init_storage account env (init_storage account env w).1
          ≡ (none, (init_storage account env w).1))
unfolding Repeatable Present
init_storage-again account made env w laws h = init_storage-Repeatable account made laws env w h
