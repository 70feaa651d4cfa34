-- ===== src/Examples/StorageInit.antt =====
-- A storage account that has one of the tables already.
use prism_plan.Shared.{
  ◌≡◌, refl, sym, subst, ap, ◌∙◌, ◌⊎◌, inl, inr, List, [], ◌∷◌, Option, none, some, Bool, true,
  false, ◌||◌, lit, str_eq, is_empty, str_eq_refl, Bool-cases, if◌then◌else◌, All,
}
use prism_plan.Api.Pool.{Env}
use prism_plan.StorageInit.{
  Failure, Account, has_code, create_each, create_tables, create_queues, table_names, queue_names,
  init_storage,
}
use prism_plan.StorageInit.Idempotence.{
  Resource, table, queue, code_of, create, AccountLaws, init_storage-again,
}

abbrev same_resource : Resource → Resource → Bool
same_resource (table a) (table b) = str_eq a b
same_resource (table a) (queue b) = false
same_resource (queue a) (table b) = false
same_resource (queue a) (queue b) = str_eq a b

same_resource_refl : (r : Resource) → same_resource r r ≡ true
same_resource_refl (table a) = str_eq_refl a
same_resource_refl (queue a) = str_eq_refl a

abbrev is_made : Resource → List Resource → Bool
is_made r [] = false
is_made r (s ∷ w) = same_resource s r || is_made r w

abbrev exists_error : Resource → Failure
exists_error r = record { code = some (code_of r); message = [] }

-- A table that exists is a conflict; a queue that exists with the same metadata is a success.
abbrev answer : Resource → List Resource → Bool → Option Failure × List Resource
answer (table a) w true = (some (exists_error (table a)), w)
answer (queue a) w true = (none, w)
answer r w false = (none, r ∷ w)

abbrev demo_account : Account (List Resource)
demo_account = record {
  tables_client = λ conn. none;
  queue_client = λ conn name. none;
  create_table = λ name w. answer (table name) w (is_made (table name) w);
  create_queue = λ name w. answer (queue name) w (is_made (queue name) w);
}

abbrev Made : Resource → List Resource → Type 0
Made r w = is_made r w ≡ true

create-answer :
    (r : Resource) (w : List Resource) → create demo_account r w ≡ answer r w (is_made r w)
create-answer (table a) w = refl
create-answer (queue a) w = refl

made_new : (r : Resource) (w : List Resource) → is_made r (r ∷ w) ≡ true
made_new r w = rw (same_resource_refl r) refl

made_kept : (r s : Resource) (w : List Resource) → is_made s w ≡ true → is_made s (r ∷ w) ≡ true
made_kept r s w h = elim (Bool-cases (same_resource r s)) [ inl e ↦ rw e refl | inr e ↦ rw e h ]

answer-makes :
    (r : Resource) (w : List Resource) (b : Bool)
    → is_made r w ≡ b
    → (answer r w b).0 ≡ none
    → Made r (answer r w b).1
answer-makes (table a) w true m h = cc
answer-makes (queue a) w true m h = m
answer-makes (table a) w false m h = made_new (table a) w
answer-makes (queue a) w false m h = made_new (queue a) w

answer-finds :
    (r : Resource) (w : List Resource) (b : Bool)
    → is_made r w ≡ b
    → (e : Failure) → (answer r w b).0 ≡ some e
    → Made r (answer r w b).1
answer-finds (table a) w true m e h = m
answer-finds (queue a) w true m e h = cc
answer-finds (table a) w false m e h = cc
answer-finds (queue a) w false m e h = cc

answer-keeps : (r s : Resource) (w : List Resource) (b : Bool) → Made s w → Made s (answer r w b).1
answer-keeps (table a) s w true h = h
answer-keeps (queue a) s w true h = h
answer-keeps (table a) s w false h = made_kept (table a) s w h
answer-keeps (queue a) s w false h = made_kept (queue a) s w h

-- What the account answers for what is there.
Found : Resource → List Resource → Option Failure × List Resource → Type 0
Found r w p =
    (p.1 ≡ w)
    × ((p.0 ≡ none) ⊎ ((e : Failure) × (p.0 ≡ some e) × (has_code (code_of r) e.code ≡ true)))

answer-Found : (r : Resource) (w : List Resource) → Found r w (answer r w true)
unfolding Found
answer-Found (table a) w =
    (refl, inr (exists_error (table a), refl, str_eq_refl (code_of (table a))))
answer-Found (queue a) w = (refl, inl refl)

demo_laws : AccountLaws demo_account Made
unfolding Found
demo_laws = record {
  makes = λ r w. rw (create-answer r w) (λ h. answer-makes r w (is_made r w) refl h);
  finds = λ r w e. rw (create-answer r w) (λ h c. answer-finds r w (is_made r w) refl e h);
  reports =
      λ r w h. subst (Found r w) (sym (create-answer r w ∙ ap (answer r w) h)) (answer-Found r w);
  keeps = λ r s w h. rw (create-answer r w) (answer-keeps r s w (is_made r w) h);
}

abbrev demo_env : Env
demo_env key = if str_eq key (lit "USERS_TABLE") then [] else key

abbrev demo_start : List Resource
demo_start = table (lit "TASKS_TABLE") ∷ queue (lit "COMMAND_QUEUE") ∷ []

starts_clean : (init_storage demo_account demo_env demo_start).0 ≡ none
unfolding init_storage create_tables create_queues create_each str_eq is_empty
starts_clean = refl

init_storage-again_example :
    All
      (λ name.
        (is_empty name ≡ true)
        ⊎ Made (table name) (init_storage demo_account demo_env demo_start).1)
      (table_names demo_env)
    × All
        (λ name.
          (is_empty name ≡ true)
          ⊎ Made (queue name) (init_storage demo_account demo_env demo_start).1)
        (queue_names demo_env)
    × (init_storage demo_account demo_env (init_storage demo_account demo_env demo_start).1
        ≡ (none, (init_storage demo_account demo_env demo_start).1))
init_storage-again_example =
    init_storage-again demo_account Made demo_env demo_start demo_laws starts_clean
