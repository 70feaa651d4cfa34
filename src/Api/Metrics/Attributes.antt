-- ===== src/Api/Metrics/Attributes.antt =====
-- The span and the log are given the same attributes.
use prism_plan.Shared.{
  ◌≡◌, refl, sym, ap, ◌∙◌, inl, inr, List, [], ◌∷◌, ◌++◌, Option, none, some, Bool, true, false,
  not, ◌&&◌, ◌||◌, Str, lit, str_eq, is_empty, str_eq_iff, arith, Bool-cases, if◌then◌else◌,
}
use prism_plan.Api.Metrics.{
  TaskLogRecord, Value, text, number, flag, KeyValue, duration_to_millis, positive, when,
  key_values, AttributesMap, empty_map, assign, assign_when, attributes_map,
}

-- The value of the first pair with the key.
abbrev pub value_of : List KeyValue → AttributesMap
value_of [] key = none
value_of ((k, v) ∷ kvs) key = if str_eq k key then some v else value_of kvs key

abbrev pub has_key : Str → List KeyValue → Bool
has_key key [] = false
has_key key ((k, v) ∷ kvs) = str_eq k key || has_key key kvs

-- No key comes twice.
abbrev pub distinct_keys : List KeyValue → Bool
distinct_keys [] = true
distinct_keys ((k, v) ∷ kvs) = not (has_key k kvs) && distinct_keys kvs

value_of-absent :
    (key : Str) (kvs : List KeyValue) → has_key key kvs ≡ false → value_of kvs key ≡ none
value_of-absent key [] h = refl
value_of-absent key ((k, v) ∷ kvs) h = ground (arith, value_of-absent key kvs)

abbrev first_else : Option Value → Option Value → Option Value
first_else none other = other
first_else (some v) other = some v

-- The pairs that are chosen, in order.
abbrev select : List (Bool × KeyValue) → List KeyValue
select [] = []
select ((b, kv) ∷ s) = when b kv ++ select s

abbrev all_of : List (Bool × KeyValue) → List KeyValue
all_of [] = []
all_of ((b, kv) ∷ s) = kv ∷ all_of s

has_key-select :
    (key : Str) (s : List (Bool × KeyValue))
    → has_key key (all_of s) ≡ false
    → has_key key (select s) ≡ false
has_key-select key [] h = refl
has_key-select key ((true, (k, v)) ∷ s) h = ground (arith, has_key-select key s)
has_key-select key ((false, (k, v)) ∷ s) h = ground (arith, has_key-select key s)

distinct_keys-select :
    (s : List (Bool × KeyValue)) → distinct_keys (all_of s) ≡ true → distinct_keys (select s) ≡ true
distinct_keys-select [] h = refl
distinct_keys-select ((true, (k, v)) ∷ s) h =
    ground (arith, distinct_keys-select s, has_key-select k s)
distinct_keys-select ((false, (k, v)) ∷ s) h = ground (arith, distinct_keys-select s)

-- The assignments of the pairs that are chosen, in order.
abbrev assign_chosen : List (Bool × KeyValue) → AttributesMap → AttributesMap
assign_chosen [] attrs = attrs
assign_chosen ((b, kv) ∷ s) attrs = assign_chosen s (assign_when b kv attrs)

value_of-assigned :
    (k key : Str) (v : Value) (kvs : List KeyValue) (attrs : AttributesMap)
    → has_key k kvs ≡ false
    → first_else (value_of kvs key) (assign (k, v) attrs key)
      ≡ first_else (value_of ((k, v) ∷ kvs) key) (attrs key)
value_of-assigned k key v kvs attrs h = elim (Bool-cases (str_eq k key)) [
  | inl e ↦ rw (e, ap (value_of kvs) (sym ((str_eq_iff k key).0 e)) ∙ value_of-absent k kvs h) refl
  | inr e ↦ rw e refl
]

assign_chosen-value_of :
    (s : List (Bool × KeyValue)) (attrs : AttributesMap) (key : Str)
    → distinct_keys (all_of s) ≡ true
    → assign_chosen s attrs key ≡ first_else (value_of (select s) key) (attrs key)
assign_chosen-value_of [] attrs key d = refl
assign_chosen-value_of ((true, (k, v)) ∷ s) attrs key d =
    assign_chosen-value_of s (assign (k, v) attrs) key (ground (arith, d))
    ∙ value_of-assigned k key v (select s) attrs (has_key-select k s (ground (arith, d)))
assign_chosen-value_of ((false, (k, v)) ∷ s) attrs key d =
    assign_chosen-value_of s attrs key (ground (arith, d))

when-nil : (b : Bool) (kv : KeyValue) → when b kv ++ [] ≡ when b kv
when-nil true kv = refl
when-nil false kv = refl

first_else-none : (o : Option Value) → first_else o none ≡ o
first_else-none none = refl
first_else-none (some v) = refl

-- The attributes of a request, and whether they are given.
abbrev attributes_of : TaskLogRecord → List (Bool × KeyValue)
attributes_of r =
    (true, (lit "http.route", text (lit "/api/tasks")))
    ∷ (true, (lit "http.status_code", number r.status))
    ∷ (true, (lit "prism.tasks.total_ms", duration_to_millis r.total))
    ∷ (true, (lit "prism.tasks.page_token_provided", flag r.page_token_provided))
    ∷ (true, (lit "prism.tasks.tasks_returned", number r.tasks_returned))
    ∷ (true, (lit "prism.tasks.has_next_page", flag r.has_next_page))
    ∷ (true, (lit "prism.tasks.request_start_ns", number r.request_start_ns))
    ∷ (positive r.auth, (lit "prism.tasks.auth_ms", duration_to_millis r.auth))
    ∷ (positive r.fetch, (lit "prism.tasks.fetch_ms", duration_to_millis r.fetch))
    ∷ (positive r.encode, (lit "prism.tasks.encode_ms", duration_to_millis r.encode))
    ∷ (not (is_empty r.error_stage), (lit "prism.tasks.error_stage", text r.error_stage))
    ∷ (not (is_empty r.error_message), (lit "error.message", text r.error_message))
    ∷ []

key_values-eq_select : (r : TaskLogRecord) → key_values r ≡ select (attributes_of r)
unfolding key_values
key_values-eq_select r =
    rw (when-nil (not (is_empty r.error_message)) (lit "error.message", text r.error_message)) refl

attributes_of-distinct : (r : TaskLogRecord) → distinct_keys (all_of (attributes_of r)) ≡ true
unfolding str_eq
attributes_of-distinct r = refl

attributes_map-value_of :
    (r : TaskLogRecord) (key : Str) → attributes_map r key ≡ value_of (select (attributes_of r)) key
unfolding attributes_map
attributes_map-value_of r key =
    assign_chosen-value_of (attributes_of r) empty_map key (attributes_of-distinct r)
    ∙ first_else-none (value_of (select (attributes_of r)) key)

-- The attributes that the span is given have no key twice, and under every key they have the value that
-- the log's map of attributes has.
pub key_values-attributes_map :
    (r : TaskLogRecord)
    → (distinct_keys (key_values r) ≡ true)
      × ((key : Str) → value_of (key_values r) key ≡ attributes_map r key)
key_values-attributes_map r = (
  rw (key_values-eq_select r) (distinct_keys-select (attributes_of r) (attributes_of-distinct r)),
  λ key. rw (key_values-eq_select r) (sym (attributes_map-value_of r key)),
)
