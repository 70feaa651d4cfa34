-- ===== src/Api/Commands/Keys.antt =====
-- What `finalizeCommands` promises: one key for each command, in order, and consecutive timestamps.
use prism_plan.Shared.{
  ℕ, suc, ◌+◌, ◌^◌, ◌<◌, ◌≡◌, ◌≢◌, refl, sym, ap, ◌∙◌, subst, List, [], ◌∷◌, Str, is_empty_iff, ℤ,
  pos, ◌+ℤ◌, wrap_int64, wrap_int64_self, arith, length, All,
}
use prism_plan.Api.Base36.{format_int_36, format_int_36_injective}
use prism_plan.Api.Timestamps.{first_timestamp, range_pos}
use prism_plan.Api.Commands.{Command, apply_command_metadata, finalize_from, finalize_commands}

-- `cmd` is `raw` stamped with `ts`: its key is `raw`'s, or made from `ts` where `raw` has none; its
-- id is its key; and the rest is `raw`'s.
pub record Stamped (raw : Command) (ts : ℤ) (cmd : Command) (key : Str) : Type 0 where
  pub timestamp : cmd.timestamp ≡ ts
  pub key_kept : raw.idempotency_key ≢ [] → key ≡ raw.idempotency_key
  pub key_made : raw.idempotency_key ≡ [] → key ≡ format_int_36 ts
  pub key_stored : cmd.idempotency_key ≡ key
  pub id_is_key : cmd.id ≡ key
  pub entity_type : cmd.entity_type ≡ raw.entity_type
  pub type : cmd.type ≡ raw.type
  pub payload : cmd.payload ≡ raw.payload

-- The three lists go together, the i-th timestamp being `ts + i`.
abbrev pub AllStamped : ℕ → List Command → List Command → List Str → Type 0
AllStamped ts [] [] [] = Unit {0}
AllStamped ts (r ∷ rs) (c ∷ cs) (k ∷ ks) = Stamped r (pos ts) c k × AllStamped (suc ts) rs cs ks
AllStamped ts _ _ _ = ⊥

apply-Stamped :
    (cmd : Command) (ts : ℤ)
    → Stamped cmd ts (apply_command_metadata cmd ts).0 (apply_command_metadata cmd ts).1
unfolding apply_command_metadata
apply-Stamped cmd ts = record {
  timestamp = refl;
  key_kept = λ h. ground (arith, (is_empty_iff cmd.idempotency_key).0);
  key_made = λ h. ground (arith, (is_empty_iff cmd.idempotency_key).1);
  key_stored = refl;
  id_is_key = refl;
  entity_type = refl;
  type = refl;
  payload = refl;
}

sum_pos : (s i : ℕ) → s + i < 2 ^ 63 → wrap_int64 (pos s +ℤ pos i) ≡ pos (s + i)
sum_pos s i h = ground (arith, wrap_int64_self (pos (s + i)))

finalize_from-AllStamped :
    (s i : ℕ) (cmds : List Command)
    → s + i + length cmds < 2 ^ 63
    → AllStamped (s + i) cmds (finalize_from (pos s) i cmds).0 (finalize_from (pos s) i cmds).1
unfolding finalize_from
finalize_from-AllStamped s i [] h = tt
finalize_from-AllStamped s i (cmd ∷ cmds) h = (
  subst (λ t. Stamped cmd t (apply_command_metadata cmd ts).0 (apply_command_metadata cmd ts).1)
      (sum_pos s i (omega arith)) (apply-Stamped cmd ts),
  subst
      (λ k.
        AllStamped k cmds (finalize_from (pos s) (suc i) cmds).0
          (finalize_from (pos s) (suc i) cmds).1)
      (omega arith) (finalize_from-AllStamped s (suc i) cmds (omega arith)),
)
  where
    ts : ℤ
    ts = wrap_int64 (pos s +ℤ pos i)

finalize_commands-eq :
    (now last : ℕ) (cmd : Command) (cmds : List Command)
    → first_timestamp now last + length (cmd ∷ cmds) < 2 ^ 63
    → finalize_commands (pos now) (pos last) (cmd ∷ cmds) ≡ (
      finalize_from (pos (first_timestamp now last)) 0 (cmd ∷ cmds),
      pos (first_timestamp now last + length cmds),
    )
unfolding finalize_commands
finalize_commands-eq now last cmd cmds h =
    ap (λ (p : ℤ × ℤ). (finalize_from p.0 0 (cmd ∷ cmds), p.1)) (range_pos now last (length cmds) h)

-- A batch that fits in int64 is stamped in order with consecutive timestamps, the first of which is
-- after `last` and not before `now`; every command gets its key, which is also its id, and keeps the
-- rest; and the stored timestamp becomes that of the last command.
pub finalize_commands-AllStamped :
    (now last : ℕ) (cmd : Command) (cmds : List Command)
    → first_timestamp now last + length (cmd ∷ cmds) < 2 ^ 63
    → AllStamped
        (first_timestamp now last)
        (cmd ∷ cmds)
        (finalize_commands (pos now) (pos last) (cmd ∷ cmds)).0.0
        (finalize_commands (pos now) (pos last) (cmd ∷ cmds)).0.1
      × ((finalize_commands (pos now) (pos last) (cmd ∷ cmds)).1
          ≡ pos (first_timestamp now last + length cmds))
finalize_commands-AllStamped now last cmd cmds h =
    let t : ℕ = first_timestamp now last in
    rw (finalize_commands-eq now last cmd cmds h) (
      subst
          (λ k.
            AllStamped k (cmd ∷ cmds) (finalize_from (pos t) 0 (cmd ∷ cmds)).0
              (finalize_from (pos t) 0 (cmd ∷ cmds)).1)
          (omega arith) (finalize_from-AllStamped t 0 (cmd ∷ cmds) (omega arith)),
      refl,
    )

-- No member stands twice.
abbrev pub Distinct : List Str → Type 0
Distinct [] = Unit {0}
Distinct (k ∷ ks) = All (λ j. k ≢ j) ks × Distinct ks

abbrev pub NoKey : Command → Type 0
NoKey cmd = cmd.idempotency_key ≡ []

later_keys :
    (t u : ℕ) (raws cmds : List Command) (keys : List Str)
    → t < u
    → u + length raws < 2 ^ 63
    → All NoKey raws
    → AllStamped u raws cmds keys
    → All (λ j. format_int_36 (pos t) ≢ j) keys
later_keys t u [] [] [] lt fits none_given st = tt
later_keys t u [] [] (k ∷ ks) lt fits none_given st = elim st [ ]
later_keys t u [] (c ∷ cs) keys lt fits none_given st = elim st [ ]
later_keys t u (r ∷ rs) [] keys lt fits none_given st = elim st [ ]
later_keys t u (r ∷ rs) (c ∷ cs) [] lt fits none_given st = elim st [ ]
later_keys t u (r ∷ rs) (c ∷ cs) (k ∷ ks) lt fits none_given st = (
  λ e. absurd (
      omega (
        arith,
        format_int_36_injective t u (omega arith) (omega arith) (e ∙ st.0.key_made none_given.0),
      )),
  later_keys t (suc u) rs cs ks (omega arith) (omega arith) none_given.1 st.1,
)

stamped_keys-Distinct :
    (t : ℕ) (raws cmds : List Command) (keys : List Str)
    → t + length raws < 2 ^ 63
    → All NoKey raws
    → AllStamped t raws cmds keys
    → Distinct keys
stamped_keys-Distinct t [] [] [] fits none_given st = tt
stamped_keys-Distinct t [] [] (k ∷ ks) fits none_given st = elim st [ ]
stamped_keys-Distinct t [] (c ∷ cs) keys fits none_given st = elim st [ ]
stamped_keys-Distinct t (r ∷ rs) [] keys fits none_given st = elim st [ ]
stamped_keys-Distinct t (r ∷ rs) (c ∷ cs) [] fits none_given st = elim st [ ]
stamped_keys-Distinct t (r ∷ rs) (c ∷ cs) (k ∷ ks) fits none_given st = (
  subst (λ x. All (λ j. x ≢ j) ks) (sym (st.0.key_made none_given.0))
      (later_keys t (suc t) rs cs ks (omega arith) (omega arith) none_given.1 st.1),
  stamped_keys-Distinct (suc t) rs cs ks (omega arith) none_given.1 st.1,
)

-- In a batch that fits in int64 and in which no command comes with a key, all get different keys.
pub finalize_commands-Distinct :
    (now last : ℕ) (cmd : Command) (cmds : List Command)
    → first_timestamp now last + length (cmd ∷ cmds) < 2 ^ 63
    → All NoKey (cmd ∷ cmds)
    → Distinct (finalize_commands (pos now) (pos last) (cmd ∷ cmds)).0.1
finalize_commands-Distinct now last cmd cmds h none_given =
    stamped_keys-Distinct (first_timestamp now last) (cmd ∷ cmds) _ _ h none_given
      (finalize_commands-AllStamped now last cmd cmds h).0
