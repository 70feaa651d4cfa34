-- ===== src/Stream/Hub.antt =====
-- The connections of stream-service/api/handlers.go: `stream` registers its channel, and on return takes
-- it out of the registry and then closes it, while messages are broadcast. A channel has a number of
-- its own; the lock makes each operation on the registry one step.
pub mod Received
use prism_plan.Shared.{
  ℕ, ◌≡◌, refl, sym, ap, ◌∙◌, subst, ◌↔◌, inl, inr, List, [], ◌∷◌, none, some, Bool, true, false,
  Str, str_eq, str_eq_refl, str_eq_iff, arith, ◌==◌, ==_iff, Bool-cases, if◌then◌else◌,
}
use prism_plan.Stream.Registry.{
  Channels, Op, enter, leave, run, connected, broadcast, mem, channels_of, mem-channels_of,
}

-- A channel: not made yet, registered for a user, taken out again, or closed.
pub data Phase : Type 0 where
  unmade : Phase
  registered : Str → Phase
  removed : Phase
  closed : Phase

-- `clients` is what the operations on the registry have made, the latest first.
pub record Hub : Type 0 where
  pub ops : List Op
  pub phase : ℕ → Phase
  pub channels : Channels

abbrev pub set_at {ℓ} : {A : Type ℓ} → ℕ → A → (ℕ → A) → ℕ → A
set_at c a f d = if c == d then a else f d

abbrev pub no_connections : Hub
no_connections = record { ops = []; phase = λ c. unmade; channels = λ c. none }

pub data HubStep (h : Hub) : Hub → Type 0 where
  -- `make(chan []byte, 1)` and `addClient`
  connect :
      (u : Str) (c : ℕ)
      → h.phase c ≡ unmade
      → HubStep h (record h { ops = enter u c ∷ h.ops; phase = set_at c (registered u) h.phase })
  -- `removeClient`
  disconnect :
      (u : Str) (c : ℕ)
      → h.phase c ≡ registered u
      → HubStep h (record h { ops = leave u c ∷ h.ops; phase = set_at c removed h.phase })
  -- `close(ch)`
  close_channel :
      (c : ℕ) → h.phase c ≡ removed → HubStep h (record h { phase = set_at c closed h.phase })
  -- `broadcast`
  announce :
      (u msg : Str) → HubStep h (record h { channels = broadcast (run h.ops) u msg h.channels })
  -- `msg := <-ch`
  receive :
      (u : Str) (c : ℕ) (msg : Str)
      → h.phase c ≡ registered u
      → h.channels c ≡ some msg
      → HubStep h (record h { channels = set_at c none h.channels })

pub data HubReach : Hub → Type 0 where
  here : HubReach no_connections
  next : {h k : Hub} → HubReach h → HubStep h k → HubReach k

abbrev pub is_for : Str → Phase → Bool
is_for v unmade = false
is_for v (registered u) = str_eq u v
is_for v removed = false
is_for v closed = false

-- The registry has the channels that are registered.
pub Agrees : Hub → Type 0
Agrees h = (v : Str) (d : ℕ) → connected h.ops v d ≡ is_for v (h.phase d)

-- A step of the phase of `c` keeps the agreement, if it does at `c` and elsewhere.
at_channel :
    (h : Hub) (v : Str) (c d : ℕ) (new : Phase) (b : Bool)
    → (c == d ≡ true → b ≡ is_for v new)
    → (c == d ≡ false → b ≡ is_for v (h.phase d))
    → b ≡ is_for v (set_at c new h.phase d)
at_channel h v c d new b inside elsewhere = elim (Bool-cases (c == d)) [
  | inl e ↦ rw e (inside e)
  | inr e ↦ rw e (elsewhere e)
]

-- The channel is the one that is registered for a user, or not registered.
same_phase :
    (h : Hub) (v : Str) (c d : ℕ) (old : Phase)
    → Agrees h
    → h.phase c ≡ old
    → c == d ≡ true
    → connected h.ops v d ≡ is_for v old
unfolding Agrees
same_phase h v c d old a e s =
    let same : c ≡ d = (==_iff c d).0 s in
    a v d ∙ subst (λ x. is_for v (h.phase x) ≡ is_for v old) same (ap (is_for v) e)

HubStep-Agrees : (h k : Hub) → Agrees h → HubStep h k → Agrees k
unfolding Agrees connected
HubStep-Agrees h k a (connect u c e) = λ v d.
    at_channel h v c d (registered u) _
      (λ s. rw s (ground (arith, same_phase h v c d unmade a e s)))
      (λ s. rw s (ground (arith, a v d)))
HubStep-Agrees h k a (disconnect u c e) = λ v d.
    at_channel h v c d removed _
      (λ s. rw s (ground (arith, same_phase h v c d (registered u) a e s)))
      (λ s. rw s (ground (arith, a v d)))
HubStep-Agrees h k a (close_channel c e) =
    λ v d. at_channel h v c d closed _ (λ s. same_phase h v c d removed a e s) (λ s. a v d)
HubStep-Agrees h k a (announce u msg) = λ v d. a v d
HubStep-Agrees h k a (receive u c msg e m) = λ v d. a v d

pub HubReach-Agrees : (h : Hub) → HubReach h → Agrees h
unfolding Agrees connected
HubReach-Agrees h here = λ v d. refl
HubReach-Agrees k (next {h} r st) = HubStep-Agrees h k (HubReach-Agrees h r) st

is_for-registered : (v : Str) (p : Phase) → is_for v p ≡ true → p ≡ registered v
is_for-registered v unmade e = cc
is_for-registered v (registered u) e = ap (λ s. registered s) ((str_eq_iff u v).0 e)
is_for-registered v removed e = cc
is_for-registered v closed e = cc

-- However entries, returns, closings, broadcasts and receipts are interleaved, a broadcast sends to no
-- channel that is closed or belongs to another user: the channels that the registry has for a user are
-- exactly those that a handler has registered for that user and not yet taken out.
pub broadcast_channels_open :
    (h : Hub) (user_id : Str) (c : ℕ)
    → HubReach h
    → (mem c (channels_of (run h.ops) user_id) ≡ true) ↔ (h.phase c ≡ registered user_id)
unfolding channels_of Agrees
broadcast_channels_open h user_id c r =
    let a = mem-channels_of h.ops user_id c ∙ HubReach-Agrees h r user_id c in
    (
      λ e. is_for-registered user_id (h.phase c) (sym a ∙ e),
      λ e. a ∙ ap (is_for user_id) e ∙ str_eq_refl user_id,
    )
