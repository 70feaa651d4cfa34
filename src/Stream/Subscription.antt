-- ===== src/Stream/Subscription.antt =====
-- The loop of `SubscribeUpdates` of stream-service/domain/subscription.go, and the broadcasts that it makes.
use prism_plan.Shared.{
  ℕ, ◌≡◌, refl, sym, ap, ◌∙◌, List, [], ◌∷◌, ◌++◌, map, Option, none, some, Bool, true, false, Str,
  str_eq, if◌then◌else◌,
}
use prism_plan.ReadModel.Tasks.Project.{or_kept}
use prism_plan.Stream.Messages.{Update, Payload, message_of}
use prism_plan.Stream.Registry.{
  Clients, Channels, Op, run, connected, broadcast, broadcast-connected,
}

-- What the select of the loop meets: the end of the context, a closed channel, or a message.
pub data Signal : Type 0 where
  cancelled : Signal
  subscription_closed : Signal
  published : Str → Signal

-- `json.Unmarshal` into an `Event`, and `json.Marshal` of the entity type and the data.
pub record Codec : Type 0 where
  pub decode : Str → Option Update
  pub marshal : Str × Payload → Option Str

abbrev pub addressed : Str → Option Str → Option (Str × Str)
addressed user_id none = none
addressed user_id (some data_text) = some (user_id, data_text)

abbrev pub marshalled : Codec → Str → Option (Str × Payload) → Option (Str × Str)
marshalled codec user_id none = none
marshalled codec user_id (some payload) = addressed user_id (codec.marshal payload)

abbrev pub announcement_of : Codec → Option Update → Option (Str × Str)
announcement_of codec none = none
announcement_of codec (some ev) = marshalled codec ev.user_id (message_of ev)

abbrev pub and_then_rest {ℓ} : {A : Type ℓ} → Option A → List A → List A
and_then_rest none rest = rest
and_then_rest (some a) rest = a ∷ rest

-- `SubscribeUpdates`: the calls of `broadcast`, each with a user and the text of a message.
unfoldable pub subscribe_updates : Codec → List Signal → List (Str × Str)
subscribe_updates codec [] = []
subscribe_updates codec (cancelled ∷ signals) = []
subscribe_updates codec (subscription_closed ∷ signals) = []
subscribe_updates codec (published text ∷ signals) =
    and_then_rest (announcement_of codec (codec.decode text)) (subscribe_updates codec signals)

-- The broadcasts in turn, while no connection enters, leaves or reads.
unfoldable pub broadcast_all : Clients → List (Str × Str) → Channels → Channels
unfolding broadcast
broadcast_all clients [] channels = channels
broadcast_all clients ((user_id, msg) ∷ calls) channels =
    broadcast_all clients calls (broadcast clients user_id msg channels)

abbrev pub add_own : Str → Option (Str × Str) → List Str → List Str
add_own v none msgs = msgs
add_own v (some (user_id, msg)) msgs = if str_eq user_id v then msg ∷ msgs else msgs

-- The messages that are for a user, of texts published one after another.
unfoldable pub messages_for : Codec → Str → List Str → List Str
messages_for codec v [] = []
messages_for codec v (text ∷ texts) =
    add_own v (announcement_of codec (codec.decode text)) (messages_for codec v texts)

-- What a channel holds after messages that nobody reads: the first.
abbrev pub holds : Option Str → List Str → Option Str
holds (some msg) msgs = some msg
holds none [] = none
holds none (msg ∷ msgs) = some msg

-- The loop ends with these, or goes on waiting.
abbrev pub Ends : List Signal → Type 0
Ends [] = Unit {0}
Ends (cancelled ∷ signals) = Unit {0}
Ends (subscription_closed ∷ signals) = Unit {0}
Ends (published text ∷ signals) = ⊥

holds-kept :
    (o : Option Str) (msg : Str) (msgs : List Str)
    → holds (some (or_kept o msg)) msgs ≡ holds o (msg ∷ msgs)
holds-kept none msg msgs = refl
holds-kept (some m) msg msgs = refl

holds_nil : (o : Option Str) → holds o [] ≡ o
holds_nil none = refl
holds_nil (some msg) = refl

module _ (codec : Codec) (ops : List Op) (v : Str) (d : ℕ)
    (own : (u : Str) → connected ops u d ≡ str_eq u v) (ending : List Signal)
    (ends : Ends ending) where
  ended : (e : List Signal) → Ends e → subscribe_updates codec e ≡ []
  unfolding subscribe_updates
  ended [] h = refl
  ended (cancelled ∷ signals) h = refl
  ended (subscription_closed ∷ signals) h = refl
  ended (published text ∷ signals) h = elim h [ ]

  after_broadcast :
      (u msg : Str) (channels : Channels)
      → broadcast (run ops) u msg channels d
        ≡ (if str_eq u v then some (or_kept (channels d) msg) else channels d)
  after_broadcast u msg channels =
      (broadcast-connected ops u msg channels d).0
      ∙ ap (λ (b : Bool). if b then some (or_kept (channels d) msg) else channels d) (own u)

  abbrev calls_of : List Str → List (Str × Str)
  calls_of texts = subscribe_updates codec (map (λ t. published t) texts ++ ending)

  holds-if :
      (b : Bool) (o : Option Str) (msg : Str) (msgs : List Str)
      → holds (if b then some (or_kept o msg) else o) msgs
        ≡ holds o (if b then msg ∷ msgs else msgs)
  holds-if true o msg msgs = holds-kept o msg msgs
  holds-if false o msg msgs = refl

  call-holds :
      (o : Option (Str × Str)) (calls : List (Str × Str)) (rest : List Str) (channels : Channels)
      → ((ch : Channels) → broadcast_all (run ops) calls ch d ≡ holds (ch d) rest)
      → broadcast_all (run ops) (and_then_rest o calls) channels d
        ≡ holds (channels d) (add_own v o rest)
  unfolding broadcast_all
  call-holds none calls rest channels later = later channels
  call-holds (some (u, msg)) calls rest channels later =
      later (broadcast (run ops) u msg channels)
      ∙ ap (λ o. holds o rest) (after_broadcast u msg channels)
      ∙ holds-if (str_eq u v) (channels d) msg rest

  -- A channel that is connected for one user holds, after the loop has met any messages and nobody has
  -- read, what it held before or else the first of the messages for that user: a text that does not
  -- decode, that makes no message, or that is for another user is passed over, and ends nothing.
  pub subscribe_updates-holds :
      (texts : List Str) (channels : Channels)
      → broadcast_all
          (run ops)
          (subscribe_updates codec (map (λ t. published t) texts ++ ending))
          channels
          d
        ≡ holds (channels d) (messages_for codec v texts)
  unfolding subscribe_updates broadcast_all messages_for
  subscribe_updates-holds [] channels =
      ap (λ calls. broadcast_all (run ops) calls channels d) (ended ending ends)
      ∙ sym (holds_nil (channels d))
  subscribe_updates-holds (text ∷ texts) channels =
      call-holds (announcement_of codec (codec.decode text)) (calls_of texts)
        (messages_for codec v texts) channels (subscribe_updates-holds texts)
