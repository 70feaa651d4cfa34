-- ===== src/Stream/Registry.antt =====
-- stream-service/api/handlers.go: the connected clients of each user, and the broadcast to them. A
-- channel has a number, and holds at most one message.
use prism_plan.Shared.{
  ℕ, ◌≡◌, ◌≢◌, refl, ap, ◌∙◌, subst, inl, inr, List, [], ◌∷◌, Option, none, some, Bool, true, false,
  not, ◌&&◌, ◌||◌, Str, str_eq, arith, ◌==◌, Bool-cases, if◌then◌else◌,
}
use prism_plan.ReadModel.Tasks.Project.{or_kept}

-- `clients`; the inner map is the list of its keys.
abbrev pub Clients : Type 0
Clients = Str → Option (List ℕ)

abbrev pub Channels : Type 0
Channels = ℕ → Option Str

unfoldable pub mem : ℕ → List ℕ → Bool
mem c [] = false
mem c (d ∷ ds) = d == c || mem c ds

unfoldable pub insert : ℕ → List ℕ → List ℕ
unfolding mem
insert c ds = if mem c ds then ds else c ∷ ds

unfoldable pub delete : ℕ → List ℕ → List ℕ
delete c [] = []
delete c (d ∷ ds) = if d == c then delete c ds else d ∷ delete c ds

unfoldable pub channels_of : Clients → Str → List ℕ
channels_of clients user_id = or_kept (clients user_id) []

abbrev nonempty : List ℕ → Option (List ℕ)
nonempty [] = none
nonempty (c ∷ cs) = some (c ∷ cs)

abbrev pub without : ℕ → Option (List ℕ) → Option (List ℕ)
without c none = none
without c (some m) = nonempty (delete c m)

-- `addClient`
unfoldable pub add_client : Str → ℕ → Clients → Clients
unfolding channels_of insert
add_client user_id c clients v =
    if str_eq user_id v then some (insert c (channels_of clients v)) else clients v

-- `removeClient`
unfoldable pub remove_client : Str → ℕ → Clients → Clients
unfolding delete
remove_client user_id c clients v = if str_eq user_id v then without c (clients v) else clients v

-- A send that gives up where the channel is full.
unfoldable pub offer : Str → ℕ → Channels → Channels
offer msg c channels d = if c == d then some (or_kept (channels d) msg) else channels d

unfoldable pub offer_all : Str → List ℕ → Channels → Channels
unfolding offer
offer_all msg [] channels = channels
offer_all msg (c ∷ cs) channels = offer_all msg cs (offer msg c channels)

-- `broadcast`
unfoldable pub broadcast : Clients → Str → Str → Channels → Channels
unfolding offer_all channels_of
broadcast clients user_id msg channels = offer_all msg (channels_of clients user_id) channels

offer_all-mem :
    (msg : Str) (cs : List ℕ) (channels : Channels) (d : ℕ)
    → offer_all msg cs channels d
      ≡ (if mem d cs then some (or_kept (channels d) msg) else channels d)
unfolding offer_all mem
offer_all-mem msg [] channels d = refl
offer_all-mem msg (c ∷ cs) channels d =
    offer_all-mem msg cs (offer msg c channels) d ∙ offered (c == d) (mem d cs) (channels d)
  where
    offered :
        (here later : Bool) (old : Option Str)
        → (if later
            then some (or_kept (if here then some (or_kept old msg) else old) msg)
            else (if here then some (or_kept old msg) else old))
          ≡ (if here || later then some (or_kept old msg) else old)
    offered true true none = refl
    offered true true (some m) = refl
    offered true false old = refl
    offered false later old = refl

-- A broadcast reaches every channel of its user that is empty; a full channel keeps its message, and
-- no other user's channel is touched.
pub broadcast-mem :
    (clients : Clients) (user_id msg : Str) (channels : Channels) (d : ℕ)
    → broadcast clients user_id msg channels d ≡ (
        if mem d (channels_of clients user_id) then some (or_kept (channels d) msg) else channels d)
unfolding broadcast
broadcast-mem clients user_id msg channels d =
    offer_all-mem msg (channels_of clients user_id) channels d

-- What a handler does to the registry: `addClient` on entry, `removeClient` on return.
pub data Op : Type 0 where
  enter : Str → ℕ → Op
  leave : Str → ℕ → Op

unfoldable pub step : Op → Clients → Clients
unfolding add_client remove_client
step (enter u c) clients = add_client u c clients
step (leave u c) clients = remove_client u c clients

-- The registry after the operations, the latest first.
unfoldable pub run : List Op → Clients
unfolding step
run [] v = none
run (op ∷ ops) v = step op (run ops) v

-- Whether the latest operation on a channel of a user was its entry.
unfoldable pub connected : List Op → Str → ℕ → Bool
connected [] v d = false
connected (enter u c ∷ ops) v d = (str_eq u v && c == d) || connected ops v d
connected (leave u c ∷ ops) v d = not (str_eq u v && c == d) && connected ops v d

mem-insert : (c : ℕ) (ds : List ℕ) (d : ℕ) → mem d (insert c ds) ≡ (c == d || mem d ds)
unfolding mem insert
mem-insert c ds d = elim (Bool-cases (mem c ds)) [
  | inl h ↦ rw h (elim (Bool-cases (c == d)) [
    | inl e ↦ rw e (let same : c ≡ d = ground arith in subst (λ x. mem x ds ≡ true) same h)
    | inr e ↦ rw e refl
  ])
  | inr h ↦ rw h refl
]

mem-delete : (c : ℕ) (ds : List ℕ) (d : ℕ) → mem d (delete c ds) ≡ (not (c == d) && mem d ds)
unfolding mem delete
mem-delete c [] d = ground arith
mem-delete c (x ∷ ds) d = ground (arith, mem-delete c ds d)

abbrev listed : Option (List ℕ) → ℕ → Bool
unfolding mem
listed none d = false
listed (some m) d = mem d m

listed-kept : (o : Option (List ℕ)) (d : ℕ) → mem d (or_kept o []) ≡ listed o d
unfolding mem
listed-kept none d = refl
listed-kept (some m) d = refl

listed-nonempty : (ds : List ℕ) (d : ℕ) → listed (nonempty ds) d ≡ mem d ds
unfolding mem
listed-nonempty [] d = refl
listed-nonempty (c ∷ ds) d = refl

listed-without :
    (c : ℕ) (o : Option (List ℕ)) (d : ℕ) → listed (without c o) d ≡ (not (c == d) && listed o d)
unfolding mem
listed-without c none d = ground arith
listed-without c (some m) d = listed-nonempty (delete c m) d ∙ mem-delete c m d

nonempty-some : (ds : List ℕ) → nonempty ds ≢ some []
nonempty-some [] q = cc
nonempty-some (c ∷ ds) q = cc (ap (λ o. or_kept o []) q)

without-some : (c : ℕ) (o : Option (List ℕ)) → without c o ≢ some []
without-some c none q = cc
without-some c (some m) q = nonempty-some (delete c m) q

insert-some : (c : ℕ) (ds : List ℕ) → insert c ds ≢ []
unfolding insert mem
insert-some c [] q = cc
insert-some c (d ∷ ds) q = ground arith

-- What a registry holds of one user after the operations.
abbrev Tells : List Op → Clients → Str → Type 0
Tells ops clients v = ((d : ℕ) → listed (clients v) d ≡ connected ops v d) × (clients v ≢ some [])

enter-Tells :
    (u : Str) (c : ℕ) (ops : List Op) (clients : Clients) (v : Str)
    → Tells ops clients v
    → Tells (enter u c ∷ ops) (add_client u c clients) v
unfolding add_client connected channels_of
enter-Tells u c ops clients v h = elim (Bool-cases (str_eq u v)) [
  | inl e ↦ rw e (
    λ d.
        mem-insert c (or_kept (clients v) []) d
        ∙ ap (λ b. (c == d) || b) (listed-kept (clients v) d ∙ h.0 d),
    λ q. insert-some c (or_kept (clients v) []) (ap (λ o. or_kept o []) q),
  )
  | inr e ↦ rw e h
]

leave-Tells :
    (u : Str) (c : ℕ) (ops : List Op) (clients : Clients) (v : Str)
    → Tells ops clients v
    → Tells (leave u c ∷ ops) (remove_client u c clients) v
unfolding remove_client connected
leave-Tells u c ops clients v h = elim (Bool-cases (str_eq u v)) [
  | inl e ↦ rw e (
    λ d. listed-without c (clients v) d ∙ ap (λ b. not (c == d) && b) (h.0 d),
    without-some c (clients v),
  )
  | inr e ↦ rw e h
]

run-Tells : (ops : List Op) (v : Str) → Tells ops (run ops) v
unfolding run connected
run-Tells [] v = (λ d. refl, λ q. cc)
run-Tells (enter u c ∷ ops) v = enter-Tells u c ops (run ops) v (run-Tells ops v)
run-Tells (leave u c ∷ ops) v = leave-Tells u c ops (run ops) v (run-Tells ops v)

pub mem-channels_of :
    (ops : List Op) (user_id : Str) (d : ℕ)
    → mem d (channels_of (run ops) user_id) ≡ connected ops user_id d
unfolding channels_of
mem-channels_of ops user_id d = listed-kept (run ops user_id) d ∙ (run-Tells ops user_id).0 d

-- After any entries and returns of handlers, the registry has exactly the channels whose latest
-- operation is an entry, and no user without a channel stays behind; so a broadcast reaches exactly
-- the channels of its user that are connected then, where they are empty.
pub broadcast-connected :
    (ops : List Op) (user_id msg : Str) (channels : Channels) (d : ℕ)
    → (broadcast (run ops) user_id msg channels d
        ≡ (if connected ops user_id d then some (or_kept (channels d) msg) else channels d))
      × (run ops user_id ≢ some [])
unfolding channels_of
broadcast-connected ops user_id msg channels d =
    let tells = run-Tells ops user_id in
    (
      broadcast-mem (run ops) user_id msg channels d
          ∙ ap (λ (b : Bool). if b then some (or_kept (channels d) msg) else channels d)
              (mem-channels_of ops user_id d),
      tells.1,
    )
