-- ===== src/Stream/Hub/Received.antt =====
-- What the connections of stream-service receive, over a run of the hub.
use prism_plan.Shared.{
  length, ◌+◌, arith, ℕ, ◌≡◌, refl, sym, ap, ◌∙◌, subst, List, [], ◌∷◌, Option, none, some, Bool,
  true, false, Str, ◌==◌, ==_iff, if◌then◌else◌,
}
use mathlib.Core.List.{Sublist}
use mathlib.Core.List.Sublist
use prism_plan.ReadModel.Tasks.Project.{or_kept}
use prism_plan.Stream.Registry.{run, broadcast, mem-channels_of, broadcast-mem}
use prism_plan.Stream.Hub.{
  Hub, HubReach, here, next, connect, disconnect, close_channel, announce, receive, is_for, Agrees,
  HubReach-Agrees,
}

-- The messages that were announced for the user of the channel while it was registered, the latest
-- first.
unfoldable pub sent_to : {h : Hub} → HubReach h → ℕ → List Str
sent_to here d = []
sent_to (next {h} r (announce u msg)) d =
    if is_for u (h.phase d) then msg ∷ sent_to r d else sent_to r d
sent_to (next r (connect u c e)) d = sent_to r d
sent_to (next r (disconnect u c e)) d = sent_to r d
sent_to (next r (close_channel c e)) d = sent_to r d
sent_to (next r (receive u c msg e m)) d = sent_to r d

-- The messages that were received from the channel, the latest first.
unfoldable pub received_from : {h : Hub} → HubReach h → ℕ → List Str
received_from here d = []
received_from (next r (receive u c msg e m)) d =
    if c == d then msg ∷ received_from r d else received_from r d
received_from (next r (connect u c e)) d = received_from r d
received_from (next r (disconnect u c e)) d = received_from r d
received_from (next r (close_channel c e)) d = received_from r d
received_from (next r (announce u msg)) d = received_from r d

abbrev unless_empty : Option Str → Str → List Str → List Str
unless_empty none msg msgs = msgs
unless_empty (some m) msg msgs = msg ∷ msgs

-- The messages that were announced for the user of the channel while another one waited in it, the
-- latest first.
unfoldable pub dropped_at : {h : Hub} → HubReach h → ℕ → List Str
dropped_at here d = []
dropped_at (next {h} r (announce u msg)) d =
    if is_for u (h.phase d)
    then unless_empty (h.channels d) msg (dropped_at r d)
    else dropped_at r d
dropped_at (next r (connect u c e)) d = dropped_at r d
dropped_at (next r (disconnect u c e)) d = dropped_at r d
dropped_at (next r (close_channel c e)) d = dropped_at r d
dropped_at (next r (receive u c msg e m)) d = dropped_at r d

-- With the message that waits in the channel.
abbrev pub and_waiting : Option Str → List Str → List Str
and_waiting none msgs = msgs
and_waiting (some msg) msgs = msg ∷ msgs

offered :
    (o : Option Str) (msg : Str) (got sent : List Str)
    → Sublist (and_waiting o got) sent
    → Sublist (and_waiting (some (or_kept o msg)) got) (msg ∷ sent)
offered none msg got sent s = Sublist.cons-cons msg s
offered (some m) msg got sent s = Sublist.cons msg s

announced :
    (h : Hub) (u msg : Str) (d : ℕ)
    → Agrees h
    → broadcast (run h.ops) u msg h.channels d
      ≡ (if is_for u (h.phase d) then some (or_kept (h.channels d) msg) else h.channels d)
unfolding Agrees
announced h u msg d a =
    broadcast-mem (run h.ops) u msg h.channels d
    ∙ ap (λ (b : Bool). if b then some (or_kept (h.channels d) msg) else h.channels d)
        (mem-channels_of h.ops u d ∙ a u d)

announce-Sublist :
    (b : Bool) (o o' : Option Str) (msg : Str) (got sent : List Str)
    → o' ≡ (if b then some (or_kept o msg) else o)
    → Sublist (and_waiting o got) sent
    → Sublist (and_waiting o' got) (if b then msg ∷ sent else sent)
announce-Sublist true o o' msg got sent e s =
    subst (λ x. Sublist (and_waiting x got) (msg ∷ sent)) (sym e) (offered o msg got sent s)
announce-Sublist false o o' msg got sent e s =
    subst (λ x. Sublist (and_waiting x got) sent) (sym e) s

receive-Sublist :
    (b : Bool) (o : Option Str) (msg : Str) (got sent : List Str)
    → (b ≡ true → o ≡ some msg)
    → Sublist (and_waiting o got) sent
    → Sublist (and_waiting (if b then none else o) (if b then msg ∷ got else got)) sent
receive-Sublist true o msg got sent e s = subst (λ x. Sublist (and_waiting x got) sent) (e refl) s
receive-Sublist false o msg got sent e s = s

announce-length :
    (b : Bool) (o o' : Option Str) (msg : Str) (got sent dropped : List Str)
    → o' ≡ (if b then some (or_kept o msg) else o)
    → length sent ≡ length (and_waiting o got) + length dropped
    → length (if b then msg ∷ sent else sent)
      ≡ length (and_waiting o' got) + length (if b then unless_empty o msg dropped else dropped)
announce-length true none o' msg got sent dropped e s =
    subst (λ x. length (msg ∷ sent) ≡ length (and_waiting x got) + length dropped) (sym e)
      (omega (arith, s))
announce-length true (some m) o' msg got sent dropped e s =
    subst (λ x. length (msg ∷ sent) ≡ length (and_waiting x got) + length (msg ∷ dropped)) (sym e)
      (omega (arith, s))
announce-length false o o' msg got sent dropped e s =
    subst (λ x. length sent ≡ length (and_waiting x got) + length dropped) (sym e) s

receive-length :
    (b : Bool) (o : Option Str) (msg : Str) (got sent dropped : List Str)
    → (b ≡ true → o ≡ some msg)
    → length sent ≡ length (and_waiting o got) + length dropped
    → length sent
      ≡ length (and_waiting (if b then none else o) (if b then msg ∷ got else got)) + length dropped
receive-length true o msg got sent dropped e s =
    subst (λ x. length sent ≡ length (and_waiting x got) + length dropped) (e refl) s
receive-length false o msg got sent dropped e s = s

length-sent_to :
    (h : Hub) (r : HubReach h) (c : ℕ)
    → length (sent_to r c)
      ≡ length (and_waiting (h.channels c) (received_from r c)) + length (dropped_at r c)
unfolding sent_to received_from dropped_at
length-sent_to h here d = refl
length-sent_to k (next {h} r (announce u msg)) d =
    announce-length (is_for u (h.phase d)) (h.channels d) _ msg (received_from r d) (sent_to r d)
      (dropped_at r d) (announced h u msg d (HubReach-Agrees h r)) (length-sent_to h r d)
length-sent_to k (next {h} r (connect u c e)) d = length-sent_to h r d
length-sent_to k (next {h} r (disconnect u c e)) d = length-sent_to h r d
length-sent_to k (next {h} r (close_channel c e)) d = length-sent_to h r d
length-sent_to k (next {h} r (receive u c msg e m)) d =
    receive-length (c == d) (h.channels d) msg (received_from r d) (sent_to r d) (dropped_at r d)
      (λ s. subst (λ x. h.channels x ≡ some msg) ((==_iff c d).0 s) m) (length-sent_to h r d)

in_order :
    (h : Hub) (r : HubReach h) (c : ℕ)
    → Sublist (and_waiting (h.channels c) (received_from r c)) (sent_to r c)
unfolding sent_to received_from
in_order h here d = Sublist.refl []
in_order k (next {h} r (announce u msg)) d =
    announce-Sublist (is_for u (h.phase d)) (h.channels d) _ msg (received_from r d) (sent_to r d)
      (announced h u msg d (HubReach-Agrees h r)) (in_order h r d)
in_order k (next {h} r (connect u c e)) d = in_order h r d
in_order k (next {h} r (disconnect u c e)) d = in_order h r d
in_order k (next {h} r (close_channel c e)) d = in_order h r d
in_order k (next {h} r (receive u c msg e m)) d =
    receive-Sublist (c == d) (h.channels d) msg (received_from r d) (sent_to r d)
      (λ s. subst (λ x. h.channels x ≡ some msg) ((==_iff c d).0 s) m) (in_order h r d)

-- What a connection has received, with what waits for it, is part of what was announced to its user
-- while it was registered, in that order; and as many messages are missing as were announced while
-- another one was waiting: no message of another user, or from before or after, ever comes, and none is
-- lost where the connection keeps up.
pub received_from-sent_to :
    (h : Hub) (r : HubReach h) (c : ℕ)
    → Sublist (and_waiting (h.channels c) (received_from r c)) (sent_to r c)
      × (length (sent_to r c)
          ≡ length (and_waiting (h.channels c) (received_from r c)) + length (dropped_at r c))
received_from-sent_to h r c = (in_order h r c, length-sent_to h r c)
