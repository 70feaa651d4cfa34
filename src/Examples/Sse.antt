-- ===== src/Examples/Sse.antt =====
-- A stream of events, and a connection that ends during a broadcast.
use mathlib.Core.List.{Sublist}
use prism_plan.Shared.{
  length, ◌+◌, Option, none, some, str_eq, ℕ, if◌then◌else◌, ◌≡◌, refl, ◌↔◌, [], ◌∷◌, true, lit,
  arith, ◌==◌,
}
use prism_plan.Stream.Registry.{
  enter, leave, broadcast, mem, channels_of, run, add_client, insert, offer, offer_all,
}
use prism_plan.Stream.Hub.{
  Hub, registered, removed, HubReach, here, next, connect, disconnect, announce, receive,
  broadcast_channels_open, set_at, no_connections,
}
use prism_plan.Stream.Hub.Received.{
  sent_to, received_from, dropped_at, and_waiting, received_from-sent_to,
}
use prism_plan.Stream.Sse.{tick, message, new_response, serve}
use prism_plan.Stream.Sse.Delivery.{Delivered, serve-Delivered}

-- The sixth write fails at the end of the second event, after one of its two bytes.
abbrev sixth : ℕ → Option ℕ
sixth n = if n == 5 then some 1 else none

serve-Delivered_example :
    Delivered sixth
      (lit "[]" ∷ lit "{}" ∷ lit "{1}" ∷ [])
      (serve sixth (lit "[]") (lit "{}") (tick ∷ message (lit "{1}") ∷ []) new_response)
serve-Delivered_example =
    serve-Delivered sixth (lit "[]") (lit "{}") (tick ∷ message (lit "{1}") ∷ []) (
      ((omega arith, omega arith), ((omega arith, omega arith), tt)),
      (
        ((omega arith, omega arith), ((omega arith, omega arith), tt)),
        (
          (
            (omega arith, omega arith),
            ((omega arith, omega arith), ((omega arith, omega arith), tt)),
          ),
          tt,
        ),
      ),
    )

-- The first of two connections has ended after a broadcast to it.
abbrev one_of_two : Hub
one_of_two = record {
  ops = leave (lit "u") 1 ∷ enter (lit "v") 2 ∷ enter (lit "u") 1 ∷ [];
  phase =
      set_at 1 removed
        (set_at 2 (registered (lit "v")) (set_at 1 (registered (lit "u")) no_connections.phase));
  channels =
      broadcast (run (enter (lit "v") 2 ∷ enter (lit "u") 1 ∷ [])) (lit "u") (lit "{}")
        no_connections.channels;
}

HubReach-one_of_two : HubReach one_of_two
HubReach-one_of_two =
    next
      (next (next (next here (connect (lit "u") 1 refl)) (connect (lit "v") 2 refl))
        (announce (lit "u") (lit "{}")))
      (disconnect (lit "u") 1 refl)

broadcast_channels_open_example :
    (mem 2 (channels_of (run one_of_two.ops) (lit "v")) ≡ true)
    ↔ (one_of_two.phase 2 ≡ registered (lit "v"))
broadcast_channels_open_example = broadcast_channels_open one_of_two (lit "v") 2 HubReach-one_of_two

abbrev after_broadcast : Hub
after_broadcast = record {
  ops = enter (lit "v") 2 ∷ enter (lit "u") 1 ∷ [];
  phase = set_at 2 (registered (lit "v")) (set_at 1 (registered (lit "u")) no_connections.phase);
  channels =
      broadcast (run (enter (lit "v") 2 ∷ enter (lit "u") 1 ∷ [])) (lit "u") (lit "{}")
        no_connections.channels;
}

-- The first connection takes its message, and another one is announced.
abbrev after_receipt : Hub
after_receipt = record after_broadcast {
  channels =
      broadcast (run after_broadcast.ops) (lit "u") (lit "[]")
        (set_at 1 none after_broadcast.channels);
}

message_waits : after_broadcast.channels 1 ≡ some (lit "{}")
unfolding broadcast run add_client insert channels_of mem offer_all offer str_eq
message_waits = refl

abbrev HubReach-after_broadcast : HubReach after_broadcast
HubReach-after_broadcast =
    next (next (next here (connect (lit "u") 1 refl)) (connect (lit "v") 2 refl))
      (announce (lit "u") (lit "{}"))

abbrev HubReach-after_receipt : HubReach after_receipt
HubReach-after_receipt =
    next (next HubReach-after_broadcast (receive (lit "u") 1 (lit "{}") refl message_waits))
      (announce (lit "u") (lit "[]"))

received_from-sent_to_example :
    Sublist
      (and_waiting (after_receipt.channels 1) (received_from HubReach-after_receipt 1))
      (sent_to HubReach-after_receipt 1)
    × (length (sent_to HubReach-after_receipt 1)
        ≡ length (and_waiting (after_receipt.channels 1) (received_from HubReach-after_receipt 1))
          + length (dropped_at HubReach-after_receipt 1))
received_from-sent_to_example = received_from-sent_to after_receipt HubReach-after_receipt 1

received_one : received_from HubReach-after_receipt 1 ≡ lit "{}" ∷ []
unfolding received_from
received_one = refl
