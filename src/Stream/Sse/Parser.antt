-- ===== src/Stream/Sse/Parser.antt =====
-- How a browser reads an event stream, as the HTML standard describes it, as far as `data` and comments
-- go: the lines are fed one byte after another.
use prism_plan.Shared.{
  ℕ, zero, suc, ◌≡◌, ◌≢◌, refl, sym, ap, ◌∙◌, subst, ◌⊎◌, inl, inr, Bool, true, false, take, List,
  [], ◌∷◌, ◌++◌, Option, none, some, Str, lit, arith, ◌==◌, if◌then◌else◌, All,
}
use mathlib.Core.List.{append-nil, append_assoc}

-- The line so far, whether the byte before was a carriage return, the data of the event so far, and the
-- events.
pub record Reader : Type 0 where
  pub line : Str
  pub after_cr : Bool
  pub data_buffer : Option Str
  pub events : List Str

abbrev pub new_reader : Reader
new_reader = record { line = []; after_cr = false; data_buffer = none; events = [] }

abbrev pub strip_prefix : Str → Str → Option Str
strip_prefix [] s = some s
strip_prefix (c ∷ cs) [] = none
strip_prefix (c ∷ cs) (d ∷ s) = let rest = strip_prefix cs s in if c == d then rest else none

-- One space after the colon is left out.
abbrev skip_space : Str → Str
skip_space [] = []
skip_space (c ∷ s) = if c == 32 then s else c ∷ s

-- A second line of data is joined by a newline.
abbrev joined : Option Str → Str → Str
joined none value = value
joined (some old) value = old ++ (10 ∷ value)

abbrev take_field : Reader → Option Str → Reader
take_field r none = record r { line = [] }
take_field r (some value) = record r {
  line = [];
  data_buffer = some (joined r.data_buffer (skip_space value));
}

abbrev dispatch : Reader → Option Str → Reader
dispatch r none = r
dispatch r (some event) = record r { data_buffer = none; events = r.events ++ (event ∷ []) }

-- An empty line dispatches the event; a line that is no `data` is left aside.
abbrev end_line : Reader → Str → Reader
end_line r [] = dispatch r r.data_buffer
end_line r (c ∷ s) = take_field r (strip_prefix (lit "data:") (c ∷ s))

-- A line ends at a carriage return, at a newline, or at both together.
unfoldable pub feed_byte : ℕ → Reader → Reader
feed_byte c r =
    if c == 13
    then record (end_line r r.line) { after_cr = true }
    else if c == 10
    then if r.after_cr then record r { after_cr = false } else end_line r r.line
    else record r { line = r.line ++ (c ∷ []); after_cr = false }

unfoldable pub feed : Str → Reader → Reader
feed [] r = r
feed (c ∷ s) r = feed s (feed_byte c r)

abbrev pub events_of : Str → List Str
events_of body = (feed body new_reader).events

-- The text is one line.
abbrev pub IsLine : Str → Type 0
IsLine s = All (λ c. (c ≢ 10) × (c ≢ 13)) s

pub feed-append : (s t : Str) (r : Reader) → feed (s ++ t) r ≡ feed t (feed s r)
unfolding feed
feed-append [] t r = refl
feed-append (c ∷ s) t r = feed-append s t (feed_byte c r)

-- The reader has read some more of its line.
abbrev pub further : Str → Reader → Reader
further s r = record r { line = r.line ++ s; after_cr = false }

feed_byte-in_line : (c : ℕ) (r : Reader) → (c ≢ 10) × (c ≢ 13) → feed_byte c r ≡ further (c ∷ []) r
unfolding feed_byte
feed_byte-in_line c r h = ground arith

pub feed-IsLine : (s : Str) (r : Reader) → r.after_cr ≡ false → IsLine s → feed s r ≡ further s r
unfolding feed
feed-IsLine [] r f h =
    ap (λ l. record r { line = l }) (sym (append-nil r.line))
    ∙ ap (λ (b : Bool). record r { line = r.line ++ []; after_cr = b }) f
feed-IsLine (c ∷ s) r f h =
    ap (feed s) (feed_byte-in_line c r h.0)
    ∙ feed-IsLine s (further (c ∷ []) r) refl h.1
    ∙ ap (λ l. record r { line = l; after_cr = false }) (append_assoc r.line (c ∷ []) s)

-- The events stay the same however much of the text is read.
abbrev Quiet : List Str → Reader → Str → Type 0
Quiet events r [] = r.events ≡ events
Quiet events r (c ∷ s) = (r.events ≡ events) × Quiet events (feed_byte c r) s

Quiet-take :
    (events : List Str) (k : ℕ) (s : Str) (r : Reader)
    → Quiet events r s
    → (feed (take k s) r).events ≡ events
unfolding feed
Quiet-take events zero [] r h = h
Quiet-take events (suc k) [] r h = h
Quiet-take events zero (c ∷ s) r h = h.0
Quiet-take events (suc k) (c ∷ s) r h = Quiet-take events k s (feed_byte c r) h.1

IsLine-Quiet : (s : Str) (r : Reader) → IsLine s → Quiet r.events r s
IsLine-Quiet [] r h = refl
IsLine-Quiet (c ∷ s) r h = (
  refl,
  subst (λ (x : Reader). Quiet r.events x s) (sym (feed_byte-in_line c r h.0))
      (IsLine-Quiet s (further (c ∷ []) r) h.1),
)

-- A part of a line adds no event.
pub feed-part : (k : ℕ) (s : Str) (r : Reader) → IsLine s → (feed (take k s) r).events ≡ r.events
feed-part k s r h = Quiet-take r.events k s r (IsLine-Quiet s r h)

-- Between two events, at the beginning of a line.
abbrev pub between : List Str → Reader
between events = record { line = []; after_cr = false; data_buffer = none; events = events }

-- Within the line of data that begins an event.
abbrev pub in_data : List Str → Str → Reader
in_data events payload = record {
  line = lit "data: " ++ payload;
  after_cr = false;
  data_buffer = none;
  events = events;
}

pub feed-data_prefix :
    (events : List Str) → feed (lit "data: ") (between events) ≡ in_data events []
unfolding feed feed_byte
feed-data_prefix events = refl

pub feed-payload :
    (events : List Str) (payload : Str)
    → IsLine payload
    → feed payload (in_data events []) ≡ in_data events payload
feed-payload events payload h = feed-IsLine payload (in_data events []) refl h

pub feed-prefix_part :
    (events : List Str) (k : ℕ) → (feed (take k (lit "data: ")) (between events)).events ≡ events
unfolding feed_byte
feed-prefix_part events k =
    Quiet-take events k (lit "data: ") (between events)
      (refl, (refl, (refl, (refl, (refl, (refl, refl))))))

pub feed-end_of_event :
    (events : List Str) (payload : Str)
    → feed (lit "\n\n") (in_data events payload) ≡ between (events ++ (payload ∷ []))
unfolding feed feed_byte
feed-end_of_event events payload = refl

pub feed-keep_alive :
    (events : List Str) → feed (lit ": keep-alive\n\n") (between events) ≡ between events
unfolding feed feed_byte
feed-keep_alive events = refl

-- Only the whole of the end dispatches the event.
pub feed-end_part :
    (events : List Str) (payload : Str) (k : ℕ)
    → ((feed (take k (lit "\n\n")) (in_data events payload)).events ≡ events)
      ⊎ ((feed (take k (lit "\n\n")) (in_data events payload)).events ≡ events ++ (payload ∷ []))
unfolding feed feed_byte
feed-end_part events payload zero = inl refl
feed-end_part events payload (suc zero) = inl refl
feed-end_part events payload (suc (suc zero)) = inr refl
feed-end_part events payload (suc (suc (suc k))) = inr refl

pub feed-keep_alive_part :
    (events : List Str) (k : ℕ)
    → (feed (take k (lit ": keep-alive\n\n")) (between events)).events ≡ events
unfolding feed_byte
feed-keep_alive_part events k = Quiet-take events k (lit ": keep-alive\n\n") (between events) (
  refl,
  (
    refl,
    (
      refl,
      (refl, (refl, (refl, (refl, (refl, (refl, (refl, (refl, (refl, (refl, (refl, refl))))))))))),
    ),
  ),
)
