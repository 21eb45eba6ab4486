-- ===== src/Http/Stream.antt =====
-- `streamVolumeEvents` of volume/controller_http.go: the events that a client is sent, and when the
-- stream ends.
use block_storage_api.Prelude.{
  ℕ, zero, suc, String, Bool, true, false, Option, none, some, List, [], ◌∷◌, if◌then◌else◌, ◌≡◌,
  refl, arith,
}
use block_storage_api.Errors.{Result, ok, err}
use block_storage_api.Storage.{State, Volume}
use block_storage_api.Fsm.{Event}
use block_storage_api.Dependency.{VolumeStateEvent}
use block_storage_api.Application.World.{Application, World}
use block_storage_api.Application.Operations
use block_storage_api.Http.{Response, write_json, literal, map_app_error, err_response}

-- A response writer: whether it is an `http.Flusher`, and the writer that it wraps, if it has `Unwrap`.
pub data Writer : Type 0 where
  plain : Bool → Writer
  wrapper : Bool → Writer → Writer

unfoldable pub unwrap_flusher : Writer → Bool
unwrap_flusher (plain flushes) = flushes
unwrap_flusher (wrapper flushes w) = let inner = unwrap_flusher w in if flushes then true else inner

-- What is written to the client: an event, or the event that ends the stream.
pub data Frame : Type 0 where
  message : VolumeStateEvent → Frame
  done : VolumeStateEvent → Frame

abbrev pub terminal : State → Bool
terminal State.available = true
terminal State.attached = true
terminal State.deleted = true
terminal State.error = true
terminal _ = false

-- `writes` is how many writes the client takes before it disconnects.
abbrev end_with : VolumeStateEvent → ℕ → List Frame
end_with e zero = []
end_with e (suc writes) = done e ∷ []

-- One event, and, unless it ends the stream, what follows.
abbrev send : VolumeStateEvent → ℕ → (ℕ → List Frame) → List Frame
send e zero rest = []
send e (suc writes) rest =
    message e ∷ elim (terminal e.state) [ true ↦ end_with e writes | false ↦ rest writes ]

-- The loop over what the channel gives until it is closed or the request's context is done.
unfoldable pub receive : List VolumeStateEvent → ℕ → List Frame
receive [] writes = []
receive (e ∷ es) writes = send e writes (receive es)

pub data Answer : Type 0 where
  refused : Response → Answer
  streamed : List Frame → Answer

module _ {D B M : Type 0} (app : Application D B M) where
  abbrev pub current : Volume → ℕ → VolumeStateEvent
  current v now = record { name = v.name; state = v.state; event = Event.current; timestamp = now }

  -- The current state first, if it can be read.
  abbrev open_stream :
      Result Volume × World D B → List VolumeStateEvent → ℕ → List Frame × World D B
  open_stream (err e, w) inbox writes = (receive inbox writes, w)
  open_stream (ok v, w) inbox writes = (
    receive (current v (app.clock w.readings) ∷ inbox) writes,
    record w { readings = suc w.readings },
  )

  abbrev after_subscribe :
      String → Writer → List VolumeStateEvent → ℕ → Result ℕ × World D B → Answer × World D B
  after_subscribe name writer inbox writes (err e, w) =
      (refused (write_json (map_app_error e) (err_response e)), w)
  after_subscribe name writer inbox writes (ok c, w) =
      if unwrap_flusher writer
      then (let (frames, w') = open_stream (Operations.get_volume app name w) inbox writes in
          (streamed frames, (Operations.unsubscribe app name c w').1))
      else (
        refused (write_json 500 (literal "streaming not supported")),
        (Operations.unsubscribe app name c w).1,
      )

  -- `inbox` is what the channel gives while the stream is open.
  unfoldable pub stream_volume_events :
      String → Writer → List VolumeStateEvent → ℕ → World D B → Answer × World D B
  unfolding receive unwrap_flusher
  stream_volume_events name writer inbox writes w =
      after_subscribe name writer inbox writes (Operations.subscribe app name w)

-- The events up to the first in a terminal state, and that one.
abbrev pub until_terminal : List VolumeStateEvent → List VolumeStateEvent
until_terminal [] = []
until_terminal (e ∷ es) =
    let rest = until_terminal es in elim (terminal e.state) [ true ↦ e ∷ [] | false ↦ e ∷ rest ]

abbrev pub first_terminal : List VolumeStateEvent → Option VolumeStateEvent
first_terminal [] = none
first_terminal (e ∷ es) =
    let rest = first_terminal es in elim (terminal e.state) [ true ↦ some e | false ↦ rest ]

abbrev pub closing : Option VolumeStateEvent → List Frame
closing none = []
closing (some e) = done e ∷ []

abbrev pub take : ℕ → List Frame → List Frame
take zero xs = []
take (suc n) [] = []
take (suc n) (x ∷ xs) = x ∷ take n xs

abbrev pub messages_then : List VolumeStateEvent → List Frame → List Frame
messages_then [] end = end
messages_then (e ∷ es) end = message e ∷ messages_then es end

abbrev pub whole_stream : List VolumeStateEvent → List Frame
whole_stream es = messages_then (until_terminal es) (closing (first_terminal es))

end_with-take : (e : VolumeStateEvent) (n : ℕ) → end_with e n ≡ take n (done e ∷ [])
end_with-take e zero = refl
end_with-take e (suc zero) = refl
end_with-take e (suc (suc n)) = refl

-- A client that takes so many writes is sent that many frames of the whole stream, which is each
-- event up to the first in a terminal state, and then, if there is one, that event as the end.
pub receive-take :
    (es : List VolumeStateEvent) (writes : ℕ) → receive es writes ≡ take writes (whole_stream es)
unfolding receive
receive-take [] zero = refl
receive-take [] (suc n) = refl
receive-take (e ∷ es) zero = refl
receive-take (e ∷ es) (suc n) = ground (arith, end_with-take e n, receive-take es n)
