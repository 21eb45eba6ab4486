-- ===== src/Broker.antt =====
-- `eventBroker` of volume/application.go. Channels are pointers: `channels` is the heap of them,
-- and a subscription is the number of a channel. The mutex makes each method one step.
pub mod Laws
use block_storage_api.Prelude.{
  ℕ, suc, String, Bool, true, false, Option, none, some, List, [], ◌∷◌, ◌++◌, eqb, ltb, length,
  if◌then◌else◌,
}
use block_storage_api.Prelude.Dict.{Dict, lookup, insert}
use block_storage_api.Dependency.{VolumeStateEvent}

-- A buffered channel: what was sent and not yet received, and whether it is closed.
pub record Channel : Type 0 where
  pub buffer : List VolumeStateEvent
  pub closed : Bool

-- `panicked` holds once a send has met a closed channel.
pub record EventBroker : Type 0 where
  pub subscribers : Dict (List ℕ)
  pub channels : ℕ → Channel
  pub next_channel : ℕ
  pub panicked : Bool

-- `make(chan VolumeStateEvent, 16)`
abbrev pub capacity : ℕ
capacity = 16

abbrev pub fresh_channel : Channel
fresh_channel = record { buffer = []; closed = false }

unfoldable pub new_event_broker : EventBroker
new_event_broker = record {
  subscribers = [];
  channels = λ _. fresh_channel;
  next_channel = 0;
  panicked = false;
}

abbrev pub update : (ℕ → Channel) → ℕ → Channel → ℕ → Channel
update f c v d = if eqb c d then v else f d

-- The channels that are registered for a name; a missing key is the nil slice.
abbrev or_nil : Option (List ℕ) → List ℕ
or_nil none = []
or_nil (some cs) = cs

abbrev pub subscribed : String → EventBroker → List ℕ
subscribed name b = or_nil (lookup name b.subscribers)

-- `select { case ch <- e: default: }`
unfoldable pub send : VolumeStateEvent → ℕ → EventBroker → EventBroker
send e c b =
    let ch = b.channels c in
    if ch.closed
    then record b { panicked = true }
    else if ltb (length ch.buffer) capacity
    then record b { channels = update b.channels c (record ch { buffer = ch.buffer ++ e ∷ [] }) }
    else b

unfoldable pub send_all : VolumeStateEvent → List ℕ → EventBroker → EventBroker
unfolding send
send_all e [] b = b
send_all e (c ∷ cs) b = send_all e cs (send e c b)

unfoldable pub publish : String → VolumeStateEvent → EventBroker → EventBroker
publish name e b = send_all e (subscribed name b) b

unfoldable pub subscribe : String → EventBroker → ℕ × EventBroker
subscribe name b = (
  b.next_channel,
  record b {
    subscribers = insert name (subscribed name b ++ b.next_channel ∷ []) b.subscribers;
    channels = update b.channels b.next_channel fresh_channel;
    next_channel = suc b.next_channel;
  },
)

-- The slice without its first entry `c`, or none if `c` is not there.
unfoldable pub remove_first : ℕ → List ℕ → Option (List ℕ)
remove_first c [] = none
remove_first c (d ∷ ds) =
    let rest = remove_first c ds in
    if eqb d c then some ds else elim rest [ none ↦ none | some ds' ↦ some (d ∷ ds') ]

abbrev close_removed : String → ℕ → EventBroker → Option (List ℕ) → EventBroker
close_removed name c b none = b
close_removed name c b (some cs) = record b {
  subscribers = insert name cs b.subscribers;
  channels = update b.channels c (record (b.channels c) { closed = true });
}

unfoldable pub unsubscribe : String → ℕ → EventBroker → EventBroker
unfolding remove_first
unsubscribe name c b = close_removed name c b (remove_first c (subscribed name b))

abbrev pub without_first : List VolumeStateEvent → List VolumeStateEvent
without_first [] = []
without_first (_ ∷ es) = es

-- `<-ch`: whoever holds the channel takes its first event, if there is one.
unfoldable pub receive : ℕ → EventBroker → EventBroker
receive c b =
    let ch = b.channels c in
    record b { channels = update b.channels c (record ch { buffer = without_first ch.buffer }) }
