-- ===== src/Tests/Events.antt =====
-- The event broker at a concrete sequence of calls.
use block_storage_api.Prelude.{List, [], ◌∷◌}
use block_storage_api.Storage.{State}
use block_storage_api.Fsm.{Event}
use block_storage_api.Dependency.{VolumeStateEvent}
use block_storage_api.Broker.{new_event_broker}
use block_storage_api.Broker.Laws.{
  IsValid, Command, publishes, subscribes, unsubscribes, run, run-IsValid,
}

abbrev event : VolumeStateEvent
event = record { name = "vol-01"; state = State.available; event = Event.ready; timestamp = 7 }

-- A second unsubscription of a channel, and an event after it.
abbrev commands : List Command
commands =
    subscribes "vol-01"
    ∷ subscribes "vol-01"
    ∷ publishes "vol-01" event
    ∷ unsubscribes "vol-01" 0
    ∷ unsubscribes "vol-01" 0
    ∷ publishes "vol-01" event
    ∷ []

run-IsValid_example : IsValid (run commands new_event_broker)
run-IsValid_example = run-IsValid commands
