-- ===== src/Tests/Http.antt =====
-- The handlers at concrete requests.
use block_storage_api.Prelude.{◌≡◌, refl, [], ◌∷◌, true, false, some}
use block_storage_api.Prelude.Dict.{lookup}
use block_storage_api.Storage.{State, State-discrete}
use block_storage_api.Fsm.{Event}
use block_storage_api.Dependency.{VolumeStateEvent}
use block_storage_api.Application.Local.{local}
use block_storage_api.Http.{delete_volume, attach_volume, detach_volume, reconcile_volume}
use block_storage_api.Http.Stream.{
  plain, wrapper, streamed, message, done, stream_volume_events, unwrap_flusher, current,
}
use block_storage_api.Http.Statuses.{stored_statuses, stream_volume_events_answer}
use block_storage_api.Tests.Fixtures.{setting, row, stored}

stored_statuses_example :
    let w = stored State.attached "node-1" in
    ((delete_volume (local setting) "vol-01" w).0.status ≡ 409)
    × ((attach_volume (local setting) "vol-01" (some (record { node_id = "node-2" })) w).0.status
        ≡ 409)
    × ((detach_volume (local setting) "vol-01" w).0.status ≡ 202)
    × ((reconcile_volume (local setting) "vol-01" w).0.status ≡ 409)
unfolding lookup State-discrete
stored_statuses_example =
    stored_statuses setting (row State.attached "node-1") (stored State.attached "node-1") refl
      "node-2" refl

abbrev event_at : State → VolumeStateEvent
event_at s = record { name = "vol-01"; state = s; event = Event.ready; timestamp = 7 }

stream_volume_events_answer_example :
    (stream_volume_events
      (local setting)
      "vol-01"
      (wrapper false (plain true))
      (event_at State.available ∷ event_at State.attaching ∷ [])
      9
      (stored State.creating "")).0
    ≡ streamed (
        message (current (local setting) (row State.creating "") 100)
        ∷ message (event_at State.available)
        ∷ done (event_at State.available)
        ∷ [])
unfolding lookup unwrap_flusher
stream_volume_events_answer_example =
    stream_volume_events_answer setting (row State.creating "") (wrapper false (plain true))
      (event_at State.available ∷ event_at State.attaching ∷ []) 9 (stored State.creating "") refl
