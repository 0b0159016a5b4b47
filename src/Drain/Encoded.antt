-- ===== src/Drain/Encoded.antt =====
-- The acknowledgment that a worker sends for a receipt, and when it is accepted as that receipt.
use minecraft_ai.Prelude.{
  is_some, ℕ, Bool, true, Option, none, some, ◌&&◌, ◌||◌, not, leb, Str, String, same, codes,
}
use minecraft_ai.Prelude.Int.{pos}
use minecraft_ai.Drain.Value.{Value, null, boolean, integer, text, object, Items, end, item}
use minecraft_ai.Drain.Fields.{
  PosixPaths, is_private_path, is_identity, is_digest, is_request_id, int64_max,
}
use minecraft_ai.Drain.Receipt.{
  Session, CheckpointBinding, Inference, Learning, Checkpoint, Receipt, max_checkpoint_bytes,
  drain_contract,
}

abbrev pub number : ℕ → Value
number n = integer (pos n)

abbrev pub entry : String → Value → Items → Items
entry name = item (codes name)

unfoldable pub session_value : Session → Value
session_value s = object (
    entry "session_id" (text s.session_id) (
      entry "episode_id" (text s.episode_id) (
        entry "episode_index" (number s.episode_index)
          (entry "steps" (number s.steps) (entry "episode_steps" (number s.episode_steps) end)))))

unfoldable pub inference_value : Option Inference → Value
inference_value none = null
inference_value (some i) = object (
    entry "request_id" (text i.request_id) (
      entry "episode_id" (text i.episode_id) (
        entry "session_steps_before" (number i.session_steps_before) (
          entry "session_steps_after" (number i.session_steps_after) (
            entry "outcome" (text i.outcome)
              (entry "prediction_written" (boolean i.prediction_written) end))))))

unfoldable pub learning_value : Option Learning → Value
learning_value none = null
learning_value (some l) = object (
    entry "update_algorithm" (text l.update_algorithm) (
      entry "prefix_cursor" (number l.prefix_cursor) (
        entry "train_cursor" (number l.train_cursor) (
          entry "training_events" (number l.training_events)
            (entry "parameter_update_events" (number l.parameter_update_events) end)))))

unfoldable pub checkpoint_items : Checkpoint → Items
unfolding learning_value
checkpoint_items c = entry "path" (text c.descriptor.path) (
    entry "payload_contract" (text c.descriptor.payload_contract) (
      entry "model_sha256" (text c.descriptor.model_sha256) (
        entry "configuration_sha256" (text c.descriptor.configuration_sha256) (
          entry "sha256" (text c.sha256) (
            entry "bytes" (number c.bytes) (
              entry "file_fsync_completed" (boolean true) (
                entry "directory_fsync_completed" (boolean true) (
                  entry "atomicity_scope" (text (codes "one_native_session_file")) (
                    entry "learning_state_embedded" (boolean (is_some c.learning))
                      (entry "learning" (learning_value c.learning) end))))))))))

unfoldable pub ack_items : Receipt → Items
unfolding session_value inference_value checkpoint_items
ack_items r = entry "type" (text (codes "drained")) (
    entry "contract" (text drain_contract) (
      entry "request_id" (text r.request_id) (
        entry "drained" (boolean true) (
          entry "status" (text (codes "checkpointed")) (
            entry "session" (session_value r.session) (
              entry "last_completed_inference" (inference_value r.inference)
                (entry "checkpoint" (object (checkpoint_items r.checkpoint)) end)))))))

abbrev pub is_counter : ℕ → Bool
is_counter n = leb n int64_max

unfoldable pub good_session : Session → Bool
unfolding is_identity int64_max
good_session s =
    is_identity s.session_id
    && (is_identity s.episode_id
        && (is_counter s.episode_index
            && (is_counter s.steps && (is_counter s.episode_steps && leb s.episode_steps s.steps))))

abbrev pub is_outcome : Str → Bool
is_outcome s = same s (codes "prediction") || same s (codes "error")

unfoldable pub good_inference : ℕ → Option Inference → Bool
unfolding is_request_id is_identity int64_max same
good_inference steps none = true
good_inference steps (some i) =
    is_request_id i.request_id
    && (is_identity i.episode_id
        && (is_counter i.session_steps_before
            && (is_counter i.session_steps_after
                && ((leb i.session_steps_before i.session_steps_after
                      && leb i.session_steps_after steps)
                    && (is_outcome i.outcome
                        && (not (same i.outcome (codes "prediction")) || i.prediction_written))))))

-- the request that the inference answers
abbrev pub barrier_of : Option Inference → Option Str
barrier_of none = none
barrier_of (some i) = some i.request_id

unfoldable pub good_learning : ℕ → Option Learning → Bool
unfolding is_identity int64_max
good_learning steps none = true
good_learning steps (some l) =
    is_identity l.update_algorithm
    && (is_counter l.prefix_cursor
        && (is_counter l.train_cursor
            && (is_counter l.training_events
                && (is_counter l.parameter_update_events
                    && ((leb l.train_cursor l.prefix_cursor && leb l.prefix_cursor steps)
                        && leb l.parameter_update_events l.training_events)))))

module _ (paths : PosixPaths) where
  unfoldable pub good_descriptor : CheckpointBinding → Bool
  unfolding is_private_path is_identity is_digest
  good_descriptor c =
      is_private_path paths c.path
      && (is_identity c.payload_contract
          && (is_digest c.model_sha256 && is_digest c.configuration_sha256))

  unfoldable pub good_checkpoint : ℕ → Checkpoint → Bool
  unfolding good_descriptor good_learning is_digest int64_max
  good_checkpoint steps c =
      good_descriptor c.descriptor
      && (is_digest c.sha256
          && (is_counter c.bytes
              && ((leb 1 c.bytes && leb c.bytes max_checkpoint_bytes)
                  && good_learning steps c.learning)))

  unfoldable pub good_receipt : Receipt → Bool
  unfolding is_request_id good_session good_inference good_checkpoint
  good_receipt r =
      is_request_id r.request_id
      && (good_session r.session
          && (good_inference r.session.steps r.inference
              && good_checkpoint r.session.steps r.checkpoint))
