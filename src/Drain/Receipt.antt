-- ===== src/Drain/Receipt.antt =====
-- DrainBinding of worker_drain.py and the validation of an acknowledgment against it.
use minecraft_ai.Prelude.{
  ℕ, suc, Bool, true, false, List, [], ◌∷◌, Option, none, some, ◌&&◌, ◌||◌, not, leb, ◌==◌,
  if◌then◌else◌, Str, String, same, codes, contains, map,
}
use minecraft_ai.Prelude.Int.{pos}
use minecraft_ai.Drain.Value.{
  Value, integer, text, object, Items, field, keys, ◌>>=◌, ◌>>◌, require,
}
use minecraft_ai.Drain.Fields.{
  PosixPaths, object_with, identity, request_id, digest, counter, private_path, boolean_of, is_true,
  is_null, is_text,
}

abbrev pub drain_contract : Str
drain_contract = codes "erais.native-minecraft-drain.v1"

abbrev pub max_checkpoint_bytes : ℕ
max_checkpoint_bytes = 134217728

abbrev pub session_fields : List Str
session_fields =
    map codes ("session_id" ∷ "episode_id" ∷ "episode_index" ∷ "steps" ∷ "episode_steps" ∷ [])

abbrev pub descriptor_fields : List Str
descriptor_fields =
    map codes ("path" ∷ "payload_contract" ∷ "model_sha256" ∷ "configuration_sha256" ∷ [])

abbrev pub checkpoint_fields : List Str
checkpoint_fields = map codes (
    "path" ∷ "payload_contract" ∷ "model_sha256" ∷ "configuration_sha256" ∷ "sha256" ∷ "bytes"
    ∷ "file_fsync_completed" ∷ "directory_fsync_completed" ∷ "atomicity_scope"
    ∷ "learning_state_embedded" ∷ "learning" ∷ [])

abbrev pub ack_fields : List Str
ack_fields = map codes (
    "type" ∷ "contract" ∷ "request_id" ∷ "drained" ∷ "status" ∷ "session"
    ∷ "last_completed_inference" ∷ "checkpoint" ∷ [])

abbrev pub inference_fields : List Str
inference_fields = map codes (
    "request_id" ∷ "episode_id" ∷ "session_steps_before" ∷ "session_steps_after" ∷ "outcome"
    ∷ "prediction_written" ∷ [])

abbrev pub learning_fields : List Str
learning_fields = map codes (
    "update_algorithm" ∷ "prefix_cursor" ∷ "train_cursor" ∷ "training_events"
    ∷ "parameter_update_events" ∷ [])

pub record Session : Type 0 where
  pub session_id : Str
  pub episode_id : Str
  pub episode_index : ℕ
  pub steps : ℕ
  pub episode_steps : ℕ

pub record CheckpointBinding : Type 0 where
  pub path : Str
  pub payload_contract : Str
  pub model_sha256 : Str
  pub configuration_sha256 : Str

-- the session's fields are those of the class
pub record DrainBinding : Type 0 where
  pub session : Session
  pub checkpoint : Option CheckpointBinding

pub record Inference : Type 0 where
  pub request_id : Str
  pub episode_id : Str
  pub session_steps_before : ℕ
  pub session_steps_after : ℕ
  pub outcome : Str
  pub prediction_written : Bool

pub record Learning : Type 0 where
  pub update_algorithm : Str
  pub prefix_cursor : ℕ
  pub train_cursor : ℕ
  pub training_events : ℕ
  pub parameter_update_events : ℕ

-- the fields with a single accepted value are left out
pub record Checkpoint : Type 0 where
  pub descriptor : CheckpointBinding
  pub sha256 : Str
  pub bytes : ℕ
  pub learning : Option Learning

pub record Receipt : Type 0 where
  pub request_id : Str
  pub session : Session
  pub inference : Option Inference
  pub checkpoint : Checkpoint

abbrev pub at : Items → String → Value
at d name = field d (codes name)

unfoldable pub parse_session : Value → Option Session
unfolding object_with identity counter field
parse_session value = do
  d ← object_with session_fields value
  session ← identity (at d "session_id")
  episode ← identity (at d "episode_id")
  index ← counter (at d "episode_index")
  steps_ ← counter (at d "steps")
  episode_steps_ ← counter (at d "episode_steps")
  require (leb episode_steps_ steps_)
  some (record {
    session_id = session;
    episode_id = episode;
    episode_index = index;
    steps = steps_;
    episode_steps = episode_steps_;
  })

module _ (paths : PosixPaths) where
  -- the four fields of a descriptor, which stand in a larger object too
  unfoldable pub parse_descriptor : Items → Option CheckpointBinding
  unfolding private_path identity digest field
  parse_descriptor d = do
    p ← private_path paths (at d "path")
    contract ← identity (at d "payload_contract")
    model ← digest (at d "model_sha256")
    configuration ← digest (at d "configuration_sha256")
    some (record {
      path = p;
      payload_contract = contract;
      model_sha256 = model;
      configuration_sha256 = configuration;
    })

  unfoldable pub parse_binding : Value → Option CheckpointBinding
  unfolding object_with parse_descriptor
  parse_binding value = do d ← object_with descriptor_fields value; parse_descriptor d

  -- `checkpoint` of the readiness message, which has to be there
  unfoldable pub ready_checkpoint : Items → Str → Option (Option CheckpointBinding)
  unfolding parse_binding keys contains field same
  ready_checkpoint ready configured = do
    require (contains (keys ready) (codes "checkpoint"))
    elim (is_null (at ready "checkpoint")) [
      | true ↦ some none
      | false ↦ do
        c ← parse_binding (at ready "checkpoint")
        require (same c.model_sha256 configured)
        some (some c)
    ]

  -- a binding, or none where the worker offers no drain
  unfoldable pub from_ready : Value → Str → Option (Option DrainBinding)
  unfolding keys contains is_text digest parse_session ready_checkpoint field
  from_ready (object ready) model_sha256 = elim (contains (keys ready) (codes "drain_contract")) [
    | false ↦ some none
    | true ↦ do
      require (is_text (at ready "drain_contract") drain_contract)
      configured ← digest (text model_sha256)
      s ← parse_session (at ready "session")
      c ← ready_checkpoint ready configured
      some (some (record { session = s; checkpoint = c }))
  ]
  from_ready _ model_sha256 = none

  -- an episode that an explicit reset of the world starts
  unfoldable pub with_world_episode : Str → DrainBinding → Option DrainBinding
  unfolding identity counter same
  with_world_episode episode b = do
    episode' ← identity (text episode)
    require (not (same episode' b.session.episode_id))
    index ← counter (integer (pos (suc b.session.episode_index)))
    let session' : Session = record b.session {
      episode_id = episode';
      episode_index = index;
      episode_steps = 0;
    }
    some (record b { session = session' })

  unfoldable pub parse_inference : Value → Option Str → ℕ → Option (Option Inference)
  unfolding object_with counter request_id identity is_text field same
  parse_inference value none steps = if is_null value then some none else none
  parse_inference value (some barrier) steps = do
    d ← object_with inference_fields value
    before ← counter (at d "session_steps_before")
    after ← counter (at d "session_steps_after")
    id ← request_id (at d "request_id")
    require (same id barrier)
    require (leb before after && leb after steps)
    let predicted : Bool = is_text (at d "outcome") (codes "prediction")
    require (predicted || is_text (at d "outcome") (codes "error"))
    written ← boolean_of (at d "prediction_written")
    require (not (predicted && not written))
    episode ← identity (at d "episode_id")
    some (
        some (record {
          request_id = barrier;
          episode_id = episode;
          session_steps_before = before;
          session_steps_after = after;
          outcome = if predicted then codes "prediction" else codes "error";
          prediction_written = written;
        }))

  unfoldable pub parse_learning : Value → ℕ → Option Learning
  unfolding object_with identity counter field
  parse_learning value steps = do
    d ← object_with learning_fields value
    algorithm ← identity (at d "update_algorithm")
    prefix ← counter (at d "prefix_cursor")
    train ← counter (at d "train_cursor")
    events ← counter (at d "training_events")
    updates ← counter (at d "parameter_update_events")
    require ((leb train prefix && leb prefix steps) && leb updates events)
    some (record {
      update_algorithm = algorithm;
      prefix_cursor = prefix;
      train_cursor = train;
      training_events = events;
      parameter_update_events = updates;
    })

  -- learning data stand beside the flag that says so, and only there
  unfoldable pub parse_embedded : Bool → Value → ℕ → Option (Option Learning)
  unfolding parse_learning
  parse_embedded true value steps = do l ← parse_learning value steps; some (some l)
  parse_embedded false value steps = if is_null value then some none else none

  unfoldable pub same_binding : CheckpointBinding → Option CheckpointBinding → Bool
  unfolding same
  same_binding c none = false
  same_binding c (some b) =
      same c.path b.path
      && (same c.payload_contract b.payload_contract
          && (same c.model_sha256 b.model_sha256
              && same c.configuration_sha256 b.configuration_sha256))

  unfoldable pub parse_checkpoint : Value → Option CheckpointBinding → ℕ → Option Checkpoint
  unfolding object_with parse_descriptor same_binding counter is_text parse_embedded digest field
  parse_checkpoint value binding steps = do
    d ← object_with checkpoint_fields value
    c ← parse_descriptor d
    require (same_binding c binding)
    size ← counter (at d "bytes")
    require (leb 1 size && leb size max_checkpoint_bytes)
    require (is_true (at d "file_fsync_completed") && is_true (at d "directory_fsync_completed"))
    require (is_text (at d "atomicity_scope") (codes "one_native_session_file"))
    embedded ← boolean_of (at d "learning_state_embedded")
    l ← parse_embedded embedded (at d "learning") steps
    sum ← digest (at d "sha256")
    some (record { descriptor = c; sha256 = sum; bytes = size; learning = l })

  -- the session is the bound one, and has not lost steps
  unfoldable pub continues : Session → Session → Bool
  unfolding same
  continues s b =
      same s.session_id b.session_id
      && (same s.episode_id b.episode_id
          && (s.episode_index == b.episode_index
              && (leb b.steps s.steps && leb b.episode_steps s.episode_steps)))

  unfoldable pub parse_barrier : Option Str → Option (Option Str)
  unfolding request_id
  parse_barrier none = some none
  parse_barrier (some id) = do b ← request_id (text id); some (some b)

  unfoldable pub validate_ack : DrainBinding → Value → Str → Option Str → Option Receipt
  unfolding request_id parse_barrier object_with is_text parse_session continues parse_inference
      parse_checkpoint field same
  validate_ack b payload request after_request = do
    expected ← request_id (text request)
    barrier ← parse_barrier after_request
    d ← object_with ack_fields payload
    require (is_text (at d "type") (codes "drained"))
    require (is_text (at d "contract") drain_contract)
    id ← request_id (at d "request_id")
    require (same id expected)
    require (is_true (at d "drained"))
    require (is_text (at d "status") (codes "checkpointed"))
    s ← parse_session (at d "session")
    require (continues s b.session)
    i ← parse_inference (at d "last_completed_inference") barrier s.steps
    c ← parse_checkpoint (at d "checkpoint") b.checkpoint s.steps
    some (record { request_id = expected; session = s; inference = i; checkpoint = c })
