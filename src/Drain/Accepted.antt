-- ===== src/Drain/Accepted.antt =====
-- What an accepted acknowledgment says.
use minecraft_ai.Prelude.{
  ℕ, ◌≤◌, Bool, true, false, ◌≡◌, refl, sym, ap, List, String, ◌∙◌, Option, none, some, ◌&&◌, leb,
  Str, same, same_iff, codes, arith,
}
use minecraft_ai.Drain.Value.{Items, object, Value, text, require, ◌>>=◌, ◌>>◌}
use minecraft_ai.Drain.Fields.{
  PosixPaths, object_with, request_id, is_true, is_text, counter, digest, boolean_of, text_that,
}
use minecraft_ai.Drain.Receipt.{
  Session, CheckpointBinding, DrainBinding, Inference, Learning, Checkpoint, Receipt, parse_session,
  parse_inference, parse_learning, parse_embedded, same_binding, parse_checkpoint, continues,
  parse_barrier, validate_ack, parse_descriptor, ack_fields, checkpoint_fields, at,
  max_checkpoint_bytes, drain_contract, inference_fields,
}

-- To take a result apart: what it was made of is handed on.
invert :
    {A B C : Type 0} (m : Option A) (f : A → Option B) (b : B)
    → (m >>= f) ≡ some b
    → ((a : A) → m ≡ some a → f a ≡ some b → C)
    → C
invert none f b h k = cc
invert (some a) f b h k = k a refl h

invert_require :
    {B C : Type 0} (test : Bool) (n : Option B) (b : B)
    → (require test >> n) ≡ some b
    → (test ≡ true → n ≡ some b → C)
    → C
invert_require true n b h k = k refl h
invert_require false n b h k = cc

some_inj : {A : Type 0} (a b : A) → some a ≡ some b → a ≡ b
some_inj a b h = cc

in_range_lem : (low high n : ℕ) → (leb low n && leb n high) ≡ true → (low ≤ n) × (n ≤ high)
in_range_lem low high n h = ground arith

-- the counters of a learning record agree with the steps of the session
abbrev pub LearningFits : ℕ → Option Learning → Type 0
LearningFits steps none = Unit
LearningFits steps (some l) =
    (l.train_cursor ≤ l.prefix_cursor)
    × (l.prefix_cursor ≤ steps)
    × (l.parameter_update_events ≤ l.training_events)

-- the inference is that of the barrier, within the steps of the session
abbrev pub InferenceFits : Option Str → ℕ → Option Inference → Type 0
InferenceFits barrier steps none = barrier ≡ none
InferenceFits barrier steps (some i) =
    (barrier ≡ some i.request_id)
    × (i.session_steps_before ≤ i.session_steps_after)
    × (i.session_steps_after ≤ steps)

refit :
    (o p : Option Str) (steps : ℕ) (i : Option Inference)
    → p ≡ o
    → InferenceFits p steps i
    → InferenceFits o steps i
refit o p steps none e h = sym e ∙ h
refit o p steps (some i) e (b, l, s) = (sym e ∙ b, l, s)

-- the payload is an object whose field is the text
abbrev pub HasText : Value → String → Str → Type 0
HasText payload name s = (d : Items) × (payload ≡ object d) × (at d name ≡ text s)

-- the inference was read from an object that names its request
abbrev pub ReadFrom : Value → Option Inference → Type 0
ReadFrom value none = Unit
ReadFrom value (some i) = HasText value "request_id" i.request_id

-- the session is the bound one, with no step lost
abbrev pub Continues : Session → Session → Type 0
Continues s b =
    (s.session_id ≡ b.session_id)
    × (s.episode_id ≡ b.episode_id)
    × (s.episode_index ≡ b.episode_index)
    × (b.steps ≤ s.steps)
    × (b.episode_steps ≤ s.episode_steps)

object_with_lem :
    (fields : List Str) (value : Value) (d : Items)
    → object_with fields value ≡ some d
    → value ≡ object d
unfolding object_with
object_with_lem fields value d h = ground (arith, h)

module _ (paths : PosixPaths) where
  parse_learning_lem :
      (value : Value) (steps : ℕ) (l : Learning)
      → parse_learning paths value steps ≡ some l
      → LearningFits steps (some l)
  unfolding parse_learning
  parse_learning_lem value steps l h = ground arith

  parse_embedded_lem :
      (flag : Bool) (value : Value) (steps : ℕ) (o : Option Learning)
      → parse_embedded paths flag value steps ≡ some o
      → LearningFits steps o
  unfolding parse_embedded
  parse_embedded_lem true value steps none h = tt
  parse_embedded_lem true value steps (some l) h = ground (arith, parse_learning_lem value steps l)
  parse_embedded_lem false value steps none h = tt
  parse_embedded_lem false value steps (some l) h = absurd (ground arith)

  parse_inference_lem :
      (value : Value) (barrier : Option Str) (steps : ℕ) (o : Option Inference)
      → parse_inference paths value barrier steps ≡ some o
      → InferenceFits barrier steps o
  unfolding parse_inference
  parse_inference_lem value none steps none h = refl
  parse_inference_lem value none steps (some i) h = absurd (ground arith)
  parse_inference_lem value (some b) steps none h = absurd (ground arith)
  parse_inference_lem value (some b) steps (some i) h = ground arith

  request_id_text : (v : Value) (s : Str) → request_id v ≡ some s → v ≡ text s
  unfolding request_id text_that
  request_id_text v s h = ground (arith, h)

  continues-Continues : (s b : Session) → continues paths s b ≡ true → Continues s b
  unfolding continues
  continues-Continues s b h =
      ground (arith, h, same_iff s.session_id b.session_id, same_iff s.episode_id b.episode_id)

  -- the request that an inference names is that of the payload
  parse_inference-ReadFrom :
      (value : Value) (barrier : Option Str) (steps : ℕ) (o : Option Inference)
      → parse_inference paths value barrier steps ≡ some o
      → ReadFrom value o
  unfolding parse_inference
  parse_inference-ReadFrom value barrier steps none h = tt
  parse_inference-ReadFrom value none steps (some i) h = absurd (ground arith)
  parse_inference-ReadFrom value (some b) steps (some i) h =
      invert (object_with inference_fields value) _ (some i) h λ d e1 h1.
        invert (counter (at d "session_steps_before")) _ (some i) h1 λ before _ h2.
          invert (counter (at d "session_steps_after")) _ (some i) h2 λ after _ h3.
            invert (request_id (at d "request_id")) _ (some i) h3 λ id e4 h4.
              invert_require (same id b) _ (some i) h4 λ q h5.
                let same_id : id ≡ i.request_id = ground (arith, q, h5, same_iff id b) in
                (
                  d,
                  object_with_lem inference_fields value d e1,
                  request_id_text (at d "request_id") id e4 ∙ ap text same_id,
                )

  same_binding_lem :
      (c : CheckpointBinding) (o : Option CheckpointBinding)
      → same_binding paths c o ≡ true
      → o ≡ some c
  unfolding same_binding
  same_binding_lem c none h = cc
  same_binding_lem c (some b) h = ground (
    arith,
    same_iff c.path b.path,
    same_iff c.payload_contract b.payload_contract,
    same_iff c.model_sha256 b.model_sha256,
    same_iff c.configuration_sha256 b.configuration_sha256,
  )

  parse_checkpoint_lem :
      (value : Value) (binding : Option CheckpointBinding) (steps : ℕ) (c : Checkpoint)
      → parse_checkpoint paths value binding steps ≡ some c
      → (binding ≡ some c.descriptor)
        × (1 ≤ c.bytes)
        × (c.bytes ≤ max_checkpoint_bytes)
        × LearningFits steps c.learning
  unfolding parse_checkpoint
  parse_checkpoint_lem value binding steps c h =
      invert (object_with checkpoint_fields value) _ c h λ d _ h1.
        invert (parse_descriptor paths d) _ c h1 λ e _ h2.
          invert_require (same_binding paths e binding) _ c h2 λ bound h3.
            invert (counter (at d "bytes")) _ c h3 λ size _ h4.
              invert_require (leb 1 size && leb size max_checkpoint_bytes) _ c h4 λ fits h5.
                invert_require
                  (is_true (at d "file_fsync_completed")
                    && is_true (at d "directory_fsync_completed"))
                  _ c h5
                  λ _ h6.
                    invert_require
                      (is_text (at d "atomicity_scope") (codes "one_native_session_file")) _ c h6
                      λ _ h7.
                        invert (boolean_of (at d "learning_state_embedded")) _ c h7 λ flag _ h8.
                          invert (parse_embedded paths flag (at d "learning") steps) _ c h8
                            λ l le h9. invert (digest (at d "sha256")) _ c h9 λ sum _ h10.
                              let q : record {
                                descriptor = e;
                                sha256 = sum;
                                bytes = size;
                                learning = l;
                              }
                                  ≡ c =
                                some_inj _ c h10 in
                              let (low, high) = in_range_lem 1 max_checkpoint_bytes size fits in
                              rw (← q) (
                                same_binding_lem e binding bound,
                                low,
                                high,
                                parse_embedded_lem flag (at d "learning") steps l le,
                              )

  request_id_lem : (s t : Str) → request_id (text s) ≡ some t → t ≡ s
  unfolding request_id text_that
  request_id_lem s t h = ground arith

  parse_barrier_lem : (o p : Option Str) → parse_barrier paths o ≡ some p → p ≡ o
  unfolding parse_barrier request_id text_that
  parse_barrier_lem none p h = ground arith
  parse_barrier_lem (some s) p h = ground arith

  parse_session_lem :
      (value : Value) (s : Session) → parse_session value ≡ some s → s.episode_steps ≤ s.steps
  unfolding parse_session
  parse_session_lem value s h = ground arith

  -- An accepted payload is an object that names the request. The receipt is for that request, has
  -- the bound session with no step lost, has an inference exactly if one was awaited, which in the
  -- payload names the request it was awaited for, and its checkpoint is the bound one, of a size in
  -- the limits and with learning counters that agree.
  pub validate_ack_lem :
      (b : DrainBinding) (payload : Value) (request : Str) (after_request : Option Str)
      (r : Receipt)
      → validate_ack paths b payload request after_request ≡ some r
      → HasText payload "request_id" request
        × (r.request_id ≡ request)
        × Continues r.session b.session
        × (r.session.episode_steps ≤ r.session.steps)
        × InferenceFits after_request r.session.steps r.inference
        × ((d : Items) × (payload ≡ object d)
            × ReadFrom (at d "last_completed_inference") r.inference)
        × (b.checkpoint ≡ some r.checkpoint.descriptor)
        × (1 ≤ r.checkpoint.bytes)
        × (r.checkpoint.bytes ≤ max_checkpoint_bytes)
        × LearningFits r.session.steps r.checkpoint.learning
  unfolding validate_ack
  validate_ack_lem b payload request after_request r h =
      invert (request_id (text request)) _ r h λ expected e1 h1.
        invert (parse_barrier paths after_request) _ r h1 λ barrier e2 h2.
          invert (object_with ack_fields payload) _ r h2 λ d ed h3.
            invert_require (is_text (at d "type") (codes "drained")) _ r h3 λ _ h4.
              invert_require (is_text (at d "contract") drain_contract) _ r h4 λ _ h5.
                invert (request_id (at d "request_id")) _ r h5 λ id eid h6.
                  invert_require (same id expected) _ r h6 λ sid h7.
                    invert_require (is_true (at d "drained")) _ r h7 λ _ h8.
                      invert_require (is_text (at d "status") (codes "checkpointed")) _ r h8 λ _ h9.
                        invert (parse_session (at d "session")) _ r h9 λ s es h10.
                          invert_require (continues paths s b.session) _ r h10 λ kept h11.
                            invert
                              (parse_inference paths (at d "last_completed_inference") barrier
                                s.steps)
                              _ r h11
                              λ i ei h12.
                                invert
                                  (parse_checkpoint paths (at d "checkpoint") b.checkpoint s.steps)
                                  _ r h12
                                  λ c ec h13.
                                    let q : record {
                                      request_id = expected;
                                      session = s;
                                      inference = i;
                                      checkpoint = c;
                                    }
                                        ≡ r =
                                      some_inj _ r h13 in
                                    let same_barrier : barrier ≡ after_request =
                                      parse_barrier_lem after_request barrier e2 in
                                    let awaited =
                                      parse_inference_lem (at d "last_completed_inference") barrier
                                        s.steps i ei in
                                    let (bound, low, high, learned) =
                                      parse_checkpoint_lem (at d "checkpoint") b.checkpoint s.steps
                                        c ec in
                                    let is_request = request_id_lem request expected e1 in
                                    let is_object = object_with_lem ack_fields payload d ed in
                                    rw (← q) (
                                      (
                                        d,
                                        is_object,
                                        request_id_text (at d "request_id") id eid
                                            ∙ ap text ((same_iff id expected).0 sid ∙ is_request),
                                      ),
                                      is_request,
                                      continues-Continues s b.session kept,
                                      parse_session_lem (at d "session") s es,
                                      refit after_request barrier s.steps i same_barrier awaited,
                                      (
                                        d,
                                        is_object,
                                        parse_inference-ReadFrom (at d "last_completed_inference")
                                            barrier s.steps i ei,
                                      ),
                                      bound,
                                      low,
                                      high,
                                      learned,
                                    )
