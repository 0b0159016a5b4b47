-- ===== src/Drain/Roundtrip.antt =====
-- A receipt that is sent as an acknowledgment is accepted as it was.
use minecraft_ai.Prelude.{
  is_some, ℕ, Bool, true, ◌≡◌, refl, Option, none, some, ◌&&◌, leb, Str, same, same_iff, codes,
  contains, arith, &&_split,
}
use minecraft_ai.Drain.Value.{boolean, text, object, has_exactly, keys, field, require, ◌>>=◌, ◌>>◌}
use minecraft_ai.Drain.Fields.{
  PosixPaths, object_with, request_id, is_true, is_text, counter, digest, boolean_of, identity,
  text_that, private_path, is_digest, is_request_id,
}
use minecraft_ai.Drain.Receipt.{
  Session, CheckpointBinding, DrainBinding, Inference, Learning, Checkpoint, Receipt, parse_session,
  parse_inference, parse_learning, parse_embedded, same_binding, parse_checkpoint, continues,
  parse_barrier, validate_ack, parse_descriptor, checkpoint_fields, ack_fields, at,
  max_checkpoint_bytes, drain_contract,
}
use minecraft_ai.Drain.Encoded.{
  number, session_value, inference_value, learning_value, checkpoint_items, ack_items, is_counter,
  good_session, good_inference, good_learning, good_descriptor, good_checkpoint, good_receipt,
  barrier_of,
}

parse-session_value :
    (s : Session) → good_session s ≡ true → parse_session (session_value s) ≡ some s
unfolding parse_session session_value good_session object_with has_exactly keys field contains same
    identity counter text_that
parse-session_value s h = ground arith

-- To put a result together from those of its parts.
bind_some :
    {A B : Type 0} (m : Option A) (f : A → Option B) (a : A) (b : B)
    → m ≡ some a
    → f a ≡ some b
    → (m >>= f) ≡ some b
bind_some m f a b h k = rw h k

bind_require :
    {B : Type 0} (test : Bool) (n : Option B) (b : B)
    → test ≡ true
    → n ≡ some b
    → (require test >> n) ≡ some b
bind_require test n b h k = rw h k

counter-number : (n : ℕ) → is_counter n ≡ true → counter (number n) ≡ some n
unfolding counter
counter-number n h = rw h refl

digest-text : (s : Str) → is_digest s ≡ true → digest (text s) ≡ some s
unfolding digest text_that
digest-text s h = rw h refl

request_id-text : (s : Str) → is_request_id s ≡ true → request_id (text s) ≡ some s
unfolding request_id text_that
request_id-text s h = rw h refl

is_text-text : (s : Str) → is_text (text s) s ≡ true
unfolding is_text
is_text-text s = (same_iff s s).1 refl

module _ (paths : PosixPaths) where
  parse-inference_value :
      (steps : ℕ) (o : Option Inference)
      → good_inference steps o ≡ true
      → parse_inference paths (inference_value o) (barrier_of o) steps ≡ some o
  unfolding parse_inference inference_value good_inference object_with has_exactly keys field
      contains same identity counter text_that request_id is_text
  parse-inference_value steps none h = refl
  parse-inference_value steps (some i) h = ground (
    arith,
    same_iff i.request_id i.request_id,
    same_iff i.outcome (codes "prediction"),
    same_iff i.outcome (codes "error"),
  )

  parse-learning_value :
      (steps : ℕ) (o : Option Learning)
      → good_learning steps o ≡ true
      → parse_embedded paths (is_some o) (learning_value o) steps ≡ some o
  unfolding parse_embedded parse_learning learning_value good_learning object_with has_exactly keys
      field contains same identity counter text_that
  parse-learning_value steps none h = refl
  parse-learning_value steps (some l) h = ground arith

  -- the same four fields among those of a checkpoint
  parse-descriptor :
      (c : Checkpoint)
      → good_descriptor paths c.descriptor ≡ true
      → parse_descriptor paths (checkpoint_items c) ≡ some c.descriptor
  unfolding parse_descriptor checkpoint_items good_descriptor field same identity digest
      private_path text_that
  parse-descriptor c h = ground arith

  same_binding_self : (c : CheckpointBinding) → same_binding paths c (some c) ≡ true
  unfolding same_binding
  same_binding_self c = ground (
    arith,
    same_iff c.path c.path,
    same_iff c.payload_contract c.payload_contract,
    same_iff c.model_sha256 c.model_sha256,
    same_iff c.configuration_sha256 c.configuration_sha256,
  )

  good_checkpoint_parts :
      (steps : ℕ) (c : Checkpoint)
      → good_checkpoint paths steps c ≡ true
      → (good_descriptor paths c.descriptor ≡ true)
        × (is_digest c.sha256 ≡ true)
        × (is_counter c.bytes ≡ true)
        × ((leb 1 c.bytes && leb c.bytes max_checkpoint_bytes) ≡ true)
        × (good_learning steps c.learning ≡ true)
  unfolding good_checkpoint
  good_checkpoint_parts steps c h = ground arith

  -- what the other fields of a checkpoint read
  checkpoint_items_lem :
      (c : Checkpoint)
      → (object_with checkpoint_fields (object (checkpoint_items c)) ≡ some (checkpoint_items c))
        × (at (checkpoint_items c) "bytes" ≡ number c.bytes)
        × (at (checkpoint_items c) "file_fsync_completed" ≡ boolean true)
        × (at (checkpoint_items c) "directory_fsync_completed" ≡ boolean true)
        × (at (checkpoint_items c) "atomicity_scope" ≡ text (codes "one_native_session_file"))
        × (at (checkpoint_items c) "learning_state_embedded" ≡ boolean (is_some c.learning))
        × (at (checkpoint_items c) "learning" ≡ learning_value c.learning)
        × (at (checkpoint_items c) "sha256" ≡ text c.sha256)
  unfolding checkpoint_items object_with has_exactly keys contains field same
  checkpoint_items_lem c = (refl, refl, refl, refl, refl, refl, refl, refl)

  parse-checkpoint_value :
      (steps : ℕ) (c : Checkpoint)
      → good_checkpoint paths steps c ≡ true
      → parse_checkpoint paths (object (checkpoint_items c)) (some c.descriptor) steps ≡ some c
  unfolding parse_checkpoint
  parse-checkpoint_value steps c h =
      let (shape, size, file, directory, scope, flag, learning, sum) = checkpoint_items_lem c in
      let (good, hash, count, range, learned) = good_checkpoint_parts steps c h in
      let d = checkpoint_items c in
      let synced =
        is_true (at d "file_fsync_completed") && is_true (at d "directory_fsync_completed") in
      let scoped = is_text (at d "atomicity_scope") (codes "one_native_session_file") in
      let synced_true : synced ≡ true = rw (file, directory) refl in
      let scoped_true : scoped ≡ true = rw scope (is_text-text (codes "one_native_session_file")) in
      let bytes : counter (at d "bytes") ≡ some c.bytes = rw size (counter-number c.bytes count) in
      let embedded : boolean_of (at d "learning_state_embedded") ≡ some (is_some c.learning) =
        rw flag refl in
      let learns : parse_embedded paths (is_some c.learning) (at d "learning") steps
          ≡ some c.learning =
        rw learning (parse-learning_value steps c.learning learned) in
      let sums : digest (at d "sha256") ≡ some c.sha256 = rw sum (digest-text c.sha256 hash) in
      bind_some _ _ d c shape (
        bind_some _ _ c.descriptor c (parse-descriptor c good) (
          bind_require _ _ c (same_binding_self c.descriptor) (
            bind_some _ _ c.bytes c bytes (
              bind_require _ _ c range (
                bind_require _ _ c synced_true (
                  bind_require _ _ c scoped_true (
                    bind_some _ _ (is_some c.learning) c embedded (
                      bind_some _ _ c.learning c learns (bind_some _ _ c.sha256 c sums refl)))))))))

  good_receipt_parts :
      (r : Receipt)
      → good_receipt paths r ≡ true
      → (is_request_id r.request_id ≡ true)
        × (good_session r.session ≡ true)
        × (good_inference r.session.steps r.inference ≡ true)
        × (good_checkpoint paths r.session.steps r.checkpoint ≡ true)
  unfolding good_receipt
  good_receipt_parts r h =
      let inferred = good_inference r.session.steps r.inference in
      let checked = good_checkpoint paths r.session.steps r.checkpoint in
      let (asked, h1) =
        &&_split (is_request_id r.request_id) (good_session r.session && (inferred && checked)) h in
      let (session, h2) = &&_split (good_session r.session) (inferred && checked) h1 in
      let (i, c) = &&_split inferred checked h2 in (asked, session, i, c)

  parse_barrier-of :
      (steps : ℕ) (o : Option Inference)
      → good_inference steps o ≡ true
      → parse_barrier paths (barrier_of o) ≡ some (barrier_of o)
  unfolding parse_barrier good_inference request_id text_that
  parse_barrier-of steps none h = refl
  parse_barrier-of steps (some i) h = ground arith

  -- what the fields of an acknowledgment read
  ack_items_lem :
      (r : Receipt)
      → (object_with ack_fields (object (ack_items r)) ≡ some (ack_items r))
        × (at (ack_items r) "type" ≡ text (codes "drained"))
        × (at (ack_items r) "contract" ≡ text drain_contract)
        × (at (ack_items r) "request_id" ≡ text r.request_id)
        × (at (ack_items r) "drained" ≡ boolean true)
        × (at (ack_items r) "status" ≡ text (codes "checkpointed"))
        × (at (ack_items r) "session" ≡ session_value r.session)
        × (at (ack_items r) "last_completed_inference" ≡ inference_value r.inference)
        × (at (ack_items r) "checkpoint" ≡ object (checkpoint_items r.checkpoint))
  unfolding ack_items object_with has_exactly keys contains field same
  ack_items_lem r = (refl, refl, refl, refl, refl, refl, refl, refl, refl)

  -- A receipt whose fields are in range, that continues the bound session and is for the bound
  -- checkpoint, is accepted as it is: sent, and validated against its request and barrier.
  pub validate-ack_value :
      (b : DrainBinding) (r : Receipt)
      → good_receipt paths r ≡ true
      → continues paths r.session b.session ≡ true
      → b.checkpoint ≡ some r.checkpoint.descriptor
      → validate_ack paths b (object (ack_items r)) r.request_id (barrier_of r.inference) ≡ some r
  unfolding validate_ack
  validate-ack_value b r h k e =
      let (asked, session, inferred, checked) = good_receipt_parts r h in
      let (shape, kind, contract, id, drained, status, s, i, c) = ack_items_lem r in
      let d = ack_items r in
      let kind_true : is_text (at d "type") (codes "drained") ≡ true =
        rw kind (is_text-text (codes "drained")) in
      let contract_true : is_text (at d "contract") drain_contract ≡ true =
        rw contract (is_text-text drain_contract) in
      let answers : request_id (at d "request_id") ≡ some r.request_id =
        rw id (request_id-text r.request_id asked) in
      let drained_true : is_true (at d "drained") ≡ true = rw drained refl in
      let status_true : is_text (at d "status") (codes "checkpointed") ≡ true =
        rw status (is_text-text (codes "checkpointed")) in
      let in_session : parse_session (at d "session") ≡ some r.session =
        rw s (parse-session_value r.session session) in
      let infers : parse_inference paths (at d "last_completed_inference") (barrier_of r.inference)
            r.session.steps
          ≡ some r.inference =
        rw i (parse-inference_value r.session.steps r.inference inferred) in
      let checks : parse_checkpoint paths (at d "checkpoint") b.checkpoint r.session.steps
          ≡ some r.checkpoint =
        rw (c, e) (parse-checkpoint_value r.session.steps r.checkpoint checked) in
      bind_some _ _ r.request_id r (request_id-text r.request_id asked) (
        bind_some _ _ (barrier_of r.inference) r
          (parse_barrier-of r.session.steps r.inference inferred)
          (bind_some _ _ d r shape (
            bind_require _ _ r kind_true (
              bind_require _ _ r contract_true (
                bind_some _ _ r.request_id r answers (
                  bind_require _ _ r ((same_iff r.request_id r.request_id).1 refl) (
                    bind_require _ _ r drained_true (
                      bind_require _ _ r status_true (
                        bind_some _ _ r.session r in_session (
                          bind_require _ _ r k (
                            bind_some _ _ r.inference r infers
                              (bind_some _ _ r.checkpoint r checks refl))))))))))))
