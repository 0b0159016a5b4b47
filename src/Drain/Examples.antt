-- ===== src/Drain/Examples.antt =====
-- One receipt, sent and validated.
use minecraft_ai.Prelude.{
  ℕ, zero, suc, ◌≤◌, true, false, [], ◌∷◌, ◌≡◌, refl, none, some, Str, same, codes, contains, ◌==◌,
}
use minecraft_ai.Drain.Value.{Items, object, end, keys, field, has_exactly}
use minecraft_ai.Drain.Fields.{PosixPaths, object_with, counter}
use minecraft_ai.Drain.Receipt.{
  at, Session, CheckpointBinding, DrainBinding, Receipt, continues, validate_ack, from_ready,
  max_checkpoint_bytes,
}
use minecraft_ai.Drain.Accepted.{
  HasText, Continues, ReadFrom, InferenceFits, LearningFits, validate_ack_lem,
}
use minecraft_ai.Drain.Encoded.{ack_items, good_receipt}
use minecraft_ai.Drain.Roundtrip.{validate-ack_value}

-- paths as they are written
abbrev plain : PosixPaths
plain = record {
  is_absolute = λ s. elim s [ [] ↦ false | c ∷ _ ↦ c == 47 ];
  parts = λ s. s ∷ [];
  path_text = λ s. s;
}

abbrev repeat : ℕ → ℕ → Str
repeat zero c = []
repeat (suc n) c = c ∷ repeat n c

abbrev descriptor : CheckpointBinding
descriptor = record {
  path = codes "/state/session.bin";
  payload_contract = codes "native.v1";
  model_sha256 = repeat 64 97;
  configuration_sha256 = repeat 64 98;
}

abbrev ready_session : Session
ready_session = record {
  session_id = codes "s-1";
  episode_id = codes "e-1";
  episode_index = 0;
  steps = 10;
  episode_steps = 4;
}

abbrev binding : DrainBinding
binding = record { session = ready_session; checkpoint = some descriptor }

abbrev receipt : Receipt
receipt = record {
  request_id = codes "drain-1";
  session = record ready_session { steps = 12; episode_steps = 6 };
  inference = some (record {
    request_id = codes "infer-9";
    episode_id = codes "e-1";
    session_steps_before = 11;
    session_steps_after = 12;
    outcome = codes "prediction";
    prediction_written = true;
  });
  checkpoint = record {
    descriptor = descriptor;
    sha256 = repeat 64 48;
    bytes = 4096;
    learning = some (record {
      update_algorithm = codes "sgd";
      prefix_cursor = 8;
      train_cursor = 8;
      training_events = 2;
      parameter_update_events = 1;
    });
  };
}

validate-ack_value_example :
    validate_ack plain binding
      (object (ack_items receipt))
      (codes "drain-1")
      (some (codes "infer-9"))
    ≡ some receipt
unfolding good_receipt continues same contains
validate-ack_value_example = validate-ack_value plain binding receipt refl refl refl

validate_ack_lem_example :
    HasText (object (ack_items receipt)) "request_id" (codes "drain-1")
    × (receipt.request_id ≡ codes "drain-1")
    × Continues receipt.session binding.session
    × (receipt.session.episode_steps ≤ receipt.session.steps)
    × InferenceFits (some (codes "infer-9")) receipt.session.steps receipt.inference
    × ((d : Items) × (object (ack_items receipt) ≡ object d)
        × ReadFrom (at d "last_completed_inference") receipt.inference)
    × (binding.checkpoint ≡ some receipt.checkpoint.descriptor)
    × (1 ≤ receipt.checkpoint.bytes)
    × (receipt.checkpoint.bytes ≤ max_checkpoint_bytes)
    × LearningFits receipt.session.steps receipt.checkpoint.learning
validate_ack_lem_example =
    validate_ack_lem plain binding (object (ack_items receipt)) (codes "drain-1")
      (some (codes "infer-9")) receipt validate-ack_value_example

-- a lost step is refused
lost_step :
    validate_ack plain
      (record binding { session = record ready_session { steps = 13 } })
      (object (ack_items receipt))
      (codes "drain-1")
      (some (codes "infer-9"))
    ≡ none
unfolding validate_ack ack_items same contains keys field has_exactly object_with counter
lost_step = refl

-- a worker without the contract offers no drain
no_contract : from_ready plain (object end) (repeat 64 97) ≡ some none
unfolding from_ready keys contains
no_contract = refl
