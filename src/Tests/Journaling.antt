-- ===== src/Tests/Journaling.antt =====
-- The theorem on the journal at two appends, of which one is refused.
use grok_bot_data.Prelude.{
  ℕ, String, Bool, false, [], ◌∷◌, ◌==◌, string_eq, pair_eq, nat_eq, option_eq,
}
use grok_bot_data.Observatory.Journal.{JournalRecord, Metadata, object, field, text, no_fields, new}
use grok_bot_data.Observatory.Journal.Screening.{AllClean, appends, appends-AllClean}

abbrev secret : String → Bool
secret key = key == "password"

abbrev size : Metadata → ℕ
size m = 10

abbrev never_same : Metadata → Metadata → Bool
never_same a b = false

abbrev entry : String → String → JournalRecord
entry id key = record {
  record_id = id;
  workspace_id = "team";
  conversation_id = "talk";
  run_id = "run";
  actor_id = "ann";
  event_type = "tool";
  audience_principals = "ann" ∷ [];
  metadata = object (field key (text "x") no_fields);
  occurred_at = "now";
}

appends-AllClean_example :
    AllClean secret size never_same
      (appends secret size never_same (entry "r1" "tool" ∷ entry "r2" "password" ∷ []) new)
unfolding new
appends-AllClean_example =
    appends-AllClean secret size never_same (entry "r1" "tool" ∷ entry "r2" "password" ∷ []) new tt
