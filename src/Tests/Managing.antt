-- ===== src/Tests/Managing.antt =====
-- The manager on concrete values.
use fountainer_client_framew.Common.{ℕ, ◌≡◌, ◌⊎◌, refl, none, some, List, [], ◌∷◌}
use fountainer_client_framew.Error.{Result, ok}
use fountainer_client_framew.Json.{Json, number_unsigned, text, object, field, end}
use fountainer_client_framew.Dispatcher.Types.{RequestSpec}
use fountainer_client_framew.Datapoint.{
  DatapointDescriptor, described, presented, u8, read_only, volatile, status, of_u16, of_u8,
  variant_index, value_index_for, writable,
}
use fountainer_client_framew.Catalog.{find}
use fountainer_client_framew.Snapshot.{
  unsolicited_report, CachedValue, good, decode_dp_object, same_value,
}
use fountainer_client_framew.WriteSet.{assignable}
use fountainer_client_framew.Dispatcher.Store.{get, put}
use fountainer_client_framew.Codec.{value_from_json}
use fountainer_client_framew.Manager.{
  Manager, new, ingest_report, update_cache, update_values, update_entry, old_of,
}
use fountainer_client_framew.Manager.Exchange.{JsonLibrary}
use fountainer_client_framew.Manager.Staging.{stage, commit}
use fountainer_client_framew.Manager.Sound.{IsSound}
use fountainer_client_framew.Manager.History.{Occasion, stages, reports, run, run-IsSound}
use fountainer_client_framew.Manager.Ingestion.{Ingested, ingest_report-Ingested}
use fountainer_client_framew.Manager.Commit.{Unsent, Sent, commit_lem}
use fountainer_client_framew.Tests.Datapoints.{numbers}

abbrev pub library : JsonLibrary
library = record { dump = λ j. ""; float_byte = λ n. 0 }

abbrev utilization : DatapointDescriptor
utilization =
    described 5 "System_Utilization" u8 read_only volatile 0 0 0x7ff8000000000000 0x7ff8000000000000
      (presented "%" none 0 "" "") status

abbrev cached : ℕ → CachedValue
cached n = record {
  value = of_u8 n;
  received_at = 5;
  source = unsolicited_report;
  quality = good;
  report_sequence = some 1;
}

abbrev report : Json
report =
    object (field "System_Utilization" (number_unsigned 40) (field "Unheard_Of" (text "x") end))

abbrev occasions : List Occasion
occasions = stages "Fon_Max_On_Time" (of_u16 60) ∷ reports 5 unsolicited_report (some 1) report ∷ []

abbrev pub after : Manager
after = record {
  cache = ("System_Utilization", cached 40) ∷ [];
  staged = ("Fon_Max_On_Time", of_u16 60) ∷ [];
  subscriptions = [];
  next_token = 0;
}

happened : run numbers library occasions new ≡ some after
unfolding run stage ingest_report new assignable put find writable variant_index value_index_for
    decode_dp_object value_from_json update_cache update_values update_entry get
happened = refl

run-IsSound_example : IsSound after
run-IsSound_example = run-IsSound numbers library occasions after happened

-- The device takes the commit.
abbrev pub takes : RequestSpec → Manager → Manager × Result Json
takes spec m = (m, ok (object (field "status" (text "applied") end)))

commit_lem_example :
    Unsent numbers library after (commit numbers library 6 takes after)
    ⊎ Sent numbers library after takes (commit numbers library 6 takes after)
commit_lem_example = commit_lem numbers library 6 takes after run-IsSound_example

abbrev listened : Manager
listened = record after {
  subscriptions = record { token = 1; name = ""; callback = 7 } ∷ [];
  next_token = 1;
}

abbrev next_report : Json
next_report = object (field "System_Utilization" (number_unsigned 41) end)

ingest_report-Ingested_example : Ingested numbers 8 unsolicited_report (some 2) next_report listened
ingest_report-Ingested_example =
    ingest_report-Ingested numbers 8 unsolicited_report (some 2) next_report listened

-- The subscriber hears of the new value with the old one.
told_lem :
    (ingest_report numbers 8 unsolicited_report (some 2) next_report listened).1
    ≡ (
      7,
      record {
        descriptor = utilization;
        value = of_u8 41;
        old_value = some (of_u8 40);
        source = unsolicited_report;
        received_at = 8;
      },
    )
      ∷ []
unfolding ingest_report find decode_dp_object value_from_json update_cache update_values
    update_entry get put same_value old_of
told_lem = refl
