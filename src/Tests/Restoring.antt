-- ===== src/Tests/Restoring.antt =====
-- A guard of src/datapoints/restore_guard.cpp on concrete values.
use fountainer_client_framew.Common.{◌≡◌, ◌⊎◌, refl, inl, true, some, String, List, [], ◌∷◌}
use fountainer_client_framew.Error.{Result, ok}
use fountainer_client_framew.Json.{Json, number_unsigned, object, field, end}
use fountainer_client_framew.Json
use fountainer_client_framew.Session.Values.{elements, value_json}
use fountainer_client_framew.Dispatcher.Types.{RequestSpec}
use fountainer_client_framew.Dispatcher.Store.{get, put}
use fountainer_client_framew.Datapoint.{of_u16}
use fountainer_client_framew.Catalog.{find, same_access}
use fountainer_client_framew.Codec.{value_from_json}
use fountainer_client_framew.Snapshot.{decode_dp_object}
use fountainer_client_framew.Manager.{Manager, new, update_cache, update_values, update_entry}
use fountainer_client_framew.Manager.Exchange.{
  read_request, first_unknown, read_response, add_unknowns,
}
use fountainer_client_framew.RestoreGuard.{
  RestoreGuard, capture, restore, destroy, dismiss, check_names, read_names, guard_of,
}
use fountainer_client_framew.RestoreGuard.Baseline.{Refused, Restored, destroy-capture}
use fountainer_client_framew.Tests.Datapoints.{numbers}
use fountainer_client_framew.Tests.Managing.{library, takes, after}

abbrev asked : List String
asked = "Fon_Max_On_Time" ∷ []

-- The device gives the value.
abbrev gives : RequestSpec → Manager → Manager × Result Json
gives spec m =
    (m, ok (object (field "dp" (object (field "Fon_Max_On_Time" (number_unsigned 60) end)) end)))

abbrev guard : RestoreGuard
guard = record {
  baseline = record { values = ("Fon_Max_On_Time", of_u16 60) ∷ []; unknown_names = [] };
  armed = true;
}

captured : (capture numbers 3 gives asked new).2 ≡ ok guard
unfolding elements value_json capture check_names read_names guard_of read_request first_unknown
    read_response add_unknowns new put get find same_access decode_dp_object value_from_json
    update_cache update_values update_entry Json.find
captured = refl

destroy-capture_example :
    (Refused numbers library guard new (destroy numbers library 6 takes guard new)
      ⊎ Restored numbers library 6 takes guard new (destroy numbers library 6 takes guard new))
    × (destroy numbers library 6 takes (restore numbers library 5 takes guard after).0 new
        ≡ some (new, []))
    × (destroy numbers library 6 takes (dismiss guard) new ≡ some (new, []))
destroy-capture_example =
    destroy-capture numbers library 3 gives asked new guard 6 takes new 5 takes after captured
      (inl refl, tt)
