-- ===== src/Catalog/Enums.antt =====
-- `==` of the enumerations of include/fountainer/datapoints/datapoint.hpp.
use fountainer_client_framew.Common.{◌≡◌, ◌↔◌, arith, true}
use fountainer_client_framew.Datapoint.{
  Access, Persistence, PollClass, realtime, status, config, on_connect, disabled,
}
use fountainer_client_framew.Catalog.{same_access, same_persistence, same_poll_class}

pub same_access_iff : (a b : Access) → (same_access a b ≡ true) ↔ (a ≡ b)
unfolding same_access
same_access_iff a b = ground arith

pub same_persistence_iff : (a b : Persistence) → (same_persistence a b ≡ true) ↔ (a ≡ b)
unfolding same_persistence
same_persistence_iff a b = ground arith

pub same_poll_class_iff : (a b : PollClass) → (same_poll_class a b ≡ true) ↔ (a ≡ b)
unfolding same_poll_class
same_poll_class_iff realtime b = ground arith
same_poll_class_iff status b = ground arith
same_poll_class_iff config b = ground arith
same_poll_class_iff on_connect b = ground arith
same_poll_class_iff disabled b = ground arith
