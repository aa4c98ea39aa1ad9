-- ===== src/Json/Members.antt =====
-- Reading a member of an object after a write.
use fountainer_client_framew.Common.{
  ◌≡◌, refl, some, String, arith, same_text, same_text_iff, if◌then◌else◌,
}
use fountainer_client_framew.Json.{Json, Fields, end, field, find_field, set_field}

pub find_field-set_field :
    (k j : String) (v : Json) (fs : Fields)
    → find_field j (set_field k v fs) ≡ (if same_text j k then some v else find_field j fs)
unfolding find_field set_field
find_field-set_field k j v end = refl
find_field-set_field k j v (field i w fs) =
    ground (
      arith,
      same_text_iff k i,
      same_text_iff j k,
      same_text_iff j i,
      find_field-set_field k j v fs,
    )
