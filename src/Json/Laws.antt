-- ===== src/Json/Laws.antt =====
-- The laws of the maps of Json.antt.
use ergo_agent.Prelude.{String, ◌≡◌, refl, none, some, arith, ◌==◌, eq_iff, if◌then◌else◌}
use ergo_agent.Json.{Value, Fields, end, field, get, put, put_all}

pub get-put :
    (k j : String) (v : Value) (m : Fields)
    → get j (put k v m) ≡ (if k == j then some v else get j m)
unfolding get put
get-put k j v end = refl
get-put k j v (field i w m) = ground (arith, eq_iff k j, eq_iff i k, eq_iff i j, get-put k j v m)

-- A key that the payload lacks keeps its value.
pub get-put_all :
    (j : String) (payload m : Fields) → get j payload ≡ none → get j (put_all payload m) ≡ get j m
unfolding get put_all
get-put_all j end m h = refl
get-put_all j (field k v payload) m h =
    ground (arith, get-put_all j payload (put k v m), get-put k j v m)
