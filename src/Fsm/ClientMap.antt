-- ===== src/Fsm/ClientMap.antt =====
-- The map `clientLastSubmission` of internal/fsm/fsm.go, as an association list.
use claude_ds_project.Base.{ℕ, List, [], ◌∷◌, Option, none, some, ◌≡◌, refl, if◌then◌else◌, arith}
use Prim.Native.String.{String}
use text.Mathlib.Text.{◌==◌}
use text.Mathlib.TextEquality.{eq_iff}

abbrev pub Clients : Type 0
Clients = List (String × ℕ)

unfoldable pub last_submission : String → Clients → Option ℕ
last_submission k [] = none
last_submission k ((j, v) ∷ m) = if j == k then some v else last_submission k m

unfoldable pub record_submission : String → ℕ → Clients → Clients
record_submission k v [] = (k, v) ∷ []
record_submission k v ((j, w) ∷ m) = if j == k then (k, v) ∷ m else (j, w) ∷ record_submission k v m

pub last_submission-record_submission :
    (k j : String) (v : ℕ) (m : Clients)
    → last_submission j (record_submission k v m) ≡ (if k == j then some v else last_submission j m)
unfolding last_submission record_submission
last_submission-record_submission k j v [] = refl
last_submission-record_submission k j v ((i, w) ∷ m) =
    ground (arith, eq_iff k j, eq_iff i k, eq_iff i j, last_submission-record_submission k j v m)
