-- ===== src/Server/ClientMap.antt =====
-- The map `clients` of the server's Node (internal/server/websocket.go), as an association list from the id of
-- a client to the address of its wsClient.
use claude_ds_project.Base.{
  ℕ, ◌≡◌, ◌≢◌, refl, List, [], ◌∷◌, Option, none, some, if◌then◌else◌, arith,
}
use Prim.Native.String.{String}
use text.Mathlib.Text.{◌==◌ as str_eq}
use text.Mathlib.TextEquality.{eq_iff}

abbrev pub Registry : Type 0
Registry = List (String × ℕ)

unfoldable pub lookup : String → Registry → Option ℕ
lookup k [] = none
lookup k ((j, a) ∷ m) = if str_eq j k then some a else lookup k m

-- delete(n.clients, k)
unfoldable pub remove : String → Registry → Registry
remove k [] = []
remove k ((j, a) ∷ m) = let rest = remove k m in if str_eq j k then rest else (j, a) ∷ rest

-- n.clients[k] = a
unfoldable pub insert_at : String → ℕ → Registry → Registry
unfolding remove
insert_at k a m = (k, a) ∷ remove k m

pub lookup-remove_same : (k : String) (m : Registry) → lookup k (remove k m) ≡ none
unfolding lookup remove
lookup-remove_same k [] = refl
lookup-remove_same k ((j, a) ∷ m) = ground (arith, lookup-remove_same k m)

pub lookup-remove_other : (k i : String) (m : Registry) → i ≢ k → lookup i (remove k m) ≡ lookup i m
unfolding lookup remove
lookup-remove_other k i [] h = refl
lookup-remove_other k i ((j, a) ∷ m) h =
    ground (arith, eq_iff j k, eq_iff j i, lookup-remove_other k i m h)

pub lookup-insert_same : (k : String) (a : ℕ) (m : Registry) → lookup k (insert_at k a m) ≡ some a
unfolding lookup insert_at
lookup-insert_same k a m = rw ((eq_iff k k).1 refl) refl
