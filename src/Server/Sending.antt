-- ===== src/Server/Sending.antt =====
-- send of internal/server/websocket.go on open channels, and the map of clients.
use claude_ds_project.Base.{
  set, set-elim, ℕ, ◌≤◌, ◌<◌, ◌≡◌, inl, inr, refl, sym, ◌∙◌, [], ◌∷◌, none, some, false, Bool-cases,
  ltb, length, arith,
}
use Prim.Native.String.{String}
use text.Mathlib.Text.{◌==◌ as str_eq}
use text.Mathlib.TextEquality.{eq_iff}
use claude_ds_project.Outcome.{ok}
use claude_ds_project.Server.ClientMap.{Registry, lookup, remove}
use claude_ds_project.Server.{Message, WsClient, Heap, enqueue, send, capacity}

pub record Keeps (heap heap' : Heap) : Type 0 where
  pub ids : (a : ℕ) → (heap' a).id ≡ (heap a).id
  pub channels : (a : ℕ) → (heap' a).closed ≡ (heap a).closed
  pub conns : (a : ℕ) → (heap' a).conn ≡ (heap a).conn

pub Keeps-trans : {h k l : Heap} → Keeps h k → Keeps k l → Keeps h l
Keeps-trans p q = record {
  ids = λ a. q.ids a ∙ p.ids a;
  channels = λ a. q.channels a ∙ p.channels a;
  conns = λ a. q.conns a ∙ p.conns a;
}

pub set-Keeps :
    (heap : Heap) (a : ℕ) (c : WsClient)
    → c.id ≡ (heap a).id
    → c.closed ≡ (heap a).closed
    → c.conn ≡ (heap a).conn
    → Keeps heap (set a c heap)
set-Keeps heap a c h k l = record {
  ids = λ b. set-elim (λ x d. d.id ≡ (heap x).id) a c heap b h (λ _. refl);
  channels = λ b. set-elim (λ x d. d.closed ≡ (heap x).closed) a c heap b k (λ _. refl);
  conns = λ b. set-elim (λ x d. d.conn ≡ (heap x).conn) a c heap b l (λ _. refl);
}

enqueue-kept :
    (c : WsClient) (message : Message)
    → ((enqueue c message).id ≡ c.id)
      × ((enqueue c message).closed ≡ c.closed)
      × ((enqueue c message).conn ≡ c.conn)
unfolding enqueue
enqueue-kept c message = elim (Bool-cases (ltb (length c.outbox) capacity)) [
  | inl room ↦ rw room (refl, refl, refl)
  | inr full ↦ rw full (refl, refl, refl)
]

-- On an open channel.
pub send-open :
    (heap : Heap) (a : ℕ) (message : Message)
    → (heap a).closed ≡ false
    → (send heap a message ≡ ok (set a (enqueue (heap a) message) heap))
      × Keeps heap (set a (enqueue (heap a) message) heap)
unfolding send
send-open heap a message h =
    let (p, q, l) = enqueue-kept (heap a) message in
    (rw h refl, set-Keeps heap a (enqueue (heap a) message) p q l)

-- Every client of the map is open, and known under its id.
abbrev pub IsRegistered : Heap → ℕ → Registry → Type 0
IsRegistered heap next [] = Unit
IsRegistered heap next ((k, a) ∷ m) =
    ((heap a).id ≡ k)
    × ((heap a).closed ≡ false)
    × (a < next)
    × (lookup k m ≡ none)
    × IsRegistered heap next m

pub IsRegistered-client :
    (heap : Heap) (next : ℕ) (m : Registry) (k : String) (a : ℕ)
    → IsRegistered heap next m
    → lookup k m ≡ some a
    → ((heap a).id ≡ k) × ((heap a).closed ≡ false) × (a < next)
unfolding lookup
IsRegistered-client heap next [] k a h found = cc
IsRegistered-client heap next ((j, b) ∷ m) k a (same, living, below, new, rest) found =
    elim (Bool-cases (str_eq j k)) [
      | inl hit ↦
          let e : a ≡ b = let f = rw hit at found in cc in
          rw e (same ∙ (eq_iff j k).0 hit, living, below)
      | inr miss ↦ IsRegistered-client heap next m k a rest (rw miss at found)
    ]

-- A heap in which the clients below `next` keep their ids, and the open ones of the map stay open.
pub IsRegistered-later :
    (heap heap' : Heap) (next next' : ℕ) (m : Registry)
    → next ≤ next'
    → ((k : String) (a : ℕ)
        → lookup k m ≡ some a
        → a < next
        → ((heap' a).id ≡ (heap a).id) × ((heap' a).closed ≡ (heap a).closed))
    → IsRegistered heap next m
    → IsRegistered heap' next' m
unfolding lookup
IsRegistered-later heap heap' next next' [] le h r = tt
IsRegistered-later heap heap' next next' ((j, b) ∷ m) le h (same, living, below, new, rest) =
    let (p, q) = h j b (rw ((eq_iff j j).1 refl) refl) below in
    let tail : (k : String) (a : ℕ)
        → lookup k m ≡ some a
        → a < next
        → ((heap' a).id ≡ (heap a).id) × ((heap' a).closed ≡ (heap a).closed) =
      λ k a found low. elim (Bool-cases (str_eq j k)) [
        | inl hit ↦
            let e : j ≡ k = (eq_iff j k).0 hit in
            absurd (let f : none ≡ some a = sym new ∙ (rw e found) in cc)
        | inr miss ↦ h k a (rw miss found) low
      ] in
    (
      p ∙ same,
      q ∙ living,
      omega arith,
      new,
      IsRegistered-later heap heap' next next' m le tail rest,
    )

pub IsRegistered-Keeps :
    (heap heap' : Heap) (next : ℕ) (m : Registry)
    → Keeps heap heap'
    → IsRegistered heap next m
    → IsRegistered heap' next m
IsRegistered-Keeps heap heap' next m k r =
    IsRegistered-later heap heap' next next m (omega arith) (λ j a _ _. (k.ids a, k.channels a)) r

lookup-remove-none :
    (k j : String) (m : Registry) → lookup j m ≡ none → lookup j (remove k m) ≡ none
unfolding lookup remove
lookup-remove-none k j [] h = refl
lookup-remove-none k j ((i, b) ∷ m) h = ground (arith, lookup-remove-none k j m)

pub IsRegistered-remove :
    (heap : Heap) (next : ℕ) (k : String) (m : Registry)
    → IsRegistered heap next m
    → IsRegistered heap next (remove k m)
unfolding remove
IsRegistered-remove heap next k [] r = tt
IsRegistered-remove heap next k ((j, b) ∷ m) (same, living, below, new, rest) =
    elim (Bool-cases (str_eq j k)) [
      | inl hit ↦ rw hit (IsRegistered-remove heap next k m rest)
      | inr miss ↦ rw miss (
        same,
        living,
        below,
        lookup-remove-none k j m new,
        IsRegistered-remove heap next k m rest,
      )
    ]
