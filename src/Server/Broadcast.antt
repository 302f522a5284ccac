-- ===== src/Server/Broadcast.antt =====
-- The broadcast of onCommit (internal/server/websocket.go), over the map of clients.
use claude_ds_project.Base.{
  set, set-same, set-other, ℕ, ◌≡◌, ◌≢◌, ◌⊎◌, inl, inr, refl, sym, ◌∙◌, ap, [], ◌∷◌, Option, none,
  some, Bool-cases,
}
use Prim.Native.String.{String}
use text.Mathlib.Text.{◌==◌ as str_eq}
use text.Mathlib.TextEquality.{eq_iff}
use claude_ds_project.Outcome.{ok}
use claude_ds_project.Server.ClientMap.{Registry, lookup}
use claude_ds_project.Server.{Message, Heap, enqueue, broadcast_all}
use claude_ds_project.Server.Sending.{
  Keeps, Keeps-trans, send-open, IsRegistered, IsRegistered-client, IsRegistered-Keeps,
}

-- A broadcast: every client of the map but the author's gets the message, and no one else gets anything.
pub record IsDelivered (author : String) (message : Message) (m : Registry) (heap heap' : Heap)
    : Type 0 where
  pub kept : Keeps heap heap'
  pub reached :
      (k : String) (a : ℕ) → lookup k m ≡ some a → k ≢ author → heap' a ≡ enqueue (heap a) message
  pub others : (a : ℕ) → (lookup (heap a).id m ≢ some a) ⊎ ((heap a).id ≡ author) → heap' a ≡ heap a

pub none-some : {a : ℕ} {o : Option ℕ} → o ≡ none → o ≢ some a
none-some h k = let f = sym h ∙ k in cc

module _ (author : String) (message : Message) (k : String) (a : ℕ) (m : Registry)
    (heap heap' : Heap) (id : (heap a).id ≡ k) (new : lookup k m ≡ none) where
  -- The head of the map is the author.
  IsDelivered-skip :
      k ≡ author
      → IsDelivered author message m heap heap'
      → IsDelivered author message ((k, a) ∷ m) heap heap'
  unfolding lookup
  IsDelivered-skip same d = record {
    kept = d.kept;
    reached = λ j b found other. elim (Bool-cases (str_eq k j)) [
      | inl hit ↦ absurd (other (sym ((eq_iff k j).0 hit) ∙ same))
      | inr miss ↦ d.reached j b (rw miss at found) other
    ];
    others = λ b h. elim (Bool-cases (str_eq k (heap b).id)) [
      | inl hit ↦ d.others b (inr (sym ((eq_iff k (heap b).id).0 hit) ∙ same))
      | inr miss ↦ d.others b (rw miss at h)
    ];
  }

  unlisted_tail :
      (b : ℕ)
      → (lookup (heap b).id ((k, a) ∷ m) ≢ some b) ⊎ ((heap b).id ≡ author)
      → (lookup (heap b).id m ≢ some b) ⊎ ((heap b).id ≡ author)
  unfolding lookup
  unlisted_tail b (inr mine) = inr mine
  unlisted_tail b (inl h) = elim (Bool-cases (str_eq k (heap b).id)) [
    | inl hit ↦ inl (none-some (rw (← (eq_iff k (heap b).id).0 hit) new))
    | inr miss ↦ inl (rw miss at h)
  ]

  -- The head of the map got the message first.
  IsDelivered-sent :
      k ≢ author
      → ((j : String) (b : ℕ) → lookup j m ≡ some b → (heap b).id ≡ j)
      → Keeps heap (set a (enqueue (heap a) message) heap)
      → IsDelivered author message m (set a (enqueue (heap a) message) heap) heap'
      → IsDelivered author message ((k, a) ∷ m) heap heap'
  unfolding lookup
  IsDelivered-sent other ids keeps d =
      let mid : Heap = set a (enqueue (heap a) message) heap in
      record {
        kept = Keeps-trans keeps d.kept;
        reached = λ j b found author'. elim (Bool-cases (str_eq k j)) [
          | inl hit ↦
              let e : b ≡ a = let f = rw hit at found in cc in
              rw e (
                d.others a (inl (none-some (rw (keeps.ids a, id) new)))
                ∙ set-same a (enqueue (heap a) message) heap)
          | inr miss ↦
              let found' : lookup j m ≡ some b = rw miss at found in
              let apart : b ≢ a = λ e.
                let name : j ≡ k = sym (ids j b found') ∙ ap (λ x. (heap x).id) e ∙ id in
                none-some {a = b} (ap (λ x. lookup x m) name ∙ new) found' in
              d.reached j b found' author'
              ∙ ap (λ c. enqueue c message) (set-other a (enqueue (heap a) message) heap b apart)
        ];
        others = λ b h.
            let apart : b ≢ a = λ e. elim h [
              | inl unlisted ↦ unlisted (rw (e, id, (eq_iff k k).1 refl) refl)
              | inr mine ↦ other (sym id ∙ ap (λ x. (heap x).id) (sym e) ∙ mine)
            ] in
            let same : mid b ≡ heap b = set-other a (enqueue (heap a) message) heap b apart in
            d.others b (rw same (unlisted_tail b h)) ∙ same;
      }

pub broadcast_all-IsDelivered :
    (author : String) (message : Message) (m : Registry) (heap : Heap) (next : ℕ)
    → IsRegistered heap next m
    → (heap' : Heap) × (broadcast_all author message m heap ≡ ok heap')
      × IsDelivered author message m heap heap'
unfolding broadcast_all lookup
broadcast_all-IsDelivered author message [] heap next r = (
  heap,
  refl,
  record {
    kept = record { ids = λ _. refl; channels = λ _. refl; conns = λ _. refl };
    reached = λ k a found _. absurd (none-some refl found);
    others = λ _ _. refl;
  },
)
broadcast_all-IsDelivered author message ((k, a) ∷ m) heap next (id, living, below, new, rest) =
    elim (Bool-cases (str_eq k author)) [
      | inl same ↦
          let (heap', runs, d) = broadcast_all-IsDelivered author message m heap next rest in
          (
            heap',
            rw same runs,
            IsDelivered-skip author message k a m heap heap' id new ((eq_iff k author).0 same) d,
          )
      | inr other ↦
          let (sends, keeps) = send-open heap a message living in
          let mid : Heap = set a (enqueue (heap a) message) heap in
          let (heap', runs, d) =
            broadcast_all-IsDelivered author message m mid next
              (IsRegistered-Keeps heap mid next m keeps rest) in
          (
            heap',
            rw (other, sends) runs,
            IsDelivered-sent author message k a m heap heap' id new
                (λ e. let f = sym other ∙ (eq_iff k author).1 e in cc)
                (λ j b found. (IsRegistered-client heap next m j b rest found).0) keeps d,
          )
    ]
