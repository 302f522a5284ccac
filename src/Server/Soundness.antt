-- ===== src/Server/Soundness.antt =====
-- The invariant of a server between two events (internal/server/websocket.go): the clients of the map,
-- and the clients that its connections hold.
use claude_ds_project.Base.{
  set, set-same, set-other, set-elim, number-cases, ℕ, suc, ◌<◌, ◌≡◌, ◌≢◌, ◌⊎◌, inl, inr, refl, sym,
  ◌∙◌, ap, [], none, some, true, false, arith,
}
use Prim.Native.String.{String}
use claude_ds_project.Server.ClientMap.{Registry, lookup, remove, insert_at, lookup-remove_same}
use claude_ds_project.Server.{WsClient, Heap, Pump, reading, ended, held}
use claude_ds_project.Server.Sending.{
  Keeps, IsRegistered, IsRegistered-client, IsRegistered-later, IsRegistered-Keeps,
  IsRegistered-remove,
}

pub record IsSound (heap : Heap) (next : ℕ) (clients : Registry) (pumps : ℕ → Pump) : Type 0 where
  pub registry : IsRegistered heap next clients
  pub living : (p a : ℕ) → held (pumps p) ≡ some a → (a < next) × ((heap a).closed ≡ false)
  pub owned : (p q a : ℕ) → held (pumps p) ≡ some a → held (pumps q) ≡ some a → p ≡ q
  -- No two clients write to one connection, and none to one that has not connected.
  pub writers : (a b : ℕ) → a < next → b < next → (heap a).conn ≡ (heap b).conn → a ≡ b
  pub unused : (p a : ℕ) → pumps p ≡ reading none → a < next → (heap a).conn ≢ p

-- Messages are sent or taken, and the connections hold what they held.
pub IsSound-Keeps :
    {heap heap' : Heap} {next : ℕ} {clients : Registry} {pumps pumps' : ℕ → Pump}
    → Keeps heap heap'
    → ((q : ℕ) → held (pumps' q) ≡ held (pumps q))
    → ((q : ℕ) → pumps' q ≡ reading none → pumps q ≡ reading none)
    → IsSound heap next clients pumps
    → IsSound heap' next clients pumps'
IsSound-Keeps {heap} {heap'} {next} {clients} k same idle h = record {
  registry = IsRegistered-Keeps heap heap' next clients k h.registry;
  living = λ p a e.
      let (below, open_) = h.living p a (sym (same p) ∙ e) in (below, k.channels a ∙ open_);
  owned = λ p q a e e'. h.owned p q a (sym (same p) ∙ e) (sym (same q) ∙ e');
  writers = λ a b low low' e. h.writers a b low low' (sym (k.conns a) ∙ e ∙ k.conns b);
  unused = λ p a e low same'. h.unused p a (idle p e) low (sym (k.conns a) ∙ same');
}

-- A pump is changed to one that holds the same client.
pub held-set :
    (pumps : ℕ → Pump) (p : ℕ) (pump : Pump)
    → held pump ≡ held (pumps p)
    → (q : ℕ) → held (set p pump pumps q) ≡ held (pumps q)
held-set pumps p pump h q = set-elim (λ x y. held y ≡ held (pumps x)) p pump pumps q h (λ _. refl)

-- A pump is changed to one that has connected, or has ended.
pub idle-set :
    (pumps : ℕ → Pump) (p : ℕ) (pump : Pump)
    → pump ≢ reading none
    → (q : ℕ) → set p pump pumps q ≡ reading none
    → pumps q ≡ reading none
idle-set pumps p pump busy q e = elim (number-cases q p) [
  | inl mine ↦ absurd (busy (sym (set-same p pump pumps) ∙ ap (set p pump pumps) (sym mine) ∙ e))
  | inr other ↦ sym (set-other p pump pumps q other) ∙ e
]

module _ {heap : Heap} {next : ℕ} {clients : Registry} {pumps : ℕ → Pump}
    (h : IsSound heap next clients pumps) where
  -- A connection that has not connected registers a new client.
  pub IsSound-connect :
      (p : ℕ) (k : String)
      → pumps p ≡ reading none
      → IsSound
          (set next (record { id = k; conn = p; outbox = []; closed = false }) heap)
          (suc next)
          (insert_at k next clients)
          (set p (reading (some next)) pumps)
  unfolding insert_at
  IsSound-connect p k idle =
      let new : WsClient = record { id = k; conn = p; outbox = []; closed = false } in
      let heap' : Heap = set next new heap in
      let old : (a : ℕ) → a < next → heap' a ≡ heap a =
        λ a low. set-other next new heap a (omega arith) in
      let here : heap' next ≡ new = set-same next new heap in
      let pumps' : ℕ → Pump = set p (reading (some next)) pumps in
      let holder : (q a : ℕ)
          → held (pumps' q) ≡ some a
          → ((q ≡ p) × (a ≡ next)) ⊎ ((q ≢ p) × (held (pumps q) ≡ some a)) =
        λ q a e. elim (number-cases q p) [
          | inl mine ↦
              let f : held (pumps' q) ≡ some next =
                ap (λ x. held (pumps' x)) mine ∙ ap held (set-same p (reading (some next)) pumps) in
              inl (mine, (let g = sym e ∙ f in cc))
          | inr other ↦
              inr (other, sym (ap held (set-other p (reading (some next)) pumps q other)) ∙ e)
        ] in
      record {
        registry = (
          ap (λ c. c.id) here,
          ap (λ c. c.closed) here,
          omega arith,
          lookup-remove_same k clients,
          IsRegistered-later heap heap' next (suc next) (remove k clients) (omega arith)
              (λ j a _ low. (ap (λ c. c.id) (old a low), ap (λ c. c.closed) (old a low)))
              (IsRegistered-remove heap next k clients h.registry),
        );
        living = λ q a e. elim (holder q a e) [
          | inl mine ↦ rw mine.1 (omega arith, ap (λ c. c.closed) here)
          | inr other ↦
              let (low, living) = h.living q a other.1 in
              (omega arith, ap (λ c. c.closed) (old a low) ∙ living)
        ];
        owned = λ q r a e e'. elim (holder q a e) [
          | inl x ↦ elim (holder r a e') [
            | inl y ↦ x.0 ∙ sym y.0
            | inr y ↦ absurd (let z = (h.living r a y.1).0 in omega (arith, z, x.1))
          ]
          | inr x ↦ elim (holder r a e') [
            | inl y ↦ absurd (let z = (h.living q a x.1).0 in omega (arith, z, y.1))
            | inr y ↦ h.owned q r a x.1 y.1
          ]
        ];
        writers = λ a b low low' e. elim (number-cases a next) [
          | inl x ↦ elim (number-cases b next) [
            | inl y ↦ x ∙ sym y
            | inr y ↦ absurd (
                h.unused p b idle (omega arith) (
                  sym (ap (λ c. c.conn) (old b (omega arith)))
                  ∙ sym e
                  ∙ ap (λ i. (heap' i).conn) x
                  ∙ ap (λ c. c.conn) here))
          ]
          | inr x ↦ elim (number-cases b next) [
            | inl y ↦ absurd (
                h.unused p a idle (omega arith) (
                  sym (ap (λ c. c.conn) (old a (omega arith)))
                  ∙ e
                  ∙ ap (λ i. (heap' i).conn) y
                  ∙ ap (λ c. c.conn) here))
            | inr y ↦ h.writers a b (omega arith) (omega arith) (
                sym (ap (λ c. c.conn) (old a (omega arith)))
                ∙ e
                ∙ ap (λ c. c.conn) (old b (omega arith)))
          ]
        ];
        unused = λ q a e low same. elim (number-cases q p) [
          | inl mine ↦ absurd (
              let f : reading (some next) ≡ reading none =
                sym (set-same p (reading (some next)) pumps) ∙ ap pumps' (sym mine) ∙ e in
              cc)
          | inr other ↦ elim (number-cases a next) [
            | inl x ↦ other (sym same ∙ ap (λ i. (heap' i).conn) x ∙ ap (λ c. c.conn) here)
            | inr x ↦
                h.unused q a (sym (set-other p (reading (some next)) pumps q other) ∙ e)
                  (omega arith) (sym (ap (λ c. c.conn) (old a (omega arith))) ∙ same)
          ]
        ];
      }

  -- A connection ends: its client leaves the map, and its channel is closed.
  pub IsSound-disconnect :
      (p a : ℕ)
      → held (pumps p) ≡ some a
      → IsSound
          (set a (record (heap a) { closed = true }) heap)
          next
          (remove (heap a).id clients)
          (set p ended pumps)
  IsSound-disconnect p a e =
      let shut : WsClient = record (heap a) { closed = true } in
      let conn : (b : ℕ) → (set a shut heap b).conn ≡ (heap b).conn =
        λ b. set-elim (λ x d. d.conn ≡ (heap x).conn) a shut heap b refl (λ _. refl) in
      let rest : IsRegistered heap next (remove (heap a).id clients) =
        IsRegistered-remove heap next (heap a).id clients h.registry in
      let holder : (q b : ℕ)
          → held (set p ended pumps q) ≡ some b
          → (q ≢ p) × (held (pumps q) ≡ some b) =
        λ q b e'. elim (number-cases q p) [
          | inl mine ↦
              let f : held (set p ended pumps q) ≡ none =
                ap (λ x. held (set p ended pumps x)) mine ∙ ap held (set-same p ended pumps) in
              absurd (let g = sym f ∙ e' in cc)
          | inr other ↦ (other, sym (ap held (set-other p ended pumps q other)) ∙ e')
        ] in
      record {
        registry =
            IsRegistered-later heap (set a shut heap) next next (remove (heap a).id clients)
              (omega arith)
              (λ k b found low.
                let apart : b ≢ a = λ same.
                  let id =
                    (IsRegistered-client heap next (remove (heap a).id clients) k b rest found).0 in
                  let name : (heap a).id ≡ k = sym (ap (λ x. (heap x).id) same) ∙ id in
                  let f =
                    sym (lookup-remove_same (heap a).id clients)
                    ∙ ap (λ x. lookup x (remove (heap a).id clients)) name
                    ∙ found in
                  cc in
                let old = set-other a shut heap b apart in
                (ap (λ c. c.id) old, ap (λ c. c.closed) old))
              rest;
        living = λ q b e'.
            let (other, e'') = holder q b e' in
            let (low, living) = h.living q b e'' in
            let apart : b ≢ a = λ same. other (h.owned q p a (rw same at e'') e) in
            (low, ap (λ c. c.closed) (set-other a shut heap b apart) ∙ living);
        owned = λ q r b x y. h.owned q r b (holder q b x).1 (holder r b y).1;
        writers = λ b c low low' e'. h.writers b c low low' (sym (conn b) ∙ e' ∙ conn c);
        unused = λ q b e' low same.
            h.unused q b (idle-set pumps p ended (λ f. cc) q e') low (sym (conn b) ∙ same);
      }
