-- ===== src/Ot/Cursor/Laws.antt =====
-- A cursor shows the operations that are still ahead of it: `peek` returns the first of these, and
-- `consume` takes it away or shortens it.
use claude_ds_project.Base.{
  ℕ, ◌+◌, ◌-◌, ◌≤◌, ◌<◌, ◌≡◌, refl, ap, ◌∙◌, List, [], ◌∷◌, none, some, length-drop, drop-drop,
  lt→ltb, le→leb, lt→leb, arith,
}
use claude_ds_project.GoInt
use claude_ds_project.GoInt.{half, add-small, sub-small, lt-small, le-small}
use claude_ds_project.Ot.Changeset.{Op, retain, insert, delete, unknown}
use claude_ds_project.Ot.Meaning.{IsProper}
use claude_ds_project.Ot.Cursor.{Cursor, cursor, trim, peek, consume, consume_list, size}

abbrev pub IsSound : Op → Type 0
IsSound op = IsProper op × (size op < half)

abbrev pub AllSound : List Op → Type 0
AllSound [] = Unit
AllSound (op ∷ ops) = IsSound op × AllSound ops

abbrev ahead : List Op → ℕ → List Op
ahead [] off = []
ahead (op ∷ ops) off = trim off op ∷ ops

abbrev Inside : List Op → ℕ → Type 0
Inside [] off = Unit
Inside (op ∷ ops) off = (off < size op) × AllSound (op ∷ ops)

pub record Shows (s : Cursor) (ops : List Op) : Type 0 where
  pub shown : ahead s.rest s.off ≡ ops
  pub inside : Inside s.rest s.off

pub size-pos : (op : Op) → IsProper op → 0 < size op
size-pos (retain n) h = h
size-pos (insert s) h = h
size-pos (delete n) h = h
size-pos (unknown n) h = absurd h

pub trim-zero : (op : Op) → size op < half → trim 0 op ≡ op
unfolding trim
trim-zero (retain n) h = ap retain (sub-small n 0 (omega arith) h ∙ omega arith)
trim-zero (insert s) h = refl
trim-zero (delete n) h = ap delete (sub-small n 0 (omega arith) h ∙ omega arith)
trim-zero (unknown n) h = ap unknown (sub-small n 0 (omega arith) h ∙ omega arith)

pub size-trim :
    (off : ℕ) (op : Op) → off ≤ size op → size op < half → size (trim off op) ≡ size op - off
unfolding trim
size-trim off (retain n) h k = sub-small n off h k
size-trim off (insert s) h k = length-drop off s
size-trim off (delete n) h k = sub-small n off h k
size-trim off (unknown n) h k = sub-small n off h k

sub-sub :
    (k off n : ℕ) → off + n ≤ k → k < half → GoInt.sub (GoInt.sub k off) n ≡ GoInt.sub k (off + n)
sub-sub k off n h l =
    rw
      (
        sub-small k off (omega arith) l,
        sub-small k (off + n) h l,
        sub-small (k - off) n (omega arith) (omega arith),
      )
      (omega arith)

pub trim-trim :
    (off n : ℕ) (op : Op)
    → off + n ≤ size op
    → size op < half
    → trim n (trim off op) ≡ trim (off + n) op
unfolding trim
trim-trim off n (retain k) h l = ap retain (sub-sub k off n h l)
trim-trim off n (insert s) h l = ap insert (drop-drop off n s)
trim-trim off n (delete k) h l = ap delete (sub-sub k off n h l)
trim-trim off n (unknown k) h l = ap unknown (sub-sub k off n h l)

pub trim-IsSound : (off : ℕ) (op : Op) → off < size op → IsSound op → IsSound (trim off op)
unfolding trim
trim-IsSound off (retain n) h k = omega (arith, sub-small n off)
trim-IsSound off (insert s) h k = omega (arith, length-drop off s)
trim-IsSound off (delete n) h k = omega (arith, sub-small n off)
trim-IsSound off (unknown n) h k = absurd k.0

pub Shows-start : (ops : List Op) → AllSound ops → Shows (cursor ops 0) ops
Shows-start [] h = record { shown = refl; inside = tt }
Shows-start (op ∷ ops) h = record {
  shown = ap (◌∷ ops) (trim-zero op h.0.1);
  inside = (size-pos op h.0.0, h);
}

pub peek-nil : {s : Cursor} → Shows s [] → peek s ≡ none
unfolding peek
peek-nil {s} h = go s.rest h.shown
  where
    go : (rest : List Op) → ahead rest s.off ≡ [] → peek (cursor rest s.off) ≡ none
    go [] e = refl
    go (op ∷ ops) e = cc

pub peek-cons : {s : Cursor} {op : Op} {ops : List Op} → Shows s (op ∷ ops) → peek s ≡ some op
unfolding peek
peek-cons {s} {op} {ops} h = go s.rest h.shown
  where
    go : (rest : List Op) → ahead rest s.off ≡ op ∷ ops → peek (cursor rest s.off) ≡ some op
    go [] e = cc
    go (p ∷ ps) e = cc

pub Shows-AllSound : {s : Cursor} {ops : List Op} → Shows s ops → AllSound ops
Shows-AllSound {s} {ops} h = go s.rest h.shown h.inside
  where
    go : (rest : List Op) → ahead rest s.off ≡ ops → Inside rest s.off → AllSound ops
    go [] e i = rw (← e) tt
    go (p ∷ ps) e i = rw (← e) (trim-IsSound s.off p i.0 i.1.0, i.1.1)

consume_list-zero : (ops : List Op) (off : ℕ) → consume_list ops off 0 ≡ cursor ops off
unfolding consume_list GoInt.lt
consume_list-zero [] off = refl
consume_list-zero (op ∷ ops) off = refl

consume_whole :
    (p : Op) (ps : List Op) (off : ℕ)
    → off < size p
    → size p < half
    → consume_list (p ∷ ps) off (size p - off) ≡ cursor ps 0
unfolding consume_list
consume_whole p ps off h k =
    rw
      (
        sub-small (size p) off (omega arith) k,
        lt-small 0 (size p - off) (omega arith) (omega arith),
        lt→ltb 0 (size p - off) (omega arith),
        le-small (size p - off) (size p - off) (omega arith) (omega arith),
        le→leb (size p - off) (size p - off) (omega arith),
        sub-small (size p - off) (size p - off) (omega arith) (omega arith),
      )
      (ap (consume_list ps 0) (omega arith) ∙ consume_list-zero ps 0)

consume_piece :
    (p : Op) (ps : List Op) (off n : ℕ)
    → 0 < n
    → off + n < size p
    → size p < half
    → consume_list (p ∷ ps) off n ≡ cursor (p ∷ ps) (off + n)
unfolding consume_list
consume_piece p ps off n z h k = rw (
  sub-small (size p) off (omega arith) k,
  lt-small 0 n (omega arith) (omega arith),
  lt→ltb 0 n z,
  le-small (size p - off) n (omega arith) (omega arith),
  lt→leb (size p - off) n (omega arith),
  add-small off n (omega arith),
)

consume_all_list :
    (rest : List Op) (off : ℕ) {op : Op} {ops : List Op}
    → ahead rest off ≡ op ∷ ops
    → Inside rest off
    → Shows (consume_list rest off (size op)) ops
consume_all_list [] off e i = cc
consume_all_list (p ∷ ps) off {op} {ops} e i =
    let first : op ≡ trim off p = cc in
    let others : ops ≡ ps = cc in
    rw (first, others, size-trim off p (omega arith) i.1.0.1, consume_whole p ps off i.0 i.1.0.1)
      (Shows-start ps i.1.1)

consume_part_list :
    (rest : List Op) (off n : ℕ) {op : Op} {ops : List Op}
    → ahead rest off ≡ op ∷ ops
    → Inside rest off
    → 0 < n
    → n < size op
    → Shows (consume_list rest off n) (trim n op ∷ ops)
consume_part_list [] off n e i z h = cc
consume_part_list (p ∷ ps) off n {op} {ops} e i z h =
    let first : op ≡ trim off p = cc in
    let others : ops ≡ ps = cc in
    let within : off + n < size p =
      omega (arith, size-trim off p (omega arith) i.1.0.1, ap size first) in
    rw
      (
        first,
        others,
        consume_piece p ps off n z within i.1.0.1,
        trim-trim off n p (omega arith) i.1.0.1,
      )
      (record { shown = refl; inside = (within, i.1) })

-- The whole of the first operation is consumed.
pub consume-all :
    {s : Cursor} {op : Op} {ops : List Op} → Shows s (op ∷ ops) → Shows (consume s (size op)) ops
unfolding consume
consume-all {s} h = consume_all_list s.rest s.off h.shown h.inside

-- A part of the first operation is consumed.
pub consume-part :
    {s : Cursor} {op : Op} {ops : List Op} (n : ℕ)
    → Shows s (op ∷ ops)
    → 0 < n
    → n < size op
    → Shows (consume s n) (trim n op ∷ ops)
unfolding consume
consume-part {s} n h z k = consume_part_list s.rest s.off n h.shown h.inside z k
