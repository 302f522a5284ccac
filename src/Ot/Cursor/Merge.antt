-- ===== src/Ot/Cursor/Merge.antt =====
-- `addOp` changes the shape of the result and not its meaning.
use claude_ds_project.Base.{
  ◌+◌, ◌<◌, ◌≡◌, refl, ◌∙◌, List, [], ◌∷◌, ◌++◌, length-append, append_assoc, append-nil, arith,
}
use mathlib.Core.List.{reverse, reverse-cons}
use claude_ds_project.GoInt.{half, add-small}
use claude_ds_project.Ot.Changeset.{Text, Op, retain, insert, delete, unknown}
use claude_ds_project.Ot.Meaning.{
  patch, consumed, produced, IsProper, AllProper, Splits, split_retain, split_insert, split_delete,
  patch-append, patch-split, consumed-append, produced-append, consumed-split, produced-split,
}
use claude_ds_project.Ot.Cursor.{add_op}

-- The calls of `addOp` for a list of operations, in order.
unfoldable pub add_all : List Op → List Op → List Op
add_all [] acc = acc
add_all (op ∷ ops) acc = add_all ops (add_op op acc)

-- Either `op` is put on the stack, or it is one operation with the last one.
data Added (op : Op) : List Op → List Op → Type 0 where
  pushed : {acc : List Op} → Added op acc (op ∷ acc)
  merged :
      {last both : Op} {acc : List Op} → Splits both last op → Added op (last ∷ acc) (both ∷ acc)

add_op-Added :
    (op : Op) (acc : List Op)
    → consumed acc + consumed (op ∷ []) < half
    → Added op acc (add_op op acc)
unfolding add_op
add_op-Added (retain n) [] h = pushed
add_op-Added (retain n) (retain m ∷ acc) h = merged (split_retain (add-small m n (omega arith)))
add_op-Added (retain n) (insert s ∷ acc) h = pushed
add_op-Added (retain n) (delete m ∷ acc) h = pushed
add_op-Added (retain n) (unknown m ∷ acc) h = pushed
add_op-Added (insert s) [] h = pushed
add_op-Added (insert s) (retain m ∷ acc) h = pushed
add_op-Added (insert s) (insert t ∷ acc) h = merged (split_insert refl)
add_op-Added (insert s) (delete m ∷ acc) h = pushed
add_op-Added (insert s) (unknown m ∷ acc) h = pushed
add_op-Added (delete n) [] h = pushed
add_op-Added (delete n) (retain m ∷ acc) h = pushed
add_op-Added (delete n) (insert s ∷ acc) h = pushed
add_op-Added (delete n) (delete m ∷ acc) h = merged (split_delete (add-small m n (omega arith)))
add_op-Added (delete n) (unknown m ∷ acc) h = pushed
add_op-Added (unknown n) [] h = pushed
add_op-Added (unknown n) (retain m ∷ acc) h = pushed
add_op-Added (unknown n) (insert s ∷ acc) h = pushed
add_op-Added (unknown n) (delete m ∷ acc) h = pushed
add_op-Added (unknown n) (unknown m ∷ acc) h = pushed

reverse-cons-append :
    (op : Op) (acc ops : List Op) → reverse (op ∷ acc) ++ ops ≡ reverse acc ++ (op ∷ ops)
reverse-cons-append op acc ops = simp (reverse-cons, append_assoc)

Added-patch :
    {op : Op} {acc acc' : List Op} (ops : List Op) (doc : Text)
    → Added op acc acc'
    → patch (reverse acc' ++ ops) doc ≡ patch (reverse acc ++ (op ∷ ops)) doc
Added-patch {op} ops doc (pushed {acc = acc}) = rw (reverse-cons-append op acc ops)
Added-patch {op} ops doc (merged {last = last} {both = both} {acc = acc} s) =
    rw (reverse-cons-append both acc ops, reverse-cons-append last acc (op ∷ ops))
      (patch-append (reverse acc) (both ∷ ops) (last ∷ op ∷ ops) (λ d. patch-split ops d s) doc)

Added-consumed :
    {op : Op} {acc acc' : List Op}
    → Added op acc acc'
    → consumed acc' ≡ consumed (op ∷ []) + consumed acc
Added-consumed {op} (pushed {acc = acc}) = consumed-append (op ∷ []) acc
Added-consumed {op} (merged {last = last} {acc = acc} s) = omega (
  arith,
  consumed-split acc s,
  consumed-append (last ∷ op ∷ []) acc,
  consumed-append (last ∷ []) (op ∷ []),
  consumed-append (last ∷ []) acc,
)

Added-produced :
    {op : Op} {acc acc' : List Op}
    → Added op acc acc'
    → produced acc' ≡ produced (op ∷ []) + produced acc
Added-produced {op} (pushed {acc = acc}) = produced-append (op ∷ []) acc
Added-produced {op} (merged {last = last} {acc = acc} s) = omega (
  arith,
  produced-split acc s,
  produced-append (last ∷ op ∷ []) acc,
  produced-append (last ∷ []) (op ∷ []),
  produced-append (last ∷ []) acc,
)

Splits-IsProper : {op p q : Op} → Splits op p q → IsProper q → IsProper op
Splits-IsProper (split_retain e) h = omega arith
Splits-IsProper (split_insert {s = s} {t = t} e) h = rw e (omega (arith, length-append s t))
Splits-IsProper (split_delete e) h = omega arith

Added-AllProper :
    {op : Op} {acc acc' : List Op}
    → Added op acc acc'
    → IsProper op
    → AllProper acc
    → AllProper acc'
Added-AllProper pushed h k = (h, k)
Added-AllProper (merged s) h k = (Splits-IsProper s h, k.1)

-- One call, then the others: what the total of the lengths allows.
fits_first :
    (op : Op) (ops acc : List Op)
    → consumed acc + consumed (op ∷ ops) < half
    → consumed acc + consumed (op ∷ []) < half
fits_first op ops acc h = omega (arith, consumed-append (op ∷ []) ops)

fits_rest :
    (op : Op) (ops acc : List Op)
    → consumed acc + consumed (op ∷ ops) < half
    → consumed (add_op op acc) + consumed ops < half
fits_rest op ops acc h = omega (
  arith,
  consumed-append (op ∷ []) ops,
  Added-consumed (add_op-Added op acc (fits_first op ops acc h)),
)

-- The result of the calls means what the operations mean, one after another.
pub patch-add_all :
    (ops acc : List Op)
    → consumed acc + consumed ops < half
    → (doc : Text) → patch (reverse (add_all ops acc)) doc ≡ patch (reverse acc ++ ops) doc
unfolding add_all
patch-add_all [] acc h doc = rw (append-nil (reverse acc))
patch-add_all (op ∷ ops) acc h doc =
    patch-add_all ops (add_op op acc) (fits_rest op ops acc h) doc
    ∙ Added-patch ops doc (add_op-Added op acc (fits_first op ops acc h))

pub consumed-add_all :
    (ops acc : List Op)
    → consumed acc + consumed ops < half
    → consumed (add_all ops acc) ≡ consumed acc + consumed ops
unfolding add_all
consumed-add_all [] acc h = omega arith
consumed-add_all (op ∷ ops) acc h = omega (
  arith,
  consumed-add_all ops (add_op op acc) (fits_rest op ops acc h),
  Added-consumed (add_op-Added op acc (fits_first op ops acc h)),
  consumed-append (op ∷ []) ops,
)

pub produced-add_all :
    (ops acc : List Op)
    → consumed acc + consumed ops < half
    → produced (add_all ops acc) ≡ produced acc + produced ops
unfolding add_all
produced-add_all [] acc h = omega arith
produced-add_all (op ∷ ops) acc h = omega (
  arith,
  produced-add_all ops (add_op op acc) (fits_rest op ops acc h),
  Added-produced (add_op-Added op acc (fits_first op ops acc h)),
  produced-append (op ∷ []) ops,
)

pub add_all-AllProper :
    (ops acc : List Op)
    → consumed acc + consumed ops < half
    → AllProper ops
    → AllProper acc
    → AllProper (add_all ops acc)
unfolding add_all
add_all-AllProper [] acc h p q = q
add_all-AllProper (op ∷ ops) acc h p q =
    add_all-AllProper ops (add_op op acc) (fits_rest op ops acc h) p.1
      (Added-AllProper (add_op-Added op acc (fits_first op ops acc h)) p.0 q)

-- Nothing of this depends on the order of the operations.
pub consumed-reverse : (ops : List Op) → consumed (reverse ops) ≡ consumed ops
consumed-reverse [] = refl
consumed-reverse (op ∷ ops) = rw reverse-cons (
    omega (
      arith,
      consumed-append (reverse ops) (op ∷ []),
      consumed-reverse ops,
      consumed-append (op ∷ []) ops,
    ))

pub produced-reverse : (ops : List Op) → produced (reverse ops) ≡ produced ops
produced-reverse [] = refl
produced-reverse (op ∷ ops) = rw reverse-cons (
    omega (
      arith,
      produced-append (reverse ops) (op ∷ []),
      produced-reverse ops,
      produced-append (op ∷ []) ops,
    ))

AllProper-append : (xs ys : List Op) → AllProper xs → AllProper ys → AllProper (xs ++ ys)
AllProper-append [] ys h k = k
AllProper-append (x ∷ xs) ys h k = (h.0, AllProper-append xs ys h.1 k)

pub reverse-AllProper : (ops : List Op) → AllProper ops → AllProper (reverse ops)
reverse-AllProper [] h = tt
reverse-AllProper (op ∷ ops) h =
    rw reverse-cons (AllProper-append (reverse ops) (op ∷ []) (reverse-AllProper ops h.1) (h.0, tt))
