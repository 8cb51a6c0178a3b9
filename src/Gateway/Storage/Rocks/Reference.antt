-- ===== src/Gateway/Storage/Rocks/Reference.antt =====
-- A database in memory that meets the laws: a log of writes, read as a sorted table. It shows that the
-- laws can be met, and tests run on it.
use prompt_cache_storage.Prelude.{
  ℕ, ◌*◌, pos, ◌≡◌, refl, sym, ap, subst, inl, inr, Bool, true, false, Option, none, some, List, [],
  ◌∷◌, Bytes, arith, All, ltb, leb, ◌==◌, beq, beq_iff, beq_refl, if◌then◌else◌, fun_ext, ◌∙◌,
  Bool-cases,
}
use prompt_cache_storage.Gateway.Metrics.{Latency}
use prompt_cache_storage.Gateway.Storage.Env.{is_answer}
use prompt_cache_storage.Gateway.Storage.Rocks.{
  Rocks, RocksLaws, Status, fine, not_found, BatchOp, put, delete, LeBytes, Member, IsSorted,
  apply_op, apply_batch,
}

abbrev pub Table : Type 0
Table = List (Bytes × Bytes)

before : Bytes → Bytes → Bool
before [] [] = false
before [] (d ∷ b) = true
before (c ∷ a) [] = false
before (c ∷ a) (d ∷ b) = let rest = before a b in if c == d then rest else ltb c d

before_trans : (a b c : Bytes) → before a b ≡ true → before b c ≡ true → before a c ≡ true
unfolding before
before_trans [] [] c h k = cc
before_trans [] (y ∷ b) [] h k = cc
before_trans [] (y ∷ b) (z ∷ c) h k = refl
before_trans (x ∷ a) [] c h k = cc
before_trans (x ∷ a) (y ∷ b) [] h k = cc
before_trans (x ∷ a) (y ∷ b) (z ∷ c) h k = ground (arith, before_trans a b c)

before_irrefl : (a : Bytes) → before a a ≡ false
unfolding before
before_irrefl [] = refl
before_irrefl (x ∷ a) = ground (arith, before_irrefl a)

before_total : (a b : Bytes) → beq b a ≡ false → before a b ≡ false → before b a ≡ true
unfolding beq before
before_total [] [] h k = cc
before_total [] (y ∷ b) h k = cc
before_total (x ∷ a) [] h k = refl
before_total (x ∷ a) (y ∷ b) h k = ground (arith, before_total a b)

before-le : (a b : Bytes) → before a b ≡ true → LeBytes a b
unfolding before
before-le [] b h = tt
before-le (x ∷ a) [] h = cc
before-le (x ∷ a) (y ∷ b) h = ground (arith, before-le a b)

not_before-le : (a b : Bytes) → before b a ≡ false → LeBytes a b
unfolding before
not_before-le [] b h = tt
not_before-le (x ∷ a) [] h = cc
not_before-le (x ∷ a) (y ∷ b) h = ground (arith, not_before-le a b)

unfoldable pub find : Bytes → Table → Option Bytes
find k [] = none
find k ((j, v) ∷ m) = if beq j k then some v else find k m

insert : Bytes → Bytes → Table → Table
insert k v [] = (k, v) ∷ []
insert k v ((j, w) ∷ m) =
    let rest = insert k v m in
    if beq j k then (k, v) ∷ m else if before k j then (k, v) ∷ (j, w) ∷ m else (j, w) ∷ rest

remove : Bytes → Table → Table
remove k [] = []
remove k ((j, w) ∷ m) = let rest = remove k m in if beq j k then rest else (j, w) ∷ rest

unfoldable pub from : Bytes → Table → Table
unfolding before
from k [] = []
from k ((j, w) ∷ m) = let rest = from k m in if before j k then rest else (j, w) ∷ rest

find-insert :
    (k j v : Bytes) (m : Table) → find j (insert k v m) ≡ (if beq k j then some v else find j m)
unfolding find insert
find-insert k j v [] = refl
find-insert k j v ((i, w) ∷ m) =
    ground (arith, find-insert k j v m, beq_iff k j, beq_iff i k, beq_iff i j)

find-remove : (k j : Bytes) (m : Table) → find j (remove k m) ≡ (if beq k j then none else find j m)
unfolding find remove
find-remove k j [] = ground arith
find-remove k j ((i, w) ∷ m) =
    ground (arith, find-remove k j m, beq_iff k j, beq_iff i k, beq_iff i j)

abbrev Above : Bytes → Table → Type 0
Above k = All (λ (e : Bytes × Bytes). before k e.0 ≡ true)

abbrev IsStrict : Table → Type 0
IsStrict [] = Unit
IsStrict (e ∷ m) = Above e.0 m × IsStrict m

Above-trans : (k j : Bytes) (m : Table) → before k j ≡ true → Above j m → Above k m
Above-trans k j [] h a = tt
Above-trans k j (e ∷ m) h (p, a) = (before_trans k j e.0 h p, Above-trans k j m h a)

Above-insert : (i k v : Bytes) (m : Table) → before i k ≡ true → Above i m → Above i (insert k v m)
unfolding insert
Above-insert i k v [] h a = (h, tt)
Above-insert i k v ((j, w) ∷ m) h (p, a) = ground (arith, Above-insert i k v m)

Above-remove : (i k : Bytes) (m : Table) → Above i m → Above i (remove k m)
unfolding remove
Above-remove i k [] a = tt
Above-remove i k ((j, w) ∷ m) (p, a) = ground (arith, Above-remove i k m)

insert-IsStrict : (k v : Bytes) (m : Table) → IsStrict m → IsStrict (insert k v m)
unfolding insert
insert-IsStrict k v [] h = (tt, tt)
insert-IsStrict k v ((j, w) ∷ m) (a, h) = elim (Bool-cases (beq j k)) [
  | inl e ↦ rw e (subst (λ x. Above x m) ((beq_iff j k).0 e) a, h)
  | inr e ↦ elim (Bool-cases (before k j)) [
    | inl f ↦ rw (e, f) ((f, Above-trans k j m f a), (a, h))
    | inr f ↦ rw (e, f) (Above-insert j k v m (before_total k j e f) a, insert-IsStrict k v m h)
  ]
]

remove-IsStrict : (k : Bytes) (m : Table) → IsStrict m → IsStrict (remove k m)
unfolding remove
remove-IsStrict k [] h = tt
remove-IsStrict k ((j, w) ∷ m) (a, h) = ground (arith, Above-remove j k m a, remove-IsStrict k m h)

-- The newest write first.
unfoldable pub table : List BatchOp → Table
unfolding insert remove before
table [] = []
table (put k v ∷ log) = insert k v (table log)
table (delete k ∷ log) = remove k (table log)

table-IsStrict : (log : List BatchOp) → IsStrict (table log)
unfolding table
table-IsStrict [] = tt
table-IsStrict (put k v ∷ log) = insert-IsStrict k v (table log) (table-IsStrict log)
table-IsStrict (delete k ∷ log) = remove-IsStrict k (table log) (table-IsStrict log)

unfoldable pub answer : Option Bytes → List BatchOp → Status × Bytes × List BatchOp
answer none w = (not_found, [], w)
answer (some v) w = (fine, v, w)

unfoldable pub record_all : List BatchOp → List BatchOp → List BatchOp
record_all [] log = log
record_all (op ∷ ops) log = record_all ops (op ∷ log)

find-table :
    (op : BatchOp) (log : List BatchOp) (j : Bytes)
    → find j (table (op ∷ log)) ≡ apply_op op (λ i. find i (table log)) j
unfolding table apply_op
find-table (put k v) log j = find-insert k j v (table log)
find-table (delete k) log j = find-remove k j (table log)

find-record_all :
    (ops log : List BatchOp) (j : Bytes)
    → find j (table (record_all ops log)) ≡ apply_batch ops (λ i. find i (table log)) j
unfolding record_all apply_batch
find-record_all [] log j = refl
find-record_all (op ∷ ops) log j =
    find-record_all ops (op ∷ log) j ∙ ap (λ m. apply_batch ops m j) (fun_ext (find-table op log))

from-IsSorted : (k : Bytes) (m : Table) → IsStrict m → IsSorted (from k m)
unfolding from
from-IsSorted k [] h = tt
from-IsSorted k ((j, w) ∷ m) (a, h) = elim (Bool-cases (before j k)) [
  | inl e ↦ rw e (from-IsSorted k m h)
  | inr e ↦ rw e (from-Above j k m a, from-IsSorted k m h)
]
  where
    from-Above :
        (i k : Bytes) (m : Table)
        → Above i m
        → All (λ (x : Bytes × Bytes). LeBytes i x.0) (from k m)
    from-Above i k [] a = tt
    from-Above i k ((j, w) ∷ m) (p, a) =
        let rest = from-Above i k m a in ground (arith, before-le i j)

abbrev Sound : Bytes → Table → Table → Type 0
Sound k m es = All (λ (e : Bytes × Bytes). LeBytes k e.0 × (find e.0 m ≡ some e.1)) es

-- An entry behind a smaller head is found past it.
find_behind :
    (j k : Bytes) (w : Bytes) (m : Table) → before j k ≡ true → find k ((j, w) ∷ m) ≡ find k m
unfolding find
find_behind j k w m h = elim (Bool-cases (beq j k)) [
  | inr e ↦ rw e refl
  | inl e ↦ absurd (clash (rw ((beq_iff j k).0 e) at h) (before_irrefl k))
]
  where
    clash : before k k ≡ true → before k k ≡ false → ⊥
    clash p q = cc

Sound-cons : (k j w : Bytes) (m es : Table) → Above j es → Sound k m es → Sound k ((j, w) ∷ m) es
Sound-cons k j w m [] a s = tt
Sound-cons k j w m (e ∷ es) (p, a) ((le, f), s) =
    ((le, find_behind j e.0 w m p ∙ f), Sound-cons k j w m es a s)

Above-from : (i k : Bytes) (m : Table) → Above i m → Above i (from k m)
unfolding from
Above-from i k [] a = tt
Above-from i k ((j, w) ∷ m) (p, a) = ground (arith, Above-from i k m)

from-Sound : (k : Bytes) (m : Table) → IsStrict m → Sound k m (from k m)
unfolding from find
from-Sound k [] h = tt
from-Sound k ((j, w) ∷ m) (a, h) =
    let rest = Sound-cons k j w m (from k m) (Above-from j k m a) (from-Sound k m h) in
    elim (Bool-cases (before j k)) [
      | inl e ↦ rw e rest
      | inr e ↦ rw e ((not_before-le k j e, rw (beq_refl j) refl), rest)
    ]

le-not_before : (a b : Bytes) → LeBytes a b → before b a ≡ false
unfolding before
le-not_before [] [] h = refl
le-not_before [] (y ∷ b) h = refl
le-not_before (x ∷ a) [] h = elim h [ ]
le-not_before (x ∷ a) (y ∷ b) (inl h) = ground arith
le-not_before (x ∷ a) (y ∷ b) (inr (e, h)) = ground (arith, le-not_before a b h)

from_complete :
    (k j v : Bytes) (m : Table) → before j k ≡ false → find j m ≡ some v → Member (j, v) (from k m)
unfolding from find
from_complete k j v [] h f = cc
from_complete k j v ((i, w) ∷ m) h f = elim (Bool-cases (beq i j)) [
  | inl e ↦
      let same = (beq_iff i j).0 e in
      let here : before i k ≡ false = subst (λ x. before x k ≡ false) (sym same) h in
      rw here (inl (cc (same, rw e at f)))
  | inr e ↦
      let rest = from_complete k j v m h (rw e at f) in
      elim (Bool-cases (before i k)) [ inl b ↦ rw b rest | inr b ↦ rw b (inr rest) ]
]

-- Latencies are not measured.
abbrev no_latency : Latency
no_latency = record { Ms = ℕ; microseconds = λ ms. ms * 1000; within = λ ms bound. leb ms bound }

abbrev pub reference : Rocks
reference = record {
  World = List BatchOp;
  Time = Unit {0};
  latency = no_latency;
  get = λ k w. answer (find k (table w)) w;
  write = λ ops w. (fine, record_all ops w);
  seek = λ k w. (record { entries = from k (table w); at_end = fine }, w);
  steady_now = λ w. (tt, w);
  elapsed = λ _ _. 0;
  unix_now_seconds = λ w. (pos 1700000000, w);
}

answer_fine :
    (o : Option Bytes) (w : List BatchOp) → (answer o w).0 ≡ fine → o ≡ some (answer o w).1
unfolding answer
answer_fine none w h = cc
answer_fine (some v) w h = refl

answer_absent : (o : Option Bytes) (w : List BatchOp) → (answer o w).0 ≡ not_found → o ≡ none
unfolding answer
answer_absent none w h = refl
answer_absent (some v) w h = cc

answer_keeps : (o : Option Bytes) (w : List BatchOp) → (answer o w).2 ≡ w
unfolding answer
answer_keeps none w = refl
answer_keeps (some v) w = refl

pub reference_answers : (k : Bytes) (w : List BatchOp) → is_answer (reference.get k w).0 ≡ true
unfolding answer
reference_answers k w = go (find k (table w))
  where
    go : (o : Option Bytes) → is_answer (answer o w).0 ≡ true
    go none = refl
    go (some v) = refl

pub reference_laws : RocksLaws reference
reference_laws = record {
  holds = λ w j. find j (table w);
  get_fine = λ k w. answer_fine (find k (table w)) w;
  get_absent = λ k w. answer_absent (find k (table w)) w;
  get_keeps = λ k w.
      ap (λ (log : List BatchOp). λ j. find j (table log)) (answer_keeps (find k (table w)) w);
  write_atomic = λ ops w. inl (find-record_all ops w);
  seek_keeps = λ k w. refl;
  seek_sound = λ k w. from-Sound k (table w) (table-IsStrict w);
  seek_sorted = λ k w. from-IsSorted k (table w) (table-IsStrict w);
  seek_complete =
      λ k w j v le held. inl (from_complete k j v (table w) (le-not_before k j le) held);
  steady_keeps = λ w. refl;
  unix_keeps = λ w. refl;
  unix_range = λ w. omega arith;
}

pub reference_holds : (w : List BatchOp) (j : Bytes) → reference_laws.holds w j ≡ find j (table w)
unfolding reference_laws
reference_holds w j = refl
