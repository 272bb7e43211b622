-- ===== src/Events/Database/Ordering.antt =====
-- The order of rows that a statement asks for: `order` of TypeORM's find options on `dlq_messages`.
use async_webhook_ingestion.Prelude.{
  ⊤, ℕ, Bool, true, false, ◌≡◌, refl, sym, ap, subst, ◌∙◌, List, [], ◌∷◌, leb, if◌then◌else◌,
  Bool-cases, inl, inr, arith,
}
use async_webhook_ingestion.Events.{DlqMessage}

pub data Direction : Type 0 where
  asc desc : Direction

-- A column of numbers or times, and its direction.
pub record Order : Type 0 where
  pub column : DlqMessage → ℕ
  pub direction : Direction

-- Whether the order lets `a` stand before `b`.
abbrev pub may_precede : Order → DlqMessage → DlqMessage → Bool
may_precede order a b = elim order.direction [
  | asc ↦ leb (order.column a) (order.column b)
  | desc ↦ leb (order.column b) (order.column a)
]

abbrev pub All : (DlqMessage → Type 0) → List DlqMessage → Type 0
All P [] = ⊤
All P (l ∷ ls) = P l × All P ls

abbrev pub IsOrdered : Order → List DlqMessage → Type 0
IsOrdered order [] = ⊤
IsOrdered order (l ∷ ls) = All (λ k. may_precede order l k ≡ true) ls × IsOrdered order ls

-- `Inserted l ls ks`: `ks` is `ls` with `l` put in somewhere.
pub data Inserted (l : DlqMessage) : List DlqMessage → List DlqMessage → Type 0 where
  here : {ls : List DlqMessage} → Inserted l ls (l ∷ ls)
  later :
      {k : DlqMessage} {ls ks : List DlqMessage} → Inserted l ls ks → Inserted l (k ∷ ls) (k ∷ ks)

-- `Rearranged ls ks`: `ks` has the rows of `ls`, each as often.
pub data Rearranged : List DlqMessage → List DlqMessage → Type 0 where
  none_left : Rearranged [] []
  put :
      {l : DlqMessage} {ls ks ms : List DlqMessage}
      → Rearranged ls ks
      → Inserted l ks ms
      → Rearranged (l ∷ ls) ms

-- The result of a statement with this order: where two rows have the same value, either may stand
-- first, and another statement may put them the other way.
pub record Answers (order : Order) (letters found : List DlqMessage) : Type 0 where
  pub same_rows : Rearranged letters found
  pub ordered : IsOrdered order found

module _ (P : DlqMessage → Type 0) where
  Inserted-All :
      {l : DlqMessage} {ls ks : List DlqMessage} → Inserted l ls ks → P l → All P ls → All P ks
  Inserted-All here p all = (p, all)
  Inserted-All (later i) p (q, all) = (q, Inserted-All i p all)

  Rearranged-All : {ls ks : List DlqMessage} → Rearranged ls ks → All P ls → All P ks
  Rearranged-All none_left all = tt
  Rearranged-All (put r i) (p, all) = Inserted-All i p (Rearranged-All r all)

-- No two rows have the same value, and they stand as the order says.
abbrev pub IsStrict : Order → List DlqMessage → Type 0
IsStrict order [] = ⊤
IsStrict order (l ∷ ls) = All (λ k. may_precede order k l ≡ false) ls × IsStrict order ls

Inserted-head :
    (order : Order) {l : DlqMessage} {ks ms : List DlqMessage}
    → Inserted l ks ms
    → All (λ k. may_precede order k l ≡ false) ks
    → IsOrdered order ms
    → ms ≡ l ∷ ks
Inserted-head order here below ordered = refl
Inserted-head order {l} (later {k} {ls} {ks} i) (p, below) (all, ordered) =
    absurd (clash (Inserted-first (λ m. may_precede order k m ≡ true) i all))
  where
    Inserted-first :
        (P : DlqMessage → Type 0) {l : DlqMessage} {ls ks : List DlqMessage}
        → Inserted l ls ks
        → All P ks
        → P l
    Inserted-first P here (q, all) = q
    Inserted-first P (later j) (q, all) = Inserted-first P j all

    clash : may_precede order k l ≡ true → ⊥
    clash q = cc (sym q ∙ p)

-- If no two rows have the same value, there is one answer.
pub Answers-unique :
    (order : Order) (letters found : List DlqMessage)
    → IsStrict order letters
    → Answers order letters found
    → found ≡ letters
Answers-unique order letters found strict a = go letters found strict a.same_rows a.ordered
  where
    tail_of :
        (ls ks ms : List DlqMessage) (l : DlqMessage)
        → ms ≡ l ∷ ks
        → IsOrdered order ms
        → IsOrdered order ks
    tail_of ls ks ms l e ordered = (subst (IsOrdered order) e ordered).1

    go :
        (letters found : List DlqMessage)
        → IsStrict order letters
        → Rearranged letters found
        → IsOrdered order found
        → found ≡ letters
    go [] found strict none_left ordered = refl
    go (l ∷ ls) found (below, strict) (put {ks} r i) ordered =
        let e =
          Inserted-head order i (Rearranged-All (λ k. may_precede order k l ≡ false) r below)
            ordered in
        e ∙ ap (λ rest. l ∷ rest) (go ls ks strict r (tail_of ls ks found l e ordered))

-- Sorting by insertion answers a statement.
abbrev pub place : Order → DlqMessage → List DlqMessage → List DlqMessage
place order l [] = l ∷ []
place order l (k ∷ ks) =
    let rest = place order l ks in if may_precede order l k then l ∷ k ∷ ks else k ∷ rest

abbrev pub arranged : Order → List DlqMessage → List DlqMessage
arranged order [] = []
arranged order (l ∷ ls) = place order l (arranged order ls)

place-Inserted :
    (order : Order) (l : DlqMessage) (ks : List DlqMessage) → Inserted l ks (place order l ks)
place-Inserted order l [] = here
place-Inserted order l (k ∷ ks) = elim (Bool-cases (may_precede order l k)) [
  | inl first ↦ rw first here
  | inr after ↦ rw after (later (place-Inserted order l ks))
]

may_precede_trans :
    (order : Order) (a b c : DlqMessage)
    → may_precede order a b ≡ true
    → may_precede order b c ≡ true
    → may_precede order a c ≡ true
may_precede_trans order a b c h k =
    elim order.direction
        as (λ d.
          let o : Order = record order { direction = d } in
          may_precede o a b ≡ true → may_precede o b c ≡ true → may_precede o a c ≡ true) [
            | asc ↦ λ h k. ground (h, k, arith)
            | desc ↦ λ h k. ground (h, k, arith)
          ]
      h k

may_precede_total :
    (order : Order) (a b : DlqMessage)
    → may_precede order a b ≡ false
    → may_precede order b a ≡ true
may_precede_total order a b h =
    elim order.direction
        as (λ d.
          let o : Order = record order { direction = d } in
          may_precede o a b ≡ false → may_precede o b a ≡ true) [
            | asc ↦ λ h. ground (h, arith)
            | desc ↦ λ h. ground (h, arith)
          ]
      h

All-map :
    {P Q : DlqMessage → Type 0} (ls : List DlqMessage)
    → ((l : DlqMessage) → P l → Q l)
    → All P ls
    → All Q ls
All-map [] f all = tt
All-map (l ∷ ls) f (p, all) = (f l p, All-map ls f all)

place-IsOrdered :
    (order : Order) (l : DlqMessage) (ks : List DlqMessage)
    → IsOrdered order ks
    → IsOrdered order (place order l ks)
place-IsOrdered order l [] ordered = (tt, tt)
place-IsOrdered order l (k ∷ ks) (all, ordered) = elim (Bool-cases (may_precede order l k)) [
  | inl first ↦
      rw first ((first, All-map ks (λ m. may_precede_trans order l k m first) all), (all, ordered))
  | inr after ↦ rw after (
    Inserted-All (λ m. may_precede order k m ≡ true) (place-Inserted order l ks)
        (may_precede_total order l k after) all,
    place-IsOrdered order l ks ordered,
  )
]

pub arranged-Answers : (order : Order) (ls : List DlqMessage) → Answers order ls (arranged order ls)
arranged-Answers order [] = record { same_rows = none_left; ordered = tt }
arranged-Answers order (l ∷ ls) =
    let rest = arranged-Answers order ls in
    record {
      same_rows = put rest.same_rows (place-Inserted order l (arranged order ls));
      ordered = place-IsOrdered order l (arranged order ls) rest.ordered;
    }
