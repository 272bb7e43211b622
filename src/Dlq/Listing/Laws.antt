-- ===== src/Dlq/Listing/Laws.antt =====
-- The pages of dead letters, one after the other.
use async_webhook_ingestion.Prelude.{
  ⊤, ◌<◌, false, ℕ, zero, suc, ◌+◌, ◌-◌, ◌*◌, ◌≤◌, String, ◌≡◌, refl, sym, ap, ◌∙◌, subst, ◌⊎◌, inl,
  inr, Option, none, some, List, [], ◌∷◌, ◌++◌, length, take, drop, Result, ok, err, leb,
  Bool-cases, Option-cases, ◌&&◌, Result-cases, arith,
}
use async_webhook_ingestion.Errors.{Thrown}
use async_webhook_ingestion.Events.{DlqMessage}
use async_webhook_ingestion.Events.Database.{
  Database, Rows, All, may_precede, IsStrict, Answers-unique,
}
use async_webhook_ingestion.Worker.{World, Action, pure, transaction, and_then, ◌>>=◌}
use async_webhook_ingestion.Worker.Logs.{and_then-ok, and_then-err}
use async_webhook_ingestion.Worker.Transactions.{transaction-cases}
use async_webhook_ingestion.Dlq.Listing.Paging.{page-sum}
use async_webhook_ingestion.Dlq.Listing.{
  newest_first, DlqQuery, DlqPage, page_of, limit_of, dlq_query, page_of_letters, list,
}

-- Each of these letters was created later than those behind it.
abbrev pub AreNewestFirst : List DlqMessage → Type 0
AreNewestFirst [] = ⊤
AreNewestFirst (l ∷ ls) = All (λ k. k.created_at < l.created_at) ls × AreNewestFirst ls

older-All :
    (l : DlqMessage) (ls : List DlqMessage)
    → All (λ k. k.created_at < l.created_at) ls
    → All (λ k. may_precede newest_first k l ≡ false) ls
older-All l [] all = tt
older-All l (k ∷ ls) (older, all) = (ground (older, arith), older-All l ls all)

AreNewestFirst-IsStrict : (ls : List DlqMessage) → AreNewestFirst ls → IsStrict newest_first ls
AreNewestFirst-IsStrict [] all = tt
AreNewestFirst-IsStrict (l ∷ ls) (older, all) =
    (older-All l ls older, AreNewestFirst-IsStrict ls all)

module _ (db : Database) where
  open db use {Db, rows}

  -- A run that changes no row, and either has the result `a` or throws.
  pub record Reads {A : Type 0} (w : World Db) (a : A) (out : Result Thrown A × World Db)
      : Type 0 where
    pub same : rows out.1.db ≡ rows w.db
    pub answer : (out.0 ≡ ok a) ⊎ ((e : Thrown) × (out.0 ≡ err e))

  Reads-pure : {A : Type 0} (w : World Db) (a : A) → Reads w a (pure a w)
  Reads-pure w a = record { same = refl; answer = inl refl }

  Reads-then :
      {A B : Type 0} (w : World Db) (a : A) (b : B) (out : Result Thrown A × World Db)
      (f : A → Action Db B)
      → Reads w a out
      → ((w₁ : World Db) → rows w₁.db ≡ rows w.db → Reads w₁ b (f a w₁))
      → Reads w b (and_then out f)
  Reads-then w a b out f h k = elim h.answer [
    | inl went ↦
        let next = k out.1 h.same in
        subst (Reads w b) (sym (and_then-ok out f went))
          (record { same = next.same ∙ h.same; answer = next.answer })
    | inr (e, failed) ↦
        subst (Reads w b) (sym (and_then-err out f failed))
          (record { same = h.same; answer = inr (e, refl) })
  ]

  page_letters-Reads :
      (skip limit : ℕ) (w : World Db)
      → AreNewestFirst (rows w.db).letters
      → Reads w
          (take limit (drop skip (rows w.db).letters))
          (transaction db (db.page_letters newest_first skip limit) w)
  page_letters-Reads skip limit w strict =
      elim (transaction-cases db (db.page_letters newest_first skip limit) w) [
        | inl (page, went, done) ↦
            let ((found, answers, is_page), same) =
              db.page_letters_lem newest_first skip limit w.db done.ran in
            let one =
              Answers-unique newest_first (rows w.db).letters found
                (AreNewestFirst-IsStrict (rows w.db).letters strict) answers in
            record {
              same = done.stored ∙ same;
              answer = inl (went ∙ ap ok (is_page ∙ ap (λ ls. take limit (drop skip ls)) one));
            }
        | inr (e, failed, undone) ↦ record { same = undone.same; answer = inr (e, failed) }
      ]

  count_letters-Reads :
      (w : World Db) → Reads w (length (rows w.db).letters) (transaction db db.count_letters w)
  count_letters-Reads w = elim (transaction-cases db db.count_letters w) [
    | inl (n, went, done) ↦
        let (found, same) = db.count_letters_lem w.db done.ran in
        record { same = done.stored ∙ same; answer = inl (went ∙ ap ok found) }
    | inr (e, failed, undone) ↦ record { same = undone.same; answer = inr (e, failed) }
  ]

  -- What a page holds of the letters.
  abbrev pub page_at : DlqQuery → List DlqMessage → DlqPage
  page_at query letters =
      page_of_letters db query (take query.limit (drop ((query.page - 1) * query.limit) letters))
        (length letters)

  pub list-Reads :
      (query : DlqQuery) (w : World Db)
      → AreNewestFirst (rows w.db).letters
      → Reads w (page_at query (rows w.db).letters) (list db query w)
  unfolding list
  list-Reads query w strict =
      let skip = (query.page - 1) * query.limit in
      let letters = (rows w.db).letters in
      Reads-then w (take query.limit (drop skip letters)) (page_at query letters)
        (transaction db (db.page_letters newest_first skip query.limit) w)
        (λ ls.
          transaction db db.count_letters >>= λ total. pure (page_of_letters db query ls total))
        (page_letters-Reads skip query.limit w strict)
        (λ w₁ same.
          subst
            (λ r.
              Reads w₁
                (page_of_letters db query (take query.limit (drop skip letters)) (length r.letters))
                (and_then (transaction db db.count_letters w₁) (λ total.
                  pure (page_of_letters db query (take query.limit (drop skip letters)) total))))
            same
            (Reads-then w₁ (length (rows w₁.db).letters)
              (page_of_letters db query (take query.limit (drop skip letters))
                (length (rows w₁.db).letters))
              (transaction db db.count_letters w₁)
              (λ total.
                pure (page_of_letters db query (take query.limit (drop skip letters)) total))
              (count_letters-Reads w₁)
              (λ w₂ same₂. Reads-pure w₂ (
                page_of_letters db query (take query.limit (drop skip letters))
                  (length (rows w₁.db).letters)))))

  -- A client that reads `n` pages, one after the other.
  abbrev pub list_pages : (n page limit : ℕ) → Action Db (List DlqMessage)
  list_pages zero page limit = pure []
  list_pages (suc n) page limit = do
    first ← list db (record { page = page; limit = limit })
    rest ← list_pages n (page + 1) limit
    pure (first.letters ++ rest)

  -- If no two dead letters were created at the same time, and they are listed from the newest to the
  -- oldest, then a client that reads `n` pages from page p + 1 on, while no row changes, gets those
  -- after the first p · limit in that order, without a gap or a repeat, n · limit of them at most; or
  -- a statement fails and the error is thrown. No row is changed by it.
  pub list_pages-Reads :
      (n p limit : ℕ) (w : World Db)
      → AreNewestFirst (rows w.db).letters
      → Reads w
          (take (n * limit) (drop (p * limit) (rows w.db).letters))
          (list_pages n (suc p) limit w)
  list_pages-Reads zero p limit w strict =
      let none_left : 0 * limit ≡ 0 = omega arith in
      subst
        (λ i.
          Reads w (take i (drop (p * limit) (rows w.db).letters)) (list_pages zero (suc p) limit w))
        (sym none_left) (Reads-pure w [])
  list_pages-Reads (suc n) p limit w strict =
      let letters = (rows w.db).letters in
      let query : DlqQuery = record { page = suc p; limit = limit } in
      let after : Rows → List DlqMessage = λ r. take (n * limit) (drop (suc p * limit) r.letters) in
      subst (λ ls. Reads w ls (list_pages (suc n) (suc p) limit w))
        (ap
            (λ i.
              take limit (drop (i * limit) letters)
              ++ take (n * limit) (drop (suc p * limit) letters))
            (omega arith)
          ∙ page-sum n p limit letters)
        (Reads-then w (page_at query letters)
          ((page_at query letters).letters ++ take (n * limit) (drop (suc p * limit) letters))
          (list db query w)
          (λ first. list_pages n (suc p + 1) limit >>= λ rest. pure (first.letters ++ rest))
          (list-Reads query w strict)
          (λ w₁ same.
            Reads-then w₁ (after (rows w.db)) ((page_at query letters).letters ++ after (rows w.db))
              (list_pages n (suc p + 1) limit w₁)
              (λ rest. pure ((page_at query letters).letters ++ rest))
              (subst (λ r. Reads w₁ (after r) (list_pages n (suc p + 1) limit w₁)) same
                (subst (λ q. Reads w₁ (after (rows w₁.db)) (list_pages n q limit w₁)) (omega arith)
                  (list_pages-Reads n (suc p) limit w₁
                    (subst (λ r. AreNewestFirst r.letters) (sym same) strict))))
              (λ w₂ same₂. Reads-pure w₂ ((page_at query letters).letters ++ after (rows w.db)))))

module _ (natural : String → Option ℕ) (invalid : Thrown) where
  page_of-bounded : (text : Option String) {n : ℕ} → page_of natural invalid text ≡ ok n → 1 ≤ n
  page_of-bounded none {n} h = ground arith
  page_of-bounded (some text) {n} h = elim (Option-cases (natural text)) [
    | inl bad ↦ ground arith
    | inr (k, good) ↦ ground arith
  ]

  limit_of-bounded :
      (text : Option String) {n : ℕ} → limit_of natural invalid text ≡ ok n → (1 ≤ n) × (n ≤ 100)
  limit_of-bounded none {n} h = ground arith
  limit_of-bounded (some text) {n} h = elim (Option-cases (natural text)) [
    | inl bad ↦ ground arith
    | inr (k, good) ↦ elim (Bool-cases (leb 1 k && leb k 100)) [
      | inl within ↦ ground arith
      | inr outside ↦ ground arith
    ]
  ]

  -- A query that passes asks for a page from 1 on and for 1 to 100 letters.
  pub dlq_query-bounded :
      (page limit : Option String) {query : DlqQuery}
      → dlq_query natural invalid page limit ≡ ok query
      → (1 ≤ query.page) × ((1 ≤ query.limit) × (query.limit ≤ 100))
  unfolding dlq_query
  dlq_query-bounded page limit {query} h = elim (Result-cases (page_of natural invalid page)) [
    | inr (e, bad) ↦ ground arith
    | inl (p, good) ↦ elim (Result-cases (limit_of natural invalid limit)) [
      | inr (e, bad) ↦ ground arith
      | inl (l, fine) ↦ ground (arith, page_of-bounded page good, limit_of-bounded limit fine)
    ]
  ]
