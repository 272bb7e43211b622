-- ===== src/Board/Walk/Arrival.antt =====
-- The walk of web/src/components/Pipeline.tsx with all its tokens: every ball arrives.
use async_webhook_ingestion.Prelude.{
  ℕ, ◌+◌, ◌*◌, ◌≤◌, String, Bool, true, false, not, ◌||◌, ◌≡◌, refl, sym, subst, ap, ◌∙◌, none,
  some, List, [], ◌∷◌, keep, get_elem?, lookup, insert, lookup-insert, get_or, is_none, eqb, ◌==◌,
  if◌then◌else◌, inl, inr, Bool-cases, Option-cases, arith, eq_refl,
}
use async_webhook_ingestion.Board.Tokens.{Token}
use async_webhook_ingestion.Board.Path.{path_of}
use async_webhook_ingestion.Board.Walk.{
  WalkEntry, Walk, index_of, visual_at, target_of, advance, entry_of, tick_token, tick_from, tick,
  ticks, shown_index, visual_of,
}
use async_webhook_ingestion.Board.Walk.Laws.{
  dwell_of-bounded, OnTime, last_time, advances, advances-arrive,
}

abbrev pub has_id : String → Token → Bool
has_id id token = token.correlation_id == id

lookup-put :
    (id : String) (entry : WalkEntry) (walk : Walk) → lookup id (insert id entry walk) ≡ some entry
lookup-put id entry walk = ground (arith, lookup-insert id id entry walk, eq_refl id)

same_entry : (a b : WalkEntry) → eqb a.index b.index ≡ true → eqb a.at b.at ≡ true → b ≡ a
same_entry a b h k =
    let i : b.index ≡ a.index = ground arith in let t : b.at ≡ a.at = ground arith in ground arith

put_moved :
    (id : String) (walk : Walk) (entry moved : WalkEntry)
    → lookup id walk ≡ some entry
    → lookup id (
        if not (eqb moved.index entry.index) || not (eqb moved.at entry.at)
        then insert id moved walk
        else walk)
      ≡ some moved
put_moved id walk entry moved h = elim (Bool-cases (eqb moved.index entry.index)) [
  | inr other ↦ ground (arith, lookup-put id moved walk)
  | inl i ↦ elim (Bool-cases (eqb moved.at entry.at)) [
    | inr other ↦ ground (arith, lookup-put id moved walk)
    | inl t ↦ ground (arith, same_entry moved entry i t)
  ]
]

module _ (text_of : ℕ → String) where
  tick_token-other :
      (id : String) (now : ℕ) (prev next : Walk) (t : Token)
      → has_id id t ≡ false
      → lookup id (tick_token text_of now prev next t) ≡ lookup id next
  tick_token-other id now prev next t h = ground (
    arith,
    lookup-insert t.correlation_id id (advance now (path_of text_of t) (entry_of now t prev)) next,
  )

  tick_from-others :
      (id : String) (now : ℕ) (prev next : Walk) (tokens : List Token)
      → keep (has_id id) tokens ≡ []
      → lookup id (tick_from text_of now prev next tokens) ≡ lookup id next
  tick_from-others id now prev next [] h = refl
  tick_from-others id now prev next (t ∷ ts) h = elim (Bool-cases (has_id id t)) [
    | inl same ↦ ground arith
    | inr other ↦
        tick_from-others id now prev (tick_token text_of now prev next t) ts (ground arith)
        ∙ tick_token-other id now prev next t other
  ]

  -- The one token of its id has its entry advanced, or entered.
  tick_token-own :
      (now : ℕ) (prev next : Walk) (token : Token)
      → lookup token.correlation_id next ≡ lookup token.correlation_id prev
      → lookup token.correlation_id (tick_token text_of now prev next token)
        ≡ some (advance now (path_of text_of token) (entry_of now token prev))
  tick_token-own now prev next token h = elim (Option-cases (lookup token.correlation_id prev)) [
    | inl e ↦ ground (
      arith,
      lookup-put token.correlation_id
          (advance now (path_of text_of token) (entry_of now token prev)) next,
    )
    | inr (entry, e) ↦
        let f = advance now (path_of text_of token) in
        let fresh : WalkEntry = record { index = 0; at = now } in
        subst
          (λ old.
            lookup token.correlation_id (
              if is_none old
                || (not (eqb (f (get_or old fresh)).index (get_or old fresh).index)
                    || not (eqb (f (get_or old fresh)).at (get_or old fresh).at))
              then insert token.correlation_id (f (get_or old fresh)) next
              else next)
            ≡ some (f (get_or old fresh)))
          (sym e) (put_moved token.correlation_id next entry (f entry) (h ∙ e))
  ]

  tick_from-own :
      (now : ℕ) (prev next : Walk) (token : Token) (tokens : List Token)
      → keep (has_id token.correlation_id) tokens ≡ token ∷ []
      → lookup token.correlation_id next ≡ lookup token.correlation_id prev
      → lookup token.correlation_id (tick_from text_of now prev next tokens)
        ≡ some (advance now (path_of text_of token) (entry_of now token prev))
  tick_from-own now prev next token [] h k = ground arith
  tick_from-own now prev next token (t ∷ ts) h k =
      elim (Bool-cases (has_id token.correlation_id t)) [
        | inl same ↦
            let (e, rest) = one (has_id token.correlation_id) t token ts h same in
            tick_from-others token.correlation_id now prev (tick_token text_of now prev next t) ts
              rest
            ∙ subst
                (λ t'.
                  lookup token.correlation_id (tick_token text_of now prev next t')
                  ≡ some (advance now (path_of text_of token) (entry_of now token prev)))
                (sym e) (tick_token-own now prev next token k)
        | inr other ↦
            tick_from-own now prev (tick_token text_of now prev next t) token ts
              (none_here (has_id token.correlation_id) t ts h other)
              (tick_token-other token.correlation_id now prev next t other ∙ k)
      ]
    where
      one :
          (p : Token → Bool) (t token : Token) (ts : List Token)
          → keep p (t ∷ ts) ≡ token ∷ []
          → p t ≡ true
          → (t ≡ token) × (keep p ts ≡ [])
      one p t token ts h k = ground arith

      none_here :
          {us : List Token} (p : Token → Bool) (t : Token) (ts : List Token)
          → keep p (t ∷ ts) ≡ us
          → p t ≡ false
          → keep p ts ≡ us
      none_here {us} p t ts h k = ground arith

  ticks-lookup :
      (times : List ℕ) (token : Token) (tokens : List Token) (entry : WalkEntry) (walk : Walk)
      → keep (has_id token.correlation_id) tokens ≡ token ∷ []
      → lookup token.correlation_id walk ≡ some entry
      → lookup token.correlation_id (ticks text_of times tokens walk)
        ≡ some (advances times (path_of text_of token) entry)
  unfolding tick
  ticks-lookup [] token tokens entry walk h k = k
  ticks-lookup (now ∷ times) token tokens entry walk h k =
      ticks-lookup times token tokens (advance now (path_of text_of token) entry)
        (tick text_of now tokens walk) h
        (tick_from-own now walk walk token tokens h refl
          ∙ ap
              (λ old.
                some (
                  advance now (path_of text_of token)
                    (get_or old (record { index = 0; at = now }))))
              k)

  -- A ball enters the board at `start`, its token stays as it is, and the interval's callbacks come in order
  -- and at most TICK_MS apart. Once the longest possible walk, 120200 ms a step, is over, the paced view
  -- shows the token where the real-time view does: at the end of its path.
  pub ticks-arrive :
      (token : Token) (tokens : List Token) (walk : Walk) (start : ℕ) (times : List ℕ)
      → keep (has_id token.correlation_id) tokens ≡ token ∷ []
      → lookup token.correlation_id walk ≡ none
      → OnTime start times
      → start + target_of (path_of text_of token) * 120200 ≤ last_time start times
      → visual_of text_of true (ticks text_of (start ∷ times) tokens walk) token
        ≡ visual_of text_of false (ticks text_of (start ∷ times) tokens walk) token
  unfolding tick visual_of
  ticks-arrive token tokens walk start times h k t l =
      let path = path_of text_of token in
      let fresh : WalkEntry = record { index = 0; at = start } in
      let found =
        ticks-lookup times token tokens (advance start path fresh) (tick text_of start tokens walk)
          h
          (tick_from-own start walk walk token tokens h refl
            ∙ ap (λ old. some (advance start path (get_or old fresh))) k) in
      let arrived =
        advances-arrive start (start ∷ times) path fresh (omega arith, (omega arith, t))
          (omega arith, (omega arith, inl (omega (arith, dwell_of-bounded (get_elem? path 0)))))
          (omega arith) in
      let index : index_of (
            lookup token.correlation_id
              (ticks text_of times tokens (tick text_of start tokens walk)))
          ≡ target_of path =
        ap index_of found ∙ arrived in
      let all_along : shown_index true (ticks text_of times tokens (tick text_of start tokens walk))
            token path
          ≡ target_of path =
        omega arith in
      ap (λ i. visual_at path i (get_elem? path i)) all_along
