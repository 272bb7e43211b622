-- ===== src/Board/View/Laws.antt =====
-- A token settles once on the board of web/src/components/Pipeline.tsx.
use async_webhook_ingestion.Prelude.{
  ℕ, String, Bool, true, false, ◌≡◌, refl, sym, subst, List, [], ◌∷◌, map, keep, lookup, insert,
  lookup-insert, is_none, member, ◌==◌, Bool-cases, inl, inr, arith, eq_iff,
}
use async_webhook_ingestion.Board.Tokens.{Token}
use async_webhook_ingestion.Board.Walk.{Walk}
use async_webhook_ingestion.Board.View.{Settled, settles, settled_now, settle}

settle-keeps :
    (now : ℕ) (ids : List String) (id : String) (settled : Settled)
    → is_none (lookup id settled) ≡ false
    → is_none (lookup id (settle now ids settled)) ≡ false
unfolding settle
settle-keeps now [] id settled h = h
settle-keeps now (other ∷ ids) id settled h =
    settle-keeps now ids id (insert other now settled)
      (ground (arith, lookup-insert other id now settled))

settle-member :
    (now : ℕ) (ids : List String) (id : String) (settled : Settled)
    → member id ids ≡ true
    → is_none (lookup id (settle now ids settled)) ≡ false
unfolding settle
settle-member now [] id settled h = ground arith
settle-member now (other ∷ ids) id settled h = elim (Bool-cases (other == id)) [
  | inl same ↦
      settle-keeps now ids id (insert other now settled)
        (ground (arith, lookup-insert other id now settled))
  | inr different ↦ settle-member now ids id (insert other now settled) (ground arith)
]

module _ (text_of : ℕ → String) where
  settled-silent :
      (id : String) (paced : Bool) (walk : Walk) (settled : Settled) (tokens : List Token)
      → is_none (lookup id settled) ≡ false
      → member id (settled_now text_of paced walk settled tokens) ≡ false
  unfolding settled_now
  settled-silent id paced walk settled [] h = refl
  settled-silent id paced walk settled (t ∷ ts) h =
      silent (settles text_of paced walk settled) id t ts (λ e. not_settled e)
        (settled-silent id paced walk settled ts h)
    where
      not_settled : t.correlation_id == id ≡ true → settles text_of paced walk settled t ≡ false
      not_settled e =
          let known =
            subst (λ i. is_none (lookup i settled) ≡ false) (sym ((eq_iff t.correlation_id id).0 e))
              h in
          ground arith

      silent :
          (p : Token → Bool) (id : String) (t : Token) (ts : List Token)
          → (t.correlation_id == id ≡ true → p t ≡ false)
          → member id (map (λ u. u.correlation_id) (keep p ts)) ≡ false
          → member id (map (λ u. u.correlation_id) (keep p (t ∷ ts))) ≡ false
      silent p id t ts h k = elim (Bool-cases (p t)) [
        | inr out ↦ ground arith
        | inl kept ↦ elim (Bool-cases (t.correlation_id == id)) [
          | inl same ↦ ground (arith, h same)
          | inr other ↦ ground arith
        ]
      ]

  -- A drawing of the board, and when its effect runs.
  abbrev pub Drawing : Type 0
  Drawing = ℕ × (Bool × (Walk × List Token))

  abbrev pub reported : Drawing → Settled → List String
  reported (now, (paced, (walk, tokens))) settled = settled_now text_of paced walk settled tokens

  abbrev pub drawn : Drawing → Settled → Settled
  drawn drawing settled = settle drawing.0 (reported drawing settled) settled

  abbrev pub drawn_all : List Drawing → Settled → Settled
  drawn_all [] settled = settled
  drawn_all (drawing ∷ drawings) settled = drawn_all drawings (drawn drawing settled)

  drawn_all-keeps :
      (drawings : List Drawing) (id : String) (settled : Settled)
      → is_none (lookup id settled) ≡ false
      → is_none (lookup id (drawn_all drawings settled)) ≡ false
  drawn_all-keeps [] id settled h = h
  drawn_all-keeps (drawing ∷ drawings) id settled h =
      drawn_all-keeps drawings id (drawn drawing settled)
        (settle-keeps drawing.0 (reported drawing settled) id settled h)

  -- A token that the board reports as settled is never reported again, after whatever series of
  -- drawings, and whatever the walk, the mode and the tokens have become by then.
  pub settled_now-once :
      (first : Drawing) (between : List Drawing) (later : Drawing) (settled : Settled) (id : String)
      → member id (reported first settled) ≡ true
      → member id (reported later (drawn_all between (drawn first settled))) ≡ false
  settled_now-once first between (now, (paced, (walk, tokens))) settled id h =
      settled-silent id paced walk (drawn_all between (drawn first settled)) tokens (
        drawn_all-keeps between id (drawn first settled)
          (settle-member first.0 (reported first settled) id settled h))
