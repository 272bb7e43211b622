-- ===== src/Events/Database/Letters.antt =====
-- Finding a dead letter after it is stamped.
use async_webhook_ingestion.Prelude.{
  ℕ, String, ◌≡◌, Option, ap, List, [], ◌∷◌, map, some, inl, inr, Bool-cases, ◌==◌,
}
use mathlib.Core.Option
use async_webhook_ingestion.Events.{DlqMessage}
use async_webhook_ingestion.Events.Database.Defs.{find_letter, stamp}

abbrev restamp : ℕ → DlqMessage → DlqMessage
restamp at l = record l { replayed_at = some at }

pub find_letter-stamp :
    (id : String) (at : ℕ) (ls : List DlqMessage) {l : DlqMessage}
    → find_letter id ls ≡ some l
    → find_letter id (map (stamp id at) ls) ≡ some (record l { replayed_at = some at })
find_letter-stamp id at [] h = cc
find_letter-stamp id at (k ∷ ls) {l} h = elim (Bool-cases (k.id == id)) [
  | inl here ↦
      let same : ◌≡◌ {A = Option DlqMessage} (some k) (some l) = rw here at h in
      rw here (rw here (ap (λ (o : Option DlqMessage). Option.map (restamp at) o) same))
  | inr there ↦ rw there (rw there (find_letter-stamp id at ls (rw there at h)))
]
