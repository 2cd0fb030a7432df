-- ===== src/Payments/Repositories/Laws.antt =====
-- What the rows found by key are, and what a search finds after a write.
use mathlib.Core.Option
use diddi_pay_backend.Prelude.{
  ℕ, ◌≡◌, refl, some, ◌==◌, if◌then◌else◌, ==_iff, find_row-passes, update_rows,
}
use diddi_pay_backend.Prelude.Rows
use diddi_pay_backend.Payments.Entities.{PaymentIntent}
use diddi_pay_backend.Payments.Database.{Database}
use diddi_pay_backend.Payments.Repositories.Intents

abbrev pub intent_key : PaymentIntent → ℕ
intent_key row = row.id

pub get_intent-id :
    (k : ℕ) (db : Database) (x : PaymentIntent) → Intents.get k db ≡ some x → x.id ≡ k
unfolding Intents.get
get_intent-id k db x h =
    (==_iff x.id k).0 (find_row-passes (Rows.has_key intent_key k) db.intents x h)

-- What `get` answers after a `save`.
pub get-save_intents :
    (intent : PaymentIntent) (j : ℕ) (db : Database)
    → Intents.get j (record db {
      intents = update_rows (Rows.has_key intent_key intent.id) (Intents.saved intent) db.intents;
    })
      ≡ (if j == intent.id
          then Option.map (Intents.saved intent) (Intents.get j db)
          else Intents.get j db)
unfolding Intents.get
get-save_intents intent j db =
    Rows.find_row-update_rows intent_key (Intents.saved intent) j intent.id db.intents (λ a. refl)
