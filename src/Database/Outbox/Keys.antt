-- ===== src/Database/Outbox/Keys.antt =====
-- The row keys of the outbox: no two rows have one, and every operation keeps it so.
use radar_system.Prelude.{
  ◌≡◌, Bool, true, false, some, List, [], ◌∷◌, ◌++◌, any, find_row, update, delete, All,
  HasUniqueKeys,
}
use radar_system.Prelude
use radar_system.Database.Tables.{OutboxEvent}
use radar_system.Database.Outbox.{by_id}

abbrev pub HasUniqueIds : List OutboxEvent → Type 0
HasUniqueIds = HasUniqueKeys (λ e. e.id)

-- Every row is what a lookup by its own key finds.
pub self_found :
    (es : List OutboxEvent) → HasUniqueIds es → All (λ e. find_row (by_id e.id) es ≡ some e) es
self_found = Prelude.self_found (λ (e : OutboxEvent). e.id)

pub update-HasUniqueIds :
    (p : OutboxEvent → Bool) (f : OutboxEvent → OutboxEvent) (es : List OutboxEvent)
    → ((e : OutboxEvent) → p e ≡ true → (f e).id ≡ e.id)
    → HasUniqueIds es
    → HasUniqueIds (update p f es)
update-HasUniqueIds = Prelude.update-HasUniqueKeys (λ (e : OutboxEvent). e.id)

pub delete-HasUniqueIds :
    (p : OutboxEvent → Bool) (es : List OutboxEvent) → HasUniqueIds es → HasUniqueIds (delete p es)
delete-HasUniqueIds = Prelude.delete-HasUniqueKeys (λ (e : OutboxEvent). e.id)

pub snoc-HasUniqueIds :
    (es : List OutboxEvent) (new : OutboxEvent)
    → any (by_id new.id) es ≡ false
    → HasUniqueIds es
    → HasUniqueIds (es ++ new ∷ [])
snoc-HasUniqueIds = Prelude.snoc-HasUniqueKeys (λ (e : OutboxEvent). e.id)
