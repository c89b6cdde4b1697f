-- ===== src/Feedback/Once.antt =====
-- A sequence of deliveries: the card of a recommendation is posted and confirmed at most once.
use radar_system.Prelude.{
  ℕ, ◌+◌, String, ◌≡◌, refl, sym, ◌∙◌, Bool, true, false, not, ◌&&◌, Option, none, some, List, [],
  ◌∷◌, ◌++◌, arith, count_where-append, &&-true,
}
use radar_system.Contracts.{UuidNumber, Time, EventEnvelope}
use radar_system.Database.Tables.{Db}
use radar_system.Feedback.Cards.{TextLib}
use radar_system.Feedback.Delivery.{Posted, Notifier}
use radar_system.Feedback.Routes.{Handled, handle_event}
use radar_system.Feedback.Delivered.{
  message_ts, posts_of, lost_of, is_about, is_lost, CardStep, skip, post, is_server_error,
  handle_event-CardStep,
}

-- One event that arrives, with the moment and the notifier as it behaves then.
pub record Arrival : Type 0 where
  pub send : Option Notifier
  pub now : Time
  pub envelope : EventEnvelope

CardStep-trans :
    {a b c : Option String} {m n k l : ℕ}
    → CardStep a b m k
    → CardStep b c n l
    → CardStep a c (m + n) (k + l)
CardStep-trans (skip e z f) (skip e' z' f') =
    skip (e ∙ e') (omega (arith, z, z')) (λ ts was. omega (arith, f ts was, f' ts (sym e ∙ was)))
CardStep-trans (skip e z f) (post ts b a k) = post ts (e ∙ b) a (omega (arith, z, k))
CardStep-trans (post ts b a k) (skip e z f) = post ts b (sym e ∙ a) (omega (arith, z, k))
CardStep-trans (post ts b a k) (post ts' b' a' k') = absurd (posted_twice (sym a ∙ b'))
  where
    posted_twice : some ts ≡ none → ⊥
    posted_twice e = cc

module _ (texts : TextLib) (channel : String) where
  abbrev handle_arrival : Arrival → Db → Handled
  handle_arrival q db = handle_event texts channel q.now q.send q.envelope db

  -- The events handled in turn: the tables that they leave, and all that was posted.
  unfoldable pub run : List Arrival → Db → Db × List Posted
  run [] db = (db, [])
  run (q ∷ rest) db =
      let out = handle_arrival q db in let (left, posts) = run rest out.1 in (left, out.2 ++ posts)

  unfoldable pub all_answered : List Arrival → Db → Bool
  all_answered [] db = true
  all_answered (q ∷ rest) db =
      not (is_server_error (handle_arrival q db).0) && all_answered rest (handle_arrival q db).1

  not-true : (b : Bool) → not b ≡ true → b ≡ false
  not-true true h = cc
  not-true false h = refl

  -- Any sequence of events that is handled without a server error, whatever the notifier does to
  -- each post and however often an event comes back, is one step of the card of any recommendation.
  -- Either what is recorded of it stays, every card that was posted for it is one whose post was
  -- not confirmed, and there is none where a message was recorded before; or no message was
  -- recorded before, exactly one confirmed card is posted besides the unconfirmed ones, and a
  -- message is recorded in the end.
  pub deliveries-CardStep :
      (id : UuidNumber) (arrivals : List Arrival) (db : Db)
      → all_answered arrivals db ≡ true
      → CardStep
          (message_ts id db)
          (message_ts id (run arrivals db).0)
          (posts_of id (run arrivals db).1)
          (lost_of id (run arrivals db).1)
  unfolding run all_answered
  deliveries-CardStep id [] db h = skip refl refl (λ ts e. refl)
  deliveries-CardStep id (q ∷ rest) db h =
      let (now, later) =
        &&-true (not (is_server_error (handle_arrival q db).0))
          (all_answered rest (handle_arrival q db).1) h in
      let first =
        handle_event-CardStep texts channel q.now id db q.send q.envelope
          (not-true (is_server_error (handle_arrival q db).0) now) in
      let others = deliveries-CardStep id rest (handle_arrival q db).1 later in
      rw
        (
          count_where-append (is_about id) (handle_arrival q db).2
              (run rest (handle_arrival q db).1).1,
          count_where-append (is_lost id) (handle_arrival q db).2
              (run rest (handle_arrival q db).1).1,
        )
        (CardStep-trans first others)
