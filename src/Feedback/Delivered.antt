-- ===== src/Feedback/Delivered.antt =====
-- A delivery as a step of one card, which is posted or not.
use radar_system.Prelude.{
  ℕ, ◌+◌, String, ◌≡◌, refl, sym, ap, ◌∙◌, subst, Bool, true, false, not, ◌&&◌, Option, none, some,
  List, [], ◌∷◌, inl, inr, arith, find_row, count_where, find_row_sound, find_row-update_self,
  find_row-update_ne, ◌==◌, ==→eq, ==_refl, Bool-cases, str_eq,
}
use radar_system.Contracts.{UuidNumber, Time, EventEnvelope, RecommendationCreatedPayload}
use radar_system.Database.Tables.{Incident, Recommendation, Db}
use radar_system.Database.Tx.{Result, Error, ok, err, integrity_error}
use radar_system.Database.Repository.{incident_by_id, is_already_processed, mark_processed}
use radar_system.Database.Repository.Marker.{mark_ok_state}
use radar_system.Feedback.Cards.{TextLib}
use radar_system.Feedback.Delivery.{
  service_name, DeliveryOutcome, Post, Posted, Sent, refused, unconfirmed, confirmed, Notifier,
  recommendation_by_id, record_delivery, after_post, post_of, deliver_card, deliver_unless,
  deliver_found, deliver_rca,
}
use radar_system.Feedback.Recorded.{with_ts, delivery_rows, record_delivery_err}
use radar_system.Feedback.Routes.{
  Answer, server_error, delivered_now, delivered_before, already_processed, ignored, unprocessable,
  unavailable, parse_payload, Handled, answered, marked_ignored, handle_parsed, handle_event,
}

-- Where the card of a recommendation stands: its Slack message, or none.
abbrev pub message_of : Option Recommendation → Option String
message_of none = none
message_of (some r) = r.slack_message_ts

abbrev pub message_ts : UuidNumber → Db → Option String
message_ts id db = message_of (recommendation_by_id id db)

abbrev pub is_about : UuidNumber → Posted → Bool
is_about id p = p.post.recommendation_id == id

abbrev pub is_lost : UuidNumber → Posted → Bool
is_lost id p = p.post.recommendation_id == id && not p.known

abbrev pub posts_of : UuidNumber → List Posted → ℕ
posts_of id posts = count_where (is_about id) posts

-- the cards that the service does not know of
abbrev pub lost_of : UuidNumber → List Posted → ℕ
lost_of id posts = count_where (is_lost id) posts

-- The specification of a card: what is recorded stays and only unconfirmed cards are posted, none
-- where a message was recorded; or one confirmed card is posted, from no message to its message.
pub data CardStep (before after : Option String) (posts lost : ℕ) : Type 0 where
  skip :
      before ≡ after
      → posts ≡ lost
      → ((ts : String) → before ≡ some ts → posts ≡ 0)
      → CardStep before after posts lost
  post :
      (ts : String)
      → before ≡ none
      → after ≡ some ts
      → posts ≡ lost + 1
      → CardStep before after posts lost

abbrev pub is_server_error : Answer → Bool
is_server_error (server_error e) = true
is_server_error delivered_now = false
is_server_error delivered_before = false
is_server_error already_processed = false
is_server_error ignored = false
is_server_error unprocessable = false
is_server_error unavailable = false

abbrev there : Post → Bool → List Posted
there p known = record { post = p; known = known } ∷ []

-- The timestamp of one row is recorded on that row alone.
message_set :
    (id : UuidNumber) (ts : String) (db : Db) (r : Recommendation)
    → recommendation_by_id id db ≡ some r
    → message_of (find_row (λ (r : Recommendation). r.id == id) (with_ts id ts db)) ≡ some ts
message_set id ts db r h = ap message_of (
    find_row-update_self (λ (r : Recommendation). r.id == id)
      (λ (r : Recommendation). record r { slack_message_ts = some ts }) db.recommendations r h
      (λ b e. e))

message_kept :
    (id other : UuidNumber) (ts : String) (db : Db)
    → (other == id) ≡ false
    → message_of (find_row (λ (r : Recommendation). r.id == id) (with_ts other ts db))
      ≡ message_ts id db
message_kept id other ts db h = ap message_of (
    find_row-update_ne (λ (r : Recommendation). r.id == id) (λ (r : Recommendation). r.id == other)
      (λ (r : Recommendation). record r { slack_message_ts = some ts }) db.recommendations
      (λ b e. ground arith) (λ b e. ground arith))

module _ (texts : TextLib) (channel : String) (now : Time) (id : UuidNumber) (db : Db) where
  -- What a handler's result is to the card, where it is no server error.
  abbrev StepsTo : Handled → Type 0
  StepsTo out =
      CardStep (message_ts id db) (message_ts id out.1) (posts_of id out.2) (lost_of id out.2)

  posted_step :
      (r : Recommendation) (db' : Db) (p : Post) (ts : String)
      → recommendation_by_id r.id db ≡ some r
      → r.slack_message_ts ≡ none
      → p.recommendation_id ≡ r.id
      → with_ts r.id ts db ≡ db'.recommendations
      → CardStep
          (message_ts id db)
          (message_ts id db')
          (posts_of id (there p true))
          (lost_of id (there p true))
  posted_step r db' p ts found unposted about rows = elim (Bool-cases (r.id == id)) [
    | inl e ↦
        subst
          (λ k.
            CardStep (message_ts k db) (message_ts k db') (posts_of k (there p true))
              (lost_of k (there p true)))
          (==→eq r.id id e)
          (post ts (ap message_of found ∙ unposted)
            (ap (λ rows. message_of (find_row (λ (x : Recommendation). x.id == r.id) rows))
                (sym rows)
              ∙ message_set r.id ts db r found)
            (rw (about, ==_refl r.id) refl))
    | inr e ↦
        skip
          (sym (message_kept id r.id ts db e)
            ∙ ap (λ rows. message_of (find_row (λ (x : Recommendation). x.id == id) rows)) rows)
          (rw (about, e) refl) (λ ts was. rw (about, e) refl)
  ]

  unconfirmed_step :
      (r : Recommendation) (p : Post)
      → recommendation_by_id r.id db ≡ some r
      → r.slack_message_ts ≡ none
      → p.recommendation_id ≡ r.id
      → CardStep
          (message_ts id db)
          (message_ts id db)
          (posts_of id (there p false))
          (lost_of id (there p false))
  unconfirmed_step r p found unposted about = elim (Bool-cases (r.id == id)) [
    | inl e ↦ skip refl (rw (about, e) refl) (λ ts was. absurd (
        none-ne-some (
          sym (ap message_of found ∙ unposted)
          ∙ ap (λ k. message_ts k db) (==→eq r.id id e)
          ∙ was)))
    | inr e ↦ skip refl (rw (about, e) refl) (λ ts was. rw (about, e) refl)
  ]
    where
      none-ne-some : {ts : String} → none ≡ some ts → ⊥
      none-ne-some e = cc

  recorded_step :
      (res : Result (DeliveryOutcome × Db)) (posts : List Posted)
      → ((o : DeliveryOutcome) (db' : Db)
          → res ≡ ok (o, db')
          → CardStep (message_ts id db) (message_ts id db') (posts_of id posts) (lost_of id posts))
      → ((x : Error) → res ≡ err x → x ≡ integrity_error)
      → is_server_error (answered db (res, posts)).0 ≡ false
      → StepsTo (answered db (res, posts))
  recorded_step (ok (o, db')) posts k only fine = k o db' refl
  recorded_step (err x) posts k only fine = absurd (
      server_error-ne-fine
        (ap (λ y. is_server_error (answered db (err y, posts)).0) (sym (only x refl)) ∙ fine))
    where
      server_error-ne-fine : true ≡ false → ⊥
      server_error-ne-fine e = cc

  module _ (send : Notifier) (event_id : UuidNumber) (r : Recommendation)
      (found : recommendation_by_id r.id db ≡ some r) (unposted : r.slack_message_ts ≡ none) where
    after_post_step :
        (i : Incident) (o : Sent)
        → incident_by_id i.id db ≡ some i
        → is_server_error
            (answered db (
              after_post texts send channel event_id now db r i
                (post_of texts send channel event_id now db r i)
                o)).0
          ≡ false
        → StepsTo (
            answered db (
              after_post texts send channel event_id now db r i
                (post_of texts send channel event_id now db r i)
                o))
    after_post_step i refused known fine = skip refl refl (λ ts e. refl)
    after_post_step i unconfirmed known fine =
        unconfirmed_step r (post_of texts send channel event_id now db r i) found unposted refl
    after_post_step i (confirmed ts) known fine =
        let p = post_of texts send channel event_id now db r i in
        recorded_step (record_delivery r i ts channel event_id now db) (there p true)
          (λ o db' e.
            posted_step r db' p ts found unposted refl
              (delivery_rows r i ts channel event_id now db e))
          (λ x e. record_delivery_err r i ts channel event_id now db known e) fine

    card_step :
        (incident_id : UuidNumber) (o : Option Incident)
        → incident_by_id incident_id db ≡ o
        → is_server_error
            (answered db (deliver_card texts send channel event_id now db incident_id r o)).0
          ≡ false
        → StepsTo (answered db (deliver_card texts send channel event_id now db incident_id r o))
    card_step incident_id none e fine = skip refl refl (λ ts e. refl)
    card_step incident_id (some i) e fine =
        let same : i.id ≡ incident_id =
          ==→eq i.id incident_id
            (find_row_sound (λ (j : Incident). j.id == incident_id) db.incidents i e) in
        after_post_step i (send (post_of texts send channel event_id now db r i))
          (ap (λ k. incident_by_id k db) same ∙ e) fine

  module _ (send : Notifier) (event_id incident_id : UuidNumber) where
    unless_step :
        (r : Recommendation) (o : Option String)
        → recommendation_by_id r.id db ≡ some r
        → r.slack_message_ts ≡ o
        → is_server_error
            (answered db (deliver_unless texts send channel event_id now db incident_id r o)).0
          ≡ false
        → StepsTo (answered db (deliver_unless texts send channel event_id now db incident_id r o))
    unless_step r (some ts) found e fine = skip refl refl (λ ts e. refl)
    unless_step r none found e fine =
        card_step send event_id r found e incident_id (incident_by_id incident_id db) refl fine

    found_step :
        (recommendation_id : UuidNumber) (o : Option Recommendation)
        → recommendation_by_id recommendation_id db ≡ o
        → is_server_error
            (answered db
              (deliver_found texts send channel event_id now db recommendation_id incident_id o)).0
          ≡ false
        → StepsTo (
            answered db
              (deliver_found texts send channel event_id now db recommendation_id incident_id o))
    found_step recommendation_id none e fine = skip refl refl (λ ts e. refl)
    found_step recommendation_id (some r) e fine =
        let same : r.id ≡ recommendation_id = ==→eq r.id recommendation_id (
          find_row_sound (λ (x : Recommendation). x.id == recommendation_id) db.recommendations r
            e) in
        unless_step r r.slack_message_ts (ap (λ k. recommendation_by_id k db) same ∙ e) refl fine

  parsed_step :
      (send : Notifier) (envelope : EventEnvelope) (o : Option RecommendationCreatedPayload)
      → is_server_error (handle_parsed texts channel now send envelope o db).0 ≡ false
      → StepsTo (handle_parsed texts channel now send envelope o db)
  unfolding deliver_rca
  parsed_step send envelope none fine = skip refl refl (λ ts e. refl)
  parsed_step send envelope (some payload) fine =
      found_step send envelope.event_id payload.incident_id payload.recommendation_id
        (recommendation_by_id payload.recommendation_id db) refl fine

  ignored_step :
      (envelope : EventEnvelope) (r : Result {0} (Unit × Db))
      → mark_processed envelope.event_id service_name db ≡ r
      → is_server_error (marked_ignored db r).0 ≡ false
      → StepsTo (marked_ignored db r)
  ignored_step envelope (ok (u, db')) e fine =
      skip (ap (λ (d : Db). message_ts id d) (mark_ok_state envelope.event_id service_name db e))
        refl (λ ts e. refl)
  ignored_step envelope (err x) e fine = skip refl refl (λ ts e. refl)

  sent_step :
      (send : Notifier) (envelope : EventEnvelope)
      → is_server_error (handle_event texts channel now (some send) envelope db).0 ≡ false
      → StepsTo (handle_event texts channel now (some send) envelope db)
  unfolding handle_event
  sent_step send envelope =
      elim (Bool-cases (is_already_processed envelope.event_id service_name db)) [
        | inl known ↦ rw known (λ fine. skip refl refl (λ ts e. refl))
        | inr new ↦ elim (Bool-cases (str_eq envelope.event_type "recommendation.created")) [
          | inl e ↦ rw (new, e) (parsed_step send envelope (parse_payload envelope.payload))
          | inr e ↦
              rw (new, e)
                (ignored_step envelope (mark_processed envelope.event_id service_name db) refl)
        ]
      ]

  -- Every event that the service handles without a server error is a step of the card of any
  -- recommendation.
  pub handle_event-CardStep :
      (send : Option Notifier) (envelope : EventEnvelope)
      → is_server_error (handle_event texts channel now send envelope db).0 ≡ false
      → CardStep
          (message_ts id db)
          (message_ts id (handle_event texts channel now send envelope db).1)
          (posts_of id (handle_event texts channel now send envelope db).2)
          (lost_of id (handle_event texts channel now send envelope db).2)
  unfolding handle_event
  handle_event-CardStep none envelope fine = skip refl refl (λ ts e. refl)
  handle_event-CardStep (some send) envelope fine = sent_step send envelope fine
