-- ===== src/SecurityEvents/Reporting.antt =====
-- `create` of backend/src/security-events/security-events.service.ts.
use bankproject.Base.{
  ℕ, ◌≡◌, ◌∙◌, refl, ap, String, Bool, true, false, Option, none, some, ◌∷◌, ◌++◌, arith, or_else,
  or_option, Option-cases, Bool-cases, inl, inr, ◌⊎◌,
}
use bankproject.Text.{trim}
use bankproject.Model.{
  Db, SecurityEvent, RiskLevel, AuditLog, number, text, risk_of, numbered, json,
}
use bankproject.Prisma.{Prisma}
use bankproject.Handler.{World, ok, err, begin, transaction, bad_request, not_found}
use bankproject.Handler.Laws.{commit-ok}
use bankproject.Store.{EventData, AuditData, event_row, audit_row}
use bankproject.Store.Effects.{create_audit_log_lem, create_security_event_lem, noted}
use bankproject.Auth.Tables.{has_uid}
use bankproject.SecurityEvents.{
  CreateSecurityEventDto, filled, source_field, data_field, is_other, check_subject, record_event,
  create_event,
}

-- The user that the event is about.
abbrev pub subject_of : CreateSecurityEventDto → ℕ → ℕ
subject_of dto actor = or_else (or_option dto.user_id dto.user_id_old) actor

abbrev pub event_data_of : CreateSecurityEventDto → ℕ → String → RiskLevel → EventData
event_data_of dto actor kind level = record {
  event_type = trim kind;
  description = trim dto.description;
  risk_level = level;
  user_id = some (subject_of dto actor);
}

module _ (pg : Prisma) (dto : CreateSecurityEventDto) (actor : ℕ) (w : World) where
  abbrev pub requested : Option ℕ
  requested = or_option dto.user_id dto.user_id_old

  -- Whether the subject is the one who reports, or a stored user.
  abbrev pub is_known : Bool
  is_known = elim (is_other requested actor) [
    | true ↦ elim (pg.find (has_uid (or_else requested actor)) w.db.users) [
      | none ↦ false
      | some u ↦ true
    ]
    | false ↦ true
  ]

  check_subject_lem :
      ((is_known ≡ true) × (check_subject pg requested actor w ≡ (ok tt, w)))
      ⊎ ((is_known ≡ false)
          × (check_subject pg requested actor w
              ≡ (err (not_found "Event subject user not found"), w)))
  unfolding check_subject
  check_subject_lem = elim (Bool-cases (is_other requested actor)) [
    | inr self ↦ inl (ground (arith, self), ground (arith, self))
    | inl other ↦ elim (Option-cases (pg.find (has_uid (or_else requested actor)) w.db.users)) [
      | inl missing ↦ inr (ground (arith, other, missing), ground (arith, other, missing))
      | inr (u, found) ↦ inl (ground (arith, other, found), ground (arith, other, found))
    ]
  ]

  abbrev pub kind_of : Option String
  kind_of = filled (or_option dto.event_type dto.event_type_old)

  abbrev pub level_of : Option RiskLevel
  level_of = or_option dto.risk_level dto.severity

  -- What is stored for an event that is accepted.
  pub record IsRecorded (kind : String) (level : RiskLevel) (e : SecurityEvent) (before after : Db)
      : Type 0 where
    pub row :
        e
        ≡ event_row
            (event_data_of dto actor kind level)
            (w.clock 0)
            (pg.fresh (λ r. r.id) before.security_events)
    pub events : after.security_events ≡ e ∷ before.security_events
    pub log : AuditLog
    pub logs : after.audit_logs ≡ log ∷ before.audit_logs
    pub reporter : log.user_id ≡ some actor
    pub action : log.action ≡ "SECURITY_EVENT_CREATED"
    pub resource : log.resource ≡ some (numbered "SecurityEvent" e.id)

  record_event-IsRecorded :
      (kind : String) (level : RiskLevel)
      → let v = begin w in
        (e : SecurityEvent) × ((record_event pg dto actor kind level v).0 ≡ ok e)
        × IsRecorded kind level e v.db (record_event pg dto actor kind level v).1.db
  unfolding record_event
  record_event-IsRecorded kind level =
      let v = begin w in
      let event = event_data_of dto actor kind level in
      let made = event_row event (w.clock 0) (pg.fresh (λ r. r.id) v.db.security_events) in
      let audit : AuditData = record {
        user_id = some actor;
        action = "SECURITY_EVENT_CREATED";
        resource = some (numbered "SecurityEvent" made.id);
        outcome = some "SUCCESS";
        details = some (
            json (
              ("eventType", text made.event_type)
              ∷ ("riskLevel", risk_of (some made.risk_level))
              ∷ ("subjectUserId", number (or_else made.user_id 0))
              ∷ (source_field (filled dto.source)
                  ++ data_field (or_option dto.event_data dto.event_data_old))));
      } in
      let n = create_security_event_lem pg event v in
      let l = create_audit_log_lem pg audit (noted pg event v) in
      (
        made,
        ground (arith, n, l),
        record {
          row = refl;
          events = ground (arith, n, l);
          log = audit_row audit (w.clock 1) (pg.fresh (λ r. r.id) v.db.audit_logs);
          logs = ground (arith, n, l);
          reporter = refl;
          action = refl;
          resource = refl;
        },
      )

  -- An event without a type or without a risk level, or about a user who is not stored, is refused
  -- in this order and leaves everything as it was. Any other is stored, with its texts trimmed, for
  -- its subject or else for the one who reports it, and one row in the audit log names the reporter
  -- and the event; the older rows of both tables stay.
  pub create_event_decides :
      (kind_of ≡ none
        → create_event pg dto actor w ≡ (err (bad_request "eventType is required"), w))
      × ((kind : String)
          → kind_of ≡ some kind
          → level_of ≡ none
          → create_event pg dto actor w ≡ (err (bad_request "riskLevel is required"), w))
      × ((kind : String) (level : RiskLevel)
          → kind_of ≡ some kind
          → level_of ≡ some level
          → is_known ≡ false
          → create_event pg dto actor w ≡ (err (not_found "Event subject user not found"), w))
      × ((kind : String) (level : RiskLevel)
          → kind_of ≡ some kind
          → level_of ≡ some level
          → is_known ≡ true
          → (e : SecurityEvent) × ((create_event pg dto actor w).0 ≡ ok e)
            × IsRecorded kind level e (w.others 0 w.db) (create_event pg dto actor w).1.db)
  unfolding create_event
  create_event_decides = (
    (λ q. rw (q, create_event)),
    (λ kind q r. rw q (rw r)),
    (λ kind level q r s. elim check_subject_lem [
      | inl (known, passed) ↦ absurd (cc (known, s))
      | inr (unknown, stopped) ↦ ground (arith, q, r, stopped)
    ]),
    (λ kind level q r s. elim check_subject_lem [
      | inr (unknown, stopped) ↦ absurd (cc (unknown, s))
      | inl (known, passed) ↦
          let body = record_event pg dto actor kind level in
          let (e, made, recorded) = record_event-IsRecorded kind level in
          let path : create_event pg dto actor w ≡ transaction body w =
            ground (arith, q, r, passed) in
          let kept = path ∙ commit-ok (begin w) (body (begin w)) made in
          (e, ap (λ z. z.0) kept ∙ made, rw kept recorded)
    ]),
  )
