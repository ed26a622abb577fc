-- ===== src/SecurityEvents/Tests.antt =====
-- A reported event, and the instance of the theorem on it.
use bankproject.Base.{◌≡◌, refl, String, true, false, none, some}
use bankproject.Text.{trim}
use bankproject.Model.{SecurityEvent, RiskLevel, high}
use bankproject.Prisma.Listed.{listed}
use bankproject.Handler.{World, ok, err, bad_request, not_found}
use bankproject.Store.{create_audit_log, create_security_event}
use bankproject.Auth.Sample.{people, at_work}
use bankproject.SecurityEvents.{CreateSecurityEventDto, check_subject, record_event, create_event}
use bankproject.SecurityEvents.Reporting.{
  is_known, kind_of, level_of, IsRecorded, create_event_decides,
}

abbrev dto : CreateSecurityEventDto
dto = record {
  event_type = some " PHISHING ";
  event_type_old = none;
  risk_level = none;
  severity = some high;
  description = "a mail";
  user_id = some 2;
  user_id_old = none;
  source = none;
  event_data = none;
  event_data_old = none;
}

abbrev home : World
home = at_work people

run_event :
    (create_event listed dto 1 home).0
    ≡ ok (record {
      id = 1;
      event_type = "PHISHING";
      description = "a mail";
      risk_level = high;
      user_id = some 2;
      created_at = 1000000;
    })
unfolding create_event check_subject record_event create_security_event create_audit_log trim
run_event = refl

create_event_decides_example :
    (kind_of listed dto 1 home ≡ none
      → create_event listed dto 1 home ≡ (err (bad_request "eventType is required"), home))
    × ((kind : String)
        → kind_of listed dto 1 home ≡ some kind
        → level_of listed dto 1 home ≡ none
        → create_event listed dto 1 home ≡ (err (bad_request "riskLevel is required"), home))
    × ((kind : String) (level : RiskLevel)
        → kind_of listed dto 1 home ≡ some kind
        → level_of listed dto 1 home ≡ some level
        → is_known listed dto 1 home ≡ false
        → create_event listed dto 1 home ≡ (err (not_found "Event subject user not found"), home))
    × ((kind : String) (level : RiskLevel)
        → kind_of listed dto 1 home ≡ some kind
        → level_of listed dto 1 home ≡ some level
        → is_known listed dto 1 home ≡ true
        → (e : SecurityEvent) × ((create_event listed dto 1 home).0 ≡ ok e)
          × IsRecorded listed dto 1 home kind level e people (create_event listed dto 1 home).1.db)
create_event_decides_example = create_event_decides listed dto 1 home
