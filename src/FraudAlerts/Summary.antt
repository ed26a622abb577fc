-- ===== src/FraudAlerts/Summary.antt =====
-- `getSummary` of backend/src/fraud-alerts/fraud-alerts.service.ts: the alerts that pass the
-- filters are counted by risk level and by status.
use bankproject.Base.{
  ℕ, suc, ◌+◌, ◌≡◌, ◌∙◌, refl, ap, Bool, true, ◌&&◌, if◌then◌else◌, Option, none, some, List, [],
  ◌∷◌, ◌==◌, leb, or_else, or_option, arith, length, count_where,
}
use bankproject.Model.{
  FraudAlert, AlertStatus, open_alert, investigating, alert_code, alert_eq, RiskLevel, risk_code,
  risk_eq,
}
use bankproject.Prisma.{Prisma}
use bankproject.Handler.{Handler, World, ok, ◌>>=◌, gets, pure}

pub record ListFraudAlertsDto : Type 0 where
  pub risk_level : Option RiskLevel
  pub severity : Option RiskLevel
  pub status : Option AlertStatus
  pub min_risk_score : Option ℕ
  pub max_risk_score : Option ℕ

abbrev pub passes_risk : Option RiskLevel → FraudAlert → Bool
passes_risk none a = true
passes_risk (some r) a = risk_eq a.risk_level r

abbrev pub passes_status : Option AlertStatus → FraudAlert → Bool
passes_status none a = true
passes_status (some s) a = alert_eq a.status s

abbrev pub at_least : Option ℕ → ℕ → Bool
at_least none n = true
at_least (some low) n = leb low n

abbrev pub at_most : Option ℕ → ℕ → Bool
at_most none n = true
at_most (some high) n = leb n high

-- The `where` object that the filters make.
abbrev pub passes : ListFraudAlertsDto → FraudAlert → Bool
passes query a =
    passes_risk (or_option query.risk_level query.severity) a
    && passes_status query.status a
    && at_least query.min_risk_score a.risk_score
    && at_most query.max_risk_score a.risk_score

-- `Record<string, number>` with the keys that occur; a key is the code of its name.
abbrev pub Counts : Type 0
Counts = List (ℕ × ℕ)

abbrev pub count_at : ℕ → Counts → Option ℕ
count_at key [] = none
count_at key ((k, n) ∷ rest) = if k == key then some n else count_at key rest

-- `counts[key] = (counts[key] ?? 0) + 1`
abbrev pub add_one : ℕ → Counts → Counts
add_one key [] = (key, 1) ∷ []
add_one key ((k, n) ∷ rest) =
    let more = add_one key rest in if k == key then (k, n + 1) ∷ rest else (k, n) ∷ more

abbrev pub tally : (FraudAlert → ℕ) → List FraudAlert → Counts → Counts
tally key [] counts = counts
tally key (a ∷ rest) counts = tally key rest (add_one (key a) counts)

pub record AlertSummary : Type 0 where
  pub total : ℕ
  pub open_count : ℕ
  pub by_risk_level : Counts
  pub by_status : Counts

abbrev pub summarize : List FraudAlert → AlertSummary
summarize alerts =
    let by_status = tally (λ a. alert_code a.status) alerts [] in
    record {
      total = length alerts;
      open_count =
          or_else (count_at (alert_code open_alert) by_status) 0
          + or_else (count_at (alert_code investigating) by_status) 0;
      by_risk_level = tally (λ a. risk_code a.risk_level) alerts [];
      by_status = by_status;
    }

unfoldable pub get_summary : Prisma → ListFraudAlertsDto → Handler AlertSummary
get_summary pg query = do
  alerts ← gets (λ d. pg.find_many (passes query) d.fraud_alerts)
  pure (summarize alerts)

count_at-add_one :
    (key k : ℕ) (c : Counts)
    → or_else (count_at key (add_one k c)) 0
      ≡ (if k == key then 1 else 0) + or_else (count_at key c) 0
count_at-add_one key k [] = ground arith
count_at-add_one key k ((j, n) ∷ c) = ground (arith, count_at-add_one key k c)

count_at-tally :
    (key : FraudAlert → ℕ) (k : ℕ) (alerts : List FraudAlert) (c : Counts)
    → or_else (count_at k (tally key alerts c)) 0
      ≡ count_where (λ a. key a == k) alerts + or_else (count_at k c) 0
count_at-tally key k [] c = omega arith
count_at-tally key k (a ∷ rest) c =
    ground (arith, count_at-tally key k rest (add_one (key a) c), count_at-add_one k (key a) c)

length-count_where : (alerts : List FraudAlert) → length alerts ≡ count_where (λ a. true) alerts
length-count_where [] = refl
length-count_where (a ∷ rest) = ap suc (length-count_where rest)

module _ (pg : Prisma) (query : ListFraudAlertsDto) (w : World) where
  abbrev pub passing : (FraudAlert → Bool) → ℕ
  passing p = count_where (λ a. passes query a && p a) w.db.fraud_alerts

  -- The summary is given always and changes nothing: it counts the stored alerts that pass the
  -- filters, all of them, those that are open or under investigation, and those of each risk level
  -- and of each status.
  pub get_summary_counts :
      (s : AlertSummary) × (get_summary pg query w ≡ (ok s, w))
      × (s.total ≡ passing (λ a. true))
      × (s.open_count
          ≡ passing (λ a. alert_eq a.status open_alert)
            + passing (λ a. alert_eq a.status investigating))
      × ((r : RiskLevel)
          → or_else (count_at (risk_code r) s.by_risk_level) 0
            ≡ passing (λ a. risk_eq a.risk_level r))
      × ((t : AlertStatus)
          → or_else (count_at (alert_code t) s.by_status) 0 ≡ passing (λ a. alert_eq a.status t))
  unfolding get_summary
  get_summary_counts =
      let alerts = pg.find_many (passes query) w.db.fraud_alerts in
      let found = λ (p : FraudAlert → Bool). pg.find_many_lem (passes query) p w.db.fraud_alerts in
      let by =
        λ (t : AlertStatus). count_at-tally (λ a. alert_code a.status) (alert_code t) alerts [] in
      (
        summarize alerts,
        refl,
        length-count_where alerts ∙ found (λ a. true),
        ground (
          arith,
          by open_alert,
          by investigating,
          found (λ a. alert_eq a.status open_alert),
          found (λ a. alert_eq a.status investigating),
        ),
        (λ r. ground (
          arith,
          count_at-tally (λ a. risk_code a.risk_level) (risk_code r) alerts [],
          found (λ a. risk_eq a.risk_level r),
        )),
        (λ t. ground (arith, by t, found (λ a. alert_eq a.status t))),
      )
