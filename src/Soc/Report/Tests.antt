-- ===== src/Soc/Report/Tests.antt =====
-- A report of one alert, and the instance of the theorem on it.
use bankproject.Base.{◌≡◌, refl, String, some, List, [], ◌∷◌, map}
use bankproject.Text.Split.{join_with}
use bankproject.Model.{high, open_alert}
use bankproject.Prisma.Listed.{listed}
use bankproject.Handler.{World, ok}
use bankproject.Transactions.Sample.{bank, row}
use bankproject.Soc.Report.{
  double_quotes, escape, AlertRow, header, alerts_csv, Texts, get_alerts, get_alerts_csv,
}
use bankproject.Soc.Report.Reader.{read_csv, row_texts, get_alerts_csv-read}

abbrev texts : Texts
texts = record { number_text = λ n. "7"; money_text = λ n. "12"; time_text = λ n. "now" }

abbrev noted : World
noted = record {
  db = record bank {
    transactions = record (row 5) { reference = "TX,\"1\"" } ∷ [];
    fraud_alerts =
        record {
          id = 7;
          risk_score = 90;
          risk_level = high;
          reason = "odd";
          status = open_alert;
          transaction_id = 1;
          created_at = 9;
        }
        ∷ [];
  };
  clock = λ n. n;
  random = λ n. "r";
  others = λ n d. d;
}

abbrev reported : String
reported =
    "id,amount,currency,risk_score,severity,decision,status,transaction_id,reference,created_at\n\"7\",\"12\",\"USD\",\"7\",\"HIGH\",\"COMPLETED\",\"OPEN\",\"7\",\"TX,\"\"1\"\"\",\"now\""

run_report : (get_alerts_csv listed texts noted).0 ≡ ok reported
unfolding get_alerts_csv alerts_csv join_with escape double_quotes
run_report = refl

get_alerts_csv-read_example :
    (rows : List AlertRow) × (get_alerts listed texts noted ≡ (ok rows, noted))
    × (csv : String) × (get_alerts_csv listed texts noted ≡ (ok csv, noted))
    × (read_csv csv ≡ some (header ∷ map row_texts rows))
get_alerts_csv-read_example = get_alerts_csv-read listed texts noted
