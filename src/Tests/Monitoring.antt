-- ===== src/Tests/Monitoring.antt =====
-- A registry of metrics as a list of names and a table of counters.
use strimzi_backup_operator.Base.{
  not, ◌||◌, ℕ, ◌+◌, ◌%◌, ◌^◌, String, eq_refl, ◌==◌, ◌≡◌, refl, true, ◌&&◌, none, some, List, [],
  ◌∷◌, any, length, retain, arith, if◌then◌else◌,
}
use strimzi_backup_operator.Error.{ok, err, storage}
use strimzi_backup_operator.Metrics.{Prometheus}
use strimzi_backup_operator.Metrics.Valid.{is_valid}
use strimzi_backup_operator.Metrics.Counters.{IsCounting, same_labels}
use strimzi_backup_operator.Controllers.Laws.{
  Reconciled, is_counted, total, record_all, total-record_all,
}

record Series : Type 0 where
  pub names : List String
  pub counter : String → List String → ℕ

abbrev table : Prometheus Series ℕ
table = record {
  empty = record { names = []; counter = λ name values. 0 };
  register = λ metric s.
      if not (is_valid metric) || any (λ n. n == metric.name) s.names
      then none
      else some (record s { names = metric.name ∷ s.names });
  inc_by = λ name values n s. record s {
    counter = λ other labels.
        if name == other && same_labels values labels
        then (s.counter other labels + n) % 2 ^ 64
        else s.counter other labels;
  };
  set_int = λ name values n s. s;
  set = λ name values x s. s;
  observe = λ name values x s. s;
  as_secs_f64 = λ n. n;
  as_f64 = λ n. 0;
  zero_f64 = 0;
}

table-IsCounting : IsCounting table
table-IsCounting = record {
  counter = λ s name values. s.counter name values;
  adds = λ name values n s other. ground (arith, eq_refl name);
  observes = λ metric values x s name other. refl;
}

abbrev three : List Reconciled
three =
    record { controller = "backup"; result = ok tt; elapsed = 1 }
    ∷ record { controller = "restore"; result = ok tt; elapsed = 1 }
    ∷ record { controller = "backup"; result = err (storage "down"); elapsed = 1 }
    ∷ []

total-record_all_example :
    total table table-IsCounting (record_all table three table.empty) "backup" true
    ≡ (total table table-IsCounting table.empty "backup" true
        + length (retain (is_counted "backup" true) three))
      % 2 ^ 64
unfolding table-IsCounting
total-record_all_example =
    total-record_all table table-IsCounting three table.empty "backup" true refl
