-- ===== src/Metrics/Valid.antt =====
-- What the prometheus crate documents of a metric that it takes: its name and the names of its labels
-- are of the characters of Prometheus's data model, it has a help text, no label stands twice, and the
-- buckets of a histogram ascend, whose label `le` is reserved.
use Prim.Native.Char.{Char, code}
use Prim.Native.String.{String, [], ◌∷◌}
use strimzi_backup_operator.Base.{
  ℕ, ◌==◌, Bool, true, false, not, ◌&&◌, ◌||◌, List, any, leb, ltb, eqb,
}
use strimzi_backup_operator.Base.Text.{is_empty}
use strimzi_backup_operator.Metrics.{Metric, MetricKind, histogram}

is_letter : Char → Bool
is_letter c =
    let n = code c in (leb b'a' n && leb n b'z') || (leb b'A' n && leb n b'Z') || eqb n b'_'

is_digit : Char → Bool
is_digit c = leb b'0' (code c) && leb (code c) b'9'

all_chars : (Char → Bool) → String → Bool
all_chars p [] = true
all_chars p (c ∷ s) = p c && all_chars p s

is_label : String → Bool
unfolding all_chars is_letter is_digit
is_label [] = false
is_label (c ∷ s) = is_letter c && all_chars (λ d. is_letter d || is_digit d) s

is_colon : Char → Bool
is_colon c = eqb (code c) b':'

is_metric_name : String → Bool
unfolding all_chars is_letter is_digit is_colon
is_metric_name [] = false
is_metric_name (c ∷ s) =
    (is_letter c || is_colon c) && all_chars (λ d. is_letter d || is_digit d || is_colon d) s

are_labels : List String → Bool
unfolding is_label
are_labels List.[] = true
are_labels (List.◌∷◌ l ls) = is_label l && not (any (λ k. k == l) ls) && are_labels ls

ascends : List ℕ → Bool
ascends List.[] = true
ascends (List.◌∷◌ x List.[]) = true
ascends (List.◌∷◌ x (List.◌∷◌ y ys)) = ltb x y && ascends (List.◌∷◌ y ys)

is_kind : MetricKind → List String → Bool
unfolding ascends
is_kind (histogram buckets) labels = ascends buckets && not (any (λ l. l == "le") labels)
is_kind _ labels = true

unfoldable pub is_valid : Metric → Bool
unfolding is_metric_name are_labels is_kind is_empty
is_valid m =
    is_metric_name m.name && not (is_empty m.help) && are_labels m.labels && is_kind m.kind m.labels
