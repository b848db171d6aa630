-- ===== src/FlowStats/Tests.antt =====
-- Runs of the analysis of view/flow-stats.js.
use azkaban_private.Prelude.{
  ◌≡◌, refl, if◌then◌else◌, false, Option, none, some, List, [], ◌∷◌, String, str_eq, lookup,
}
use azkaban_private.Prelude.Int.{pos}
use azkaban_private.FlowStats.{
  Amount, nan, int, Engine, JobStat, Job, Data, map_slots, analyze_execution, analyze_jobs,
  update_all, update_stats, update_stats_conf, count, update_stats_counters, record_max,
  update_stats_mapred, update_cache, update_option,
}
use azkaban_private.FlowStats.Analysis.{IsAnalysis, analyze_execution_lem}

-- Texts of whole numbers below ten, and options that are one part each.
abbrev read_digit : Option String → Amount
read_digit none = nan
read_digit (some text) = elim (lookup text (("4", pos 4) ∷ ("7", pos 7) ∷ ("512", pos 512) ∷ [])) [
  | none ↦ nan
  | some n ↦ int n
]

abbrev engine : Engine
engine = record {
  parse_int = read_digit;
  is_nan = λ text. str_eq text "M";
  contains = λ text part. if str_eq text "-Xmx512M" then str_eq part "Xmx" else false;
  split = λ text separator. text ∷ [];
  last_char = λ text. if str_eq text "512M" then "M" else "";
  without_last = λ text. if str_eq text "512M" then "512" else "";
  to_upper_case = λ text. text;
}

abbrev conf : List (String × String)
conf = ("mapred.job.map.memory.mb", "512") ∷ ("mapred.child.java.opts", "-Xmx512M") ∷ []

abbrev small_stat : JobStat
small_stat = record {
  total_mappers = some "4";
  total_reducers = some "7";
  conf = some conf;
  counters = none;
}

abbrev large_stat : JobStat
large_stat = record {
  total_mappers = some "7";
  total_reducers = none;
  conf = none;
  counters = some (("FileSystemCounters", ("HDFS_BYTES_READ", "512") ∷ []) ∷ []);
}

abbrev jobs : List Job
jobs =
    record { id = "load"; start_time = pos 3; end_time = pos 9 }
    ∷ record { id = "count"; start_time = pos 9; end_time = pos 12 }
    ∷ []

abbrev fetch : String → Option (Option (List JobStat))
fetch id = if str_eq id "load" then some (some (small_stat ∷ large_stat ∷ [])) else some none

abbrev map_slots_max : Option Data → Amount × Option String
map_slots_max none = (nan, none)
map_slots_max (some d) = ((d.stats.maxima map_slots).max, (d.stats.maxima map_slots).job)

run_map_slots : map_slots_max (analyze_execution engine fetch jobs) ≡ (int (pos 7), some "load")
unfolding analyze_execution analyze_jobs update_all update_stats update_stats_conf lookup count
    update_stats_counters record_max update_stats_mapred update_cache update_option
run_map_slots = refl

analyze_execution_lem_example :
    (d : Data) × (analyze_execution engine fetch jobs ≡ some d) × IsAnalysis engine fetch jobs d
unfolding lookup
analyze_execution_lem_example = analyze_execution_lem engine fetch jobs (
  (some (small_stat ∷ large_stat ∷ []), refl, (("-Xmx512M", refl), (tt, tt))),
  ((none, refl, tt), tt),
)
