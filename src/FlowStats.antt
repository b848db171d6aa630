-- ===== src/FlowStats.antt =====
-- view/flow-stats.js: the greatest values over the jobs of an execution.
pub mod Greatest
pub mod Update
pub mod Analysis
mod Tests
use Prim.Native.String.{◌++◌ as join_texts}
use azkaban_private.Prelude.Text.{text_length, substring_from}
use azkaban_private.Prelude.Int.{ℤ, pos, ◌+ℤ◌, ◌-ℤ◌, leb_ℤ, scale}
use azkaban_private.Prelude.{
  ℕ, suc, ◌+◌, ◌==◌, leb, if◌then◌else◌, Bool, false, true, Option, none, some, List, [], ◌∷◌, ◌++◌,
  String, lookup, ◌>>=◌, str_eq, not, ◌&&◌,
}

-- A number as the code has it: whole, or NaN.
pub data Amount : Type 0 where
  nan : Amount
  int : ℤ → Amount

-- `a >= b`
abbrev pub at_least : Amount → Amount → Bool
at_least (int a) (int b) = leb_ℤ b a
at_least _ _ = false

abbrev pub add : Amount → Amount → Amount
add (int a) (int b) = int (a +ℤ b)
add _ _ = nan

-- The properties of `stats` that have a greatest value and its job.
pub data Field : Type 0 where
  map_slots reduce_slots job_map_memory_mb job_reduce_memory_mb xmx xms : Field
  file_bytes_read hdfs_bytes_read file_bytes_written hdfs_bytes_written distributed_cache : Field

abbrev pub field_number : Field → ℕ
field_number map_slots = 0
field_number reduce_slots = 1
field_number job_map_memory_mb = 2
field_number job_reduce_memory_mb = 3
field_number xmx = 4
field_number xms = 5
field_number file_bytes_read = 6
field_number hdfs_bytes_read = 7
field_number file_bytes_written = 8
field_number hdfs_bytes_written = 9
field_number distributed_cache = 10

-- Such a property; only `xmx` and `xms` have a text.
pub record Max : Type 0 where
  pub max : Amount
  pub str : Option String
  pub job : Option String

pub record Stats : Type 0 where
  pub maxima : Field → Max
  pub total_map_slots : Amount
  pub total_reduce_slots : Amount
  pub xms_set : Bool
  pub using_cache : Bool

-- `if (value >= stats.field.max) { ... }`
abbrev pub keep_max : Amount → Option String → String → Max → Max
keep_max value str job m =
    if at_least value m.max then record { max = value; str = str; job = some job } else m

unfoldable pub record_max : Field → Amount → Option String → String → (Field → Max) → Field → Max
record_max f value str job maxima g =
    if field_number f == field_number g then keep_max value str job (maxima g) else maxima g

abbrev pub with_max : Field → Amount → Option String → String → Stats → Stats
with_max f value str job s = record s { maxima = record_max f value str job s.maxima }

-- The functions of the engine that the code calls on texts; `parse_int` of an absent property is
-- that of undefined.
pub record Engine : Type 0 where
  pub parse_int : Option String → Amount
  pub is_nan : String → Bool
  pub contains : String → String → Bool
  pub split : String → String → List String
  pub last_char : String → String
  pub without_last : String → String
  pub to_upper_case : String → String

-- What the server sends of a job: the counts of slots, the configuration and the counters, each of
-- which may be absent.
pub record JobStat : Type 0 where
  pub total_mappers : Option String
  pub total_reducers : Option String
  pub conf : Option (List (String × String))
  pub counters : Option (List (String × List (String × String)))

pub record Job : Type 0 where
  pub id : String
  pub start_time : ℤ
  pub end_time : ℤ

pub record Data : Type 0 where
  pub success : Bool
  pub message : Option String
  pub warnings : List String
  pub durations : List (String × ℤ)
  pub stats : Stats
  pub jobs_analyzed : ℕ

module _ (engine : Engine) where
  abbrev pub parse_int : Option String → Amount
  parse_int = engine.parse_int

  abbrev pub times : Amount → ℕ → Amount
  times (int a) n = int (scale a n)
  times nan n = nan

  -- `sizeStrToBytes` of util/common.js.
  unfoldable pub size_str_to_bytes : String → Amount
  size_str_to_bytes str =
      let unit = engine.last_char str in
      let val = parse_int (some (engine.without_last str)) in
      let upper = engine.to_upper_case unit in
      if text_length str == 0
      then int (pos 0)
      else if engine.is_nan unit
      then if str_eq upper "M"
        then times val 1048576
        else if str_eq upper "G"
        then times val 1073741824
        else val
      else parse_int (some str)

  unfoldable pub update_stats_mapred : JobStat → String → Stats → Stats
  update_stats_mapred state job s =
      let mappers = parse_int state.total_mappers in
      let reducers = parse_int state.total_reducers in
      let s' = with_max reduce_slots reducers none job (with_max map_slots mappers none job s) in
      record s' {
        total_map_slots = add s.total_map_slots mappers;
        total_reduce_slots = add s.total_reduce_slots reducers;
      }

  -- The loop over the parts of `mapred.child.java.opts`: a part of four characters at most is left
  -- out altogether.
  unfoldable pub update_option : String → String → Stats → Stats
  update_option part job s =
      let size = substring_from 4 part in
      let val = size_str_to_bytes size in
      let long = not (leb (text_length part) 4) in
      let s' =
        if engine.contains part "Xmx" && long then with_max xmx val (some size) job s else s in
      if engine.contains part "Xms" && long
      then record (with_max xms val (some size) job s') { xms_set = true }
      else s'

  abbrev pub update_options : List String → String → Stats → Stats
  update_options [] job s = s
  update_options (part ∷ parts) job s = update_options parts job (update_option part job s)

  abbrev pub total_size : Amount → List String → Amount
  total_size size [] = size
  total_size size (part ∷ parts) = total_size (add size (parse_int (some part))) parts

  unfoldable pub update_cache : List (String × String) → String → Stats → Stats
  update_cache conf job s = elim (lookup "mapred.cache.files" conf) [
    | none ↦ s
    | some files ↦ elim (lookup "mapred.cache.files.filesizes" conf) [
      | none ↦ s
      | some sizes ↦
          record (with_max distributed_cache (total_size (int (pos 0)) (engine.split sizes ","))
            none job s) { using_cache = true }
    ]
  ]

  -- `updateStatsConf` where there is a configuration; `none` is the TypeError for one without
  -- `mapred.child.java.opts`.
  unfoldable pub update_stats_conf : List (String × String) → String → Stats → Option Stats
  update_stats_conf conf job s =
      let map_memory = parse_int (lookup "mapred.job.map.memory.mb" conf) in
      let reduce_memory = parse_int (lookup "mapred.job.reduce.memory.mb" conf) in
      let s' =
        with_max job_reduce_memory_mb reduce_memory none job
          (with_max job_map_memory_mb map_memory none job s) in
      elim (lookup "mapred.child.java.opts" conf) [
        | none ↦ none
        | some opts ↦ some (update_cache conf job (update_options (engine.split opts " ") job s'))
      ]

  unfoldable pub update_stats_counters : List (String × String) → String → Stats → Stats
  update_stats_counters counters job s =
      let value : String → Amount = λ key. parse_int (lookup key counters) in
      with_max hdfs_bytes_written (value "HDFS_BYTES_WRITTEN") none job (
        with_max hdfs_bytes_read (value "HDFS_BYTES_READ") none job (
          with_max file_bytes_written (value "FILE_BYTES_WRITTEN") none job
            (with_max file_bytes_read (value "FILE_BYTES_READ") none job s)))

  abbrev pub warn : String → String → Data → Data
  warn text job d = record d { warnings = d.warnings ++ join_texts text job ∷ [] }

  abbrev pub with_stats : Stats → Data → Data
  with_stats s d = record d { stats = s }

  -- The counters part of `updateStats`, with its two warnings.
  unfoldable pub count : JobStat → String → Data → Data
  count stat job d = elim stat.counters [
    | none ↦ warn "No job counters available for job " job d
    | some groups ↦ elim (lookup "FileSystemCounters" groups) [
      | none ↦ warn "No FileSystemCounters available for job " job d
      | some counters ↦ with_stats (update_stats_counters counters job d.stats) d
    ]
  ]

  -- `updateStats`
  unfoldable pub update_stats : JobStat → String → Data → Option Data
  update_stats stat job d =
      let d' = with_stats (update_stats_mapred stat job d.stats) d in
      elim stat.conf [
        | none ↦ some (count stat job (warn "No job conf available for job " job d'))
        | some conf ↦
            update_stats_conf conf job d'.stats >>= λ s. some (count stat job (with_stats s d'))
      ]

  unfoldable pub update_all : List JobStat → String → Data → Option Data
  update_all [] job d = some d
  update_all (stat ∷ rest) job d = update_stats stat job d >>= update_all rest job

  -- The loop of `analyzeExecution`. The server answers for a job with the list of its statistics, or
  -- without it; `none` is no answer, after which the code throws.
  unfoldable pub analyze_jobs :
      (String → Option (Option (List JobStat))) → List Job → Data → Option Data
  analyze_jobs fetch [] d = some d
  analyze_jobs fetch (job ∷ jobs) d =
      let d' = record d {
        durations = d.durations ++ (job.id, job.end_time -ℤ job.start_time) ∷ [];
      } in
      elim (fetch job.id) [
        | none ↦ none
        | some answer ↦ elim answer [
          | none ↦ analyze_jobs fetch jobs (warn "No job stats available for job " job.id d')
          | some stats ↦ update_all stats job.id d' >>= λ t.
              analyze_jobs fetch jobs (record t { jobs_analyzed = suc t.jobs_analyzed })
        ]
      ]

  abbrev pub empty_stats : Stats
  empty_stats = record {
    maxima = λ f. record { max = int (pos 0); str = none; job = none };
    total_map_slots = int (pos 0);
    total_reduce_slots = int (pos 0);
    xms_set = false;
    using_cache = false;
  }

  abbrev pub empty_data : Data
  empty_data = record {
    success = false;
    message = none;
    warnings = [];
    durations = [];
    stats = empty_stats;
    jobs_analyzed = 0;
  }

  -- `analyzeExecution`
  unfoldable pub analyze_execution :
      (String → Option (Option (List JobStat))) → List Job → Option Data
  analyze_execution fetch jobs = analyze_jobs fetch jobs empty_data >>= λ d. some (
      if d.jobs_analyzed == 0
      then record d { message = some "There were no job stats provided by any job." }
      else record d { success = true })
