-- ===== src/FlowStats/Update.antt =====
-- What `updateStats` records of a job: a sequence of observations.
use azkaban_private.Prelude.{
  ◌≡◌, refl, sym, ◌∙◌, ap, leb, if◌then◌else◌, Bool, ◌&&◌, not, Option, none, some, List, [], ◌∷◌,
  ◌++◌, String, All, Bool-cases, Option-cases, inl, inr, lookup, ◌>>=◌,
}
use azkaban_private.Prelude.Text.{text_length, substring_from}
use azkaban_private.Prelude.Int.{pos}
use azkaban_private.FlowStats.{
  int, Field, map_slots, reduce_slots, job_map_memory_mb, job_reduce_memory_mb, xmx, xms,
  file_bytes_read, hdfs_bytes_read, file_bytes_written, hdfs_bytes_written, distributed_cache,
  Stats, Engine, JobStat, Data, parse_int, size_str_to_bytes, update_stats_mapred, update_option,
  update_options, total_size, update_cache, update_stats_conf, update_stats_counters, warn,
  with_stats, count, update_stats, update_all, with_max,
}
use azkaban_private.FlowStats.Greatest.{Observation, observe_all, observe_all-append}

module _ (engine : Engine) where
  abbrev plain : Field → Option String → String → Observation
  plain f text job = record { field = f; value = parse_int engine text; str = none; job = job }

  abbrev sized : Field → String → String → Observation
  sized f part job = record {
    field = f;
    value = size_str_to_bytes engine (substring_from 4 part);
    str = some (substring_from 4 part);
    job = job;
  }

  abbrev one_if : Bool → Observation → List Observation
  one_if b o = if b then o ∷ [] else []

  -- What is observed of a part of the options for Java.
  abbrev seen_option : String → String → List Observation
  seen_option part job =
      let long = not (leb (text_length part) 4) in
      one_if (engine.contains part "Xmx" && long) (sized xmx part job)
      ++ one_if (engine.contains part "Xms" && long) (sized xms part job)

  abbrev seen_options : List String → String → List Observation
  seen_options [] job = []
  seen_options (part ∷ parts) job = seen_option part job ++ seen_options parts job

  abbrev seen_cache : List (String × String) → String → List Observation
  seen_cache conf job = elim (lookup "mapred.cache.files" conf) [
    | none ↦ []
    | some files ↦ elim (lookup "mapred.cache.files.filesizes" conf) [
      | none ↦ []
      | some sizes ↦
          record {
            field = distributed_cache;
            value = total_size engine (int (pos 0)) (engine.split sizes ",");
            str = none;
            job = job;
          }
          ∷ []
    ]
  ]

  abbrev seen_java : Option String → List (String × String) → String → List Observation
  seen_java none conf job = []
  seen_java (some opts) conf job = seen_options (engine.split opts " ") job ++ seen_cache conf job

  abbrev seen_conf : Option (List (String × String)) → String → List Observation
  seen_conf none job = []
  seen_conf (some conf) job =
      plain job_map_memory_mb (lookup "mapred.job.map.memory.mb" conf) job
      ∷ plain job_reduce_memory_mb (lookup "mapred.job.reduce.memory.mb" conf) job
      ∷ seen_java (lookup "mapred.child.java.opts" conf) conf job

  abbrev seen_counters : Option (List (String × List (String × String))) → String → List Observation
  seen_counters none job = []
  seen_counters (some groups) job = elim (lookup "FileSystemCounters" groups) [
    | none ↦ []
    | some counters ↦
        plain file_bytes_read (lookup "FILE_BYTES_READ" counters) job
        ∷ plain file_bytes_written (lookup "FILE_BYTES_WRITTEN" counters) job
        ∷ plain hdfs_bytes_read (lookup "HDFS_BYTES_READ" counters) job
        ∷ plain hdfs_bytes_written (lookup "HDFS_BYTES_WRITTEN" counters) job
        ∷ []
  ]

  abbrev pub seen : JobStat → String → List Observation
  seen stat job =
      plain map_slots stat.total_mappers job
      ∷ plain reduce_slots stat.total_reducers job
      ∷ (seen_conf stat.conf job ++ seen_counters stat.counters job)

  abbrev pub seen_all : List JobStat → String → List Observation
  seen_all [] job = []
  seen_all (stat ∷ stats) job = seen stat job ++ seen_all stats job

  update_option-maxima :
      (part job : String) (s : Stats)
      → (update_option engine part job s).maxima ≡ observe_all (seen_option part job) s.maxima
  unfolding update_option
  update_option-maxima part job s =
      let long = not (leb (text_length part) 4) in
      elim (Bool-cases (engine.contains part "Xmx" && long)) [
        | inl a ↦ elim (Bool-cases (engine.contains part "Xms" && long)) [
          | inl b ↦ rw (a, b) refl
          | inr b ↦ rw (a, b) refl
        ]
        | inr a ↦ elim (Bool-cases (engine.contains part "Xms" && long)) [
          | inl b ↦ rw (a, b) refl
          | inr b ↦ rw (a, b) refl
        ]
      ]

  update_options-maxima :
      (parts : List String) (job : String) (s : Stats)
      → (update_options engine parts job s).maxima ≡ observe_all (seen_options parts job) s.maxima
  update_options-maxima [] job s = refl
  update_options-maxima (part ∷ parts) job s =
      update_options-maxima parts job (update_option engine part job s)
      ∙ ap (observe_all (seen_options parts job)) (update_option-maxima part job s)
      ∙ sym (observe_all-append (seen_option part job) (seen_options parts job) s.maxima)

  update_cache-maxima :
      (conf : List (String × String)) (job : String) (s : Stats)
      → (update_cache engine conf job s).maxima ≡ observe_all (seen_cache conf job) s.maxima
  unfolding update_cache
  update_cache-maxima conf job s = elim (Option-cases (lookup "mapred.cache.files" conf)) [
    | inl e ↦ rw (e, update_cache, seen_cache) refl
    | inr (files, e) ↦ elim (Option-cases (lookup "mapred.cache.files.filesizes" conf)) [
      | inl e' ↦ rw (e, e', update_cache, seen_cache) refl
      | inr (sizes, e') ↦ rw (e, e', update_cache, seen_cache) refl
    ]
  ]

  count-maxima :
      (stat : JobStat) (job : String) (d : Data)
      → (count engine stat job d).stats.maxima
        ≡ observe_all (seen_counters stat.counters job) d.stats.maxima
  unfolding count update_stats_counters
  count-maxima stat job d = of_counters stat.counters
    where
      of_counters :
          (o : Option (List (String × List (String × String))))
          → (count engine (record stat { counters = o }) job d).stats.maxima
            ≡ observe_all (seen_counters o job) d.stats.maxima
      of_counters none = refl
      of_counters (some groups) = elim (Option-cases (lookup "FileSystemCounters" groups)) [
        | inl e ↦ rw (e, count, seen_counters) refl
        | inr (counters, e) ↦ rw (e, count, seen_counters) refl
      ]

  -- Without options for Java the code throws.
  abbrev pub HasOptions : Option (List (String × String)) → Type 0
  HasOptions none = Unit
  HasOptions (some conf) = (opts : String) × (lookup "mapred.child.java.opts" conf ≡ some opts)

  -- What counting leaves as it was.
  abbrev pub Kept : Data → Data → Type 0
  Kept d d' =
      (d'.jobs_analyzed ≡ d.jobs_analyzed) × (d'.durations ≡ d.durations) × (d'.success ≡ d.success)

  count-Kept : (stat : JobStat) (job : String) (d : Data) → Kept d (count engine stat job d)
  unfolding count
  count-Kept stat job d = of_counters stat.counters
    where
      of_counters :
          (o : Option (List (String × List (String × String))))
          → Kept d (count engine (record stat { counters = o }) job d)
      of_counters none = (refl, refl, refl)
      of_counters (some groups) = elim (Option-cases (lookup "FileSystemCounters" groups)) [
        | inl e ↦ rw (e, count) (refl, refl, refl)
        | inr (counters, e) ↦ rw (e, count) (refl, refl, refl)
      ]

  abbrev Updates : JobStat → String → Data → Type 0
  Updates stat job d =
      (d' : Data) × (update_stats engine stat job d ≡ some d')
      × (d'.stats.maxima ≡ observe_all (seen stat job) d.stats.maxima)
      × Kept d d'

  update_stats-maxima :
      (stat : JobStat) (job : String) (d : Data) → HasOptions stat.conf → Updates stat job d
  unfolding update_stats update_stats_mapred update_stats_conf count
  update_stats-maxima stat job d has = of_conf stat.conf has
    where
      mapred : Stats
      mapred = update_stats_mapred engine stat job d.stats

      of_conf :
          (o : Option (List (String × String)))
          → HasOptions o
          → Updates (record stat { conf = o }) job d
      of_conf none h =
          let d' = warn engine "No job conf available for job " job (with_stats engine mapred d) in
          (
            count engine (record stat { conf = none }) job d',
            refl,
            count-maxima stat job d',
            count-Kept stat job d',
          )
      of_conf (some conf) (opts, e) =
          let job_memory =
            with_max job_reduce_memory_mb
              (parse_int engine (lookup "mapred.job.reduce.memory.mb" conf)) none job
              (with_max job_map_memory_mb
                (parse_int engine (lookup "mapred.job.map.memory.mb" conf)) none job mapred) in
          let parts = engine.split opts " " in
          let with_options = update_options engine parts job job_memory in
          let s = update_cache engine conf job with_options in
          let d' = with_stats engine s (with_stats engine mapred d) in
          (
            count engine (record stat { conf = some conf }) job d',
            rw (e, update_stats_conf) refl,
            count-maxima stat job d'
                ∙ ap (observe_all (seen_counters stat.counters job)) (
                    update_cache-maxima conf job with_options
                    ∙ ap (observe_all (seen_cache conf job))
                        (update_options-maxima parts job job_memory)
                    ∙ sym (
                        observe_all-append (seen_options parts job) (seen_cache conf job)
                          job_memory.maxima))
                ∙ sym (
                    observe_all-append (seen_java (some opts) conf job)
                      (seen_counters stat.counters job) job_memory.maxima)
                ∙ ap
                    (λ o.
                      observe_all (seen_java o conf job ++ seen_counters stat.counters job)
                        job_memory.maxima)
                    (sym e),
            count-Kept stat job d',
          )

  pub update_all-maxima :
      (stats : List JobStat) (job : String) (d : Data)
      → All (λ stat. HasOptions stat.conf) stats
      → (d' : Data) × (update_all engine stats job d ≡ some d')
        × (d'.stats.maxima ≡ observe_all (seen_all stats job) d.stats.maxima)
        × Kept d d'
  unfolding update_all
  update_all-maxima [] job d has = (d, refl, refl, (refl, refl, refl))
  update_all-maxima (stat ∷ stats) job d (has, rest) =
      let (d', e, greatest, kept) = update_stats-maxima stat job d has in
      let (last, e', greatest', kept') = update_all-maxima stats job d' rest in
      (
        last,
        ap (λ o. o >>= update_all engine stats job) e ∙ e',
        greatest'
            ∙ ap (observe_all (seen_all stats job)) greatest
            ∙ sym (observe_all-append (seen stat job) (seen_all stats job) d.stats.maxima),
        (kept'.0 ∙ kept.0, kept'.1 ∙ kept.1, kept'.2 ∙ kept.2),
      )
