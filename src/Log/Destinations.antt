-- ===== src/Log/Destinations.antt =====
-- Which outputs init_logger gives the SDK's logger.
use grpc_push_sdk.Common.{
  ℕ, ◌≡◌, ◌≢◌, refl, sym, Bool, true, false, List, [], ◌∷◌, ◌++◌, Option, none, some, arith,
  is_some, bytes, Bool-cases, inl, inr, ap, subst, ◌∙◌, ◌⊎◌, ◌==◌, ==_refl, if◌then◌else◌,
  append_assoc,
}
use grpc_push_sdk.Config.{sdk_log_on_console, sdk_log_enable_grpc, log_level}
use grpc_push_sdk.Log.{
  Log, Level, Sink, Spdlog, Status, Created, Loggers, Initialized, log_initialize, init_logger,
  then_file, with_console, with_file, with_sdk, with_grpc, with_dir, start, prepared,
  set_output_dir, new_log, ends_in, drop_last, log_path, file_name, level_of,
}
use grpc_push_sdk.Types.{RetCode, TerminalType}

-- Where the logger of a program with the log directory `dir` writes, `file` being the name of its
-- file: to no file without a directory or with the separator alone, and else to the file in that
-- directory, whose path has one separator between the two even where the directory ends in one.
pub data Destination (segment : ℕ) (file dir : List ℕ) (sink : Option Sink) : Type 0 where
  nowhere : (dir ≡ []) ⊎ (dir ≡ segment ∷ []) → sink ≡ none → Destination segment file dir sink
  within :
      (d : List ℕ) (s : Sink)
      → d ≢ []
      → ((dir ≡ d) × (¬ ((e : List ℕ) × (d ≡ e ++ segment ∷ [])))) ⊎ (dir ≡ d ++ segment ∷ [])
      → sink ≡ some s
      → s.path ≡ d ++ segment ∷ file
      → Destination segment file dir sink

-- What a Log is made of when Initialize ends well.
abbrev IsReady : Bool → Option Sink → Initialized → Type 0
IsReady console file i = (is_some i.1.console_logger ≡ console) × (i.1.file_logger ≡ file)

Created-cases :
    (c : Created) → (c ≡ Created.made) ⊎ (c ≡ Created.null_pointer) ⊎ (c ≡ Created.throws)
Created-cases Created.made = inl refl
Created-cases Created.null_pointer = inr (inl refl)
Created-cases Created.throws = inr (inr refl)

ends_in-append : (segment : ℕ) (e : List ℕ) → ends_in segment (e ++ segment ∷ []) ≡ true
unfolding ends_in
ends_in-append segment [] = ==_refl segment
ends_in-append segment (c ∷ []) = ==_refl segment
ends_in-append segment (c ∷ d ∷ e) = ends_in-append segment (d ∷ e)

drop_last-append :
    (segment c : ℕ) (s : List ℕ)
    → ends_in segment (c ∷ s) ≡ true
    → c ∷ s ≡ drop_last (c ∷ s) ++ segment ∷ []
unfolding ends_in drop_last
drop_last-append segment c [] h = ap (λ x. x ∷ []) (ground (arith, h))
drop_last-append segment c (d ∷ s) h = ap (◌∷◌ c) (drop_last-append segment d s h)

-- The name of the file that a logger is given at the time of the call.
abbrev pub log_file_name : Spdlog → List ℕ → List ℕ
log_file_name sp name = sp.stamp (name ++ bytes "-%Y-%m-%d") ++ bytes ".log"

module _ (sp : Spdlog) (segment : ℕ) where
  abbrev file_of : List ℕ → List ℕ → Level → Option Sink
  file_of [] name level = none
  file_of (c ∷ s) name level =
      some (record { level = level; path = (c ∷ s) ++ segment ∷ log_file_name sp name })

  with_dir-IsReady :
      (console : Bool) (d : List ℕ) (names : List (List ℕ)) (l : Log)
      → l.dir ≡ d
      → is_some l.console_logger ≡ console
      → l.file_logger ≡ none
      → (with_dir sp segment d names l).2 ≡ Status.done
      → IsReady console (file_of d l.logger_name l.level) (with_dir sp segment d names l)
  unfolding with_dir with_file log_path
  with_dir-IsReady console [] names l e c f h = (c, f)
  with_dir-IsReady console (x ∷ s) names l e c f h =
      elim (Created-cases
        (sp.basic_logger_mt names (file_name l.logger_name) (log_path sp segment l))) [
          | inl m ↦
              let named = segment ∷ sp.stamp (l.logger_name ++ bytes "-%Y-%m-%d") in
              rw (m, e)
                (
                  c,
                  ap (λ p. some (record { level = l.level; path = p }))
                      (append_assoc (x ∷ s) named (bytes ".log")),
                )
          | inr (inl m) ↦ absurd (ground (arith, m))
          | inr (inr m) ↦ absurd (ground (arith, m))
        ]

  then_file-IsReady :
      (console : Bool) (i : Initialized)
      → (i.2 ≡ Status.done → is_some i.1.console_logger ≡ console)
      → i.1.file_logger ≡ none
      → (then_file sp segment i).2 ≡ Status.done
      → IsReady console (file_of i.1.dir i.1.logger_name i.1.level) (then_file sp segment i)
  unfolding then_file
  then_file-IsReady console (names, l, Status.done) c f h =
      with_dir-IsReady console l.dir names l refl (c refl) f h
  then_file-IsReady console (names, l, Status.failed) c f h = cc
  then_file-IsReady console (names, l, Status.thrown) c f h = cc

  start_frame :
      (b : Bool) (names : List (List ℕ)) (l : Log)
      → l.console_logger ≡ none
      → let i = start sp segment b names l in
        (i.2 ≡ Status.done → is_some i.1.console_logger ≡ b)
        × (i.1.file_logger ≡ l.file_logger)
        × (file_of i.1.dir i.1.logger_name i.1.level ≡ file_of l.dir l.logger_name l.level)
  unfolding start with_console
  start_frame true names l e = elim (Created-cases (sp.stdout_color_mt names l.logger_name)) [
    | inl m ↦ rw m (λ h. refl, refl, refl)
    | inr (inl m) ↦ rw m (λ h. absurd (ground arith), refl, refl)
    | inr (inr m) ↦ rw m (λ h. absurd (ground arith), refl, refl)
  ]
  start_frame false names l e = (λ h. ap is_some e, refl, refl)

  log_initialize-IsReady :
      (names : List (List ℕ)) (l : Log)
      → l.console_logger ≡ none
      → l.file_logger ≡ none
      → (log_initialize sp segment names l).2 ≡ Status.done
      → IsReady l.on_console
          (file_of l.dir l.logger_name l.level)
          (log_initialize sp segment names l)
  unfolding log_initialize
  log_initialize-IsReady names l c f h =
      let i = start sp segment l.on_console names l in
      let (console, file, same) = start_frame l.on_console names l c in
      subst (λ x. IsReady l.on_console x (then_file sp segment i)) same
        (then_file-IsReady l.on_console i console (file ∙ f) h)

  single-Destination :
      (name : List ℕ) (level : Level) (c : ℕ)
      → Destination segment
          (log_file_name sp name)
          (c ∷ [])
          (file_of (if ends_in segment (c ∷ []) then drop_last (c ∷ []) else c ∷ []) name level)
  unfolding ends_in drop_last
  single-Destination name level c = elim (Bool-cases (c == segment)) [
    | inl same ↦ rw same (nowhere (inr (ap (λ x. x ∷ []) (ground (arith, same)))) refl)
    | inr other ↦ rw other (
        within (c ∷ []) (record { level = level; path = c ∷ segment ∷ log_file_name sp name })
          (λ e. cc)
          (inl (refl, λ (e, h). cc (other, ap (ends_in segment) h, ends_in-append segment e))) refl
          refl)
  ]

  longer-Destination :
      (name : List ℕ) (level : Level) (c d : ℕ) (s : List ℕ)
      → let dir = c ∷ d ∷ s in
        Destination segment
          (log_file_name sp name)
          dir
          (file_of (if ends_in segment dir then drop_last dir else dir) name level)
  unfolding drop_last
  longer-Destination name level c d s =
      let file = log_file_name sp name in
      elim (Bool-cases (ends_in segment (c ∷ d ∷ s))) [
        | inl closed ↦
            let inner = c ∷ drop_last (d ∷ s) in
            rw closed (
              within inner (record { level = level; path = inner ++ segment ∷ file }) (λ e. cc)
                (inr (drop_last-append segment c (d ∷ s) closed)) refl refl)
        | inr open_end ↦ rw open_end (
            within (c ∷ d ∷ s) (record { level = level; path = (c ∷ d ∷ s) ++ segment ∷ file })
              (λ e. cc)
              (inl
                (refl, λ (e, h). cc (open_end, ap (ends_in segment) h, ends_in-append segment e)))
              refl refl)
      ]

  prepared-Destination :
      (name : List ℕ) (console : Bool) (dir : List ℕ)
      → let l = prepared segment name console dir in
        Destination segment (log_file_name sp name) dir (file_of l.dir l.logger_name l.level)
  unfolding prepared set_output_dir new_log
  prepared-Destination name console [] = nowhere (inl refl) refl
  prepared-Destination name console (c ∷ []) =
      single-Destination name (level_of (bytes log_level)) c
  prepared-Destination name console (c ∷ d ∷ s) =
      longer-Destination name (level_of (bytes log_level)) c d s

prepared_frame :
    (segment : ℕ) (name : List ℕ) (console : Bool) (dir : List ℕ)
    → let l = prepared segment name console dir in
      (l.console_logger ≡ none) × (l.file_logger ≡ none) × (l.on_console ≡ console)
unfolding prepared set_output_dir new_log
prepared_frame segment name console [] = (refl, refl, refl)
prepared_frame segment name console (c ∷ s) = (refl, refl, refl)

with_sdk-success :
    (sp : Spdlog) (segment : ℕ) (t : TerminalType) (dir : List ℕ) (g : Loggers) (i : Initialized)
    → (with_sdk sp segment t dir g i).1 ≡ RetCode.success
    → (i.2 ≡ Status.done) × ((with_sdk sp segment t dir g i).0.sdk_logger ≡ some i.1)
unfolding with_sdk with_grpc
with_sdk-success sp segment t dir g (names, l, Status.done) h =
    elim (Bool-cases (sdk_log_enable_grpc t)) [
      | inl both ↦ rw both (refl, refl)
      | inr one ↦ rw one (refl, refl)
    ]
with_sdk-success sp segment t dir g (names, l, Status.failed) h = cc
with_sdk-success sp segment t dir g (names, l, Status.thrown) h = cc

-- Where init_logger succeeds, the SDK's logger writes to the console exactly where the
-- configuration of the platform says so, and to the file that the log directory asks for: none
-- without a directory or with the separator alone, and else the file named after the logger and the
-- time in that directory, with one separator in between.
pub init_logger-success :
    (sp : Spdlog) (segment : ℕ) (t : TerminalType) (dir : List ℕ) (g : Loggers)
    → (init_logger sp segment t dir g).1 ≡ RetCode.success
    → (l : Log) × ((init_logger sp segment t dir g).0.sdk_logger ≡ some l)
      × (is_some l.console_logger ≡ sdk_log_on_console t)
      × Destination segment (log_file_name sp (bytes "push_sdk")) dir l.file_logger
unfolding init_logger
init_logger-success sp segment t dir g h =
    let name = bytes "push_sdk" in
    let l = prepared segment name (sdk_log_on_console t) dir in
    let i = log_initialize sp segment g.registered l in
    let (console, file, on) = prepared_frame segment name (sdk_log_on_console t) dir in
    let (done, logger) = with_sdk-success sp segment t dir g i h in
    let (to, where_to) = log_initialize-IsReady sp segment g.registered l console file done in
    (
      i.1,
      logger,
      to ∙ on,
      subst (Destination segment (log_file_name sp name) dir) (sym where_to)
          (prepared-Destination sp segment name (sdk_log_on_console t) dir),
    )
