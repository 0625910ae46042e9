-- ===== src/Log/Registry.antt =====
-- init_logger of src/common/log.cpp and the names that spdlog keeps registered.
use grpc_push_sdk.Common.{
  ℕ, ◌≡◌, refl, ◌⊎◌, inl, inr, Bool, true, false, List, [], ◌∷◌, ◌++◌, bytes, Bool-cases, ◌&&◌, ◌∙◌,
  ap, subst,
}
use grpc_push_sdk.Config.{is_linux, sdk_log_on_console, grpc_log_on_console, sdk_log_enable_grpc}
use grpc_push_sdk.Log.{
  Log, Spdlog, Status, Created, made, throws, Loggers, Initialized, log_initialize, init_logger,
  then_file, with_console, with_file, with_sdk, with_grpc, prepared, set_output_dir, new_log,
  file_name, log_path, with_dir, start, is_done,
}
use grpc_push_sdk.Types.{RetCode, TerminalType}

abbrev pub Has : List ℕ → List (List ℕ) → Type 0
Has n [] = ⊥
Has n (m ∷ ns) = (n ≡ m) ⊎ Has n ns

Has-append : (n : List ℕ) (ns ms : List (List ℕ)) → Has n ns → Has n (ns ++ ms)
Has-append n [] ms h = absurd h
Has-append n (m ∷ ns) ms (inl e) = inl e
Has-append n (m ∷ ns) ms (inr h) = inr (Has-append n ns ms h)

Has-last : (n : List ℕ) (ns : List (List ℕ)) → Has n (ns ++ n ∷ [])
Has-last n [] = inl refl
Has-last n (m ∷ ns) = inr (Has-last n ns)

-- spdlog throws when a name is registered already.
pub record IsUnique (sp : Spdlog) : Type 0 where
  pub console_once :
      (names : List (List ℕ)) (n : List ℕ) → Has n names → sp.stdout_color_mt names n ≡ throws
  pub file_once :
      (names : List (List ℕ)) (n path : List ℕ)
      → Has n names
      → sp.basic_logger_mt names n path ≡ throws

with_console-Has :
    (n : List ℕ) (c : Created) (names : List (List ℕ)) (l : Log)
    → Has n names
    → Has n (with_console c names l).0
unfolding with_console
with_console-Has n Created.made names l h = Has-append n names (l.logger_name ∷ []) h
with_console-Has n Created.null_pointer names l h = h
with_console-Has n Created.throws names l h = h

with_file-Has :
    (n : List ℕ) (c : Created) (path : List ℕ) (names : List (List ℕ)) (l : Log)
    → Has n names
    → Has n (with_file c path names l).0
unfolding with_file
with_file-Has n Created.made path names l h = Has-append n names (file_name l.logger_name ∷ []) h
with_file-Has n Created.null_pointer path names l h = h
with_file-Has n Created.throws path names l h = h

abbrev pub sdk_name : List ℕ
sdk_name = bytes "push_sdk"

prepared_lem :
    (segment : ℕ) (name : List ℕ) (console : Bool) (dir : List ℕ)
    → ((prepared segment name console dir).logger_name ≡ name)
      × ((prepared segment name console dir).on_console ≡ console)
unfolding prepared set_output_dir new_log
prepared_lem segment name console [] = (refl, refl)
prepared_lem segment name console (c ∷ s) = (refl, refl)

module _ (sp : Spdlog) (segment : ℕ) where
  with_dir-Has :
      (n d : List ℕ) (names : List (List ℕ)) (l : Log)
      → Has n names
      → Has n (with_dir sp segment d names l).0
  unfolding with_dir
  with_dir-Has n [] names l h = h
  with_dir-Has n (c ∷ s) names l h =
      with_file-Has n (sp.basic_logger_mt names (file_name l.logger_name) (log_path sp segment l))
        (log_path sp segment l) names l h

  then_file-Has : (n : List ℕ) (i : Initialized) → Has n i.0 → Has n (then_file sp segment i).0
  unfolding then_file
  then_file-Has n (names, l, Status.done) h = with_dir-Has n l.dir names l h
  then_file-Has n (names, l, Status.failed) h = h
  then_file-Has n (names, l, Status.thrown) h = h

  start-Has :
      (n : List ℕ) (b : Bool) (names : List (List ℕ)) (l : Log)
      → Has n names
      → Has n (start sp segment b names l).0
  unfolding start
  start-Has n true names l h = with_console-Has n (sp.stdout_color_mt names l.logger_name) names l h
  start-Has n false names l h = h

  log_initialize-Has :
      (n : List ℕ) (names : List (List ℕ)) (l : Log)
      → Has n names
      → Has n (log_initialize sp segment names l).0
  unfolding log_initialize
  log_initialize-Has n names l h =
      then_file-Has n (start sp segment l.on_console names l) (start-Has n l.on_console names l h)

  -- A console logger that is made registers its name; one whose name is registered throws.
  start-made :
      (b : Bool) (names : List (List ℕ)) (l : Log)
      → b ≡ true
      → sp.stdout_color_mt names l.logger_name ≡ made
      → Has l.logger_name (start sp segment b names l).0
  unfolding start with_console
  start-made true names l c m = rw m (Has-last l.logger_name names)
  start-made false names l c m = cc

  log_initialize-made :
      (names : List (List ℕ)) (l : Log)
      → l.on_console ≡ true
      → sp.stdout_color_mt names l.logger_name ≡ made
      → Has l.logger_name (log_initialize sp segment names l).0
  unfolding log_initialize
  log_initialize-made names l c m =
      then_file-Has l.logger_name (start sp segment l.on_console names l)
        (start-made l.on_console names l c m)

  start-taken :
      (b : Bool) (names : List (List ℕ)) (l : Log)
      → b ≡ true
      → sp.stdout_color_mt names l.logger_name ≡ throws
      → start sp segment b names l ≡ (names, l, Status.thrown)
  unfolding start with_console
  start-taken true names l c m = rw m refl
  start-taken false names l c m = cc

  log_initialize-taken :
      (names : List (List ℕ)) (l : Log)
      → l.on_console ≡ true
      → sp.stdout_color_mt names l.logger_name ≡ throws
      → log_initialize sp segment names l ≡ (names, l, Status.thrown)
  unfolding log_initialize then_file
  log_initialize-taken names l c m = rw (start-taken l.on_console names l c m) refl

module _ (sp : Spdlog) (segment : ℕ) (t : TerminalType) where
  with_sdk-Has :
      (n dir : List ℕ) (g : Loggers) (i : Initialized)
      → Has n i.0
      → Has n (with_sdk sp segment t dir g i).0.registered
  unfolding with_sdk with_grpc
  with_sdk-Has n dir g (names, l, end) h =
      elim (Bool-cases (is_done end && sdk_log_enable_grpc t)) [
        | inl both ↦ rw both (
            log_initialize-Has sp segment n names
              (prepared segment (bytes "grpc") (grpc_log_on_console t) dir) h)
        | inr one ↦ rw one h
      ]

  pub init_logger-Has :
      (n dir : List ℕ) (g : Loggers)
      → Has n g.registered
      → Has n (init_logger sp segment t dir g).0.registered
  unfolding init_logger
  init_logger-Has n dir g h =
      let l = prepared segment sdk_name (sdk_log_on_console t) dir in
      with_sdk-Has n dir g (log_initialize sp segment g.registered l)
        (log_initialize-Has sp segment n g.registered l h)

  -- The calls of init_logger, one after the other.
  abbrev pub init_all : List (List ℕ) → Loggers → Loggers
  init_all [] g = g
  init_all (dir ∷ dirs) g = init_all dirs (init_logger sp segment t dir g).0

  init_all-Has :
      (n : List ℕ) (dirs : List (List ℕ)) (g : Loggers)
      → Has n g.registered
      → Has n (init_all dirs g).registered
  init_all-Has n [] g h = h
  init_all-Has n (dir ∷ dirs) g h =
      init_all-Has n dirs (init_logger sp segment t dir g).0 (init_logger-Has n dir g h)

  -- On Linux, where the SDK logs to the console: the first call registers the logger's name.
  pub init_logger-made :
      (dir : List ℕ) (g : Loggers)
      → is_linux t ≡ true
      → sp.stdout_color_mt g.registered sdk_name ≡ made
      → Has sdk_name (init_logger sp segment t dir g).0.registered
  unfolding init_logger
  init_logger-made dir g linux m =
      let l = prepared segment sdk_name (sdk_log_on_console t) dir in
      let (name, console) = prepared_lem segment sdk_name (sdk_log_on_console t) dir in
      with_sdk-Has sdk_name dir g (log_initialize sp segment g.registered l) (
        subst (λ x. Has x (log_initialize sp segment g.registered l).0) name
          (log_initialize-made sp segment g.registered l (console ∙ linux)
            (ap (sp.stdout_color_mt g.registered) name ∙ m)))

  pub init_logger-taken :
      (dir : List ℕ) (g : Loggers)
      → is_linux t ≡ true
      → IsUnique sp
      → Has sdk_name g.registered
      → (init_logger sp segment t dir g).1 ≡ RetCode.init_log_failed
  unfolding init_logger with_sdk
  init_logger-taken dir g linux unique h =
      let l = prepared segment sdk_name (sdk_log_on_console t) dir in
      let (name, console) = prepared_lem segment sdk_name (sdk_log_on_console t) dir in
      rw
        (log_initialize-taken sp segment g.registered l (console ∙ linux)
          (ap (sp.stdout_color_mt g.registered) name ∙ unique.console_once g.registered sdk_name h))
        refl

  -- On Linux, once a call of init_logger has made the console's logger, every later call fails, with
  -- any directory and after any number of other calls: spdlog keeps the name registered.
  pub init_logger-again :
      (first dir : List ℕ) (dirs : List (List ℕ)) (g : Loggers)
      → is_linux t ≡ true
      → IsUnique sp
      → sp.stdout_color_mt g.registered sdk_name ≡ made
      → (init_logger sp segment t dir (init_all dirs (init_logger sp segment t first g).0)).1
        ≡ RetCode.init_log_failed
  init_logger-again first dir dirs g linux unique m =
      init_logger-taken dir (init_all dirs (init_logger sp segment t first g).0) linux unique (
        init_all-Has sdk_name dirs (init_logger sp segment t first g).0
          (init_logger-made first g linux m))
