-- ===== src/Machine.antt =====
-- The operating system, as far as the transcoder and the copying of files use it: packages `os`
-- and `os/exec`, the context of a job with its timers, and `float64`. As with `External`, each call
-- is a function of the state of everything outside.
use api_calixio.Prelude.{ℕ, Bool, Option, List}
use api_calixio.Text.{Text}
use api_calixio.Integer.{ℤ}
use api_calixio.Exec.{Reply}

-- A command that has run: its error if there was one, whether that is an `exec.ExitError` of a
-- process killed by SIGKILL, what it wrote to its standard error in single writes, and all that it
-- wrote.
pub record CommandRun : Type 0 where
  pub error : Option ℕ
  pub killed : Bool
  pub stderr : List (List ℕ)
  pub combined : List ℕ

pub record Machine (X : Type 0) : Type 1 where
  -- `ctx.Err() != nil`, and a timer of so many nanoseconds: did it fire before the context was done?
  pub done : X → Bool
  pub sleep : ℕ → X → Bool × X
  -- of an error that has no name in the program: is it the context's error, is it `ENOSPC`, and its
  -- message
  pub is_context_error : ℕ → Bool
  pub is_enospc : ℕ → Bool
  pub message : ℕ → Text
  pub temp_dir : X → Text
  pub look_path : Text → X → Reply Text × X
  pub mkdir_all : Text → X → Reply (Unit {0}) × X
  pub mkdir_temp : Text → Text → X → Reply Text × X
  pub remove_all : Text → X → Reply (Unit {0}) × X
  pub create_file : Text → X → Reply (Unit {0}) × X
  pub copy_to_file : Text → Text → X → Reply (Unit {0}) × X
  pub read_file : Text → X → Reply Text × X
  -- the names in a directory, each with `IsDir`
  pub read_dir : Text → X → Reply (List (Text × Bool)) × X
  pub run : Text → List Text → X → CommandRun × X
  -- a string of bytes as code points, and `strconv.ParseFloat` with what is asked of its result
  pub decode_utf8 : List ℕ → Text
  pub Float : Type 0
  pub parse_float : Text → Reply Float
  pub float_at_most_zero : Float → Bool
  pub round : Float → ℤ
