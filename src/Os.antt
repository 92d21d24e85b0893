-- ===== src/Os.antt =====
-- What the program asks of the operating system: files by path, temporary files, commands. Which
-- calls fail, and what a command prints, is the choice of an `Env`, call by call.
use flint2_xray_web_console.Base.{
  ℕ, ◌+◌, Bool, false, Option, none, some, List, [], ◌∷◌, ◌++◌, Text, codes, text_eq, ok, err, fail,
  if◌then◌else◌, ◌==◌,
}
use Prim.Native.String.{String}
use flint2_xray_web_console.Base.Errors.{Result}
use flint2_xray_web_console.Exec.{Exec}
use flint2_xray_web_console.Json.{Json}

-- A path that the configuration names, or one that `os.CreateTemp` made: such a name is new, so
-- it is no configured one.
pub data FilePath : Type 0 where
  named : Text → FilePath
  temp : ℕ → FilePath

abbrev pub path_eq : FilePath → FilePath → Bool
path_eq (named s) (named t) = text_eq s t
path_eq (named s) (temp n) = false
path_eq (temp m) (named t) = false
path_eq (temp m) (temp n) = m == n

-- The bytes of a file: those of a JSON document, or others.
pub data Content : Type 0 where
  json : Json → Content
  raw : Text → Content

-- How `exec.Cmd.Run` ends: exit code 0, another exit code (`*exec.ExitError`), or any other error.
pub data Exit : Type 0 where
  exit_ok exit_error not_run : Exit

pub record Output : Type 0 where
  pub stdout : Text
  pub stderr : Text
  pub exit : Exit

-- The choices of the environment, by the number of calls made before.
pub record Env : Type 0 where
  -- does this call fail?
  pub fails : ℕ → Bool
  -- what a file holds after a write that failed
  pub torn : ℕ → Option Content
  -- what a command does
  pub runs : ℕ → List Text → Output
  -- `time.Now`, in milliseconds
  pub clock : ℕ → ℕ
  -- `time.Now().UTC()`, as `encoding/json` prints it
  pub now : ℕ → Text
  -- the texts that `time.Time` reads
  pub is_time : Text → Bool
  -- `uuid.NewRandom`
  pub uuid : ℕ → Option Text

pub record World : Type 0 where
  pub files : FilePath → Option Content
  pub temps : ℕ
  pub calls : ℕ
  -- the command lines run so far, the last one first
  pub executed : List (List Text)

abbrev pub put : FilePath → Option Content → (FilePath → Option Content) → FilePath → Option Content
put p c files q = if path_eq p q then c else files q

abbrev pub tick : World → World
tick w = record w { calls = w.calls + 1 }

-- `os.ReadFile`, with `fs.ErrNotExist` told from other errors
pub data ReadResult : Type 0 where
  contents : Content → ReadResult
  missing : ReadResult
  unreadable : ReadResult

module _ (env : Env) where
  unfoldable pub read_file : FilePath → Exec World ReadResult
  read_file p w = (
    ok (
        if env.fails w.calls
        then unreadable
        else elim (w.files p) [ none ↦ missing | some c ↦ contents c ]),
    tick w,
  )

  -- Does the next call fail?
  abbrev pub failing : World → Bool
  failing w = env.fails w.calls

  abbrev pub outcome : String → World → Result (Unit {0})
  outcome msg w = if failing w then err (fail msg) else ok tt

  -- `os.WriteFile`, or `Write` on a temporary file
  unfoldable pub write_file : FilePath → Content → Exec World (Unit {0})
  write_file p c w = (
    outcome "write" w,
    record (tick w) { files = put p (if failing w then env.torn w.calls else some c) w.files },
  )

  -- `os.CreateTemp`
  unfoldable pub create_temp : Exec World FilePath
  create_temp w = (
    if failing w then err (fail "create tmp") else ok (temp w.temps),
    record (tick w) {
      files = if failing w then w.files else put (temp w.temps) (some (raw [])) w.files;
      temps = w.temps + 1;
    },
  )

  -- `Sync`, `Close`, `os.Chmod`, `os.MkdirAll`: they may fail, and change no contents.
  unfoldable pub touch : Exec World (Unit {0})
  touch w = (outcome "i/o" w, tick w)

  -- `os.Rename`, atomic; the source is a file that the caller has just made.
  unfoldable pub rename : FilePath → FilePath → Exec World (Unit {0})
  rename from to w = (
    outcome "rename" w,
    record (tick w) {
      files = if failing w then w.files else put from none (put to (w.files from) w.files);
    },
  )

  -- `os.Remove`
  unfoldable pub remove : FilePath → Exec World (Unit {0})
  remove p w = (
    outcome "remove" w,
    record (tick w) { files = if failing w then w.files else put p none w.files },
  )

  -- `runner.Exec.Run`
  unfoldable pub run : List Text → Exec World Output
  run args w = (ok (env.runs w.calls args), record (tick w) { executed = args ∷ w.executed })

-- `path + ".bak"`
abbrev pub bak : Text → Text
bak p = p ++ codes ".bak"
