-- ===== src/Env.antt =====
-- pkg/env/environment.go. `load` is `godotenv.Load`: the environment (as `os.Getenv` reads it) that
-- the loading of a file leads to, if there is such a file.
pub mod Spellings
use Prim.Native.String.{◌++◌}
use chatflow.Prelude.{String, Option, none, some, List, [], ◌∷◌}
use chatflow.Prelude.Int.{ℤ, pos}
use chatflow.Prelude.Atoi.{atoi}
use chatflow.Prelude.Trim.{trim_space, trim_prefix, trim_suffix}

pub record RabbitEnv : Type 0 where
  pub rabbit_host : String
  pub rabbit_port : String
  pub rabbit_user : String
  pub rabbit_password : String
  pub room_count : ℤ
  pub publish_workers : ℤ

pub record ServerEnv : Type 0 where
  pub name : String
  pub port : String
  pub server_host : String
  pub rabbit_env : RabbitEnv

abbrev pub Environment : Type 0
Environment = String → String

unfoldable pub atoi_with_default : String → ℤ → ℤ
unfolding atoi
atoi_with_default s default_value = elim (atoi s) [ none ↦ default_value | some val ↦ val ]

-- The loop over the names: for each, first the parent directory, then the working directory.
unfoldable pub load_first : (String → Option Environment) → List String → Option Environment
load_first load [] = none
load_first load (name ∷ names) =
    let rest = load_first load names in
    elim (load ("../" ++ name)) [
      | some env ↦ some env
      | none ↦ elim (load name) [ some env ↦ some env | none ↦ rest ]
    ]

unfoldable pub load_env_from_file : (String → Option Environment) → Option Environment
unfolding load_first
load_env_from_file load = load_first load (".env.local" ∷ ".env" ∷ [])

abbrev pub rabbit_env_of : Environment → RabbitEnv
rabbit_env_of env = record {
  rabbit_host = env "RABBIT_HOST";
  rabbit_port = env "RABBIT_PORT";
  rabbit_user = env "RABBIT_USER";
  rabbit_password = env "RABBIT_PASSWORD";
  room_count = atoi_with_default (env "ROOM_COUNT") (pos 20);
  publish_workers = atoi_with_default (env "PUBLISH_WORKERS") (pos 30);
}

unfoldable pub load_rabbit_env : (String → Option Environment) → Option RabbitEnv
unfolding load_env_from_file
load_rabbit_env load = elim (load_env_from_file load) [
  | none ↦ none
  | some env ↦ some (rabbit_env_of env)
]

unfoldable pub clean_host : String → String
unfolding trim_space trim_prefix trim_suffix
clean_host host = trim_suffix (trim_prefix (trim_prefix (trim_space host) "http://") "https://") "/"

unfoldable pub clean_port : String → String
unfolding trim_space trim_prefix
clean_port port = trim_prefix (trim_space port) ":"

-- `os.Getenv` reads what `LoadRabbitEnv` has loaded.
unfoldable pub load_server_env : (String → Option Environment) → Option ServerEnv
unfolding load_env_from_file clean_host clean_port
load_server_env load = elim (load_env_from_file load) [
  | none ↦ none
  | some env ↦ some (record {
    name = env "NAME";
    port = clean_port (env "PORT");
    server_host = clean_host (env "SERVER_HOST");
    rabbit_env = rabbit_env_of env;
  })
]
