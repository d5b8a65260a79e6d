-- ===== src/CommandLine.antt =====
-- The command line: `main` of python/nano_ray/start.py, behind argparse.
use Prim.Native.String.{String}
use text.Mathlib.Text.{◌==◌}
use nano_ray.Prelude.{zero, Option, none, some, Bool, false, not, ◌&&◌, if◌then◌else◌}
use nano_ray.Prelude.Int.{ℤ, pos}

-- What argparse makes of the options.
pub record Args : Type 0 where
  pub head : Bool
  pub address : Option String
  pub port : ℤ
  pub num_workers : ℤ
  pub host : String
  pub dashboard_port : ℤ

-- The defaults.
abbrev pub no_options : Args
no_options = record {
  head = false;
  address = none;
  port = pos 6379;
  num_workers = pos 4;
  host = "0.0.0.0";
  dashboard_port = pos 8265;
}

-- The service that `main` starts, or the error it ends with.
pub data Started : Type 0 where
  head_service : (host : String) (port num_workers : ℤ) (dashboard_port : Option ℤ) → Started
  worker_node_service : (head_address : String) (num_workers : ℤ) → Started
  parser_error : (message : String) → Started

-- `args.address` as a condition: `None` and the empty string are false.
abbrev pub given : Option String → Bool
given none = false
given (some address) = not (address == "")

-- `args.dashboard_port if args.dashboard_port != 0 else None`
abbrev pub enabled : ℤ → Option ℤ
enabled (pos zero) = none
enabled port = some port

unfoldable pub main : Args → Started
main args =
    if args.head && given args.address
    then parser_error "Cannot specify both --head and --address."
    else if not args.head && not (given args.address)
    then parser_error "Must specify either --head or --address."
    else if args.head
    then head_service args.host args.port args.num_workers (enabled args.dashboard_port)
    else node_for args.address args.num_workers
  where
    node_for : Option String → ℤ → Started
    node_for none num_workers = parser_error "unreachable"
    node_for (some address) num_workers = worker_node_service address num_workers
