-- ===== src/Command/ExitCode.antt =====
-- When the command exits with 0 (cmd/mhp/main.go, with internal/config and internal/logging).
use mathlib.Core.Path.{subst}
use mhp.Prelude.{◌≡◌, ◌↔◌, ◌⊎◌, inl, inr, refl, sym, ap, Option, none, some, List, Bytes, arith}
use mhp.Errors.{Error, Result, ok, err}
use mhp.Config.{Mode, mode_relay, mode_exit, mode_proxy}
use mhp.Config.Load.{Config, ParsedFlags, Loaded, loaded, failed, load}
use mhp.Config.Load.Accepts.{Accepts, Visits, load_iff}
use mhp.Logging.DebugFile.{Dir}
use mhp.Logging.Setup.{Logger, Setup, ready, aborted, new_setup}
use mhp.Command.{
  exit_ok, parse_flags, Env, Outcome, blocks, returns, Ending, ends, swallowed, runner, run_mode,
  World, with_logger, with_config, run_with_context, with_flags, run, code, main,
}

-- A runner that returned, without an error or with the context done.
abbrev pub Stops : Env → Mode → Type 0
Stops env mode =
    (e : Option Error) × (runner env mode ≡ returns e)
    × ((e ≡ none) ⊎ ((c : Error) × (env.ctx_err ≡ some c)))

swallowed-ends :
    (ctx_err : Option Error) (o : Outcome)
    → (swallowed ctx_err o ≡ ends none)
      ↔ ((e : Option Error) × (o ≡ returns e) × ((e ≡ none) ⊎ ((c : Error) × (ctx_err ≡ some c))))
swallowed-ends ctx_err blocks = (λ h. cc, λ (e, h, k). cc)
swallowed-ends ctx_err (returns none) = (λ h. (none, refl, inl refl), λ h. refl)
swallowed-ends none (returns (some e)) =
    (λ h. cc, λ (d, h, k). elim k [ inl z ↦ cc | inr (c, z) ↦ cc ])
swallowed-ends (some c) (returns (some e)) = (λ h. (some e, refl, inr (c, refl)), λ h. refl)

code_ok_iff : (e : Ending) → (code e ≡ some exit_ok) ↔ (e ≡ ends none)
code_ok_iff e = ground arith

-- What a run needs to succeed.
pub record Succeeds (w : World) (argv : List Bytes) : Type 0 where
  pub flags : ParsedFlags
  pub cfg : Config
  pub logger : Logger
  pub after : Dir
  pub parses : parse_flags w.parse argv ≡ ok flags
  pub accepts : Accepts w.read_file flags.mode flags cfg
  pub logs : new_setup w.to_lower w.dir w.base flags.debug ≡ ready logger after
  pub stops : Stops w.env flags.mode

Accepts-mode :
    (read_file : Bytes → Result Bytes) (mode : Mode) (p : ParsedFlags) (c : Config)
    → Accepts read_file mode p c
    → c.mode ≡ mode
Accepts-mode read_file mode_relay p c (_, _, _, _, _, _, _, same) = ap (λ d. d.mode) same
Accepts-mode read_file mode_exit p c (_, _, _, same) = ap (λ d. d.mode) same
Accepts-mode read_file mode_proxy p c (_, _, _, _, same) = ap (λ d. d.mode) same
Accepts-mode read_file (Mode.other s) p c h = absurd h

with_logger-Succeeds :
    (w : World) (argv : List Bytes) (flags : ParsedFlags) (cfg : Config) (s : Setup)
    → parse_flags w.parse argv ≡ ok flags
    → Accepts w.read_file flags.mode flags cfg
    → new_setup w.to_lower w.dir w.base flags.debug ≡ s
    → with_logger w cfg s ≡ ends none
    → Succeeds w argv
unfolding run_mode
with_logger-Succeeds w argv flags cfg (aborted r) p a n h = cc
with_logger-Succeeds w argv flags cfg (ready logger after) p a n h = record {
  flags = flags;
  cfg = cfg;
  logger = logger;
  after = after;
  parses = p;
  accepts = a;
  logs = n;
  stops =
      subst (Stops w.env) (Accepts-mode w.read_file flags.mode flags cfg a)
        ((swallowed-ends w.env.ctx_err (runner w.env cfg.mode)).0 h);
}

with_config-Succeeds :
    (w : World) (argv : List Bytes) (flags : ParsedFlags) (l : Loaded Config)
    → Visits w.order
    → parse_flags w.parse argv ≡ ok flags
    → load w.order w.read_file flags ≡ l
    → with_config w flags l ≡ ends none
    → Succeeds w argv
with_config-Succeeds w argv flags (failed e) v p k h = cc
with_config-Succeeds w argv flags (loaded cfg) v p k h =
    with_logger-Succeeds w argv flags cfg (new_setup w.to_lower w.dir w.base flags.debug) p
      ((load_iff w.order w.read_file flags cfg v).0 k) refl h

with_flags-Succeeds :
    (w : World) (argv : List Bytes) (r : Result ParsedFlags)
    → Visits w.order
    → parse_flags w.parse argv ≡ r
    → with_flags w r ≡ ends none
    → Succeeds w argv
unfolding run_with_context
with_flags-Succeeds w argv (err e) v p h = cc
with_flags-Succeeds w argv (ok flags) v p h =
    with_config-Succeeds w argv flags (load w.order w.read_file flags) v p refl h

Succeeds-run :
    (w : World) (argv : List Bytes) → Visits w.order → Succeeds w argv → run w argv ≡ ends none
unfolding run run_with_context run_mode
Succeeds-run w argv v s =
    rw (s.parses, (load_iff w.order w.read_file s.flags s.cfg v).1 s.accepts, s.logs)
      ((swallowed-ends w.env.ctx_err (runner w.env s.cfg.mode)).1 (
        subst (Stops w.env) (sym (Accepts-mode w.read_file s.flags.mode s.flags s.cfg s.accepts))
          s.stops))

-- The command exits with 0 exactly when the flags parse, the flags and token files satisfy the
-- conditions of the mode, the logger can be set up, and the mode's runner returns, without an error
-- or with the context done.
pub main_ok_iff :
    (w : World) (argv : List Bytes)
    → Visits w.order
    → (main w argv ≡ some exit_ok) ↔ Succeeds w argv
unfolding main run
main_ok_iff w argv v = (
  λ h.
      with_flags-Succeeds w argv (parse_flags w.parse argv) v refl ((code_ok_iff (run w argv)).0 h),
  λ s. (code_ok_iff (run w argv)).1 (Succeeds-run w argv v s),
)
