-- ===== src/Logging/DebugFile.antt =====
-- internal/logging/logging.go: reserving the debug file. A directory is what `os.OpenFile` with
-- O_EXCL makes of it: which names exist, and what else keeps a name from being created.
pub mod Reserve
pub mod Tests
use mhp.Prelude.{
  ℕ, zero, suc, ◌+◌, ◌-◌, ◌/◌, ◌%◌, Bool, true, false, ◌||◌, Option, none, some, List, [], ◌∷◌,
  ◌++◌, Bytes, bytes_eq, codes, ltb, length, if◌then◌else◌,
}
use mhp.Errors.{Error, wrap}

pub record Dir : Type 0 where
  pub names : List Bytes
  pub obstacle : Bytes → Option Error

pub data Opened : Type 0 where
  created : Opened
  exists : Opened
  fails : Error → Opened

abbrev pub has_name : Bytes → List Bytes → Bool
has_name name [] = false
has_name name (n ∷ ns) = bytes_eq name n || has_name name ns

abbrev pub opened : Option Error → Bool → Opened
opened obstacle true = exists
opened (some e) false = fails e
opened none false = created

-- `os.OpenFile(path, O_CREATE|O_WRONLY|O_EXCL, 0o600)`.
unfoldable pub open_excl : Dir → Bytes → Opened
open_excl dir name = opened (dir.obstacle name) (has_name name dir.names)

-- The decimal digits of `%d`; `fuel` bounds their number.
unfoldable pub digits : ℕ → ℕ → Bytes
digits zero n = []
digits (suc fuel) n =
    let rest = digits fuel (n / 10) in
    if ltb n 10 then (b'0' + n) ∷ [] else rest ++ ((b'0' + n % 10) ∷ [])

abbrev pub max_debug_collision_attempts : ℕ
max_debug_collision_attempts = 64

-- `fmt.Sprintf("%s.%d", base, n)`, for an `n` of at most two digits.
abbrev pub suffixed : Bytes → ℕ → Bytes
suffixed base n = base ++ (b'.' ∷ digits 2 n)

-- The name of an attempt: the base, and then the base with a suffix.
abbrev pub attempt_name : Bytes → ℕ → Bytes
attempt_name base zero = base
attempt_name base (suc n) = suffixed base (suc n)

pub data Reserved : Type 0 where
  -- the name, and the directory with the new file
  reserved : Bytes → Dir → Reserved
  -- `open debug file "name": ...`
  open_failed : Bytes → Error → Reserved
  -- `reserve debug filename: ...`
  exhausted : Reserved

-- The loop from an attempt on, with the attempts that are left.
abbrev pub next_attempt : Dir → Bytes → Opened → Reserved → Reserved
next_attempt dir name created rest = reserved name (record dir { names = name ∷ dir.names })
next_attempt dir name exists rest = rest
next_attempt dir name (fails e) rest = open_failed name e

unfoldable pub attempts : Dir → Bytes → ℕ → ℕ → Reserved
unfolding open_excl
attempts dir base attempt zero = exhausted
attempts dir base attempt (suc left) =
    let rest = attempts dir base (attempt + 1) left in
    let name = attempt_name base attempt in next_attempt dir name (open_excl dir name) rest

-- `base` is `fmt.Sprintf("mhp-debug-%s-%d.txt", mode, time.Now().Unix())`.
unfoldable pub open_debug_file : Dir → Bytes → Reserved
unfolding attempts
open_debug_file dir base = attempts dir base 0 max_debug_collision_attempts
