-- ===== src/AppLog.antt =====
-- go/internal/applog/buffer.go: the ring buffer of log lines that the user interface shows. Its lock
-- makes each call one step.
pub mod Ring
mod Examples
use quarantine_lab.Prelude.{
  ℕ, suc, zero, ◌-◌, Bool, true, false, ◌||◌, List, [], ◌∷◌, ◌++◌, ltb, leb, if◌then◌else◌, length,
  drop,
}
use quarantine_lab.Prelude.Int.{ℤ, pos, negsuc}
use quarantine_lab.Prelude.Text.{Text, codes, text_eq, to_lower, trim_space}

abbrev pub level_debug : Text
level_debug = codes "debug"

abbrev pub level_info : Text
level_info = codes "info"

abbrev pub level_warn : Text
level_warn = codes "warn"

abbrev pub level_error : Text
level_error = codes "error"

pub record Entry : Type 0 where
  pub time : Text
  pub level : Text
  pub message : Text

-- `max` is not negative, since New sees to it.
pub record Buffer : Type 0 where
  pub lines : List Entry
  pub max : ℕ

abbrev pub default_max : ℕ
default_max = 500

-- New
unfoldable pub new : ℤ → Buffer
new (negsuc n) = record { lines = []; max = default_max }
new (pos zero) = record { lines = []; max = default_max }
new (pos (suc n)) = record { lines = []; max = suc n }

-- The case of a switch
abbrev pub one_of : Text → List Text → Bool
one_of t [] = false
one_of t (u ∷ us) = text_eq t u || one_of t us

-- NormalizeLevel
unfoldable pub normalize_level : Text → Text
unfolding to_lower trim_space
normalize_level raw =
    let l = to_lower (trim_space raw) in
    if one_of l (level_debug ∷ codes "cmd" ∷ codes "trace" ∷ codes "verbose" ∷ [])
    then level_debug
    else if one_of l (level_info ∷ codes "information" ∷ codes "notice" ∷ codes "action" ∷ [])
    then level_info
    else if one_of l (level_warn ∷ codes "warning" ∷ [])
    then level_warn
    else if one_of l (level_error ∷ codes "err" ∷ codes "fatal" ∷ codes "critical" ∷ [])
    then level_error
    else level_info

-- The switch of Rank
unfoldable pub rank_of : Text → ℕ
rank_of n =
    if text_eq n level_debug
    then 10
    else if text_eq n level_info
    then 20
    else if text_eq n level_warn
    then 30
    else if text_eq n level_error
    then 40
    else 20

-- Rank
unfoldable pub rank : Text → ℕ
unfolding normalize_level rank_of
rank level = rank_of (normalize_level level)

-- The entry that Add makes; `now` is the time of the call.
unfoldable pub entry : Text → Text → Text → Entry
unfolding normalize_level
entry now level message = record { time = now; level = normalize_level level; message = message }

-- b.lines = b.lines[len(b.lines)-b.max:], if there are more than b.max
unfoldable pub trim : ℕ → List Entry → List Entry
trim max es = if ltb max (length es) then drop (length es - max) es else es

-- Add
unfoldable pub add : Buffer → Text → Text → Text → Buffer
unfolding trim entry
add b now level message = record b { lines = trim b.max (b.lines ++ entry now level message ∷ []) }

unfoldable pub at_least : ℕ → List Entry → List Entry
unfolding rank
at_least min [] = []
at_least min (e ∷ es) =
    let rest = at_least min es in if leb min (rank e.level) then e ∷ rest else rest

-- LinesAtLeast
unfoldable pub lines_at_least : Buffer → Text → List Entry
unfolding at_least rank
lines_at_least b min_level = at_least (rank min_level) b.lines

-- Clear
unfoldable pub clear : Buffer → Buffer
clear b = record b { lines = [] }
