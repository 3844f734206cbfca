-- ===== src/Runner/Output.antt =====
-- cmd/runner/exec.go: the markers round a command's output, and what is read back from the terminal.
pub mod Line
pub mod Wait
use sandkasten.Base.{
  ◌≡◌, refl, ℕ, zero, suc, ◌+◌, ◌-◌, ◌*◌, ◌^◌, not, Bool, true, false, ◌&&◌, ◌||◌, Option, none,
  some, List, [], ◌∷◌, ◌++◌, length, take, drop, ltb, leb, ◌==◌, if◌then◌else◌,
}
use sandkasten.Base.Int.{ℤ, pos, negsuc, ltb_ℤ, duration, millisecond, second}
use sandkasten.Base.Text.{Bytes, codes, has_prefix, contains, index?, before, after, trim_right}
use sandkasten.Base.Decimal.{is_digit, digits_value, fitting}
use sandkasten.Base.Path.{split}
use sandkasten.Base.Base64.{encode}
use sandkasten.Runner.Limits.{max_output_bytes}

abbrev pub line_feed : ℕ
line_feed = 10

abbrev pub carriage_return : ℕ
carriage_return = 13

abbrev pub colon : ℕ
colon = b':'

-- protocol.SentinelBegin and protocol.SentinelEnd
abbrev pub sentinel_begin : Bytes
sentinel_begin = codes "__SANDKASTEN_BEGIN__"

abbrev pub sentinel_end : Bytes
sentinel_end = codes "__SANDKASTEN_END__"

-- getTimeout
pub get_timeout : ℤ → ℤ
get_timeout timeout_ms =
    let timeout = duration timeout_ms millisecond in
    if ltb_ℤ (pos 0) timeout then timeout else pos (30 * second)

-- buildSentinels
pub begin_marker : Bytes → Bytes
begin_marker id = sentinel_begin ++ colon ∷ id

unfoldable pub end_marker : Bytes → Bytes
end_marker id = sentinel_end ++ colon ∷ id

-- buildWrappedCommand
pub build_wrapped_command : Bytes → Bytes → Bytes → Bytes
build_wrapped_command begin_m end_m cmd =
    codes "printf '%s\\n' '"
    ++ (begin_m
        ++ (codes "'\n__b64='"
            ++ (encode cmd
                ++ (codes "'; echo \"$__b64\" | base64 -d | bash\nprintf '\\n"
                    ++ (end_m ++ codes ":%d:%s\\n' \"$?\" \"$PWD\"\n")))))

-- endSentinelLine
unfoldable pub end_sentinel_line : Bytes → Bytes
end_sentinel_line end_m = line_feed ∷ end_m

-- strings.SplitN(s, sep, suc n): the last part keeps the separators that are left.
unfoldable pub split_n : ℕ → ℕ → Bytes → List Bytes
split_n zero sep s = s ∷ []
split_n (suc n) sep s = elim (after sep s) [
  | none ↦ s ∷ []
  | some rest ↦ before sep s ∷ split_n n sep rest
]

-- fmt.Sscanf(s, "%d", &n): blanks, a sign and the digits that follow it; nothing without a digit, and
-- nothing if the number does not fit an int. Blanks that are not ASCII are not skipped.
abbrev scan_digits : Bool → Bytes → Option ℤ
scan_digits minus [] = none
scan_digits minus (c ∷ s) = if is_digit c then fitting minus (digits_value 0 (c ∷ s)) else none

abbrev is_blank : ℕ → Bool
is_blank c = c == b' ' || (leb 9 c && leb c 13 && not (c == line_feed))

unfoldable pub scan_int : Bytes → Option ℤ
scan_int [] = none
scan_int (c ∷ s) =
    let later = scan_int s in
    if is_blank c
    then later
    else (if c == b'-'
        then scan_digits true s
        else (if c == b'+' then scan_digits false s else scan_digits false (c ∷ s)))

-- What the end marker's line says. `exit_code` and `cwd` keep their first values where it says nothing.
pub record Ending : Type 0 where
  pub exit_code : ℤ
  pub cwd : Bytes

abbrev or_pos_zero : Option ℤ → ℤ
or_pos_zero none = pos 0
or_pos_zero (some n) = n

abbrev unknown_ending : Ending
unknown_ending = record { exit_code = pos 0; cwd = codes "/workspace" }

unfoldable pub from_parts : List Bytes → Ending
from_parts (_ ∷ _ ∷ code ∷ []) = record unknown_ending { exit_code = or_pos_zero (scan_int code) }
from_parts (_ ∷ _ ∷ code ∷ cwd ∷ _) = record { exit_code = or_pos_zero (scan_int code); cwd = cwd }
from_parts _ = unknown_ending

unfoldable pub end_fields : Bytes → List Bytes
end_fields s = split_n 4 colon (trim_right carriage_return (before line_feed s))

-- parseEndSentinel
unfoldable pub parse_end_sentinel : Bytes → Bytes → Ending
parse_end_sentinel full end_m = elim (index? (end_sentinel_line end_m) full) [
  | none ↦ unknown_ending
  | some i ↦ from_parts (end_fields (drop (i + 1) full))
]

-- strings.ReplaceAll(s, "\r\n", "\n")
pub join_ends : Bytes → Bytes
join_ends [] = []
join_ends (c ∷ s) =
    let rest = join_ends s in
    if c == carriage_return && has_prefix (line_feed ∷ []) s then rest else c ∷ rest

-- strings.ReplaceAll(s, b, "") of one byte
pub drop_byte : ℕ → Bytes → Bytes
drop_byte b [] = []
drop_byte b (c ∷ s) = if c == b then drop_byte b s else c ∷ drop_byte b s

-- normalizeLineEndings
pub normalize_line_endings : Bytes → Bytes
normalize_line_endings s = drop_byte carriage_return (join_ends s)

-- removeSentinelLines
unfoldable pub is_sentinel_line : Bytes → Bool
is_sentinel_line line = contains sentinel_begin line || contains sentinel_end line

unfoldable pub keep_lines : List Bytes → List Bytes
keep_lines [] = []
keep_lines (line ∷ lines) =
    if is_sentinel_line line then keep_lines lines else line ∷ keep_lines lines

pub join_lines : List Bytes → Bytes
join_lines [] = []
join_lines (line ∷ []) = line
join_lines (line ∷ next ∷ lines) = line ++ line_feed ∷ join_lines (next ∷ lines)

pub remove_sentinel_lines : Bytes → Bytes
remove_sentinel_lines s = trim_right line_feed (join_lines (keep_lines (split line_feed s)))

-- What follows the rest of a line, the line itself if nothing does.
unfoldable pub after_line : Bytes → Bytes
after_line s = elim (after line_feed s) [ none ↦ s | some rest ↦ rest ]

unfoldable pub skip_begin : Bytes → Bytes → Bytes
skip_begin begin_m full = elim (index? (line_feed ∷ begin_m) full) [
  | none ↦ if has_prefix begin_m full then after_line (drop (length begin_m) full) else full
  | some i ↦ after_line (drop (i + suc (length begin_m)) full)
]

unfoldable pub cut_end : Bytes → Bytes → Bytes
cut_end end_m s = elim (index? (end_sentinel_line end_m) s) [ none ↦ s | some i ↦ take i s ]

-- extractRawOutput and extractOutput
unfoldable pub extract_raw_output : Bytes → Bytes → Bytes → Bytes
extract_raw_output full begin_m end_m = cut_end end_m (skip_begin begin_m full)

pub extract_output : Bytes → Bytes → Bytes → Bytes
extract_output full begin_m end_m = trim_right line_feed (extract_raw_output full begin_m end_m)

-- truncateOutput: what is kept, and whether something was cut.
unfoldable pub truncate_output : Bytes → Bytes × Bool
truncate_output output =
    if ltb max_output_bytes (length output)
    then (take max_output_bytes output, true)
    else (output, false)

-- The fields of protocol.Response that depend on what the terminal showed.
pub record Output : Type 0 where
  pub exit_code : ℤ
  pub cwd : Bytes
  pub output : Bytes
  pub truncated : Bool

-- The guard of waitForCompletion against runaway output.
unfoldable pub guard_output : Bytes → Bytes
guard_output accumulated =
    if ltb (max_output_bytes * 2) (length accumulated)
    then take max_output_bytes accumulated ++ drop (length accumulated - 4096) accumulated
    else accumulated

-- stripANSI replaces what a regular expression of the package regexp matches.
module _ (strip_ansi : Bytes → Bytes) where
  abbrev cleaned : Bool → Bytes → Bytes → Bytes → Bytes
  cleaned raw full begin_m end_m =
      if raw
      then extract_raw_output full begin_m end_m
      else strip_ansi
          (normalize_line_endings (remove_sentinel_lines (extract_output full begin_m end_m)))

  -- buildExecResponse
  unfoldable pub build_exec_response : Bytes → Bytes → Bytes → Bool → Output
  build_exec_response full begin_m end_m raw =
      let ending = parse_end_sentinel full end_m in
      let (output, truncated) = truncate_output (cleaned raw full begin_m end_m) in
      record {
        exit_code = ending.exit_code;
        cwd = ending.cwd;
        output = output;
        truncated = truncated;
      }

  -- waitForCompletion, given what the buffer holds at each tick before the deadline; `none` is the
  -- timeout response.
  unfoldable pub wait_for_completion : Bytes → List Bytes → Bytes → Bytes → Bool → Option Output
  wait_for_completion accumulated [] begin_m end_m raw = none
  wait_for_completion accumulated (chunk ∷ chunks) begin_m end_m raw =
      let full = accumulated ++ chunk in
      elim (index? (end_sentinel_line end_m) full) [
        | none ↦ wait_for_completion (guard_output full) chunks begin_m end_m raw
        | some _ ↦ some (build_exec_response full begin_m end_m raw)
      ]

-- The exit code and the directory that the runner reads back.
read_back :
    parse_end_sentinel
      (codes "ls\n__SANDKASTEN_END__:ab:-1:/workspace/src\r\n$")
      (end_marker (codes "ab"))
    ≡ record { exit_code = negsuc 0; cwd = codes "/workspace/src" }
unfolding parse_end_sentinel end_marker end_sentinel_line index? has_prefix end_fields split_n
    before after trim_right from_parts scan_int digits_value
read_back = refl
