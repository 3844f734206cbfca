-- ===== src/Runner/Output/Wait.antt =====
-- cmd/runner/exec.go: when waitForCompletion answers, and what it then knows.
use sandkasten.Base.{
  ◌≡◌, ◌≤◌, refl, sym, ◌∙◌, ap, ℕ, ◌*◌, Bool, false, none, some, List, [], ◌∷◌, ◌++◌, length,
  length-append, ◌==◌, ltb_none, Option-cases, inl, inr, append_assoc, append-nil, arith,
}
use sandkasten.Base.Int.{pos}
use sandkasten.Base.Text.{Bytes, codes, has_byte, index?, before, has_byte-append, trim_right-none}
use sandkasten.Runner.Limits.{max_output_bytes}
use sandkasten.Runner.Buffer.{join_all}
use sandkasten.Runner.Output.{
  line_feed, carriage_return, colon, sentinel_end, end_marker, end_sentinel_line, split_n, Ending,
  from_parts, end_fields, parse_end_sentinel, Output, guard_output, build_exec_response,
  wait_for_completion,
}
use sandkasten.Runner.Output.Line.{IsField, split_n-append, split_n-last, drop-line, colon_before}

unguarded : (s : Bytes) → length s ≤ max_output_bytes * 2 → guard_output s ≡ s
unfolding guard_output
unguarded s h = rw (ltb_none (max_output_bytes * 2) (length s) h) refl

before-none : (sep : ℕ) (s : Bytes) → has_byte sep s ≡ false → before sep s ≡ s
unfolding before has_byte
before-none sep [] h = refl
before-none sep (c ∷ s) h = ground (arith, before-none sep s)

marker_without :
    (b : ℕ) (id : Bytes)
    → has_byte b sentinel_end ≡ false
    → (colon == b) ≡ false
    → has_byte b id ≡ false
    → has_byte b (end_marker id) ≡ false
unfolding end_marker
marker_without b id s c h = has_byte-append b sentinel_end (colon ∷ id) s (colon_before b id c h)

marker_split : (id : Bytes) → IsField id → split_n 4 colon (end_marker id) ≡ sentinel_end ∷ id ∷ []
unfolding end_marker
marker_split id i =
    split_n-append 3 colon sentinel_end id (unfold has_byte in refl)
    ∙ ap (◌∷◌ sentinel_end) (split_n-last 3 colon id i.no_colon)

-- A line that holds the marker alone says nothing of the exit code and the directory.
marker_read :
    (id : Bytes)
    → IsField id
    → from_parts (end_fields (end_marker id))
      ≡ record { exit_code = pos 0; cwd = codes "/workspace" }
unfolding end_fields from_parts
marker_read id i =
    rw
      (before-none line_feed (end_marker id)
        (marker_without line_feed id (unfold has_byte in refl) refl i.no_line_feed))
      (rw
        (trim_right-none carriage_return (end_marker id)
          (marker_without carriage_return id (unfold has_byte in refl) refl i.no_carriage_return))
        (rw (marker_split id i) refl))

parse_cut :
    (shown id : Bytes)
    → IsField id
    → index? (end_sentinel_line (end_marker id)) (shown ++ line_feed ∷ end_marker id)
      ≡ some (length shown)
    → parse_end_sentinel (shown ++ line_feed ∷ end_marker id) (end_marker id)
      ≡ record { exit_code = pos 0; cwd = codes "/workspace" }
unfolding parse_end_sentinel
parse_cut shown id i first =
    rw (parse_end_sentinel, first)
      (rw (drop-line shown (end_marker id) line_feed) (marker_read id i))

module _ (strip_ansi : Bytes → Bytes) (begin_m end_m : Bytes) (raw : Bool) where
  -- Once the end marker's line has come in, in however many pieces, before the deadline, there is an
  -- answer, provided that no more came in than the guard against runaway output lets pass.
  pub wait_for_completion-answers :
      (shown : Bytes) (chunks : List Bytes) (i : ℕ)
      → index? (end_sentinel_line end_m) shown ≡ none
      → index? (end_sentinel_line end_m) (shown ++ join_all chunks) ≡ some i
      → length (shown ++ join_all chunks) ≤ max_output_bytes * 2
      → (out : Output) × (wait_for_completion strip_ansi shown chunks begin_m end_m raw ≡ some out)
  unfolding wait_for_completion join_all
  wait_for_completion-answers shown [] i n e l =
      let s : index? (end_sentinel_line end_m) shown ≡ some i =
        ap (index? (end_sentinel_line end_m)) (sym (append-nil shown)) ∙ e in
      cc
  wait_for_completion-answers shown (chunk ∷ chunks) i n e l =
      let a : shown ++ (chunk ++ join_all chunks) ≡ (shown ++ chunk) ++ join_all chunks =
        sym (append_assoc shown chunk (join_all chunks)) in
      elim (Option-cases (index? (end_sentinel_line end_m) (shown ++ chunk))) [
        | inr (j, f) ↦ (
          build_exec_response strip_ansi (shown ++ chunk) begin_m end_m raw,
          rw (wait_for_completion, f) refl,
        )
        | inl f ↦
            let m : length (shown ++ chunk) ≤ max_output_bytes * 2 =
              let k = length-append (shown ++ chunk) (join_all chunks) in
              omega (arith, k, rw a at l) in
            rw (wait_for_completion, f)
              (rw (unguarded (shown ++ chunk) m)
                (wait_for_completion-answers (shown ++ chunk) chunks i f (rw a at e) (rw a at l)))
      ]

-- When a piece of the terminal's output ends right behind the end marker, before the exit code and the
-- directory have come in, waitForCompletion answers at once, with exit code 0 and the directory
-- /workspace, whatever the pieces behind it say.
pub wait_for_completion-cut_off :
    (strip_ansi : Bytes → Bytes) (shown id begin_m : Bytes) (raw : Bool) (later : List Bytes)
    → IsField id
    → index? (end_sentinel_line (end_marker id)) (shown ++ line_feed ∷ end_marker id)
      ≡ some (length shown)
    → (out : Output) × (wait_for_completion strip_ansi []
          ((shown ++ line_feed ∷ end_marker id) ∷ later)
          begin_m
          (end_marker id)
          raw
        ≡ some out)
      × (out.exit_code ≡ pos 0)
      × (out.cwd ≡ codes "/workspace")
unfolding wait_for_completion build_exec_response
wait_for_completion-cut_off strip_ansi shown id begin_m raw later i first =
    let e = parse_cut shown id i first in
    (
      build_exec_response strip_ansi (shown ++ line_feed ∷ end_marker id) begin_m (end_marker id)
          raw,
      rw (wait_for_completion, first) refl,
      ap (λ (x : Ending). x.exit_code) e,
      ap (λ (x : Ending). x.cwd) e,
    )
