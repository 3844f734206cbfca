-- ===== src/Tests/Runner.antt =====
-- Runs of the runner's model on concrete inputs.
use sandkasten.Base.{
  ◌^◌, suc, true, ◌↔◌, ◌≤◌, ◌≡◌, refl, arith, length, false, none, some, List, [], ◌∷◌, ◌++◌,
}
use sandkasten.Base.Int.{pos, ltb_ℤ}
use sandkasten.Base.Text.{Bytes, codes, str_eq, has_byte, has_prefix, index?}
use sandkasten.Base.Decimal.{decimal, digits}
use sandkasten.Base.Base64.{encode, decode, decode_quanta, digit, digit_value, without_line_ends}
use sandkasten.Base.Path.{
  split, clean, join, is_abs, slashed, step_back, keep_element, keep_elements,
}
use sandkasten.World.{Request, Response, write, read_reply}
use sandkasten.Runner.{sanitize_path}
use sandkasten.Runner.Buffer.{join_all}
use sandkasten.Runner.Files.{
  FileSystem, contents, blank_response, written, decode_content, read_limit, file_target,
  handle_write, handle_read,
}
use sandkasten.Runner.Limits.{line_limit}
use sandkasten.Runner.Files.Size.{handle_read-line_limit}
use Prim.Native.Nat.{min}
use sandkasten.Runner.Files.RoundTrip.{Keeps, base64_read_back}
use sandkasten.Runner.Output.{
  line_feed, end_marker, end_sentinel_line, Output, parse_end_sentinel, wait_for_completion,
}
use sandkasten.Runner.Output.Line.{IsField, printed_line, parse_end_sentinel-printed_line}
use sandkasten.Runner.Output.Wait.{wait_for_completion-answers}

-- A disk that holds one file, whatever its path.
abbrev disk : FileSystem Bytes
disk = record {
  ensure_parent_dir = λ path d. (none, d);
  write_path = λ path content d. (none, content);
  read_path = λ path d. contents d;
  has_buffer = λ n. ltb_ℤ n (pos (2 ^ 40));
}

disk-Keeps : Keeps disk
disk-Keeps = record { read_written = λ path content d h. refl }

abbrev request : Request
request = record {
  id = codes "ab";
  kind = write;
  cmd = [];
  timeout_ms = pos 0;
  raw_output = false;
  path = codes "a/b";
  content_base64 = codes "aGk=";
  text = [];
  max_bytes = pos 0;
}

request_target : file_target (codes "a/b") ≡ some (codes "/workspace/a/b")
unfolding file_target sanitize_path clean join is_abs split slashed step_back keep_element
    keep_elements has_prefix str_eq
request_target = refl

stored_request : (handle_write disk request []).0 ≡ written (codes "ab")
unfolding handle_write file_target sanitize_path clean join is_abs split slashed step_back
    keep_element keep_elements has_prefix str_eq decode_content decode decode_quanta digit_value
    without_line_ends
stored_request = refl

room : disk.has_buffer (pos (suc (read_limit (pos 0)))) ≡ true
unfolding read_limit
room = refl

base64_read_back_example :
    handle_read disk request (handle_write disk request []).1
    ≡ some (record blank_response {
      id = codes "ab";
      kind = read_reply;
      content_base64 = codes "aGk=";
    })
base64_read_back_example =
    base64_read_back disk request request (codes "hi") [] disk-Keeps (omega arith) room refl
      stored_request (unfold encode digit in refl) (λ e. cc e) (omega arith, (omega arith, tt))
      (unfold read_limit in omega arith)

id-IsField : IsField (codes "ab")
id-IsField = record {
  no_line_feed = unfold has_byte in refl;
  no_carriage_return = unfold has_byte in refl;
  no_colon = unfold has_byte in refl;
}

cwd-IsField : IsField (codes "/w")
cwd-IsField = record {
  no_line_feed = unfold has_byte in refl;
  no_carriage_return = unfold has_byte in refl;
  no_colon = unfold has_byte in refl;
}

abbrev screen : Bytes
screen = codes "ls" ++ line_feed ∷ (printed_line (codes "ab") 7 (codes "/w") ++ line_feed ∷ [])

parse_end_sentinel-printed_line_example :
    parse_end_sentinel screen (end_marker (codes "ab"))
    ≡ record { exit_code = pos 7; cwd = codes "/w" }
parse_end_sentinel-printed_line_example =
    parse_end_sentinel-printed_line (codes "ls") [] (codes "ab") (codes "/w") 7 id-IsField
      cwd-IsField (omega arith)
      (unfold end_marker end_sentinel_line index? has_prefix decimal digits in refl)

abbrev pieces : List Bytes
pieces = codes "ls\n__SAND" ∷ codes "KASTEN_END__:ab:0:/w" ∷ []

wait_for_completion-answers_example :
    (out : Output) × (wait_for_completion
        (λ s. s)
        []
        pieces
        (codes "b")
        (end_marker (codes "ab"))
        false
      ≡ some out)
wait_for_completion-answers_example =
    wait_for_completion-answers (λ s. s) (codes "b") (end_marker (codes "ab")) false [] pieces 2
      (unfold end_marker end_sentinel_line index? has_prefix in refl)
      (unfold end_marker end_sentinel_line index? has_prefix join_all in refl)
      (unfold join_all in omega arith)

handle_read-line_limit_example :
    (reply : Response) × (handle_read disk request (codes "hi") ≡ some reply)
    × ((line_limit ≤ length reply.content_base64)
        ↔ (3935230 ≤ min (read_limit (pos 0)) (length (codes "hi"))))
handle_read-line_limit_example =
    handle_read-line_limit disk request (codes "hi") (codes "/workspace/a/b") (codes "hi")
      (omega arith) room request_target refl
