-- ===== src/Runner/Output/Line.antt =====
-- cmd/runner/exec.go: the line that the shell prints behind a command, and parseEndSentinel.
use sandkasten.Base.{
  ◌≡◌, ◌≤◌, refl, sym, ◌∙◌, ap, ℕ, zero, suc, ◌+◌, true, false, some, [], ◌∷◌, ◌++◌, length, drop,
  append_assoc, append-nil, ◌==◌, arith,
}
use sandkasten.Base.Int.{pos}
use sandkasten.Base.Text.{
  Bytes, has_byte, index?, before, trim_right, before-append, after-append, after-none,
  has_byte-append, trim_right-last, trim_right-none,
}
use sandkasten.Base.Decimal.{
  is_digit, digits_value, all_digits, decimal, digits_value-decimal, all_digits-decimal,
  decimal-length,
}
use sandkasten.Runner.Output.{
  line_feed, carriage_return, colon, sentinel_end, end_marker, end_sentinel_line, split_n, scan_int,
  from_parts, end_fields, parse_end_sentinel,
}

-- What `printf '\n<marker>:%d:%s\n' "$?" "$PWD"` puts on the terminal's line, which ends in "\r\n".
abbrev pub printed_line : Bytes → ℕ → Bytes → Bytes
printed_line id code cwd =
    (end_marker id ++ colon ∷ (decimal code ++ colon ∷ cwd)) ++ carriage_return ∷ []

pub split_n-append :
    (n sep : ℕ) (s t : Bytes)
    → has_byte sep s ≡ false
    → split_n (suc n) sep (s ++ sep ∷ t) ≡ s ∷ split_n n sep t
unfolding split_n
split_n-append n sep s t h =
    rw (split_n, after-append sep s t h) (rw (before-append sep s t h) refl)

pub split_n-last : (n sep : ℕ) (s : Bytes) → has_byte sep s ≡ false → split_n n sep s ≡ s ∷ []
unfolding split_n
split_n-last zero sep s h = refl
split_n-last (suc n) sep s h = rw (split_n, after-none sep s h) refl

pub drop-line : (s t : Bytes) (c : ℕ) → drop (length s + 1) (s ++ c ∷ t) ≡ t
drop-line [] t c = refl
drop-line (x ∷ s) t c =
    let e : suc (length s) + 1 ≡ suc (length s + 1) = omega arith in rw e (drop-line s t c)

has_byte-digits :
    (b : ℕ) (s : Bytes) → is_digit b ≡ false → all_digits s ≡ true → has_byte b s ≡ false
unfolding has_byte all_digits
has_byte-digits b [] h k = refl
has_byte-digits b (c ∷ s) h k = ground (arith, has_byte-digits b s)

scan_int-digits :
    (s : Bytes) (n : ℕ)
    → all_digits s ≡ true
    → digits_value 0 s ≡ n
    → n ≤ 255
    → 1 ≤ length s
    → scan_int s ≡ some (pos n)
unfolding scan_int all_digits
scan_int-digits [] n h e l g = absurd (omega arith)
scan_int-digits (c ∷ s) n h e l g = ground arith

scan_int-decimal : (code : ℕ) → code ≤ 255 → scan_int (decimal code) ≡ some (pos code)
scan_int-decimal code h =
    scan_int-digits (decimal code) code (all_digits-decimal code)
      (ap (digits_value 0) (sym (append-nil (decimal code))) ∙ digits_value-decimal code [] refl) h
      (decimal-length code)

-- The text that an id, an exit code and a directory make, without the end of the line.
abbrev fields : Bytes → ℕ → Bytes → Bytes
fields id code cwd = end_marker id ++ colon ∷ (decimal code ++ colon ∷ cwd)

decimal_without : (b code : ℕ) → is_digit b ≡ false → has_byte b (decimal code) ≡ false
decimal_without b code h = has_byte-digits b (decimal code) h (all_digits-decimal code)

pub colon_before :
    (b : ℕ) (s : Bytes)
    → (colon == b) ≡ false
    → has_byte b s ≡ false
    → has_byte b (colon ∷ s) ≡ false
unfolding has_byte
colon_before b s e k = rw e k

fields_without :
    (b : ℕ) (id : Bytes) (code : ℕ) (cwd : Bytes)
    → has_byte b sentinel_end ≡ false
    → (colon == b) ≡ false
    → is_digit b ≡ false
    → has_byte b id ≡ false
    → has_byte b cwd ≡ false
    → has_byte b (fields id code cwd) ≡ false
unfolding end_marker
fields_without b id code cwd s c d i w =
    let rest =
      has_byte-append b (decimal code) (colon ∷ cwd) (decimal_without b code d)
        (colon_before b cwd c w) in
    has_byte-append b (end_marker id) (colon ∷ (decimal code ++ colon ∷ cwd))
      (has_byte-append b sentinel_end (colon ∷ id) s (colon_before b id c i))
      (colon_before b (decimal code ++ colon ∷ cwd) c rest)

split_fields :
    (s i d w : Bytes)
    → has_byte colon s ≡ false
    → has_byte colon i ≡ false
    → has_byte colon d ≡ false
    → has_byte colon w ≡ false
    → split_n 4 colon ((s ++ colon ∷ i) ++ colon ∷ (d ++ colon ∷ w)) ≡ s ∷ i ∷ d ∷ w ∷ []
split_fields s i d w hs hi hd hw = rw (append_assoc s (colon ∷ i) (colon ∷ (d ++ colon ∷ w))) (
    split_n-append 3 colon s (i ++ colon ∷ (d ++ colon ∷ w)) hs
    ∙ ap (◌∷◌ s) (
        split_n-append 2 colon i (d ++ colon ∷ w) hi
        ∙ ap (◌∷◌ i) (split_n-append 1 colon d w hd ∙ ap (◌∷◌ d) (split_n-last 1 colon w hw))))

-- A text without the bytes that end a line or part its fields.
pub record IsField (s : Bytes) : Type 0 where
  pub no_line_feed : has_byte line_feed s ≡ false
  pub no_carriage_return : has_byte carriage_return s ≡ false
  pub no_colon : has_byte colon s ≡ false

line_feed_ends :
    (id : Bytes) (code : ℕ) (cwd rest : Bytes)
    → IsField id
    → IsField cwd
    → before line_feed (printed_line id code cwd ++ line_feed ∷ rest) ≡ printed_line id code cwd
line_feed_ends id code cwd rest i w = before-append line_feed (printed_line id code cwd) rest (
    has_byte-append line_feed (fields id code cwd) (carriage_return ∷ [])
      (fields_without line_feed id code cwd (unfold has_byte in refl) refl refl i.no_line_feed
        w.no_line_feed)
      (unfold has_byte in refl))

trimmed :
    (id : Bytes) (code : ℕ) (cwd : Bytes)
    → IsField id
    → IsField cwd
    → trim_right carriage_return (printed_line id code cwd) ≡ fields id code cwd
trimmed id code cwd i w =
    trim_right-last carriage_return (fields id code cwd)
    ∙ trim_right-none carriage_return (fields id code cwd) (
        fields_without carriage_return id code cwd (unfold has_byte in refl) refl refl
          i.no_carriage_return w.no_carriage_return)

fields_split :
    (id : Bytes) (code : ℕ) (cwd : Bytes)
    → IsField id
    → IsField cwd
    → split_n 4 colon (fields id code cwd) ≡ sentinel_end ∷ id ∷ decimal code ∷ cwd ∷ []
unfolding end_marker
fields_split id code cwd i w =
    split_fields sentinel_end id (decimal code) cwd (unfold has_byte in refl) i.no_colon
      (decimal_without colon code refl) w.no_colon

line_read :
    (id : Bytes) (code : ℕ) (cwd rest : Bytes)
    → IsField id
    → IsField cwd
    → code ≤ 255
    → from_parts (end_fields (printed_line id code cwd ++ line_feed ∷ rest))
      ≡ record { exit_code = pos code; cwd = cwd }
unfolding end_fields from_parts
line_read id code cwd rest i w c = rw (line_feed_ends id code cwd rest i w) (
    rw (trimmed id code cwd i w)
      (rw (fields_split id code cwd i w) (rw (scan_int-decimal code c) refl)))

-- The line that the shell prints behind a command, wherever it stands in what the terminal showed, is
-- read back as the exit code and the directory that it was printed with. The id and the directory have
-- no colon and no end of a line in them, the exit code is one of a process, and no such marker stands
-- earlier on a line of its own.
pub parse_end_sentinel-printed_line :
    (shown rest id cwd : Bytes) (code : ℕ)
    → IsField id
    → IsField cwd
    → code ≤ 255
    → index?
        (end_sentinel_line (end_marker id))
        (shown ++ line_feed ∷ (printed_line id code cwd ++ line_feed ∷ rest))
      ≡ some (length shown)
    → parse_end_sentinel
        (shown ++ line_feed ∷ (printed_line id code cwd ++ line_feed ∷ rest))
        (end_marker id)
      ≡ record { exit_code = pos code; cwd = cwd }
unfolding parse_end_sentinel
parse_end_sentinel-printed_line shown rest id cwd code i w c first =
    rw (parse_end_sentinel, first)
      (rw (drop-line shown (printed_line id code cwd ++ line_feed ∷ rest) line_feed)
        (line_read id code cwd rest i w c))
