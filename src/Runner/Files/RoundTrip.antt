-- ===== src/Runner/Files/RoundTrip.antt =====
-- What is written through the runner is read back.
use sandkasten.Base.{
  take-take, take-all, ◌≡◌, ◌≢◌, ◌≤◌, ◌<◌, refl, ap, ◌∙◌, ℕ, suc, ◌^◌, ◌-◌, true, false, Option,
  none, some, List, [], ◌∷◌, length, take, length-take, ltb, All, arith,
}
use sandkasten.Base.Int.{ℤ, pos, negsuc, ◌+ℤ◌, ◌<ℤ◌, wrap64}
use sandkasten.Base.Text.{Bytes, codes, str_eq}
use sandkasten.Base.Base64.{encode}
use sandkasten.Base.Base64.RoundTrip.{decode-encode}
use sandkasten.World.{Request, Response, read_reply, error_reply, write_reply}
use sandkasten.Runner.Files.{
  contents, FileSystem, blank_response, error_response, written, decode_content, read_limit,
  file_target, replied, write_in_dir, write_content, write_target, handle_write, read_reply_of,
  read_target, handle_read,
}

-- A file that was written without an error is opened and read with what was written.
pub record Keeps {D : Type 0} (fs : FileSystem D) : Type 0 where
  pub read_written :
      (path content : Bytes) (d : D)
      → (fs.write_path path content d).0 ≡ none
      → fs.read_path path (fs.write_path path content d).1 ≡ contents content

-- The reply to a read of a file with this content.
abbrev pub reply_for : Bytes → Bytes → ℕ → Response
reply_for id content limit = record blank_response {
  id = id;
  kind = read_reply;
  content_base64 = encode (take limit content);
  truncated = ltb limit (length content);
}

ltb-length-take :
    {A : Type 0} (n : ℕ) (xs : List A) → ltb n (length (take (suc n) xs)) ≡ ltb n (length xs)
ltb-length-take n xs = ground (arith, length-take (suc n) xs)

fits : (n limit : ℕ) → n ≤ limit → ltb limit n ≡ false
fits n limit h = ground arith

encode_given : (s : Bytes) → s ≢ [] → str_eq (encode s) [] ≡ false
unfolding encode str_eq
encode_given [] h = absurd (h refl)
encode_given (a ∷ []) h = refl
encode_given (a ∷ b ∷ []) h = refl
encode_given (a ∷ b ∷ c ∷ s) h = refl

decode_content-encode :
    (req : Request) (sent : Bytes)
    → req.content_base64 ≡ encode sent
    → sent ≢ []
    → All (λ b. b < 256) sent
    → decode_content req ≡ some sent
unfolding decode_content
decode_content-encode req sent b given bytes =
    rw (b, encode_given sent given) (decode-encode sent bytes)

-- One byte more than a limit does not wrap.
pub limit_lem : (n : ℕ) → n < 2 ^ 63 - 1 → wrap64 (pos n +ℤ pos 1) ≡ pos (suc n)
unfolding wrap64 ◌+ℤ◌
limit_lem n small = ground arith

-- The limit of a read is below 2^63 - 1 if the number asked for is.
pub read_limit-bound : (n : ℤ) → n <ℤ pos (2 ^ 63 - 1) → read_limit n < 2 ^ 63 - 1
unfolding read_limit
read_limit-bound (pos n) h = ground arith
read_limit-bound (negsuc n) h = ground arith

module _ {D : Type 0} (fs : FileSystem D) where
  -- Where a write was answered with success, the file was written.
  data Written (target content : Bytes) (r : Response × D) : Type 0 where
    put :
        (d : D)
        → (fs.write_path target content d).0 ≡ none
        → r.1 ≡ (fs.write_path target content d).1
        → Written target content r

  replied-none :
      (id stage : Bytes) (o : Option Bytes) (d : D)
      → (replied fs id stage (o, d)).0 ≡ written id
      → o ≡ none
  unfolding replied error_response
  replied-none id stage none d h = refl
  replied-none id stage (some e) d h =
      let k : error_reply ≡ write_reply = ap (λ (r : Response). r.kind) h in cc

  replied-disk : (id stage : Bytes) (o : Option Bytes) (d : D) → (replied fs id stage (o, d)).1 ≡ d
  unfolding replied
  replied-disk id stage none d = refl
  replied-disk id stage (some e) d = refl

  write_in_dir-Written :
      (id target content : Bytes) (o : Option Bytes) (d : D)
      → (write_in_dir fs id target content (o, d)).0 ≡ written id
      → Written target content (write_in_dir fs id target content (o, d))
  unfolding write_in_dir error_response
  write_in_dir-Written id target content (some e) d h =
      let k : error_reply ≡ write_reply = ap (λ (r : Response). r.kind) h in cc
  write_in_dir-Written id target content none d h =
      let r = fs.write_path target content d in
      put d (replied-none id (codes "write: ") r.0 r.1 h)
        (replied-disk id (codes "write: ") r.0 r.1)

  -- A write that succeeds names a file, has a content, and has written it.
  data Accepted (path : Option Bytes) (text : Option Bytes) (r : Response × D) : Type 0 where
    accepted :
        (target content : Bytes)
        → path ≡ some target
        → text ≡ some content
        → Written target content r
        → Accepted path text r

  write_target-Accepted :
      (id : Bytes) (path text : Option Bytes) (d : D)
      → (write_target fs id path text d).0 ≡ written id
      → Accepted path text (write_target fs id path text d)
  unfolding write_target write_content error_response
  write_target-Accepted id none text d h =
      let k : error_reply ≡ write_reply = ap (λ (r : Response). r.kind) h in cc
  write_target-Accepted id (some target) none d h =
      let k : error_reply ≡ write_reply = ap (λ (r : Response). r.kind) h in cc
  write_target-Accepted id (some target) (some content) d h =
      let r = fs.ensure_parent_dir target d in
      accepted target content refl refl (write_in_dir-Written id target content r.0 r.1 h)

  -- What a reader asks for can be held in a buffer, whose length does not wrap.
  abbrev pub IsReadable : ℤ → Type 0
  IsReadable max_bytes =
      (max_bytes <ℤ pos (2 ^ 63 - 1)) × (fs.has_buffer (pos (suc (read_limit max_bytes))) ≡ true)

  -- The reply to a read of a file that is there.
  pub read_target-contents :
      (id target content : Bytes) (d : D) (path : Option Bytes) (max_bytes : ℤ)
      → IsReadable max_bytes
      → path ≡ some target
      → fs.read_path target d ≡ contents content
      → read_target fs id max_bytes path d ≡ some (reply_for id content (read_limit max_bytes))
  unfolding read_target read_reply_of
  read_target-contents id target content d path max_bytes (small, room) e there =
      rw (e, there)
        (rw (limit_lem (read_limit max_bytes) (read_limit-bound max_bytes small), room)
          (rw
            (
              take-take (read_limit max_bytes) content,
              ltb-length-take (read_limit max_bytes) content,
            )
            refl))

  read_back :
      (id target content : Bytes) (r : Response × D) (path : Option Bytes) (max_bytes : ℤ)
      → Keeps fs
      → IsReadable max_bytes
      → path ≡ some target
      → Written target content r
      → read_target fs id max_bytes path r.1 ≡ some (reply_for id content (read_limit max_bytes))
  read_back id target content r path max_bytes k s e (put d ok at) =
      read_target-contents id target content r.1 path max_bytes s e
        (ap (fs.read_path target) at ∙ k.read_written target content d ok)

  read_after :
      (id : Bytes) (path text reader : Option Bytes) (r : Response × D) (max_bytes : ℤ)
      → Keeps fs
      → IsReadable max_bytes
      → reader ≡ path
      → Accepted path text r
      → (content : Bytes) × (text ≡ some content)
        × (read_target fs id max_bytes reader r.1
            ≡ some (reply_for id content (read_limit max_bytes)))
  read_after id path text reader r max_bytes k s e (accepted target content named given done) =
      (content, given, read_back id target content r reader max_bytes k s (e ∙ named) done)

  -- When handleWrite reports success and handleRead is asked for the same path next, the reply is the
  -- start of the content that the write request holds, as much as the limit allows, and says whether
  -- something was cut off. The file system is one that reads what was written; the read asks for less
  -- than 2^63 - 1 bytes, and there is a buffer for them.
  pub handle_read-handle_write :
      (req reader : Request) (d : D)
      → Keeps fs
      → reader.max_bytes <ℤ pos (2 ^ 63 - 1)
      → fs.has_buffer (pos (suc (read_limit reader.max_bytes))) ≡ true
      → reader.path ≡ req.path
      → (handle_write fs req d).0 ≡ written req.id
      → (content : Bytes) × (decode_content req ≡ some content)
        × (handle_read fs reader (handle_write fs req d).1
            ≡ some (reply_for reader.id content (read_limit reader.max_bytes)))
  unfolding handle_write handle_read
  handle_read-handle_write req reader d k small room e h =
      read_after reader.id (file_target req.path) (decode_content req) (file_target reader.path) _
        reader.max_bytes k (small, room) (ap file_target e)
        (write_target-Accepted req.id (file_target req.path) (decode_content req) d h)

  -- Bytes that are sent in base64 and are no more than the limit of the read are read back as they were
  -- sent, whole. The file system is one that reads what was written; the read asks for less than
  -- 2^63 - 1 bytes, and there is a buffer for one more than its limit.
  pub base64_read_back :
      (req reader : Request) (sent : Bytes) (d : D)
      → Keeps fs
      → reader.max_bytes <ℤ pos (2 ^ 63 - 1)
      → fs.has_buffer (pos (suc (read_limit reader.max_bytes))) ≡ true
      → reader.path ≡ req.path
      → (handle_write fs req d).0 ≡ written req.id
      → req.content_base64 ≡ encode sent
      → sent ≢ []
      → All (λ b. b < 256) sent
      → length sent ≤ read_limit reader.max_bytes
      → handle_read fs reader (handle_write fs req d).1
        ≡ some (record blank_response {
          id = reader.id;
          kind = read_reply;
          content_base64 = req.content_base64;
        })
  base64_read_back req reader sent d k limit room e h b some_bytes bytes small =
      let (content, text, reply) = handle_read-handle_write req reader d k limit room e h in
      let c : content ≡ sent = let x = decode_content-encode req sent b some_bytes bytes in cc in
      reply ∙ rw (c, b, take-all _ sent small, fits (length sent) _ small) refl
