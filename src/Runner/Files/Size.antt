-- ===== src/Runner/Files/Size.antt =====
-- cmd/runner/fs.go against the line that internal/runtime/linux/driver.go reads: which files can be
-- read at all.
use sandkasten.Base.{
  ◌^◌, ◌-◌, suc, true, take, ◌≡◌, ◌≤◌, ◌↔◌, refl, ◌+◌, ◌*◌, ◌/◌, some, length, length-take, arith,
}
use sandkasten.Base.Text.{Bytes}
use sandkasten.Base.Base64.RoundTrip.{length-encode}
use sandkasten.World.{Request, Response}
use sandkasten.Runner.Limits.{line_limit}
use sandkasten.Runner.Files.{FileSystem, contents, read_limit, file_target, handle_read}
use sandkasten.Runner.Files.RoundTrip.{reply_for, read_target-contents}
use sandkasten.Base.Int.{pos, ◌<ℤ◌}
use sandkasten.Base.Base64.{encode}
use Prim.Native.Nat.{min}

module _ {D : Type 0} (fs : FileSystem D) where
  -- For a file that can be read, where the read asks for less than 2^63 - 1 bytes and there is a buffer
  -- for one more than its limit, handleRead replies, and the content in the reply alone is as long as the
  -- line that the driver refuses exactly if at least 3935230 bytes are to be returned: those of the
  -- file, or as many as the limit of the read is.
  pub handle_read-line_limit :
      (req : Request) (d : D) (target text : Bytes)
      → req.max_bytes <ℤ pos (2 ^ 63 - 1)
      → fs.has_buffer (pos (suc (read_limit req.max_bytes))) ≡ true
      → file_target req.path ≡ some target
      → fs.read_path target d ≡ contents text
      → (reply : Response) × (handle_read fs req d ≡ some reply)
        × ((line_limit ≤ length reply.content_base64)
            ↔ (3935230 ≤ min (read_limit req.max_bytes) (length text)))
  unfolding handle_read
  handle_read-line_limit req d target text small room t c =
      let n = read_limit req.max_bytes in
      let e : length (encode (take n text)) ≡ 4 * ((min n (length text) + 2) / 3) =
        rw (length-encode, length-take) refl in
      (
        reply_for req.id text n,
        read_target-contents fs req.id target text d (file_target req.path) req.max_bytes
            (small, room) t c,
        rw e (λ h. omega arith, λ h. omega arith),
      )
