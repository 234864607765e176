-- ===== src/Rpc/Gzip/Length.antt =====
-- node/rpcstack.go: what the writer makes of a response's length.
use mive.Base.{
  ℕ, ◌+◌, ◌≡◌, bytes_eq, Bool, true, false, some, List, [], ◌∷◌, codes, is_empty, not, ◌||◌, subst,
  arith,
}
use mive.Rpc.Gzip.{
  Response, GzipResponseWriter, init, write, write_header, close, new_writer, parse_uint,
}

-- A handler that writes so many bytes at a time.
abbrev pub write_all : GzipResponseWriter → List ℕ → GzipResponseWriter
write_all w [] = w
write_all w (size ∷ sizes) = write_all (write w size) sizes

abbrev pub total : List ℕ → ℕ
total [] = 0
total (size ∷ sizes) = size + total sizes

-- The writer compresses, knows of no length, and its open stream has so many bytes.
record IsOpen (w : GzipResponseWriter) (n : ℕ) : Type 0 where
  inited : w.inited ≡ true
  unmeasured : w.has_length ≡ false
  stream : w.gz ≡ some (record { input = n; closed = false })
  headers : (w.resp.content_length ≡ []) × (w.resp.content_encoding ≡ codes "gzip")

write-IsOpen :
    (w : GzipResponseWriter) → (n size : ℕ) → IsOpen w n → IsOpen (write w size) (n + size)
unfolding write init
write-IsOpen w n size ok = record {
  inited = ground (arith, ok.inited, ok.stream);
  unmeasured = ground (arith, ok.inited, ok.stream, ok.unmeasured);
  stream = ground (arith, ok.inited, ok.stream, ok.unmeasured);
  headers = (
    ground (arith, ok.inited, ok.stream, ok.headers.0),
    ground (arith, ok.inited, ok.stream, ok.headers.1),
  );
}

write_all-IsOpen :
    (w : GzipResponseWriter)
    → (n : ℕ) → (sizes : List ℕ) → IsOpen w n
    → IsOpen (write_all w sizes) (n + total sizes)
write_all-IsOpen w n [] ok = subst (IsOpen w) (omega arith) ok
write_all-IsOpen w n (size ∷ sizes) ok =
    let rest = write_all-IsOpen (write w size) (n + size) sizes (write-IsOpen w n size ok) in
    subst (IsOpen (write_all (write w size) sizes)) (omega arith) rest

-- Whether a response has no Content-Length, or one that parses.
abbrev pub is_measurable : Response → Bool
is_measurable resp = is_empty resp.content_length || not (parse_uint resp.content_length).1

write_header-IsOpen :
    (resp : Response)
    → (status : ℕ) → bytes_eq resp.transfer_encoding (codes "identity") ≡ false
    → is_measurable resp ≡ true
    → IsOpen (write_header (new_writer resp) status) 0
unfolding write_header init
write_header-IsOpen resp status compressed measurable = record {
  inited = ground (arith, compressed);
  unmeasured = ground (arith, compressed, measurable);
  stream = ground (arith, compressed);
  headers = (ground (arith, compressed), ground (arith, compressed));
}

-- A compressed response without a Content-Length, or with one that parses, is complete: whatever
-- sizes are written, the stream has them all when the writer is closed, and the response says that
-- it is compressed and gives no length. The stream stays open up to then, also when the whole of a
-- response of known length has been written.
pub write_all_complete :
    (resp : Response)
    → (status : ℕ) → (sizes : List ℕ) → bytes_eq resp.transfer_encoding (codes "identity") ≡ false
    → is_measurable resp ≡ true
    → ((write_all (write_header (new_writer resp) status) sizes).gz
        ≡ some (record { input = total sizes; closed = false }))
      × ((close (write_all (write_header (new_writer resp) status) sizes)).1
          ≡ some (record { input = total sizes; closed = true }))
      × ((write_all (write_header (new_writer resp) status) sizes).resp.content_length ≡ [])
      × ((write_all (write_header (new_writer resp) status) sizes).resp.content_encoding
          ≡ codes "gzip")
unfolding close
write_all_complete resp status sizes compressed measurable =
    let w : GzipResponseWriter = write_all (write_header (new_writer resp) status) sizes in
    let ok' = write_all-IsOpen _ 0 sizes (write_header-IsOpen resp status compressed measurable) in
    let ok : IsOpen w (total sizes) = subst (IsOpen w) (omega arith) ok' in
    (ok.stream, ground (arith, ok.stream), ok.headers.0, ok.headers.1)
