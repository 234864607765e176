-- ===== src/Rpc/Gzip.antt =====
-- node/rpcstack.go: the writer that compresses a response.
pub mod Length
use mive.Base.{
  ℕ, ◌+◌, ◌-◌, ◌*◌, Bytes, bytes_eq, Bool, true, false, not, ◌&&◌, Option, none, some, List, [],
  ◌∷◌, codes, contains, is_empty, leb, ltb, if◌then◌else◌, add64, max_uint64, length,
}
use mive.Rpc.Net.{Request}

-- `strconv.ParseUint` in base 10: the number, and whether there is an error beside it.
abbrev pub parse_digits : Bytes → ℕ → ℕ × Bool
parse_digits [] n = (n, false)
parse_digits (c ∷ s) n =
    let next = n * 10 + (c - b'0') in
    let rest = parse_digits s next in
    if not (leb b'0' c && leb c b'9')
    then (0, true)
    else if ltb max_uint64 next
    then (max_uint64, true)
    else rest

abbrev pub parse_uint : Bytes → ℕ × Bool
parse_uint [] = (0, true)
parse_uint (c ∷ s) = parse_digits (c ∷ s) 0

-- The headers of the response below, and what was done to it.
pub record Response : Type 0 where
  pub content_length : Bytes
  pub transfer_encoding : Bytes
  pub content_encoding : Bytes
  pub status : Option ℕ

-- A `gzip.Writer` by what was written to it, and whether it was closed.
pub record GzipStream : Type 0 where
  pub input : ℕ
  pub closed : Bool

-- `gzipResponseWriter`; `direct` counts the bytes that went past the compression.
pub record GzipResponseWriter : Type 0 where
  pub resp : Response
  pub gz : Option GzipStream
  pub content_length : ℕ
  pub written : ℕ
  pub has_length : Bool
  pub inited : Bool
  pub direct : ℕ

-- `init`. The length is kept where `ParseUint` fails.
unfoldable pub init : GzipResponseWriter → GzipResponseWriter
init w =
    let (n, failed) = parse_uint w.resp.content_length in
    let keeps = not (is_empty w.resp.content_length) && failed in
    let w' : GzipResponseWriter = record w {
      inited = true;
      has_length = if keeps then true else w.has_length;
      content_length = if keeps then n else w.content_length;
    } in
    if w.inited
    then w
    else if bytes_eq w.resp.transfer_encoding (codes "identity")
    then w'
    else record w' {
      gz = some (record { input = 0; closed = false });
      resp = record w.resp { content_length = []; content_encoding = codes "gzip" };
    }

-- `WriteHeader`
unfoldable pub write_header : GzipResponseWriter → ℕ → GzipResponseWriter
unfolding init
write_header w status =
    let w' = init w in record w' { resp = record (w'.resp) { status = some status } }

-- `Write`, of so many bytes: the response takes them all, an open stream too, a closed stream none.
unfoldable pub write : GzipResponseWriter → ℕ → GzipResponseWriter
unfolding init
write w size =
    let w' = init w in
    elim w'.gz [
      | none ↦ record w' { direct = w'.direct + size }
      | some stream ↦
          let n = if stream.closed then 0 else size in
          let total = add64 w'.written n in
          record w' {
            written = total;
            gz = some (record {
              input = stream.input + n;
              closed = if w'.has_length && leb w'.content_length total then true else stream.closed;
            });
          }
    ]

-- `close`: the stream is closed and returned to the pool.
unfoldable pub close : GzipResponseWriter → GzipResponseWriter × Option GzipStream
close w = elim w.gz [
  | none ↦ (w, none)
  | some stream ↦ (record w { gz = none }, some (record stream { closed = true }))
]

-- `newGzipHandler`: whether a response to the request goes through the writer.
unfoldable pub wants_gzip : Request → Bool
wants_gzip r = contains r.accept_encoding (codes "gzip")

-- A writer over a response, as the handler makes it.
abbrev pub new_writer : Response → GzipResponseWriter
new_writer resp = record {
  resp = resp;
  gz = none;
  content_length = 0;
  written = 0;
  has_length = false;
  inited = false;
  direct = 0;
}
