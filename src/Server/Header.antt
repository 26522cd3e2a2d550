-- ===== src/Server/Header.antt =====
-- The loops that read a header from a stream: of `handle_session` (crates/donut-server/src/proxy.rs) for
-- the request, and `read_response` (crates/donut-server/src/outbound.rs) for the response.
pub mod Whole
use hold_the_donut.Prelude.{ℕ, ◌-◌, List, [], ◌∷◌, ◌++◌, length, drop, Outcome, ok, err, panic}
use hold_the_donut.Wire.Error.{WireError, truncated}
use hold_the_donut.Wire.Reader.{Reader}
use hold_the_donut.Wire.Request.{Request, decode_request, Response, decode_response}

-- How the loop ends: with a header, the bytes left over and the reads that are still to come; or with an
-- error.
pub data Read (A : Type 0) : Type 0 where
  header : A → List ℕ → List (List ℕ) → Read A
  unexpected_eof : Read A
  refused : WireError → Read A
  panicked : Read A

-- After a decode of the whole buffer; `again` reads on.
unfoldable pub after_decode :
    {A : Type 0} → List ℕ → Outcome WireError (A × List ℕ) → List (List ℕ) → Read A → Read A
after_decode buf (ok (a, view)) reads again = header a (drop (length buf - length view) buf) reads
after_decode buf (err (truncated want have)) reads again = again
after_decode buf (err e) reads again = refused e
after_decode buf panic reads again = panicked

-- The loop, over what the reads give; an empty read, or none, is the end of the stream.
unfoldable pub read_header : {A : Type 0} → Reader A → List ℕ → List (List ℕ) → Read A
unfolding after_decode
read_header decode buf [] = unexpected_eof
read_header decode buf ([] ∷ reads) = unexpected_eof
read_header decode buf ((x ∷ chunk) ∷ reads) =
    let again = read_header decode (buf ++ (x ∷ chunk)) reads in
    after_decode (buf ++ (x ∷ chunk)) (decode (buf ++ (x ∷ chunk))) reads again

-- The loop of `handle_session`.
unfoldable pub read_request : List (List ℕ) → Read Request
unfolding read_header
read_request reads = read_header decode_request [] reads

-- `read_response`
unfoldable pub read_response : List (List ℕ) → Read Response
unfolding read_header
read_response reads = read_header decode_response [] reads
