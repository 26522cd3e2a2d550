-- ===== src/Server/Header/Whole.antt =====
-- A header that arrives whole is read, in whatever pieces it comes, and nothing of what follows is lost.
use hold_the_donut.Prelude.{
  ℕ, ◌⊎◌, ◌-◌, ◌≤◌, ◌≡◌, refl, sym, ap, ◌∙◌, arith, List, [], ◌∷◌, ◌++◌, length, All, ok, err,
  append_assoc, append-nil, length-append, drop-append, inl, inr, ok-injective,
}
use mathlib.Core.List.{flatten}
use hold_the_donut.Wire.Addons.{addons_len, IsAddons}
use hold_the_donut.Wire.Error.{WireError}
use hold_the_donut.Wire.Reader.{Reader}
use hold_the_donut.Wire.Reader.Incremental.{IsIncremental, IsTruncated, cut, prefix-IsTruncated}
use hold_the_donut.Wire.Request.{
  Request, encode_request, decode_request, request_len, IsRequest, Response, encode_response,
  decode_response,
}
use hold_the_donut.Wire.Request.RoundTrip.{
  decode_request-encode_request, decode_response-encode_response,
}
use hold_the_donut.Wire.Request.Stream.{Incremental-decode_request, Incremental-decode_response}
use hold_the_donut.Server.Header.{
  Read, header, after_decode, read_header, read_request, read_response,
}

-- Two ways to cut a string: one cut is at or behind the other.
split :
    (xs ys us vs : List ℕ)
    → xs ++ us ≡ ys ++ vs
    → ((rest : List ℕ) × (xs ≡ ys ++ rest) × (vs ≡ rest ++ us))
      ⊎ ((y : ℕ) × (more : List ℕ) × (ys ≡ xs ++ (y ∷ more)) × (us ≡ (y ∷ more) ++ vs))
split xs [] us vs h = inl (xs, refl, sym h)
split [] (y ∷ ys) us vs h = inr (y, ys, refl, h)
split (x ∷ xs) (y ∷ ys) us vs h = elim (split xs ys us vs cc) [
  | inl (rest, p, q) ↦ inl (rest, cc, q)
  | inr (z, more, p, q) ↦ inr (z, more, cc, q)
]

-- A read that is not the end of the stream.
abbrev pub IsRead : List ℕ → Type 0
IsRead chunk = 1 ≤ length chunk

-- The header is `a`, and the bytes left over and those still to be read are `tail`.
pub record ReadsTo {A : Type 0} (a : A) (tail : List ℕ) (r : Read A) : Type 0 where
  pub leftover : List ℕ
  pub reads : List (List ℕ)
  pub is_header : r ≡ header a leftover reads
  all_kept : leftover ++ flatten reads ≡ tail

after_decode-truncated :
    {A : Type 0} (w : WireError)
    → IsTruncated w
    → (buf : List ℕ) (reads : List (List ℕ)) (again : Read A)
    → after_decode buf (err w) reads again ≡ again
unfolding after_decode
after_decode-truncated w (cut want have) buf reads again = refl

module _ {A : Type 0} (decode : Reader A) (inc : IsIncremental decode) (a : A) (enc : List ℕ)
    (whole : (rest : List ℕ) → decode (enc ++ rest) ≡ ok (a, rest)) where
  step_more :
      (buf : List ℕ) (x : ℕ) (chunk back : List ℕ) (y : ℕ) (reads : List (List ℕ))
      → enc ≡ (buf ++ (x ∷ chunk)) ++ (y ∷ back)
      → read_header decode buf ((x ∷ chunk) ∷ reads) ≡ read_header decode (buf ++ (x ∷ chunk)) reads
  unfolding read_header after_decode
  step_more buf x chunk back y reads e =
      let whole_only : decode (enc ++ []) ≡ ok (a, []) = whole [] in
      let (w, got, t) =
        prefix-IsTruncated decode (buf ++ (x ∷ chunk)) y back a inc
          (rw (append-nil, e) at whole_only) in
      rw got (after_decode-truncated w t (buf ++ (x ∷ chunk)) reads _)

  step_done :
      (buf : List ℕ) (x : ℕ) (chunk rest : List ℕ) (reads : List (List ℕ))
      → buf ++ (x ∷ chunk) ≡ enc ++ rest
      → read_header decode buf ((x ∷ chunk) ∷ reads) ≡ header a rest reads
  unfolding read_header after_decode
  step_done buf x chunk rest reads e =
      let n : length (enc ++ rest) - length rest ≡ length enc =
        omega (arith, length-append enc rest) in
      rw (e, whole rest, n, drop-append enc rest) refl

  -- The buffer is a proper prefix of the encoding; what follows stands in the reads.
  loop-ReadsTo :
      (buf tail : List ℕ) (y : ℕ) (back : List ℕ) (reads : List (List ℕ))
      → enc ≡ buf ++ (y ∷ back)
      → All IsRead reads
      → flatten reads ≡ (y ∷ back) ++ tail
      → ReadsTo a tail (read_header decode buf reads)
  unfolding flatten
  loop-ReadsTo buf tail y back [] e all h = cc
  loop-ReadsTo buf tail y back ([] ∷ reads) e (some_read, all) h = absurd (omega arith)
  loop-ReadsTo buf tail y back ((x ∷ chunk) ∷ reads) e (some_read, all) h =
      elim (split (x ∷ chunk) (y ∷ back) (flatten reads) tail h) [
        | inl (rest, p, q) ↦
            let at_end : buf ++ (x ∷ chunk) ≡ enc ++ rest =
              ap (λ t. buf ++ t) p
              ∙ sym (append_assoc buf (y ∷ back) rest)
              ∙ ap (λ t. t ++ rest) (sym e) in
            record {
              leftover = rest;
              reads = reads;
              is_header = step_done buf x chunk rest reads at_end;
              all_kept = sym q;
            }
        | inr (y', back', p, q) ↦
            let inside : enc ≡ (buf ++ (x ∷ chunk)) ++ (y' ∷ back') =
              e ∙ ap (λ t. buf ++ t) p ∙ sym (append_assoc buf (x ∷ chunk) (y' ∷ back')) in
            rw (step_more buf x chunk back' y' reads inside)
              (loop-ReadsTo (buf ++ (x ∷ chunk)) tail y' back' reads inside all q)
      ]

-- From an empty buffer.
from_start :
    {A : Type 0} (enc tail : List ℕ) (reads : List (List ℕ)) (a : A) (decode : Reader A)
    → IsIncremental decode
    → 1 ≤ length enc
    → ((rest : List ℕ) → decode (enc ++ rest) ≡ ok (a, rest))
    → All IsRead reads
    → flatten reads ≡ enc ++ tail
    → ReadsTo a tail (read_header decode [] reads)
from_start [] tail reads a decode inc some_byte whole all e = absurd (omega arith)
from_start (y ∷ back) tail reads a decode inc some_byte whole all e =
    loop-ReadsTo decode inc a (y ∷ back) whole [] tail y back reads refl all e

request_len-pos : (r : Request) → 1 ≤ request_len r
unfolding request_len
request_len-pos r = omega arith

encode_response-pos : (r : Response) → 1 ≤ length (encode_response r)
unfolding encode_response
encode_response-pos r = omega arith

-- A well-formed request, sent as `Request::encode` writes it and with anything behind it, in whatever
-- pieces that are not empty: the loop ends with that request, and the bytes left over together with the
-- reads to come are exactly what was sent behind it.
pub read_request-encode_request :
    (r : Request) (bytes tail : List ℕ) (reads : List (List ℕ))
    → IsRequest r
    → encode_request r ≡ ok bytes
    → All IsRead reads
    → flatten reads ≡ bytes ++ tail
    → ReadsTo r tail (read_request reads)
unfolding read_request
read_request-encode_request r bytes tail reads h enc all e =
    let (bytes', enc', whole, len) = decode_request-encode_request r h in
    let same : bytes' ≡ bytes = ok-injective (sym enc' ∙ enc) in
    from_start bytes tail reads r decode_request Incremental-decode_request
      (rw same at (rw (← len) at (request_len-pos r))) (rw same at whole) all e

-- A response, as the exit writes it and with anything behind it, in whatever pieces that are not empty:
-- `read_response` ends with it, and keeps exactly what was sent behind it.
read_response-encode_response :
    (r : Response) (tail : List ℕ) (reads : List (List ℕ))
    → IsAddons r.addons
    → addons_len r.addons ≤ 255
    → All IsRead reads
    → flatten reads ≡ encode_response r ++ tail
    → ReadsTo r tail (read_response reads)
unfolding read_response
read_response-encode_response r tail reads h fit all e =
    from_start (encode_response r) tail reads r decode_response Incremental-decode_response
      (encode_response-pos r) (λ rest. (decode_response-encode_response r rest h fit).0) all e
