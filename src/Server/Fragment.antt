-- ===== src/Server/Fragment.antt =====
-- crates/donut-server/src/fragment.rs: the first TLS record of a stream is cut into several, if it is a
-- ClientHello. The random numbers are a sequence, of which each pick uses the next one.
pub mod Reassembled
pub mod Stream
pub mod Adapter
pub mod Drained
pub mod Passed
pub mod Gathered
pub mod Delivered
pub mod Calls
pub mod Paced
pub mod Sent
pub mod Planned
use hold_the_donut.Prelude.{
  ℕ, zero, suc, ◌+◌, ◌-◌, ◌*◌, ◌/◌, ◌%◌, min, Bool, true, false, not, ◌&&◌, ◌||◌, Option, none,
  some, List, [], ◌∷◌, ◌++◌, length, take, drop, get_or, ltb, leb, ◌==◌, if◌then◌else◌, Outcome, ok,
  err, panic,
}

pub record FragmentParams : Type 0 where
  pub len : ℕ × ℕ
  pub interval_ms : ℕ × ℕ

-- `FragmentParams::pick`, which panics where the span wraps to 0.
unfoldable pub pick : ℕ × ℕ → ℕ → Option ℕ
pick (lo, hi) random =
    let span = (hi - lo + 1) % 4294967296 in
    if leb hi lo then some lo else if span == 0 then none else some (lo + random % span)

-- `clamp(1, max)`, for a `max` that is not 0.
unfoldable pub clamp1 : ℕ → ℕ → ℕ
clamp1 n max = if ltb n 1 then 1 else if ltb max n then max else n

-- The header of a handshake record.
unfoldable pub record_header : ℕ → ℕ → List ℕ → List ℕ
record_header v0 v1 slice = 22 ∷ v0 ∷ v1 ∷ (length slice / 256 % 256) ∷ (length slice % 256) ∷ []

-- The loop of `fragment_clienthello_to_vec`, from an offset on; each round takes a byte at least.
unfoldable pub fragment_loop : FragmentParams → (ℕ → ℕ) → ℕ → ℕ → ℕ → ℕ → List ℕ → Option (List ℕ)
unfolding pick clamp1 record_header
fragment_loop p random i zero v0 v1 rest = some []
fragment_loop p random i (suc fuel) v0 v1 [] = some []
fragment_loop p random i (suc fuel) v0 v1 (x ∷ xs) =
    let again = λ (chunk : ℕ). fragment_loop p random (suc i) fuel v0 v1 (drop chunk (x ∷ xs)) in
    elim (pick (p.len) (random i)) [
      | none ↦ none
      | some n ↦
          let chunk = clamp1 n (length (x ∷ xs)) in
          let slice = take chunk (x ∷ xs) in
          elim (again chunk) [
            | none ↦ none
            | some out ↦ some (record_header v0 v1 slice ++ (slice ++ out))
          ]
    ]

unfoldable pub is_client_hello : List ℕ → Bool
is_client_hello r = leb 6 (length r) && (get_or r 0 0 == 22 && get_or r 5 0 == 1)

-- `fragment_clienthello_to_vec`
unfoldable pub fragment_clienthello_to_vec : List ℕ → FragmentParams → (ℕ → ℕ) → Option (List ℕ)
unfolding fragment_loop is_client_hello
fragment_clienthello_to_vec r p random =
    if is_client_hello r
    then fragment_loop p random 0 (length (drop 5 r)) (get_or r 1 0) (get_or r 2 0) (drop 5 r)
    else some r

-- The length of a record by its header.
unfoldable pub record_total : List ℕ → ℕ
record_total buf = 5 + (get_or buf 3 0 * 256 + get_or buf 4 0)

-- `read_first_record`, over what the reads give: an empty read, or none, is the end of the stream.
pub data ReadResult : Type 0 where
  got : List ℕ → ReadResult
  read_failed : ReadResult

pub data IoError : Type 0 where
  io_error : IoError

-- Its loops `while buf.len() < total`.
unfoldable pub fill : ℕ → List ℕ → List ReadResult → Outcome IoError (List ℕ × List ReadResult)
fill total buf [] = ok (buf, [])
fill total buf (read_failed ∷ rs) =
    if ltb (length buf) total then err io_error else ok (buf, read_failed ∷ rs)
fill total buf (got [] ∷ rs) =
    if ltb (length buf) total then ok (buf, []) else ok (buf, got [] ∷ rs)
fill total buf (got (x ∷ xs) ∷ rs) =
    let again = fill total (buf ++ (x ∷ xs)) rs in
    if ltb (length buf) total then again else ok (buf, got (x ∷ xs) ∷ rs)

-- The record, the bytes read past it, and the reads that are still to come.
unfoldable pub split_record : ℕ → List ℕ → List ReadResult → (List ℕ × List ℕ) × List ReadResult
split_record total buf rs =
    if ltb total (length buf) then ((take total buf, drop total buf), rs) else ((buf, []), rs)

unfoldable pub read_payload :
    ℕ → List ℕ → List ReadResult → Outcome IoError ((List ℕ × List ℕ) × List ReadResult)
unfolding fill split_record
read_payload total buf rs = elim (fill total buf rs) [
  | err e ↦ err e
  | panic ↦ panic
  | ok (buf', rs') ↦ ok (split_record total buf' rs')
]

unfoldable pub read_first_record :
    List ℕ → List ReadResult → Outcome IoError ((List ℕ × List ℕ) × List ReadResult)
unfolding fill read_payload record_total
read_first_record prefix reads = elim (fill 5 prefix reads) [
  | err e ↦ err e
  | panic ↦ panic
  | ok (buf, rs) ↦
      let rest = read_payload (record_total buf) buf rs in
      if ltb (length buf) 5 then ok ((buf, []), rs) else rest
]
