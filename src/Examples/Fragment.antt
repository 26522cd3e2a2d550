-- ===== src/Examples/Fragment.antt =====
-- The theorems on crates/donut-server/src/fragment.rs at concrete inputs.
use hold_the_donut.Prelude.{
  ℕ, ◌≡◌, refl, true, false, Option, none, some, List, [], ◌∷◌, ◌++◌, ◌==◌, length, drop, get_or,
  if◌then◌else◌, ok, err, arith,
}
use hold_the_donut.Server.Fragment.{
  FragmentParams, pick, clamp1, record_header, fragment_loop, is_client_hello,
  fragment_clienthello_to_vec, record_total, ReadResult, got, fill, split_record, read_payload,
  read_first_record, io_error,
}
use hold_the_donut.Server.Fragment.Reassembled.{
  Cut, largest, reassemble, fragment_clienthello_to_vec-reassemble,
}
use hold_the_donut.Server.Fragment.Stream.{Taken, bytes_of, read_first_record-Taken}
use hold_the_donut.Server.Fragment.Adapter.{
  Answer, accepts, not_ready, ready, FragmentWriter, new, drain_loop, after_drain, drain, is_empty,
  drain_pending, finalize, taken_in, finish_write, gather, write_ready, write_drained, poll_write,
  give_up, poll_flush, poll_shutdown,
}
use hold_the_donut.Server.Fragment.Paced.{
  write_all, flush, sleep, pause, write_loop, write_fragmented,
}
use hold_the_donut.Server.Fragment.Paced
use hold_the_donut.Server.Fragment.Delivered.{Delivered}
use hold_the_donut.Server.Fragment.Calls.{
  Op, write, after_write, call, calls, started, gives_up, calls-poll_flush-Delivered,
  calls-poll_shutdown-held,
}

abbrev params : FragmentParams
params = record { len = (2, 3); interval_ms = (0, 0) }

abbrev random : ℕ → ℕ
random i = i

abbrev hello : List ℕ
hello = 22 ∷ 3 ∷ 1 ∷ 0 ∷ 5 ∷ 1 ∷ 8 ∷ 9 ∷ 10 ∷ 11 ∷ []

fragment_clienthello_to_vec-reassemble_example :
    (out : List ℕ) × (fragment_clienthello_to_vec hello params random ≡ some out)
    × (if is_client_hello hello
        then Cut (get_or hello 1 0) (get_or hello 2 0) (largest (params.len)) (drop 5 hello) out
          × (reassemble (length out) (get_or hello 1 0) (get_or hello 2 0) out
              ≡ some (drop 5 hello))
        else (out ≡ hello))
fragment_clienthello_to_vec-reassemble_example =
    fragment_clienthello_to_vec-reassemble params random hello (omega arith, omega arith)
      (omega arith)

abbrev reads : List ReadResult
reads = got (0 ∷ []) ∷ got (1 ∷ 7 ∷ 8 ∷ []) ∷ got (9 ∷ []) ∷ []

read_hello :
    read_first_record (22 ∷ 3 ∷ 1 ∷ []) reads
    ≡ ok (((22 ∷ 3 ∷ 1 ∷ 0 ∷ 1 ∷ 7 ∷ [], 8 ∷ []), got (9 ∷ []) ∷ []))
unfolding read_first_record fill read_payload split_record record_total
read_hello = refl

read_first_record-Taken_example :
    Taken
      ((22 ∷ 3 ∷ 1 ∷ 0 ∷ 1 ∷ 7 ∷ [], 8 ∷ []), got (9 ∷ []) ∷ [])
      ((22 ∷ 3 ∷ 1 ∷ []) ++ bytes_of reads)
read_first_record-Taken_example = read_first_record-Taken (22 ∷ 3 ∷ 1 ∷ []) reads _ read_hello

-- The hello in two pieces, to a stream that takes it in pieces as well.
abbrev given : List Answer
given = accepts 4 ∷ not_ready ∷ accepts 9 ∷ accepts 90 ∷ []

abbrev ops : List Op
ops = write (22 ∷ 3 ∷ 1 ∷ 0 ∷ 5 ∷ []) ∷ write (1 ∷ 8 ∷ 9 ∷ 10 ∷ 11 ∷ []) ∷ []

abbrev held_out : List ℕ
held_out = 22 ∷ 3 ∷ 1 ∷ 0 ∷ 2 ∷ 1 ∷ 8 ∷ 22 ∷ 3 ∷ 1 ∷ 0 ∷ 3 ∷ 9 ∷ 10 ∷ 11 ∷ []

abbrev mid : FragmentWriter
mid = record {
  inner = record { taken = 22 ∷ 3 ∷ 1 ∷ 0 ∷ []; answers = accepts 9 ∷ accepts 90 ∷ [] };
  params = params;
  acc = [];
  out = held_out;
  out_pos = 4;
  is_done = true;
}

abbrev flushed : FragmentWriter
flushed = record {
  inner = record { taken = held_out; answers = [] };
  params = params;
  acc = [];
  out = [];
  out_pos = 0;
  is_done = true;
}

wrote : calls random ops (started given params) ≡ some (hello, mid)
unfolding calls call after_write poll_write drain_pending write_drained write_ready gather finalize
    finish_write taken_in drain drain_loop after_drain is_empty new fragment_clienthello_to_vec
    fragment_loop pick clamp1 record_header is_client_hello record_total
wrote = refl

flushed_out : poll_flush mid ≡ (flushed, ready tt)
unfolding poll_flush give_up drain_pending drain drain_loop after_drain is_empty
flushed_out = refl

calls-poll_flush-Delivered_example : Delivered random (gives_up ops) params hello held_out
calls-poll_flush-Delivered_example =
    calls-poll_flush-Delivered random params given ops hello mid flushed wrote flushed_out

abbrev half : List Op
half = write (22 ∷ 3 ∷ 1 ∷ []) ∷ []

abbrev waiting : FragmentWriter
waiting = record {
  inner = record { taken = []; answers = given };
  params = params;
  acc = 22 ∷ 3 ∷ 1 ∷ [];
  out = [];
  out_pos = 0;
  is_done = false;
}

wrote_half : calls random half (started given params) ≡ some (22 ∷ 3 ∷ 1 ∷ [], waiting)
unfolding calls call after_write poll_write drain_pending write_drained write_ready gather finalize
    finish_write taken_in is_empty new record_total
wrote_half = refl

calls-poll_shutdown-held_example :
    (poll_shutdown waiting ≡ (waiting, ready tt))
    × (waiting.inner.taken ≡ [])
    × (waiting.acc ≡ 22 ∷ 3 ∷ 1 ∷ [])
calls-poll_shutdown-held_example =
    calls-poll_shutdown-held random params given half (22 ∷ 3 ∷ 1 ∷ []) waiting wrote_half refl

-- The hello with a pause of five milliseconds, and a stream that fails in the fifth operation.
abbrev slow : FragmentParams
slow = record { len = (2, 3); interval_ms = (5, 5) }

abbrev breaks : ℕ → Option ℕ
breaks k = if k == 4 then some 1 else none

broken : write_fragmented breaks hello slow random ≡ (
  Paced.wrote (22 ∷ 3 ∷ 1 ∷ 0 ∷ 2 ∷ [])
      ∷ Paced.wrote (1 ∷ 8 ∷ [])
      ∷ Paced.flushed
      ∷ Paced.slept 5
      ∷ Paced.wrote (22 ∷ 3 ∷ 1 ∷ 0 ∷ 2 ∷ [])
      ∷ Paced.wrote (9 ∷ [])
      ∷ [],
  err io_error,
)
unfolding write_fragmented write_loop write_all flush sleep pause pick clamp1 record_header
    is_client_hello
broken = refl
