-- ===== src/Examples/Carrier.antt =====
-- The theorems on crates/donut-carrier at concrete inputs.
use hold_the_donut.Prelude.{
  ℕ, zero, suc, ◌+◌, ◌<◌, ◌≡◌, ◌≢◌, refl, sym, ◌∙◌, inl, inr, true, false, not, Bool-cases, none,
  List, [], ◌∷◌, ◌++◌, length, ltb, ◌==◌, if◌then◌else◌, All, all, codes, Outcome, ok, err, arith,
}
use hold_the_donut.Examples.Hex.{hex, hex-IsHex, encode, digit}
use hold_the_donut.Carrier.Config.{
  ServerConfig, CarrierError, packet_up, in_path, in_query, in_header, upload_chunk_too_large,
}
use hold_the_donut.Carrier.SessionId.{SessionId, IsSessionId, to_hex}
use hold_the_donut.Carrier.Extract.{Head, session_id, sequence, host_pinned, to_ascii_lowercase}
use hold_the_donut.Carrier.PacketUp.{
  Bytes, get, insert, remove, u64_succ, release, advance, take_accept, begin_uplink, finish_uplink,
  fresh_state, uplink, downlink, bad_request_400, ok_200, dangling,
}
use hold_the_donut.Carrier.PacketUp.Release.{upto}
use hold_the_donut.Carrier.PacketUp.Ordered.{InOrder}
use hold_the_donut.Carrier.PacketUp.Runs.{
  Call, IsCall, post, get_down, serve, run, Acknowledged, here, there, fresh-InOrder, run-InOrder,
  run-upto, empty_pipe, served,
}
use hold_the_donut.Carrier.PacketUp.HandOver.{run_handed, run_handed-served, any_ok, session_of}
use hold_the_donut.Carrier.PacketUp.Overlap.{begin_uplink-uplink-lost}
use hold_the_donut.Carrier.PacketUp.Handle.{
  Request, part, trailers, Dispatcher, handle, find_session, status, collect_body,
}
use hold_the_donut.Carrier.PacketUp.Isolation.{
  handle-find_session_other, collect_body-joined, joined, whole, more, skipped,
}
use hold_the_donut.Carrier.Client.{
  ClientConfig, Sent, post_request, build_request, compose_path, with_slash, ends_with_slash,
}
use hold_the_donut.Carrier.Client.Agree.{
  post_request-session_id-sequence, handle-post_request-in_query, ReadFrom, IsFree, find_header,
}

abbrev sid : SessionId
sid = 1 ∷ 2 ∷ 3 ∷ 4 ∷ 5 ∷ 6 ∷ 7 ∷ 8 ∷ 9 ∷ 10 ∷ 11 ∷ 12 ∷ 13 ∷ 14 ∷ 15 ∷ 255 ∷ []

abbrev sent : ℕ → Bytes
sent n = (n + 1) ∷ 7 ∷ []

-- Out of order, with a repetition and a GET.
abbrev calls : List Call
calls = post 1 ∷ get_down ∷ post 0 ∷ post 1 ∷ post 3 ∷ []

calls-IsCall : All IsCall calls
calls-IsCall = (omega arith, (tt, (omega arith, (omega arith, (omega arith, tt)))))

run-InOrder_example :
    InOrder sent 1 ((served sent 1 sid [] calls).0.0) ((served sent 1 sid [] calls).0.1)
run-InOrder_example = run-InOrder sent 1 sid [] calls calls-IsCall

acknowledged : (k : ℕ) → k < 2 → Acknowledged k ((served sent 1 sid [] calls).1)
unfolding run serve uplink finish_uplink begin_uplink advance take_accept release insert get remove
    u64_succ downlink fresh_state
acknowledged zero lt = there (there here)
acknowledged (suc zero) lt = here
acknowledged (suc (suc k)) lt = absurd (omega arith)

run-upto_example :
    (rest : Bytes) × ((served sent 1 sid [] calls).0.1.received ≡ upto sent 2 ++ rest)
run-upto_example = run-upto sent 1 sid [] calls 2 calls-IsCall acknowledged

run_handed-served_example :
    run_handed sent 1 calls (fresh_state sid [], empty_pipe)
    ≡ (if any_ok ((served sent 1 sid [] calls).1) then session_of sid [] ∷ [] else [])
run_handed-served_example = run_handed-served sent 1 sid [] calls

begun-next : 1 ≡ (begin_uplink 1 0 (sent 0) (fresh_state sid [])).0.next_seq
unfolding begin_uplink advance take_accept release insert get remove u64_succ fresh_state
begun-next = refl

begun-start : (fresh_state sid []).next_seq ≡ 0
unfolding fresh_state
begun-start = refl

begin_uplink-uplink-lost_example :
    let q = uplink 1 1 (sent 1) ((begin_uplink 1 0 (sent 0) (fresh_state sid [])).0, empty_pipe) in
    (q.1.0 ≡ ok_200) × (q.0.1 ≡ empty_pipe) × (1 < q.0.0.next_seq) × (q.0.0.upload_wr ≡ dangling)
begin_uplink-uplink-lost_example =
    begin_uplink-uplink-lost sent 1 0 1 (fresh_state sid []) empty_pipe empty_pipe
      (fresh-InOrder sent 1 sid []) (omega (arith, begun-start)) (inl begun-start) (omega arith)
      (omega arith) begun-next

-- A server and a client that are configured alike.
abbrev prefix : List ℕ
prefix = codes "/api"

abbrev server : ServerConfig
server = record {
  mode = packet_up;
  session_placement = in_path;
  seq_placement = in_header;
  session_header = codes "X-Session";
  session_key = codes "x_session";
  seq_header = codes "X-Seq";
  path_prefix = prefix;
  max_post_bytes = 10;
  max_buffered_posts = 30;
  decoy = none;
  host = none;
}

abbrev query_server : ServerConfig
query_server = record {
  mode = packet_up;
  session_placement = in_path;
  seq_placement = in_query;
  session_header = codes "X-Session";
  session_key = codes "x_session";
  seq_header = codes "X-Seq";
  path_prefix = prefix;
  max_post_bytes = 10;
  max_buffered_posts = 30;
  decoy = none;
  host = none;
}

abbrev client : ClientConfig
client = record {
  session_placement = in_path;
  seq_placement = in_header;
  session_header = codes "X-Session";
  session_key = codes "x_session";
  seq_header = codes "X-Seq";
  path_prefix = prefix;
  host = codes "a.io";
}

abbrev query_client : ClientConfig
query_client = record {
  session_placement = in_path;
  seq_placement = in_query;
  session_header = codes "X-Session";
  session_key = codes "x_session";
  seq_header = codes "X-Seq";
  path_prefix = prefix;
  host = codes "a.io";
}

-- A request as it is read.
abbrev head_of : Sent → Head
head_of s = record {
  is_get = s.is_get;
  path = s.target;
  query = none;
  authority = none;
  header = λ name. find_header name (s.headers);
  cookies = [];
}

ReadFrom-head_of : (s : Sent) → ReadFrom s (head_of s)
ReadFrom-head_of s = record {
  same_method = refl;
  plain_path = λ h. refl;
  no_query = λ h. refl;
  headers = λ name. refl;
}

sid-IsSessionId : IsSessionId sid
sid-IsSessionId = (refl, ground arith)

free : IsFree (codes "X-Seq")
unfolding to_ascii_lowercase
free = record { no_host = λ e. cc; no_type = λ e. cc }

all_plain : (xs : List ℕ) → all (λ c. not (c == b'?')) xs ≡ true → All (λ c. c ≢ b'?') xs
unfolding all
all_plain [] h = tt
all_plain (x ∷ xs) h = elim (Bool-cases (x == b'?')) [
  | inl t ↦ absurd (false-ne (rw t at h))
  | inr f ↦ (ne_of f, all_plain xs (rw f at h))
]
  where
    false-ne : false ≢ true
    false-ne e = cc

    ne_of : {a : ℕ} → (a == b'?') ≡ false → a ≢ b'?'
    ne_of f = ground arith

plain_target :
    (c : ClientConfig) (n : ℕ)
    → c.session_placement ≡ in_path
    → c.path_prefix ≡ prefix
    → All (λ c. c ≢ b'?') ((post_request hex c sid n).target)
unfolding post_request build_request compose_path with_slash ends_with_slash to_hex encode digit all
plain_target c n p q = rw (p, q) (all_plain (prefix ++ (b'/' ∷ encode sid)) refl)

post_request-session_id-sequence_example :
    let head = head_of (post_request hex client sid 12) in
    (session_id hex head server ≡ ok (sid, [])) × (sequence head server ≡ ok 12)
unfolding host_pinned
post_request-session_id-sequence_example =
    post_request-session_id-sequence hex hex-IsHex client server sid 12
      (head_of (post_request hex client sid 12)) sid-IsSessionId (omega arith) refl refl refl refl
      refl refl free refl (plain_target client 12 refl refl)
      (ReadFrom-head_of (post_request hex client sid 12))

abbrev query_post : Request
query_post = record {
  head = head_of (post_request hex query_client sid 12);
  body = part (7 ∷ []) ∷ [];
  remote = [];
}

abbrev idle : Dispatcher
idle = record { sessions = []; accepts = [] }

handle-post_request-in_query_example :
    handle hex query_server query_post idle ≡ (idle, ok (status bad_request_400))
unfolding host_pinned
handle-post_request-in_query_example =
    handle-post_request-in_query hex hex-IsHex query_client query_server sid 12 query_post idle
      sid-IsSessionId refl refl refl refl refl refl refl (plain_target query_client 12 refl refl)
      (ReadFrom-head_of (post_request hex query_client sid 12))

abbrev post_12 : Request
post_12 = record {
  head = head_of (post_request hex client sid 12);
  body = part (7 ∷ []) ∷ trailers ∷ [];
  remote = [];
}

found_12 : session_id hex (post_12.head) server ≡ ok (sid, [])
unfolding host_pinned
found_12 =
    (post_request-session_id-sequence hex hex-IsHex client server sid 12 (post_12.head)
      sid-IsSessionId (omega arith) refl refl refl refl refl refl free refl
      (plain_target client 12 refl refl) (ReadFrom-head_of (post_request hex client sid 12))).0

other_session : (tail : List ℕ) → session_id hex (post_12.head) server ≢ ok (5 ∷ [], tail)
other_session tail e = absurd (sids_differ (sym found_12 ∙ e))
  where
    sids_differ :
        ◌≢◌ {A = Outcome CarrierError (SessionId × List ℕ)} (ok (sid, [])) (ok (5 ∷ [], tail))
    sids_differ e = cc

abbrev two_sessions : Dispatcher
two_sessions = record {
  sessions = (5 ∷ [], (fresh_state (5 ∷ []) [], empty_pipe)) ∷ [];
  accepts = [];
}

handle-find_session_other_example :
    find_session (5 ∷ []) ((handle hex server post_12 two_sessions).0.sessions)
    ≡ find_session (5 ∷ []) (two_sessions.sessions)
handle-find_session_other_example =
    handle-find_session_other hex server post_12 two_sessions (5 ∷ []) other_session

collect_body-joined_example : collect_body (post_12.body) 10 ≡ (
    if ltb 10 (length (joined (post_12.body)))
    then err upload_chunk_too_large
    else ok (joined (post_12.body)))
collect_body-joined_example = collect_body-joined (post_12.body) 10 (more (7 ∷ []) (skipped whole))
